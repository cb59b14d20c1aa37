-- ===== src/Persist/Complete.antt =====
-- The files after a save (internal/persist/engine.go).
use cache_custom.Prelude.{
  ℕ, ◌≡◌, refl, ap, sym, ◌∙◌, Bool, true, false, ◌&&◌, Option, none, some, List, [], ◌∷◌, ◌++◌,
  if◌then◌else◌, arith, Bool-cases, inl, inr,
}
use mathlib.Core.List.{append_assoc}
use cache_custom.Bytes.{Bytes}
use cache_custom.Persist.Mode.{mode_aof, mode_both}
use cache_custom.Persist.Format.{pack}
use cache_custom.Persist.Log.{AofLine, set_line}
use cache_custom.Persist.Engine.{
  Engine, SnapTenant, OsCall, write_line, sync_line, write_delta, rename_delta, begin_catchup,
  export_lines, bytes_of, rewrite_while, snapshot_while, finished, save_while,
}
use cache_custom.Persist.Seen.{or_zero}
use cache_custom.Store.Snapshot.{Record}
use cache_custom.Prelude.Int.{pos}
use cache_custom.Persist.Absorb.{replay, replay-append, replay_again}
use cache_custom.Persist.Window.{
  IsOpen, base_works, cut_works, bytes_of-append, snap_works, rewrite_file, snapshot_files,
}

-- The records of a snapshot, told as lines that keep every deadline in full.
told : Bytes → List Record → List AofLine
unfolding set_line
told t [] = []
told t (r ∷ rs) =
    record (set_line t r.key r.value none) { exp = pos (or_zero r.expires_at) } ∷ told t rs

unfoldable pub snapshot_lines : List SnapTenant → List AofLine
unfolding told
snapshot_lines [] = []
snapshot_lines (t ∷ ts) = told t.name t.keys ++ snapshot_lines ts

-- The records, told as lines, were gathered while the lines `during` were written: each key was
-- read after some of them. `before` are the lines that tell the state at the start of the save.
abbrev pub Gathered : List AofLine → List AofLine → List AofLine → Type 0
Gathered records before during =
    (t k : Bytes)
    → (early : List AofLine) × (late : List AofLine) × (during ≡ early ++ late)
      × (replay t k records none ≡ replay t k (before ++ early) none)

-- Two lists of lines that tell the same of every key.
abbrev pub SameData : List AofLine → List AofLine → Type 0
SameData xs ys = (t k : Bytes) → replay t k xs none ≡ replay t k ys none

-- Lines on top of records that some of the first of them led to.
on_top :
    (t k : Bytes) (records base lines early rest : List AofLine)
    → replay t k records none ≡ replay t k (base ++ early) none
    → lines ≡ early ++ rest
    → replay t k (records ++ lines) none ≡ replay t k (base ++ lines) none
on_top t k records base lines early rest same e =
    replay-append t k records lines none
    ∙ ap (replay t k lines) (same ∙ replay-append t k base early none)
    ∙ ap (λ ls. replay t k ls (replay t k early (replay t k base none))) e
    ∙ replay_again t k early rest (replay t k base none)
    ∙ sym (ap (λ ls. replay t k ls (replay t k base none)) e)
    ∙ sym (replay-append t k base lines none)

split_lines :
    (during early late after : List AofLine)
    → during ≡ early ++ late
    → during ++ after ≡ early ++ (late ++ after)
split_lines during early late after e = ap (λ ls. ls ++ after) e ∙ append_assoc early late after

on_records :
    (records before during after : List AofLine)
    → Gathered records before during
    → SameData (records ++ (during ++ after)) (before ++ (during ++ after))
on_records records before during after g t k =
    let (early, late, e, same) = g t k in
    on_top t k records before (during ++ after) early (late ++ after) same
      (split_lines during early late after e)

-- Where the old lines are still there, they too are replayed on top of the records.
on_old :
    (records base old during after : List AofLine)
    → Gathered records (base ++ old) during
    → SameData (records ++ (old ++ (during ++ after))) (base ++ (old ++ (during ++ after)))
on_old records base old during after g t k =
    let (early, late, e, same) = g t k in
    on_top t k records base (old ++ (during ++ after)) (old ++ early) (late ++ after)
      (same ∙ ap (λ ls. replay t k ls none) (append_assoc base old early))
      (ap (λ ls. old ++ ls) (split_lines during early late after e)
        ∙ sym (append_assoc old early (late ++ after)))

files_finished :
    (works : OsCall → Bool) (encode : AofLine → Bytes) (marshal : List SnapTenant → Bytes)
    (crc32 : Bytes → ℕ) (r : Bool × Engine)
    → ((finished works encode marshal crc32 r).1.aof_file ≡ r.1.aof_file)
      × ((finished works encode marshal crc32 r).1.snap_file ≡ r.1.snap_file)
unfolding finished
files_finished works encode marshal crc32 (true, e) = (refl, refl)
files_finished works encode marshal crc32 (false, e) = (refl, refl)

-- The snapshot file, where there is one.
abbrev pub packed_of :
    (List SnapTenant → Bytes) → (Bytes → ℕ) → Option (List SnapTenant) → Option Bytes
packed_of marshal crc32 none = none
packed_of marshal crc32 (some b) = some (pack crc32 (marshal b))

abbrev pub snapshot_of : Option (List SnapTenant) → List AofLine
snapshot_of none = []
snapshot_of (some ts) = snapshot_lines ts

if_true : {A : Type 0} (b : Bool) (x y : A) → b ≡ true → (if b then x else y) ≡ x
if_true true x y e = refl
if_true false x y e = absurd cc

if_false : {A : Type 0} (b : Bool) (x y : A) → b ≡ false → (if b then x else y) ≡ y
if_false true x y e = absurd cc
if_false false x y e = refl

module _ (works : OsCall → Bool) (encode : AofLine → Bytes) (marshal : List SnapTenant → Bytes)
    (crc32 : Bytes → ℕ) (writes : works write_line ≡ true) (syncs : works sync_line ≡ true)
    (now : ℕ) (ts : List SnapTenant) (during after : List AofLine) (e : Engine) where
  abbrev pub result : Engine
  result = (save_while works encode marshal crc32 now ts during after e).1

  started :
      e.aof ≡ true
      → (file : Bytes) → e.aof_file ≡ some file
      → IsOpen true file [] e.snap_file (begin_catchup (record e { saving = true }))
  started o file f = record {
    is_open = o;
    window_is = refl;
    file_is = f;
    buffer_is = refl;
    snap_is = refl;
  }

  rewrite_step :
      e.mode ≡ mode_aof
      → e.saving ≡ false
      → save_while works encode marshal crc32 now ts during after e
        ≡ finished works encode marshal crc32 (
            rewrite_while works encode marshal crc32 now ts during after
              (begin_catchup (record e { saving = true })))
  unfolding save_while
  rewrite_step m s = ground (arith, m, s)

  hybrid_step :
      e.mode ≡ mode_both
      → e.saving ≡ false
      → save_while works encode marshal crc32 now ts during after e
        ≡ finished works encode marshal crc32 (
            snapshot_while works encode marshal crc32 now ts during after
              (begin_catchup (record e { saving = true })))
  unfolding save_while
  hybrid_step m s = ground (arith, m, s)

  -- SAVE in mode aof, with any calls of the operating system failing but those of an append and
  -- with no other save on its way, on an open file whose lines tell the data at its start, while
  -- other goroutines append lines as the records are gathered and after, where each key is read at
  -- some moment of the gathering: the file afterwards is a sequence of whole lines whose replay
  -- gives for every key what the old lines and all the appended ones give.
  pub rewrite_complete :
      (old : List AofLine)
      → e.mode ≡ mode_aof
      → e.saving ≡ false
      → e.aof ≡ true
      → e.aof_file ≡ some (bytes_of works encode marshal crc32 old)
      → Gathered (export_lines ts) old during
      → (lines : List AofLine) × (result.aof_file
          ≡ some (bytes_of works encode marshal crc32 lines))
        × SameData lines (old ++ (during ++ after))
  rewrite_complete old m s o f g =
      let busy = begin_catchup (record e { saving = true }) in
      let all = during ++ after in
      let at_end =
        ap (λ r. r.1.aof_file) (rewrite_step m s)
        ∙ (files_finished works encode marshal crc32
            (rewrite_while works encode marshal crc32 now ts during after busy)).0
        ∙ rewrite_file works encode marshal crc32 writes syncs now ts during after
            (bytes_of works encode marshal crc32 old) e.snap_file busy
            (started o (bytes_of works encode marshal crc32 old) f) in
      let kept = ap some (sym (bytes_of-append works encode marshal crc32 old all)) in
      elim (Bool-cases (
        base_works works encode marshal crc32 writes syncs
        && cut_works works encode marshal crc32 writes syncs)) [
          | inl ok ↦ (
            export_lines ts ++ all,
            at_end ∙ if_true _ _ _ ok,
            on_records (export_lines ts) old during after g,
          )
          | inr bad ↦ (old ++ all, at_end ∙ if_false _ _ _ bad ∙ kept, λ t k. refl)
        ]

  -- SAVE in mode snapshot+aof, with any calls of the operating system failing but those of an
  -- append and with no other save on its way, from a snapshot or none and an open file that
  -- together tell the data at its start, while other goroutines append lines as the records are
  -- gathered and after, where each key is read at some moment of the gathering: the snapshot and
  -- the lines on the disk afterwards together give for every key what the old ones and all the
  -- appended lines give.
  pub hybrid_complete :
      (base : Option (List SnapTenant)) (old : List AofLine)
      → e.mode ≡ mode_both
      → e.saving ≡ false
      → e.aof ≡ true
      → e.snap_file ≡ packed_of marshal crc32 base
      → e.aof_file ≡ some (bytes_of works encode marshal crc32 old)
      → Gathered (snapshot_lines ts) (snapshot_of base ++ old) during
      → (base' : Option (List SnapTenant)) × (lines : List AofLine) × (result.snap_file
          ≡ packed_of marshal crc32 base')
        × (result.aof_file ≡ some (bytes_of works encode marshal crc32 lines))
        × SameData (snapshot_of base' ++ lines) (snapshot_of base ++ (old ++ (during ++ after)))
  hybrid_complete base old m s o p f g =
      let busy = begin_catchup (record e { saving = true }) in
      let all = during ++ after in
      let file = bytes_of works encode marshal crc32 old in
      let r = snapshot_while works encode marshal crc32 now ts during after busy in
      let files =
        snapshot_files works encode marshal crc32 writes syncs now ts during after file e.snap_file
          busy (started o file f) in
      let aof_end =
        ap (λ x. x.1.aof_file) (hybrid_step m s)
        ∙ (files_finished works encode marshal crc32 r).0
        ∙ files.0 in
      let snap_end =
        ap (λ x. x.1.snap_file) (hybrid_step m s)
        ∙ (files_finished works encode marshal crc32 r).1
        ∙ files.1 in
      let kept = ap some (sym (bytes_of-append works encode marshal crc32 old all)) in
      let snap_ok = snap_works works encode marshal crc32 writes syncs in
      elim (Bool-cases snap_ok) [
        | inr bad ↦ (
          base,
          old ++ all,
          snap_end ∙ if_false _ _ _ bad ∙ p,
          aof_end
              ∙ if_false (snap_ok && works write_delta && works rename_delta) _ _
                  (ground (arith, bad))
              ∙ kept,
          λ t k. refl,
        )
        | inl ok ↦ elim (Bool-cases (works write_delta && works rename_delta)) [
          | inl swapped ↦ (
            some ts,
            all,
            snap_end ∙ if_true _ _ _ ok,
            aof_end
                ∙ if_true (snap_ok && works write_delta && works rename_delta) _ _
                    (ground (arith, ok, swapped)),
            λ t k.
                on_records (snapshot_lines ts) (snapshot_of base ++ old) during after g t k
                ∙ ap (λ ls. replay t k ls none) (append_assoc (snapshot_of base) old all),
          )
          | inr left ↦ (
            some ts,
            old ++ all,
            snap_end ∙ if_true _ _ _ ok,
            aof_end
                ∙ if_false (snap_ok && works write_delta && works rename_delta) _ _
                    (ground (arith, ok, left))
                ∙ kept,
            on_old (snapshot_lines ts) (snapshot_of base) old during after g,
          )
        ]
      ]
