-- ===== src/Persist/Window.antt =====
-- The files and the buffer while a save is on its way (internal/persist/engine.go).
use cache_custom.Prelude.{
  ℕ, ◌≡◌, inl, inr, refl, ap, sym, ◌∙◌, Bool, true, false, ◌&&◌, Option, none, some, List, [], ◌∷◌,
  ◌++◌, if◌then◌else◌, arith, Bool-cases,
}
use mathlib.Core.List.{append_assoc, append-nil}
use cache_custom.Bytes.{Bytes}
use cache_custom.Persist.Format.{pack}
use cache_custom.Persist.Log.{AofLine}
use cache_custom.Persist.Engine.{
  Engine, SnapTenant, OsCall, write_line, sync_line, create_rewrite, write_rewrite, flush_rewrite,
  write_catchup, sync_rewrite, close_rewrite, rename_rewrite, make_dir, create_snapshot,
  write_header, write_body, sync_snapshot, close_snapshot, rename_snapshot, write_delta,
  rename_delta, abort_catchup, export_lines, bytes_of, append_aof, append_all, write_snapshot,
  install_catchup, rewrite_base, cut_over, rewrite_while, snapshot_while, all_work,
}

-- An engine whose append-only file is open: whether a save is on its way, and what the files and
-- the buffer hold.
pub record IsOpen (window : Bool) (file buffer : Bytes) (snap : Option Bytes) (e : Engine)
    : Type 0 where
  pub is_open : e.aof ≡ true
  pub window_is : e.catching_up ≡ window
  pub file_is : e.aof_file ≡ some file
  pub buffer_is : e.catchup ≡ buffer
  pub snap_is : e.snap_file ≡ snap

module _ (works : OsCall → Bool) (encode : AofLine → Bytes) (marshal : List SnapTenant → Bytes)
    (crc32 : Bytes → ℕ) where
  abbrev pub bytes : List AofLine → Bytes
  bytes ls = bytes_of works encode marshal crc32 ls

  pub bytes_of-append : (xs ys : List AofLine) → bytes (xs ++ ys) ≡ bytes xs ++ bytes ys
  unfolding bytes_of
  bytes_of-append [] ys = refl
  bytes_of-append (l ∷ xs) ys =
      ap (λ b. (encode l ++ 10 ∷ []) ++ b) (bytes_of-append xs ys)
      ∙ sym (append_assoc (encode l ++ 10 ∷ []) (bytes xs) (bytes ys))

  module _ (writes : works write_line ≡ true) (syncs : works sync_line ≡ true) where
    append_aof-IsOpen :
        (window : Bool) (file buffer : Bytes) (snap : Option Bytes) (l : AofLine) (e : Engine)
        → IsOpen window file buffer snap e
        → IsOpen window
            (file ++ (encode l ++ 10 ∷ []))
            (if window then buffer ++ (encode l ++ 10 ∷ []) else buffer)
            snap
            (append_aof works encode marshal crc32 l e).1
    unfolding append_aof
    append_aof-IsOpen window file buffer snap l e o = record {
      is_open =
          ground (arith, writes, syncs, o.is_open, o.window_is, o.file_is, o.buffer_is, o.snap_is);
      window_is =
          ground (arith, writes, syncs, o.is_open, o.window_is, o.file_is, o.buffer_is, o.snap_is);
      file_is =
          ground (arith, writes, syncs, o.is_open, o.window_is, o.file_is, o.buffer_is, o.snap_is);
      buffer_is =
          ground (arith, writes, syncs, o.is_open, o.window_is, o.file_is, o.buffer_is, o.snap_is);
      snap_is =
          ground (arith, writes, syncs, o.is_open, o.window_is, o.file_is, o.buffer_is, o.snap_is);
    }

    append_all-IsOpen :
        (window : Bool) (file buffer : Bytes) (snap : Option Bytes) (ls : List AofLine) (e : Engine)
        → IsOpen window file buffer snap e
        → IsOpen window
            (file ++ bytes ls)
            (if window then buffer ++ bytes ls else buffer)
            snap
            (append_all works encode marshal crc32 ls e)
    unfolding append_all bytes_of
    append_all-IsOpen true file buffer snap [] e o = rw (append-nil file, append-nil buffer) o
    append_all-IsOpen false file buffer snap [] e o = rw (append-nil file) o
    append_all-IsOpen true file buffer snap (l ∷ ls) e o =
        let b = encode l ++ 10 ∷ [] in
        rw (sym (append_assoc file b (bytes ls)), sym (append_assoc buffer b (bytes ls)))
          (append_all-IsOpen true (file ++ b) (buffer ++ b) snap ls _
            (append_aof-IsOpen true file buffer snap l e o))
    append_all-IsOpen false file buffer snap (l ∷ ls) e o =
        let b = encode l ++ 10 ∷ [] in
        rw (sym (append_assoc file b (bytes ls))) (
          append_all-IsOpen false (file ++ b) buffer snap ls _
            (append_aof-IsOpen false file buffer snap l e o))

    twice_appended :
        (file : Bytes) (xs ys : List AofLine)
        → (file ++ bytes xs) ++ bytes ys ≡ file ++ bytes (xs ++ ys)
    twice_appended file xs ys =
        append_assoc file (bytes xs) (bytes ys) ∙ ap (λ b. file ++ b) (sym (bytes_of-append xs ys))

    -- The lines that are written in two parts of a window.
    two_parts :
        (file : Bytes) (snap : Option Bytes) (xs ys : List AofLine) (e : Engine)
        → IsOpen true (file ++ bytes xs) (bytes xs) snap e
        → IsOpen true
            (file ++ bytes (xs ++ ys))
            (bytes (xs ++ ys))
            snap
            (append_all works encode marshal crc32 ys e)
    two_parts file snap xs ys e o =
        rw (sym (twice_appended file xs ys), bytes_of-append xs ys)
          (append_all-IsOpen true (file ++ bytes xs) (bytes xs) snap ys e o)

    cut_over_file :
        (now : ℕ) (base file buffer : Bytes) (snap : Option Bytes) (e : Engine)
        → IsOpen true file buffer snap e
        → (cut_over works encode marshal crc32 now (some base) e).1.aof_file ≡ (
            if works write_catchup
              && works sync_rewrite
              && works close_rewrite
              && works rename_rewrite
            then some (base ++ buffer)
            else some file)
    unfolding cut_over all_work
    cut_over_file now base file buffer snap e o = ground (arith, o.file_is, o.buffer_is)

    aborted_file :
        (file : Bytes) (snap : Option Bytes) (xs ys : List AofLine) (e : Engine)
        → IsOpen true (file ++ bytes xs) (bytes xs) snap e
        → IsOpen false
            (file ++ bytes (xs ++ ys))
            []
            snap
            (append_all works encode marshal crc32 ys (abort_catchup e))
    aborted_file file snap xs ys e o = rw (sym (twice_appended file xs ys)) (
        append_all-IsOpen false (file ++ bytes xs) [] snap ys (abort_catchup e) (record {
          is_open = o.is_open;
          window_is = refl;
          file_is = o.file_is;
          buffer_is = refl;
          snap_is = o.snap_is;
        }))

    abbrev pub base_works : Bool
    base_works = works create_rewrite && works write_rewrite && works flush_rewrite

    abbrev pub cut_works : Bool
    cut_works =
        works write_catchup && works sync_rewrite && works close_rewrite && works rename_rewrite

    rewrite_base_lem :
        (ts : List SnapTenant) (e : Engine)
        → rewrite_base works encode marshal crc32 ts e
          ≡ (if base_works then (some (bytes (export_lines ts)), e) else (none, abort_catchup e))
    unfolding rewrite_base all_work
    rewrite_base_lem ts e = ground arith

    pub rewrite_file :
        (now : ℕ) (ts : List SnapTenant) (during after : List AofLine) (file : Bytes)
        (snap : Option Bytes) (e : Engine)
        → IsOpen true file [] snap e
        → (rewrite_while works encode marshal crc32 now ts during after e).1.aof_file ≡ (
            if base_works && cut_works
            then some (bytes (export_lines ts ++ (during ++ after)))
            else some (file ++ bytes (during ++ after)))
    unfolding rewrite_while
    rewrite_file now ts during after file snap e o =
        let e1 = append_all works encode marshal crc32 during e in
        let o1 = append_all-IsOpen true file [] snap during e o in
        elim (Bool-cases base_works) [
          | inl ok ↦
              rw (rewrite_base_lem ts e1, ok, bytes_of-append (export_lines ts) (during ++ after))
                (cut_over_file now (bytes (export_lines ts)) (file ++ bytes (during ++ after))
                  (bytes (during ++ after)) snap (append_all works encode marshal crc32 after e1)
                  (two_parts file snap during after e1 o1))
          | inr bad ↦
              rw (rewrite_base_lem ts e1, bad) (aborted_file file snap during after e1 o1).file_is
        ]

    abbrev pub snap_works : Bool
    snap_works =
        works make_dir
        && works create_snapshot
        && works write_header
        && works write_body
        && works sync_snapshot
        && works close_snapshot
        && works rename_snapshot

    abbrev pub packed : List SnapTenant → Option Bytes
    packed ts = some (pack crc32 (marshal ts))

    write_snapshot_lem :
        (now : ℕ) (ts : List SnapTenant) (e : Engine)
        → write_snapshot works encode marshal crc32 now ts e ≡ (
            if snap_works
            then (true, record e { snap_file = packed ts; last_save = now })
            else (false, abort_catchup e))
    unfolding write_snapshot all_work
    write_snapshot_lem now ts e = ground arith

    install_file :
        (file buffer : Bytes) (snap : Option Bytes) (e : Engine)
        → IsOpen true file buffer snap e
        → ((install_catchup works encode marshal crc32 e).1.aof_file
            ≡ (if works write_delta && works rename_delta then some buffer else some file))
          × ((install_catchup works encode marshal crc32 e).1.snap_file ≡ snap)
    unfolding install_catchup
    install_file file buffer snap e o =
        (ground (arith, o.file_is, o.buffer_is), ground (arith, o.snap_is))

    -- The two files of a hybrid save.
    pub snapshot_files :
        (now : ℕ) (ts : List SnapTenant) (during after : List AofLine) (file : Bytes)
        (snap : Option Bytes) (e : Engine)
        → IsOpen true file [] snap e
        → ((snapshot_while works encode marshal crc32 now ts during after e).1.aof_file ≡ (
            if snap_works && works write_delta && works rename_delta
            then some (bytes (during ++ after))
            else some (file ++ bytes (during ++ after))))
          × ((snapshot_while works encode marshal crc32 now ts during after e).1.snap_file
              ≡ (if snap_works then packed ts else snap))
    unfolding snapshot_while
    snapshot_files now ts during after file snap e o =
        let e1 = append_all works encode marshal crc32 during e in
        let o1 = append_all-IsOpen true file [] snap during e o in
        elim (Bool-cases snap_works) [
          | inl ok ↦
              rw (write_snapshot_lem now ts e1, ok)
                (install_file (file ++ bytes (during ++ after)) (bytes (during ++ after))
                  (packed ts) _
                  (two_parts file (packed ts) during after
                    (record e1 { snap_file = packed ts; last_save = now })
                    (record {
                      is_open = o1.is_open;
                      window_is = o1.window_is;
                      file_is = o1.file_is;
                      buffer_is = o1.buffer_is;
                      snap_is = refl;
                    })))
          | inr bad ↦
              let left = aborted_file file snap during after e1 o1 in
              rw (write_snapshot_lem now ts e1, bad) (left.file_is, left.snap_is)
        ]
