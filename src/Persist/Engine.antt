-- ===== src/Persist/Engine.antt =====
-- The engine of internal/persist/engine.go: appends, and a save while other goroutines append. The
-- two files stand in the state; what happens to temporary files is left out.
use cache_custom.Prelude.{
  ℕ, Bool, true, false, not, ◌&&◌, Option, none, some, List, [], ◌∷◌, ◌++◌, if◌then◌else◌,
}
use cache_custom.Bytes.{Bytes}
use cache_custom.Store.{Mutation}
use cache_custom.Store.Snapshot.{Record}
use cache_custom.Persist.Mode.{
  Mode, mode_none, mode_snapshot, mode_aof, mode_both, FsyncPolicy, fsync_always, fsync_everysec,
  fsync_no,
}
use cache_custom.Persist.Log.{AofLine, set_line, line_of}
use cache_custom.Persist.Format.{pack}

-- `aof` tells whether the append-only file is open.
pub record Engine : Type 0 where
  pub mode : Mode
  pub fsync : FsyncPolicy
  pub aof : Bool
  pub last_save : ℕ
  pub saving : Bool
  pub catching_up : Bool
  pub catchup : Bytes
  pub aof_file : Option Bytes
  pub snap_file : Option Bytes

-- An engine over the files that are there. The types leave no empty mode or policy, for which `New`
-- takes none and everysec, and the directory is left out.
abbrev pub new_engine : Mode → FsyncPolicy → Option Bytes → Option Bytes → Engine
new_engine mode fsync aof_file snap_file = record {
  mode = mode;
  fsync = fsync;
  aof = false;
  last_save = 0;
  saving = false;
  catching_up = false;
  catchup = [];
  aof_file = aof_file;
  snap_file = snap_file;
}

pub record SnapTenant : Type 0 where
  pub name : Bytes
  pub keys : List Record

-- The calls of the operating system, by their places in the code.
pub data OsCall : Type 0 where
  make_dir open_aof write_line sync_line close_aof : OsCall
  create_snapshot write_header write_body sync_snapshot close_snapshot rename_snapshot : OsCall
  write_delta rename_delta open_delta sync_delta : OsCall
  create_rewrite write_rewrite flush_rewrite write_catchup sync_rewrite close_rewrite : OsCall
  rename_rewrite open_rewrite : OsCall

pub data SaveReply : Type 0 where
  saved in_progress failed : SaveReply

abbrev pub is_always : FsyncPolicy → Bool
is_always fsync_always = true
is_always fsync_everysec = false
is_always fsync_no = false

abbrev pub keeps_aof : Mode → Bool
keeps_aof mode_aof = true
keeps_aof mode_both = true
keeps_aof mode_none = false
keeps_aof mode_snapshot = false

abbrev pub extended : Bytes → Option Bytes → Option Bytes
extended b none = some b
extended b (some file) = some (file ++ b)

abbrev pub begin_catchup : Engine → Engine
begin_catchup e = record e { catching_up = true; catchup = [] }

abbrev pub abort_catchup : Engine → Engine
abort_catchup e = record e { catching_up = false; catchup = [] }

-- The lines of the records of one tenant, and of all.
unfoldable pub record_lines : Bytes → List Record → List AofLine
unfolding set_line
record_lines t [] = []
record_lines t (r ∷ rs) = set_line t r.key r.value r.expires_at ∷ record_lines t rs

unfoldable pub export_lines : List SnapTenant → List AofLine
unfolding record_lines
export_lines [] = []
export_lines (t ∷ ts) = record_lines t.name t.keys ++ export_lines ts

-- `works` tells which calls succeed, and a write that fails writes nothing. `encode` is
-- `json.Marshal` of a line, `marshal` that of a snapshot: text and numbers have no error.
module _ (works : OsCall → Bool) (encode : AofLine → Bytes) (marshal : List SnapTenant → Bytes)
    (crc32 : Bytes → ℕ) where
  unfoldable pub all_work : List OsCall → Bool
  all_work [] = true
  all_work (c ∷ cs) = works c && all_work cs

  unfoldable pub open_engine : Engine → Bool × Engine
  unfolding all_work
  open_engine e =
      let opened = record e { aof = true; aof_file = extended [] e.aof_file } in
      elim e.mode [
        | mode_none ↦ (true, e)
        | mode_snapshot ↦ (works make_dir, e)
        | mode_aof ↦ if all_work (make_dir ∷ open_aof ∷ []) then (true, opened) else (false, e)
        | mode_both ↦ if all_work (make_dir ∷ open_aof ∷ []) then (true, opened) else (false, e)
      ]

  unfoldable pub close_engine : Engine → Bool × Engine
  close_engine e = if e.aof then (works close_aof, record e { aof = false }) else (true, e)

  abbrev pub line_bytes : AofLine → Bytes
  line_bytes l = encode l ++ 10 ∷ []

  unfoldable pub bytes_of : List AofLine → Bytes
  bytes_of [] = []
  bytes_of (l ∷ ls) = line_bytes l ++ bytes_of ls

  -- The file, unless it is closed, and then the buffer of a save that is on its way.
  unfoldable pub append_aof : AofLine → Engine → Bool × Engine
  append_aof l e =
      let b = line_bytes l in
      let written = if e.aof then record e { aof_file = extended b e.aof_file } else e in
      if e.aof && not (works write_line)
      then (false, e)
      else if e.aof && is_always e.fsync && not (works sync_line)
      then (false, written)
      else (true, if e.catching_up then record written { catchup = e.catchup ++ b } else written)

  -- The error of the append is dropped.
  unfoldable pub on_mutation : Bytes → Mutation → Engine → Engine
  unfolding append_aof line_of
  on_mutation tenant m e = if keeps_aof e.mode then (append_aof (line_of tenant m) e).1 else e

  unfoldable pub append_all : List AofLine → Engine → Engine
  unfolding append_aof
  append_all [] e = e
  append_all (l ∷ ls) e = append_all ls (append_aof l e).1

  -- All the steps that leave through the same early return are one list of calls.
  unfoldable pub write_snapshot : ℕ → List SnapTenant → Engine → Bool × Engine
  unfolding all_work pack
  write_snapshot now ts e =
      if all_work (
        make_dir ∷ create_snapshot ∷ write_header ∷ write_body ∷ sync_snapshot ∷ close_snapshot
        ∷ rename_snapshot ∷ [])
      then (true, record e { snap_file = some (pack crc32 (marshal ts)); last_save = now })
      else (false, abort_catchup e)

  unfoldable pub install_catchup : Engine → Bool × Engine
  install_catchup e =
      let closed = record e { catching_up = false; catchup = []; aof = false } in
      let renamed = record closed { aof_file = some e.catchup } in
      if not (works write_delta)
      then (false, closed)
      else if not (works rename_delta)
      then (false, closed)
      else if not (works open_delta)
      then (false, renamed)
      else (if is_always e.fsync then works sync_delta else true, record renamed { aof = true })

  -- The new file with the records, before the buffer is added.
  unfoldable pub rewrite_base : List SnapTenant → Engine → Option Bytes × Engine
  unfolding all_work bytes_of export_lines
  rewrite_base ts e =
      if all_work (create_rewrite ∷ write_rewrite ∷ flush_rewrite ∷ [])
      then (some (bytes_of (export_lines ts)), e)
      else (none, abort_catchup e)

  unfoldable pub cut_over : ℕ → Option Bytes → Engine → Bool × Engine
  unfolding all_work
  cut_over now none e = (false, e)
  cut_over now (some base) e =
      let closed = record e { catching_up = false; catchup = []; aof = false } in
      let renamed = record closed { aof_file = some (base ++ e.catchup) } in
      if not (all_work (write_catchup ∷ sync_rewrite ∷ close_rewrite ∷ []))
      then (false, abort_catchup e)
      else if not (works rename_rewrite)
      then (false, closed)
      else if not (works open_rewrite)
      then (false, renamed)
      else (true, record renamed { aof = true; last_save = now })

  -- A save while other goroutines append: `during` while the records are gathered, and `after`
  -- that, until the lock is taken. `ts` is what was gathered.
  unfoldable pub rewrite_while :
      ℕ → List SnapTenant → List AofLine → List AofLine → Engine → Bool × Engine
  unfolding rewrite_base cut_over append_all
  rewrite_while now ts during after e =
      let (base, e') = rewrite_base ts (append_all during e) in
      cut_over now base (append_all after e')

  unfoldable pub snapshot_while :
      ℕ → List SnapTenant → List AofLine → List AofLine → Engine → Bool × Engine
  unfolding write_snapshot install_catchup append_all
  snapshot_while now ts during after e =
      let (ok, e') = write_snapshot now ts (append_all during e) in
      let e'' = append_all after e' in if ok then install_catchup e'' else (false, e'')

  unfoldable pub finished : Bool × Engine → SaveReply × Engine
  finished (true, e) = (saved, record e { saving = false })
  finished (false, e) = (failed, record e { saving = false })

  unfoldable pub save_while :
      ℕ → List SnapTenant → List AofLine → List AofLine → Engine → SaveReply × Engine
  unfolding finished rewrite_while snapshot_while write_snapshot
  save_while now ts during after e =
      let busy = record e { saving = true } in
      if e.saving then (in_progress, e) else elim e.mode [
        | mode_none ↦ (saved, e)
        | mode_snapshot ↦ finished (write_snapshot now ts busy)
        | mode_aof ↦ finished (rewrite_while now ts during after (begin_catchup busy))
        | mode_both ↦ finished (snapshot_while now ts during after (begin_catchup busy))
      ]

  unfoldable pub bg_save_refused : Engine → Bool
  bg_save_refused e = elim e.mode [
    | mode_none ↦ true
    | mode_snapshot ↦ e.saving
    | mode_aof ↦ e.saving
    | mode_both ↦ e.saving
  ]
