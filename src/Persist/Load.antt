-- ===== src/Persist/Load.antt =====
-- Reading the files back at the start: `Load` of internal/persist/engine.go, but for the time of the
-- last save, which it takes from the snapshot file.
use cache_custom.Prelude.{ℕ, ◌+◌, Bool, Option, none, some, List, [], ◌∷◌}
use cache_custom.Bytes.{Bytes}
use cache_custom.Dict
use cache_custom.Dict.{Dict}
use cache_custom.Store.{Db}
use cache_custom.Store.Write.{SetReply, done, refused, err_oom, fuel}
use cache_custom.Store.Snapshot.{load_records}
use cache_custom.Persist.Mode.{mode_none, mode_snapshot, mode_aof, mode_both}
use cache_custom.Persist.Format.{Unpacked, body_of, refuses, panics, unpack}
use cache_custom.Persist.Log.{
  AofLine, LoadError, no_file, bad_json, load_oom, load_fuel, crashed, load_aof,
}
use cache_custom.Persist.Engine.{Engine, SnapTenant}

pub reply_error : SetReply → Option LoadError
reply_error done = none
reply_error refused = none
reply_error err_oom = some load_oom
reply_error fuel = some load_fuel

pub ignore_missing : Option LoadError × Dict Db → Option LoadError × Dict Db
ignore_missing (some no_file, dbs) = (none, dbs)
ignore_missing r = r

module _ (intn : ℕ → ℕ → ℕ) (clock : ℕ → ℕ) where
  -- The tenants of a snapshot, the unknown ones passed over.
  pub load_tenant : ℕ → SnapTenant → Dict Db → Option LoadError × Dict Db
  unfolding Dict.lookup Dict.insert load_records reply_error
  load_tenant n t dbs = elim (Dict.lookup t.name dbs) [
    | none ↦ (none, dbs)
    | some db ↦
        let (reply, db') = load_records intn (clock n) (clock (n + 1)) t.keys db in
        (reply_error reply, Dict.insert t.name db' dbs)
  ]

  unfoldable pub load_tenants : ℕ → List SnapTenant → Dict Db → Option LoadError × Dict Db
  unfolding load_tenant
  load_tenants n [] dbs = (none, dbs)
  load_tenants n (t ∷ ts) dbs =
      let (e, dbs') = load_tenant n t dbs in
      let rest = load_tenants (n + 2) ts dbs' in elim e [ none ↦ rest | some x ↦ (some x, dbs') ]

  module _ (decode : Bytes → Option AofLine) (scan : Bytes → List Bytes × Bool) (crc32 : Bytes → ℕ)
      (allocates : ℕ → Bool) (unmarshal : Bytes → Option (List SnapTenant)) where
    pub load_body : ℕ → Option (List SnapTenant) → Dict Db → Option LoadError × Dict Db
    unfolding load_tenants
    load_body n none dbs = (some bad_json, dbs)
    load_body n (some ts) dbs = load_tenants n ts dbs

    pub load_unpacked : ℕ → Unpacked → Dict Db → Option LoadError × Dict Db
    unfolding load_body
    load_unpacked n (body_of body) dbs = load_body n (unmarshal body) dbs
    load_unpacked n (refuses x) dbs = (some x, dbs)
    load_unpacked n panics dbs = (some crashed, dbs)

    -- The snapshot file is read by `unpack`.
    unfoldable pub load_snapshot : ℕ → Option Bytes → Dict Db → Option LoadError × Dict Db
    unfolding load_unpacked unpack
    load_snapshot n none dbs = (some no_file, dbs)
    load_snapshot n (some file) dbs = load_unpacked n (unpack crc32 allocates file) dbs

    -- `m` numbers the readings of the clock by the append-only file.
    unfoldable pub load : ℕ → ℕ → Engine → Dict Db → Option LoadError × Dict Db
    unfolding load_snapshot load_aof ignore_missing
    load n m e dbs =
        let snap = ignore_missing (load_snapshot n e.snap_file dbs) in
        elim e.mode [
          | mode_none ↦ (none, dbs)
          | mode_snapshot ↦ snap
          | mode_aof ↦ ignore_missing (load_aof intn clock decode scan m e.aof_file dbs)
          | mode_both ↦ elim snap.0 [
            | some x ↦ snap
            | none ↦ ignore_missing (load_aof intn clock decode scan m e.aof_file snap.1)
          ]
        ]
