-- ===== src/Store/Snapshot.antt =====
-- Export, flush and restore (internal/store/snapshot.go), and the switches of policy and strategy
-- (internal/store/ops.go).
use cache_custom.Prelude.{
  ℕ, ◌+◌, Bool, true, false, Option, none, some, List, [], ◌∷◌, ◌++◌, ◌==◌, leb, if◌then◌else◌, map,
}
use cache_custom.Bytes.{Bytes}
use cache_custom.Dict
use cache_custom.Dict.{Dict}
use cache_custom.Lfu.{lfu_add, lfu_remove, bucket_of}
use cache_custom.Policy.{EvictionPolicy}
use cache_custom.Shard.{Entry, Shard, expired}
use cache_custom.Shard.Pick.{is_some}
use cache_custom.Store.{
  Db, Strategy, global_track, steal, shard_budget, is_global, known_policy, strategy_of,
  shard_index, shard_at, put_shard, find, remove_from_shard, clear_expiry, emit, flush_op,
}
use cache_custom.Store.Write.{SetOptions, no_options, SetReply, done, refused, err_oom, fuel, set}

pub record Record : Type 0 where
  pub key : Bytes
  pub value : Bytes
  pub expires_at : Option ℕ
  pub freq : ℕ

export_shard : ℕ → Dict Entry → List Record
export_shard now [] = []
export_shard now ((k, e) ∷ d) =
    let rest = export_shard now d in
    if expired e now
    then rest
    else record { key = k; value = e.value; expires_at = e.expires_at; freq = e.freq } ∷ rest

export_shards : ℕ → List Shard → List Record
unfolding export_shard
export_shards now [] = []
export_shards now (sh ∷ shs) = export_shard now sh.data' ++ export_shards now shs

unfoldable pub export_all : ℕ → Db → List Record
unfolding export_shards
export_all now db = export_shards now db.shards

all_keys : List Shard → List Bytes
all_keys [] = []
all_keys (sh ∷ shs) = map (λ p. p.0) sh.data' ++ all_keys shs

flush_found : Bytes → Option Entry → Db → ℕ × Db
unfolding remove_from_shard clear_expiry
flush_found key none db = (0, db)
flush_found key (some e) db =
    (1, clear_expiry key (remove_from_shard (shard_index key db) key e db))

flush_keys : List Bytes → Db → ℕ × Db
unfolding flush_found find
flush_keys [] db = (0, db)
flush_keys (k ∷ ks) db =
    let (n, db') = flush_found k (find k db) db in
    let (m, db'') = flush_keys ks db' in (n + m, db'')

unfoldable pub flush_db : Db → ℕ × Db
unfolding flush_keys all_keys emit
flush_db db =
    let (n, db') = flush_keys (all_keys db.shards) db in
    (n, if n == 0 then db' else emit flush_op db')

set_freq_found : Bytes → ℕ → Option Entry → Db → Db
set_freq_found key freq none db = db
set_freq_found key freq (some e) db =
    let si = shard_index key db in
    let sh = shard_at si db in
    let lfu' =
      if is_some (bucket_of key sh.lfu.buckets)
      then lfu_add freq key (lfu_remove key sh.lfu)
      else sh.lfu in
    put_shard si
      (record sh { data' = Dict.insert key (record e { freq = freq }) sh.data'; lfu = lfu' }) db

-- A frequency that is not positive changes nothing.
unfoldable pub set_freq : Bytes → ℕ → Db → Db
unfolding set_freq_found find lfu_add lfu_remove bucket_of
set_freq key freq db = if freq == 0 then db else set_freq_found key freq (find key db) db

abbrev restore_options : Record → SetOptions
restore_options r = record no_options {
  has_expire_at = is_some r.expires_at;
  expire_at = r.expires_at;
}

abbrev is_due : ℕ → Option ℕ → Bool
is_due now none = false
is_due now (some t) = leb t now

module _ (intn : ℕ → ℕ → ℕ) where
  -- The clock is read at `now`, and by each `Set` at `now'`. An error ends the loop.
  load_each : ℕ → ℕ → List Record → Db → SetReply × Db
  unfolding set set_freq
  load_each now now' [] db = (done, db)
  load_each now now' (r ∷ rs) db =
      let (reply, db') = set intn now' r.key r.value (restore_options r) db in
      let loaded = load_each now now' rs (set_freq r.key r.freq db') in
      let skipped = load_each now now' rs db in
      if is_due now r.expires_at then skipped else elim reply [
        | done ↦ loaded
        | refused ↦ loaded
        | err_oom ↦ (err_oom, db')
        | fuel ↦ (fuel, db')
      ]

  -- The sink is detached while the records are loaded.
  unfoldable pub load_records : ℕ → ℕ → List Record → Db → SetReply × Db
  unfolding load_each flush_db
  load_records now now' recs db =
      let (n, cleared) = flush_db (record db { sink = none }) in
      let (reply, loaded) = load_each now now' recs cleared in
      (reply, record loaded { sink = db.sink })

unfoldable pub set_eviction_policy : EvictionPolicy → Db → Db
unfolding known_policy
set_eviction_policy p db = record db { policy = known_policy p }

abbrev same_strategy : Strategy → Strategy → Bool
same_strategy global_track global_track = true
same_strategy steal steal = true
same_strategy shard_budget shard_budget = true
same_strategy s t = false

global_lru : List Shard → List Bytes
global_lru [] = []
global_lru (sh ∷ shs) = sh.lru ++ global_lru shs

global_fifo : List Shard → List Bytes
global_fifo [] = []
global_fifo (sh ∷ shs) = sh.fifo ++ global_fifo shs

-- The global lists are emptied, and filled again from the shards where they will be used.
unfoldable pub set_sharding_strategy : ℕ → Db → Db
unfolding global_lru global_fifo is_global strategy_of
set_sharding_strategy n db =
    let s = strategy_of n in
    if same_strategy db.strategy s then db else record db {
      strategy = s;
      g_lru = if is_global s then global_lru db.shards else [];
      g_fifo = if is_global s then global_fifo db.shards else [];
    }
