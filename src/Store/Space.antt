-- ===== src/Store/Space.antt =====
-- Making room for a write: `ensureSpace` (internal/store/ops.go).
pub mod Bound
pub mod Homed
pub mod Ends
use cache_custom.Prelude.{
  ℕ, zero, suc, ◌+◌, ◌-◌, Bool, true, false, not, ◌&&◌, ◌||◌, Option, none, some, List, [], ◌∷◌,
  ◌==◌, ltb, leb, if◌then◌else◌, ite, length,
}
use cache_custom.Bytes.{Bytes}
use cache_custom.Policy.{EvictionPolicy, is_noeviction}
use cache_custom.Shard.{Shard, add64}
use cache_custom.Store.{Db, Strategy, global_track, steal, shard_budget, shard_at, count_keys}
use cache_custom.Store.Evict.{evict_one_global, evict_one_local, steal_from_other_shards}

-- `oom` is ErrOOM; `out_of_fuel` is no outcome of the program.
pub data Room : Type 0 where
  ok oom out_of_fuel : Room

-- Whether `need` more bytes pass the limit: the sum is a `uint64`.
abbrev pub over : ℕ → ℕ → ℕ → Bool
over used need limit = ltb limit (add64 used need)

abbrev pub over_tenant : ℕ → Db → Bool
over_tenant need db = over db.used need db.max_memory

abbrev pub over_shard : ℕ → ℕ → Db → Bool
over_shard si need db = over (shard_at si db).used need (shard_at si db).budget

-- `for test { if !evict { return ErrOOM } }`
unfoldable pub make_room : ℕ → (Db → Bool) → (Db → Bool × Db) → Db → Room × Db
make_room zero test evict db = (out_of_fuel, db)
make_room (suc fuel) test evict db =
    let r = evict db in
    elim (test db) [
      | false ↦ (ok, db)
      | true ↦ elim r.0 [ false ↦ (oom, r.1) | true ↦ make_room fuel test evict r.1 ]
    ]

-- Each eviction takes a key out of a map, or a stale key out of the global list.
abbrev pub rounds : Db → ℕ
rounds db = suc (count_keys db.shards + length db.g_lru)

-- The ceiling for one entry, the refusal under `noeviction`, and the loop of the strategy.
abbrev pub ceiling : Strategy → ℕ → Db → ℕ
ceiling global_track si db = db.max_memory
ceiling steal si db = db.max_memory
ceiling shard_budget si db = (shard_at si db).budget

abbrev pub full : Strategy → ℕ → ℕ → Db → Bool
full global_track si need db = over_tenant need db
full steal si need db = over_tenant need db
full shard_budget si need db = over_shard si need db

module _ (intn : ℕ → ℕ → ℕ) where
  -- First a victim of the shard itself, then one of another shard.
  unfoldable pub evict_or_steal : ℕ → Bytes → Db → Bool × Db
  evict_or_steal si key db =
      let here = evict_one_local intn si key db in
      elim here.0 [ true ↦ here | false ↦ steal_from_other_shards intn si key here.1 ]

  evict_for : Strategy → ℕ → Bytes → ℕ → Db → Room × Db
  unfolding make_room evict_or_steal
  evict_for global_track si key need db =
      make_room (rounds db) (over_tenant need) (evict_one_global intn key) db
  evict_for steal si key need db =
      make_room (rounds db) (over_tenant need) (evict_or_steal si key) db
  evict_for shard_budget si key need db =
      make_room (rounds db) (over_shard si need) (evict_one_local intn si key) db

  unfoldable pub ensure_space : ℕ → Bytes → ℕ → ℕ → Db → Room × Db
  unfolding evict_for is_noeviction
  ensure_space si key need new_size db =
      if ltb (ceiling db.strategy si db) new_size
      then (oom, db)
      else if is_noeviction db.policy
      then (if full db.strategy si need db then (oom, db) else (ok, db))
      else evict_for db.strategy si key need db
