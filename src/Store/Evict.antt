-- ===== src/Store/Evict.antt =====
-- The eviction of one key: `pickGlobalVictimKey`, `evictOneGlobal`, `evictOneLocal` and
-- `stealFromOtherShards` (internal/store/evict.go, ops.go).
pub mod Pick
pub mod Laws
pub mod Homed
pub mod Progress
use cache_custom.Prelude.{
  ℕ, zero, suc, ◌+◌, ◌-◌, ◌*◌, ◌%◌, Bool, true, false, not, ◌&&◌, ◌||◌, Option, none, some, List,
  [], ◌∷◌, ◌==◌, ltb, if◌then◌else◌, ite, length,
}
use cache_custom.Bytes.{Bytes, dec_bytes, bytes_lt}
use cache_custom.Dict
use cache_custom.Dict.{Dict}
use cache_custom.Heap
use cache_custom.Heap.{Heap, ExpItem}
use cache_custom.Lfu.{erase, first_ok, lfu_pick}
use cache_custom.Policy.{
  EvictionPolicy, noeviction, allkeys_lru, allkeys_lfu, allkeys_random, allkeys_fifo, volatile_lru,
  volatile_lfu, volatile_random, volatile_ttl, volatile_fifo, other,
}
use cache_custom.Shard.{Entry, Shard}
use cache_custom.Shard.Random.{rnd_pick}
use cache_custom.Shard.Pick.{candidate, is_candidate, ttl_pick, pick_local_victim}
use cache_custom.Store.{
  Db, find, shard_at, put_shard, shard_index, remove_from_shard, clear_expiry, note_expiry,
}

-- A choice, and the state that the search for it leaves.
abbrev pub Choice : Type 0
Choice = Option Bytes × Db

ttl_pick_at : ℕ → Bytes → Db → Choice
unfolding ttl_pick
ttl_pick_at si skip db = let r = ttl_pick skip (shard_at si db) in (r.0, put_shard si r.1 db)

or_next : Choice → (Db → Choice) → Choice
or_next (some k, db) next = (some k, db)
or_next (none, db) next = next db

-- The shards from `i` on, until one has a key with a deadline.
ttl_pick_from : ℕ → ℕ → Bytes → Db → Choice
unfolding ttl_pick_at or_next
ttl_pick_from zero i skip db = (none, db)
ttl_pick_from (suc n) i skip db = or_next (ttl_pick_at i skip db) (ttl_pick_from n (i + 1) skip)

-- What the map says of the key at the root of the tenant heap.
check_root : Option Entry → ExpItem → Db → (Db → Choice) → Choice
check_root none it db next = next (clear_expiry it.key db)
check_root (some e) it db next = elim e.expires_at [
  | none ↦ next (clear_expiry it.key db)
  | some t ↦ if t == it.at then (some it.key, db) else next (note_expiry it.key (some t) db)
]

pick_global_root : List ExpItem → Bytes → Db → (Db → Choice) → Choice
unfolding check_root or_next ttl_pick_at ttl_pick_from find
pick_global_root [] skip db next = (none, db)
pick_global_root (it ∷ _) skip db next =
    ite (dec_bytes it.key skip)
      (or_next (ttl_pick_at (shard_index it.key db) skip db)
        (ttl_pick_from (length db.shards) 0 skip))
      (check_root (find it.key db) it db next)

-- Every round but the last drops an item that the map does not back, or corrects its deadline.
pick_global_ttl_fuel : ℕ → Bytes → Db → Choice
unfolding pick_global_root
pick_global_ttl_fuel zero skip db = (none, db)
pick_global_ttl_fuel (suc fuel) skip db =
    pick_global_root db.exp.items skip db (λ db'. pick_global_ttl_fuel fuel skip db')

pub pick_global_ttl : Bytes → Db → Choice
unfolding pick_global_ttl_fuel
pick_global_ttl skip db = pick_global_ttl_fuel (2 * length db.exp.items + 1) skip db

-- The best key so far, with its frequency: lower frequency first, then lower key.
better : Option (Bytes × ℕ) → Bytes → ℕ → Option (Bytes × ℕ)
better none k f = some (k, f)
better (some (bk, bf)) k f =
    if ltb f bf || (f == bf && bytes_lt k bk) then some (k, f) else some (bk, bf)

freq_in : Dict Entry → Bytes → ℕ
freq_in d k = elim (Dict.lookup k d) [ none ↦ 0 | some e ↦ e.freq ]

best_lfu : EvictionPolicy → Bytes → List Shard → Option (Bytes × ℕ) → Option (Bytes × ℕ)
unfolding better freq_in
best_lfu pol skip [] best = best
best_lfu pol skip (sh ∷ shs) best =
    best_lfu pol skip shs (elim (lfu_pick (is_candidate pol skip sh.data') sh.lfu) [
      | none ↦ best
      | some k ↦ better best k (freq_in sh.data' k)
    ])

pub pick_global_lfu : EvictionPolicy → Bytes → Db → Option Bytes
unfolding best_lfu
pick_global_lfu pol skip db = elim (best_lfu pol skip db.shards none) [
  | none ↦ none
  | some (k, f) ↦ some k
]

global_candidate : Db → EvictionPolicy → Bytes → Bytes → Bool
unfolding candidate find
global_candidate db pol skip k = candidate pol skip k (find k db)

module _ (intn : ℕ → ℕ → ℕ) where
  random_from : EvictionPolicy → Bytes → ℕ → ℕ → ℕ → Db → Choice
  unfolding or_next
  random_from pol skip zero start i db = (none, db)
  random_from pol skip (suc n) start i db =
      let sh = shard_at ((start + i) % length db.shards) db in
      let r = rnd_pick intn (is_candidate pol skip sh.data') sh.rnd db.draws in
      or_next (r.0, record db { draws = r.1 }) (random_from pol skip n start (i + 1))

  pick_global_random : EvictionPolicy → Bytes → Db → Choice
  unfolding random_from
  pick_global_random pol skip db =
      let n = length db.shards in
      random_from pol skip n (intn db.draws n) 0 (record db { draws = db.draws + 1 })

  pick_by : EvictionPolicy → Bytes → Db → Choice
  unfolding global_candidate pick_global_random pick_global_lfu pick_global_ttl
  pick_by noeviction skip db = (none, db)
  pick_by allkeys_lru skip db = (first_ok (global_candidate db allkeys_lru skip) db.g_lru, db)
  pick_by volatile_lru skip db = (first_ok (global_candidate db volatile_lru skip) db.g_lru, db)
  pick_by allkeys_fifo skip db = (first_ok (global_candidate db allkeys_fifo skip) db.g_fifo, db)
  pick_by volatile_fifo skip db = (first_ok (global_candidate db volatile_fifo skip) db.g_fifo, db)
  pick_by allkeys_random skip db = pick_global_random allkeys_random skip db
  pick_by volatile_random skip db = pick_global_random volatile_random skip db
  pick_by allkeys_lfu skip db = (pick_global_lfu allkeys_lfu skip db, db)
  pick_by volatile_lfu skip db = (pick_global_lfu volatile_lfu skip db, db)
  pick_by volatile_ttl skip db = pick_global_ttl skip db
  pick_by (other s) skip db = pick_global_random (other s) skip db

  pub pick_global_victim : Bytes → Db → Choice
  unfolding pick_by
  pick_global_victim skip db = pick_by db.policy skip db

-- The removal of a chosen key; one that the map does not hold leaves the global recency list.
remove_victim : Bytes → Option Entry → Db → Db
unfolding remove_from_shard clear_expiry
remove_victim key none db = record db { g_lru = erase key db.g_lru }
remove_victim key (some e) db =
    let db' = clear_expiry key (remove_from_shard (shard_index key db) key e db) in
    record db' { evictions = db.evictions + 1 }

evict_chosen : Choice → Bool × Db
unfolding remove_victim find
evict_chosen (none, db) = (false, db)
evict_chosen (some key, db) = (true, remove_victim key (find key db) db)

-- The picked entry. Of one that the map has lost nothing is known, and it counts no bytes.
picked_entry : Option Entry → Entry
picked_entry none = record { value = []; expires_at = none; size = 0; freq = 0 }
picked_entry (some e) = e

-- Within one shard: the picked entry goes, whether or not the map holds its key.
remove_local : ℕ → Bytes → Option Entry → Db → Bool × Db
unfolding picked_entry remove_from_shard clear_expiry
remove_local si key o db =
    let db' = remove_from_shard si key (picked_entry o) db in
    (true, clear_expiry key (record db' { evictions = db.evictions + 1 }))

evict_local_chosen : ℕ → Option Bytes → Db → Bool × Db
unfolding remove_local
evict_local_chosen si none db = (false, db)
evict_local_chosen si (some key) db =
    remove_local si key (Dict.lookup key (shard_at si db).data') db

module _ (intn : ℕ → ℕ → ℕ) where
  unfoldable pub evict_one_global : Bytes → Db → Bool × Db
  unfolding evict_chosen pick_global_victim
  evict_one_global skip db = evict_chosen (pick_global_victim intn skip db)

  unfoldable pub evict_one_local : ℕ → Bytes → Db → Bool × Db
  unfolding evict_local_chosen
  evict_one_local si skip db =
      let (v, sh, t) = pick_local_victim intn db.policy skip (shard_at si db) db.draws in
      evict_local_chosen si v (record db { shards = (put_shard si sh db).shards; draws = t })

  -- The other shards in turn, from the one after `hold`.
  steal_from : ℕ → ℕ → ℕ → Bytes → Db → Bool × Db
  unfolding evict_one_local
  steal_from zero i hold skip db = (false, db)
  steal_from (suc n) i hold skip db =
      let si = (hold + 1 + i) % length db.shards in
      let here = evict_one_local si skip db in
      elim (si == hold) [
        | true ↦ steal_from n (i + 1) hold skip db
        | false ↦ elim here.0 [ true ↦ here | false ↦ steal_from n (i + 1) hold skip here.1 ]
      ]

  unfoldable pub steal_from_other_shards : ℕ → Bytes → Db → Bool × Db
  unfolding steal_from
  steal_from_other_shards hold skip db = steal_from (length db.shards) 0 hold skip db
