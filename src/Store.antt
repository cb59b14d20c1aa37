-- ===== src/Store.antt =====
-- The tenant keyspace `Db` of internal/store/store.go: shards, tenant-wide memory, the global order
-- lists of the global strategy, the expiry heap, the counters and the sink of mutations. Every
-- method runs here as one step: a lock that it takes is free.
mod Tests
pub mod Homed
pub mod Count
pub mod Reach
pub mod Find
pub mod Shrinks
pub mod Evict
pub mod Space
pub mod Write
pub mod Expiry
pub mod Read
pub mod Incr
pub mod Snapshot
use cache_custom.Prelude.{
  ℕ, zero, suc, ◌+◌, ◌-◌, ◌*◌, ◌/◌, ◌%◌, ◌^◌, Bool, true, false, not, ◌&&◌, ◌||◌, Option, none,
  some, List, [], ◌∷◌, ◌++◌, leb, ltb, ◌==◌, if◌then◌else◌, ite, length, get_or, set, map,
}
use cache_custom.Prelude.Int.{ℤ, pos, is_pos, pos_part}
use cache_custom.Bytes.{Bytes, dec_bytes, fnv32a}
use cache_custom.Dict
use cache_custom.Dict.{Dict}
use cache_custom.Heap
use cache_custom.Heap.{Heap}
use cache_custom.Lfu.{erase, member}
use cache_custom.Policy.{EvictionPolicy, parse_eviction_policy, name_of, allkeys_lru}
use cache_custom.Shard.{Entry, Shard, new_shard, expired, add64, drop}
use cache_custom.Shard.Pick.{is_some}

pub data Strategy : Type 0 where
  global_track steal shard_budget : Strategy

unfoldable pub is_global : Strategy → Bool
is_global global_track = true
is_global s = false

-- A write for the append-only file.
pub data Mutation : Type 0 where
  set_op : Bytes → Bytes → Option ℕ → Mutation
  del_op : List Bytes → Mutation
  expire_op : Bytes → ℕ → Mutation
  persist_op : Bytes → Mutation
  flush_op : Mutation

-- `max_ttl` is a duration in nanoseconds. `sink` is `none` while no sink is attached, and else
-- holds the mutations that the sink was given. `draws` counts the calls of rand.Intn.
pub record Db : Type 0 where
  pub max_memory : ℕ
  pub strategy : Strategy
  pub policy : EvictionPolicy
  pub max_ttl : ℤ
  pub shards : List Shard
  pub used : ℕ
  pub g_lru : List Bytes
  pub g_fifo : List Bytes
  pub exp : Heap
  pub hits : ℕ
  pub misses : ℕ
  pub evictions : ℕ
  pub sink : Option (List Mutation)
  pub draws : ℕ

pub record Config : Type 0 where
  pub max_memory : ℕ
  pub shard_count : ℕ
  pub strategy : ℕ
  pub policy : EvictionPolicy
  pub max_ttl : ℤ

-- A number out of range stands for the global strategy.
unfoldable pub strategy_of : ℕ → Strategy
strategy_of n = if n == 2 then steal else if n == 3 then shard_budget else global_track

pub known_policy : EvictionPolicy → EvictionPolicy
unfolding name_of parse_eviction_policy dec_bytes
known_policy p =
    ite (dec_bytes (name_of p) []) allkeys_lru
      (elim (parse_eviction_policy (name_of p)) [ none ↦ allkeys_lru | some _ ↦ p ])

-- The first `rem` shards take one byte more.
unfoldable pub make_shards : ℕ → ℕ → ℕ → ℕ → List Shard
unfolding new_shard
make_shards zero i base rem = []
make_shards (suc n) i base rem =
    new_shard (if ltb i rem then base + 1 else base) ∷ make_shards n (i + 1) base rem

unfoldable pub new : Config → Db
unfolding make_shards strategy_of known_policy
new cfg =
    let n = if cfg.shard_count == 0 then 1 else cfg.shard_count in
    record {
      max_memory = cfg.max_memory;
      strategy = strategy_of cfg.strategy;
      policy = known_policy cfg.policy;
      max_ttl = cfg.max_ttl;
      shards = make_shards n 0 (cfg.max_memory / n) (cfg.max_memory % n);
      used = 0;
      g_lru = [];
      g_fifo = [];
      exp = Heap.empty;
      hits = 0;
      misses = 0;
      evictions = 0;
      sink = none;
      draws = 0;
    }

unfoldable pub shard_index : Bytes → Db → ℕ
shard_index key db = fnv32a key % length db.shards

-- A shard out of range is never asked for.
abbrev pub shard_at : ℕ → Db → Shard
shard_at i db = get_or db.shards i (new_shard 0)

abbrev pub put_shard : ℕ → Shard → Db → Db
put_shard i sh db = record db { shards = set db.shards i sh }

-- The entry of a key, due or not: `sh.data[key]` in the shard of the key.
unfoldable pub find : Bytes → Db → Option Entry
find key db = Dict.lookup key (shard_at (shard_index key db) db).data'

-- The entry of a key at `now`, as every reader sees it.
unfoldable pub live : ℕ → Bytes → Db → Option Entry
unfolding find
live now key db = elim (find key db) [
  | none ↦ none
  | some e ↦ if expired e now then none else some e
]

abbrev pub sub_used : ℕ → Db → Db
sub_used delta db = record db { used = if leb delta db.used then db.used - delta else 0 }

abbrev pub add_used : ℕ → Db → Db
add_used delta db = record db { used = add64 db.used delta }

unfoldable pub emit : Mutation → Db → Db
emit m db = elim db.sink [ none ↦ db | some log ↦ record db { sink = some (log ++ m ∷ []) } ]

unfoldable pub clear_expiry : Bytes → Db → Db
clear_expiry key db = record db { exp = Heap.clear key db.exp }

unfoldable pub note_expiry : Bytes → Option ℕ → Db → Db
note_expiry key at db = record db { exp = Heap.note key at db.exp }

unfoldable pub remove_from_shard : ℕ → Bytes → Entry → Db → Db
unfolding is_global
remove_from_shard si key e db =
    let db' = sub_used e.size (put_shard si (drop key e (shard_at si db)) db) in
    if is_global db.strategy
    then record db' { g_lru = erase key db.g_lru; g_fifo = erase key db.g_fifo }
    else db'

-- `globalTouch`, if the entry stands in the global list.
unfoldable pub global_touch : Bytes → Db → Db
unfolding is_global
global_touch key db =
    if is_global db.strategy && member key db.g_lru
    then record db { g_lru = erase key db.g_lru ++ key ∷ [] }
    else db

unfoldable pub global_push : Bytes → Db → Db
unfolding is_global
global_push key db =
    if is_global db.strategy
    then record db { g_lru = db.g_lru ++ key ∷ []; g_fifo = db.g_fifo ++ key ∷ [] }
    else db

-- Used memory, the limit, the number of keys, hits, misses and evictions.
unfoldable pub count_keys : List Shard → ℕ
count_keys [] = 0
count_keys (sh ∷ shs) = length sh.data' + count_keys shs

pub record StatsReply : Type 0 where
  pub used : ℕ
  pub max : ℕ
  pub keys : ℕ
  pub hits : ℕ
  pub misses : ℕ
  pub evictions : ℕ

unfoldable pub stats : Db → StatsReply
unfolding count_keys
stats db = record {
  used = db.used;
  max = db.max_memory;
  keys = count_keys db.shards;
  hits = db.hits;
  misses = db.misses;
  evictions = db.evictions;
}

count_live : ℕ → Dict Entry → ℕ
count_live now [] = 0
count_live now ((k, e) ∷ d) = (if expired e now then 0 else 1) + count_live now d

count_live_in : ℕ → List Shard → ℕ
unfolding count_live
count_live_in now [] = 0
count_live_in now (sh ∷ shs) = count_live now sh.data' + count_live_in now shs

unfoldable pub db_size : ℕ → Db → ℕ
unfolding count_live_in
db_size now db = count_live_in now db.shards
