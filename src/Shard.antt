-- ===== src/Shard.antt =====
-- One shard of the keyspace: its map, its memory counter and its eviction indexes
-- (internal/store/store.go, lru.go, random.go, evict.go, ops.go, expiry.go). An index names an
-- entry by its key: the map holds one entry for each key.
pub mod Random
pub mod Pick
pub mod Listed
use cache_custom.Prelude.{
  ℕ, suc, ◌+◌, ◌-◌, ◌%◌, ◌^◌, Bool, true, false, not, ◌&&◌, ◌||◌, Option, none, some, List, [], ◌∷◌,
  ◌++◌, leb, ltb, ◌==◌, if◌then◌else◌, ite, length,
}
use cache_custom.Bytes.{Bytes, dec_bytes}
use cache_custom.Dict
use cache_custom.Dict.{Dict}
use cache_custom.Heap
use cache_custom.Heap.{Heap}
use cache_custom.Lfu.{Lfu, empty_lfu, erase, lfu_add, lfu_remove, lfu_relocate}
use Random.{Rnd, empty_rnd, rnd_add, rnd_remove}

-- `expires_at` is `none` at the zero time. Times and sizes are in nanoseconds and bytes.
pub record Entry : Type 0 where
  pub value : Bytes
  pub expires_at : Option ℕ
  pub size : ℕ
  pub freq : ℕ

pub record Shard : Type 0 where
  pub data' : Dict Entry
  pub used : ℕ
  pub budget : ℕ
  pub lru : List Bytes
  pub fifo : List Bytes
  pub rnd : Rnd
  pub lfu : Lfu
  pub ttl : Heap

unfoldable pub new_shard : ℕ → Shard
new_shard budget = record {
  data' = [];
  used = 0;
  budget = budget;
  lru = [];
  fifo = [];
  rnd = empty_rnd;
  lfu = empty_lfu;
  ttl = Heap.empty;
}

-- `uint64` addition.
unfoldable pub add64 : ℕ → ℕ → ℕ
add64 a b = (a + b) % 2 ^ 64

-- Due at `now`, if it has an expiry: `!expiresAt.After(now)`.
unfoldable pub expired : Entry → ℕ → Bool
expired e now = elim e.expires_at [ none ↦ false | some t ↦ leb t now ]

abbrev pub entry_overhead : ℕ
entry_overhead = 24

unfoldable pub mem_size : Bytes → Bytes → ℕ
mem_size key value = add64 (add64 (length key) (length value)) entry_overhead

unfoldable pub ttl_update : Bytes → Option ℕ → Shard → Shard
unfolding Heap.note
ttl_update key at sh = record sh { ttl = Heap.note key at sh.ttl }

unfoldable pub ttl_remove : Bytes → Shard → Shard
unfolding Heap.clear
ttl_remove key sh = record sh { ttl = Heap.clear key sh.ttl }

-- `freq` starts at 1, also where it was never set.
abbrev pub bump : ℕ → ℕ
bump f = if f == 0 then 2 else f + 1

-- Every index that depends on use: the frequency and its bucket, and the recency list.
unfoldable pub touch : Bytes → Entry → Shard → Shard
touch key e sh =
    let e' = record e { freq = bump e.freq } in
    record sh {
      data' = Dict.insert key e' sh.data';
      lru = erase key sh.lru ++ key ∷ [];
      lfu = lfu_relocate e'.freq key sh.lfu;
    }

-- The part of `removeFromShard` on the shard.
unfoldable pub drop : Bytes → Entry → Shard → Shard
drop key e sh = ttl_remove key (record sh {
  data' = Dict.delete key sh.data';
  lru = erase key sh.lru;
  fifo = erase key sh.fifo;
  rnd = rnd_remove key sh.rnd;
  lfu = lfu_remove key sh.lfu;
  used = if leb e.size sh.used then sh.used - e.size else 0;
})

-- The part of `Set` that links a new entry into the shard.
unfoldable pub add_new : Bytes → Entry → Shard → Shard
add_new key e sh = ttl_update key e.expires_at (record sh {
  data' = Dict.insert key e sh.data';
  used = add64 sh.used e.size;
  lru = sh.lru ++ key ∷ [];
  fifo = sh.fifo ++ key ∷ [];
  rnd = rnd_add key sh.rnd;
  lfu = lfu_add e.freq key sh.lfu;
})

-- The part of `Set` that writes over an entry; the memory counter of the shard is moved by the
-- `uint64` sum `used - old + new`.
unfoldable pub overwrite : Bytes → Entry → Bytes → ℕ → Option ℕ → Shard → Shard
overwrite key e value new_size expires_at sh =
    let e' = record e { value = value; size = new_size; expires_at = expires_at } in
    touch key e' (
      ttl_update key expires_at (record sh {
        data' = Dict.insert key e' sh.data';
        used = (sh.used + 2 ^ 64 - e.size + new_size) % 2 ^ 64;
      }))
