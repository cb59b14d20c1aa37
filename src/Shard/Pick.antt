-- ===== src/Shard/Pick.antt =====
-- The choice of a victim in one shard: `pickLocalVictim` and `ttlPick` (internal/store/evict.go,
-- expiry.go).
pub mod Victim
use cache_custom.Prelude.{
  ℕ, zero, suc, ◌+◌, ◌-◌, Bool, true, false, not, ◌&&◌, ◌||◌, Option, none, some, List, [], ◌∷◌,
  ◌==◌, if◌then◌else◌, ite, length,
}
use cache_custom.Bytes.{Bytes, dec_bytes}
use cache_custom.Dict
use cache_custom.Dict.{Dict}
use cache_custom.Heap
use cache_custom.Heap.{Heap, ExpItem}
use cache_custom.Lfu.{first_ok, lfu_pick}
use cache_custom.Policy.{
  EvictionPolicy, noeviction, allkeys_lru, allkeys_lfu, allkeys_random, allkeys_fifo, volatile_lru,
  volatile_lfu, volatile_random, volatile_ttl, volatile_fifo, other, volatile_only, eligible,
}
use cache_custom.Shard.{Entry, Shard}
use cache_custom.Shard.Random.{rnd_pick}

abbrev pub same : Bytes → Bytes → Bool
same a b = ite (dec_bytes a b) true false

abbrev pub is_some {ℓ} : {A : Type ℓ} → Option A → Bool
is_some none = false
is_some (some a) = true

-- An index entry that may go: not the key that is being written, and eligible under the policy,
-- which asks the entry for its expiry. The map is not asked: a key that an index still names after
-- the map has lost it may go too. The expiry of such an entry is not in the model; it may go under
-- every policy.
unfoldable pub candidate : EvictionPolicy → Bytes → Bytes → Option Entry → Bool
unfolding eligible
candidate pol skip k none = not (same k skip)
candidate pol skip k (some e) = if same k skip then false else eligible pol (is_some e.expires_at)

unfoldable pub is_candidate : EvictionPolicy → Bytes → Dict Entry → Bytes → Bool
unfolding candidate
is_candidate pol skip d k = candidate pol skip k (Dict.lookup k d)

-- An item of the heap that no longer says what the map says.
stale : Dict Entry → ExpItem → Bool
stale d it = elim (Dict.lookup it.key d) [
  | none ↦ true
  | some e ↦ elim e.expires_at [ none ↦ true | some t ↦ not (t == it.at) ]
]

push_back : ExpItem → Option Bytes × Heap → Option Bytes × Heap
push_back it (cand, h) = (cand, Heap.push it h)

pick_root : List ExpItem → Dict Entry → Bytes → Heap → Option Bytes × Heap → Option Bytes × Heap
unfolding stale push_back
pick_root [] d skip h rest = (none, h)
pick_root (it ∷ _) d skip h rest =
    if stale d it then rest else ite (dec_bytes it.key skip) (push_back it rest) (some it.key, h)

-- Every round takes one item out of the heap, so `length h.items` rounds are enough.
pub ttl_pick_fuel : ℕ → Dict Entry → Bytes → Heap → Option Bytes × Heap
unfolding pick_root
ttl_pick_fuel zero d skip h = (none, h)
ttl_pick_fuel (suc fuel) d skip h =
    let rest = ttl_pick_fuel fuel d skip (Heap.remove_at 0 h) in pick_root h.items d skip h rest

unfoldable pub ttl_pick : Bytes → Shard → Option Bytes × Shard
unfolding ttl_pick_fuel
ttl_pick skip sh =
    let r = ttl_pick_fuel (length sh.ttl.items) sh.data' skip sh.ttl in
    (r.0, record sh { ttl = r.1 })

module _ (intn : ℕ → ℕ → ℕ) where
  -- The victim, the shard (the TTL heap may lose stale items) and the random calls made so far.
  unfoldable pub pick_local_victim : EvictionPolicy → Bytes → Shard → ℕ → Option Bytes × Shard × ℕ
  unfolding is_candidate
  pick_local_victim noeviction skip sh t = (none, sh, t)
  pick_local_victim allkeys_lru skip sh t =
      (first_ok (is_candidate allkeys_lru skip sh.data') sh.lru, sh, t)
  pick_local_victim volatile_lru skip sh t =
      (first_ok (is_candidate volatile_lru skip sh.data') sh.lru, sh, t)
  pick_local_victim allkeys_fifo skip sh t =
      (first_ok (is_candidate allkeys_fifo skip sh.data') sh.fifo, sh, t)
  pick_local_victim volatile_fifo skip sh t =
      (first_ok (is_candidate volatile_fifo skip sh.data') sh.fifo, sh, t)
  pick_local_victim allkeys_random skip sh t =
      let r = rnd_pick intn (is_candidate allkeys_random skip sh.data') sh.rnd t in (r.0, sh, r.1)
  pick_local_victim volatile_random skip sh t =
      let r = rnd_pick intn (is_candidate volatile_random skip sh.data') sh.rnd t in (r.0, sh, r.1)
  pick_local_victim allkeys_lfu skip sh t =
      (lfu_pick (is_candidate allkeys_lfu skip sh.data') sh.lfu, sh, t)
  pick_local_victim volatile_lfu skip sh t =
      (lfu_pick (is_candidate volatile_lfu skip sh.data') sh.lfu, sh, t)
  pick_local_victim volatile_ttl skip sh t = let r = ttl_pick skip sh in (r.0, r.1, t)
  pick_local_victim (other s) skip sh t =
      (first_ok (is_candidate (other s) skip sh.data') sh.lru, sh, t)
