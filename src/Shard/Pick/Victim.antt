-- ===== src/Shard/Pick/Victim.antt =====
-- No policy picks the key that is being written.
use cache_custom.Prelude.{
  ℕ, zero, suc, ◌≡◌, ◌≢◌, refl, true, Option, none, some, List, [], ◌∷◌, arith, length, Bool-cases,
  inl, inr,
}
use cache_custom.Bytes.{Bytes, dec_bytes}
use cache_custom.Dict
use cache_custom.Dict.{Dict}
use cache_custom.Heap
use cache_custom.Heap.{Heap, ExpItem}
use cache_custom.Lfu.Victim.{first_ok-passes, lfu_pick-passes}
use cache_custom.Policy.{
  EvictionPolicy, noeviction, allkeys_lru, allkeys_lfu, allkeys_random, allkeys_fifo, volatile_lru,
  volatile_lfu, volatile_random, volatile_ttl, volatile_fifo, other,
}
use cache_custom.Shard.{Entry, Shard}
use cache_custom.Shard.Random.Picks.{rnd_pick-passes}
use cache_custom.Shard.Pick.{
  candidate, is_candidate, stale, push_back, pick_root, ttl_pick_fuel, ttl_pick, pick_local_victim,
}

pub candidate-ne :
    (pol : EvictionPolicy) (skip k : Bytes) (o : Option Entry)
    → candidate pol skip k o ≡ true
    → k ≢ skip
unfolding candidate
candidate-ne pol skip k none h = λ q. ground arith
candidate-ne pol skip k (some e) h = λ q. ground arith

pub is_candidate-ne :
    (pol : EvictionPolicy) (skip : Bytes) (d : Dict Entry) (k : Bytes)
    → is_candidate pol skip d k ≡ true
    → k ≢ skip
unfolding is_candidate
is_candidate-ne pol skip d k h = candidate-ne pol skip k (Dict.lookup k d) h

pick_root-ne :
    (its : List ExpItem) (d : Dict Entry) (skip : Bytes) (h : Heap) (rest : Option Bytes × Heap)
    (k : Bytes)
    → (rest.0 ≡ some k → k ≢ skip)
    → (pick_root its d skip h rest).0 ≡ some k
    → k ≢ skip
unfolding pick_root push_back
pick_root-ne [] d skip h rest k ih e = absurd (cc)
pick_root-ne (it ∷ _) d skip h rest k ih e = elim (Bool-cases (stale d it)) [
  | inl old ↦ ih (ground arith)
  | inr new ↦ elim (dec_bytes it.key skip) [
    | yes q ↦ ih (ground arith)
    | no q ↦ λ r. q (ground arith)
  ]
]

ttl_pick_fuel-ne :
    (fuel : ℕ) (d : Dict Entry) (skip : Bytes) (h : Heap) (k : Bytes)
    → (ttl_pick_fuel fuel d skip h).0 ≡ some k
    → k ≢ skip
unfolding ttl_pick_fuel
ttl_pick_fuel-ne zero d skip h k e = absurd (cc)
ttl_pick_fuel-ne (suc fuel) d skip h k e =
    pick_root-ne h.items d skip h (ttl_pick_fuel fuel d skip (Heap.remove_at 0 h)) k
      (ttl_pick_fuel-ne fuel d skip (Heap.remove_at 0 h) k) e

pub ttl_pick-ne : (skip : Bytes) (sh : Shard) (k : Bytes) → (ttl_pick skip sh).0 ≡ some k → k ≢ skip
unfolding ttl_pick
ttl_pick-ne skip sh k e = ttl_pick_fuel-ne (length sh.ttl.items) sh.data' skip sh.ttl k e

pub lists-ttl_pick :
    (skip : Bytes) (sh : Shard)
    → ((ttl_pick skip sh).1.lru ≡ sh.lru) × ((ttl_pick skip sh).1.fifo ≡ sh.fifo)
unfolding ttl_pick
lists-ttl_pick skip sh = (refl, refl)

pub data-ttl_pick : (skip : Bytes) (sh : Shard) → (ttl_pick skip sh).1.data' ≡ sh.data'
unfolding ttl_pick
data-ttl_pick skip sh = refl

module _ (intn : ℕ → ℕ → ℕ) (skip : Bytes) (sh : Shard) (t : ℕ) (k : Bytes) where
  pub pick_local_victim-ne :
      (pol : EvictionPolicy) → (pick_local_victim intn pol skip sh t).0 ≡ some k → k ≢ skip
  unfolding pick_local_victim
  pick_local_victim-ne noeviction e = absurd (cc)
  pick_local_victim-ne allkeys_lru e =
      is_candidate-ne allkeys_lru skip sh.data' k (first_ok-passes _ sh.lru e)
  pick_local_victim-ne volatile_lru e =
      is_candidate-ne volatile_lru skip sh.data' k (first_ok-passes _ sh.lru e)
  pick_local_victim-ne allkeys_fifo e =
      is_candidate-ne allkeys_fifo skip sh.data' k (first_ok-passes _ sh.fifo e)
  pick_local_victim-ne volatile_fifo e =
      is_candidate-ne volatile_fifo skip sh.data' k (first_ok-passes _ sh.fifo e)
  pick_local_victim-ne (other s) e =
      is_candidate-ne (other s) skip sh.data' k (first_ok-passes _ sh.lru e)
  pick_local_victim-ne allkeys_random e =
      is_candidate-ne allkeys_random skip sh.data' k (rnd_pick-passes intn _ sh.rnd t e)
  pick_local_victim-ne volatile_random e =
      is_candidate-ne volatile_random skip sh.data' k (rnd_pick-passes intn _ sh.rnd t e)
  pick_local_victim-ne allkeys_lfu e =
      is_candidate-ne allkeys_lfu skip sh.data' k (lfu_pick-passes _ sh.lfu e)
  pick_local_victim-ne volatile_lfu e =
      is_candidate-ne volatile_lfu skip sh.data' k (lfu_pick-passes _ sh.lfu e)
  pick_local_victim-ne volatile_ttl e = ttl_pick-ne skip sh k e

  -- A pick changes nothing of the shard but its TTL heap.
  pub data-pick_local_victim :
      (pol : EvictionPolicy) → (pick_local_victim intn pol skip sh t).1.data' ≡ sh.data'
  unfolding pick_local_victim ttl_pick
  data-pick_local_victim noeviction = refl
  data-pick_local_victim _ = refl

  pub lists-pick_local_victim :
      (pol : EvictionPolicy)
      → ((pick_local_victim intn pol skip sh t).1.lru ≡ sh.lru)
        × ((pick_local_victim intn pol skip sh t).1.fifo ≡ sh.fifo)
  unfolding pick_local_victim ttl_pick
  lists-pick_local_victim noeviction = (refl, refl)
  lists-pick_local_victim _ = (refl, refl)
