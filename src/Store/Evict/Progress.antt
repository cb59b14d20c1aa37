-- ===== src/Store/Evict/Progress.antt =====
-- Under a policy that reads the lists, an eviction that succeeds takes a key out of a map
-- (internal/store/evict.go, ops.go), so a loop of evictions ends.
use cache_custom.Prelude.{
  ℕ, zero, suc, ◌+◌, ◌%◌, ◌≤◌, ◌<◌, ◌≡◌, refl, sym, ap, ◌∙◌, Bool, true, false, some, List, [],
  arith, length, ◌==◌, Bool-cases, Option-cases, inl, inr, subst,
}
use cache_custom.Bytes.{Bytes}
use cache_custom.Dict
use cache_custom.Lfu.{first_ok}
use cache_custom.Lfu.Victim.{first_ok-member}
use cache_custom.Policy.{
  EvictionPolicy, noeviction, allkeys_lru, allkeys_lfu, allkeys_random, allkeys_fifo, volatile_lru,
  volatile_lfu, volatile_random, volatile_ttl, volatile_fifo, other,
}
use cache_custom.Shard.{Entry}
use cache_custom.Shard.Listed.{IsExact, held}
use cache_custom.Shard.Pick.{pick_local_victim}
use cache_custom.Shard.Pick.Victim.{data-pick_local_victim, lists-pick_local_victim}
use cache_custom.Store.{
  Db, is_global, find, shard_at, put_shard, shard_index, count_keys, clear_expiry,
}
use cache_custom.Store.Count.{count-remove, count-Same}
use cache_custom.Store.Find.{shard_index-lt, find-same}
use cache_custom.Store.Homed.{IsTidy, found, Same-IsTidy}
use cache_custom.Store.Shrinks.{Same}
use cache_custom.Store.Evict.{
  pick_global_victim, pick_by, remove_victim, evict_chosen, remove_local, evict_local_chosen,
  evict_one_global, evict_one_local, steal_from, steal_from_other_shards,
}
use cache_custom.Store.Evict.Pick.{put_same_data}
use cache_custom.Store.Evict.Homed.{evict_one_local-Stays}
use cache_custom.Store.Evict.Laws.{evict_one_local-Shrinks}

-- The policies that take the first candidate of a list, and the one that evicts nothing.
unfoldable pub reads_lists : EvictionPolicy → Bool
reads_lists noeviction = true
reads_lists allkeys_lru = true
reads_lists volatile_lru = true
reads_lists allkeys_fifo = true
reads_lists volatile_fifo = true
reads_lists allkeys_random = false
reads_lists volatile_random = false
reads_lists allkeys_lfu = false
reads_lists volatile_lfu = false
reads_lists volatile_ttl = false
reads_lists (other s) = false

-- There are no more keys, and fewer after an eviction that succeeds.
pub record Fewer (a : Db) (r : Bool × Db) : Type 0 where
  pub le : count_keys r.1.shards ≤ count_keys a.shards
  pub less : r.0 ≡ true → count_keys r.1.shards < count_keys a.shards

stuck-Fewer : {a b : Db} → count_keys b.shards ≡ count_keys a.shards → Fewer a (false, b)
stuck-Fewer e = record { le = omega (arith, e); less = λ t. absurd (cc) }

gone-Fewer :
    {a b : Db} {done : Bool} → count_keys b.shards < count_keys a.shards → Fewer a (done, b)
gone-Fewer h = record { le = omega (arith, h); less = λ _. h }

victim_goes :
    (k : Bytes) (e : Entry) (db : Db)
    → 0 < length db.shards
    → find k db ≡ some e
    → count_keys (remove_victim k (some e) db).shards < count_keys db.shards
unfolding remove_victim clear_expiry find
victim_goes k e db h here = count-remove (shard_index k db) k e e db (shard_index-lt k db h) here

-- The first candidate of a list that holds exactly the keys of the maps.
first_of-Fewer :
    (p : Bytes → Bool) (ks : List Bytes) (db : Db)
    → 0 < length db.shards
    → IsExact ks (found db)
    → Fewer db (evict_chosen (first_ok p ks, db))
unfolding evict_chosen
first_of-Fewer p ks db h exact = elim (Option-cases (first_ok p ks)) [
  | inl q ↦ rw q (stuck-Fewer refl)
  | inr (k, q) ↦
      let there : found db k ≡ true = sym (exact.holds k) ∙ first_ok-member p ks k q in
      rw q (elim (Option-cases (find k db)) [
        | inl lost ↦ absurd (ground (arith, there, lost))
        | inr (e, here) ↦ rw here (gone-Fewer (victim_goes k e db h here))
      ])
]

-- The same in one shard.
first_in-Fewer :
    (p : Bytes → Bool) (ks : List Bytes) (i : ℕ) (db : Db)
    → i < length db.shards
    → IsExact ks (held (shard_at i db).data')
    → Fewer db (evict_local_chosen i (first_ok p ks) db)
unfolding evict_local_chosen remove_local clear_expiry
first_in-Fewer p ks i db less exact = elim (Option-cases (first_ok p ks)) [
  | inl q ↦ rw q (stuck-Fewer refl)
  | inr (k, q) ↦
      let there : held (shard_at i db).data' k ≡ true =
        sym (exact.holds k) ∙ first_ok-member p ks k q in
      rw q (elim (Option-cases (Dict.lookup k (shard_at i db).data')) [
        | inl lost ↦ absurd (ground (arith, there, lost))
        | inr (e, here) ↦ gone-Fewer (count-remove i k _ e db less here)
      ])
]

module _ (intn : ℕ → ℕ → ℕ) (skip : Bytes) where
  evict_by-Fewer :
      (pol : EvictionPolicy) (db : Db)
      → reads_lists pol ≡ true
      → is_global db.strategy ≡ true
      → IsTidy db
      → Fewer db (evict_chosen (pick_by intn pol skip db))
  unfolding pick_by evict_chosen reads_lists
  evict_by-Fewer noeviction db r g h = stuck-Fewer refl
  evict_by-Fewer allkeys_lru db r g h =
      first_of-Fewer _ db.g_lru db h.homed.some_shard (h.tracked g).0
  evict_by-Fewer volatile_lru db r g h =
      first_of-Fewer _ db.g_lru db h.homed.some_shard (h.tracked g).0
  evict_by-Fewer allkeys_fifo db r g h =
      first_of-Fewer _ db.g_fifo db h.homed.some_shard (h.tracked g).1
  evict_by-Fewer volatile_fifo db r g h =
      first_of-Fewer _ db.g_fifo db h.homed.some_shard (h.tracked g).1
  evict_by-Fewer allkeys_random db r g h = absurd (cc)
  evict_by-Fewer volatile_random db r g h = absurd (cc)
  evict_by-Fewer allkeys_lfu db r g h = absurd (cc)
  evict_by-Fewer volatile_lfu db r g h = absurd (cc)
  evict_by-Fewer volatile_ttl db r g h = absurd (cc)
  evict_by-Fewer (other s) db r g h = absurd (cc)

  pub evict_one_global-Fewer :
      (db : Db)
      → reads_lists db.policy ≡ true
      → is_global db.strategy ≡ true
      → IsTidy db
      → Fewer db (evict_one_global intn skip db)
  unfolding evict_one_global pick_global_victim
  evict_one_global-Fewer db r g h = evict_by-Fewer db.policy db r g h

  module _ (i : ℕ) (db picked : Db) (less : i < length db.shards) (h : IsTidy db)
      (s : Same db picked) where
    in_range : i < length picked.shards
    in_range = omega (arith, s.size)

    by_lru :
        (p : Bytes → Bool)
        → Fewer picked (evict_local_chosen i (first_ok p (shard_at i db).lru) picked)
    by_lru p = first_in-Fewer p (shard_at i db).lru i picked in_range (
        subst (λ ks. IsExact ks (held (shard_at i picked).data')) (s.lists i).0
          ((Same-IsTidy s h).listed i in_range).recency)

    by_fifo :
        (p : Bytes → Bool)
        → Fewer picked (evict_local_chosen i (first_ok p (shard_at i db).fifo) picked)
    by_fifo p = first_in-Fewer p (shard_at i db).fifo i picked in_range (
        subst (λ ks. IsExact ks (held (shard_at i picked).data')) (s.lists i).1
          ((Same-IsTidy s h).listed i in_range).insertion)

    victim-Fewer :
        (pol : EvictionPolicy)
        → reads_lists pol ≡ true
        → Fewer picked (
            evict_local_chosen i
              (pick_local_victim intn pol skip (shard_at i db) db.draws).0
              picked)
    unfolding pick_local_victim evict_local_chosen reads_lists
    victim-Fewer noeviction r = stuck-Fewer refl
    victim-Fewer allkeys_lru r = by_lru _
    victim-Fewer volatile_lru r = by_lru _
    victim-Fewer allkeys_fifo r = by_fifo _
    victim-Fewer volatile_fifo r = by_fifo _
    victim-Fewer allkeys_random r = absurd (cc)
    victim-Fewer volatile_random r = absurd (cc)
    victim-Fewer allkeys_lfu r = absurd (cc)
    victim-Fewer volatile_lfu r = absurd (cc)
    victim-Fewer volatile_ttl r = absurd (cc)
    victim-Fewer (other s') r = absurd (cc)

  Same-Fewer : {a b : Db} {r : Bool × Db} → Same a b → Fewer b r → Fewer a r
  Same-Fewer {a} {b} {r} s p = record {
    le = omega (arith, p.le, count-Same s);
    less = λ e. omega (arith, p.less e, count-Same s);
  }

  pub evict_one_local-Fewer :
      (i : ℕ) (db : Db)
      → i < length db.shards
      → reads_lists db.policy ≡ true
      → IsTidy db
      → Fewer db (evict_one_local intn i skip db)
  unfolding evict_one_local
  evict_one_local-Fewer i db less r h =
      let sh = shard_at i db in
      let v = pick_local_victim intn db.policy skip sh db.draws in
      let picked : Db = record db { shards = (put_shard i v.1 db).shards; draws = v.2 } in
      let s =
        put_same_data skip i v.1 db less (data-pick_local_victim intn skip sh db.draws [] db.policy)
          (lists-pick_local_victim intn skip sh db.draws [] db.policy) in
      let same : Same db picked = record {
        size = s.size;
        conf = refl;
        finds = λ j. find-same j picked (put_shard i v.1 db) refl ∙ s.finds j;
        maps = s.maps;
        lists = s.lists;
        globals = s.globals;
      } in
      Same-Fewer {r = evict_local_chosen i v.0 picked} same
        (victim-Fewer i db picked less h same db.policy r)

  -- An eviction that is followed by another one where it fails.
  pub then-Fewer : {a : Db} {r s : Bool × Db} → Fewer a r → Fewer r.1 s → Fewer a s
  then-Fewer {a} {r} {s} p q = record {
    le = omega (arith, q.le, p.le);
    less = λ e. omega (arith, q.less e, p.le);
  }

  steal_from-Fewer :
      (n i hold : ℕ) (db : Db)
      → reads_lists db.policy ≡ true
      → is_global db.strategy ≡ false
      → IsTidy db
      → Fewer db (steal_from intn n i hold skip db)
  unfolding steal_from
  steal_from-Fewer zero i hold db r local h = stuck-Fewer refl
  steal_from-Fewer (suc n) i hold db r local h =
      let si = (hold + 1 + i) % length db.shards in
      let pos = h.homed.some_shard in
      let in_range : si < length db.shards = grind arith in
      let here = evict_one_local-Fewer si db in_range r h in
      let st = evict_one_local-Stays intn skip si db in_range local h in
      let conf = (evict_one_local-Shrinks intn skip si db in_range).conf in
      elim (Bool-cases (si == hold)) [
        | inl e ↦ rw (e, steal_from) (steal_from-Fewer n (i + 1) hold db r local h)
        | inr e ↦
            rw (e, steal_from)
              (elim (Bool-cases (evict_one_local intn si skip db).0) [
                | inl t ↦ rw t here
                | inr f ↦ rw f (
                    then-Fewer here (
                      steal_from-Fewer n (i + 1) hold _ (ap (λ c. reads_lists c.policy) conf ∙ r)
                        (ap is_global st.strategy ∙ local) st.tidy))
              ])
      ]

  pub steal-Fewer :
      (hold : ℕ) (db : Db)
      → reads_lists db.policy ≡ true
      → is_global db.strategy ≡ false
      → IsTidy db
      → Fewer db (steal_from_other_shards intn hold skip db)
  unfolding steal_from_other_shards
  steal-Fewer hold db r local h = steal_from-Fewer (length db.shards) 0 hold db r local h
