-- ===== src/Store/Evict/Pick.antt =====
-- The tenant-wide choice of a victim changes no entry, and never chooses the key that is being
-- written.
use cache_custom.Prelude.{
  ℕ, zero, suc, ◌+◌, ◌%◌, ◌<◌, ◌≡◌, ◌≢◌, refl, ap, sym, ==_iff, subst, ◌∙◌, Option, none, some,
  List, [], ◌∷◌, arith, length, get_or, ◌==◌, if◌then◌else◌, if_pos, if_neg, ◌&&◌, ◌||◌, ltb,
  Bool-cases, Option-cases, inl, inr,
}
use cache_custom.Bytes.{Bytes, dec_bytes, bytes_lt}
use cache_custom.Heap.{ExpItem}
use cache_custom.Lfu.{first_ok, lfu_pick}
use cache_custom.Policy.{
  EvictionPolicy, noeviction, allkeys_lru, allkeys_lfu, allkeys_random, allkeys_fifo, volatile_lru,
  volatile_lfu, volatile_random, volatile_ttl, volatile_fifo, other,
}
use cache_custom.Shard.{Entry, Shard, new_shard}
use cache_custom.Shard.Random.{rnd_pick}
use cache_custom.Shard.Random.Picks.{rnd_pick-passes}
use cache_custom.Shard.Pick.{is_candidate}
use cache_custom.Lfu.Victim.{first_ok-passes, lfu_pick-passes}
use cache_custom.Shard.Pick.Victim.{
  candidate-ne, is_candidate-ne, ttl_pick-ne, data-ttl_pick, lists-ttl_pick,
}
use cache_custom.Store.{Db, find, shard_at, put_shard, shard_index, clear_expiry, note_expiry}
use cache_custom.Store.Find.{
  shard_index-lt, find-put_shard, find-here, find-same, length-put_shard, shard_at-put_shard,
}
use cache_custom.Store.Shrinks.{Same, Same-refl, Same-trans}
use cache_custom.Store.Evict.{
  Choice, ttl_pick_at, or_next, ttl_pick_from, check_root, pick_global_root, pick_global_ttl_fuel,
  pick_global_ttl, better, best_lfu, pick_global_lfu, global_candidate, random_from,
  pick_global_random, pick_by, pick_global_victim,
}

-- The choice leaves the entries as they were, and is not `skip`.
pub record IsQuiet (skip : Bytes) (db : Db) (c : Choice) : Type 0 where
  pub same : Same db c.1
  pub ne : (k : Bytes) → c.0 ≡ some k → k ≢ skip

module _ (skip : Bytes) where
  none-IsQuiet : {db db' : Db} → Same db db' → IsQuiet skip db (none, db')
  none-IsQuiet s = record { same = s; ne = λ k e. absurd (cc) }

  at-put_shard :
      {B : Type 0} (f : Shard → B) (i : ℕ) (sh : Shard) (db : Db) (j : ℕ)
      → i < length db.shards
      → f sh ≡ f (shard_at i db)
      → f (shard_at j (put_shard i sh db)) ≡ f (shard_at j db)
  at-put_shard f i sh db j h e =
      ap f (shard_at-put_shard i sh db j h) ∙ elim (Bool-cases (j == i)) [
        | inr far ↦ rw far refl
        | inl near ↦ rw (near, e) (ap (λ (n : ℕ). f (shard_at n db)) (sym ((==_iff _ _).0 near)))
      ]

  pub put_same_data :
      (i : ℕ) (sh : Shard) (db : Db)
      → i < length db.shards
      → sh.data' ≡ (shard_at i db).data'
      → (sh.lru ≡ (shard_at i db).lru) × (sh.fifo ≡ (shard_at i db).fifo)
      → Same db (put_shard i sh db)
  put_same_data i sh db h e l = record {
    size = length-put_shard i sh db;
    conf = refl;
    finds = λ j. find-put_shard i sh db j h ∙ ground (arith, e, find-here i j db);
    maps = λ j. at-put_shard (λ s. s.data') i sh db j h e;
    lists = λ j.
        (at-put_shard (λ s. s.lru) i sh db j h l.0, at-put_shard (λ s. s.fifo) i sh db j h l.1);
    globals = (refl, refl);
  }

  ttl_pick_at-IsQuiet :
      (i : ℕ) (db : Db) → i < length db.shards → IsQuiet skip db (ttl_pick_at i skip db)
  unfolding ttl_pick_at
  ttl_pick_at-IsQuiet i db h = record {
    same =
        put_same_data i _ db h (data-ttl_pick skip (shard_at i db))
          (lists-ttl_pick skip (shard_at i db));
    ne = λ k e. ttl_pick-ne skip (shard_at i db) k e;
  }

  or_next-IsQuiet :
      (db : Db) (c : Choice) (next : Db → Choice)
      → IsQuiet skip db c
      → ((db' : Db) → Same db db' → IsQuiet skip db (next db'))
      → IsQuiet skip db (or_next c next)
  unfolding or_next
  or_next-IsQuiet db (some k, db') next q n = q
  or_next-IsQuiet db (none, db') next q n = n db' q.same

  Same-IsQuiet : {a b : Db} {c : Choice} → Same a b → IsQuiet skip b c → IsQuiet skip a c
  Same-IsQuiet s q = record { same = Same-trans s q.same; ne = q.ne }

  ttl_pick_from-IsQuiet :
      (n i : ℕ) (db : Db) → i + n ≡ length db.shards → IsQuiet skip db (ttl_pick_from n i skip db)
  unfolding ttl_pick_from
  ttl_pick_from-IsQuiet zero i db h = none-IsQuiet (Same-refl db)
  ttl_pick_from-IsQuiet (suc n) i db h =
      or_next-IsQuiet db (ttl_pick_at i skip db) (ttl_pick_from n (i + 1) skip)
        (ttl_pick_at-IsQuiet i db (omega arith))
        λ db' s. Same-IsQuiet s (ttl_pick_from-IsQuiet n (i + 1) db' (omega (arith, s.size)))

  clear_expiry-Same : (k : Bytes) (db : Db) → Same db (clear_expiry k db)
  unfolding clear_expiry
  clear_expiry-Same k db = record {
    size = refl;
    conf = refl;
    finds = λ j. find-same j _ db refl;
    maps = λ i. refl;
    lists = λ i. (refl, refl);
    globals = (refl, refl);
  }

  note_expiry-Same : (k : Bytes) (t : Option ℕ) (db : Db) → Same db (note_expiry k t db)
  unfolding note_expiry
  note_expiry-Same k t db = record {
    size = refl;
    conf = refl;
    finds = λ j. find-same j _ db refl;
    maps = λ i. refl;
    lists = λ i. (refl, refl);
    globals = (refl, refl);
  }

  module _ (next : Db → Choice) where
    check_expiry-IsQuiet :
        (o : Option ℕ) (it : ExpItem) (db : Db)
        → it.key ≢ skip
        → ((db' : Db) → Same db db' → IsQuiet skip db (next db'))
        → IsQuiet skip db (elim o [
          | none ↦ next (clear_expiry it.key db)
          | some t ↦ if t == it.at then (some it.key, db) else next (note_expiry it.key (some t) db)
        ])
    check_expiry-IsQuiet none it db h n = n _ (clear_expiry-Same it.key db)
    check_expiry-IsQuiet (some t) it db h n = elim (Bool-cases (t == it.at)) [
      | inl e ↦ rw e (record { same = Same-refl db; ne = λ k q r. h (ground arith) })
      | inr e ↦ rw e (n _ (note_expiry-Same it.key (some t) db))
    ]

    check_root-IsQuiet :
        (o : Option Entry) (it : ExpItem) (db : Db)
        → it.key ≢ skip
        → ((db' : Db) → Same db db' → IsQuiet skip db (next db'))
        → IsQuiet skip db (check_root o it db next)
    unfolding check_root
    check_root-IsQuiet none it db h n = n _ (clear_expiry-Same it.key db)
    check_root-IsQuiet (some e) it db h n = check_expiry-IsQuiet e.expires_at it db h n

    pick_global_root-IsQuiet :
        (its : List ExpItem) (db : Db)
        → 0 < length db.shards
        → ((db' : Db) → Same db db' → IsQuiet skip db (next db'))
        → IsQuiet skip db (pick_global_root its skip db next)
    unfolding pick_global_root
    pick_global_root-IsQuiet [] db h n = none-IsQuiet (Same-refl db)
    pick_global_root-IsQuiet (it ∷ its) db h n = elim (dec_bytes it.key skip) [
      | no q ↦ rw (if_neg _ q) (check_root-IsQuiet (find it.key db) it db q n)
      | yes q ↦ rw (if_pos _ q) (
          or_next-IsQuiet db _ _
            (ttl_pick_at-IsQuiet (shard_index it.key db) db (shard_index-lt it.key db h))
            λ db' s.
              Same-IsQuiet s
                (ttl_pick_from-IsQuiet (length db.shards) 0 db' (omega (arith, s.size))))
    ]

  pick_global_ttl_fuel-IsQuiet :
      (fuel : ℕ) (db : Db)
      → 0 < length db.shards
      → IsQuiet skip db (pick_global_ttl_fuel fuel skip db)
  unfolding pick_global_ttl_fuel
  pick_global_ttl_fuel-IsQuiet zero db h = none-IsQuiet (Same-refl db)
  pick_global_ttl_fuel-IsQuiet (suc fuel) db h =
      pick_global_root-IsQuiet (λ db'. pick_global_ttl_fuel fuel skip db') db.exp.items db h
        λ db' s. Same-IsQuiet s (pick_global_ttl_fuel-IsQuiet fuel db' (omega (arith, s.size)))

  -- What holds of every pick of a shard holds of the best of them.
  module _ (P : Bytes → Type 0) where
    better-holds :
        (best : Option (Bytes × ℕ)) (k : Bytes) (f : ℕ) (bk : Bytes) (bf : ℕ)
        → P k
        → ((j : Bytes) (g : ℕ) → best ≡ some (j, g) → P j)
        → better best k f ≡ some (bk, bf)
        → P bk
    unfolding better
    better-holds none k f bk bf h hb e = subst P (ground (arith, e)) h
    better-holds (some (j, g)) k f bk bf h hb e =
        elim (Bool-cases (ltb f g || (f == g && bytes_lt k j))) [
          | inl won ↦ subst P (ground (arith, e, won)) h
          | inr lost ↦ hb bk g (ground (arith, e, lost))
        ]

    best_lfu-holds :
        (pol : EvictionPolicy) (shs : List Shard) (best : Option (Bytes × ℕ))
        → ((j : Bytes) (g : ℕ) → best ≡ some (j, g) → P j)
        → ((i : ℕ) (v : Bytes)
            → i < length shs
            → lfu_pick
                (is_candidate pol skip (get_or shs i (new_shard 0)).data')
                (get_or shs i (new_shard 0)).lfu
              ≡ some v
            → P v)
        → (k : Bytes) (f : ℕ) → best_lfu pol skip shs best ≡ some (k, f)
        → P k
    unfolding best_lfu
    best_lfu-holds pol [] best hb each k f e = hb k f e
    best_lfu-holds pol (sh ∷ shs) best hb each k f e =
        elim (Option-cases (lfu_pick (is_candidate pol skip sh.data') sh.lfu)) [
          | inl q ↦
              best_lfu-holds pol shs best hb (λ i v less. each (suc i) v (omega arith)) k f
                (rw q at e)
          | inr (v, q) ↦
              best_lfu-holds pol shs _
                (λ j g r. better-holds best v _ j g (each 0 v (omega arith) q) hb r)
                (λ i w less. each (suc i) w (omega arith)) k f (rw q at e)
        ]

  pick_global_lfu-ne :
      (pol : EvictionPolicy) (db : Db) (k : Bytes) → pick_global_lfu pol skip db ≡ some k → k ≢ skip
  unfolding pick_global_lfu
  pick_global_lfu-ne pol db k e = elim (Option-cases (best_lfu pol skip db.shards none)) [
    | inl q ↦ absurd (ground arith)
    | inr ((j, g), q) ↦
        let same : j ≡ k = ground (arith, e, q) in
        let good =
          best_lfu-holds (λ v. v ≢ skip) pol db.shards none (λ j g q'. absurd (cc))
            (λ i v less r. is_candidate-ne pol skip _ v (lfu_pick-passes _ (shard_at i db).lfu r)) j
            g q in
        subst (λ v. v ≢ skip) same good
  ]

  pick_global_lfu-IsQuiet :
      (pol : EvictionPolicy) (db : Db) → IsQuiet skip db (pick_global_lfu pol skip db, db)
  pick_global_lfu-IsQuiet pol db = record {
    same = Same-refl db;
    ne = λ k e. pick_global_lfu-ne pol db k e;
  }

  listed-IsQuiet :
      (pol : EvictionPolicy) (ks : List Bytes) (db : Db)
      → 0 < length db.shards
      → IsQuiet skip db (first_ok (global_candidate db pol skip) ks, db)
  unfolding global_candidate
  listed-IsQuiet pol ks db h = record {
    same = Same-refl db;
    ne = λ k e. candidate-ne pol skip k (find k db) (first_ok-passes _ ks e);
  }

drawn : (db : Db) (t : ℕ) → Same db (record db { draws = t })
drawn db t = record {
  size = refl;
  conf = refl;
  finds = λ j. find-same j _ db refl;
  maps = λ i. refl;
  lists = λ i. (refl, refl);
  globals = (refl, refl);
}

module _ (intn : ℕ → ℕ → ℕ) (skip : Bytes) where
  random_from-IsQuiet :
      (pol : EvictionPolicy) (n start i : ℕ) (db : Db)
      → 0 < length db.shards
      → IsQuiet skip db (random_from intn pol skip n start i db)
  unfolding random_from
  random_from-IsQuiet pol zero start i db h = none-IsQuiet skip (Same-refl db)
  random_from-IsQuiet pol (suc n) start i db h =
      let sh = shard_at ((start + i) % length db.shards) db in
      let r = rnd_pick intn (is_candidate pol skip sh.data') sh.rnd db.draws in
      or_next-IsQuiet skip db (r.0, record db { draws = r.1 })
        (random_from intn pol skip n start (i + 1))
        (record {
          same = drawn db r.1;
          ne =
              λ k e. is_candidate-ne pol skip sh.data' k (rnd_pick-passes intn _ sh.rnd db.draws e);
        })
        λ db' s.
          Same-IsQuiet skip s (random_from-IsQuiet pol n start (i + 1) db' (omega (arith, s.size)))

  pick_global_random-IsQuiet :
      (pol : EvictionPolicy) (db : Db)
      → 0 < length db.shards
      → IsQuiet skip db (pick_global_random intn pol skip db)
  unfolding pick_global_random
  pick_global_random-IsQuiet pol db h = Same-IsQuiet skip (drawn db (db.draws + 1)) (
      random_from-IsQuiet pol (length db.shards) (intn db.draws (length db.shards)) 0
        (record db { draws = db.draws + 1 }) h)

  pick_by-IsQuiet :
      (pol : EvictionPolicy) (db : Db)
      → 0 < length db.shards
      → IsQuiet skip db (pick_by intn pol skip db)
  unfolding pick_by pick_global_ttl
  pick_by-IsQuiet noeviction db h = none-IsQuiet skip (Same-refl db)
  pick_by-IsQuiet allkeys_lru db h = listed-IsQuiet skip allkeys_lru db.g_lru db h
  pick_by-IsQuiet volatile_lru db h = listed-IsQuiet skip volatile_lru db.g_lru db h
  pick_by-IsQuiet allkeys_fifo db h = listed-IsQuiet skip allkeys_fifo db.g_fifo db h
  pick_by-IsQuiet volatile_fifo db h = listed-IsQuiet skip volatile_fifo db.g_fifo db h
  pick_by-IsQuiet allkeys_random db h = pick_global_random-IsQuiet allkeys_random db h
  pick_by-IsQuiet volatile_random db h = pick_global_random-IsQuiet volatile_random db h
  pick_by-IsQuiet allkeys_lfu db h = pick_global_lfu-IsQuiet skip allkeys_lfu db
  pick_by-IsQuiet volatile_lfu db h = pick_global_lfu-IsQuiet skip volatile_lfu db
  pick_by-IsQuiet volatile_ttl db h = pick_global_ttl_fuel-IsQuiet skip _ db h
  pick_by-IsQuiet (other s) db h = pick_global_random-IsQuiet (other s) db h

  pub pick_global_victim-IsQuiet :
      (db : Db) → 0 < length db.shards → IsQuiet skip db (pick_global_victim intn skip db)
  unfolding pick_global_victim
  pick_global_victim-IsQuiet db h = pick_by-IsQuiet db.policy db h
