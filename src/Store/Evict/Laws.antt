-- ===== src/Store/Evict/Laws.antt =====
-- An eviction takes keys away and changes nothing else that a client can see; the key that is
-- being written stays.
use cache_custom.Prelude.{
  ℕ, zero, suc, ◌+◌, ◌%◌, ◌<◌, ◌≡◌, ◌≢◌, refl, ◌∙◌, Option, none, some, [], arith, length, ◌==◌,
  Bool-cases, inl, inr,
}
use cache_custom.Bytes.{Bytes}
use cache_custom.Dict
use cache_custom.Shard.{Entry, drop}
use cache_custom.Shard.Pick.{pick_local_victim}
use cache_custom.Shard.Pick.Victim.{
  pick_local_victim-ne, data-pick_local_victim, lists-pick_local_victim,
}
use cache_custom.Store.{Db, find, shard_at, put_shard, shard_index, clear_expiry, remove_from_shard}
use cache_custom.Store.Find.{shard_index-lt, find-same, length-put_shard, find-remove_from_shard}
use cache_custom.Store.Shrinks.{Same-refl, Shrinks, Same-Shrinks, Shrinks-trans}
use cache_custom.Store.Evict.{
  Choice, pick_global_victim, remove_victim, evict_chosen, remove_local, evict_local_chosen,
  evict_one_global, evict_one_local, steal_from, steal_from_other_shards,
}
use cache_custom.Store.Evict.Pick.{IsQuiet, pick_global_victim-IsQuiet, put_same_data}

module _ (skip : Bytes) where
  remove-Shrinks :
      (i : ℕ) (k : Bytes) (e : Entry) (db : Db)
      → i < length db.shards
      → k ≢ skip
      → Shrinks skip db (remove_from_shard i k e db)
  remove-Shrinks i k e db h ne = record {
    size =
        unfold remove_from_shard in
        ground (arith, length-put_shard i (drop k e (shard_at i db)) db);
    conf = unfold remove_from_shard in ground arith;
    kept = ground (arith, find-remove_from_shard i k skip e db);
    others = λ j. ground (arith, find-remove_from_shard i k j e db);
  }

  counted-Shrinks :
      {a db : Db} (k : Bytes) (n : ℕ)
      → Shrinks skip a db
      → Shrinks skip a (clear_expiry k (record db { evictions = n }))
  unfolding clear_expiry
  counted-Shrinks {db = db} k n s = Shrinks-trans s (
      Same-Shrinks (record {
        size = refl;
        conf = refl;
        finds = λ j. find-same j _ db refl;
        maps = λ i. refl;
        lists = λ i. (refl, refl);
        globals = (refl, refl);
      }))

  remove_local-Shrinks :
      (i : ℕ) (k : Bytes) (o : Option Entry) (db : Db)
      → i < length db.shards
      → k ≢ skip
      → Shrinks skip db (remove_local i k o db).1
  unfolding remove_local
  remove_local-Shrinks i k o db h ne = counted-Shrinks k _ (remove-Shrinks i k _ db h ne)

  evict_local_chosen-Shrinks :
      (i : ℕ) (v : Option Bytes) (db : Db)
      → i < length db.shards
      → ((k : Bytes) → v ≡ some k → k ≢ skip)
      → Shrinks skip db (evict_local_chosen i v db).1
  unfolding evict_local_chosen
  evict_local_chosen-Shrinks i none db h ne = Same-Shrinks (Same-refl db)
  evict_local_chosen-Shrinks i (some k) db h ne =
      remove_local-Shrinks i k (Dict.lookup k (shard_at i db).data') db h (ne k refl)

  remove_victim-Shrinks :
      (k : Bytes) (o : Option Entry) (db : Db)
      → 0 < length db.shards
      → k ≢ skip
      → Shrinks skip db (remove_victim k o db)
  unfolding remove_victim clear_expiry
  remove_victim-Shrinks k none db h ne = record {
    size = refl;
    conf = refl;
    kept = find-same skip _ db refl;
    others = λ j. inl (find-same j _ db refl);
  }
  remove_victim-Shrinks k (some e) db h ne =
      let r = remove-Shrinks (shard_index k db) k e db (shard_index-lt k db h) ne in
      Shrinks-trans r (
        Same-Shrinks (record {
          size = refl;
          conf = refl;
          finds = λ j. find-same j _ _ refl;
          maps = λ i. refl;
          lists = λ i. (refl, refl);
          globals = (refl, refl);
        }))

  evict_chosen-Shrinks :
      (c : Choice) (db : Db)
      → 0 < length db.shards
      → IsQuiet skip db c
      → Shrinks skip db (evict_chosen c).1
  unfolding evict_chosen
  evict_chosen-Shrinks (none, db') db h q = Same-Shrinks q.same
  evict_chosen-Shrinks (some k, db') db h q =
      Shrinks-trans (Same-Shrinks q.same)
        (remove_victim-Shrinks k (find k db') db' (omega (arith, q.same.size)) (q.ne k refl))

module _ (intn : ℕ → ℕ → ℕ) (skip : Bytes) where
  -- A tenant-wide eviction, whatever the policy.
  pub evict_one_global-Shrinks :
      (db : Db) → 0 < length db.shards → Shrinks skip db (evict_one_global intn skip db).1
  unfolding evict_one_global
  evict_one_global-Shrinks db h =
      evict_chosen-Shrinks skip (pick_global_victim intn skip db) db h
        (pick_global_victim-IsQuiet intn skip db h)

  -- An eviction in one shard, whatever the policy.
  pub evict_one_local-Shrinks :
      (i : ℕ) (db : Db) → i < length db.shards → Shrinks skip db (evict_one_local intn i skip db).1
  unfolding evict_one_local
  evict_one_local-Shrinks i db h =
      let sh = shard_at i db in
      let r = pick_local_victim intn db.policy skip sh db.draws in
      let picked : Db = record db { shards = (put_shard i r.1 db).shards; draws = r.2 } in
      let s =
        put_same_data skip i r.1 db h (data-pick_local_victim intn skip sh db.draws [] db.policy)
          (lists-pick_local_victim intn skip sh db.draws [] db.policy) in
      Shrinks-trans
        (Same-Shrinks (record {
          size = s.size;
          conf = refl;
          finds = λ j. find-same j picked (put_shard i r.1 db) refl ∙ s.finds j;
          maps = s.maps;
          lists = s.lists;
          globals = s.globals;
        }))
        (evict_local_chosen-Shrinks skip i r.0 picked (omega (arith, s.size))
          (λ k e. pick_local_victim-ne intn skip sh db.draws k db.policy e))

  steal_from-Shrinks :
      (n i hold : ℕ) (db : Db)
      → 0 < length db.shards
      → Shrinks skip db (steal_from intn n i hold skip db).1
  unfolding steal_from
  steal_from-Shrinks zero i hold db h = Same-Shrinks (Same-refl db)
  steal_from-Shrinks (suc n) i hold db h =
      let si = (hold + 1 + i) % length db.shards in
      let here = evict_one_local-Shrinks si db (grind arith) in
      elim (Bool-cases (si == hold)) [
        | inl e ↦ rw (e, steal_from) (steal_from-Shrinks n (i + 1) hold db h)
        | inr e ↦
            rw (e, steal_from)
              (elim (Bool-cases (evict_one_local intn si skip db).0) [
                | inl t ↦ rw t here
                | inr f ↦ rw f (
                    Shrinks-trans here
                      (steal_from-Shrinks n (i + 1) hold _ (omega (arith, here.size))))
              ])
      ]

  pub steal-Shrinks :
      (hold : ℕ) (db : Db)
      → 0 < length db.shards
      → Shrinks skip db (steal_from_other_shards intn hold skip db).1
  unfolding steal_from_other_shards
  steal-Shrinks hold db h = steal_from-Shrinks (length db.shards) 0 hold db h
