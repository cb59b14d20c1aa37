-- ===== src/Store/Evict/Homed.antt =====
-- An eviction leaves every key in the shard of its hash, and in the lists (internal/store/evict.go, ops.go).
use cache_custom.Prelude.{
  Bool, ℕ, zero, suc, ◌+◌, ◌%◌, ◌<◌, ◌≡◌, refl, ◌∙◌, Option, none, some, [], arith, length, ◌==◌,
  Bool-cases, inl, inr, ap, sym, subst, true, false, ite,
}
use cache_custom.Bytes.{Bytes}
use cache_custom.Shard.{Entry}
use cache_custom.Shard.Pick.{pick_local_victim}
use cache_custom.Shard.Pick.Victim.{data-pick_local_victim, lists-pick_local_victim}
use cache_custom.Store.{Db, find, shard_at, put_shard, shard_index, clear_expiry, remove_from_shard}
use cache_custom.Store.Find.{shard_index-lt, find-same, length-put_shard, shards-remove}
use cache_custom.Lfu.{erase}
use cache_custom.Shard.Pick.{is_some}
use cache_custom.Shard.Listed.{IsExact-same, IsExact-erase}
use cache_custom.Bytes.{dec_bytes}
use cache_custom.Store.{is_global}
use cache_custom.Store.Homed.{
  IsTidy, found, Same-IsTidy, shards-IsHomed, shards-IsTidy, remove-IsTidy, strategy-remove,
}
use cache_custom.Store.Shrinks.{Same}
use cache_custom.Store.Evict.{
  Choice, pick_global_victim, remove_victim, evict_chosen, remove_local, evict_local_chosen,
  evict_one_global, evict_one_local, steal_from, steal_from_other_shards,
}
use cache_custom.Store.Evict.Pick.{IsQuiet, pick_global_victim-IsQuiet, put_same_data}

-- The keys are at home and listed, in as many shards as before and under the same strategy.
pub record Stays (a b : Db) : Type 0 where
  pub tidy : IsTidy b
  pub size : length b.shards ≡ length a.shards
  pub strategy : b.strategy ≡ a.strategy

pub Stays-refl : (a : Db) → IsTidy a → Stays a a
Stays-refl a h = record { tidy = h; size = refl; strategy = refl }

Same-Stays : {a b c : Db} → Same a b → Stays b c → Stays a c
Same-Stays s p = record {
  tidy = p.tidy;
  size = p.size ∙ s.size;
  strategy = p.strategy ∙ ap (λ c. c.strategy) s.conf;
}

-- An eviction that is followed by another one.
pub Stays-trans : {a b c : Db} → Stays a b → Stays b c → Stays a c
Stays-trans p q = record {
  tidy = q.tidy;
  size = q.size ∙ p.size;
  strategy = q.strategy ∙ p.strategy;
}

bool_apart : ◌≡◌ {A = Bool} false true → ⊥
bool_apart p = cc

length-removed :
    (i : ℕ) (k : Bytes) (e : Entry) (db : Db)
    → length (remove_from_shard i k e db).shards ≡ length db.shards
length-removed i k e db = ap length (shards-remove i k e db) ∙ length-put_shard i _ db

removed-Stays :
    (i : ℕ) (k : Bytes) (e : Entry) (n : ℕ) (db : Db)
    → i < length db.shards
    → (is_global db.strategy ≡ true → shard_index k db ≡ i)
    → IsTidy db
    → Stays db (clear_expiry k (record (remove_from_shard i k e db) { evictions = n }))
unfolding clear_expiry
removed-Stays i k e n db less at_home h = record {
  tidy =
      shards-IsTidy {a = remove_from_shard i k e db} refl refl refl refl
        (remove-IsTidy k e db i less at_home h);
  size = length-removed i k e db;
  strategy = strategy-remove k e db i;
}

-- A key that the map has lost leaves the recency list, where it was not.
stale-IsTidy :
    (k : Bytes) (db : Db)
    → find k db ≡ none
    → IsTidy db
    → IsTidy (record db { g_lru = erase k db.g_lru })
stale-IsTidy k db lost h = record {
  homed = shards-IsHomed refl h.homed;
  listed = h.listed;
  tracked = λ g. (
    IsExact-erase k db.g_lru _ _ (h.tracked g).0 (λ j. gone j),
    IsExact-same k db.g_fifo _ _ (h.tracked g).1 (λ j. ap is_some (find-same j _ db refl)),
  );
}
  where
    gone :
        (j : Bytes)
        → found (record db { g_lru = erase k db.g_lru }) j ≡ ite (dec_bytes k j) false (found db j)
    gone j =
        let not_there : k ≡ j → found db j ≡ false =
          λ p. subst (λ i. found db i ≡ false) p (ap is_some lost) in
        ap is_some (find-same j _ db refl) ∙ ground (arith, not_there)

remove_victim-Stays :
    (k : Bytes) (o : Option Entry) (db : Db)
    → find k db ≡ o
    → IsTidy db
    → Stays db (remove_victim k o db)
unfolding remove_victim clear_expiry
remove_victim-Stays k none db e h = record {
  tidy = stale-IsTidy k db e h;
  size = refl;
  strategy = refl;
}
remove_victim-Stays k (some e) db _ h = record {
  tidy = shards-IsTidy {a = remove_from_shard (shard_index k db) k e db} refl refl refl refl (
      remove-IsTidy k e db (shard_index k db) (shard_index-lt k db h.homed.some_shard) (λ _. refl)
        h);
  size = length-removed (shard_index k db) k e db;
  strategy = strategy-remove k e db (shard_index k db);
}

evict_chosen-Stays :
    (skip : Bytes) (c : Choice) (db : Db)
    → IsQuiet skip db c
    → IsTidy db
    → Stays db (evict_chosen c).1
unfolding evict_chosen
evict_chosen-Stays skip (none, db') db q h =
    Same-Stays q.same (Stays-refl db' (Same-IsTidy q.same h))
evict_chosen-Stays skip (some k, db') db q h =
    Same-Stays q.same (remove_victim-Stays k (find k db') db' refl (Same-IsTidy q.same h))

evict_local_chosen-Stays :
    (i : ℕ) (v : Option Bytes) (db : Db)
    → i < length db.shards
    → is_global db.strategy ≡ false
    → IsTidy db
    → Stays db (evict_local_chosen i v db).1
unfolding evict_local_chosen remove_local
evict_local_chosen-Stays i none db less local h = Stays-refl db h
evict_local_chosen-Stays i (some k) db less local h =
    removed-Stays i k _ _ db less (λ g. absurd (bool_apart (sym local ∙ g))) h

module _ (intn : ℕ → ℕ → ℕ) (skip : Bytes) where
  pub evict_one_global-Stays : (db : Db) → IsTidy db → Stays db (evict_one_global intn skip db).1
  unfolding evict_one_global
  evict_one_global-Stays db h =
      evict_chosen-Stays skip (pick_global_victim intn skip db) db
        (pick_global_victim-IsQuiet intn skip db h.homed.some_shard) h

  pub evict_one_local-Stays :
      (i : ℕ) (db : Db)
      → i < length db.shards
      → is_global db.strategy ≡ false
      → IsTidy db
      → Stays db (evict_one_local intn i skip db).1
  unfolding evict_one_local
  evict_one_local-Stays i db less local h =
      let sh = shard_at i db in
      let r = pick_local_victim intn db.policy skip sh db.draws in
      let picked : Db = record db { shards = (put_shard i r.1 db).shards; draws = r.2 } in
      let s =
        put_same_data skip i r.1 db less (data-pick_local_victim intn skip sh db.draws [] db.policy)
          (lists-pick_local_victim intn skip sh db.draws [] db.policy) in
      let same : Same db picked = record {
        size = s.size;
        conf = refl;
        finds = λ j. find-same j picked (put_shard i r.1 db) refl ∙ s.finds j;
        maps = s.maps;
        lists = s.lists;
        globals = s.globals;
      } in
      Same-Stays same
        (evict_local_chosen-Stays i r.0 picked (omega (arith, s.size)) local (Same-IsTidy same h))

  steal_from-Stays :
      (n i hold : ℕ) (db : Db)
      → is_global db.strategy ≡ false
      → IsTidy db
      → Stays db (steal_from intn n i hold skip db).1
  unfolding steal_from
  steal_from-Stays zero i hold db local h = Stays-refl db h
  steal_from-Stays (suc n) i hold db local h =
      let si = (hold + 1 + i) % length db.shards in
      let pos = h.homed.some_shard in
      let here = evict_one_local-Stays si db (grind arith) local h in
      elim (Bool-cases (si == hold)) [
        | inl e ↦ rw (e, steal_from) (steal_from-Stays n (i + 1) hold db local h)
        | inr e ↦
            rw (e, steal_from)
              (elim (Bool-cases (evict_one_local intn si skip db).0) [
                | inl t ↦ rw t here
                | inr f ↦ rw f (
                    Stays-trans here (
                      steal_from-Stays n (i + 1) hold _ (ap is_global here.strategy ∙ local)
                        here.tidy))
              ])
      ]

  pub steal-Stays :
      (hold : ℕ) (db : Db)
      → is_global db.strategy ≡ false
      → IsTidy db
      → Stays db (steal_from_other_shards intn hold skip db).1
  unfolding steal_from_other_shards
  steal-Stays hold db local h = steal_from-Stays (length db.shards) 0 hold db local h
