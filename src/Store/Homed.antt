-- ===== src/Store/Homed.antt =====
-- Every key stands in the shard that its hash names: `db.shards[db.shardIndex(key)]`
-- (internal/store/store.go, ops.go).
use cache_custom.Prelude.{
  ℕ, ◌<◌, ◌≡◌, refl, ap, sym, ◌∙◌, some, arith, length, ◌==◌, true, false, Bool, subst, List, [],
  ite, get_or, Bool-cases, inl, inr, ==_iff,
}
use cache_custom.Bytes.{Bytes, dec_bytes}
use cache_custom.Lfu.{erase}
use cache_custom.Dict
use cache_custom.Dict.{Dict, lookup-delete, lookup-insert}
use cache_custom.Shard.{Entry, Shard, new_shard, drop}
use cache_custom.Shard.Pick.{is_some}
use cache_custom.Shard.Listed.{IsExact, IsExact-same, IsExact-erase, held, IsListed, drop-IsListed}
use cache_custom.Store.{Db, is_global, find, shard_at, put_shard, shard_index, remove_from_shard}
use cache_custom.Store.Find.{
  find-same, find-remove_from_home, data-drop, shards-remove, shard_at-put_shard, length-put_shard,
}
use cache_custom.Store.Shrinks.{Same}

pub record IsHomed (db : Db) : Type 0 where
  pub some_shard : 0 < length db.shards
  pub home :
      (i : ℕ) (k : Bytes) (e : Entry)
      → i < length db.shards
      → Dict.lookup k (shard_at i db).data' ≡ some e
      → shard_index k db ≡ i

abbrev pub found : Db → Bytes → Bool
found db k = is_some (find k db)

-- Under the global strategy the two lists of the tenant hold exactly the keys of all shards.
abbrev pub IsTracked : Db → Type 0
IsTracked db =
    is_global db.strategy ≡ true → IsExact db.g_lru (found db) × IsExact db.g_fifo (found db)

abbrev pub AllListed : List Shard → Type 0
AllListed shs = (i : ℕ) → i < length shs → IsListed (get_or shs i (new_shard 0))

IsTracked-same :
    (a b : Db)
    → b.strategy ≡ a.strategy
    → b.g_lru ≡ a.g_lru
    → b.g_fifo ≡ a.g_fifo
    → ((k : Bytes) → find k b ≡ find k a)
    → IsTracked a
    → IsTracked b
IsTracked-same a b s l f same t g =
    let (lru, fifo) = t (ap is_global (sym s) ∙ g) in
    let seen : (k : Bytes) → found b k ≡ found a k = λ k. ap is_some (same k) in
    (
      subst (λ ks. IsExact ks (found b)) (sym l) (IsExact-same [] a.g_lru _ _ lru seen),
      subst (λ ks. IsExact ks (found b)) (sym f) (IsExact-same [] a.g_fifo _ _ fifo seen),
    )

IsListed-same :
    (a b : Shard) → b.data' ≡ a.data' → b.lru ≡ a.lru → b.fifo ≡ a.fifo → IsListed a → IsListed b
IsListed-same a b d l f h = record {
  recency =
      subst (λ ks. IsExact ks (held b.data')) (sym l)
        (IsExact-same [] a.lru _ _ h.recency λ k. ap (λ x. held x k) d);
  insertion =
      subst (λ ks. IsExact ks (held b.data')) (sym f)
        (IsExact-same [] a.fifo _ _ h.insertion λ k. ap (λ x. held x k) d);
}

pub shard_index-same :
    (k : Bytes) (a b : Db) → length a.shards ≡ length b.shards → shard_index k a ≡ shard_index k b
unfolding shard_index
shard_index-same k a b e = rw e refl

pub Same-IsHomed : {a b : Db} → Same a b → IsHomed a → IsHomed b
Same-IsHomed {a} {b} s h = record {
  some_shard = omega (arith, s.size, h.some_shard);
  home = λ i k e less here.
      shard_index-same k b a s.size
      ∙ h.home i k e (omega (arith, s.size)) (ap (λ d. Dict.lookup k d) (sym (s.maps i)) ∙ here);
}

-- Where each key of the new maps was in the old ones, or is at home, so are the keys of the whole.
pub put_shard-IsHomed :
    (i : ℕ) (sh : Shard) (db : Db)
    → i < length db.shards
    → ((k : Bytes) (e : Entry) → Dict.lookup k sh.data' ≡ some e → shard_index k db ≡ i)
    → IsHomed db
    → IsHomed (put_shard i sh db)
put_shard-IsHomed i sh db less each h = record {
  some_shard = omega (arith, length-put_shard i sh db, h.some_shard);
  home = λ j k e in_range here.
      shard_index-same k (put_shard i sh db) db (length-put_shard i sh db)
      ∙ elim (Bool-cases (j == i)) [
        | inl near ↦
            let at_i : shard_at j (put_shard i sh db) ≡ sh =
              shard_at-put_shard i sh db j less ∙ rw near refl in
            each k e (ap (λ (s : Shard). Dict.lookup k s.data') (sym at_i) ∙ here)
            ∙ sym ((==_iff _ _).0 near)
        | inr far ↦
            let at_j : shard_at j (put_shard i sh db) ≡ shard_at j db =
              shard_at-put_shard i sh db j less ∙ rw far refl in
            h.home j k e (omega (arith, length-put_shard i sh db))
              (ap (λ (s : Shard). Dict.lookup k s.data') (sym at_j) ∙ here)
      ];
}

pub shards-IsHomed : {a b : Db} → b.shards ≡ a.shards → IsHomed a → IsHomed b
shards-IsHomed {a} {b} e h =
    let maps : (i : ℕ) → (shard_at i b).data' ≡ (shard_at i a).data' =
      λ i. ap (λ shs. (get_or shs i (new_shard 0)).data') e in
    let size : length b.shards ≡ length a.shards = ap length e in
    record {
      some_shard = omega (arith, size, h.some_shard);
      home = λ i k en less here.
          shard_index-same k b a size
          ∙ h.home i k en (omega (arith, size)) (ap (λ d. Dict.lookup k d) (sym (maps i)) ∙ here);
    }

pub remove-IsHomed :
    (i : ℕ) (k : Bytes) (e : Entry) (db : Db)
    → i < length db.shards
    → IsHomed db
    → IsHomed (remove_from_shard i k e db)
remove-IsHomed i k e db less h = shards-IsHomed (shards-remove i k e db) (
    put_shard-IsHomed i (drop k e (shard_at i db)) db less
      (λ j en here. h.home i j en less (was j en (rw data-drop at here))) h)
  where
    was :
        (j : Bytes) (en : Entry)
        → Dict.lookup j (Dict.delete k (shard_at i db).data') ≡ some en
        → Dict.lookup j (shard_at i db).data' ≡ some en
    was j en here = ground (arith, lookup-delete k j (shard_at i db).data', here)

-- Every key of the maps is at home, and the lists of the shards and of the tenant hold exactly the
-- keys of the maps.
pub record IsTidy (db : Db) : Type 0 where
  pub homed : IsHomed db
  pub listed : AllListed db.shards
  pub tracked : IsTracked db

-- The part about the lists.
pub record IsIndexed (db : Db) : Type 0 where
  pub listed : AllListed db.shards
  pub tracked : IsTracked db

pub Same-IsTidy : {a b : Db} → Same a b → IsTidy a → IsTidy b
Same-IsTidy {a} {b} s h = record {
  homed = Same-IsHomed s h.homed;
  listed = λ i less.
      IsListed-same (shard_at i a) (shard_at i b) (s.maps i) (s.lists i).0 (s.lists i).1
        (h.listed i (omega (arith, s.size)));
  tracked =
      IsTracked-same a b (ap (λ c. c.strategy) s.conf) s.globals.0 s.globals.1 s.finds h.tracked;
}

-- Where only the expiry heap and the counters change.
pub shards-IsTidy :
    {a b : Db}
    → b.shards ≡ a.shards
    → b.strategy ≡ a.strategy
    → b.g_lru ≡ a.g_lru
    → b.g_fifo ≡ a.g_fifo
    → IsTidy a
    → IsTidy b
shards-IsTidy {a} {b} e s l f h = record {
  homed = shards-IsHomed e h.homed;
  listed = subst AllListed (sym e) h.listed;
  tracked = IsTracked-same a b s l f (λ k. find-same k b a e) h.tracked;
}

pub put_shard-AllListed :
    (i : ℕ) (sh : Shard) (db : Db)
    → i < length db.shards
    → IsListed sh
    → AllListed db.shards
    → AllListed (put_shard i sh db).shards
put_shard-AllListed i sh db less l h j in_range =
    subst IsListed (sym (shard_at-put_shard i sh db j less)) (elim (Bool-cases (j == i)) [
      | inl near ↦ rw near l
      | inr far ↦ rw far (h j (omega (arith, length-put_shard i sh db)))
    ])

module _ (k : Bytes) (e : Entry) (db : Db) where
  pub strategy-remove : (i : ℕ) → (remove_from_shard i k e db).strategy ≡ db.strategy
  unfolding remove_from_shard
  strategy-remove i = ground arith

  lists-remove :
      (i : ℕ)
      → is_global db.strategy ≡ true
      → ((remove_from_shard i k e db).g_lru ≡ erase k db.g_lru)
        × ((remove_from_shard i k e db).g_fifo ≡ erase k db.g_fifo)
  unfolding remove_from_shard
  lists-remove i g = ground (arith, g)

  found-remove :
      (j : Bytes)
      → 0 < length db.shards
      → found (remove_from_shard (shard_index k db) k e db) j
        ≡ ite (dec_bytes k j) false (found db j)
  found-remove j h = ground (arith, find-remove_from_home db j k e h)

  removed-IsTracked :
      0 < length db.shards → IsTracked db → IsTracked (remove_from_shard (shard_index k db) k e db)
  removed-IsTracked h t g =
      let i = shard_index k db in
      let global = ap is_global (sym (strategy-remove i)) ∙ g in
      let (lru, fifo) = lists-remove i global in
      let gone = λ (j : Bytes). found-remove j h in
      (
        subst (λ ks. IsExact ks (found (remove_from_shard i k e db))) (sym lru)
            (IsExact-erase k db.g_lru _ _ (t global).0 gone),
        subst (λ ks. IsExact ks (found (remove_from_shard i k e db))) (sym fifo)
            (IsExact-erase k db.g_fifo _ _ (t global).1 gone),
      )

  remove-tracks :
      (i : ℕ)
      → 0 < length db.shards
      → (is_global db.strategy ≡ true → shard_index k db ≡ i)
      → IsTracked db
      → IsTracked (remove_from_shard i k e db)
  remove-tracks i h at_home t g =
      let global = ap is_global (sym (strategy-remove i)) ∙ g in
      subst (λ n. IsTracked (remove_from_shard n k e db)) (at_home global) (removed-IsTracked h t) g

  -- A removal from the shard of the key, or from any shard where no list of the tenant is kept.
  pub remove-IsTidy :
      (i : ℕ)
      → i < length db.shards
      → (is_global db.strategy ≡ true → shard_index k db ≡ i)
      → IsTidy db
      → IsTidy (remove_from_shard i k e db)
  remove-IsTidy i less at_home h = record {
    homed = remove-IsHomed i k e db less h.homed;
    listed = subst AllListed (sym (shards-remove i k e db)) (
        put_shard-AllListed i _ db less (drop-IsListed k e (shard_at i db) (h.listed i less))
          h.listed);
    tracked = remove-tracks i h.homed.some_shard at_home h.tracked;
  }
