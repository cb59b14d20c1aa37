-- ===== src/Store/Find.antt =====
-- What the steps of the operations do to the entry of every key.
use cache_custom.Prelude.{
  ℕ, ◌<◌, ◌≡◌, refl, ap, sym, ◌∙◌, true, Option, none, arith, length, ◌==◌, if◌then◌else◌, ite,
  length-set, get_or-set_self, get_or-set_ne, Bool-cases, inl, inr, ==_iff,
}
use cache_custom.Bytes.{Bytes, dec_bytes}
use cache_custom.Dict
use cache_custom.Dict.{Dict, lookup-delete}
use cache_custom.Shard.{Entry, Shard, new_shard, drop, ttl_remove}
use cache_custom.Store.{
  Db, shard_index, shard_at, put_shard, find, remove_from_shard, clear_expiry, note_expiry,
  global_touch, global_push, emit, Mutation,
}

pub shard_index-lt :
    (k : Bytes) (db : Db) → 0 < length db.shards → shard_index k db < length db.shards
unfolding shard_index
shard_index-lt k db h = grind arith

module _ (i : ℕ) (sh : Shard) (db : Db) where
  pub length-put_shard : length (put_shard i sh db).shards ≡ length db.shards
  length-put_shard = length-set db.shards i sh

  pub shard_index-put_shard : (k : Bytes) → shard_index k (put_shard i sh db) ≡ shard_index k db
  unfolding shard_index
  shard_index-put_shard k = rw length-put_shard

  pub shard_at-put_shard :
      (j : ℕ)
      → i < length db.shards
      → shard_at j (put_shard i sh db) ≡ (if j == i then sh else shard_at j db)
  shard_at-put_shard j h = ground (
    arith,
    get_or-set_self db.shards i sh (new_shard 0),
    get_or-set_ne db.shards i j sh (new_shard 0),
  )

  -- Writing a shard changes the keys of that shard.
  pub find-put_shard :
      (j : Bytes)
      → i < length db.shards
      → find j (put_shard i sh db)
        ≡ (if shard_index j db == i then Dict.lookup j sh.data' else find j db)
  unfolding find
  find-put_shard j h =
      rw (shard_index-put_shard j, shard_at-put_shard (shard_index j db) h)
        (elim (Bool-cases (shard_index j db == i)) [ inl e ↦ rw e | inr e ↦ rw e ])

pub find-same : (j : Bytes) (a b : Db) → a.shards ≡ b.shards → find j a ≡ find j b
unfolding find shard_index
find-same j a b e = rw e

pub find-here :
    (i : ℕ) (j : Bytes) (db : Db)
    → (shard_index j db == i) ≡ true
    → find j db ≡ Dict.lookup j (shard_at i db).data'
unfolding find
find-here i j db h = ap (λ (n : ℕ). Dict.lookup j (shard_at n db).data') ((==_iff _ _).0 h)

pub data-drop : (k : Bytes) (e : Entry) (sh : Shard) → (drop k e sh).data' ≡ Dict.delete k sh.data'
unfolding drop ttl_remove
data-drop k e sh = refl

pub shards-remove :
    (i : ℕ) (k : Bytes) (e : Entry) (db : Db)
    → (remove_from_shard i k e db).shards ≡ (put_shard i (drop k e (shard_at i db)) db).shards
unfolding remove_from_shard
shards-remove i k e db = ground arith

-- Removing a key from a shard takes that key, and no other, out of the keyspace.
pub find-remove_from_shard :
    (i : ℕ) (k j : Bytes) (e : Entry) (db : Db)
    → i < length db.shards
    → find j (remove_from_shard i k e db)
      ≡ (if shard_index j db == i then ite (dec_bytes k j) none (find j db) else find j db)
find-remove_from_shard i k j e db h =
    find-same j (remove_from_shard i k e db) _ (shards-remove i k e db)
    ∙ find-put_shard i (drop k e (shard_at i db)) db j h
    ∙ in_shard
  where
    in_shard :
        (if shard_index j db == i
          then Dict.lookup j (drop k e (shard_at i db)).data'
          else find j db)
        ≡ (if shard_index j db == i then ite (dec_bytes k j) none (find j db) else find j db)
    in_shard = elim (Bool-cases (shard_index j db == i)) [
      | inr far ↦ rw far
      | inl near ↦
          rw (near, data-drop, lookup-delete)
            (ap (λ (o : Option Entry). ite (dec_bytes k j) none o) (sym (find-here i j db near)))
    ]

module _ (db : Db) (j : Bytes) where
  pub find-clear_expiry : (k : Bytes) → find j (clear_expiry k db) ≡ find j db
  unfolding clear_expiry
  find-clear_expiry k = find-same j _ db refl

  pub find-note_expiry : (k : Bytes) (t : Option ℕ) → find j (note_expiry k t db) ≡ find j db
  unfolding note_expiry
  find-note_expiry k t = find-same j _ db refl

  pub find-global_touch : (k : Bytes) → find j (global_touch k db) ≡ find j db
  unfolding global_touch
  find-global_touch k = find-same j _ db (ground arith)

  pub find-global_push : (k : Bytes) → find j (global_push k db) ≡ find j db
  unfolding global_push
  find-global_push k = find-same j _ db (ground arith)

  pub find-emit : (m : Mutation) → find j (emit m db) ≡ find j db
  unfolding emit
  find-emit m = find-same j _ db (ground arith)

  pub find-remove_from_home :
      (k : Bytes) (e : Entry)
      → 0 < length db.shards
      → find j (remove_from_shard (shard_index k db) k e db) ≡ ite (dec_bytes k j) none (find j db)
  find-remove_from_home k e h =
      find-remove_from_shard (shard_index k db) k j e db (shard_index-lt k db h) ∙ home
    where
      home :
          (if shard_index j db == shard_index k db
            then ite (dec_bytes k j) none (find j db)
            else find j db)
          ≡ ite (dec_bytes k j) none (find j db)
      home = ground (arith, λ (q : k ≡ j). ap (λ (x : Bytes). shard_index x db) q)
