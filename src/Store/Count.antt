-- ===== src/Store/Count.antt =====
-- How many keys the shards hold (internal/store/store.go).
use cache_custom.Prelude.{
  ℕ, zero, suc, ◌+◌, ◌≤◌, ◌<◌, ◌≡◌, refl, ap, some, List, [], ◌∷◌, arith, length, get_or, set,
}
use cache_custom.Bytes.{Bytes}
use cache_custom.Dict
use cache_custom.Dict.{Dict}
use cache_custom.Shard.{Entry, Shard, new_shard, drop}
use cache_custom.Store.{Db, shard_at, remove_from_shard, count_keys}
use cache_custom.Store.Find.{data-drop, shards-remove}
use cache_custom.Store.Shrinks.{Same}

length-delete_le : (k : Bytes) (d : Dict Entry) → length (Dict.delete k d) ≤ length d
unfolding Dict.delete
length-delete_le k [] = omega arith
length-delete_le k ((j, e) ∷ d) = ground (arith, length-delete_le k d)

length-delete-lt :
    (k : Bytes) (e : Entry) (d : Dict Entry)
    → Dict.lookup k d ≡ some e
    → length (Dict.delete k d) < length d
unfolding Dict.delete Dict.lookup
length-delete-lt k e [] h = absurd cc
length-delete-lt k e ((j, f) ∷ d) h = ground (arith, length-delete-lt k e d, length-delete_le k d)

count-set :
    (shs : List Shard) (i : ℕ) (sh : Shard)
    → i < length shs
    → count_keys (set shs i sh) + length (get_or shs i (new_shard 0)).data'
      ≡ count_keys shs + length sh.data'
unfolding count_keys
count-set [] i sh h = absurd (omega arith)
count-set (x ∷ shs) zero sh h = omega arith
count-set (x ∷ shs) (suc i) sh h = omega (arith, count-set shs i sh (omega arith))

-- Removing a key that is held makes the keyspace smaller.
pub count-remove :
    (i : ℕ) (k : Bytes) (e f : Entry) (db : Db)
    → i < length db.shards
    → Dict.lookup k (shard_at i db).data' ≡ some f
    → count_keys (remove_from_shard i k e db).shards < count_keys db.shards
count-remove i k e f db less here =
    let sh = drop k e (shard_at i db) in
    let smaller = length-delete-lt k f (shard_at i db).data' here in
    let moved = count-set db.shards i sh less in
    let size = ap length (data-drop k e (shard_at i db)) in
    rw (shards-remove i k e db) (omega (arith, smaller, moved, size))

count_keys-eq :
    (xs ys : List Shard)
    → length ys ≡ length xs
    → ((i : ℕ) → (get_or ys i (new_shard 0)).data' ≡ (get_or xs i (new_shard 0)).data')
    → count_keys ys ≡ count_keys xs
unfolding count_keys
count_keys-eq [] [] e same = refl
count_keys-eq [] (y ∷ ys) e same = absurd (omega arith)
count_keys-eq (x ∷ xs) [] e same = absurd (omega arith)
count_keys-eq (x ∷ xs) (y ∷ ys) e same =
    omega (arith, ap length (same 0), count_keys-eq xs ys (omega arith) (λ i. same (suc i)))

pub count-Same : {a b : Db} → Same a b → count_keys b.shards ≡ count_keys a.shards
count-Same {a} {b} s = count_keys-eq a.shards b.shards s.size s.maps
