-- ===== src/Store/Write/Remove.antt =====
-- What `Del` and `Exists` return, and what they leave.
use cache_custom.Prelude.{
  ℕ, ◌+◌, ◌<◌, ◌≡◌, refl, ap, ◌∙◌, Option, none, some, List, [], ◌∷◌, arith, length, if◌then◌else◌,
  ite, Bool-cases, inl, inr,
}
use cache_custom.Bytes.{Bytes, dec_bytes}
use cache_custom.Lfu.{member}
use cache_custom.Shard.{Entry, drop, expired}
use cache_custom.Store.{
  Db, find, live, shard_at, shard_index, remove_from_shard, clear_expiry, del_op,
}
use cache_custom.Store.Find.{find-clear_expiry, find-remove_from_home, find-emit, length-put_shard}
use cache_custom.Store.Write.{del_found, del_one, del}

abbrev pub one_if : Option Entry → ℕ
one_if none = 0
one_if (some e) = 1

module _ (now : ℕ) (key : Bytes) (db : Db) where
  count-del_one : (del_one now key db).0 ≡ one_if (live now key db)
  unfolding del_one del_found live
  count-del_one = ground arith

  length-del_found :
      (o : Option Entry) → length (del_found now key o db).1.shards ≡ length db.shards
  unfolding del_found
  length-del_found none = refl
  length-del_found (some e) = ground (
    arith,
    length-put_shard (shard_index key db) (drop key e (shard_at (shard_index key db) db)) db,
  )

  length-del_one : length (del_one now key db).1.shards ≡ length db.shards
  unfolding del_one
  length-del_one = length-del_found (find key db)

  module _ (h : 0 < length db.shards) where
    find-del_found :
        (o : Option Entry) (j : Bytes)
        → find key db ≡ o
        → find j (del_found now key o db).1 ≡ ite (dec_bytes key j) none (find j db)
    unfolding del_found
    find-del_found none j q = ground (arith, q, λ (r : key ≡ j). ap (λ (x : Bytes). find x db) r)
    find-del_found (some e) j q =
        let gone = clear_expiry key (remove_from_shard (shard_index key db) key e db) in
        let d =
          find-clear_expiry (remove_from_shard (shard_index key db) key e db) j key
          ∙ find-remove_from_home db j key e h in
        elim (Bool-cases (expired e now)) [
          | inl due ↦ rw due d
          | inr fine ↦ rw fine (find-emit gone j (del_op (key ∷ [])) ∙ d)
        ]

    find-del_one :
        (j : Bytes) → find j (del_one now key db).1 ≡ ite (dec_bytes key j) none (find j db)
    unfolding del_one
    find-del_one j = find-del_found (find key db) j refl

-- The live keys among those named, each counted where it is named first.
unfoldable pub count_live_keys : ℕ → List Bytes → List Bytes → Db → ℕ
count_live_keys now seen [] db = 0
count_live_keys now seen (k ∷ ks) db =
    (if member k seen then 0 else one_if (live now k db)) + count_live_keys now (k ∷ seen) ks db

-- `b` is `a` without the keys that are listed.
abbrev Without : List Bytes → Db → Db → Type 0
Without seen a b = (j : Bytes) → find j b ≡ (if member j seen then none else find j a)

Without-del_one :
    (now : ℕ) (seen : List Bytes) (k : Bytes) (a b : Db)
    → 0 < length b.shards
    → Without seen a b
    → Without (k ∷ seen) a (del_one now k b).1
unfolding member
Without-del_one now seen k a b h w j = ground (arith, find-del_one now k b h j, w j)

live-Without :
    (now : ℕ) (seen : List Bytes) (k : Bytes) (a b : Db)
    → Without seen a b
    → one_if (live now k b) ≡ (if member k seen then 0 else one_if (live now k a))
unfolding live
live-Without now seen k a b w = ground (arith, w k)

del_from :
    (now : ℕ) (keys seen : List Bytes) (a b : Db)
    → 0 < length b.shards
    → Without seen a b
    → ((del now keys b).0 ≡ count_live_keys now seen keys a)
      × ((j : Bytes) → find j (del now keys b).1 ≡ (if member j keys then none else find j b))
unfolding del count_live_keys member
del_from now [] seen a b h w = (refl, λ j. refl)
del_from now (k ∷ ks) seen a b h w =
    let b' = (del_one now k b).1 in
    let (counts, finds) =
      del_from now ks (k ∷ seen) a b' (omega (arith, length-del_one now k b))
        (Without-del_one now seen k a b h w) in
    (
      omega (arith, counts, count-del_one now k b, live-Without now seen k a b w),
      λ j. ground (arith, finds j, find-del_one now k b h j),
    )

-- Del returns the number of different keys named that were there and not due; every key named is
-- gone, and every other key keeps its entry.
pub del_lem :
    (now : ℕ) (keys : List Bytes) (db : Db)
    → 0 < length db.shards
    → ((del now keys db).0 ≡ count_live_keys now [] keys db)
      × ((j : Bytes) → find j (del now keys db).1 ≡ (if member j keys then none else find j db))
unfolding member
del_lem now keys db h = del_from now keys [] db db h (λ j. refl)
