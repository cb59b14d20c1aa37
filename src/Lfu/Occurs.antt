-- ===== src/Lfu/Occurs.antt =====
-- How often each key stands in the buckets (internal/store/lfu.go), under the steps of which the
-- operations are made.
use cache_custom.Prelude.{
  ℕ, suc, ◌+◌, ◌≡◌, ◌≢◌, ◌≤◌, refl, true, false, Option, none, some, List, [], ◌∷◌, ◌++◌, ite,
  arith,
}
use cache_custom.Bytes.{Bytes, dec_bytes}
use cache_custom.Lfu.{
  Bucket, erase, member, has_freq, bucket_of, splice_after, walk, insert_general, create_bucket,
  get_or_create_bucket, push_tail, detach, is_empty, unlink_if_empty,
}
use cache_custom.Lfu.Order.{ordered, occurs, occurs_in}

empty-occurs_in : (j : Bytes) (xs : List Bytes) → is_empty xs ≡ true → occurs_in j xs ≡ 0
unfolding occurs_in
empty-occurs_in j [] h = refl
empty-occurs_in j (x ∷ xs) h = absurd cc

occurs_in-member : (k : Bytes) (xs : List Bytes) → occurs_in k xs ≡ 0 → member k xs ≡ false
unfolding member occurs_in
occurs_in-member k [] h = refl
occurs_in-member k (x ∷ xs) h = ground (arith, occurs_in-member k xs)

no_member-occurs_in : (k : Bytes) (xs : List Bytes) → member k xs ≡ false → occurs_in k xs ≡ 0
unfolding member occurs_in
no_member-occurs_in k [] h = refl
no_member-occurs_in k (x ∷ xs) h = ground (arith, no_member-occurs_in k xs)

pub bucket_of-occurs : (k : Bytes) (bs : List Bucket) → bucket_of k bs ≡ none → occurs k bs ≡ 0
unfolding occurs bucket_of
bucket_of-occurs k [] h = refl
bucket_of-occurs k (b ∷ bs) h = ground (arith, bucket_of-occurs k bs, no_member-occurs_in k b.keys)

-- A key that occurs nowhere is in no bucket.
pub occurs-bucket_of : (k : Bytes) (bs : List Bucket) → occurs k bs ≡ 0 → bucket_of k bs ≡ none
unfolding occurs bucket_of
occurs-bucket_of k [] h = refl
occurs-bucket_of k (b ∷ bs) h = ground (arith, occurs-bucket_of k bs, occurs_in-member k b.keys)

occurs_in-erase_ne :
    (j k : Bytes) (xs : List Bytes) → k ≢ j → occurs_in j (erase k xs) ≡ occurs_in j xs
unfolding occurs_in erase
occurs_in-erase_ne j k [] h = refl
occurs_in-erase_ne j k (x ∷ xs) h = ground (arith, occurs_in-erase_ne j k xs)

occurs_in-erase_self :
    (k : Bytes) (xs : List Bytes)
    → member k xs ≡ true
    → suc (occurs_in k (erase k xs)) ≡ occurs_in k xs
unfolding occurs_in erase member
occurs_in-erase_self k [] h = absurd cc
occurs_in-erase_self k (x ∷ xs) h = ground (arith, occurs_in-erase_self k xs)

pub occurs-detach_ne :
    (f : ℕ) (j k : Bytes) (bs : List Bucket) → k ≢ j → occurs j (detach f k bs) ≡ occurs j bs
unfolding occurs detach
occurs-detach_ne f j k [] h = refl
occurs-detach_ne f j k (b ∷ bs) h =
    ground (arith, occurs-detach_ne f j k bs, occurs_in-erase_ne j k b.keys)

-- The buckets from `lo` on hold no key at a lower frequency.
pub bucket_of-bound :
    (k : Bytes) (lo f : ℕ) (bs : List Bucket)
    → ordered lo bs ≡ true
    → bucket_of k bs ≡ some f
    → lo ≤ f
unfolding ordered bucket_of
bucket_of-bound k lo f [] h e = absurd cc
bucket_of-bound k lo f (b ∷ bs) h e = ground (arith, bucket_of-bound k (suc b.freq) f bs)

pub occurs-detach_self :
    (f lo : ℕ) (k : Bytes) (bs : List Bucket)
    → ordered lo bs ≡ true
    → bucket_of k bs ≡ some f
    → suc (occurs k (detach f k bs)) ≡ occurs k bs
unfolding occurs detach bucket_of ordered
occurs-detach_self f lo k [] h e = absurd cc
occurs-detach_self f lo k (b ∷ bs) h e = ground (
  arith,
  occurs-detach_self f (suc b.freq) k bs,
  bucket_of-bound k (suc b.freq) f bs,
  occurs_in-erase_self k b.keys,
)

occurs_in-append :
    (j k : Bytes) (xs : List Bytes)
    → occurs_in j (xs ++ k ∷ []) ≡ occurs_in j xs + ite (dec_bytes k j) 1 0
unfolding occurs_in
occurs_in-append j k [] = ground arith
occurs_in-append j k (x ∷ xs) = ground (arith, occurs_in-append j k xs)

pub occurs-push_tail :
    (f : ℕ) (j k : Bytes) (bs : List Bucket)
    → has_freq f bs ≡ true
    → occurs j (push_tail f k bs) ≡ occurs j bs + ite (dec_bytes k j) 1 0
unfolding occurs push_tail has_freq
occurs-push_tail f j k [] h = absurd cc
occurs-push_tail f j k (b ∷ bs) h =
    ground (arith, occurs-push_tail f j k bs, occurs_in-append j k b.keys)

occurs-splice_after :
    (a f : ℕ) (j : Bytes) (bs : List Bucket) → occurs j (splice_after a f bs) ≡ occurs j bs
unfolding occurs splice_after occurs_in
occurs-splice_after a f j [] = refl
occurs-splice_after a f j (b ∷ bs) = ground (arith, occurs-splice_after a f j bs)

occurs-walk : (f : ℕ) (j : Bytes) (bs : List Bucket) → occurs j (walk f bs) ≡ occurs j bs
unfolding occurs walk occurs_in
occurs-walk f j [] = refl
occurs-walk f j (b ∷ []) = ground arith
occurs-walk f j (b ∷ c ∷ bs) = ground (arith, occurs-walk f j (c ∷ bs))

occurs-insert_general :
    (f : ℕ) (j : Bytes) (bs : List Bucket) → occurs j (insert_general f bs) ≡ occurs j bs
unfolding occurs insert_general occurs_in
occurs-insert_general f j [] = refl
occurs-insert_general f j (b ∷ bs) = ground (arith, occurs-walk f j (b ∷ bs))

pub occurs-get_or_create :
    (f : ℕ) (after : Option ℕ) (j : Bytes) (bs : List Bucket)
    → occurs j (get_or_create_bucket f after bs) ≡ occurs j bs
unfolding get_or_create_bucket create_bucket
occurs-get_or_create f none j bs = ground (arith, occurs-insert_general f j bs)
occurs-get_or_create f (some a) j bs =
    ground (arith, occurs-insert_general f j bs, occurs-splice_after a f j bs)

pub occurs-unlink :
    (f : ℕ) (j : Bytes) (bs : List Bucket) → occurs j (unlink_if_empty f bs) ≡ occurs j bs
unfolding occurs unlink_if_empty
occurs-unlink f j [] = refl
occurs-unlink f j (b ∷ bs) = ground (arith, occurs-unlink f j bs, empty-occurs_in j b.keys)
