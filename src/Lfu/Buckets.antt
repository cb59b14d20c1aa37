-- ===== src/Lfu/Buckets.antt =====
-- The bucket that each key is in (internal/store/lfu.go), under the steps of which the operations
-- are made.
use cache_custom.Prelude.{
  ℕ, ◌≡◌, ◌≢◌, refl, Bool, true, false, Option, none, some, List, [], ◌∷◌, ◌++◌, ite, arith,
}
use cache_custom.Bytes.{Bytes, dec_bytes}
use cache_custom.Lfu.{
  Bucket, erase, member, has_freq, bucket_of, splice_after, walk, insert_general, create_bucket,
  get_or_create_bucket, push_tail, detach, is_empty, unlink_if_empty,
}

bucket_of-splice_after :
    (a f : ℕ) (j : Bytes) (bs : List Bucket) → bucket_of j (splice_after a f bs) ≡ bucket_of j bs
unfolding bucket_of splice_after member
bucket_of-splice_after a f j [] = refl
bucket_of-splice_after a f j (b ∷ bs) = ground (arith, bucket_of-splice_after a f j bs)

bucket_of-walk : (f : ℕ) (j : Bytes) (bs : List Bucket) → bucket_of j (walk f bs) ≡ bucket_of j bs
unfolding bucket_of walk member
bucket_of-walk f j [] = refl
bucket_of-walk f j (b ∷ []) = ground arith
bucket_of-walk f j (b ∷ c ∷ bs) = ground (arith, bucket_of-walk f j (c ∷ bs))

bucket_of-insert_general :
    (f : ℕ) (j : Bytes) (bs : List Bucket) → bucket_of j (insert_general f bs) ≡ bucket_of j bs
unfolding bucket_of insert_general member
bucket_of-insert_general f j [] = refl
bucket_of-insert_general f j (b ∷ bs) = ground (arith, bucket_of-walk f j (b ∷ bs))

pub bucket_of-get_or_create :
    (f : ℕ) (after : Option ℕ) (j : Bytes) (bs : List Bucket)
    → bucket_of j (get_or_create_bucket f after bs) ≡ bucket_of j bs
unfolding get_or_create_bucket create_bucket
bucket_of-get_or_create f none j bs = ground (arith, bucket_of-insert_general f j bs)
bucket_of-get_or_create f (some a) j bs =
    ground (arith, bucket_of-insert_general f j bs, bucket_of-splice_after a f j bs)

has_freq-splice_after :
    (a f : ℕ) (bs : List Bucket) → has_freq a bs ≡ true → has_freq f (splice_after a f bs) ≡ true
unfolding has_freq splice_after
has_freq-splice_after a f [] h = absurd cc
has_freq-splice_after a f (b ∷ bs) h = ground (arith, has_freq-splice_after a f bs)

has_freq-walk : (f : ℕ) (bs : List Bucket) → has_freq f (walk f bs) ≡ true
unfolding has_freq walk
has_freq-walk f [] = ground arith
has_freq-walk f (b ∷ []) = ground arith
has_freq-walk f (b ∷ c ∷ bs) = ground (arith, has_freq-walk f (c ∷ bs))

has_freq-insert_general : (f : ℕ) (bs : List Bucket) → has_freq f (insert_general f bs) ≡ true
unfolding has_freq insert_general
has_freq-insert_general f [] = ground arith
has_freq-insert_general f (b ∷ bs) = ground (arith, has_freq-walk f (b ∷ bs))

-- Whether the bucket that the new one is to follow is there.
abbrev pub known : Option ℕ → List Bucket → Bool
known none bs = true
known (some a) bs = has_freq a bs

pub has_freq-get_or_create :
    (f : ℕ) (after : Option ℕ) (bs : List Bucket)
    → known after bs ≡ true
    → has_freq f (get_or_create_bucket f after bs) ≡ true
unfolding get_or_create_bucket create_bucket
has_freq-get_or_create f none bs h = ground (arith, has_freq-insert_general f bs)
has_freq-get_or_create f (some a) bs h =
    ground (arith, has_freq-insert_general f bs, has_freq-splice_after a f bs)

member-append :
    (j k : Bytes) (xs : List Bytes)
    → member j (xs ++ k ∷ []) ≡ ite (dec_bytes k j) true (member j xs)
unfolding member
member-append j k [] = ground arith
member-append j k (x ∷ xs) = ground (arith, member-append j k xs)

pub bucket_of-push_tail :
    (f : ℕ) (k j : Bytes) (bs : List Bucket)
    → has_freq f bs ≡ true
    → bucket_of k bs ≡ none
    → bucket_of j (push_tail f k bs) ≡ ite (dec_bytes k j) (some f) (bucket_of j bs)
unfolding has_freq bucket_of push_tail
bucket_of-push_tail f k j [] h out = absurd cc
bucket_of-push_tail f k j (b ∷ bs) h out =
    ground (arith, bucket_of-push_tail f k j bs, member-append j k b.keys)

member-erase : (j k : Bytes) (xs : List Bytes) → k ≢ j → member j (erase k xs) ≡ member j xs
unfolding member erase
member-erase j k [] h = refl
member-erase j k (x ∷ xs) h = ground (arith, member-erase j k xs)

pub bucket_of-detach :
    (f : ℕ) (k j : Bytes) (bs : List Bucket) → k ≢ j → bucket_of j (detach f k bs) ≡ bucket_of j bs
unfolding bucket_of detach
bucket_of-detach f k j [] h = refl
bucket_of-detach f k j (b ∷ bs) h =
    ground (arith, bucket_of-detach f k j bs, member-erase j k b.keys)

pub empty-member : (j : Bytes) (xs : List Bytes) → is_empty xs ≡ true → member j xs ≡ false
unfolding member
empty-member j [] h = refl
empty-member j (x ∷ xs) h = absurd cc

pub bucket_of-unlink :
    (f : ℕ) (j : Bytes) (bs : List Bucket) → bucket_of j (unlink_if_empty f bs) ≡ bucket_of j bs
unfolding bucket_of unlink_if_empty
bucket_of-unlink f j [] = refl
bucket_of-unlink f j (b ∷ bs) = ground (arith, bucket_of-unlink f j bs, empty-member j b.keys)

pub has_freq-detach :
    (g f : ℕ) (k : Bytes) (bs : List Bucket) → has_freq g (detach f k bs) ≡ has_freq g bs
unfolding has_freq detach
has_freq-detach g f k [] = refl
has_freq-detach g f k (b ∷ bs) = ground (arith, has_freq-detach g f k bs)

pub bucket_of-has_freq :
    (f : ℕ) (k : Bytes) (bs : List Bucket) → bucket_of k bs ≡ some f → has_freq f bs ≡ true
unfolding has_freq bucket_of
bucket_of-has_freq f k [] e = absurd cc
bucket_of-has_freq f k (b ∷ bs) e = ground (arith, bucket_of-has_freq f k bs)
