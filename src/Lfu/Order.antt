-- ===== src/Lfu/Order.antt =====
-- The order of the frequency buckets of internal/store/lfu.go, and the frequency that they give a
-- key, under the steps of which the operations are made.
use cache_custom.Prelude.{
  ℕ, suc, ◌+◌, ◌≡◌, ◌≤◌, ◌<◌, refl, sym, subst, Bool, true, false, ◌&&◌, Option, none, some, List,
  [], ◌∷◌, leb, ◌==◌, ite, arith, Bool-cases, inl, inr,
}
use cache_custom.Bytes.{Bytes, dec_bytes}
use cache_custom.Lfu.{
  Bucket, has_freq, splice_after, walk, insert_general, create_bucket, get_or_create_bucket,
  push_tail, detach, unlink_if_empty,
}

-- Whether the frequencies increase from bucket to bucket, from `lo` on.
unfoldable pub ordered : ℕ → List Bucket → Bool
ordered lo [] = true
ordered lo (b ∷ bs) = leb lo b.freq && ordered (suc b.freq) bs

-- How often a key stands in a bucket, and in all of them.
unfoldable pub occurs_in : Bytes → List Bytes → ℕ
occurs_in k [] = 0
occurs_in k (x ∷ xs) = let rest = occurs_in k xs in ite (dec_bytes x k) (suc rest) rest

unfoldable pub occurs : Bytes → List Bucket → ℕ
unfolding occurs_in
occurs k [] = 0
occurs k (b ∷ bs) = occurs_in k b.keys + occurs k bs

pub ordered_mono :
    (hi lo : ℕ) (bs : List Bucket) → lo ≤ hi → ordered hi bs ≡ true → ordered lo bs ≡ true
unfolding ordered
ordered_mono hi lo [] le h = refl
ordered_mono hi lo (b ∷ bs) le h = ground arith

pub ordered-detach :
    (f : ℕ) (k : Bytes) (lo : ℕ) (bs : List Bucket) → ordered lo (detach f k bs) ≡ ordered lo bs
unfolding ordered detach
ordered-detach f k lo [] = refl
ordered-detach f k lo (b ∷ bs) = ground (arith, ordered-detach f k (suc b.freq) bs)

pub ordered-push_tail :
    (f : ℕ) (k : Bytes) (lo : ℕ) (bs : List Bucket) → ordered lo (push_tail f k bs) ≡ ordered lo bs
unfolding ordered push_tail
ordered-push_tail f k lo [] = refl
ordered-push_tail f k lo (b ∷ bs) = ground (arith, ordered-push_tail f k (suc b.freq) bs)

pub ordered-unlink :
    (f lo : ℕ) (bs : List Bucket) → ordered lo bs ≡ true → ordered lo (unlink_if_empty f bs) ≡ true
unfolding ordered unlink_if_empty
ordered-unlink f lo [] h = refl
ordered-unlink f lo (b ∷ bs) h =
    ground (arith, ordered-unlink f (suc b.freq) bs, ordered_mono (suc b.freq) lo bs)

ordered-splice_after :
    (a lo : ℕ) (bs : List Bucket)
    → ordered lo bs ≡ true
    → has_freq (a + 1) bs ≡ false
    → ordered lo (splice_after a (a + 1) bs) ≡ true
unfolding ordered splice_after has_freq
ordered-splice_after a lo [] h none_yet = refl
ordered-splice_after a lo (b ∷ []) h none_yet = ground arith
ordered-splice_after a lo (b ∷ c ∷ bs) h none_yet =
    ground (arith, ordered-splice_after a (suc b.freq) (c ∷ bs))

ordered-walk :
    (f lo : ℕ) (b : Bucket) (bs : List Bucket)
    → b.freq < f
    → ordered lo (b ∷ bs) ≡ true
    → has_freq f bs ≡ false
    → ordered lo (walk f (b ∷ bs)) ≡ true
unfolding ordered walk has_freq
ordered-walk f lo b [] less h none_yet = ground arith
ordered-walk f lo b (c ∷ bs) less h none_yet = ground (arith, ordered-walk f (suc b.freq) c bs)

ordered-insert_general :
    (f lo : ℕ) (bs : List Bucket)
    → lo ≤ f
    → ordered lo bs ≡ true
    → has_freq f bs ≡ false
    → ordered lo (insert_general f bs) ≡ true
unfolding insert_general ordered has_freq
ordered-insert_general f lo [] le h none_yet = ground arith
ordered-insert_general f lo (b ∷ bs) le h none_yet = ground (arith, ordered-walk f lo b bs)

ordered-create :
    (f lo : ℕ) (after : Option ℕ) (bs : List Bucket)
    → lo ≤ f
    → ordered lo bs ≡ true
    → has_freq f bs ≡ false
    → ordered lo (create_bucket f after bs) ≡ true
unfolding create_bucket
ordered-create f lo none bs le h none_yet = ordered-insert_general f lo bs le h none_yet
ordered-create f lo (some a) bs le h none_yet = elim (Bool-cases (a + 1 == f)) [
  | inl next ↦
      let e : a + 1 ≡ f = ground arith in
      rw next (
        subst (λ (m : ℕ). ordered lo (splice_after a m bs) ≡ true) e
          (ordered-splice_after a lo bs h
            (subst (λ (m : ℕ). has_freq m bs ≡ false) (sym e) none_yet)))
  | inr other ↦ rw other (ordered-insert_general f lo bs le h none_yet)
]

pub ordered-get_or_create :
    (f lo : ℕ) (after : Option ℕ) (bs : List Bucket)
    → lo ≤ f
    → ordered lo bs ≡ true
    → ordered lo (get_or_create_bucket f after bs) ≡ true
unfolding get_or_create_bucket
ordered-get_or_create f lo after bs le h = ground (arith, ordered-create f lo after bs)
