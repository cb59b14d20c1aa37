-- ===== src/Lfu/Valid.antt =====
-- The operations of internal/store/lfu.go on frequency buckets that are in order, as steps on the
-- map from keys to frequencies, and the choice of a victim.
use cache_custom.Prelude.{
  ℕ, ◌+◌, ◌≡◌, ◌≢◌, ◌≤◌, refl, ◌∙◌, subst, Bool, true, false, Option, none, some, List, ◌==◌,
  if◌then◌else◌, ite, arith, Bool-cases, Option-cases, inl, inr,
}
use cache_custom.Bytes.{Bytes, dec_bytes}
use cache_custom.Lfu.{
  Bucket, Lfu, has_freq, bucket_of, get_or_create_bucket, push_tail, detach, unlink_if_empty,
  lfu_add, lfu_remove, lfu_relocate, remove_from, relocate_from,
}
use cache_custom.Lfu.Order.{
  ordered, occurs, ordered-detach, ordered-push_tail, ordered-unlink, ordered-get_or_create,
}
use cache_custom.Lfu.Buckets.{
  bucket_of-get_or_create, has_freq-get_or_create, bucket_of-push_tail, bucket_of-detach,
  bucket_of-unlink, known, has_freq-detach, bucket_of-has_freq,
}
use cache_custom.Lfu.Occurs.{
  bucket_of-occurs, occurs-bucket_of, occurs-detach_ne, occurs-detach_self, occurs-push_tail,
  occurs-get_or_create, occurs-unlink,
}

-- The buckets stand in the order of their frequencies, and no key stands in them twice.
pub record IsLfu (bs : List Bucket) : Type 0 where
  pub order : ordered 0 bs ≡ true
  pub once : (k : Bytes) → occurs k bs ≤ 1

-- The frequencies of all keys are the old ones, but for one key.
abbrev pub Moves : List Bucket → List Bucket → Bytes → Option ℕ → Type 0
Moves new old k f = (j : Bytes) → bucket_of j new ≡ ite (dec_bytes k j) f (bucket_of j old)

Moves-cases :
    (k j : Bytes) (x a b : Option ℕ)
    → (k ≡ j → x ≡ a)
    → (k ≢ j → x ≡ b)
    → x ≡ ite (dec_bytes k j) a b
Moves-cases k j x a b same other = elim (dec_bytes k j) as (λ d. x ≡ ite d a b) [
  | yes p ↦ same p
  | no q ↦ other q
]

-- A key is taken out of its bucket.
detach-IsLfu :
    (f : ℕ) (k : Bytes) (bs : List Bucket)
    → IsLfu bs
    → bucket_of k bs ≡ some f
    → IsLfu (detach f k bs) × (occurs k (detach f k bs) ≡ 0) × Moves (detach f k bs) bs k none
detach-IsLfu f k bs ok e =
    let gone : occurs k (detach f k bs) ≡ 0 =
      omega (arith, occurs-detach_self f 0 k bs ok.order e, ok.once k) in
    (
      record {
        order = ordered-detach f k 0 bs ∙ ok.order;
        once = λ j. elim (dec_bytes k j) [
          | yes p ↦ subst (λ i. occurs i (detach f k bs) ≤ 1) p (omega (arith, gone))
          | no q ↦ omega (arith, occurs-detach_ne f j k bs q, ok.once j)
        ];
      },
      gone,
      λ j.
          Moves-cases k j (bucket_of j (detach f k bs)) none (bucket_of j bs)
            (λ p.
              subst (λ i. bucket_of i (detach f k bs) ≡ none) p
                (occurs-bucket_of k (detach f k bs) gone))
            (bucket_of-detach f k j bs),
    )

-- A key that is in no bucket is put into the bucket of a frequency.
add-IsLfu :
    (f : ℕ) (after : Option ℕ) (k : Bytes) (bs : List Bucket)
    → IsLfu bs
    → known after bs ≡ true
    → bucket_of k bs ≡ none
    → IsLfu (push_tail f k (get_or_create_bucket f after bs))
      × Moves (push_tail f k (get_or_create_bucket f after bs)) bs k (some f)
add-IsLfu f after k bs ok there out =
    let has = has_freq-get_or_create f after bs there in
    let cs = get_or_create_bucket f after bs in
    let out' : bucket_of k cs ≡ none = bucket_of-get_or_create f after k bs ∙ out in
    (
      record {
        order =
            ordered-push_tail f k 0 cs ∙ ordered-get_or_create f 0 after bs (omega arith) ok.order;
        once = λ j.
            let fresh_key : k ≡ j → occurs j bs ≡ 0 =
              λ p. subst (λ i. occurs i bs ≡ 0) p (bucket_of-occurs k bs out) in
            ground (
              arith,
              occurs-push_tail f j k cs has,
              occurs-get_or_create f after j bs,
              ok.once j,
              fresh_key,
            );
      },
      λ j. rw (← bucket_of-get_or_create f after j bs) (bucket_of-push_tail f k j cs has out'),
    )

unlink-IsLfu : (f : ℕ) (bs : List Bucket) → IsLfu bs → IsLfu (unlink_if_empty f bs)
unlink-IsLfu f bs ok = record {
  order = ordered-unlink f 0 bs ok.order;
  once = λ j. omega (arith, occurs-unlink f j bs, ok.once j);
}

Moves-trans :
    (new mid old : List Bucket) (k : Bytes) (f g : Option ℕ)
    → Moves new mid k g
    → Moves mid old k f
    → Moves new old k g
Moves-trans new mid old k f g a b j = ground (arith, a j, b j)

unlink-Moves :
    (f : ℕ) (g : Option ℕ) (k : Bytes) (new old : List Bucket)
    → Moves new old k g
    → Moves (unlink_if_empty f new) old k g
unlink-Moves f g k new old m j = bucket_of-unlink f j new ∙ m j

push-IsLfu :
    (f : ℕ) (k : Bytes) (bs : List Bucket)
    → IsLfu bs
    → has_freq f bs ≡ true
    → bucket_of k bs ≡ none
    → IsLfu (push_tail f k bs) × Moves (push_tail f k bs) bs k (some f)
unfolding get_or_create_bucket
push-IsLfu f k bs ok has out =
    let same : get_or_create_bucket f none bs ≡ bs = rw (has, get_or_create_bucket) refl in
    subst (λ cs. IsLfu (push_tail f k cs) × Moves (push_tail f k cs) bs k (some f)) same
      (add-IsLfu f none k bs ok refl out)

known-if :
    (b : Bool) (f : ℕ) (bs : List Bucket)
    → has_freq f bs ≡ true
    → known (if b then some f else none) bs ≡ true
known-if true f bs h = h
known-if false f bs h = refl

-- Adding a key that is in no bucket keeps the buckets in order with no key twice; the key then has
-- the given frequency, and every other key keeps its own.
pub lfu_add_lem :
    (f : ℕ) (k : Bytes) (l : Lfu)
    → IsLfu l.buckets
    → bucket_of k l.buckets ≡ none
    → IsLfu (lfu_add f k l).buckets × Moves (lfu_add f k l).buckets l.buckets k (some f)
unfolding lfu_add
lfu_add_lem f k l ok out = add-IsLfu f none k l.buckets ok refl out

-- Removing a key from buckets that are in order leaves them in order; no bucket then has the key,
-- and every other key keeps its frequency.
pub lfu_remove_lem :
    (k : Bytes) (l : Lfu)
    → IsLfu l.buckets
    → IsLfu (lfu_remove k l).buckets × Moves (lfu_remove k l).buckets l.buckets k none
unfolding lfu_remove remove_from
lfu_remove_lem k l ok = elim (Option-cases (bucket_of k l.buckets)) [
  | inl out ↦ rw out (
    ok,
    λ j.
        Moves-cases k j (bucket_of j l.buckets) none (bucket_of j l.buckets)
          (λ p. subst (λ i. bucket_of i l.buckets ≡ none) p out) (λ q. refl),
  )
  | inr (f, e) ↦
      let (taken, gone, moves) = detach-IsLfu f k l.buckets ok e in
      rw e (
        unlink-IsLfu f (detach f k l.buckets) taken,
        unlink-Moves f none k (detach f k l.buckets) l.buckets moves,
      )
]

-- Moving a key that is in a bucket to a frequency keeps the buckets in the strict order of their
-- frequencies with no key twice; the frequency that the buckets give is then the new one for that
-- key and the old one for every other key.
pub lfu_relocate_lem :
    (g f : ℕ) (k : Bytes) (l : Lfu)
    → IsLfu l.buckets
    → bucket_of k l.buckets ≡ some f
    → IsLfu (lfu_relocate g k l).buckets × Moves (lfu_relocate g k l).buckets l.buckets k (some g)
unfolding lfu_relocate relocate_from
lfu_relocate_lem g f k l ok e =
    let out = detach f k l.buckets in
    let (taken, gone, moves) = detach-IsLfu f k l.buckets ok e in
    let absent = occurs-bucket_of k out gone in
    let has = has_freq-detach f f k l.buckets ∙ bucket_of-has_freq f k l.buckets e in
    elim (Bool-cases (f == g)) [
      | inl same ↦
          let p : f ≡ g = ground arith in
          let (valid, put) = push-IsLfu f k out taken has absent in
          rw (e, same)
            (
              valid,
              subst (λ (n : ℕ). Moves (push_tail f k out) l.buckets k (some n)) p
                  (Moves-trans (push_tail f k out) out l.buckets k none (some f) put moves),
            )
      | inr other ↦
          let after = if f + 1 == g then some f else none in
          let there : known after out ≡ true = known-if (f + 1 == g) f out has in
          let (valid, put) = add-IsLfu g after k out taken there absent in
          let new = push_tail g k (get_or_create_bucket g after out) in
          rw (e, other)
            (
              unlink-IsLfu f new valid,
              unlink-Moves f (some g) k new l.buckets
                  (Moves-trans new out l.buckets k none (some g) put moves),
            )
    ]
