-- ===== src/Lfu/Victim.antt =====
-- The victim that `lfuPick` chooses (internal/store/lfu.go).
use cache_custom.Prelude.{
  ℕ, suc, ◌≡◌, ◌≢◌, ◌≤◌, refl, sym, subst, Bool, true, false, none, some, List, [], ◌∷◌, arith,
  Option-cases, inl, inr,
}
use cache_custom.Bytes.{Bytes}
use cache_custom.Lfu.{Bucket, Lfu, member, bucket_of, first_ok, first_in, lfu_pick}
use cache_custom.Lfu.Order.{ordered}
use cache_custom.Lfu.Occurs.{bucket_of-bound}
use cache_custom.Lfu.Valid.{IsLfu}

module _ (p : Bytes → Bool) where
  pub first_ok-passes : {v : Bytes} (ks : List Bytes) → first_ok p ks ≡ some v → p v ≡ true
  unfolding first_ok
  first_ok-passes [] e = absurd cc
  first_ok-passes {v = v} (k ∷ ks) e = ground (arith, first_ok-passes {v = v} ks)

  first_in-passes : {v : Bytes} (bs : List Bucket) → first_in p bs ≡ some v → p v ≡ true
  unfolding first_in
  first_in-passes [] e = absurd cc
  first_in-passes {v = v} (b ∷ bs) e =
      ground (arith, first_ok-passes {v = v} b.keys, first_in-passes {v = v} bs)

  pub lfu_pick-passes : {v : Bytes} (l : Lfu) → lfu_pick p l ≡ some v → p v ≡ true
  unfolding lfu_pick
  lfu_pick-passes {v = v} l e = ground (arith, first_in-passes {v = v} l.buckets)

  pub first_ok-member : (ks : List Bytes) (v : Bytes) → first_ok p ks ≡ some v → member v ks ≡ true
  unfolding first_ok member
  first_ok-member [] v e = absurd cc
  first_ok-member (k ∷ ks) v e = ground (arith, first_ok-member ks v)

  same-passes : (k j : Bytes) → k ≡ j → p j ≡ true → p k ≡ true
  same-passes k j e good = subst (λ i. p i ≡ true) (sym e) good

  -- Where no key of a list is taken, none passes.
  first_ok-none :
      (ks : List Bytes) (j : Bytes) → first_ok p ks ≡ none → p j ≡ true → member j ks ≡ false
  unfolding first_ok member
  first_ok-none [] j e good = refl
  first_ok-none (k ∷ ks) j e good =
      let same : k ≡ j → p k ≡ true = λ q. same-passes k j q good in
      ground (arith, first_ok-none ks j, same)

  first_in-least :
      (lo f g : ℕ) (v j : Bytes) (bs : List Bucket)
      → ordered lo bs ≡ true
      → first_in p bs ≡ some v
      → bucket_of v bs ≡ some f
      → p j ≡ true
      → bucket_of j bs ≡ some g
      → f ≤ g
  unfolding first_in ordered bucket_of
  first_in-least lo f g v j [] h e at_v good at_j = absurd cc
  first_in-least lo f g v j (b ∷ bs) h e at_v good at_j = elim (Option-cases (first_ok p b.keys)) [
    | inr (k, here) ↦ ground (arith, first_ok-member b.keys k, bucket_of-bound j (suc b.freq) g bs)
    | inl nowhere ↦
        let rest : first_in p bs ≡ some v = ground (arith, nowhere) in
        let v_good = first_in-passes bs rest in
        let v_out = first_ok-none b.keys v nowhere v_good in
        let j_out = first_ok-none b.keys j nowhere good in
        first_in-least (suc b.freq) f g v j bs (ground arith) rest (ground arith) good
          (ground arith)
  ]

  first_in-none :
      (j : Bytes) (bs : List Bucket) → first_in p bs ≡ none → p j ≡ true → bucket_of j bs ≡ none
  unfolding first_in bucket_of
  first_in-none j [] e good = refl
  first_in-none j (b ∷ bs) e good = ground (arith, first_ok-none b.keys j, first_in-none j bs)

  -- Where the buckets are in order, the victim of lfuPick has the least frequency of all keys that
  -- pass its test.
  pub lfu_pick_least :
      (l : Lfu) (v j : Bytes) (f g : ℕ)
      → IsLfu l.buckets
      → lfu_pick p l ≡ some v
      → bucket_of v l.buckets ≡ some f
      → p j ≡ true
      → bucket_of j l.buckets ≡ some g
      → f ≤ g
  unfolding lfu_pick
  lfu_pick_least l v j f g ok e at_v good at_j =
      first_in-least 0 f g v j l.buckets ok.order (ground arith) at_v good at_j

  -- Where lfuPick finds no victim though the counter of the buckets is not 0, no key that passes
  -- its test is in a bucket.
  pub lfu_pick-none :
      (l : Lfu) (j : Bytes)
      → l.size ≢ 0
      → lfu_pick p l ≡ none
      → p j ≡ true
      → bucket_of j l.buckets ≡ none
  unfolding lfu_pick
  lfu_pick-none l j used e good = first_in-none j l.buckets (ground arith) good
