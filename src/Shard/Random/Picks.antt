-- ===== src/Shard/Random/Picks.antt =====
-- What `rndPick` returns is a candidate.
use cache_custom.Prelude.{
  ℕ, zero, suc, ◌+◌, ◌%◌, ◌≡◌, Bool, true, Option, none, some, List, arith, length,
}
use cache_custom.Bytes.{Bytes}
use cache_custom.Shard.Random.{Rnd, candidate_at, tries, scan, fall_back, rnd_pick}

module _ (intn : ℕ → ℕ → ℕ) (p : Bytes → Bool) {k : Bytes} where
  candidate_at-passes : (ks : List Bytes) (i : ℕ) → candidate_at intn p ks i ≡ some k → p k ≡ true
  unfolding candidate_at
  candidate_at-passes ks i e = ground arith

  tries-passes : (n : ℕ) (ks : List Bytes) (t : ℕ) → (tries intn p n ks t).0 ≡ some k → p k ≡ true
  unfolding tries
  tries-passes zero ks t e = cc
  tries-passes (suc n) ks t e =
      ground (arith, candidate_at-passes ks (intn t (length ks)), tries-passes n ks (t + 1))

  scan-passes : (n start i : ℕ) (ks : List Bytes) → scan intn p n start i ks ≡ some k → p k ≡ true
  unfolding scan
  scan-passes zero start i ks e = cc
  scan-passes (suc n) start i ks e =
      ground
        (arith, candidate_at-passes ks ((start + i) % length ks), scan-passes n start (i + 1) ks)

  fall_back-passes :
      (ks : List Bytes) (r : Option Bytes × ℕ)
      → (r.0 ≡ some k → p k ≡ true)
      → (fall_back intn p ks r).0 ≡ some k
      → p k ≡ true
  unfolding fall_back
  fall_back-passes ks (none, t) h e = scan-passes (length ks) (intn t (length ks)) 0 ks e
  fall_back-passes ks (some j, t) h e = h e

  pub rnd_pick-passes : (r : Rnd) (t : ℕ) → (rnd_pick intn p r t).0 ≡ some k → p k ≡ true
  unfolding rnd_pick
  rnd_pick-passes r t e =
      ground (arith, fall_back-passes r.keys (tries intn p 8 r.keys t) (tries-passes 8 r.keys t))
