-- ===== src/Shard/Random.antt =====
-- The array of random victims: internal/store/random.go. `idx` holds the `rndIdx` of each entry
-- that stands in the array.
pub mod Picks
use cache_custom.Prelude.{
  ℕ, zero, suc, ◌+◌, ◌-◌, ◌%◌, Bool, true, false, Option, none, some, List, [], ◌∷◌, ◌++◌, ◌==◌,
  if◌then◌else◌, ite, length, get_elem?, get_or, set, take, ltb,
}
use cache_custom.Bytes.{Bytes, dec_bytes}
use cache_custom.Dict
use cache_custom.Dict.{Dict}

pub record Rnd : Type 0 where
  pub keys : List Bytes
  pub idx : Dict ℕ

abbrev pub empty_rnd : Rnd
empty_rnd = record { keys = []; idx = [] }

unfoldable pub rnd_add : Bytes → Rnd → Rnd
rnd_add key r = record { keys = r.keys ++ key ∷ []; idx = Dict.insert key (length r.keys) r.idx }

-- The last key takes the place of the key that goes.
swap_remove : ℕ → Bytes → Rnd → Rnd
swap_remove i key r =
    let n = length r.keys - 1 in
    let last = get_or r.keys n [] in
    record { keys = take n (set r.keys i last); idx = Dict.delete key (Dict.insert last i r.idx) }

remove_indexed : Option ℕ → Bytes → Rnd → Rnd
unfolding swap_remove
remove_indexed none key r = r
remove_indexed (some i) key r =
    if ltb i (length r.keys)
    then ite (dec_bytes (get_or r.keys i []) key) (swap_remove i key r) r
    else r

unfoldable pub rnd_remove : Bytes → Rnd → Rnd
unfolding remove_indexed
rnd_remove key r = remove_indexed (Dict.lookup key r.idx) key r

-- `intn t n` is the value of the `t`-th call of rand.Intn, at `n`. A pick returns the key, and the
-- number of calls made so far.
module _ (intn : ℕ → ℕ → ℕ) (p : Bytes → Bool) where
  pub candidate_at : List Bytes → ℕ → Option Bytes
  candidate_at ks i = elim (get_elem? ks i) [ none ↦ none | some k ↦ if p k then some k else none ]

  pub tries : ℕ → List Bytes → ℕ → Option Bytes × ℕ
  unfolding candidate_at
  tries zero ks t = (none, t)
  tries (suc n) ks t = elim (candidate_at ks (intn t (length ks))) [
    | some k ↦ (some k, t + 1)
    | none ↦ tries n ks (t + 1)
  ]

  pub scan : ℕ → ℕ → ℕ → List Bytes → Option Bytes
  unfolding candidate_at
  scan zero start i ks = none
  scan (suc n) start i ks = elim (candidate_at ks ((start + i) % length ks)) [
    | some k ↦ some k
    | none ↦ scan n start (i + 1) ks
  ]

  pub fall_back : List Bytes → Option Bytes × ℕ → Option Bytes × ℕ
  unfolding scan
  fall_back ks (some k, t) = (some k, t)
  fall_back ks (none, t) = (scan (length ks) (intn t (length ks)) 0 ks, t + 1)

  -- Eight random draws, then a walk through the whole array from a random place.
  unfoldable pub rnd_pick : Rnd → ℕ → Option Bytes × ℕ
  unfolding fall_back tries
  rnd_pick r t = if length r.keys == 0 then (none, t) else fall_back r.keys (tries 8 r.keys t)
