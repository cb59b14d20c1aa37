-- ===== src/Sets.antt =====
-- Go maps used as sets, as lists that hold each member at most once.
use cache_custom.Prelude.{◌≡◌, refl, Bool, true, false, List, [], ◌∷◌, arith, ite}

module _ {A : Type 0} (d : Discrete A) where
  unfoldable pub has : A → List A → Bool
  has a [] = false
  has a (x ∷ xs) = ite (d x a) true (has a xs)

  unfoldable pub remove : A → List A → List A
  remove a [] = []
  remove a (x ∷ xs) = let rest = remove a xs in ite (d x a) rest (x ∷ rest)

  -- `set[a] = struct{}{}`
  unfoldable pub put : A → List A → List A
  put a [] = a ∷ []
  put a (x ∷ xs) = ite (d x a) (x ∷ xs) (x ∷ put a xs)

  pub has-put : (a b : A) (xs : List A) → has b (put a xs) ≡ ite (d a b) true (has b xs)
  unfolding has put
  has-put a b [] = refl
  has-put a b (x ∷ xs) = ground (arith, has-put a b xs)

  pub has-remove : (a b : A) (xs : List A) → has b (remove a xs) ≡ ite (d a b) false (has b xs)
  unfolding has remove
  has-remove a b [] = ground arith
  has-remove a b (x ∷ xs) = ground (arith, has-remove a b xs)
