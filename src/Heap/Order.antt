-- ===== src/Heap/Order.antt =====
-- The heap order, and what one swap does to it.
use mathlib.Core.Logic.{◌⊎◌}
use cache_custom.Prelude.{
  ℕ, ◌+◌, ◌*◌, ◌≤◌, ◌<◌, ◌≡◌, ◌≢◌, List, arith, length, set, ◌==◌, if◌then◌else◌, length-set,
  get_or-set_self, get_or-set_ne,
}
use cache_custom.Heap.{Heap, ExpItem, get!, no_item, parent, swap_items, smallest_of}

abbrev pub at : List ExpItem → ℕ → ℕ
at a i = (get! a i).at

pub get!-set :
    (a : List ExpItem) (i c : ℕ) (v : ExpItem)
    → i < length a
    → get! (set a i v) c ≡ (if i == c then v else get! a c)
get!-set a i c v h = ground (arith, get_or-set_self a i v no_item, get_or-set_ne a i c v no_item)

pub length-swap : (a : List ExpItem) (i j : ℕ) → length (swap_items a i j) ≡ length a
unfolding swap_items
length-swap a i j =
    omega (arith, length-set (set a i (get! a j)) j (get! a i), length-set a i (get! a j))

pub get!-swap :
    (a : List ExpItem) (i j c : ℕ)
    → i < length a
    → j < length a
    → get! (swap_items a i j) c
      ≡ (if j == c then get! a i else if i == c then get! a j else get! a c)
unfolding swap_items
get!-swap a i j c hi hj = ground (
  arith,
  get!-set (set a i (get! a j)) j c (get! a i),
  get!-set a i c (get! a j),
  length-set a i (get! a j),
)

-- No entry is due before its parent.
abbrev pub IsHeap : List ExpItem → Type 0
IsHeap a = (c : ℕ) → 0 < c → c < length a → at a (parent c) ≤ at a c

-- The edges past `i`, from its parent to its children, are in order.
abbrev pub IsBridged : List ExpItem → ℕ → Type 0
IsBridged a i = (c : ℕ) → 0 < c → c < length a → parent c ≡ i → 0 < i → at a (parent i) ≤ at a c

-- Only the edge above `i` may be out of order.
pub record UpInv (a : List ExpItem) (i : ℕ) : Type 0 where
  pub edges : (c : ℕ) → 0 < c → c < length a → c ≢ i → at a (parent c) ≤ at a c
  pub bridged : IsBridged a i

-- Only the edges below `i` may be out of order.
pub record DownInv (a : List ExpItem) (i : ℕ) : Type 0 where
  pub edges : (c : ℕ) → 0 < c → c < length a → parent c ≢ i → at a (parent c) ≤ at a c
  pub bridged : IsBridged a i

-- The edges above and below `i` may be out of order.
pub record HoleInv (a : List ExpItem) (i : ℕ) : Type 0 where
  pub edges : (c : ℕ) → 0 < c → c < length a → c ≢ i → parent c ≢ i → at a (parent c) ≤ at a c
  pub bridged : IsBridged a i

pub IsHeap-UpInv : (a : List ExpItem) (i : ℕ) → i < length a → IsHeap a → UpInv a i
IsHeap-UpInv a i hi h = record {
  edges = λ c p q _. h c p q;
  bridged = λ c p q e pos. ground (arith, h c, h i);
}

pub record IsSmallestChild (a : List ExpItem) (i m : ℕ) : Type 0 where
  pub inside : m < length a
  pub child : (m ≡ 2 * i + 1) ⊎ (m ≡ 2 * i + 2)
  pub below : at a m < at a i
  pub least : (c : ℕ) → 0 < c → c < length a → parent c ≡ i → at a m ≤ at a c

module _ (i : ℕ) (h : Heap) where
  smallest_of_least :
      (c : ℕ)
      → 0 < c
      → c < length h.items
      → parent c ≡ i
      → at h.items (smallest_of i h) ≤ at h.items c
  unfolding smallest_of
  smallest_of_least c p q e = ground arith

  smallest_of_child :
      smallest_of i h ≢ i
      → (smallest_of i h < length h.items)
        × ((smallest_of i h ≡ 2 * i + 1) ⊎ (smallest_of i h ≡ 2 * i + 2))
        × (at h.items (smallest_of i h) < at h.items i)
  unfolding smallest_of
  smallest_of_child ne = ground arith

  pub smallest_of_here :
      smallest_of i h ≡ i
      → (c : ℕ) → 0 < c
      → c < length h.items
      → parent c ≡ i
      → at h.items i ≤ at h.items c
  smallest_of_here e c p q r = ground (arith, smallest_of_least c p q r)

  pub smallest_of_lem : smallest_of i h ≢ i → IsSmallestChild h.items i (smallest_of i h)
  smallest_of_lem ne = record {
    inside = (smallest_of_child ne).0;
    child = (smallest_of_child ne).1;
    below = (smallest_of_child ne).2;
    least = smallest_of_least;
  }
