-- ===== src/Heap/Push.antt =====
-- Sifting up and `heapPush` keep the heap order.
use cache_custom.Prelude.{
  ℕ, zero, suc, ◌+◌, ◌<◌, List, [], ◌∷◌, ◌++◌, arith, length, ltb, ◌&&◌, Bool-cases, inl, inr,
  length-append, get_or-append_left,
}
use cache_custom.Heap.{Heap, ExpItem, no_item, parent, swap_items, swap_exp, sift_up, push, before}
use cache_custom.Heap.Order.{at, IsHeap, UpInv, length-swap, get!-swap}

swap-UpInv :
    (a : List ExpItem) (i : ℕ)
    → i < length a
    → UpInv a i
    → 0 < i
    → at a i < at a (parent i)
    → UpInv (swap_items a i (parent i)) (parent i)
swap-UpInv a i hi v pos below =
    let size = length-swap a i (parent i) in
    let see = λ (c : ℕ). get!-swap a i (parent i) c hi (omega arith) in
    record {
      edges = λ c p q ne. ground (arith, see c, see (parent c), v.edges c, v.bridged c);
      bridged = λ c p q e pos'.
          ground (arith, see c, see (parent (parent i)), v.edges c, v.edges (parent i));
    }

pub sift_up-IsHeap :
    (fuel i : ℕ) (h : Heap)
    → i < fuel
    → i < length h.items
    → UpInv h.items i
    → IsHeap (sift_up fuel i h).items
unfolding sift_up
sift_up-IsHeap zero i h f inside v = absurd (omega arith)
sift_up-IsHeap (suc fuel) i h f inside v = elim (Bool-cases (ltb 0 i && before h i (parent i))) [
  | inr stop ↦ rw stop (λ c p q. ground (arith, v.edges c))
  | inl go ↦ rw go (
      sift_up-IsHeap fuel (parent i) (swap_exp i (parent i) h) (ground arith)
        (ground (arith, length-swap h.items i (parent i)))
        (swap-UpInv h.items i inside v (ground arith) (ground arith)))
]

append-UpInv : (a : List ExpItem) (it : ExpItem) → IsHeap a → UpInv (a ++ it ∷ []) (length a)
append-UpInv a it v =
    let size = length-append a (it ∷ []) in
    let old = λ (c : ℕ) (p : c < length a). get_or-append_left a (it ∷ []) c no_item p in
    record {
      edges = λ c p q ne. ground (
        arith,
        v c,
        get_or-append_left a (it ∷ []) c no_item,
        get_or-append_left a (it ∷ []) (parent c) no_item,
      );
      bridged = λ c p q e pos. absurd (omega arith);
    }

-- Pushing a deadline keeps the heap order.
pub push-IsHeap : (it : ExpItem) (h : Heap) → IsHeap h.items → IsHeap (push it h).items
unfolding push
push-IsHeap it h v =
    sift_up-IsHeap (length h.items + 1) (length h.items) _ (omega arith)
      (omega (arith, length-append h.items (it ∷ []))) (append-UpInv h.items it v)
