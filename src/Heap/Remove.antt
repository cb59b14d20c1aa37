-- ===== src/Heap/Remove.antt =====
-- Sifting down and `heapRemoveAt` keep the heap order.
use cache_custom.Prelude.{
  ℕ, zero, suc, ◌+◌, ◌-◌, ◌<◌, ◌≡◌, refl, List, arith, length, ltb, ◌==◌, Bool-cases, inl, inr,
  take, length-take, get_or-take, ==_iff,
}
use cache_custom.Dict
use cache_custom.Heap.{
  Heap, ExpItem, get!, no_item, parent, swap_items, swap_exp, sift_down, smallest_of, remove_at,
}
use cache_custom.Heap.Order.{
  IsHeap, UpInv, DownInv, HoleInv, IsHeap-UpInv, IsSmallestChild, smallest_of_lem, smallest_of_here,
  length-swap, get!-swap,
}
use cache_custom.Heap.Push.{sift_up-IsHeap}

module _ (a : List ExpItem) (i m : ℕ) (s : IsSmallestChild a i m) where
  swap-DownInv : DownInv a i → DownInv (swap_items a i m) m
  swap-DownInv v =
      let size = length-swap a i m in
      let see = λ (c : ℕ). get!-swap a i m c (omega arith) s.inside in
      record {
        edges =
            λ c p q ne. ground (arith, see c, see (parent c), v.edges c, v.bridged m, s.least c);
        bridged = λ c p q e pos. ground (arith, see c, see (parent m), v.edges c);
      }

  -- One step down from the place that was written repairs the edge above it too.
  swap-HoleInv : HoleInv a i → DownInv (swap_items a i m) m
  swap-HoleInv v =
      let size = length-swap a i m in
      let see = λ (c : ℕ). get!-swap a i m c (omega arith) s.inside in
      record {
        edges =
            λ c p q ne. ground (arith, see c, see (parent c), v.edges c, v.bridged m, s.least c);
        bridged = λ c p q e pos. ground (arith, see c, see (parent m), v.edges c);
      }

pub length-sift_down : (fuel i : ℕ) (h : Heap) → length (sift_down fuel i h).items ≡ length h.items
unfolding sift_down
length-sift_down zero i h = refl
length-sift_down (suc fuel) i h =
    let m = smallest_of i h in
    ground (arith, length-sift_down fuel m (swap_exp i m h), length-swap h.items i m)

sift_down-IsHeap :
    (fuel i : ℕ) (h : Heap)
    → length h.items - i < fuel
    → i < length h.items
    → DownInv h.items i
    → IsHeap (sift_down fuel i h).items
unfolding sift_down
sift_down-IsHeap zero i h f inside v = absurd (omega arith)
sift_down-IsHeap (suc fuel) i h f inside v = elim (Bool-cases (smallest_of i h == i)) [
  | inl stop ↦
      rw stop (λ c p q. ground (arith, v.edges c, smallest_of_here i h ((==_iff _ _).0 stop) c))
  | inr go ↦
      let s = smallest_of_lem i h (ground arith) in
      let m = smallest_of i h in
      rw go (
        sift_down-IsHeap fuel m (swap_exp i m h) (ground (arith, length-swap h.items i m, s.child))
          (ground (arith, length-swap h.items i m, s.inside)) (swap-DownInv h.items i m s v))
]

sift_down-UpInv :
    (fuel i : ℕ) (h : Heap)
    → length h.items - i < fuel
    → i < length h.items
    → HoleInv h.items i
    → UpInv (sift_down fuel i h).items i
unfolding sift_down
sift_down-UpInv zero i h f inside v = absurd (omega arith)
sift_down-UpInv (suc fuel) i h f inside v = elim (Bool-cases (smallest_of i h == i)) [
  | inl stop ↦ rw stop (record {
    edges = λ c p q ne. ground (arith, v.edges c, smallest_of_here i h ((==_iff _ _).0 stop) c);
    bridged = v.bridged;
  })
  | inr go ↦
      let s = smallest_of_lem i h (ground arith) in
      let m = smallest_of i h in
      rw go (
        IsHeap-UpInv _ i
          (omega (arith, length-sift_down fuel m (swap_exp i m h), length-swap h.items i m))
          (sift_down-IsHeap fuel m (swap_exp i m h)
            (ground (arith, length-swap h.items i m, s.child))
            (ground (arith, length-swap h.items i m, s.inside)) (swap-HoleInv h.items i m s v)))
]

cut-HoleInv :
    (a : List ExpItem) (i n : ℕ)
    → length a ≡ suc n
    → i < suc n
    → IsHeap a
    → HoleInv (take n (swap_items a i n)) i
cut-HoleInv a i n e inside v =
    let size = length-swap a i n in
    let size' = length-take n (swap_items a i n) (omega arith) in
    let kept = λ (c : ℕ). get_or-take n (swap_items a i n) c no_item in
    let see = λ (c : ℕ). get!-swap a i n c (omega arith) (omega arith) in
    record {
      edges = λ c p q ne ne'. ground (arith, kept c, kept (parent c), see c, see (parent c), v c);
      bridged =
          λ c p q e' pos. ground (arith, kept c, kept (parent i), see c, see (parent i), v c, v i);
    }

last-IsHeap :
    (a : List ExpItem) (i n : ℕ)
    → length a ≡ suc n
    → i ≡ n
    → IsHeap a
    → IsHeap (take n (swap_items a i n))
last-IsHeap a i n e here v =
    let size = length-take n (swap_items a i n) (omega (arith, length-swap a i n)) in
    λ c p q. ground (arith, (cut-HoleInv a i n e (omega arith) v).edges c)

-- Removing any entry of the heap keeps the heap order.
pub remove_at-IsHeap :
    (i : ℕ) (h : Heap) → i < length h.items → IsHeap h.items → IsHeap (remove_at i h).items
unfolding remove_at
remove_at-IsHeap i h inside v =
    let n = length h.items - 1 in
    let e : length h.items ≡ suc n = omega arith in
    let cut : Heap = record {
      items = take n (swap_exp i n h).items;
      idx = Dict.delete (get! h.items i).key (swap_exp i n h).idx;
    } in
    let size : length cut.items ≡ n = length-take n _ (omega (arith, length-swap h.items i n)) in
    elim (Bool-cases (ltb i n)) [
      | inr last ↦ rw last (last-IsHeap h.items i n e (ground arith) v)
      | inl inner ↦
          let i_lt : i < n = ground arith in
          rw inner (
            sift_up-IsHeap (i + 1) i (sift_down (n + 1) i cut) (omega arith)
              (omega (arith, length-sift_down (n + 1) i cut))
              (sift_down-UpInv (n + 1) i cut (omega arith) (omega arith)
                (cut-HoleInv h.items i n e (omega arith) v)))
    ]
