-- ===== src/Heap/Index.antt =====
-- The index of the heap always names the place of each key, so the heap is a map from keys to
-- deadlines.
use cache_custom.Prelude.{
  ℕ, zero, suc, ◌+◌, ◌-◌, ◌<◌, ◌≡◌, refl, ◌∙◌, subst, [], ◌∷◌, ◌++◌, arith, length, ltb, ◌==◌, ◌&&◌,
  Bool-cases, inl, inr, take, length-take, get_or-take, Option, none, some, ite, length-append,
  get_or-append_left, get_or-append_last, Option-cases,
}
use cache_custom.Bytes.{Bytes, dec_bytes}
use cache_custom.Dict
use cache_custom.Dict.{Dict, lookup-insert, lookup-delete}
use cache_custom.Heap.{
  Heap, ExpItem, get!, no_item, parent, swap_items, swap_exp, before, sift_up, sift_down,
  smallest_of, remove_at, note, clear, push,
}
use cache_custom.Heap.Order.{at, length-swap, get!-swap, smallest_of_lem}

pub record IsIndexed (h : Heap) : Type 0 where
  pub found :
      (k : Bytes) (i : ℕ)
      → Dict.lookup k h.idx ≡ some i
      → (i < length h.items) × ((get! h.items i).key ≡ k)
  pub listed : (i : ℕ) → i < length h.items → Dict.lookup (get! h.items i).key h.idx ≡ some i

-- The deadline that the heap holds for a key.
abbrev pub deadline : Heap → Bytes → Option ℕ
deadline h k = elim (Dict.lookup k h.idx) [ none ↦ none | some i ↦ some (at h.items i) ]

module _ (i j : ℕ) (h : Heap) (hi : i < length h.items) (hj : j < length h.items) where
  lookup-swap :
      (k : Bytes)
      → Dict.lookup k (swap_exp i j h).idx
        ≡ ite
            (dec_bytes (get! h.items i).key k)
            (some j)
            (ite (dec_bytes (get! h.items j).key k) (some i) (Dict.lookup k h.idx))
  unfolding swap_exp
  lookup-swap k =
      rw
        (lookup-insert, lookup-insert, get!-swap h.items i j j hi hj, get!-swap h.items i j i hi hj)
        (ground arith)

  swap-IsIndexed : IsIndexed h → IsIndexed (swap_exp i j h)
  unfolding swap_exp
  swap-IsIndexed v =
      let size = length-swap h.items i j in
      record {
        found = λ k c e. ground (arith, lookup-swap k, get!-swap h.items i j c, v.found k c);
        listed = λ c p. ground (
          arith,
          lookup-swap (get! (swap_items h.items i j) c).key,
          get!-swap h.items i j c,
          v.listed c,
          v.listed i,
          v.listed j,
        );
      }

  deadline-swap : IsIndexed h → (k : Bytes) → deadline (swap_exp i j h) k ≡ deadline h k
  unfolding swap_exp
  deadline-swap v k = elim (Option-cases (Dict.lookup k h.idx)) [
    | inl e ↦ ground (arith, lookup-swap k, v.listed i, v.listed j)
    | inr (x, e) ↦ ground (
      arith,
      lookup-swap k,
      get!-swap h.items i j j,
      get!-swap h.items i j i,
      get!-swap h.items i j x,
      v.found k x e,
      v.listed i,
      v.listed j,
    )
  ]

-- What sifting keeps.
pub record Kept (g h : Heap) : Type 0 where
  pub indexed : IsIndexed g
  pub size : length g.items ≡ length h.items
  pub deadlines : (k : Bytes) → deadline g k ≡ deadline h k

swap-Kept :
    (i j : ℕ) (h : Heap)
    → i < length h.items
    → j < length h.items
    → IsIndexed h
    → Kept (swap_exp i j h) h
unfolding swap_exp
swap-Kept i j h hi hj v = record {
  indexed = swap-IsIndexed i j h hi hj v;
  size = length-swap h.items i j;
  deadlines = deadline-swap i j h hi hj v;
}

Kept-trans : {f g h : Heap} → Kept f g → Kept g h → Kept f h
Kept-trans a b = record {
  indexed = a.indexed;
  size = a.size ∙ b.size;
  deadlines = λ k. a.deadlines k ∙ b.deadlines k;
}

Kept-refl : {h : Heap} → IsIndexed h → Kept h h
Kept-refl v = record { indexed = v; size = refl; deadlines = λ k. refl }

sift_up-Kept :
    (fuel i : ℕ) (h : Heap) → i < length h.items → IsIndexed h → Kept (sift_up fuel i h) h
unfolding sift_up
sift_up-Kept zero i h hi v = Kept-refl v
sift_up-Kept (suc fuel) i h hi v = elim (Bool-cases (ltb 0 i && before h i (parent i))) [
  | inr stop ↦ rw stop (Kept-refl v)
  | inl go ↦
      let s = swap-Kept i (parent i) h hi (omega arith) v in
      rw go (
        Kept-trans
          (sift_up-Kept fuel (parent i) (swap_exp i (parent i) h) (omega (arith, s.size)) s.indexed)
          s)
]

sift_down-Kept :
    (fuel i : ℕ) (h : Heap) → i < length h.items → IsIndexed h → Kept (sift_down fuel i h) h
unfolding sift_down
sift_down-Kept zero i h hi v = Kept-refl v
sift_down-Kept (suc fuel) i h hi v = elim (Bool-cases (smallest_of i h == i)) [
  | inl stop ↦ rw stop (Kept-refl v)
  | inr go ↦
      let m = smallest_of i h in
      let inside = (smallest_of_lem i h (ground arith)).inside in
      let s = swap-Kept i m h hi inside v in
      rw go
        (Kept-trans (sift_down-Kept fuel m (swap_exp i m h) (omega (arith, s.size)) s.indexed) s)
]

-- `h` as a map: `g` is `h` with `key` at `at`.
pub record Updates (g h : Heap) (key : Bytes) (at' : Option ℕ) : Type 0 where
  pub indexed : IsIndexed g
  pub deadlines : (k : Bytes) → deadline g k ≡ ite (dec_bytes key k) at' (deadline h k)

append-Updates :
    (it : ExpItem) (h : Heap)
    → IsIndexed h
    → Dict.lookup it.key h.idx ≡ none
    → Updates
        (record { items = h.items ++ it ∷ []; idx = Dict.insert it.key (length h.items) h.idx })
        h
        it.key
        (some it.at)
append-Updates it h v fresh =
    let size = length-append h.items (it ∷ []) in
    let last = get_or-append_last h.items it no_item in
    record {
      indexed = record {
        found = λ k c e. ground (
          arith,
          lookup-insert it.key k (length h.items) h.idx,
          v.found k c,
          last c,
          get_or-append_left h.items (it ∷ []) c no_item,
        );
        listed = λ c p. ground (
          arith,
          lookup-insert it.key (get! (h.items ++ it ∷ []) c).key (length h.items) h.idx,
          v.listed c,
          last c,
          get_or-append_left h.items (it ∷ []) c no_item,
        );
      };
      deadlines = λ k. elim (Option-cases (Dict.lookup k h.idx)) [
        | inl e ↦
            ground (arith, lookup-insert it.key k (length h.items) h.idx, last (length h.items))
        | inr (x, e) ↦ ground (
          arith,
          lookup-insert it.key k (length h.items) h.idx,
          last (length h.items),
          v.found k x e,
          get_or-append_left h.items (it ∷ []) x no_item,
        )
      ];
    }

push-Updates :
    (it : ExpItem) (h : Heap)
    → IsIndexed h
    → Dict.lookup it.key h.idx ≡ none
    → Updates (push it h) h it.key (some it.at)
unfolding push
push-Updates it h v fresh =
    let a = append-Updates it h v fresh in
    let s =
      sift_up-Kept (length h.items + 1) (length h.items) _
        (omega (arith, length-append h.items (it ∷ []))) a.indexed in
    record { indexed = s.indexed; deadlines = λ k. s.deadlines k ∙ a.deadlines k }

cut_last :
    (i n : ℕ) (h : Heap)
    → length h.items ≡ suc n
    → i < length h.items
    → (get! (swap_exp i n h).items n).key ≡ (get! h.items i).key
unfolding swap_exp
cut_last i n h e hi = ground (arith, get!-swap h.items i n n hi)

cut-Updates :
    (i n : ℕ) (h : Heap)
    → length h.items ≡ suc n
    → i < length h.items
    → IsIndexed h
    → Updates
        (record {
          items = take n (swap_exp i n h).items;
          idx = Dict.delete (get! h.items i).key (swap_exp i n h).idx;
        })
        h
        (get! h.items i).key
        none
cut-Updates i n h e hi v =
    let t = swap_exp i n h in
    let key = (get! h.items i).key in
    let s = swap-Kept i n h hi (omega arith) v in
    let size = length-take n t.items (omega (arith, s.size)) in
    let last : (get! t.items n).key ≡ key = cut_last i n h e hi in
    record {
      indexed = record {
        found = λ k c q. ground (
          arith,
          lookup-delete key k t.idx,
          s.indexed.found k c,
          s.size,
          get_or-take n t.items c no_item,
        );
        listed = λ c p. ground (
          arith,
          lookup-delete key (get! (take n t.items) c).key t.idx,
          s.indexed.listed c,
          s.indexed.listed n,
          s.size,
          get_or-take n t.items c no_item,
        );
      };
      deadlines = λ k. elim (Option-cases (Dict.lookup k t.idx)) [
        | inl q ↦ ground (arith, lookup-delete key k t.idx, s.deadlines k)
        | inr (x, q) ↦ ground (
          arith,
          lookup-delete key k t.idx,
          s.deadlines k,
          s.indexed.found k x q,
          s.size,
          get_or-take n t.items x no_item,
        )
      ];
    }

remove_at-Updates :
    (i : ℕ) (h : Heap)
    → i < length h.items
    → IsIndexed h
    → Updates (remove_at i h) h (get! h.items i).key none
unfolding remove_at
remove_at-Updates i h hi v =
    let n = length h.items - 1 in
    let cut : Heap = record {
      items = take n (swap_exp i n h).items;
      idx = Dict.delete (get! h.items i).key (swap_exp i n h).idx;
    } in
    let c = cut-Updates i n h (omega arith) hi v in
    let size : length cut.items ≡ n =
      length-take n _ (unfold swap_exp in omega (arith, length-swap h.items i n)) in
    elim (Bool-cases (ltb i n)) [
      | inr last ↦ rw last c
      | inl inner ↦
          let i_lt : i < n = ground arith in
          let d = sift_down-Kept (n + 1) i cut (omega arith) c.indexed in
          let u =
            sift_up-Kept (i + 1) i (sift_down (n + 1) i cut) (omega (arith, d.size)) d.indexed in
          rw inner (record {
            indexed = u.indexed;
            deadlines = λ k. u.deadlines k ∙ d.deadlines k ∙ c.deadlines k;
          })
    ]

-- Clearing a key takes its deadline, and no other, out of the heap.
pub clear-Updates : (key : Bytes) (h : Heap) → IsIndexed h → Updates (clear key h) h key none
unfolding clear
clear-Updates key h v = elim (Option-cases (Dict.lookup key h.idx)) [
  | inl e ↦ rw e (record { indexed = v; deadlines = λ k. ground arith })
  | inr (i, e) ↦
      let f = v.found key i e in
      rw e
        (subst (λ (q : Bytes). Updates (remove_at i h) h q none) f.1 (remove_at-Updates i h f.0 v))
]

pub lookup_of_deadline : (h : Heap) (k : Bytes) → deadline h k ≡ none → Dict.lookup k h.idx ≡ none
lookup_of_deadline h k e = ground arith

-- `noteExpiry` and `ttlUpdate` make the heap a map with the key at its new deadline.
pub note-Updates :
    (key : Bytes) (at' : Option ℕ) (h : Heap) → IsIndexed h → Updates (note key at' h) h key at'
unfolding note
note-Updates key none h v = clear-Updates key h v
note-Updates key (some t) h v =
    let c = clear-Updates key h v in
    let p =
      push-Updates (record { key = key; at = t }) (clear key h) c.indexed
        (lookup_of_deadline (clear key h) key (ground (arith, c.deadlines key))) in
    record { indexed = p.indexed; deadlines = λ k. ground (arith, p.deadlines k, c.deadlines k) }
