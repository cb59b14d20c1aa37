-- ===== src/Heap.antt =====
-- The expiry min-heap of internal/store/expiry.go: an array of deadlines in heap order, with an
-- index from each key to its place. The tenant heap (`expH`, `expIdx`) and the heap of each shard
-- (`ttlH`, `ttlIdx`) run the same code.
pub mod Order
pub mod Index
pub mod Push
pub mod Remove
pub mod Valid
use cache_custom.Prelude.{
  ℕ, zero, suc, ◌+◌, ◌-◌, ◌*◌, ◌/◌, ◌≡◌, refl, Bool, true, false, Option, none, some, List, [], ◌∷◌,
  ◌++◌, arith, ltb, ◌==◌, if◌then◌else◌, length, get_or, set, take, ◌&&◌,
}
use cache_custom.Bytes.{Bytes}
use cache_custom.Dict
use cache_custom.Dict.{Dict}

pub record ExpItem : Type 0 where
  pub key : Bytes
  pub at : ℕ

pub record Heap : Type 0 where
  pub items : List ExpItem
  pub idx : Dict ℕ

abbrev pub empty : Heap
empty = record { items = []; idx = [] }

-- What a read out of range would return; no operation makes such a read.
abbrev pub no_item : ExpItem
no_item = record { key = []; at = 0 }

abbrev pub get! : List ExpItem → ℕ → ExpItem
get! a i = get_or a i no_item

abbrev pub before : Heap → ℕ → ℕ → Bool
before h i j = ltb (get! h.items i).at (get! h.items j).at

pub swap_items : List ExpItem → ℕ → ℕ → List ExpItem
swap_items a i j = set (set a i (get! a j)) j (get! a i)

-- The array is swapped first, so the two index writes see the new entries.
pub swap_exp : ℕ → ℕ → Heap → Heap
unfolding swap_items Dict.insert
swap_exp i j h =
    let items' = swap_items h.items i j in
    record {
      items = items';
      idx = Dict.insert (get! items' j).key j (Dict.insert (get! items' i).key i h.idx);
    }

abbrev pub parent : ℕ → ℕ
parent i = (i - 1) / 2

pub sift_up : ℕ → ℕ → Heap → Heap
unfolding swap_exp
sift_up zero i h = h
sift_up (suc fuel) i h =
    let rest = sift_up fuel (parent i) (swap_exp i (parent i) h) in
    if ltb 0 i && before h i (parent i) then rest else h

pub smallest_of : ℕ → Heap → ℕ
smallest_of i h =
    let n = length h.items in
    let l = 2 * i + 1 in
    let r = 2 * i + 2 in
    let m = if ltb l n && before h l i then l else i in if ltb r n && before h r m then r else m

pub sift_down : ℕ → ℕ → Heap → Heap
unfolding swap_exp smallest_of
sift_down zero i h = h
sift_down (suc fuel) i h =
    let m = smallest_of i h in
    let rest = sift_down fuel m (swap_exp i m h) in if m == i then h else rest

-- `i + 1` rounds reach the root.
unfoldable pub push : ExpItem → Heap → Heap
unfolding sift_up
push it h =
    let n = length h.items in
    sift_up (n + 1) n (record { items = h.items ++ it ∷ []; idx = Dict.insert it.key n h.idx })

-- One round for each entry is enough on the way down.
unfoldable pub remove_at : ℕ → Heap → Heap
unfolding sift_up sift_down swap_exp Dict.delete
remove_at i h =
    let n = length h.items - 1 in
    let key = (get! h.items i).key in
    let s = swap_exp i n h in
    let cut : Heap = record { items = take n s.items; idx = Dict.delete key s.idx } in
    if ltb i n then sift_up (i + 1) i (sift_down (n + 1) i cut) else cut

remove_found : Option ℕ → Heap → Heap
unfolding remove_at
remove_found none h = h
remove_found (some i) h = remove_at i h

unfoldable pub clear : Bytes → Heap → Heap
unfolding remove_found Dict.lookup
clear key h = remove_found (Dict.lookup key h.idx) h

push_deadline : Bytes → Option ℕ → Heap → Heap
unfolding push
push_deadline key none h = h
push_deadline key (some t) h = push (record { key = key; at = t }) h

-- A key with no deadline (the zero time) only leaves the heap.
unfoldable pub note : Bytes → Option ℕ → Heap → Heap
unfolding clear push_deadline
note key at h = push_deadline key at (clear key h)
