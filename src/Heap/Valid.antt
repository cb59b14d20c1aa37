-- ===== src/Heap/Valid.antt =====
-- The whole invariant of the expiry heap, kept by every operation, and the earliest deadline.
use cache_custom.Prelude.{
  ℕ, zero, suc, ◌≤◌, ◌<◌, ◌≡◌, Option, none, some, arith, length, Option-cases, inl, inr,
}
use cache_custom.Bytes.{Bytes}
use cache_custom.Dict
use cache_custom.Heap.{Heap, empty, parent, clear, note}
use cache_custom.Heap.Order.{at, IsHeap}
use cache_custom.Heap.Push.{push-IsHeap}
use cache_custom.Heap.Remove.{remove_at-IsHeap}
use cache_custom.Heap.Index.{IsIndexed, deadline, Updates, clear-Updates, note-Updates}

pub record IsValid (h : Heap) : Type 0 where
  pub ordered : IsHeap h.items
  pub indexed : IsIndexed h

pub empty-IsValid : IsValid empty
unfolding Dict.lookup
empty-IsValid = record {
  ordered = λ c p q. absurd (omega arith);
  indexed = record { found = λ k i e. cc; listed = λ i p. absurd (omega arith) };
}

clear-IsHeap : (key : Bytes) (h : Heap) → IsValid h → IsHeap (clear key h).items
unfolding clear
clear-IsHeap key h v = elim (Option-cases (Dict.lookup key h.idx)) [
  | inl e ↦ rw e v.ordered
  | inr (i, e) ↦ rw e (remove_at-IsHeap i h (v.indexed.found key i e).0 v.ordered)
]

pub clear-IsValid : (key : Bytes) (h : Heap) → IsValid h → IsValid (clear key h)
clear-IsValid key h v = record {
  ordered = clear-IsHeap key h v;
  indexed = (clear-Updates key h v.indexed).indexed;
}

note-IsHeap : (key : Bytes) (t : Option ℕ) (h : Heap) → IsValid h → IsHeap (note key t h).items
unfolding note
note-IsHeap key none h v = clear-IsHeap key h v
note-IsHeap key (some t) h v =
    push-IsHeap (record { key = key; at = t }) (clear key h) (clear-IsHeap key h v)

pub note-IsValid : (key : Bytes) (t : Option ℕ) (h : Heap) → IsValid h → IsValid (note key t h)
note-IsValid key t h v = record {
  ordered = note-IsHeap key t h v;
  indexed = (note-Updates key t h v.indexed).indexed;
}

root_least_below :
    (fuel : ℕ) (h : Heap) (i : ℕ)
    → IsHeap h.items
    → i < fuel
    → i < length h.items
    → at h.items 0 ≤ at h.items i
root_least_below zero h i v f p = absurd (omega arith)
root_least_below (suc fuel) h i v f p = ground (arith, v i, root_least_below fuel h (parent i) v)

-- No key of a valid expiry heap has a deadline before that of the item at the root.
pub root_earliest :
    (h : Heap) (k : Bytes) (t : ℕ) → IsValid h → deadline h k ≡ some t → at h.items 0 ≤ t
root_earliest h k t v e = elim (Option-cases (Dict.lookup k h.idx)) [
  | inl q ↦ absurd (ground arith)
  | inr (i, q) ↦ ground (arith, root_least_below (suc i) h i v.ordered, v.indexed.found k i q)
]

-- noteExpiry on a valid expiry heap gives a valid heap (no item before its parent, and the index
-- naming the place of each key) that, as a map from keys to deadlines, is the old one with the key
-- at its new deadline, or without it if the deadline is zero.
pub note_lem :
    (key : Bytes) (t : Option ℕ) (h : Heap)
    → IsValid h
    → IsValid (note key t h) × Updates (note key t h) h key t
note_lem key t h v = (note-IsValid key t h v, note-Updates key t h v.indexed)
