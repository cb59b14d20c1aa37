-- ===== src/Lfu.antt =====
-- The frequency buckets of one shard: internal/store/lfu.go. The buckets stand in the order of
-- their links from `lfuMin`, each with its keys from head to tail. `freqMap[f]` is the bucket of
-- frequency `f` in that list; `e.inLFU` and `e.bucket` are read off it too.
pub mod Order
pub mod Buckets
pub mod Occurs
pub mod Valid
pub mod Victim
mod Tests
use cache_custom.Prelude.{
  ℕ, ◌+◌, ◌-◌, Bool, true, false, Option, none, some, List, [], ◌∷◌, ◌++◌, ltb, ◌==◌, if◌then◌else◌,
  ite,
}
use cache_custom.Bytes.{Bytes, dec_bytes}

-- Doubly-linked lists of entries, by their keys.
unfoldable pub erase : Bytes → List Bytes → List Bytes
erase k [] = []
erase k (x ∷ xs) = let rest = erase k xs in ite (dec_bytes x k) xs (x ∷ rest)

unfoldable pub member : Bytes → List Bytes → Bool
member k [] = false
member k (x ∷ xs) = ite (dec_bytes x k) true (member k xs)

pub record Bucket : Type 0 where
  pub freq : ℕ
  pub keys : List Bytes

pub record Lfu : Type 0 where
  pub buckets : List Bucket
  pub size : ℕ

abbrev pub empty_lfu : Lfu
empty_lfu = record { buckets = []; size = 0 }

-- `freqMap[freq]`
unfoldable pub has_freq : ℕ → List Bucket → Bool
has_freq f [] = false
has_freq f (b ∷ bs) = if b.freq == f then true else has_freq f bs

-- The frequency of `e.bucket`.
unfoldable pub bucket_of : Bytes → List Bucket → Option ℕ
unfolding member
bucket_of k [] = none
bucket_of k (b ∷ bs) = if member k b.keys then some b.freq else bucket_of k bs

abbrev pub fresh : ℕ → Bucket
fresh f = record { freq = f; keys = [] }

pub splice_after : ℕ → ℕ → List Bucket → List Bucket
splice_after after f [] = []
splice_after after f (b ∷ bs) =
    if b.freq == after then b ∷ fresh f ∷ bs else b ∷ splice_after after f bs

-- `cur` is the first bucket; the walk goes on while the next one is lower.
pub walk : ℕ → List Bucket → List Bucket
walk f [] = fresh f ∷ []
walk f (cur ∷ []) = cur ∷ fresh f ∷ []
walk f (cur ∷ next ∷ bs) =
    let rest = walk f (next ∷ bs) in
    if ltb next.freq f then cur ∷ rest else cur ∷ fresh f ∷ next ∷ bs

pub insert_general : ℕ → List Bucket → List Bucket
unfolding walk
insert_general f [] = fresh f ∷ []
insert_general f (b ∷ bs) = if ltb f b.freq then fresh f ∷ b ∷ bs else walk f (b ∷ bs)

pub create_bucket : ℕ → Option ℕ → List Bucket → List Bucket
unfolding splice_after insert_general
create_bucket f none bs = insert_general f bs
create_bucket f (some a) bs = if a + 1 == f then splice_after a f bs else insert_general f bs

pub get_or_create_bucket : ℕ → Option ℕ → List Bucket → List Bucket
unfolding has_freq create_bucket
get_or_create_bucket f after bs = if has_freq f bs then bs else create_bucket f after bs

pub push_tail : ℕ → Bytes → List Bucket → List Bucket
push_tail f k [] = []
push_tail f k (b ∷ bs) =
    if b.freq == f then record b { keys = b.keys ++ k ∷ [] } ∷ bs else b ∷ push_tail f k bs

pub detach : ℕ → Bytes → List Bucket → List Bucket
unfolding erase
detach f k [] = []
detach f k (b ∷ bs) =
    if b.freq == f then record b { keys = erase k b.keys } ∷ bs else b ∷ detach f k bs

abbrev pub is_empty : List Bytes → Bool
is_empty [] = true
is_empty (x ∷ xs) = false

-- `if b.empty() { lfuUnlinkBucket(b) }`
pub unlink_if_empty : ℕ → List Bucket → List Bucket
unlink_if_empty f [] = []
unlink_if_empty f (b ∷ bs) =
    if b.freq == f then (if is_empty b.keys then bs else b ∷ bs) else b ∷ unlink_if_empty f bs

unfoldable pub lfu_add : ℕ → Bytes → Lfu → Lfu
unfolding get_or_create_bucket push_tail
lfu_add freq k l = record {
  buckets = push_tail freq k (get_or_create_bucket freq none l.buckets);
  size = l.size + 1;
}

pub remove_from : Option ℕ → Bytes → Lfu → Lfu
unfolding detach unlink_if_empty
remove_from none k l = l
remove_from (some f) k l = record {
  buckets = unlink_if_empty f (detach f k l.buckets);
  size = l.size - 1;
}

unfoldable pub lfu_remove : Bytes → Lfu → Lfu
unfolding remove_from bucket_of
lfu_remove k l = remove_from (bucket_of k l.buckets) k l

pub relocate_from : Option ℕ → ℕ → Bytes → Lfu → Lfu
unfolding detach push_tail get_or_create_bucket unlink_if_empty
relocate_from none freq k l = l
relocate_from (some f) freq k l =
    let out = detach f k l.buckets in
    let after = if f + 1 == freq then some f else none in
    record l {
      buckets =
          if f == freq
          then push_tail f k out
          else unlink_if_empty f (push_tail freq k (get_or_create_bucket freq after out));
    }

unfoldable pub lfu_relocate : ℕ → Bytes → Lfu → Lfu
unfolding relocate_from bucket_of
lfu_relocate freq k l = relocate_from (bucket_of k l.buckets) freq k l

-- The loops over a list that skip what is no candidate.
unfoldable pub first_ok : (Bytes → Bool) → List Bytes → Option Bytes
first_ok p [] = none
first_ok p (k ∷ ks) = if p k then some k else first_ok p ks

unfoldable pub first_in : (Bytes → Bool) → List Bucket → Option Bytes
unfolding first_ok
first_in p [] = none
first_in p (b ∷ bs) = elim (first_ok p b.keys) [ some k ↦ some k | none ↦ first_in p bs ]

unfoldable pub lfu_pick : (Bytes → Bool) → Lfu → Option Bytes
unfolding first_in
lfu_pick p l = if l.size == 0 then none else first_in p l.buckets
