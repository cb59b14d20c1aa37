-- ===== src/Lfu/Tests.antt =====
-- The frequency buckets on concrete keys.
use cache_custom.Prelude.{ite, false, ◌≡◌, ◌≤◌, refl, Bool, true, none, some, arith, ℕ_discrete}
use cache_custom.Bytes.{Bytes, codes, dec_bytes}
use cache_custom.Lfu.{
  Lfu, empty_lfu, has_freq, bucket_of, member, get_or_create_bucket, push_tail, detach,
  unlink_if_empty, lfu_add, lfu_remove, lfu_relocate, first_ok, first_in, lfu_pick,
}
use cache_custom.Lfu.Order.{ordered, occurs}
use cache_custom.Lfu.Valid.{IsLfu, Moves, lfu_add_lem, lfu_remove_lem, lfu_relocate_lem}
use cache_custom.Lfu.Victim.{lfu_pick_least}

abbrev key_a : Bytes
key_a = codes "a"

abbrev key_b : Bytes
key_b = codes "b"

runs : Unit {0}
unfolding has_freq bucket_of member get_or_create_bucket push_tail detach unlink_if_empty lfu_add
    lfu_remove lfu_relocate first_ok first_in lfu_pick ordered occurs dec_bytes ℕ_discrete
runs = tt

abbrev one : Lfu
one = lfu_add 1 key_a empty_lfu

abbrev two : Lfu
two = lfu_relocate 2 key_b (lfu_add 1 key_b one)

empty-IsLfu : IsLfu empty_lfu.buckets
unfolding runs
empty-IsLfu = record { order = refl; once = λ k. omega arith }

one-IsLfu : IsLfu one.buckets
unfolding runs
one-IsLfu = (lfu_add_lem 1 key_a empty_lfu empty-IsLfu refl).0

both-IsLfu : IsLfu (lfu_add 1 key_b one).buckets
unfolding runs
both-IsLfu = (lfu_add_lem 1 key_b one one-IsLfu refl).0

b_at_one : bucket_of key_b (lfu_add 1 key_b one).buckets ≡ some 1
unfolding runs
b_at_one = refl

lfu_relocate_lem_example :
    IsLfu two.buckets × Moves two.buckets (lfu_add 1 key_b one).buckets key_b (some 2)
lfu_relocate_lem_example = lfu_relocate_lem 2 1 key_b (lfu_add 1 key_b one) both-IsLfu b_at_one

b_unknown : bucket_of key_b one.buckets ≡ none
unfolding runs
b_unknown = refl

lfu_remove_lem_example :
    IsLfu (lfu_remove key_a two).buckets
    × Moves (lfu_remove key_a two).buckets two.buckets key_a none
lfu_remove_lem_example = lfu_remove_lem key_a two lfu_relocate_lem_example.0

abbrev any : Bytes → Bool
any k = true

picks_a : lfu_pick any two ≡ some key_a
unfolding runs
picks_a = refl

a_at_one : bucket_of key_a two.buckets ≡ some 1
unfolding runs
a_at_one = refl

b_at_two : bucket_of key_b two.buckets ≡ some 2
unfolding runs
b_at_two = refl

lfu_pick_least_example : 1 ≤ 2
lfu_pick_least_example =
    lfu_pick_least any two key_a key_b 1 2 lfu_relocate_lem_example.0 picks_a a_at_one refl b_at_two

abbrev only_c : Bytes → Bool
only_c k = ite (dec_bytes k (codes "c")) true false

picks_nothing : lfu_pick only_c two ≡ none
unfolding runs
picks_nothing = refl
