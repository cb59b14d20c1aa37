-- ===== src/Store/Space/Ends.antt =====
-- The loop of `ensureSpace` (internal/store/ops.go) ends under a policy that reads the lists: the
-- rounds given to it are enough.
use cache_custom.Prelude.{
  ℕ, zero, suc, ◌<◌, ◌≡◌, ◌≢◌, refl, ap, ◌∙◌, Bool, true, false, arith, length, Bool-cases, inl,
  inr, ltb,
}
use cache_custom.Bytes.{Bytes}
use cache_custom.Policy.{is_noeviction}
use cache_custom.Store.{Db, Strategy, global_track, steal, shard_budget, count_keys, is_global}
use cache_custom.Store.Evict.{evict_one_global, evict_one_local}
use cache_custom.Store.Evict.Homed.{Stays, evict_one_global-Stays, evict_one_local-Stays}
use cache_custom.Store.Evict.Laws.{evict_one_global-Shrinks, evict_one_local-Shrinks}
use cache_custom.Store.Evict.Progress.{
  reads_lists, Fewer, evict_one_global-Fewer, evict_one_local-Fewer, steal-Fewer, then-Fewer,
}
use cache_custom.Store.Homed.{IsTidy}
use cache_custom.Store.Space.{
  out_of_fuel, make_room, rounds, over_tenant, over_shard, evict_or_steal, evict_for, ceiling, full,
  ensure_space,
}
use cache_custom.Store.Space.Bound.{evict_or_steal-Shrinks}
use cache_custom.Store.Space.Homed.{evict_or_steal-Stays}

-- What the loop keeps: as many shards, the strategy and the policy, and lists that are right.
record IsLike (first a : Db) : Type 0 where
  size : length a.shards ≡ length first.shards
  strategy : a.strategy ≡ first.strategy
  policy : a.policy ≡ first.policy
  tidy : IsTidy a

IsLike-after : {first a b : Db} → IsLike first a → Stays a b → b.policy ≡ a.policy → IsLike first b
IsLike-after l s p = record {
  size = s.size ∙ l.size;
  strategy = s.strategy ∙ l.strategy;
  policy = p ∙ l.policy;
  tidy = s.tidy;
}

make_room-ends :
    (first : Db) (fuel : ℕ) (test : Db → Bool) (evict : Db → Bool × Db) (db : Db)
    → count_keys db.shards < fuel
    → IsLike first db
    → ((a : Db) → IsLike first a → Fewer a (evict a) × IsLike first (evict a).1)
    → (make_room fuel test evict db).0 ≢ out_of_fuel
unfolding make_room
make_room-ends first zero test evict db less l each = absurd (omega arith)
make_room-ends first (suc fuel) test evict db less l each = elim (Bool-cases (test db)) [
  | inr room ↦ rw (room, make_room) (λ e. cc)
  | inl full ↦
      let (fewer, like) = each db l in
      rw (full, make_room)
        (elim (Bool-cases (evict db).0) [
          | inr stuck ↦ rw stuck (λ e. cc)
          | inl done ↦ rw done (
              make_room-ends first fuel test evict (evict db).1 (omega (arith, fewer.less done))
                like each)
        ])
]

module _ (intn : ℕ → ℕ → ℕ) (si : ℕ) (key : Bytes) (first : Db)
    (reads : reads_lists first.policy ≡ true) (in_range : si < length first.shards) where
  global-step :
      (a : Db)
      → is_global first.strategy ≡ true
      → IsLike first a
      → Fewer a (evict_one_global intn key a) × IsLike first (evict_one_global intn key a).1
  global-step a g l = (
    evict_one_global-Fewer intn key a (ap reads_lists l.policy ∙ reads)
        (ap is_global l.strategy ∙ g) l.tidy,
    IsLike-after l (evict_one_global-Stays intn key a l.tidy) (
        ap (λ c. c.policy)
          (evict_one_global-Shrinks intn key a (omega (arith, l.size, in_range))).conf),
  )

  local-step :
      (a : Db)
      → is_global first.strategy ≡ false
      → IsLike first a
      → Fewer a (evict_one_local intn si key a) × IsLike first (evict_one_local intn si key a).1
  local-step a g l =
      let less : si < length a.shards = omega (arith, l.size, in_range) in
      (
        evict_one_local-Fewer intn key si a less (ap reads_lists l.policy ∙ reads) l.tidy,
        IsLike-after l
            (evict_one_local-Stays intn key si a less (ap is_global l.strategy ∙ g) l.tidy)
            (ap (λ c. c.policy) (evict_one_local-Shrinks intn key si a less).conf),
      )

  steal-step :
      (a : Db)
      → is_global first.strategy ≡ false
      → IsLike first a
      → Fewer a (evict_or_steal intn si key a) × IsLike first (evict_or_steal intn si key a).1
  unfolding evict_or_steal
  steal-step a g l =
      let less : si < length a.shards = omega (arith, l.size, in_range) in
      let (fewer, like) = local-step a g l in
      (
        stolen fewer like,
        IsLike-after l
            (evict_or_steal-Stays intn si key a less (ap is_global l.strategy ∙ g) l.tidy)
            (ap (λ c. c.policy) (evict_or_steal-Shrinks intn si key a less).conf),
      )
    where
      stolen :
          Fewer a (evict_one_local intn si key a)
          → IsLike first (evict_one_local intn si key a).1
          → Fewer a (evict_or_steal intn si key a)
      stolen fewer like = elim (Bool-cases (evict_one_local intn si key a).0) [
        | inl done ↦ rw (done, evict_or_steal) fewer
        | inr failed ↦
            rw (failed, evict_or_steal)
              (then-Fewer intn key fewer (
                steal-Fewer intn key si _ (ap reads_lists like.policy ∙ reads)
                  (ap is_global like.strategy ∙ g) like.tidy))
      ]

  evict_for-ends :
      (s : Strategy) (need : ℕ)
      → first.strategy ≡ s
      → IsTidy first
      → (evict_for intn s si key need first).0 ≢ out_of_fuel
  unfolding evict_for is_global
  evict_for-ends s need e h = by_strategy s e
    where
      start : IsLike first first
      start = record { size = refl; strategy = refl; policy = refl; tidy = h }

      by_strategy :
          (s : Strategy) → first.strategy ≡ s → (evict_for intn s si key need first).0 ≢ out_of_fuel
      by_strategy global_track e =
          make_room-ends first (rounds first) (over_tenant need) (evict_one_global intn key) first
            (omega arith) start λ a l. global-step a (ap is_global e) l
      by_strategy steal e =
          make_room-ends first (rounds first) (over_tenant need) (evict_or_steal intn si key) first
            (omega arith) start λ a l. steal-step a (ap is_global e) l
      by_strategy shard_budget e =
          make_room-ends first (rounds first) (over_shard si need) (evict_one_local intn si key)
            first (omega arith) start λ a l. local-step a (ap is_global e) l

  pub ensure_space-ends :
      (need new_size : ℕ)
      → IsTidy first
      → (ensure_space intn si key need new_size first).0 ≢ out_of_fuel
  unfolding ensure_space
  ensure_space-ends need new_size h =
      elim (Bool-cases (ltb (ceiling first.strategy si first) new_size)) [
        | inl large ↦ rw large (λ e. cc)
        | inr small ↦ rw small (elim (Bool-cases (is_noeviction first.policy)) [
          | inr evicts ↦ rw evicts (evict_for-ends first.strategy need refl h)
          | inl never ↦ rw never (elim (Bool-cases (full first.strategy si need first)) [
            | inl no_room ↦ rw no_room (λ e. cc)
            | inr room ↦ rw room (λ e. cc)
          ])
        ])
      ]
