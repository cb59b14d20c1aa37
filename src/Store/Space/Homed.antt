-- ===== src/Store/Space/Homed.antt =====
-- `ensureSpace` (internal/store/ops.go) leaves every key in the shard of its hash, and in the lists.
use cache_custom.Prelude.{
  refl, false, ap, ◌∙◌, ◌≡◌, ℕ, zero, suc, ◌<◌, Bool, arith, length, Bool-cases, inl, inr, ltb,
}
use cache_custom.Bytes.{Bytes}
use cache_custom.Policy.{is_noeviction}
use cache_custom.Store.{is_global, Db, Strategy, global_track, steal, shard_budget}
use cache_custom.Store.Homed.{IsTidy}
use cache_custom.Store.Evict.{evict_one_global, evict_one_local}
use cache_custom.Store.Evict.Homed.{
  Stays, Stays-refl, Stays-trans, evict_one_global-Stays, evict_one_local-Stays, steal-Stays,
}
use cache_custom.Store.Space.{
  make_room, rounds, over_tenant, over_shard, evict_or_steal, evict_for, ceiling, full,
  ensure_space,
}

make_room-Stays :
    (fuel : ℕ) (test : Db → Bool) (evict : Db → Bool × Db) (first db : Db)
    → Stays first db
    → ((a : Db) → Stays first a → Stays a (evict a).1)
    → Stays first (make_room fuel test evict db).1
unfolding make_room
make_room-Stays zero test evict first db h each = h
make_room-Stays (suc fuel) test evict first db h each = elim (Bool-cases (test db)) [
  | inr room ↦ rw (room, make_room) h
  | inl full ↦
      let p = Stays-trans h (each db h) in
      rw (full, make_room)
        (elim (Bool-cases (evict db).0) [
          | inr stuck ↦ rw stuck p
          | inl done ↦ rw done (make_room-Stays fuel test evict first (evict db).1 p each)
        ])
]

module _ (intn : ℕ → ℕ → ℕ) (si : ℕ) (key : Bytes) where
  pub evict_or_steal-Stays :
      (db : Db)
      → si < length db.shards
      → is_global db.strategy ≡ false
      → IsTidy db
      → Stays db (evict_or_steal intn si key db).1
  unfolding evict_or_steal
  evict_or_steal-Stays db less local h =
      let here = evict_one_local-Stays intn key si db less local h in
      elim (Bool-cases (evict_one_local intn si key db).0) [
        | inl done ↦ rw (done, evict_or_steal) here
        | inr failed ↦
            rw (failed, evict_or_steal)
              (Stays-trans here
                (steal-Stays intn key si _ (ap is_global here.strategy ∙ local) here.tidy))
      ]

  evict_for-Stays :
      (s : Strategy) (need : ℕ) (db : Db)
      → db.strategy ≡ s
      → si < length db.shards
      → IsTidy db
      → Stays db (evict_for intn s si key need db).1
  unfolding evict_for is_global
  evict_for-Stays global_track need db e less h =
      make_room-Stays (rounds db) (over_tenant need) (evict_one_global intn key) db db
        (Stays-refl db h) λ a g. evict_one_global-Stays intn key a g.tidy
  evict_for-Stays steal need db e less h =
      make_room-Stays (rounds db) (over_tenant need) (evict_or_steal intn si key) db db
        (Stays-refl db h)
        λ a g. evict_or_steal-Stays a (omega (arith, g.size)) (ap is_global (g.strategy ∙ e)) g.tidy
  evict_for-Stays shard_budget need db e less h =
      make_room-Stays (rounds db) (over_shard si need) (evict_one_local intn si key) db db
        (Stays-refl db h)
        λ a g.
          evict_one_local-Stays intn key si a (omega (arith, g.size))
            (ap is_global (g.strategy ∙ e)) g.tidy

  pub ensure_space-IsTidy :
      (need new_size : ℕ) (db : Db)
      → si < length db.shards
      → IsTidy db
      → IsTidy (ensure_space intn si key need new_size db).1
  unfolding ensure_space
  ensure_space-IsTidy need new_size db less h =
      elim (Bool-cases (ltb (ceiling db.strategy si db) new_size)) [
        | inl large ↦ rw large (h)
        | inr small ↦ rw small (elim (Bool-cases (is_noeviction db.policy)) [
          | inr evicts ↦ rw evicts (evict_for-Stays db.strategy need db refl less h).tidy
          | inl never ↦ rw never (elim (Bool-cases (full db.strategy si need db)) [
            | inl no_room ↦ rw no_room (h)
            | inr room ↦ rw room (h)
          ])
        ])
      ]
