-- ===== src/Store/Space/Bound.antt =====
-- What `ensureSpace` promises: where it answers with room, the write fits.
use cache_custom.Prelude.{
  ℕ, zero, suc, ◌<◌, ◌≡◌, refl, Bool, false, arith, length, Bool-cases, inl, inr, ltb,
}
use cache_custom.Bytes.{Bytes}
use cache_custom.Policy.{is_noeviction}
use cache_custom.Store.{Db, Strategy, global_track, steal, shard_budget}
use cache_custom.Store.Evict.{evict_one_global, evict_one_local}
use cache_custom.Store.Evict.Laws.{evict_one_global-Shrinks, evict_one_local-Shrinks, steal-Shrinks}
use cache_custom.Store.Shrinks.{Same-refl, Shrinks, Same-Shrinks, Shrinks-trans}
use cache_custom.Store.Space.{
  ok, over_tenant, over_shard, make_room, rounds, evict_or_steal, evict_for, full, ceiling,
  ensure_space,
}

-- The loop ends with `ok` only where its test fails.
make_room-ok :
    (fuel : ℕ) (test : Db → Bool) (evict : Db → Bool × Db) (db : Db)
    → (make_room fuel test evict db).0 ≡ ok
    → test (make_room fuel test evict db).1 ≡ false
unfolding make_room
make_room-ok zero test evict db e = absurd (cc)
make_room-ok (suc fuel) test evict db e = ground (arith, make_room-ok fuel test evict (evict db).1)

make_room-Shrinks :
    (skip : Bytes) (fuel : ℕ) (test : Db → Bool) (evict : Db → Bool × Db) (db : Db) (n : ℕ)
    → length db.shards ≡ n
    → ((a : Db) → length a.shards ≡ n → Shrinks skip a (evict a).1)
    → Shrinks skip db (make_room fuel test evict db).1
unfolding make_room
make_room-Shrinks skip zero test evict db n e s = Same-Shrinks (Same-refl db)
make_room-Shrinks skip (suc fuel) test evict db n e s = elim (Bool-cases (test db)) [
  | inr stop ↦ rw (stop, make_room) (Same-Shrinks (Same-refl db))
  | inl go ↦
      rw (go, make_room)
        (elim (Bool-cases (evict db).0) [
          | inr failed ↦ rw failed (s db e)
          | inl done ↦ rw done (
              Shrinks-trans (s db e) (
                make_room-Shrinks skip fuel test evict (evict db).1 n (omega (arith, (s db e).size))
                  s))
        ])
]

module _ (intn : ℕ → ℕ → ℕ) (si : ℕ) (key : Bytes) where
  pub evict_or_steal-Shrinks :
      (db : Db) → si < length db.shards → Shrinks key db (evict_or_steal intn si key db).1
  unfolding evict_or_steal
  evict_or_steal-Shrinks db h =
      let here = evict_one_local-Shrinks intn key si db h in
      elim (Bool-cases (evict_one_local intn si key db).0) [
        | inl done ↦ rw (done, evict_or_steal) here
        | inr failed ↦
            rw (failed, evict_or_steal)
              (Shrinks-trans here (steal-Shrinks intn key si _ (omega (arith, here.size))))
      ]

  evict_for-Shrinks :
      (s : Strategy) (need : ℕ) (db : Db)
      → si < length db.shards
      → Shrinks key db (evict_for intn s si key need db).1
  unfolding evict_for
  evict_for-Shrinks global_track need db h =
      make_room-Shrinks key (rounds db) (over_tenant need) (evict_one_global intn key) db
        (length db.shards) refl λ a e. evict_one_global-Shrinks intn key a (omega arith)
  evict_for-Shrinks steal need db h =
      make_room-Shrinks key (rounds db) (over_tenant need) (evict_or_steal intn si key) db
        (length db.shards) refl λ a e. evict_or_steal-Shrinks a (omega arith)
  evict_for-Shrinks shard_budget need db h =
      make_room-Shrinks key (rounds db) (over_shard si need) (evict_one_local intn si key) db
        (length db.shards) refl λ a e. evict_one_local-Shrinks intn key si a (omega arith)

  -- ensureSpace, whatever its outcome, policy and strategy, keeps the configuration, the mutations
  -- given to the sink, the number of shards and the entry of the key that is written, and every
  -- other key keeps its entry or is gone.
  pub ensure_space-Shrinks :
      (need new_size : ℕ) (db : Db)
      → si < length db.shards
      → Shrinks key db (ensure_space intn si key need new_size db).1
  unfolding ensure_space
  ensure_space-Shrinks need new_size db h =
      elim (Bool-cases (ltb (ceiling db.strategy si db) new_size)) [
        | inl large ↦ rw large (Same-Shrinks (Same-refl db))
        | inr small ↦ rw small (elim (Bool-cases (is_noeviction db.policy)) [
          | inr evicts ↦ rw evicts (evict_for-Shrinks db.strategy need db h)
          | inl never ↦ rw never (elim (Bool-cases (full db.strategy si need db)) [
            | inl no_room ↦ rw no_room (Same-Shrinks (Same-refl db))
            | inr room ↦ rw room (Same-Shrinks (Same-refl db))
          ])
        ])
      ]

  evict_for-fits :
      (s : Strategy) (need : ℕ) (db : Db)
      → (evict_for intn s si key need db).0 ≡ ok
      → full s si need (evict_for intn s si key need db).1 ≡ false
  unfolding evict_for
  evict_for-fits global_track need db e =
      make_room-ok (rounds db) (over_tenant need) (evict_one_global intn key) db e
  evict_for-fits steal need db e =
      make_room-ok (rounds db) (over_tenant need) (evict_or_steal intn si key) db e
  evict_for-fits shard_budget need db e =
      make_room-ok (rounds db) (over_shard si need) (evict_one_local intn si key) db e

  -- Where ensureSpace ends with room, the counter that the strategy limits (of the tenant, or of
  -- the shard under the shard budget) and the needed bytes together, as a uint64 sum, do not pass
  -- the limit.
  pub ensure_space-fits :
      (need new_size : ℕ) (db : Db)
      → (ensure_space intn si key need new_size db).0 ≡ ok
      → full db.strategy si need (ensure_space intn si key need new_size db).1 ≡ false
  unfolding ensure_space
  ensure_space-fits need new_size db e = ground (arith, evict_for-fits db.strategy need db)
