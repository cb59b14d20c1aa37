-- ===== src/Store/Write/Ends.antt =====
-- `Set` (internal/store/ops.go) comes to an outcome of the program.
use cache_custom.Prelude.{
  ℕ, ◌≡◌, ◌≢◌, refl, ap, ◌∙◌, true, ◌&&◌, Option, none, some, ltb, Bool-cases, inl, inr, arith,
}
use cache_custom.Bytes.{Bytes}
use cache_custom.Shard.{Entry, mem_size}
use cache_custom.Store.{Db, find, shard_index, is_global, remove_from_shard, clear_expiry}
use cache_custom.Store.Evict.Progress.{reads_lists}
use cache_custom.Store.Find.{shard_index-lt}
use cache_custom.Store.Homed.{IsTidy}
use cache_custom.Store.Space.{Room, ok, oom, out_of_fuel}
use cache_custom.Store.Space.Ends.{ensure_space-ends}
use cache_custom.Store.Write.{
  SetOptions, fuel, write_fetched, after_room, needed, kept_expiry, set_expiry, set_purged,
  drop_due, purge, set,
}
use cache_custom.Store.Write.Homed.{purge-IsTidy}
use cache_custom.Store.Write.Laws.{blocked}

policy-drop_due :
    (now : ℕ) (key : Bytes) (o : Option Entry) (db : Db)
    → (drop_due now key o db).policy ≡ db.policy
unfolding drop_due remove_from_shard clear_expiry
policy-drop_due now key none db = refl
policy-drop_due now key (some e) db = ground arith

policy-purge : (now : ℕ) (key : Bytes) (db : Db) → (purge now key db).policy ≡ db.policy
unfolding purge
policy-purge now key db = policy-drop_due now key (find key db) db

module _ (key value : Bytes) (opt : SetOptions) where
  after_room-ends :
      (n : ℕ) (t : Option ℕ) (r : Room × Db)
      → r.0 ≢ out_of_fuel
      → (after_room key value n t opt r).0 ≢ fuel
  unfolding after_room write_fetched
  after_room-ends n t (ok, db) h e = at_entry (find key db) e
    where
      at_entry : (o : Option Entry) → (write_fetched key value n t opt o db).0 ≢ fuel
      at_entry none e = ground arith
      at_entry (some f) e = ground arith
  after_room-ends n t (oom, db) h e = cc
  after_room-ends n t (out_of_fuel, db) h e = h refl

  module _ (intn : ℕ → ℕ → ℕ) where
    set_purged-ends :
        (n : ℕ) (t : Option ℕ) (o : Option Entry) (db : Db)
        → reads_lists db.policy ≡ true
        → IsTidy db
        → (set_purged intn key value n t opt o db).0 ≢ fuel
    unfolding set_purged
    set_purged-ends n t o db r h = elim (Bool-cases (blocked opt o)) [
      | inl stop ↦ rw stop (λ e. cc)
      | inr go ↦ rw go (
          after_room-ends n (kept_expiry opt t o) _ (
            ensure_space-ends intn (shard_index key db) key db r
              (shard_index-lt key db h.homed.some_shard) (needed n o) n h))
    ]

    pub set-ends :
        (now : ℕ) (db : Db)
        → reads_lists db.policy ≡ true
        → IsTidy db
        → (set intn now key value opt db).0 ≢ fuel
    unfolding set
    set-ends now db r h =
        elim (Bool-cases (is_global db.strategy && ltb db.max_memory (mem_size key value))) [
          | inl large ↦ rw large (λ e. cc)
          | inr small ↦ rw small (
              set_purged-ends (mem_size key value) (set_expiry now db.max_ttl opt)
                (find key (purge now key db)) (purge now key db)
                (ap reads_lists (policy-purge now key db) ∙ r) (purge-IsTidy now key db h))
        ]
