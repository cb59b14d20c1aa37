-- ===== src/Store/Write/Sets.antt =====
-- `Set` (internal/store/ops.go) leaves every key in the shard of its hash, and in the lists.
use cache_custom.Prelude.{refl, ◌≡◌, ℕ, ◌&&◌, Option, none, some, ltb, Bool-cases, inl, inr}
use cache_custom.Bytes.{Bytes}
use cache_custom.Shard.{Entry, mem_size}
use cache_custom.Store.{Db, find, shard_index, is_global}
use cache_custom.Store.Find.{shard_index-lt}
use cache_custom.Store.Homed.{IsTidy}
use cache_custom.Store.Space.{Room, ok, oom, out_of_fuel}
use cache_custom.Store.Space.Homed.{ensure_space-IsTidy}
use cache_custom.Store.Write.{
  SetOptions, write_fetched, after_room, needed, kept_expiry, set_expiry, set_purged, purge, set,
}
use cache_custom.Store.Write.Laws.{blocked}
use cache_custom.Store.Write.Homed.{write_new-IsTidy, write_over-IsTidy, purge-IsTidy}

module _ (key value : Bytes) (opt : SetOptions) where
  write_fetched-IsTidy :
      (n : ℕ) (t : Option ℕ) (o : Option Entry) (db : Db)
      → find key db ≡ o
      → IsTidy db
      → IsTidy (write_fetched key value n t opt o db).1
  unfolding write_fetched
  write_fetched-IsTidy n t none db e h = elim (Bool-cases opt.xx) [
    | inl must ↦ rw must h
    | inr may ↦ rw may (write_new-IsTidy key db h value n t e)
  ]
  write_fetched-IsTidy n t (some f) db e h = elim (Bool-cases opt.nx) [
    | inl must ↦ rw must h
    | inr may ↦ rw may (write_over-IsTidy key db h value n t opt f e)
  ]

  after_room-IsTidy :
      (n : ℕ) (t : Option ℕ) (r : Room × Db)
      → IsTidy r.1
      → IsTidy (after_room key value n t opt r).1
  unfolding after_room
  after_room-IsTidy n t (ok, db) e = write_fetched-IsTidy n t (find key db) db refl e
  after_room-IsTidy n t (oom, db) e = e
  after_room-IsTidy n t (out_of_fuel, db) e = e

  set_purged-IsTidy :
      (intn : ℕ → ℕ → ℕ) (n : ℕ) (t : Option ℕ) (o : Option Entry) (db : Db)
      → IsTidy db
      → IsTidy (set_purged intn key value n t opt o db).1
  unfolding set_purged
  set_purged-IsTidy intn n t o db h = elim (Bool-cases (blocked opt o)) [
    | inl stop ↦ rw stop h
    | inr go ↦ rw go (
        after_room-IsTidy n (kept_expiry opt t o) _ (
          ensure_space-IsTidy intn (shard_index key db) key (needed n o) n db
            (shard_index-lt key db h.homed.some_shard) h))
  ]

  pub set-IsTidy :
      (intn : ℕ → ℕ → ℕ) (now : ℕ) (db : Db) → IsTidy db → IsTidy (set intn now key value opt db).1
  unfolding set
  set-IsTidy intn now db h =
      elim (Bool-cases (is_global db.strategy && ltb db.max_memory (mem_size key value))) [
        | inl large ↦ rw large h
        | inr small ↦ rw small (
            set_purged-IsTidy intn (mem_size key value) (set_expiry now db.max_ttl opt)
              (find key (purge now key db)) (purge now key db) (purge-IsTidy now key db h))
      ]
