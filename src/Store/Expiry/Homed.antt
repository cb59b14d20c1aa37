-- ===== src/Store/Expiry/Homed.antt =====
-- Changes of expiry, and the periodic expiry, leave every key in the shard of its hash,
-- and in the lists (internal/store/ops.go, expiry.go).
use cache_custom.Prelude.{
  ℕ, zero, suc, ◌+◌, ◌≡◌, refl, ap, Option, none, some, List, [], ◌∷◌, arith, length, ltb,
  Bool-cases, inl, inr,
}
use cache_custom.Prelude.Int.{ℤ, is_pos}
use cache_custom.Bytes.{Bytes}
use cache_custom.Dict
use cache_custom.Dict.{lookup-insert}
use cache_custom.Shard.{Entry, expired, ttl_update}
use cache_custom.Store.{
  Db, find, shard_at, shard_index, clear_expiry, note_expiry, emit, persist_op,
}
use cache_custom.Store.Homed.{IsTidy, shards-IsTidy}
use cache_custom.Shard.Pick.{is_some}
use cache_custom.Shard.Listed.{insert-IsListed}
use cache_custom.Store.Find.{shard_index-lt}
use cache_custom.Store.Write.Homed.{put_again-IsTidy, here_of_find, removed-IsTidy}
use cache_custom.Heap.{ExpItem}
use cache_custom.Store.Write.Homed.{del-IsTidy}
use cache_custom.Store.Expiry.{
  put_expiry, set_expire_at_found, set_expire_at, cap_duration, expire, persist_found, persist,
  delete_found, delete_if_expired, drop_stale_at, drop_stale, expire_root, expire_due_fuel,
  expire_due,
}

module _ (key : Bytes) (db : Db) (h : IsTidy db) where
  delete_found-IsTidy : (now : ℕ) (o : Option Entry) → IsTidy (delete_found now key o db).1
  unfolding delete_found
  delete_found-IsTidy now none = h
  delete_found-IsTidy now (some e) = elim (Bool-cases (expired e now)) [
    | inl due ↦ rw due (removed-IsTidy key db h e)
    | inr fresh ↦ rw fresh h
  ]

  put_expiry-IsTidy :
      (e : Entry) (t : Option ℕ) → find key db ≡ some e → IsTidy (put_expiry key e t db)
  unfolding put_expiry ttl_update
  put_expiry-IsTidy e t there =
      let home = shard_at (shard_index key db) db in
      put_again-IsTidy key db h _ (record e { expires_at = t })
        (λ k. lookup-insert key k _ home.data')
        (insert-IsListed key _ home
          (h.listed (shard_index key db) (shard_index-lt key db h.homed.some_shard)) t
          (here_of_find key db h e there))
        (put_expiry key e t db) refl (ap is_some there) refl refl refl

  set_expire_at_found-IsTidy :
      (now at : ℕ) (o : Option Entry)
      → find key db ≡ o
      → IsTidy (set_expire_at_found now key at o db).1
  unfolding set_expire_at_found emit note_expiry
  set_expire_at_found-IsTidy now at none there = h
  set_expire_at_found-IsTidy now at (some e) there = elim (Bool-cases (expired e now)) [
    | inl due ↦ rw due (removed-IsTidy key db h e)
    | inr fresh ↦ rw fresh (
        shards-IsTidy {a = put_expiry key e (some at) db} (ground arith) (ground arith)
          (ground arith) (ground arith) (put_expiry-IsTidy e (some at) there))
  ]

  persisted-IsTidy :
      (e : Entry) (t : Option ℕ)
      → find key db ≡ some e
      → IsTidy
          (elim t as (λ _. ℕ × Db) [
            | none ↦ (0, db)
            | some _ ↦ (1, emit (persist_op key) (clear_expiry key (put_expiry key e none db)))
          ]).1
  unfolding emit clear_expiry
  persisted-IsTidy e none there = h
  persisted-IsTidy e (some t) there =
      shards-IsTidy {a = put_expiry key e none db} (ground arith) (ground arith) (ground arith)
        (ground arith) (put_expiry-IsTidy e none there)

  persist_found-IsTidy :
      (now : ℕ) (o : Option Entry) → find key db ≡ o → IsTidy (persist_found now key o db).1
  unfolding persist_found
  persist_found-IsTidy now none there = h
  persist_found-IsTidy now (some e) there = elim (Bool-cases (expired e now)) [
    | inl due ↦ rw due (removed-IsTidy key db h e)
    | inr fresh ↦ rw fresh (persisted-IsTidy e e.expires_at there)
  ]

  pub set_expire_at-IsTidy : (now at : ℕ) → IsTidy (set_expire_at now key at db).1
  unfolding set_expire_at
  set_expire_at-IsTidy now at = set_expire_at_found-IsTidy now at (find key db) refl

  pub persist-IsTidy : (now : ℕ) → IsTidy (persist now key db).1
  unfolding persist
  persist-IsTidy now = persist_found-IsTidy now (find key db) refl

  pub delete_if_expired-IsTidy : (now : ℕ) → IsTidy (delete_if_expired now key db).1
  unfolding delete_if_expired
  delete_if_expired-IsTidy now = delete_found-IsTidy now (find key db)

pub expire-IsTidy :
    (now now' : ℕ) (key : Bytes) (d : ℤ) (db : Db) → IsTidy db → IsTidy (expire now now' key d db).1
unfolding expire
expire-IsTidy now now' key d db h = elim (Bool-cases (is_pos d)) [
  | inl some_time ↦
      rw some_time (set_expire_at-IsTidy key db h now' (now + cap_duration db.max_ttl d))
  | inr no_time ↦ rw no_time (del-IsTidy now (key ∷ []) db h)
]

drop_stale-IsTidy : (it : ExpItem) (db : Db) → IsTidy db → IsTidy (drop_stale it db)
unfolding drop_stale
drop_stale-IsTidy it db h = at_place (Dict.lookup it.key db.exp.idx)
  where
    at_place : (o : Option ℕ) → IsTidy (drop_stale_at o it db)
    at_place none = h
    at_place (some i) =
        unfold drop_stale_at in
        shards-IsTidy (ground arith) (ground arith) (ground arith) (ground arith) h

expire_root-IsTidy :
    (now : ℕ) (its : List ExpItem) (removed : ℕ) (db : Db) (next : ℕ → Db → ℕ × Db)
    → IsTidy db
    → ((n : ℕ) (a : Db) → IsTidy a → IsTidy (next n a).1)
    → IsTidy (expire_root now its removed db next).1
unfolding expire_root
expire_root-IsTidy now [] removed db next h each = h
expire_root-IsTidy now (it ∷ its) removed db next h each = elim (Bool-cases (ltb now it.at)) [
  | inl early ↦ rw early h
  | inr due ↦
      let gone = delete_if_expired-IsTidy it.key db h now in
      rw due (elim (Bool-cases (delete_if_expired now it.key db).0) [
        | inl yes_gone ↦ rw yes_gone (each (removed + 1) (delete_if_expired now it.key db).1 gone)
        | inr kept ↦ rw kept (
            each removed (drop_stale it (delete_if_expired now it.key db).1)
              (drop_stale-IsTidy it (delete_if_expired now it.key db).1 gone))
      ])
]

expire_due_fuel-IsTidy :
    (fuel now limit removed : ℕ) (db : Db)
    → IsTidy db
    → IsTidy (expire_due_fuel fuel now limit removed db).1
unfolding expire_due_fuel
expire_due_fuel-IsTidy zero now limit removed db h = h
expire_due_fuel-IsTidy (suc fuel) now limit removed db h = elim (Bool-cases (ltb removed limit)) [
  | inr enough ↦ rw enough h
  | inl more ↦ rw more (
      expire_root-IsTidy now db.exp.items removed db (expire_due_fuel fuel now limit) h
        λ n a. expire_due_fuel-IsTidy fuel now limit n a)
]

pub expire_due-IsTidy : (now limit : ℕ) (db : Db) → IsTidy db → IsTidy (expire_due now limit db).1
unfolding expire_due
expire_due-IsTidy now limit db h =
    expire_due_fuel-IsTidy (suc (length db.exp.items)) now limit 0 db h
