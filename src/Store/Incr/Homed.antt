-- ===== src/Store/Incr/Homed.antt =====
-- `IncrBy` leaves every key in the shard of its hash, and in the lists (internal/store/ops.go).
use cache_custom.Prelude.{refl, ℕ, Option, none, some, Bool-cases, inl, inr}
use cache_custom.Prelude.Int.{ℤ}
use cache_custom.Bytes.{Bytes}
use cache_custom.Shard.{Entry, expired}
use cache_custom.Store.{Db, find, shard_index}
use cache_custom.Store.Find.{shard_index-lt}
use cache_custom.Store.Homed.{IsTidy, remove-IsTidy}
use cache_custom.Store.Write.{SetReply, done, refused, err_oom}
use cache_custom.Store.Write.Sets.{set-IsTidy}
use cache_custom.Store.Incr.{
  Current, absent, no_number, number, read_found, keep_expiry, answer, write_back, incr_from,
  incr_by,
}

read_found-IsTidy :
    (now : ℕ) (key : Bytes) (o : Option Entry) (db : Db)
    → IsTidy db
    → IsTidy (read_found now key o db).1
unfolding read_found
read_found-IsTidy now key none db h = h
read_found-IsTidy now key (some e) db h = elim (Bool-cases (expired e now)) [
  | inl due ↦ rw due (
      remove-IsTidy key e db (shard_index key db) (shard_index-lt key db h.homed.some_shard)
        (λ _. refl) h)
  | inr fresh ↦ rw fresh h
]

answer-IsTidy : (n : ℤ) (r : SetReply × Db) → IsTidy r.1 → IsTidy (answer n r).1
unfolding answer
answer-IsTidy n (done, db) h = h
answer-IsTidy n (refused, db) h = h
answer-IsTidy n (err_oom, db) h = h
answer-IsTidy n (SetReply.fuel, db) h = h

module _ (intn : ℕ → ℕ → ℕ) where
  incr_from-IsTidy :
      (now : ℕ) (key : Bytes) (delta : ℤ) (c : Current) (db : Db)
      → IsTidy db
      → IsTidy (incr_from intn now key delta (c, db)).1
  unfolding incr_from write_back
  incr_from-IsTidy now key delta absent db h =
      answer-IsTidy _ _ (set-IsTidy key _ (keep_expiry none) intn now db h)
  incr_from-IsTidy now key delta no_number db h = h
  incr_from-IsTidy now key delta (number cur exp) db h =
      answer-IsTidy _ _ (set-IsTidy key _ (keep_expiry exp) intn now db h)

  pub incr_by-IsTidy :
      (now now' : ℕ) (key : Bytes) (delta : ℤ) (db : Db)
      → IsTidy db
      → IsTidy (incr_by intn now now' key delta db).1
  unfolding incr_by
  incr_by-IsTidy now now' key delta db h =
      let r = read_found now key (find key db) db in
      incr_from-IsTidy now' key delta r.0 r.1 (read_found-IsTidy now key (find key db) db h)
