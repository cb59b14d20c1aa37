-- ===== src/Store/Incr/Laws.antt =====
-- What `IncrBy` leaves behind (internal/store/ops.go).
use cache_custom.Prelude.{
  ℕ, ◌≡◌, ◌≢◌, ◌<◌, refl, sym, ap, ◌∙◌, Option, none, some, if◌then◌else◌, length, length-set,
  arith, Bool-cases, inl, inr,
}
use cache_custom.Prelude.Int.{ℤ, pos, ◌+ℤ◌}
use cache_custom.Bytes.{Bytes}
use cache_custom.Numbers.{parse_int, format_int, wrap64, parse_int-format_int, is_int64-wrap64}
use cache_custom.Shard.{Entry, expired, drop}
use cache_custom.Store.{Db, shard_index, shard_at, find, live, remove_from_shard}
use cache_custom.Store.Find.{shards-remove}
use cache_custom.Store.Write.{SetReply, done, refused, err_oom, set}
use cache_custom.Store.Write.Laws.{set-Stored, set-refused}
use cache_custom.Store.Read.Laws.{value_of}
use cache_custom.Store.Incr.{
  value, current_of, read_found, keep_expiry, answer, write_back, incr_from, incr_by,
}

-- The number that a key stands for: 0 where it has no live entry.
unfoldable pub number_of : Option Entry → Option ℤ
unfolding parse_int
number_of none = some (pos 0)
number_of (some e) = parse_int e.value

-- What a text reads as.
abbrev pub reads_as : Option Bytes → Option ℤ
reads_as none = none
reads_as (some s) = parse_int s

-- The reply is the sum, wrapped, of the number that the key stood for and of `delta`, and the key
-- then stands for it.
pub record Counted (cur : Option ℤ) (delta n : ℤ) (after : Option Bytes) : Type 0 where
  pub from : ℤ
  pub was : cur ≡ some from
  pub sum : n ≡ wrap64 (from +ℤ delta)
  pub reads : reads_as after ≡ some n

module _ (intn : ℕ → ℕ → ℕ) where
  answer-done :
      (n m : ℤ) (r : SetReply × Db)
      → r.0 ≢ refused
      → (answer n r).0 ≡ value m
      → (r.0 ≡ done) × (n ≡ m) × ((answer n r).1 ≡ r.1)
  unfolding answer
  answer-done n m (done, db) ne e = ground arith
  answer-done n m (refused, db) ne e = absurd (ne refl)
  answer-done n m (err_oom, db) ne e = absurd cc
  answer-done n m (SetReply.fuel, db) ne e = absurd cc

  write_back_lem :
      (now : ℕ) (key : Bytes) (cur delta n : ℤ) (exp : Option ℕ) (db : Db)
      → 0 < length db.shards
      → (write_back intn now key cur delta exp db).0 ≡ value n
      → (n ≡ wrap64 (cur +ℤ delta))
        × (reads_as (value_of (find key (write_back intn now key cur delta exp db).1)) ≡ some n)
  unfolding write_back
  write_back_lem now key cur delta n exp db h e =
      let m = wrap64 (cur +ℤ delta) in
      let opt = keep_expiry exp in
      let r = set intn now key (format_int m) opt db in
      let free : r.0 ≢ refused =
        λ q. ground (arith, (set-refused intn key (format_int m) opt now db h q).0) in
      let (is_done, same, left) = answer-done m n r free e in
      let stored = set-Stored intn key (format_int m) opt now db h is_done in
      (
        sym same,
        ap (λ d. reads_as (value_of (find key d))) left
            ∙ ap (λ o. reads_as (value_of o)) stored.at_key
            ∙ parse_int-format_int m (is_int64-wrap64 (cur +ℤ delta))
            ∙ ap some same,
      )

  length-remove :
      (i : ℕ) (k : Bytes) (e : Entry) (db : Db)
      → length (remove_from_shard i k e db).shards ≡ length db.shards
  length-remove i k e db =
      ap length (shards-remove i k e db) ∙ length-set db.shards i (drop k e (shard_at i db))

  counted :
      (now : ℕ) (key : Bytes) (cur delta n : ℤ) (exp : Option ℕ) (db : Db)
      → 0 < length db.shards
      → (write_back intn now key cur delta exp db).0 ≡ value n
      → Counted
          (some cur)
          delta
          n
          (value_of (find key (write_back intn now key cur delta exp db).1))
  counted now key cur delta n exp db h e =
      let (sum, reads) = write_back_lem now key cur delta n exp db h e in
      record { from = cur; was = refl; sum = sum; reads = reads }

  current-Counted :
      (now' : ℕ) (key : Bytes) (delta n : ℤ) (o : Option ℤ) (en : Entry) (db : Db)
      → 0 < length db.shards
      → (incr_from intn now' key delta (current_of o en, db)).0 ≡ value n
      → Counted o delta n
          (value_of (find key (incr_from intn now' key delta (current_of o en, db)).1))
  unfolding incr_from current_of
  current-Counted now' key delta n none en db h e = absurd cc
  current-Counted now' key delta n (some cur) en db h e =
      counted now' key cur delta n en.expires_at db h e

  found-Counted :
      (now now' : ℕ) (key : Bytes) (delta n : ℤ) (o : Option Entry) (db : Db)
      → 0 < length db.shards
      → (incr_from intn now' key delta (read_found now key o db)).0 ≡ value n
      → Counted
          (number_of (elim o [ none ↦ none | some en ↦ if expired en now then none else some en ]))
          delta
          n
          (value_of (find key (incr_from intn now' key delta (read_found now key o db)).1))
  unfolding incr_from read_found number_of
  found-Counted now now' key delta n none db h e = counted now' key (pos 0) delta n none db h e
  found-Counted now now' key delta n (some en) db h e = elim (Bool-cases (expired en now)) [
    | inl due ↦
        let db' = remove_from_shard (shard_index key db) key en db in
        let h' : 0 < length db'.shards =
          omega (arith, length-remove (shard_index key db) key en db) in
        rw due (counted now' key (pos 0) delta n none db' h' (rw due at e))
    | inr fresh ↦
        rw fresh (current-Counted now' key delta n (parse_int en.value) en db h (rw fresh at e))
  ]

  -- Where IncrBy returns a number, with no other operation between its read and its write, the key
  -- stood for a number before (0 if it was missing or due), the result is its sum with the delta,
  -- wrapped to an int64, and the value of the key afterwards reads as that result.
  pub incr_by_lem :
      (now now' : ℕ) (key : Bytes) (delta n : ℤ) (db : Db)
      → 0 < length db.shards
      → (incr_by intn now now' key delta db).0 ≡ value n
      → Counted
          (number_of (live now key db))
          delta
          n
          (value_of (find key (incr_by intn now now' key delta db).1))
  unfolding incr_by live
  incr_by_lem now now' key delta n db h e = found-Counted now now' key delta n (find key db) db h e
