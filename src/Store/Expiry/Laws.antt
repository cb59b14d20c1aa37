-- ===== src/Store/Expiry/Laws.antt =====
-- What `Expire` and `Persist` return, and what they leave.
use cache_custom.Prelude.{
  ℕ, ◌+◌, ◌<◌, ◌≡◌, refl, ap, ◌∙◌, true, false, Option, none, some, [], ◌∷◌, arith, length,
  if◌then◌else◌, ite, Bool-cases, Option-cases, inl, inr,
}
use cache_custom.Prelude.Int.{ℤ, is_pos}
use cache_custom.Bytes.{Bytes, dec_bytes}
use cache_custom.Dict.{lookup-insert}
use cache_custom.Lfu.{member}
use cache_custom.Shard.{Entry, expired, ttl_update}
use cache_custom.Store.{
  Db, find, live, shard_at, shard_index, remove_from_shard, clear_expiry, note_expiry, expire_op,
  persist_op,
}
use cache_custom.Store.Find.{find-clear_expiry, find-note_expiry, find-remove_from_home, find-emit}
use cache_custom.Store.Write.Steps.{find-put_entry}
use cache_custom.Store.Write.Remove.{one_if, count_live_keys, del_lem}
use cache_custom.Store.Expiry.{
  cap_duration, put_expiry, set_expire_at_found, set_expire_at, expire, persist_found, persist,
}

-- The entry with another expiry.
abbrev pub with_expiry : Option ℕ → Option Entry → Option Entry
with_expiry t none = none
with_expiry t (some e) = some (record e { expires_at = t })

-- One for an entry that has an expiry to lose.
abbrev pub one_if_expiring : Option Entry → ℕ
one_if_expiring none = 0
one_if_expiring (some e) = elim e.expires_at [ none ↦ 0 | some t ↦ 1 ]

-- The live part of a map entry.
abbrev live_part : ℕ → Option Entry → Option Entry
live_part now o = elim o [ none ↦ none | some e ↦ if expired e now then none else some e ]

module _ (key : Bytes) (db : Db) where
  stays :
      (o : Option Entry) (j : Bytes)
      → find key db ≡ o
      → find j db ≡ ite (dec_bytes key j) o (find j db)
  stays o j q = ground (arith, q, λ (r : key ≡ j). ap (λ (x : Bytes). find x db) r)

module _ (key : Bytes) (db : Db) (h : 0 < length db.shards) where
  find-put_expiry :
      (e : Entry) (t : Option ℕ) (j : Bytes)
      → find j (put_expiry key e t db)
        ≡ ite (dec_bytes key j) (some (record e { expires_at = t })) (find j db)
  unfolding put_expiry ttl_update
  find-put_expiry e t j =
      find-put_entry db key h _ (record e { expires_at = t }) j
        (lookup-insert key j (record e { expires_at = t }) (shard_at (shard_index key db) db).data')

  find-dropped :
      (e : Entry) (j : Bytes)
      → find j (clear_expiry key (remove_from_shard (shard_index key db) key e db))
        ≡ ite (dec_bytes key j) none (find j db)
  find-dropped e j =
      find-clear_expiry (remove_from_shard (shard_index key db) key e db) j key
      ∙ find-remove_from_home db j key e h

  find-set_expire_at_found :
      (now t : ℕ) (o : Option Entry) (j : Bytes)
      → find key db ≡ o
      → find j (set_expire_at_found now key t o db).1
        ≡ ite (dec_bytes key j) (with_expiry (some t) (live_part now o)) (find j db)
  unfolding set_expire_at_found
  find-set_expire_at_found now t none j q = stays key db none j q
  find-set_expire_at_found now t (some e) j q = elim (Bool-cases (expired e now)) [
    | inl due ↦ rw due (find-dropped e j)
    | inr fine ↦
        let put = put_expiry key e (some t) db in
        rw fine (
          find-emit (note_expiry key (some t) put) j (expire_op key t)
          ∙ find-note_expiry put j key (some t)
          ∙ find-put_expiry e (some t) j)
  ]

  count-set_expire_at : (now t : ℕ) → (set_expire_at now key t db).0 ≡ one_if (live now key db)
  unfolding set_expire_at set_expire_at_found live
  count-set_expire_at now t = ground arith

  -- Expire with a duration above zero returns 1 for a live key, which then has the deadline at the
  -- duration from now, capped by the ceiling, and else 0; a key that was due is gone, and other
  -- keys are left alone.
  pub expire_pos :
      (now now' : ℕ) (d : ℤ)
      → is_pos d ≡ true
      → ((expire now now' key d db).0 ≡ one_if (live now' key db))
        × ((j : Bytes)
            → find j (expire now now' key d db).1
              ≡ ite
                  (dec_bytes key j)
                  (with_expiry (some (now + cap_duration db.max_ttl d)) (live now' key db))
                  (find j db))
  expire_pos now now' d p =
      let t = now + cap_duration db.max_ttl d in
      (
        unfold expire in rw p (count-set_expire_at now' t),
        λ j. unfold expire live in rw p (find-set_expire_at_found now' t (find key db) j refl),
      )

  -- Expire with a duration of zero or less deletes the key: it returns 1 if the key was live, else
  -- 0, and other keys are left alone.
  pub expire_nonpos :
      (now now' : ℕ) (d : ℤ)
      → is_pos d ≡ false
      → ((expire now now' key d db).0 ≡ one_if (live now key db))
        × ((j : Bytes)
            → find j (expire now now' key d db).1 ≡ ite (dec_bytes key j) none (find j db))
  unfolding member count_live_keys
  expire_nonpos now now' d p =
      let (counts, finds) = del_lem now (key ∷ []) db h in
      (
        unfold expire in rw p (ground (arith, counts)),
        λ j. unfold expire in rw p (ground (arith, finds j)),
      )

  find-persist_found :
      (now : ℕ) (o : Option Entry) (j : Bytes)
      → find key db ≡ o
      → find j (persist_found now key o db).1
        ≡ ite (dec_bytes key j) (with_expiry none (live_part now o)) (find j db)
  unfolding persist_found
  find-persist_found now none j q = stays key db none j q
  find-persist_found now (some e) j q = elim (Bool-cases (expired e now)) [
    | inl due ↦ rw due (find-dropped e j)
    | inr fine ↦ rw fine (elim (Option-cases e.expires_at) [
      | inl never ↦ ground (arith, stays key db (some e) j q)
      | inr (t, at) ↦
          let put = put_expiry key e none db in
          rw at (
            find-emit (clear_expiry key put) j (persist_op key)
            ∙ find-clear_expiry put j key
            ∙ find-put_expiry e none j)
    ])
  ]

  -- Persist returns 1 if it took an expiry from a live key, else 0; a live key then has no expiry,
  -- a key that was due is gone, and other keys are left alone.
  pub persist_lem :
      (now : ℕ)
      → ((persist now key db).0 ≡ one_if_expiring (live now key db))
        × ((j : Bytes)
            → find j (persist now key db).1
              ≡ ite (dec_bytes key j) (with_expiry none (live now key db)) (find j db))
  persist_lem now = (
    unfold persist persist_found live in ground arith,
    λ j. unfold persist live in find-persist_found now (find key db) j refl,
  )
