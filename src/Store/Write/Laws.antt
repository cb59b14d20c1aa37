-- ===== src/Store/Write/Laws.antt =====
-- What `Set` promises on each of its outcomes.
use cache_custom.Prelude.{
  ℕ, ◌<◌, ◌≡◌, ◌≢◌, refl, subst, ◌∙◌, Bool, true, false, not, ◌&&◌, ◌||◌, Option, none, some, arith,
  length, if◌then◌else◌, Bool-cases, inl, inr, ◌⊎◌, ltb,
}
use cache_custom.Bytes.{Bytes}
use cache_custom.Shard.{Entry, mem_size, bump}
use cache_custom.Shard.Pick.{is_some}
use cache_custom.Store.{Db, find, live, shard_index, is_global}
use cache_custom.Store.Find.{shard_index-lt}
use cache_custom.Store.Shrinks.{Shrinks}
use cache_custom.Store.Space.{Room, ok, oom, out_of_fuel, ensure_space}
use cache_custom.Store.Space.Bound.{ensure_space-Shrinks}
use cache_custom.Store.Write.{
  SetOptions, done, refused, err_oom, kept_expiry, needed, set_expiry, purge, write_fetched,
  after_room, set_purged, set,
}
use cache_custom.Store.Write.Steps.{find-write_new, find-write_over, find-purge, length-purge}

-- `b` is `a` after a write: the key has its new value and expiry, and every other key its old
-- entry, unless it was evicted.
pub record Stored (key value : Bytes) (t : Option ℕ) (a b : Db) : Type 0 where
  pub freq : ℕ
  pub at_key :
      find key b
      ≡ some (record { value = value; expires_at = t; size = mem_size key value; freq = freq })
  pub others : (j : Bytes) → key ≢ j → (find j b ≡ find j a) ⊎ (find j b ≡ none)

module _ (key value : Bytes) (opt : SetOptions) where
  write_fetched-Stored :
      (t : Option ℕ) (o : Option Entry) (a db : Db)
      → 0 < length db.shards
      → Shrinks key a db
      → (write_fetched key value (mem_size key value) t opt o db).0 ≡ done
      → Stored key value
          (kept_expiry opt t o)
          a
          (write_fetched key value (mem_size key value) t opt o db).1
  unfolding write_fetched
  write_fetched-Stored t none a db h s e = elim (Bool-cases opt.xx) [
    | inl x ↦ absurd (ground arith)
    | inr x ↦
        rw (x, write_fetched)
          (record {
            freq = 1;
            at_key = ground (arith, find-write_new db key h value (mem_size key value) t key);
            others = λ j ne.
                ground (arith, find-write_new db key h value (mem_size key value) t j, s.others j);
          })
  ]
  write_fetched-Stored t (some f) a db h s e = elim (Bool-cases opt.nx) [
    | inl x ↦ absurd (ground arith)
    | inr x ↦
        rw (x, write_fetched)
          (record {
            freq = bump f.freq;
            at_key =
                ground (arith, find-write_over db key h value (mem_size key value) t opt f key);
            others = λ j ne.
                ground (
                  arith,
                  find-write_over db key h value (mem_size key value) t opt f j,
                  s.others j,
                );
          })
  ]

  after_room-Stored :
      (t : Option ℕ) (c : Room × Db) (a : Db)
      → 0 < length a.shards
      → Shrinks key a c.1
      → (after_room key value (mem_size key value) t opt c).0 ≡ done
      → Stored key value
          (kept_expiry opt t (find key a))
          a
          (after_room key value (mem_size key value) t opt c).1
  unfolding after_room
  after_room-Stored t (oom, db) a h s e = absurd (cc)
  after_room-Stored t (out_of_fuel, db) a h s e = absurd (cc)
  after_room-Stored t (ok, db) a h s e =
      rw (← s.kept) (write_fetched-Stored t (find key db) a db (omega (arith, s.size)) s e)

  -- The entry that is fetched again is the one that was there: the second test of NX and XX never
  -- fails.
  after_room-refused :
      (t : Option ℕ) (c : Room × Db) (a : Db)
      → find key c.1 ≡ find key a
      → ((opt.nx && is_some (find key a)) || (opt.xx && not (is_some (find key a)))) ≡ false
      → (after_room key value (mem_size key value) t opt c).0 ≢ refused
  unfolding after_room write_fetched
  after_room-refused t (oom, db) a s b e = cc
  after_room-refused t (out_of_fuel, db) a s b e = cc
  after_room-refused t (ok, db) a s b e = ground arith

  -- A write that does not get its memory leaves the key as it was.
  after_room-oom :
      (t : Option ℕ) (c : Room × Db) (a : Db)
      → find key c.1 ≡ find key a
      → (after_room key value (mem_size key value) t opt c).0 ≡ err_oom
      → find key (after_room key value (mem_size key value) t opt c).1 ≡ find key a
  unfolding after_room write_fetched
  after_room-oom t (oom, db) a s e = s
  after_room-oom t (out_of_fuel, db) a s e = s
  after_room-oom t (ok, db) a s e = ground arith

-- NX on a key that is there, or XX on one that is not.
abbrev pub blocked : SetOptions → Option Entry → Bool
blocked opt o = (opt.nx && is_some o) || (opt.xx && not (is_some o))

kept_expiry_twice :
    (opt : SetOptions) (t : Option ℕ) (o : Option Entry)
    → kept_expiry opt (kept_expiry opt t o) o ≡ kept_expiry opt t o
kept_expiry_twice opt t none = refl
kept_expiry_twice opt t (some e) = ground arith

live_of_find :
    (key : Bytes) (now : ℕ) (a b : Db)
    → find key a ≡ live now key b
    → live now key a ≡ live now key b
unfolding live
live_of_find key now a b e = ground arith

module _ (intn : ℕ → ℕ → ℕ) (key value : Bytes) (opt : SetOptions) where
  set_purged-Stored :
      (t : Option ℕ) (db : Db)
      → 0 < length db.shards
      → (set_purged intn key value (mem_size key value) t opt (find key db) db).0 ≡ done
      → Stored key value
          (kept_expiry opt t (find key db))
          db
          (set_purged intn key value (mem_size key value) t opt (find key db) db).1
  unfolding set_purged
  set_purged-Stored t db h e =
      let n = mem_size key value in
      let room = ensure_space intn (shard_index key db) key (needed n (find key db)) n db in
      elim (Bool-cases (blocked opt (find key db))) [
        | inl stop ↦ absurd (ground arith)
        | inr go ↦
            let t' = kept_expiry opt t (find key db) in
            let result = after_room key value n t' opt room in
            rw go (
              subst (λ (u : Option ℕ). Stored key value u db result.1)
                (kept_expiry_twice opt t (find key db))
                (after_room-Stored key value opt t' room db h
                  (ensure_space-Shrinks intn (shard_index key db) key _ n db
                    (shard_index-lt key db h))
                  (rw go at e)))
      ]

  pub purged :
      (now : ℕ) (db : Db) → 0 < length db.shards → find key (purge now key db) ≡ live now key db
  purged now db h = ground (arith, find-purge db key h now key)

  pub set_unfolded :
      (now : ℕ) (db : Db)
      → set intn now key value opt db ≡ (
          if is_global db.strategy && ltb db.max_memory (mem_size key value)
          then (err_oom, db)
          else set_purged intn key value
              (mem_size key value)
              (set_expiry now db.max_ttl opt)
              opt
              (find key (purge now key db))
              (purge now key db))
  unfolding set
  set_unfolded now db = refl

  pub set-Stored :
      (now : ℕ) (db : Db)
      → 0 < length db.shards
      → (set intn now key value opt db).0 ≡ done
      → Stored key value
          (kept_expiry opt (set_expiry now db.max_ttl opt) (live now key db))
          db
          (set intn now key value opt db).1
  set-Stored now db h e =
      let p = purge now key db in
      elim (Bool-cases (is_global db.strategy && ltb db.max_memory (mem_size key value))) [
        | inl large ↦ absurd (ground (arith, rw (set_unfolded now db, large) at e))
        | inr small ↦
            rw (set_unfolded now db, small, ← purged now db h)
              (let s =
                  set_purged-Stored (set_expiry now db.max_ttl opt) p
                    (omega (arith, length-purge now key db))
                    (rw (set_unfolded now db, small) at e) in
                record {
                  freq = s.freq;
                  at_key = s.at_key;
                  others = λ j ne. ground (arith, s.others j, find-purge db key h now j);
                })
      ]

  set_purged-refused :
      (t : Option ℕ) (db : Db)
      → 0 < length db.shards
      → (set_purged intn key value (mem_size key value) t opt (find key db) db).0 ≡ refused
      → (blocked opt (find key db) ≡ true)
        × ((set_purged intn key value (mem_size key value) t opt (find key db) db).1 ≡ db)
  unfolding set_purged
  set_purged-refused t db h e =
      let n = mem_size key value in
      let room = ensure_space intn (shard_index key db) key (needed n (find key db)) n db in
      elim (Bool-cases (blocked opt (find key db))) [
        | inl stop ↦ (stop, rw stop)
        | inr go ↦ absurd (
            after_room-refused key value opt (kept_expiry opt t (find key db)) room db
              (ensure_space-Shrinks intn (shard_index key db) key _ n db
                (shard_index-lt key db h)).kept
              go (rw go at e))
      ]

  -- A Set is refused only by NX on a live key, or by XX on a key that is missing or due, and it
  -- then changes nothing but that a key that was due is gone.
  pub set-refused :
      (now : ℕ) (db : Db)
      → 0 < length db.shards
      → (set intn now key value opt db).0 ≡ refused
      → (blocked opt (live now key db) ≡ true)
        × ((set intn now key value opt db).1 ≡ purge now key db)
  set-refused now db h e =
      let p = purge now key db in
      elim (Bool-cases (is_global db.strategy && ltb db.max_memory (mem_size key value))) [
        | inl large ↦ absurd (ground (arith, rw (set_unfolded now db, large) at e))
        | inr small ↦
            rw (set_unfolded now db, small, ← purged now db h)
              (set_purged-refused (set_expiry now db.max_ttl opt) p
                (omega (arith, length-purge now key db)) (rw (set_unfolded now db, small) at e))
      ]

  set_purged-oom :
      (t : Option ℕ) (db : Db)
      → 0 < length db.shards
      → (set_purged intn key value (mem_size key value) t opt (find key db) db).0 ≡ err_oom
      → find key (set_purged intn key value (mem_size key value) t opt (find key db) db).1
        ≡ find key db
  unfolding set_purged
  set_purged-oom t db h e =
      let n = mem_size key value in
      let room = ensure_space intn (shard_index key db) key (needed n (find key db)) n db in
      elim (Bool-cases (blocked opt (find key db))) [
        | inl stop ↦ absurd (ground arith)
        | inr go ↦ rw go (
            after_room-oom key value opt (kept_expiry opt t (find key db)) room db
              (ensure_space-Shrinks intn (shard_index key db) key _ n db
                (shard_index-lt key db h)).kept
              (rw go at e))
      ]

  -- A Set that ends with ErrOOM leaves the key with its live entry, if it had one, whatever was
  -- evicted on the way.
  pub set-oom :
      (now : ℕ) (db : Db)
      → 0 < length db.shards
      → (set intn now key value opt db).0 ≡ err_oom
      → live now key (set intn now key value opt db).1 ≡ live now key db
  set-oom now db h e =
      let p = purge now key db in
      elim (Bool-cases (is_global db.strategy && ltb db.max_memory (mem_size key value))) [
        | inl large ↦ rw (set_unfolded now db, large)
        | inr small ↦
            let q =
              set_purged-oom (set_expiry now db.max_ttl opt) p
                (omega (arith, length-purge now key db)) (rw (set_unfolded now db, small) at e) in
            rw (set_unfolded now db, small) (live_of_find key now _ db (q ∙ purged now db h))
      ]
