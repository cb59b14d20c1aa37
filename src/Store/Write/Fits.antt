-- ===== src/Store/Write/Fits.antt =====
-- The memory after a `Set` (internal/store/ops.go).
use cache_custom.Prelude.{
  ℕ, ◌+◌, ◌-◌, ◌%◌, ◌^◌, ◌≤◌, ◌<◌, ◌≡◌, refl, ap, sym, ◌∙◌, false, Option, none, some, arith,
  length, if◌then◌else◌, Bool-cases, inl, inr, ltb, ◌&&◌, get_or-set_self, length-set, subst,
}
use cache_custom.Bytes.{Bytes}
use cache_custom.Shard.{
  Entry, Shard, new_shard, mem_size, add64, add_new, overwrite, touch, ttl_update,
}
use cache_custom.Store.{
  Db, Strategy, global_track, steal, shard_budget, find, live, shard_at, put_shard, shard_index,
  is_global, note_expiry, global_touch, global_push, emit,
}
use cache_custom.Store.Find.{shard_index-lt}
use cache_custom.Store.Homed.{shard_index-same}
use cache_custom.Store.Shrinks.{Shrinks}
use cache_custom.Store.Space.{Room, ok, oom, out_of_fuel, full, ceiling}
use cache_custom.Store.Space.Bound.{ensure_space-Shrinks, ensure_space-fits}
use cache_custom.Store.Write.{
  SetOptions, done, keeps_ttl, write_new, write_over, needed, kept_expiry, purge, set_expiry,
  write_fetched, after_room, set_purged, set,
}
use cache_custom.Store.Write.Steps.{length-purge}
use cache_custom.Store.Write.Laws.{blocked, purged, set_unfolded}

-- The counter that a strategy limits.
abbrev pub used_of : Strategy → ℕ → Db → ℕ
used_of global_track si db = db.used
used_of steal si db = db.used
used_of shard_budget si db = (shard_at si db).used

-- The counter that the strategy limits, of the tenant or of the shard of the key, is within its
-- limit.
abbrev pub IsWithin : Bytes → Db → Type 0
IsWithin key db =
    used_of db.strategy (shard_index key db) db ≤ ceiling db.strategy (shard_index key db) db

abbrev pub size_of : Option Entry → ℕ
size_of none = 0
size_of (some e) = e.size

mem_size-lt : (key value : Bytes) → mem_size key value < 2 ^ 64
unfolding mem_size add64
mem_size-lt key value = grind arith

-- What a write did to the counters: `n` more bytes, by `uint64` sums.
record Grown (si n : ℕ) (a b : Db) : Type 0 where
  used : b.used ≡ add64 a.used n
  limit : b.max_memory ≡ a.max_memory
  strategy : b.strategy ≡ a.strategy
  size : length b.shards ≡ length a.shards
  shard : (shard_at si b).used ≡ add64 (shard_at si a).used n
  budget : (shard_at si b).budget ≡ (shard_at si a).budget

module _ (key value : Bytes) (n : ℕ) (t : Option ℕ) (db : Db) (h : 0 < length db.shards) where
  shard_at_home :
      (sh : Shard) (b : Db)
      → b.shards ≡ (put_shard (shard_index key db) sh db).shards
      → shard_at (shard_index key db) b ≡ sh
  shard_at_home sh b e =
      rw e
        (get_or-set_self db.shards (shard_index key db) sh (new_shard 0) (shard_index-lt key db h))

  shards-size :
      (sh : Shard) (b : Db)
      → b.shards ≡ (put_shard (shard_index key db) sh db).shards
      → length b.shards ≡ length db.shards
  shards-size sh b e = ap length e ∙ length-set db.shards (shard_index key db) sh

  write_new-Grown : Grown (shard_index key db) n db (write_new key value n t db)
  unfolding write_new global_push note_expiry emit add_new ttl_update
  write_new-Grown =
      let e : Entry = record { value = value; expires_at = t; size = n; freq = 1 } in
      let sh = add_new key e (shard_at (shard_index key db) db) in
      let b = write_new key value n t db in
      let here : shard_at (shard_index key db) b ≡ sh = shard_at_home sh b (ground arith) in
      record {
        used = ground arith;
        limit = ground arith;
        strategy = ground arith;
        size = shards-size sh b (ground arith);
        shard = ap (λ (s : Shard). s.used) here;
        budget = ap (λ (s : Shard). s.budget) here;
      }

  write_over-Grown :
      (opt : SetOptions) (e : Entry)
      → e.size ≤ n
      → n < 2 ^ 64
      → Grown (shard_index key db) (needed n (some e)) db (write_over key value n t opt e db)
  unfolding write_over global_touch note_expiry emit overwrite touch ttl_update add64
  write_over-Grown opt e le word =
      let final = if keeps_ttl opt then e.expires_at else t in
      let sh = overwrite key e value n final (shard_at (shard_index key db) db) in
      let b = write_over key value n t opt e db in
      let here : shard_at (shard_index key db) b ≡ sh = shard_at_home sh b (ground arith) in
      record {
        used = ground (arith, le);
        limit = ground arith;
        strategy = ground arith;
        size = shards-size sh b (ground arith);
        shard = ap (λ (s : Shard). s.used) here ∙ same_sum;
        budget = ap (λ (s : Shard). s.budget) here;
      }
    where
      used : ℕ
      used = (shard_at (shard_index key db) db).used

      same_sum :
          (used + 2 ^ 64 - e.size + n) % 2 ^ 64
          ≡ (used + (if ltb e.size n then n - e.size else 0)) % 2 ^ 64
      same_sum = ground (arith, le, word)

-- Bytes that fit, and are then added.
Grown-IsWithin :
    (key : Bytes) (n : ℕ) (a b : Db)
    → Grown (shard_index key a) n a b
    → full a.strategy (shard_index key a) n a ≡ false
    → IsWithin key b
Grown-IsWithin key n a b g fits =
    subst (λ s. used_of s (shard_index key b) b ≤ ceiling s (shard_index key b) b) (sym g.strategy)
      (subst (λ i. used_of a.strategy i b ≤ ceiling a.strategy i b) (sym same_index)
        (at_strategy a.strategy fits))
  where
    same_index : shard_index key b ≡ shard_index key a
    same_index = shard_index-same key b a g.size

    at_strategy :
        (s : Strategy)
        → full s (shard_index key a) n a ≡ false
        → used_of s (shard_index key a) b ≤ ceiling s (shard_index key a) b
    at_strategy global_track f = ground (arith, g.used, g.limit)
    at_strategy steal f = ground (arith, g.used, g.limit)
    at_strategy shard_budget f = ground (arith, g.shard, g.budget)

module _ (key value : Bytes) (opt : SetOptions) where
  write_fetched-IsWithin :
      (n : ℕ) (t : Option ℕ) (o : Option Entry) (db : Db)
      → 0 < length db.shards
      → size_of o ≤ n
      → n < 2 ^ 64
      → full db.strategy (shard_index key db) (needed n o) db ≡ false
      → (write_fetched key value n t opt o db).0 ≡ done
      → IsWithin key (write_fetched key value n t opt o db).1
  unfolding write_fetched
  write_fetched-IsWithin n t none db h le word f e = elim (Bool-cases opt.xx) [
    | inl must ↦ absurd (ground arith)
    | inr may ↦
        rw (may, write_fetched) (Grown-IsWithin key n db _ (write_new-Grown key value n t db h) f)
  ]
  write_fetched-IsWithin n t (some old) db h le word f e = elim (Bool-cases opt.nx) [
    | inl must ↦ absurd (ground arith)
    | inr may ↦
        rw (may, write_fetched)
          (Grown-IsWithin key _ db _ (write_over-Grown key value n t db h opt old le word) f)
  ]

  after_room-IsWithin :
      (n : ℕ) (t : Option ℕ) (r : Room × Db) (a : Db)
      → 0 < length a.shards
      → Shrinks key a r.1
      → (r.0 ≡ ok → full a.strategy (shard_index key a) (needed n (find key a)) r.1 ≡ false)
      → size_of (find key a) ≤ n
      → n < 2 ^ 64
      → (after_room key value n t opt r).0 ≡ done
      → IsWithin key (after_room key value n t opt r).1
  unfolding after_room
  after_room-IsWithin n t (oom, db) a h s f le word e = absurd (cc)
  after_room-IsWithin n t (out_of_fuel, db) a h s f le word e = absurd (cc)
  after_room-IsWithin n t (ok, db) a h s f le word e =
      write_fetched-IsWithin n t (find key db) db (omega (arith, s.size)) (rw s.kept le) word
        (ap (λ x. full x (shard_index key db) (needed n (find key db)) db)
            (ap (λ c. c.strategy) s.conf)
          ∙ ap (λ i. full a.strategy i (needed n (find key db)) db) same_index
          ∙ ap (λ o. full a.strategy (shard_index key a) (needed n o) db) s.kept
          ∙ f refl)
        e
    where
      same_index : shard_index key db ≡ shard_index key a
      same_index = shard_index-same key db a s.size

  module _ (intn : ℕ → ℕ → ℕ) where
    set_purged-IsWithin :
        (n : ℕ) (t : Option ℕ) (db : Db)
        → 0 < length db.shards
        → size_of (find key db) ≤ n
        → n < 2 ^ 64
        → (set_purged intn key value n t opt (find key db) db).0 ≡ done
        → IsWithin key (set_purged intn key value n t opt (find key db) db).1
    unfolding set_purged
    set_purged-IsWithin n t db h le word e = elim (Bool-cases (blocked opt (find key db))) [
      | inl stop ↦ absurd (ground arith)
      | inr go ↦
          let si = shard_index key db in
          rw go (
            after_room-IsWithin n (kept_expiry opt t (find key db)) _ db h
              (ensure_space-Shrinks intn si key (needed n (find key db)) n db
                (shard_index-lt key db h))
              (ensure_space-fits intn si key (needed n (find key db)) n db) le word (rw go at e))
    ]

    -- After a Set that is done, of a key that has no live entry larger than the write, the counter
    -- that the strategy limits (of the tenant, or of the shard of the key under the shard budget)
    -- is within its limit.
    pub set-IsWithin :
        (now : ℕ) (db : Db)
        → 0 < length db.shards
        → size_of (live now key db) ≤ mem_size key value
        → (set intn now key value opt db).0 ≡ done
        → IsWithin key (set intn now key value opt db).1
    set-IsWithin now db h le e =
        let p = purge now key db in
        elim (Bool-cases (is_global db.strategy && ltb db.max_memory (mem_size key value))) [
          | inl large ↦
              absurd (ground (arith, rw (set_unfolded intn key value opt now db, large) at e))
          | inr small ↦
              rw (set_unfolded intn key value opt now db, small)
                (set_purged-IsWithin (mem_size key value) (set_expiry now db.max_ttl opt) p
                  (omega (arith, length-purge now key db))
                  (rw (purged intn key value opt now db h) le) (mem_size-lt key value)
                  (rw (set_unfolded intn key value opt now db, small) at e))
        ]
