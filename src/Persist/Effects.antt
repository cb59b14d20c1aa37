-- ===== src/Persist/Effects.antt =====
-- applyAOF and the effect of a line on a key (internal/persist/engine.go).
use cache_custom.Prelude.{
  ℕ, ◌<◌, ◌-◌, ◌≡◌, ◌≢◌, ◌⊎◌, inl, inr, refl, ap, sym, ◌∙◌, Bool, true, false, Option, none, some,
  List, [], ◌∷◌, arith, ite, length, if◌then◌else◌,
}
use cache_custom.Prelude.Int.{pos}
use cache_custom.Bytes.{Bytes, dec_bytes}
use cache_custom.Sets.{has}
use cache_custom.Lfu.{member}
use cache_custom.Store.{Db, Mutation, set_op, del_op, expire_op, persist_op, flush_op}
use cache_custom.Store.Write.{SetReply, done, refused, err_oom, fuel, set}
use cache_custom.Store.Expiry.{expire}
use cache_custom.Persist.Log.{
  AofLine, unix_nano, set_line, line_of, set_error, aof_options, apply_del, apply_expire, apply_aof,
}
use cache_custom.Persist.Absorb.{Item, Effect, act, effect}
use cache_custom.Persist.Seen.{
  or_zero, unix_nano-fits, Ahead, seen, seen-del, seen-persist, seen-expire, seen-set, set_done,
  bool_apart,
}

-- A deadline in a mutation is still to come, and an `int64` of nanoseconds can hold it.
abbrev pub InTime : ℕ → Mutation → Type 0
InTime now (set_op key value o) = Ahead now o
InTime now (expire_op key t) = Ahead now (some t)
InTime now (del_op keys) = Unit {0}
InTime now (persist_op key) = Unit {0}
InTime now flush_op = Unit {0}

abbrev pub is_flush : Mutation → Bool
is_flush (set_op key value o) = false
is_flush (expire_op key t) = false
is_flush (del_op keys) = false
is_flush (persist_op key) = false
is_flush flush_op = true

-- The keys that the replay of a line may evict.
abbrev pub MayEvict : Mutation → Bytes → Type 0
MayEvict (set_op key value o) k = key ≢ k
MayEvict (expire_op key t) k = ⊥
MayEvict (del_op keys) k = ⊥
MayEvict (persist_op key) k = ⊥
MayEvict flush_op k = ⊥

db_of_error : (r : SetReply × Db) → (set_error r).1 ≡ r.1
unfolding set_error
db_of_error (done, db) = refl
db_of_error (refused, db) = refl
db_of_error (err_oom, db) = refl
db_of_error (fuel, db) = refl

member-has : (k : Bytes) (keys : List Bytes) → member k keys ≡ has dec_bytes k keys
unfolding member has
member-has k [] = refl
member-has k (j ∷ keys) = ground (arith, member-has k keys)

module _ (tenant k : Bytes) (x : Item) where
  effect-set_op :
      (now : ℕ) (key value : Bytes) (o : Option ℕ)
      → Ahead now o
      → act (effect tenant k (line_of tenant (set_op key value o))) x
        ≡ ite (dec_bytes key k) (some (value, or_zero o)) x
  unfolding act effect line_of set_line unix_nano dec_bytes
  effect-set_op now key value none a = ground arith
  effect-set_op now key value (some t) a = rw (unix_nano-fits t a.1) (ground arith)

  effect-del_op :
      (keys : List Bytes)
      → act (effect tenant k (line_of tenant (del_op keys))) x
        ≡ (if has dec_bytes k keys then none else x)
  unfolding act effect line_of dec_bytes has
  effect-del_op [] = ground arith
  effect-del_op (j ∷ keys) = ground arith

  effect-expire_op :
      (now : ℕ) (key : Bytes) (t : ℕ)
      → Ahead now (some t)
      → act (effect tenant k (line_of tenant (expire_op key t))) x
        ≡ ite (dec_bytes key k) (act (Effect.renews t) x) x
  unfolding act effect line_of dec_bytes
  effect-expire_op now key t a =
      let due : 0 < t = omega (arith, a.0) in rw (unix_nano-fits t a.1) (ground (arith, due))

  effect-persist_op :
      (key : Bytes)
      → act (effect tenant k (line_of tenant (persist_op key))) x
        ≡ ite (dec_bytes key k) (act (Effect.renews 0) x) x
  unfolding act effect line_of dec_bytes
  effect-persist_op key = ground arith

module _ (intn : ℕ → ℕ → ℕ) (now : ℕ) (tenant k : Bytes) (db : Db) where
  abbrev after : Mutation → Db
  after m = (apply_aof intn now now (line_of tenant m) db).1

  after-del_op :
      (keys : List Bytes)
      → 0 < length db.shards
      → seen now k (after (del_op keys)) ≡ (if has dec_bytes k keys then none else seen now k db)
  unfolding apply_aof apply_del line_of dec_bytes has
  after-del_op [] h = refl
  after-del_op (j ∷ keys) h =
      seen-del now (j ∷ keys) k db h
      ∙ ap (λ b. if b then none else seen now k db) (member-has k (j ∷ keys))

  after-persist_op :
      (key : Bytes)
      → 0 < length db.shards
      → seen now k (after (persist_op key))
        ≡ ite (dec_bytes key k) (act (Effect.renews 0) (seen now k db)) (seen now k db)
  unfolding apply_aof line_of dec_bytes
  after-persist_op key h = seen-persist now key k db h

  expire_ahead :
      (l : AofLine) (t : ℕ)
      → l.exp ≡ pos t
      → now < t
      → apply_expire intn now now l db ≡ (expire now now l.key (pos (t - now)) db).1
  unfolding apply_expire
  expire_ahead l t e a = rw e (ground (arith, a))

  after-expire_op :
      (key : Bytes) (t : ℕ)
      → 0 < length db.shards
      → db.max_ttl ≡ pos 0
      → Ahead now (some t)
      → seen now k (after (expire_op key t))
        ≡ ite (dec_bytes key k) (act (Effect.renews t) (seen now k db)) (seen now k db)
  unfolding apply_aof line_of dec_bytes
  after-expire_op key t h c a =
      ap (seen now k) (expire_ahead (line_of tenant (expire_op key t)) t (unix_nano-fits t a.1) a.0)
      ∙ seen-expire now t key k db h c a.0

-- Replaying the line of a mutation other than FLUSHDB, without an error, on a keyspace with at
-- least one shard and no ceiling of expiry, where the clock stands still and a deadline of the
-- mutation is still to come and not past the last nanosecond of an int64: each key then shows the
-- value and the deadline that the line says of it, those that rewrite_complete and hybrid_complete
-- speak of, or nothing, if it is another key than that of a SET, which may evict it.
pub apply_aof_lem :
    (intn : ℕ → ℕ → ℕ) (now : ℕ) (tenant k : Bytes) (m : Mutation) (db : Db)
    → 0 < length db.shards
    → db.max_ttl ≡ pos 0
    → is_flush m ≡ false
    → InTime now m
    → (apply_aof intn now now (line_of tenant m) db).0 ≡ none
    → (seen now k (apply_aof intn now now (line_of tenant m) db).1
        ≡ act (effect tenant k (line_of tenant m)) (seen now k db))
      ⊎ (MayEvict m k × (seen now k (apply_aof intn now now (line_of tenant m) db).1 ≡ none))
unfolding apply_aof line_of dec_bytes
apply_aof_lem intn now tenant k (set_op key value o) db h c f a e =
    let opt = aof_options (line_of tenant (set_op key value o)) in
    let r = set intn now key value opt db in
    elim (seen-set intn now tenant key value o db h c a k
      (set_done intn now tenant key value o db h c a e)) [
        | inl same ↦ inl (
            ap (seen now k) (db_of_error r)
            ∙ same
            ∙ sym (effect-set_op tenant k (seen now k db) now key value o a))
        | inr gone ↦ inr (gone.0, ap (seen now k) (db_of_error r) ∙ gone.1)
      ]
apply_aof_lem intn now tenant k (del_op keys) db h c f a e =
    inl
      (after-del_op intn now tenant k db keys h ∙ sym (effect-del_op tenant k (seen now k db) keys))
apply_aof_lem intn now tenant k (expire_op key t) db h c f a e = inl (
    after-expire_op intn now tenant k db key t h c a
    ∙ sym (effect-expire_op tenant k (seen now k db) now key t a))
apply_aof_lem intn now tenant k (persist_op key) db h c f a e = inl (
    after-persist_op intn now tenant k db key h
    ∙ sym (effect-persist_op tenant k (seen now k db) key))
apply_aof_lem intn now tenant k flush_op db h c f a e = absurd (bool_apart (sym f))
