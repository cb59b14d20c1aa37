-- ===== src/Persist/Seen.antt =====
-- What a command sees of a key, and applyAOF (internal/persist/engine.go).
use cache_custom.Prelude.{
  ℕ, ◌<◌, ◌-◌, ◌^◌, ◌≡◌, ◌≢◌, ◌⊎◌, inl, inr, refl, ap, sym, subst, ◌∙◌, Bool, true, false, Option,
  none, some, List, arith, ite, length, if◌then◌else◌,
}
use cache_custom.Prelude.Int.{pos}
use cache_custom.Bytes.{Bytes, dec_bytes}
use cache_custom.Lfu.{member}
use cache_custom.Shard.{Entry, expired}
use cache_custom.Store.{Db, find, live, set_op}
use cache_custom.Store.Write.{
  SetOptions, SetReply, done, refused, err_oom, fuel, set_expiry, keeps_ttl, kept_expiry, set, del,
}
use cache_custom.Store.Write.Laws.{Stored, set-Stored, blocked, set-refused}
use cache_custom.Store.Write.Remove.{del_lem}
use cache_custom.Store.Expiry.{expire, persist}
use cache_custom.Store.Expiry.Laws.{persist_lem, expire_pos}
use cache_custom.Numbers.{wrap64}
use cache_custom.Persist.Log.{unix_nano, set_line, line_of, set_error, aof_options}
use cache_custom.Persist.Absorb.{Item, Effect, act}

-- A deadline, or 0 for none.
abbrev pub or_zero : Option ℕ → ℕ
or_zero none = 0
or_zero (some t) = t

abbrev pub item : Option Entry → Item
item none = none
item (some e) = some (e.value, or_zero e.expires_at)

-- What a command sees of a key at a time.
unfoldable pub seen : ℕ → Bytes → Db → Item
unfolding live
seen now k db = item (live now k db)

pub seen-find : (now : ℕ) (k : Bytes) (a b : Db) → find k a ≡ find k b → seen now k a ≡ seen now k b
unfolding seen live
seen-find now k a b e = ground (arith, e)

pub not_seen : (now : ℕ) (k : Bytes) (a : Db) → find k a ≡ none → seen now k a ≡ none
unfolding seen live
not_seen now k a e = ground (arith, e)

pub seen-del :
    (now : ℕ) (keys : List Bytes) (k : Bytes) (db : Db)
    → 0 < length db.shards
    → seen now k (del now keys db).1 ≡ (if member k keys then none else seen now k db)
unfolding seen live
seen-del now keys k db h = ground (arith, (del_lem now keys db h).1 k)

pub seen-persist :
    (now : ℕ) (key k : Bytes) (db : Db)
    → 0 < length db.shards
    → seen now k (persist now key db).1
      ≡ ite (dec_bytes key k) (act (Effect.renews 0) (seen now k db)) (seen now k db)
unfolding seen live act expired
seen-persist now key k db h =
    ground (arith, (persist_lem key db h now).1 k, λ (p : key ≡ k). ap (λ (x : Bytes). find x db) p)

pub bool_apart : ◌≡◌ {A = Bool} false true → ⊥
bool_apart p = cc

-- A deadline that is still to come, and that an `int64` of nanoseconds can hold.
abbrev pub Ahead : ℕ → Option ℕ → Type 0
Ahead now none = Unit {0}
Ahead now (some t) = (now < t) × (t < 2 ^ 63)

pub unix_nano-fits : (t : ℕ) → t < 2 ^ 63 → unix_nano (some t) ≡ pos t
unfolding unix_nano wrap64
unix_nano-fits t h = ground arith

pub seen-expire :
    (now t : ℕ) (key k : Bytes) (db : Db)
    → 0 < length db.shards
    → db.max_ttl ≡ pos 0
    → now < t
    → seen now k (expire now now key (pos (t - now)) db).1
      ≡ ite (dec_bytes key k) (act (Effect.renews t) (seen now k db)) (seen now k db)
unfolding seen live act expired
seen-expire now t key k db h no_ceiling ahead = ground (
  arith,
  (expire_pos key db h now now (pos (t - now)) (ground (arith, ahead))).1 k,
  no_ceiling,
  λ (p : key ≡ k). ap (λ (x : Bytes). find x db) p,
)

module _ (intn : ℕ → ℕ → ℕ) (now : ℕ) (tenant key value : Bytes) (o : Option ℕ) (db : Db)
    (h : 0 < length db.shards) (no_ceiling : db.max_ttl ≡ pos 0) (ahead : Ahead now o) where
  abbrev opts : SetOptions
  opts = aof_options (line_of tenant (set_op key value o))

  set_deadline :
      (o : Option ℕ) (e : Option Entry)
      → Ahead now o
      → kept_expiry
          (aof_options (line_of tenant (set_op key value o)))
          (set_expiry now (pos 0) (aof_options (line_of tenant (set_op key value o))))
          e
        ≡ o
  unfolding set_expiry keeps_ttl line_of set_line
  set_deadline none none a = refl
  set_deadline none (some e) a = refl
  set_deadline (some t) none a = rw (unix_nano-fits t a.1) (ground (arith, a.0))
  set_deadline (some t) (some e) a = rw (unix_nano-fits t a.1) (ground (arith, a.0))

  at_deadline :
      (o : Option ℕ) (b : Db)
      → Ahead now o
      → Stored key value o db b
      → seen now key b ≡ some (value, or_zero o)
  unfolding seen live expired
  at_deadline none b a s = ground (arith, s.at_key)
  at_deadline (some t) b a s = ground (arith, a.0, s.at_key)

  what_stays :
      (set intn now key value opts db).0 ≡ done
      → Stored key value o db (set intn now key value opts db).1
  what_stays e =
      subst (λ (x : Option ℕ). Stored key value x db (set intn now key value opts db).1)
        (ap (λ c. kept_expiry opts (set_expiry now c opts) (live now key db)) no_ceiling
          ∙ set_deadline o (live now key db) ahead)
        (set-Stored intn key value opts now db h e)

  pub seen-set :
      (k : Bytes)
      → (set intn now key value opts db).0 ≡ done
      → (seen now k (set intn now key value opts db).1
          ≡ ite (dec_bytes key k) (some (value, or_zero o)) (seen now k db))
        ⊎ ((key ≢ k) × (seen now k (set intn now key value opts db).1 ≡ none))
  seen-set k e =
      elim (dec_bytes key k)
        as (λ d.
          (seen now k (set intn now key value opts db).1
            ≡ ite d (some (value, or_zero o)) (seen now k db))
          ⊎ ((key ≢ k) × (seen now k (set intn now key value opts db).1 ≡ none))) [
            | yes p ↦ inl (
                subst
                  (λ (x : Bytes).
                    seen now x (set intn now key value opts db).1 ≡ some (value, or_zero o))
                  p (at_deadline o _ ahead (what_stays e)))
            | no q ↦ elim ((what_stays e).others k q) [
              | inl same ↦ inl (seen-find now k _ _ same)
              | inr gone ↦ inr (q, not_seen now k _ gone)
            ]
          ]

  not_blocked :
      (o : Option ℕ) (e : Option Entry)
      → blocked (aof_options (line_of tenant (set_op key value o))) e ≡ false
  unfolding line_of
  not_blocked none e = refl
  not_blocked (some t) e = ground arith

  pub set_done :
      (set_error (set intn now key value opts db)).0 ≡ none
      → (set intn now key value opts db).0 ≡ done
  set_done e = at_reply (set intn now key value opts db) refl e
    where
      at_reply :
          (r : SetReply × Db)
          → set intn now key value opts db ≡ r
          → (set_error r).0 ≡ none
          → r.0 ≡ done
      at_reply (done, d) q e = refl
      at_reply (refused, d) q e = absurd (
          bool_apart (
            sym (not_blocked o (live now key db))
            ∙ (set-refused intn key value opts now db h (ap (λ r. r.0) q)).0))
      at_reply (err_oom, d) q e = absurd (unfold set_error in cc)
      at_reply (fuel, d) q e = absurd (unfold set_error in cc)
