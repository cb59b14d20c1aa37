-- ===== src/Store/Read/Laws.antt =====
-- What `Get`, `PTTL`, `TTL` and `Type` return, and what they leave.
use cache_custom.Prelude.{
  ℕ, ◌+◌, ◌-◌, ◌*◌, ◌/◌, ◌≤◌, ◌<◌, ◌≡◌, ◌≢◌, refl, ap, ◌∙◌, Option, none, some, arith, length,
  if◌then◌else◌, ite, if_pos, Bool-cases, inl, inr, min,
}
use cache_custom.Prelude.Int.{pos, negsuc}
use cache_custom.Bytes.{Bytes, dec_bytes}
use cache_custom.Dict
use cache_custom.Dict.{lookup-insert}
use cache_custom.Shard.{Entry, Shard, expired, touch, bump}
use cache_custom.Store.{
  Db, find, live, shard_at, put_shard, shard_index, remove_from_shard, clear_expiry, global_touch,
}
use cache_custom.Store.Find.{find-same, find-clear_expiry, find-global_touch, find-remove_from_home}
use cache_custom.Store.Write.Steps.{find-put_entry}
use cache_custom.Store.Read.{get, get_found, pttl, pttl_found, ttl, millis_left, max_duration}

abbrev pub value_of : Option Entry → Option Bytes
value_of none = none
value_of (some e) = some e.value

-- The same entry, but for how often it was used.
abbrev pub SameEntry : Option Entry → Option Entry → Type 0
SameEntry none o = o ≡ none
SameEntry (some e) o =
    (f : Entry) × (o ≡ some f)
    × (f.value ≡ e.value)
    × (f.expires_at ≡ e.expires_at)
    × (f.size ≡ e.size)

lookup-touch :
    (k j : Bytes) (e : Entry) (sh : Shard)
    → Dict.lookup j (touch k e sh).data'
      ≡ ite (dec_bytes k j) (some (record e { freq = bump e.freq })) (Dict.lookup j sh.data')
unfolding touch
lookup-touch k j e sh = lookup-insert k j (record e { freq = bump e.freq }) sh.data'

same_entry :
    (now : ℕ) (o x : Option Entry)
    → x ≡ elim o [
      | none ↦ none
      | some e ↦ if expired e now then none else some (record e { freq = bump e.freq })
    ]
    → SameEntry (elim o [ none ↦ none | some e ↦ if expired e now then none else some e ]) x
same_entry now none x q = q
same_entry now (some e) x q = elim (Bool-cases (expired e now)) [
  | inl due ↦ rw due (ground arith)
  | inr fine ↦ rw fine (record e { freq = bump e.freq }, ground arith, refl, refl, refl)
]

module _ (now : ℕ) (key : Bytes) (db : Db) where
  pub get_value : (get now key db).0 ≡ value_of (live now key db)
  unfolding get get_found live
  get_value = ground arith

  touched : (e : Entry) → Db
  touched e =
      global_touch key
        (put_shard (shard_index key db) (touch key e (shard_at (shard_index key db) db)) db)

  module _ (h : 0 < length db.shards) where
    find-touched :
        (e : Entry) (j : Bytes)
        → find j (touched e)
          ≡ ite (dec_bytes key j) (some (record e { freq = bump e.freq })) (find j db)
    unfolding touched
    find-touched e j =
        let sh = shard_at (shard_index key db) db in
        find-global_touch (put_shard (shard_index key db) (touch key e sh) db) j key
        ∙ find-put_entry db key h (touch key e sh) (record e { freq = bump e.freq }) j
            (lookup-touch key j e sh)

    find-dropped :
        (e : Entry) (j : Bytes)
        → find j (clear_expiry key (remove_from_shard (shard_index key db) key e db))
          ≡ ite (dec_bytes key j) none (find j db)
    find-dropped e j =
        find-clear_expiry (remove_from_shard (shard_index key db) key e db) j key
        ∙ find-remove_from_home db j key e h

    find-get_found :
        (o : Option Entry) (j : Bytes)
        → find key db ≡ o
        → find j (get_found now key o db).1
          ≡ ite
              (dec_bytes key j)
              (elim o [
                | none ↦ none
                | some e ↦ if expired e now then none else some (record e { freq = bump e.freq })
              ])
              (find j db)
    unfolding get_found touched
    find-get_found none j q =
        find-same j _ db refl ∙ ground (arith, q, λ (r : key ≡ j). ap (λ (x : Bytes). find x db) r)
    find-get_found (some e) j q = elim (Bool-cases (expired e now)) [
      | inl due ↦ rw due (
          find-same j _ (clear_expiry key (remove_from_shard (shard_index key db) key e db)) refl
          ∙ find-dropped e j)
      | inr fine ↦ rw fine (find-same j _ (touched e) refl ∙ find-touched e j)
    ]

    -- Get returns the value of the live entry of the key, if there is one; the live entry keeps
    -- its value, expiry and size, an entry that is due is gone, and every other key is left alone.
    pub get_lem :
        ((get now key db).0 ≡ value_of (live now key db))
        × SameEntry (live now key db) (find key (get now key db).1)
        × ((j : Bytes) → key ≢ j → find j (get now key db).1 ≡ find j db)
    get_lem = (
      get_value,
      entry_stays,
      λ j ne. unfold get in ground (arith, find-get_found (find key db) j refl),
    )
      where
        entry_stays : SameEntry (live now key db) (find key (get now key db).1)
        entry_stays =
            unfold live get in
            same_entry now (find key db) _
              (find-get_found (find key db) key refl ∙ if_pos (dec_bytes key key) refl _ _)

    pttl_value : (pttl now key db).0 ≡ elim (live now key db) [
      | none ↦ negsuc 1
      | some e ↦ elim e.expires_at [
        | none ↦ negsuc 0
        | some t ↦ pos (min (t - now) max_duration / 1000000)
      ]
    ]
    unfolding pttl pttl_found live millis_left
    pttl_value = ground arith

    find-pttl_found :
        (o : Option Entry) (j : Bytes) → key ≢ j → find j (pttl_found now key o db).1 ≡ find j db
    unfolding pttl_found
    find-pttl_found none j ne = refl
    find-pttl_found (some e) j ne = ground (arith, find-dropped e j)

    -- PTTL returns -2 for a key that is missing or due, -1 for a live key with no expiry, and else
    -- the whole milliseconds that are left, of at most the longest duration; other keys are left
    -- alone.
    pub pttl_lem :
        ((pttl now key db).0 ≡ elim (live now key db) [
          | none ↦ negsuc 1
          | some e ↦ elim e.expires_at [
            | none ↦ negsuc 0
            | some t ↦ pos (min (t - now) max_duration / 1000000)
          ]
        ])
        × ((j : Bytes) → key ≢ j → find j (pttl now key db).1 ≡ find j db)
    pttl_lem = (pttl_value, λ j ne. unfold pttl in find-pttl_found (find key db) j ne)

  -- Where PTTL returns a number of milliseconds, TTL returns the least number of seconds that is
  -- not below it.
  pub ttl_rounds_up :
      (m : ℕ)
      → (pttl now key db).0 ≡ pos m
      → (s : ℕ) × ((ttl now key db).0 ≡ pos s) × (m ≤ 1000 * s) × (1000 * s < m + 1000)
  unfolding ttl
  ttl_rounds_up m e = ((m + 999) / 1000, ground arith, omega arith, omega arith)
