-- ===== src/Store/Write/Steps.antt =====
-- What each part of `Set` does to the entry of every key.
use cache_custom.Prelude.{
  ℕ, ◌<◌, ◌≡◌, refl, ap, ◌∙◌, Option, none, some, arith, length, if◌then◌else◌, ite,
}
use cache_custom.Bytes.{Bytes, dec_bytes}
use cache_custom.Dict
use cache_custom.Dict.{Dict, lookup-insert}
use cache_custom.Shard.{Entry, Shard, expired, drop, add_new, overwrite, touch, bump, ttl_update}
use cache_custom.Store.{
  Db, find, live, shard_at, put_shard, shard_index, note_expiry, global_touch, global_push, set_op,
  remove_from_shard, add_used,
}
use cache_custom.Store.Find.{
  shard_index-lt, find-put_shard, find-here, find-same, find-clear_expiry, find-note_expiry,
  find-global_touch, find-global_push, find-emit, find-remove_from_home, length-put_shard,
}
use cache_custom.Store.Write.{SetOptions, keeps_ttl, drop_due, purge, write_over, write_new, resize}

module _ (db : Db) (key : Bytes) (h : 0 < length db.shards) where
  -- Writing one entry of a shard, whatever happens to the indexes.
  pub find-put_entry :
      (sh : Shard) (e : Entry) (j : Bytes)
      → Dict.lookup j sh.data'
        ≡ ite (dec_bytes key j) (some e) (Dict.lookup j (shard_at (shard_index key db) db).data')
      → find j (put_shard (shard_index key db) sh db) ≡ ite (dec_bytes key j) (some e) (find j db)
  find-put_entry sh e j look =
      find-put_shard (shard_index key db) sh db j (shard_index-lt key db h)
      ∙ ground (
        arith,
        look,
        find-here (shard_index key db) j db,
        λ (q : key ≡ j). ap (λ (x : Bytes). shard_index x db) q,
      )

  pub lookup-add_new :
      (e : Entry) (sh : Shard) (j : Bytes)
      → Dict.lookup j (add_new key e sh).data'
        ≡ ite (dec_bytes key j) (some e) (Dict.lookup j sh.data')
  unfolding add_new ttl_update
  lookup-add_new e sh j = lookup-insert key j e sh.data'

  pub find-write_new :
      (value : Bytes) (n : ℕ) (t : Option ℕ) (j : Bytes)
      → find j (write_new key value n t db)
        ≡ ite
            (dec_bytes key j)
            (some (record { value = value; expires_at = t; size = n; freq = 1 }))
            (find j db)
  unfolding write_new
  find-write_new value n t j =
      let e : Entry = record { value = value; expires_at = t; size = n; freq = 1 } in
      let sh = add_new key e (shard_at (shard_index key db) db) in
      let put = put_shard (shard_index key db) sh db in
      let added = add_used n put in
      find-emit (note_expiry key t (global_push key added)) j (set_op key value t)
      ∙ find-note_expiry (global_push key added) j key t
      ∙ find-global_push added j key
      ∙ find-same j added put refl
      ∙ find-put_entry sh e j (lookup-add_new e (shard_at (shard_index key db) db) j)

  pub lookup-overwrite :
      (e : Entry) (value : Bytes) (n : ℕ) (t : Option ℕ) (sh : Shard) (j : Bytes)
      → Dict.lookup j (overwrite key e value n t sh).data'
        ≡ ite
            (dec_bytes key j)
            (some (record { value = value; expires_at = t; size = n; freq = bump e.freq }))
            (Dict.lookup j sh.data')
  unfolding overwrite touch ttl_update
  lookup-overwrite e value n t sh j =
      let e' : Entry = record { value = value; expires_at = t; size = n; freq = e.freq } in
      lookup-insert key j (record e' { freq = bump e.freq }) (Dict.insert key e' sh.data')
      ∙ ground (arith, lookup-insert key j e' sh.data')

  pub find-write_over :
      (value : Bytes) (n : ℕ) (t : Option ℕ) (opt : SetOptions) (e : Entry) (j : Bytes)
      → find j (write_over key value n t opt e db)
        ≡ ite
            (dec_bytes key j)
            (some (record {
              value = value;
              expires_at = if keeps_ttl opt then e.expires_at else t;
              size = n;
              freq = bump e.freq;
            }))
            (find j db)
  unfolding write_over
  find-write_over value n t opt e j =
      let final = if keeps_ttl opt then e.expires_at else t in
      let sh = overwrite key e value n final (shard_at (shard_index key db) db) in
      let put = put_shard (shard_index key db) sh (resize e.size n db) in
      let touched = global_touch key put in
      find-emit (note_expiry key final touched) j (set_op key value final)
      ∙ find-note_expiry touched j key final
      ∙ find-global_touch put j key
      ∙ find-same j put (put_shard (shard_index key db) sh db) (ground arith)
      ∙ find-put_entry sh _ j
          (lookup-overwrite e value n final (shard_at (shard_index key db) db) j)

  pub find-drop_due :
      (now : ℕ) (o : Option Entry) (j : Bytes)
      → find j (drop_due now key o db)
        ≡ ite
            (dec_bytes key j)
            (elim o [ none ↦ find j db | some e ↦ if expired e now then none else find j db ])
            (find j db)
  unfolding drop_due
  find-drop_due now none j = ground arith
  find-drop_due now (some e) j = ground (
    arith,
    find-clear_expiry (remove_from_shard (shard_index key db) key e db) j key,
    find-remove_from_home db j key e h,
  )

  -- After the lazy removal a reader of the map sees the live entry of the key.
  pub find-purge :
      (now : ℕ) (j : Bytes)
      → find j (purge now key db) ≡ ite (dec_bytes key j) (live now key db) (find j db)
  unfolding purge live
  find-purge now j =
      find-drop_due now (find key db) j
      ∙ ground (arith, λ (q : key ≡ j). ap (λ (x : Bytes). find x db) q)

length-drop_due :
    (now : ℕ) (key : Bytes) (o : Option Entry) (db : Db)
    → length (drop_due now key o db).shards ≡ length db.shards
unfolding drop_due
length-drop_due now key none db = refl
length-drop_due now key (some e) db = ground (
  arith,
  length-put_shard (shard_index key db) (drop key e (shard_at (shard_index key db) db)) db,
)

pub length-purge :
    (now : ℕ) (key : Bytes) (db : Db) → length (purge now key db).shards ≡ length db.shards
unfolding purge
length-purge now key db = length-drop_due now key (find key db) db
