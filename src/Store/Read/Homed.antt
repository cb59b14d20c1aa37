-- ===== src/Store/Read/Homed.antt =====
-- Reads leave every key in the shard of its hash, and in the lists (internal/store/ops.go).
use cache_custom.Prelude.{ℕ, refl, ◌≡◌, ap, ite, Option, none, some, Bool-cases, inl, inr}
use cache_custom.Prelude.Int.{ℤ, pos, negsuc}
use cache_custom.Bytes.{Bytes}
use cache_custom.Dict.{lookup-insert}
use cache_custom.Shard.{Entry, expired, touch, bump}
use cache_custom.Store.{Db, find, shard_at, shard_index, put_shard, global_touch}
use cache_custom.Store.Homed.{IsTidy, shards-IsTidy}
use cache_custom.Shard.{Shard}
use cache_custom.Shard.Pick.{is_some}
use cache_custom.Shard.Listed.{touch-IsListed}
use cache_custom.Bytes.{dec_bytes}
use cache_custom.Dict
use cache_custom.Store.Find.{shard_index-lt}
use cache_custom.Store.Write.Homed.{put_touched-IsTidy, here_of_find, removed-IsTidy}
use cache_custom.Store.Read.{get, get_found, pttl, pttl_found, millis_left}

module _ (key : Bytes) (db : Db) (h : IsTidy db) where
  lookup-touch :
      (e : Entry) (sh : Shard) (j : Bytes)
      → Dict.lookup j (touch key e sh).data'
        ≡ ite (dec_bytes key j) (some (record e { freq = bump e.freq })) (Dict.lookup j sh.data')
  unfolding touch
  lookup-touch e sh j = lookup-insert key j _ sh.data'

  get_found-IsTidy :
      (now : ℕ) (o : Option Entry) → find key db ≡ o → IsTidy (get_found now key o db).1
  unfolding get_found
  get_found-IsTidy now none there = shards-IsTidy refl refl refl refl h
  get_found-IsTidy now (some e) there = elim (Bool-cases (expired e now)) [
    | inl due ↦ rw due (shards-IsTidy refl refl refl refl (removed-IsTidy key db h e))
    | inr fresh ↦ rw fresh (
        let home = shard_at (shard_index key db) db in
        let put = put_shard (shard_index key db) (touch key e home) db in
        shards-IsTidy {a = global_touch key put} refl refl refl refl (
          put_touched-IsTidy key db h (touch key e home) (record e { freq = bump e.freq })
            (lookup-touch e home)
            (touch-IsListed key e home
              (h.listed (shard_index key db) (shard_index-lt key db h.homed.some_shard))
              (here_of_find key db h e there))
            put refl (ap is_some there) refl refl refl))
  ]

  pttl_found-IsTidy : (now : ℕ) (o : Option Entry) → IsTidy (pttl_found now key o db).1
  unfolding pttl_found
  pttl_found-IsTidy now none = h
  pttl_found-IsTidy now (some e) = elim (Bool-cases (expired e now)) [
    | inl due ↦ rw due (removed-IsTidy key db h e)
    | inr fresh ↦
        rw fresh
          (elim e.expires_at
            as (λ t.
              IsTidy
                (elim t as (λ _. ℤ × Db) [
                  | none ↦ (negsuc 0, db)
                  | some t ↦ (pos (millis_left now t), db)
                ]).1) [ none ↦ h | some t ↦ h ])
  ]

  pub get-IsTidy : (now : ℕ) → IsTidy (get now key db).1
  unfolding get
  get-IsTidy now = get_found-IsTidy now (find key db) refl

  pub pttl-IsTidy : (now : ℕ) → IsTidy (pttl now key db).1
  unfolding pttl
  pttl-IsTidy now = pttl_found-IsTidy now (find key db)
