-- ===== src/Store/Write/Homed.antt =====
-- Writes and removals leave every key in the shard of its hash, and in the lists (internal/store/ops.go).
use cache_custom.Prelude.{
  ℕ, ◌≡◌, refl, ap, sym, ◌∙◌, Option, none, some, List, [], ◌∷◌, ◌++◌, true, false, ◌&&◌, subst,
  arith, ite, if◌then◌else◌, Bool-cases, inl, inr,
}
use cache_custom.Bytes.{Bytes, dec_bytes}
use cache_custom.Dict
use cache_custom.Dict.{Dict}
use cache_custom.Shard.{Entry, Shard, expired, add_new, overwrite}
use cache_custom.Store.{
  Db, find, shard_at, put_shard, shard_index, remove_from_shard, clear_expiry, note_expiry,
  global_touch, global_push, emit, is_global,
}
use cache_custom.Store.Find.{shard_index-lt, find-same}
use cache_custom.Lfu.{member}
use cache_custom.Shard.Pick.{is_some}
use cache_custom.Shard.Listed.{
  IsExact, IsExact-same, IsExact-push, IsExact-move, held, IsListed, add_new-IsListed,
  overwrite-IsListed,
}
use cache_custom.Store.Homed.{
  IsTidy, IsTracked, found, put_shard-IsHomed, shards-IsHomed, AllListed, put_shard-AllListed,
  shards-IsTidy, remove-IsTidy,
}
use cache_custom.Store.Write.{
  SetOptions, keeps_ttl, resize, drop_due, purge, write_over, write_new, del_found, del_one, del,
  exists_found, exists_one, exists,
}
use cache_custom.Store.Write.Steps.{find-put_entry, lookup-add_new, lookup-overwrite}

module _ (key : Bytes) (db : Db) (h : IsTidy db) where
  -- A key that is there moves to the end of the recency list of the tenant.
  pub global_touch-IsTidy : found db key ≡ true → IsTidy (global_touch key db)
  unfolding global_touch
  global_touch-IsTidy there = elim (Bool-cases (is_global db.strategy && member key db.g_lru)) [
    | inr not_listed ↦ rw not_listed h
    | inl there_too ↦ rw there_too (record {
      homed = shards-IsHomed refl h.homed;
      listed = h.listed;
      tracked = λ g. (
        IsExact-move key db.g_lru _ _ (h.tracked g).0 there
            (λ k. ap is_some (find-same k _ db refl)),
        IsExact-same key db.g_fifo _ _ (h.tracked g).1 (λ k. ap is_some (find-same k _ db refl)),
      );
    })
  ]

module _ (key : Bytes) (db : Db) (h : IsTidy db) where
  at_home :
      (sh : Shard) (e : Entry) (k : Bytes) (f : Entry)
      → Dict.lookup k sh.data'
        ≡ ite (dec_bytes key k) (some e) (Dict.lookup k (shard_at (shard_index key db) db).data')
      → Dict.lookup k sh.data' ≡ some f
      → shard_index k db ≡ shard_index key db
  at_home sh e k f look here =
      elim (dec_bytes key k)
          as (λ d.
            Dict.lookup k sh.data'
              ≡ ite d (some e) (Dict.lookup k (shard_at (shard_index key db) db).data')
            → shard_index k db ≡ shard_index key db) [
              | yes same ↦ λ _. ap (λ x. shard_index x db) (sym same)
              | no other ↦ λ look'.
                  h.homed.home (shard_index key db) k f (shard_index-lt key db h.homed.some_shard)
                    (sym look' ∙ here)
            ]
        look

  -- A shard in which one entry is written: the keys stay at home.
  module _ (sh : Shard) (e : Entry)
      (look : (k : Bytes)
        → Dict.lookup k sh.data'
          ≡ ite (dec_bytes key k) (some e) (Dict.lookup k (shard_at (shard_index key db) db).data'))
      (l : IsListed sh) (b : Db)
      (same : b.shards ≡ (put_shard (shard_index key db) sh db).shards) where
    found-put : (k : Bytes) → found b k ≡ ite (dec_bytes key k) true (found db k)
    found-put k =
        ap is_some (
          find-same k b (put_shard (shard_index key db) sh db) same
          ∙ find-put_entry db key h.homed.some_shard sh e k (look k))
        ∙ ground arith

    pub put_entry-IsTidy : IsTracked b → IsTidy b
    put_entry-IsTidy t = record {
      homed = shards-IsHomed same (
          put_shard-IsHomed (shard_index key db) sh db (shard_index-lt key db h.homed.some_shard)
            (λ k f here. at_home sh e k f (look k) here) h.homed);
      listed = subst AllListed (sym same) (
          put_shard-AllListed (shard_index key db) sh db (shard_index-lt key db h.homed.some_shard)
            l h.listed);
      tracked = t;
    }

    -- An entry of a key that was there, with the lists of the tenant as they were.
    found-again : found db key ≡ true → (k : Bytes) → found b k ≡ found db k
    found-again there k =
        let is_there : key ≡ k → found db k ≡ true = λ p. subst (λ x. found db x ≡ true) p there in
        ground (arith, found-put k, is_there)

    pub put_again-IsTidy :
        found db key ≡ true
        → b.strategy ≡ db.strategy
        → b.g_lru ≡ db.g_lru
        → b.g_fifo ≡ db.g_fifo
        → IsTidy b
    put_again-IsTidy there s lru fifo = put_entry-IsTidy λ g.
        let (recent, first) = h.tracked (ap is_global (sym s) ∙ g) in
        (
          subst (λ ks. IsExact ks (found b)) (sym lru)
              (IsExact-same key db.g_lru _ _ recent (found-again there)),
          subst (λ ks. IsExact ks (found b)) (sym fifo)
              (IsExact-same key db.g_fifo _ _ first (found-again there)),
        )

    -- Then the key moves to the end of the recency list of the tenant.
    pub put_touched-IsTidy :
        found db key ≡ true
        → b.strategy ≡ db.strategy
        → b.g_lru ≡ db.g_lru
        → b.g_fifo ≡ db.g_fifo
        → IsTidy (global_touch key b)
    put_touched-IsTidy there s lru fifo =
        global_touch-IsTidy key b (put_again-IsTidy there s lru fifo)
          (found-again there key ∙ there)

    -- An entry of a new key, which goes to the end of both lists of the tenant.
    pub put_new-IsTidy :
        found db key ≡ false
        → b.strategy ≡ db.strategy
        → (is_global db.strategy ≡ true
            → (b.g_lru ≡ db.g_lru ++ key ∷ []) × (b.g_fifo ≡ db.g_fifo ++ key ∷ []))
        → IsTidy b
    put_new-IsTidy out s pushed = put_entry-IsTidy λ g.
        let global = ap is_global (sym s) ∙ g in
        let (recent, first) = h.tracked global in
        let (lru, fifo) = pushed global in
        (
          subst (λ ks. IsExact ks (found b)) (sym lru)
              (IsExact-push key db.g_lru _ _ recent out found-put),
          subst (λ ks. IsExact ks (found b)) (sym fifo)
              (IsExact-push key db.g_fifo _ _ first out found-put),
        )

  pub here_of_find :
      (e : Entry) → find key db ≡ some e → held (shard_at (shard_index key db) db).data' key ≡ true
  unfolding find
  here_of_find e there = ground (arith, there)

  none_of_find : find key db ≡ none → held (shard_at (shard_index key db) db).data' key ≡ false
  unfolding find
  none_of_find out = ground (arith, out)

  pub write_new-IsTidy :
      (value : Bytes) (n : ℕ) (t : Option ℕ)
      → find key db ≡ none
      → IsTidy (write_new key value n t db)
  unfolding write_new global_push note_expiry emit
  write_new-IsTidy value n t out =
      let e : Entry = record { value = value; expires_at = t; size = n; freq = 1 } in
      let home = shard_at (shard_index key db) db in
      put_new-IsTidy (add_new key e home) e (lookup-add_new db key h.homed.some_shard e home)
        (add_new-IsListed key e home
          (h.listed (shard_index key db) (shard_index-lt key db h.homed.some_shard))
          (none_of_find out))
        (write_new key value n t db) (ground arith) (ground (arith, out)) (ground arith)
        λ g. ground (arith, g)

  pub write_over-IsTidy :
      (value : Bytes) (n : ℕ) (t : Option ℕ) (opt : SetOptions) (e : Entry)
      → find key db ≡ some e
      → IsTidy (write_over key value n t opt e db)
  unfolding write_over note_expiry emit
  write_over-IsTidy value n t opt e there =
      let final = if keeps_ttl opt then e.expires_at else t in
      let home = shard_at (shard_index key db) db in
      let sh = overwrite key e value n final home in
      let put = put_shard (shard_index key db) sh (resize e.size n db) in
      shards-IsTidy {a = global_touch key put} (ground arith) (ground arith) (ground arith)
        (ground arith)
        (put_touched-IsTidy sh _ (lookup-overwrite db key h.homed.some_shard e value n final home)
          (overwrite-IsListed key e home
            (h.listed (shard_index key db) (shard_index-lt key db h.homed.some_shard)) value n final
            (here_of_find e there))
          put (ground arith) (ap is_some there) (ground arith) (ground arith) (ground arith))

  pub removed-IsTidy :
      (e : Entry) → IsTidy (clear_expiry key (remove_from_shard (shard_index key db) key e db))
  unfolding clear_expiry
  removed-IsTidy e =
      shards-IsTidy {a = remove_from_shard (shard_index key db) key e db} refl refl refl refl (
        remove-IsTidy key e db (shard_index key db) (shard_index-lt key db h.homed.some_shard)
          (λ _. refl) h)

  pub drop_due-IsTidy : (now : ℕ) (o : Option Entry) → IsTidy (drop_due now key o db)
  unfolding drop_due
  drop_due-IsTidy now none = h
  drop_due-IsTidy now (some e) = elim (Bool-cases (expired e now)) [
    | inl due ↦ rw due (removed-IsTidy e)
    | inr fresh ↦ rw fresh h
  ]

pub purge-IsTidy : (now : ℕ) (key : Bytes) (db : Db) → IsTidy db → IsTidy (purge now key db)
unfolding purge
purge-IsTidy now key db h = drop_due-IsTidy key db h now (find key db)

module _ (key : Bytes) (db : Db) (h : IsTidy db) where
  del_found-IsTidy : (now : ℕ) (o : Option Entry) → IsTidy (del_found now key o db).1
  unfolding del_found emit
  del_found-IsTidy now none = h
  del_found-IsTidy now (some e) =
      shards-IsTidy {a = clear_expiry key (remove_from_shard (shard_index key db) key e db)}
        (ground arith) (ground arith) (ground arith) (ground arith) (removed-IsTidy key db h e)

  exists_found-IsTidy : (now : ℕ) (o : Option Entry) → IsTidy (exists_found now key o db).1
  unfolding exists_found
  exists_found-IsTidy now none = h
  exists_found-IsTidy now (some e) = elim (Bool-cases (expired e now)) [
    | inl due ↦ rw due (removed-IsTidy key db h e)
    | inr fresh ↦ rw fresh h
  ]

  del_one-IsTidy : (now : ℕ) → IsTidy (del_one now key db).1
  unfolding del_one
  del_one-IsTidy now = del_found-IsTidy now (find key db)

  exists_one-IsTidy : (now : ℕ) → IsTidy (exists_one now key db).1
  unfolding exists_one
  exists_one-IsTidy now = exists_found-IsTidy now (find key db)

pub del-IsTidy : (now : ℕ) (keys : List Bytes) (db : Db) → IsTidy db → IsTidy (del now keys db).1
unfolding del
del-IsTidy now [] db h = h
del-IsTidy now (k ∷ ks) db h = del-IsTidy now ks (del_one now k db).1 (del_one-IsTidy k db h now)

pub exists-IsTidy :
    (now : ℕ) (keys : List Bytes) (db : Db) → IsTidy db → IsTidy (exists now keys db).1
unfolding exists
exists-IsTidy now [] db h = h
exists-IsTidy now (k ∷ ks) db h =
    exists-IsTidy now ks (exists_one now k db).1 (exists_one-IsTidy k db h now)
