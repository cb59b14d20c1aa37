-- ===== src/Store/Write.antt =====
-- `Set` and `Del` (internal/store/ops.go), in the parts in which the code takes them.
pub mod Steps
pub mod Laws
pub mod Remove
pub mod Homed
pub mod Sets
pub mod Fits
pub mod Ends
use cache_custom.Prelude.{
  ℕ, zero, suc, ◌+◌, ◌-◌, ◌%◌, ◌^◌, Bool, true, false, not, ◌&&◌, ◌||◌, Option, none, some, List,
  [], ◌∷◌, ◌==◌, ltb, leb, if◌then◌else◌, ite, length,
}
use cache_custom.Prelude.Int.{ℤ, pos, is_pos, is_zero, pos_part}
use cache_custom.Bytes.{Bytes}
use cache_custom.Shard.{Entry, Shard, expired, mem_size, add_new, overwrite}
use cache_custom.Shard.Pick.{is_some}
use cache_custom.Store.{
  Db, is_global, shard_index, shard_at, put_shard, find, sub_used, add_used, remove_from_shard,
  clear_expiry, note_expiry, global_touch, global_push, emit, set_op, del_op,
}
use cache_custom.Store.Space.{Room, ok, oom, out_of_fuel, ensure_space}

pub record SetOptions : Type 0 where
  pub ex : ℤ
  pub px : ℤ
  pub nx : Bool
  pub xx : Bool
  pub keep_ttl : Bool
  pub expire_at : Option ℕ
  pub has_expire_at : Bool

abbrev pub no_options : SetOptions
no_options = record {
  ex = pos 0;
  px = pos 0;
  nx = false;
  xx = false;
  keep_ttl = false;
  expire_at = none;
  has_expire_at = false;
}

-- `true, nil`; `false, nil` for NX or XX; `ErrOOM`. `fuel` is no outcome of the program.
pub data SetReply : Type 0 where
  done refused err_oom fuel : SetReply

asked_expiry : ℕ → SetOptions → Option ℕ
asked_expiry now opt =
    if opt.has_expire_at
    then opt.expire_at
    else if is_pos opt.px
    then some (now + pos_part opt.px)
    else if is_pos opt.ex
    then some (now + pos_part opt.ex)
    else none

-- The ceiling on every expiry, where one is configured.
cap_expiry : ℕ → ℤ → Option ℕ → Option ℕ
cap_expiry now max_ttl none = none
cap_expiry now max_ttl (some t) =
    if is_pos max_ttl && ltb (now + pos_part max_ttl) t
    then some (now + pos_part max_ttl)
    else some t

unfoldable pub set_expiry : ℕ → ℤ → SetOptions → Option ℕ
unfolding asked_expiry cap_expiry
set_expiry now max_ttl opt = cap_expiry now max_ttl (asked_expiry now opt)

-- KEEPTTL counts where no other expiry is given.
unfoldable pub keeps_ttl : SetOptions → Bool
keeps_ttl opt = opt.keep_ttl && not opt.has_expire_at && is_zero opt.ex && is_zero opt.px

pub drop_due : ℕ → Bytes → Option Entry → Db → Db
unfolding remove_from_shard clear_expiry expired
drop_due now key none db = db
drop_due now key (some e) db =
    if expired e now then clear_expiry key (remove_from_shard (shard_index key db) key e db) else db

-- The lazy removal of an entry that is due, before anything is read.
unfoldable pub purge : ℕ → Bytes → Db → Db
unfolding drop_due find
purge now key db = drop_due now key (find key db) db

abbrev pub resize : ℕ → ℕ → Db → Db
resize old new db = if leb old new then add_used (new - old) db else sub_used (old - new) db

pub write_over : Bytes → Bytes → ℕ → Option ℕ → SetOptions → Entry → Db → Db
unfolding overwrite global_touch note_expiry emit keeps_ttl
write_over key value new_size expires_at opt e db =
    let si = shard_index key db in
    let final = if keeps_ttl opt then e.expires_at else expires_at in
    let db' = resize e.size new_size db in
    let sh = overwrite key e value new_size final (shard_at si db) in
    emit (set_op key value final) (note_expiry key final (global_touch key (put_shard si sh db')))

pub write_new : Bytes → Bytes → ℕ → Option ℕ → Db → Db
unfolding add_new global_push note_expiry emit
write_new key value new_size expires_at db =
    let si = shard_index key db in
    let e : Entry = record { value = value; expires_at = expires_at; size = new_size; freq = 1 } in
    let db' = add_used new_size (put_shard si (add_new key e (shard_at si db)) db) in
    emit (set_op key value expires_at) (note_expiry key expires_at (global_push key db'))

-- After room is made the entry is fetched again, and NX and XX are tested again.
pub write_fetched : Bytes → Bytes → ℕ → Option ℕ → SetOptions → Option Entry → Db → SetReply × Db
unfolding write_over write_new
write_fetched key value new_size expires_at opt none db =
    if opt.xx then (refused, db) else (done, write_new key value new_size expires_at db)
write_fetched key value new_size expires_at opt (some e) db =
    if opt.nx then (refused, db) else (done, write_over key value new_size expires_at opt e db)

pub after_room : Bytes → Bytes → ℕ → Option ℕ → SetOptions → Room × Db → SetReply × Db
unfolding write_fetched find
after_room key value new_size expires_at opt (ok, db) =
    write_fetched key value new_size expires_at opt (find key db) db
after_room key value new_size expires_at opt (oom, db) = (err_oom, db)
after_room key value new_size expires_at opt (out_of_fuel, db) = (fuel, db)

-- The bytes that the write adds.
abbrev pub needed : ℕ → Option Entry → ℕ
needed new_size none = new_size
needed new_size (some e) = if ltb e.size new_size then new_size - e.size else 0

abbrev pub kept_expiry : SetOptions → Option ℕ → Option Entry → Option ℕ
kept_expiry opt expires_at none = expires_at
kept_expiry opt expires_at (some e) = if keeps_ttl opt then e.expires_at else expires_at

module _ (intn : ℕ → ℕ → ℕ) where
  pub set_purged : Bytes → Bytes → ℕ → Option ℕ → SetOptions → Option Entry → Db → SetReply × Db
  unfolding after_room ensure_space keeps_ttl
  set_purged key value new_size expires_at opt existing db =
      if (opt.nx && is_some existing) || (opt.xx && not (is_some existing))
      then (refused, db)
      else after_room key value new_size (kept_expiry opt expires_at existing) opt
          (ensure_space intn (shard_index key db) key (needed new_size existing) new_size db)

  unfoldable pub set : ℕ → Bytes → Bytes → SetOptions → Db → SetReply × Db
  unfolding set_purged purge set_expiry mem_size is_global
  set now key value opt db =
      let new_size = mem_size key value in
      let expires_at = set_expiry now db.max_ttl opt in
      let db' = purge now key db in
      if is_global db.strategy && ltb db.max_memory new_size
      then (err_oom, db)
      else set_purged key value new_size expires_at opt (find key db') db'

del_found : ℕ → Bytes → Option Entry → Db → ℕ × Db
unfolding remove_from_shard clear_expiry expired emit
del_found now key none db = (0, db)
del_found now key (some e) db =
    let db' = clear_expiry key (remove_from_shard (shard_index key db) key e db) in
    if expired e now then (0, db') else (1, emit (del_op (key ∷ [])) db')

unfoldable pub del_one : ℕ → Bytes → Db → ℕ × Db
unfolding del_found find
del_one now key db = del_found now key (find key db) db

-- Keys that are due go too, and are not counted.
unfoldable pub del : ℕ → List Bytes → Db → ℕ × Db
unfolding del_one
del now [] db = (0, db)
del now (key ∷ keys) db =
    let (n, db') = del_one now key db in let (m, db'') = del now keys db' in (n + m, db'')

exists_found : ℕ → Bytes → Option Entry → Db → ℕ × Db
unfolding remove_from_shard clear_expiry expired
exists_found now key none db = (0, db)
exists_found now key (some e) db =
    if expired e now
    then (0, clear_expiry key (remove_from_shard (shard_index key db) key e db))
    else (1, db)

unfoldable pub exists_one : ℕ → Bytes → Db → ℕ × Db
unfolding exists_found find
exists_one now key db = exists_found now key (find key db) db

unfoldable pub exists : ℕ → List Bytes → Db → ℕ × Db
unfolding exists_one
exists now [] db = (0, db)
exists now (key ∷ keys) db =
    let (n, db') = exists_one now key db in let (m, db'') = exists now keys db' in (n + m, db'')
