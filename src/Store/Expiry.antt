-- ===== src/Store/Expiry.antt =====
-- `Expire`, `setExpireAt`, `Persist` (internal/store/ops.go) and the periodic expiry
-- (internal/store/expiry.go).
pub mod Laws
pub mod Homed
use cache_custom.Prelude.{
  ℕ, zero, suc, ◌+◌, ◌-◌, ◌*◌, Bool, true, false, not, ◌&&◌, ◌||◌, Option, none, some, List, [],
  ◌∷◌, ◌==◌, ltb, leb, if◌then◌else◌, ite, length,
}
use cache_custom.Prelude.Int.{ℤ, is_pos, pos_part}
use cache_custom.Bytes.{Bytes, dec_bytes}
use cache_custom.Dict
use cache_custom.Heap
use cache_custom.Heap.{Heap, ExpItem}
use cache_custom.Shard.{Entry, Shard, expired, ttl_update}
use cache_custom.Store.{
  Db, shard_index, shard_at, put_shard, find, remove_from_shard, clear_expiry, note_expiry, emit,
  expire_op, persist_op,
}
use cache_custom.Store.Write.{del}

-- The entry with a new expiry, in the map and in the heap of its shard.
pub put_expiry : Bytes → Entry → Option ℕ → Db → Db
unfolding ttl_update
put_expiry key e at db =
    let si = shard_index key db in
    let sh = shard_at si db in
    put_shard si
      (ttl_update key at
        (record sh { data' = Dict.insert key (record e { expires_at = at }) sh.data' }))
      db

pub set_expire_at_found : ℕ → Bytes → ℕ → Option Entry → Db → ℕ × Db
unfolding expired remove_from_shard clear_expiry note_expiry emit put_expiry
set_expire_at_found now key at none db = (0, db)
set_expire_at_found now key at (some e) db =
    if expired e now
    then (0, clear_expiry key (remove_from_shard (shard_index key db) key e db))
    else (1, emit (expire_op key at) (note_expiry key (some at) (put_expiry key e (some at) db)))

unfoldable pub set_expire_at : ℕ → Bytes → ℕ → Db → ℕ × Db
unfolding set_expire_at_found find
set_expire_at now key at db = set_expire_at_found now key at (find key db) db

-- No more than the ceiling on every expiry, where one is configured.
abbrev pub cap_duration : ℤ → ℤ → ℕ
cap_duration max_ttl d =
    if is_pos max_ttl && ltb (pos_part max_ttl) (pos_part d) then pos_part max_ttl else pos_part d

-- The clock is read once for the deadline, at `now`, and once more, at `now'`.
unfoldable pub expire : ℕ → ℕ → Bytes → ℤ → Db → ℕ × Db
unfolding set_expire_at del
expire now now' key d db =
    let (n, gone) = del now (key ∷ []) db in
    if is_pos d
    then set_expire_at now' key (now + cap_duration db.max_ttl d) db
    else (if ltb 0 n then 1 else 0, gone)

pub persist_found : ℕ → Bytes → Option Entry → Db → ℕ × Db
unfolding expired remove_from_shard clear_expiry emit put_expiry
persist_found now key none db = (0, db)
persist_found now key (some e) db =
    if expired e now
    then (0, clear_expiry key (remove_from_shard (shard_index key db) key e db))
    else elim e.expires_at [
      | none ↦ (0, db)
      | some t ↦ (1, emit (persist_op key) (clear_expiry key (put_expiry key e none db)))
    ]

unfoldable pub persist : ℕ → Bytes → Db → ℕ × Db
unfolding persist_found find
persist now key db = persist_found now key (find key db) db

delete_found : ℕ → Bytes → Option Entry → Db → Bool × Db
unfolding expired remove_from_shard clear_expiry
delete_found now key none db = (false, db)
delete_found now key (some e) db =
    if expired e now
    then (true, clear_expiry key (remove_from_shard (shard_index key db) key e db))
    else (false, db)

unfoldable pub delete_if_expired : ℕ → Bytes → Db → Bool × Db
unfolding delete_found find
delete_if_expired now key db = delete_found now key (find key db) db

drop_stale_at : Option ℕ → ExpItem → Db → Db
drop_stale_at none it db = db
drop_stale_at (some i) it db =
    let here = Heap.get! db.exp.items i in
    if ltb i (length db.exp.items) && here.at == it.at
    then ite (dec_bytes here.key it.key) (record db { exp = Heap.remove_at i db.exp }) db
    else db

-- An item that no key backs goes out of the heap, if it is still there.
drop_stale : ExpItem → Db → Db
unfolding drop_stale_at
drop_stale it db = drop_stale_at (Dict.lookup it.key db.exp.idx) it db

expire_root : ℕ → List ExpItem → ℕ → Db → (ℕ → Db → ℕ × Db) → ℕ × Db
unfolding delete_if_expired drop_stale
expire_root now [] removed db next = (removed, db)
expire_root now (it ∷ _) removed db next =
    let (gone, db') = delete_if_expired now it.key db in
    let after = if gone then next (removed + 1) db' else next removed (drop_stale it db') in
    if ltb now it.at then (removed, db) else after

-- Every round takes at least its own item out of the heap.
expire_due_fuel : ℕ → ℕ → ℕ → ℕ → Db → ℕ × Db
unfolding expire_root
expire_due_fuel zero now limit removed db = (removed, db)
expire_due_fuel (suc fuel) now limit removed db =
    let step = expire_root now db.exp.items removed db (expire_due_fuel fuel now limit) in
    if ltb removed limit then step else (removed, db)

-- The number of keys removed, at most `limit`.
unfoldable pub expire_due : ℕ → ℕ → Db → ℕ × Db
unfolding expire_due_fuel
expire_due now limit db = expire_due_fuel (suc (length db.exp.items)) now limit 0 db
