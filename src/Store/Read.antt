-- ===== src/Store/Read.antt =====
-- `Get`, `PTTL`, `TTL` and `Type` (internal/store/ops.go).
pub mod Laws
pub mod Homed
use cache_custom.Prelude.{
  ℕ, zero, suc, ◌+◌, ◌-◌, ◌/◌, ◌^◌, Bool, true, false, Option, none, some, List, [], ◌∷◌, ◌==◌, leb,
  if◌then◌else◌, min,
}
use cache_custom.Prelude.Int.{ℤ, pos, negsuc}
use cache_custom.Bytes.{Bytes, codes}
use cache_custom.Shard.{Entry, Shard, expired, touch}
use cache_custom.Store.{
  Db, shard_index, shard_at, put_shard, find, remove_from_shard, clear_expiry, global_touch,
}
use cache_custom.Store.Write.{purge, exists}

abbrev miss : Db → Db
miss db = record db { misses = db.misses + 1 }

get_found : ℕ → Bytes → Option Entry → Db → Option Bytes × Db
unfolding expired remove_from_shard clear_expiry touch global_touch
get_found now key none db = (none, miss db)
get_found now key (some e) db =
    let si = shard_index key db in
    let hit = global_touch key (put_shard si (touch key e (shard_at si db)) db) in
    if expired e now
    then (none, miss (clear_expiry key (remove_from_shard si key e db)))
    else (some e.value, record hit { hits = db.hits + 1 })

unfoldable pub get : ℕ → Bytes → Db → Option Bytes × Db
unfolding get_found find
get now key db = get_found now key (find key db) db

-- A difference of times is a duration, which stops at 2^63 - 1 nanoseconds.
abbrev pub max_duration : ℕ
max_duration = 2 ^ 63 - 1

millis_left : ℕ → ℕ → ℕ
millis_left now t = min (t - now) max_duration / 1000000

pttl_found : ℕ → Bytes → Option Entry → Db → ℤ × Db
unfolding expired remove_from_shard clear_expiry millis_left
pttl_found now key none db = (negsuc 1, db)
pttl_found now key (some e) db =
    if expired e now
    then (negsuc 1, clear_expiry key (remove_from_shard (shard_index key db) key e db))
    else elim e.expires_at [ none ↦ (negsuc 0, db) | some t ↦ (pos (millis_left now t), db) ]

unfoldable pub pttl : ℕ → Bytes → Db → ℤ × Db
unfolding pttl_found find
pttl now key db = pttl_found now key (find key db) db

abbrev seconds : ℤ → ℤ
seconds (pos ms) = pos ((ms + 999) / 1000)
seconds (negsuc n) = negsuc n

unfoldable pub ttl : ℕ → Bytes → Db → ℤ × Db
unfolding pttl
ttl now key db = let (ms, db') = pttl now key db in (seconds ms, db')

unfoldable pub type_of : ℕ → Bytes → Db → Bytes × Db
unfolding exists
type_of now key db =
    let (n, db') = exists now (key ∷ []) db in
    (if n == 0 then codes "none" else codes "string", db')
