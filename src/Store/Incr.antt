-- ===== src/Store/Incr.antt =====
-- `IncrBy` (internal/store/ops.go): a read under the lock of the shard, then a `Set`.
pub mod Laws
pub mod Homed
use cache_custom.Prelude.{Option, none, some, ℕ, if◌then◌else◌}
use cache_custom.Prelude.Int.{ℤ, pos, ◌+ℤ◌}
use cache_custom.Bytes.{Bytes}
use cache_custom.Numbers.{parse_int, format_int, wrap64}
use cache_custom.Shard.{Entry, expired}
use cache_custom.Shard.Pick.{is_some}
use cache_custom.Store.{Db, shard_index, find, remove_from_shard}
use cache_custom.Store.Write.{SetOptions, no_options, SetReply, done, refused, err_oom, set}

pub data IncrReply : Type 0 where
  value : ℤ → IncrReply
  not_integer oom fuel : IncrReply

-- What the read finds: no entry, no number, or the number with its expiry. An entry that is due
-- leaves the shard, but not the tenant's expiry heap.
pub data Current : Type 0 where
  absent no_number : Current
  number : ℤ → Option ℕ → Current

pub current_of : Option ℤ → Entry → Current
current_of none e = no_number
current_of (some n) e = number n e.expires_at

pub read_found : ℕ → Bytes → Option Entry → Db → Current × Db
unfolding current_of expired remove_from_shard parse_int
read_found now key none db = (absent, db)
read_found now key (some e) db =
    if expired e now
    then (absent, remove_from_shard (shard_index key db) key e db)
    else (current_of (parse_int e.value) e, db)

-- A number that is written back keeps its expiry.
abbrev keep_expiry : Option ℕ → SetOptions
keep_expiry exp = record no_options { has_expire_at = is_some exp; expire_at = exp }

pub answer : ℤ → SetReply × Db → IncrReply × Db
answer n (done, db) = (value n, db)
answer n (refused, db) = (value n, db)
answer n (err_oom, db) = (oom, db)
answer n (SetReply.fuel, db) = (fuel, db)

module _ (intn : ℕ → ℕ → ℕ) where
  pub write_back : ℕ → Bytes → ℤ → ℤ → Option ℕ → Db → IncrReply × Db
  unfolding answer set format_int wrap64
  write_back now key cur delta exp db =
      let n = wrap64 (cur +ℤ delta) in
      answer n (set intn now key (format_int n) (keep_expiry exp) db)

  pub incr_from : ℕ → Bytes → ℤ → Current × Db → IncrReply × Db
  unfolding write_back
  incr_from now key delta (absent, db) = write_back now key (pos 0) delta none db
  incr_from now key delta (no_number, db) = (not_integer, db)
  incr_from now key delta (number cur exp, db) = write_back now key cur delta exp db

  -- The clock is read at `now`, and by the `Set` at `now'`.
  unfoldable pub incr_by : ℕ → ℕ → Bytes → ℤ → Db → IncrReply × Db
  unfolding incr_from read_found find
  incr_by now now' key delta db = incr_from now' key delta (read_found now key (find key db) db)
