-- ===== src/Command/Strings.antt =====
-- The commands on strings and keys: internal/command/strings.go, and FLUSHDB of persist.go.
use cache_custom.Prelude.{
  ℕ, zero, suc, ◌+◌, ◌*◌, ◌-◌, Bool, true, false, not, ◌&&◌, Option, none, some, List, [], ◌∷◌, ite,
  if◌then◌else◌,
}
use cache_custom.Prelude.Int.{ℤ, pos, negsuc, is_pos}
use cache_custom.Bytes.{Bytes, codes, dec_bytes, to_upper}
use cache_custom.Numbers.{parse_int, wrap64}
use cache_custom.Store.{Db, db_size}
use cache_custom.Store.Read.{get, ttl, pttl, type_of}
use cache_custom.Store.Write.{
  SetOptions, no_options, SetReply, done, refused, err_oom, fuel, set, del, exists,
}
use cache_custom.Store.Expiry.{expire, persist}
use cache_custom.Store.Incr.{IncrReply, value, not_integer, oom, incr_by}
use cache_custom.Store.Snapshot.{flush_db}
use cache_custom.Resp.{
  Value, Values, simple_string, error, integer, bulk_string, array, null, nil, cons,
}
use cache_custom.Command.{
  Outcome, Handler, Body, answer, wrong_args, on_none, on_key, on_two, on_keys, on_pair, on_db,
}

abbrev pub oom_error : Value
oom_error = error (codes "OOM command not allowed when used memory > 'maxmemory'")

abbrev pub integer_error : Value
integer_error = error (codes "ERR value is not an integer or out of range")

abbrev pub syntax_error : Value
syntax_error = error (codes "ERR syntax error")

abbrev pub expire_error : Value
expire_error = error (codes "ERR invalid expire time in 'set' command")

abbrev pub or_null : Option Bytes → Value
or_null none = null
or_null (some v) = bulk_string v

-- `time.Duration(n) * unit`, and `-d`, as 64-bit integers.
unfoldable pub duration : ℕ → ℤ → ℤ
unfolding wrap64
duration unit (pos n) = wrap64 (pos (n * unit))
duration unit (negsuc n) = wrap64 (negsuc (suc n * unit - 1))

unfoldable pub negated : ℤ → ℤ
unfolding wrap64
negated (pos zero) = pos 0
negated (pos (suc n)) = negsuc n
negated (negsuc n) = wrap64 (pos (suc n))

-- `incrErr`
pub incr_reply : IncrReply × Db → Value × Db
incr_reply (value n, db) = (integer n, db)
incr_reply (not_integer, db) = (integer_error, db)
incr_reply (oom, db) = (oom_error, db)
incr_reply (IncrReply.fuel, db) = (integer_error, db)

unfoldable pub set_reply : SetReply × Db → Value × Db
set_reply (done, db) = (simple_string (codes "OK"), db)
set_reply (refused, db) = (null, db)
set_reply (err_oom, db) = (oom_error, db)
set_reply (fuel, db) = (null, db)

abbrev pub with_flag : Bytes → SetOptions → SetOptions
with_flag sw opt =
    ite (dec_bytes sw (codes "NX")) (record opt { nx = true })
      (ite (dec_bytes sw (codes "XX")) (record opt { xx = true }) (record opt { keep_ttl = true }))

abbrev pub is_flag : Bytes → Bool
is_flag sw =
    ite (dec_bytes sw (codes "NX")) true
      (ite (dec_bytes sw (codes "XX")) true (ite (dec_bytes sw (codes "KEEPTTL")) true false))

abbrev pub is_time : Bytes → Bool
is_time sw = ite (dec_bytes sw (codes "EX")) true (ite (dec_bytes sw (codes "PX")) true false)

-- EX counts in seconds and PX in milliseconds; the number must be positive.
pub with_time : Bytes → Option ℤ → SetOptions → Option SetOptions
unfolding duration dec_bytes
with_time sw none opt = none
with_time sw (some z) opt =
    if not (is_pos z)
    then none
    else ite (dec_bytes sw (codes "EX")) (some (record opt { ex = duration 1000000000 z }))
        (some (record opt { px = duration 1000000 z }))

pub data Parsed : Type 0 where
  options : SetOptions → Parsed
  invalid : Value → Parsed

-- The loop over the options of SET.
unfoldable pub set_options : List Bytes → SetOptions → Parsed
unfolding with_time parse_int dec_bytes to_upper
set_options [] opt = options opt
set_options (a ∷ []) opt =
    let sw = to_upper a in if is_flag sw then options (with_flag sw opt) else invalid syntax_error
set_options (a ∷ b ∷ more) opt =
    let sw = to_upper a in
    let flagged = set_options (b ∷ more) (with_flag sw opt) in
    let timed : Parsed = elim (with_time sw (parse_int b) opt) [
      | none ↦ invalid expire_error
      | some opt' ↦ set_options more opt'
    ] in
    if is_flag sw then flagged else if is_time sw then timed else invalid syntax_error

pub pair_count_ok : List Bytes → Bool
pair_count_ok [] = true
pair_count_ok (k ∷ []) = false
pair_count_ok (k ∷ v ∷ rest) = pair_count_ok rest

module _ (intn : ℕ → ℕ → ℕ) (clock : ℕ → ℕ) where
  -- `clock n` is the reading of the clock with the number `n` in one command.
  unfoldable pub get_reply : Bytes → Db → Value × Db
  unfolding get
  get_reply key db = let (v, db') = get (clock 0) key db in (or_null v, db')

  unfoldable pub get_command : Handler
  unfolding on_key on_db get_reply
  get_command = on_key (codes "get") λ key. on_db (get_reply key)

  unfoldable pub set_parsed : Bytes → Bytes → Parsed → Body
  unfolding set_reply set on_db
  set_parsed key val (invalid v) ctx w = answer v ctx w
  set_parsed key val (options opt) ctx w =
      if opt.nx && opt.xx
      then answer syntax_error ctx w
      else on_db (λ db. set_reply (set intn (clock 0) key val opt db)) ctx w

  -- `requireDB` comes before the options.
  unfoldable pub checked : Outcome → Outcome → Value → Outcome
  checked known run (error m) = known
  checked known run v = run

  unfoldable pub set_command : Handler
  unfolding on_pair on_db set_parsed checked set_options
  set_command = on_pair (codes "set") λ key val opts ctx w.
      let known = on_db (λ db. (null, db)) ctx w in
      checked known (set_parsed key val (set_options opts no_options) ctx w) known.reply

  pub del_reply : List Bytes → Db → Value × Db
  unfolding del
  del_reply keys db = let (n, db') = del (clock 0) keys db in (integer (pos n), db')

  unfoldable pub del_command : Handler
  unfolding on_keys on_db del_reply
  del_command = on_keys (codes "del") λ keys. on_db (del_reply keys)

  pub exists_reply : List Bytes → Db → Value × Db
  unfolding exists
  exists_reply keys db = let (n, db') = exists (clock 0) keys db in (integer (pos n), db')

  unfoldable pub exists_command : Handler
  unfolding on_keys on_db exists_reply
  exists_command = on_keys (codes "exists") λ keys. on_db (exists_reply keys)

  pub get_each : ℕ → List Bytes → Db → Values × Db
  unfolding get
  get_each n [] db = (nil, db)
  get_each n (k ∷ ks) db =
      let (v, db') = get (clock n) k db in
      let (vs, db'') = get_each (n + 1) ks db' in (cons (or_null v) vs, db'')

  pub mget_reply : List Bytes → Db → Value × Db
  unfolding get_each
  mget_reply keys db = let (vs, db') = get_each 0 keys db in (array vs, db')

  unfoldable pub mget_command : Handler
  unfolding on_keys on_db mget_reply
  mget_command = on_keys (codes "mget") λ keys. on_db (mget_reply keys)

  -- The pairs before one that fails are written.
  pub set_each : ℕ → List Bytes → Db → Value × Db
  unfolding set
  set_each n [] db = (simple_string (codes "OK"), db)
  set_each n (k ∷ []) db = (simple_string (codes "OK"), db)
  set_each n (k ∷ v ∷ rest) db =
      let (r, db') = set intn (clock n) k v no_options db in
      let more = set_each (n + 1) rest db' in
      elim r [ done ↦ more | refused ↦ more | err_oom ↦ (oom_error, db') | fuel ↦ (oom_error, db') ]

  unfoldable pub mset_command : Handler
  unfolding on_pair on_db set_each pair_count_ok
  mset_command = on_pair (codes "mset") λ key val rest ctx w.
      if pair_count_ok rest
      then on_db (set_each 0 (key ∷ val ∷ rest)) ctx w
      else answer (wrong_args (codes "mset")) ctx w

  pub add_to : Bytes → ℤ → Db → Value × Db
  unfolding incr_reply incr_by
  add_to key d db = incr_reply (incr_by intn (clock 0) (clock 1) key d db)

  unfoldable pub incr_command : Handler
  unfolding on_key on_db add_to
  incr_command = on_key (codes "incr") λ key. on_db (add_to key (pos 1))

  unfoldable pub decr_command : Handler
  unfolding on_key on_db add_to
  decr_command = on_key (codes "decr") λ key. on_db (add_to key (negsuc 0))

  -- A number is read after `requireDB`.
  pub number_reply : Option ℤ → (ℤ → Db → Value × Db) → Db → Value × Db
  number_reply none f db = (integer_error, db)
  number_reply (some z) f db = f z db

  unfoldable pub incrby_command : Handler
  unfolding on_two on_db number_reply parse_int add_to
  incrby_command = on_two (codes "incrby") λ key s. on_db (number_reply (parse_int s) (add_to key))

  unfoldable pub decrby_command : Handler
  unfolding on_two on_db number_reply parse_int add_to negated
  decrby_command =
      on_two (codes "decrby")
        λ key s. on_db (number_reply (parse_int s) (λ z. add_to key (negated z)))

  pub expire_in : ℕ → Bytes → ℤ → Db → Value × Db
  unfolding expire duration
  expire_in unit key z db =
      let (n, db') = expire (clock 0) (clock 1) key (duration unit z) db in (integer (pos n), db')

  unfoldable pub expire_command : Handler
  unfolding on_two on_db number_reply parse_int expire_in
  expire_command =
      on_two (codes "expire") λ key s. on_db (number_reply (parse_int s) (expire_in 1000000000 key))

  unfoldable pub pexpire_command : Handler
  unfolding on_two on_db number_reply parse_int expire_in
  pexpire_command =
      on_two (codes "pexpire") λ key s. on_db (number_reply (parse_int s) (expire_in 1000000 key))

  pub ttl_reply : Bytes → Db → Value × Db
  unfolding ttl
  ttl_reply key db = let (n, db') = ttl (clock 0) key db in (integer n, db')

  unfoldable pub ttl_command : Handler
  unfolding on_key on_db ttl_reply
  ttl_command = on_key (codes "ttl") λ key. on_db (ttl_reply key)

  pub pttl_reply : Bytes → Db → Value × Db
  unfolding pttl
  pttl_reply key db = let (n, db') = pttl (clock 0) key db in (integer n, db')

  unfoldable pub pttl_command : Handler
  unfolding on_key on_db pttl_reply
  pttl_command = on_key (codes "pttl") λ key. on_db (pttl_reply key)

  pub persist_reply : Bytes → Db → Value × Db
  unfolding persist
  persist_reply key db = let (n, db') = persist (clock 0) key db in (integer (pos n), db')

  unfoldable pub persist_command : Handler
  unfolding on_key on_db persist_reply
  persist_command = on_key (codes "persist") λ key. on_db (persist_reply key)

  pub type_reply : Bytes → Db → Value × Db
  unfolding type_of
  type_reply key db = let (s, db') = type_of (clock 0) key db in (simple_string s, db')

  unfoldable pub type_command : Handler
  unfolding on_key on_db type_reply
  type_command = on_key (codes "type") λ key. on_db (type_reply key)

  pub dbsize_reply : Db → Value × Db
  unfolding db_size
  dbsize_reply db = (integer (pos (db_size (clock 0) db)), db)

  unfoldable pub dbsize_command : Handler
  unfolding on_none on_db dbsize_reply
  dbsize_command = on_none (codes "dbsize") (on_db dbsize_reply)

  pub flushdb_reply : Db → Value × Db
  unfolding flush_db
  flushdb_reply db = (simple_string (codes "OK"), (flush_db db).1)

  unfoldable pub flushdb_command : Handler
  unfolding on_none on_db flushdb_reply
  flushdb_command = on_none (codes "flushdb") (on_db flushdb_reply)
