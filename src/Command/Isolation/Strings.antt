-- ===== src/Command/Isolation/Strings.antt =====
-- What the commands on strings and keys touch (internal/command/strings.go).
use cache_custom.Prelude.{ℕ, Bool, true, false, ◌&&◌, ◌∷◌, if◌then◌else◌}
use cache_custom.Bytes.{Bytes, codes}
use cache_custom.Resp.{Value, simple_string, error, integer, bulk_string, array, null}
use cache_custom.Prelude.Int.{pos, negsuc}
use cache_custom.Numbers.{parse_int}
use cache_custom.Store.Write.{no_options}
use cache_custom.Command.{Context, World, Outcome, answer, on_db, wrong_args}
use cache_custom.Command.Strings.{
  Parsed, options, invalid, set_parsed, checked, set_options, negated, number_reply, add_to,
  expire_in, set_each, get_reply, del_reply, exists_reply, mget_reply, ttl_reply, pttl_reply,
  persist_reply, type_reply, dbsize_reply, flushdb_reply, get_command, set_command, del_command,
  exists_command, mget_command, mset_command, pair_count_ok, incr_command, decr_command,
  incrby_command, decrby_command, expire_command, pexpire_command, ttl_command, pttl_command,
  persist_command, type_command, dbsize_command, flushdb_command,
}
use cache_custom.Command.Isolation.{
  Stays, LocalBody, Local, answer_lem, on_db-Local, on_none-Local, on_key-Local, on_two-Local,
  on_keys-Local, on_pair-Local,
}

pub if-Stays :
    (b : Bool) (ctx : Context) (w : World) (x y : Outcome)
    → Stays ctx w x
    → Stays ctx w y
    → Stays ctx w (if b then x else y)
if-Stays true ctx w x y p q = p
if-Stays false ctx w x y p q = q

module _ (intn : ℕ → ℕ → ℕ) (clock : ℕ → ℕ) where
  checked-Stays :
      (v : Value) (ctx : Context) (w : World) (x y : Outcome)
      → Stays ctx w x
      → Stays ctx w y
      → Stays ctx w (checked intn clock x y v)
  unfolding checked
  checked-Stays (error m) ctx w x y p q = p
  checked-Stays (simple_string m) ctx w x y p q = q
  checked-Stays (integer n) ctx w x y p q = q
  checked-Stays (bulk_string m) ctx w x y p q = q
  checked-Stays (array vs) ctx w x y p q = q
  checked-Stays null ctx w x y p q = q

  pub get_command-Local : Local (get_command intn clock)
  unfolding get_command
  get_command-Local =
      on_key-Local (codes "get") (λ key. on_db (get_reply intn clock key)) λ key. on_db-Local _

  set_parsed_lem : (key val : Bytes) (p : Parsed) → LocalBody (set_parsed intn clock key val p)
  unfolding set_parsed
  set_parsed_lem key val (invalid v) ctx w o = answer_lem v ctx w o
  set_parsed_lem key val (options opt) ctx w o =
      if-Stays (opt.nx && opt.xx) ctx w _ _ (answer_lem _ ctx w o) (on_db-Local _ ctx w o)

  pub set_command-Local : Local (set_command intn clock)
  unfolding set_command
  set_command-Local =
      on_pair-Local (codes "set")
        (λ key val opts ctx w.
          checked intn clock (on_db (λ db. (null, db)) ctx w)
            (set_parsed intn clock key val (set_options opts no_options) ctx w)
            (on_db (λ db. (null, db)) ctx w).reply)
        λ key val opts ctx w o.
          checked-Stays (on_db (λ db. (null, db)) ctx w).reply ctx w _ _ (on_db-Local _ ctx w o)
            (set_parsed_lem key val (set_options opts no_options) ctx w o)

  pub del_command-Local : Local (del_command intn clock)
  unfolding del_command
  del_command-Local =
      on_keys-Local (codes "del") (λ keys. on_db (del_reply intn clock keys)) λ keys. on_db-Local _

  pub exists_command-Local : Local (exists_command intn clock)
  unfolding exists_command
  exists_command-Local =
      on_keys-Local (codes "exists") (λ keys. on_db (exists_reply intn clock keys))
        λ keys. on_db-Local _

  pub mget_command-Local : Local (mget_command intn clock)
  unfolding mget_command
  mget_command-Local =
      on_keys-Local (codes "mget") (λ keys. on_db (mget_reply intn clock keys))
        λ keys. on_db-Local _

  pub mset_command-Local : Local (mset_command intn clock)
  unfolding mset_command
  mset_command-Local =
      on_pair-Local (codes "mset")
        (λ key val rest ctx w.
          if pair_count_ok rest
          then on_db (set_each intn clock 0 (key ∷ val ∷ rest)) ctx w
          else answer (wrong_args (codes "mset")) ctx w)
        λ key val rest ctx w o.
          if-Stays (pair_count_ok rest) ctx w _ _ (on_db-Local _ ctx w o) (answer_lem _ ctx w o)

  pub incr_command-Local : Local (incr_command intn clock)
  unfolding incr_command
  incr_command-Local =
      on_key-Local (codes "incr") (λ key. on_db (add_to intn clock key (pos 1)))
        λ key. on_db-Local _

  pub decr_command-Local : Local (decr_command intn clock)
  unfolding decr_command
  decr_command-Local =
      on_key-Local (codes "decr") (λ key. on_db (add_to intn clock key (negsuc 0)))
        λ key. on_db-Local _

  pub incrby_command-Local : Local (incrby_command intn clock)
  unfolding incrby_command
  incrby_command-Local =
      on_two-Local (codes "incrby")
        (λ key s. on_db (number_reply intn clock (parse_int s) (add_to intn clock key)))
        λ key s. on_db-Local _

  pub decrby_command-Local : Local (decrby_command intn clock)
  unfolding decrby_command
  decrby_command-Local =
      on_two-Local (codes "decrby")
        (λ key s.
          on_db (number_reply intn clock (parse_int s) (λ z. add_to intn clock key (negated z))))
        λ key s. on_db-Local _

  pub expire_command-Local : Local (expire_command intn clock)
  unfolding expire_command
  expire_command-Local =
      on_two-Local (codes "expire")
        (λ key s.
          on_db (number_reply intn clock (parse_int s) (expire_in intn clock 1000000000 key)))
        λ key s. on_db-Local _

  pub pexpire_command-Local : Local (pexpire_command intn clock)
  unfolding pexpire_command
  pexpire_command-Local =
      on_two-Local (codes "pexpire")
        (λ key s. on_db (number_reply intn clock (parse_int s) (expire_in intn clock 1000000 key)))
        λ key s. on_db-Local _

  pub ttl_command-Local : Local (ttl_command intn clock)
  unfolding ttl_command
  ttl_command-Local =
      on_key-Local (codes "ttl") (λ key. on_db (ttl_reply intn clock key)) λ key. on_db-Local _

  pub pttl_command-Local : Local (pttl_command intn clock)
  unfolding pttl_command
  pttl_command-Local =
      on_key-Local (codes "pttl") (λ key. on_db (pttl_reply intn clock key)) λ key. on_db-Local _

  pub persist_command-Local : Local (persist_command intn clock)
  unfolding persist_command
  persist_command-Local =
      on_key-Local (codes "persist") (λ key. on_db (persist_reply intn clock key))
        λ key. on_db-Local _

  pub type_command-Local : Local (type_command intn clock)
  unfolding type_command
  type_command-Local =
      on_key-Local (codes "type") (λ key. on_db (type_reply intn clock key)) λ key. on_db-Local _

  pub dbsize_command-Local : Local (dbsize_command intn clock)
  unfolding dbsize_command
  dbsize_command-Local =
      on_none-Local (codes "dbsize") (on_db (dbsize_reply intn clock)) (on_db-Local _)

  pub flushdb_command-Local : Local (flushdb_command intn clock)
  unfolding flushdb_command
  flushdb_command-Local =
      on_none-Local (codes "flushdb") (on_db (flushdb_reply intn clock)) (on_db-Local _)
