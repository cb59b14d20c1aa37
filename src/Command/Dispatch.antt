-- ===== src/Command/Dispatch.antt =====
-- The registry of commands and its dispatch: internal/command/registry.go. INFO and TENANTSTATS,
-- which write statistics as text, and SAVE, BGSAVE and LASTSAVE are not among the commands.
use cache_custom.Prelude.{
  ℕ, Bool, true, not, ◌&&◌, Option, none, some, List, [], ◌∷◌, ◌++◌, ite, length, if◌then◌else◌,
}
use cache_custom.Prelude.Int.{pos}
use cache_custom.Bytes.{Bytes, codes, dec_bytes, to_upper, to_lower}
use cache_custom.Dict
use cache_custom.Dict.{Dict}
use cache_custom.Lfu.{member}
use cache_custom.Tenant.{Tenant}
use cache_custom.Access.{Policy, check_policy}
use cache_custom.Pubsub.{channel, pattern}
use cache_custom.Resp.{Value, simple_string, error, integer, bulk_string, array, nil, cons}
use cache_custom.Command.{
  Context, World, Outcome, Handler, answer, wrong_args, subscribed, find_tenant,
}
use cache_custom.Command.Strings.{
  get_command, set_command, del_command, exists_command, mget_command, mset_command, incr_command,
  decr_command, incrby_command, decrby_command, expire_command, pexpire_command, ttl_command,
  pttl_command, persist_command, type_command, dbsize_command, flushdb_command,
}
use cache_custom.Command.Auth.{auth_command}
use cache_custom.Command.Channels.{
  subscribe_command, unsubscribe_command, publish_command, pubsub_command, bulk_all,
}

-- `names` are the names in the order of registration.
pub record Registry : Type 0 where
  pub handlers : Dict Handler
  pub names : List Bytes

abbrev pub empty_registry : Registry
empty_registry = record { handlers = []; names = [] }

unfoldable pub register : Bytes → Handler → Registry → Registry
unfolding to_upper Dict.lookup Dict.insert
register name h r =
    let key = to_upper name in
    record {
      handlers = Dict.insert key h r.handlers;
      names = elim (Dict.lookup key r.handlers) [ none ↦ r.names ++ key ∷ [] | some g ↦ r.names ];
    }

unfoldable pub register_all : List (Bytes × Handler) → Registry → Registry
unfolding register
register_all [] r = r
register_all ((name, h) ∷ hs) r = register_all hs (register name h r)

unfoldable pub ping_in_mode : List Bytes → Context → World → Outcome
ping_in_mode (c ∷ []) ctx w =
    answer (array (cons (bulk_string (codes "pong")) (cons (bulk_string []) nil))) ctx w
ping_in_mode (c ∷ msg ∷ []) ctx w =
    answer (array (cons (bulk_string (codes "pong")) (cons (bulk_string msg) nil))) ctx w
ping_in_mode args ctx w = answer (wrong_args (codes "ping")) ctx w

unfoldable pub ping_plain : List Bytes → Context → World → Outcome
ping_plain (c ∷ []) ctx w = answer (simple_string (codes "PONG")) ctx w
ping_plain (c ∷ msg ∷ []) ctx w = answer (bulk_string msg) ctx w
ping_plain args ctx w = answer (wrong_args (codes "ping")) ctx w

unfoldable pub ping : Handler
unfolding subscribed ping_in_mode ping_plain
ping args ctx w = if subscribed ctx.pubsub w then ping_in_mode args ctx w else ping_plain args ctx w

unfoldable pub echo : Handler
echo (c ∷ msg ∷ []) ctx w = answer (bulk_string msg) ctx w
echo args ctx w = answer (wrong_args (codes "echo")) ctx w

unfoldable pub quit_command : Handler
quit_command (c ∷ []) ctx w = answer (simple_string (codes "OK")) (record ctx { quit = true }) w
quit_command args ctx w = answer (wrong_args (codes "quit")) ctx w

-- COMMAND, over the names of the registry.
unfoldable pub command_command : List Bytes → Handler
unfolding dec_bytes to_lower bulk_all
command_command names (c ∷ []) ctx w = answer (array (bulk_all names)) ctx w
command_command names (c ∷ sub ∷ []) ctx w =
    answer
      (ite (dec_bytes (to_lower sub) (codes "count")) (integer (pos (length names)))
        (error (codes "ERR unknown subcommand or wrong number of arguments for 'command'")))
      ctx w
command_command names args ctx w =
    answer (error (codes "ERR unknown subcommand or wrong number of arguments for 'command'")) ctx w

abbrev pub subscribe_mode_names : List Bytes
subscribe_mode_names =
    codes "SUBSCRIBE"
    ∷ codes "PSUBSCRIBE"
    ∷ codes "UNSUBSCRIBE"
    ∷ codes "PUNSUBSCRIBE"
    ∷ codes "PING"
    ∷ codes "QUIT"
    ∷ []

abbrev pub mode_error : Bytes → Value
mode_error name = error (
    codes "ERR Can't execute '"
    ++ (name
        ++ codes
            "': only (P|S)SUBSCRIBE / (P|S)UNSUBSCRIBE / PING / QUIT are allowed in this context"))

abbrev pub name_of_tenant : Option Tenant → Option Bytes
name_of_tenant none = none
name_of_tenant (some t) = some t.name

-- The check binds a connection only if it has no tenant.
abbrev pub bound_to : Option Bytes → Option Tenant → Option Bytes
bound_to none t = name_of_tenant t
bound_to (some name) t = some name

-- What the check of the policy lets through, bound to the tenant that it leaves.
unfoldable pub run_checked :
    Handler → List Bytes → Option Value × Option Tenant → Context → World → Outcome
run_checked h args (some v, t) ctx w = answer v ctx w
run_checked h args (none, t) ctx w = h args (record ctx { tenant = bound_to ctx.tenant t }) w

unfoldable pub run_found :
    Policy → Bytes → Option Handler → List Bytes → Bytes → Context → World → Outcome
unfolding run_checked check_policy find_tenant
run_found p name none args typed ctx w =
    answer (error (codes "ERR unknown command '" ++ (typed ++ codes "'"))) ctx w
run_found p name (some h) args typed ctx w =
    run_checked h args (check_policy p (find_tenant ctx.tenant w) name) ctx w

unfoldable pub dispatch : Policy → Registry → Handler
unfolding run_found to_upper member subscribed Dict.lookup
dispatch p r [] ctx w = answer (error (codes "ERR empty command")) ctx w
dispatch p r (typed ∷ args) ctx w =
    let name = to_upper typed in
    if subscribed ctx.pubsub w && not (member name subscribe_mode_names)
    then answer (mode_error typed) ctx w
    else run_found p name (Dict.lookup name r.handlers) (typed ∷ args) typed ctx w

module _ (intn : ℕ → ℕ → ℕ) (clock : ℕ → ℕ) (matches : Bytes → Bytes → Bool)
    (accepts : ℕ → Value → Bool) where
  -- The names and handlers, COMMAND over the names that are given.
  unfoldable pub commands : List Bytes → List (Bytes × Handler)
  commands names =
      (codes "PING", ping)
      ∷ (codes "ECHO", echo)
      ∷ (codes "QUIT", quit_command)
      ∷ (codes "COMMAND", command_command names)
      ∷ (codes "AUTH", auth_command)
      ∷ (codes "GET", get_command intn clock)
      ∷ (codes "SET", set_command intn clock)
      ∷ (codes "DEL", del_command intn clock)
      ∷ (codes "EXISTS", exists_command intn clock)
      ∷ (codes "MGET", mget_command intn clock)
      ∷ (codes "MSET", mset_command intn clock)
      ∷ (codes "INCR", incr_command intn clock)
      ∷ (codes "DECR", decr_command intn clock)
      ∷ (codes "INCRBY", incrby_command intn clock)
      ∷ (codes "DECRBY", decrby_command intn clock)
      ∷ (codes "EXPIRE", expire_command intn clock)
      ∷ (codes "PEXPIRE", pexpire_command intn clock)
      ∷ (codes "TTL", ttl_command intn clock)
      ∷ (codes "PTTL", pttl_command intn clock)
      ∷ (codes "PERSIST", persist_command intn clock)
      ∷ (codes "TYPE", type_command intn clock)
      ∷ (codes "DBSIZE", dbsize_command intn clock)
      ∷ (codes "FLUSHDB", flushdb_command intn clock)
      ∷ (codes "SUBSCRIBE", subscribe_command channel)
      ∷ (codes "UNSUBSCRIBE", unsubscribe_command channel)
      ∷ (codes "PSUBSCRIBE", subscribe_command pattern)
      ∷ (codes "PUNSUBSCRIBE", unsubscribe_command pattern)
      ∷ (codes "PUBLISH", publish_command matches accepts)
      ∷ (codes "PUBSUB", pubsub_command matches accepts)
      ∷ []
