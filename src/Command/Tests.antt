-- ===== src/Command/Tests.antt =====
-- A connection of one tenant, and the keyspace of another.
use cache_custom.Prelude.{
  ℕ, ◌≡◌, ◌≢◌, refl, Bool, true, false, none, some, List, [], ◌∷◌, ◌+◌, arith,
}
use cache_custom.Prelude.Int.{pos}
use cache_custom.Bytes.{Bytes, codes, dec_bytes, fnv32a}
use cache_custom.Dict.{lookup}
use cache_custom.Shard.{add64}
use cache_custom.Policy.{allkeys_lru}
use cache_custom.Store.{Config, new, steal, shard_index}
use cache_custom.Tenant.{Tenant, active}
use cache_custom.Access.{Policy}
use cache_custom.Resp.{Value}
use cache_custom.Command.{Context, World}
use cache_custom.Command.Dispatch.{dispatch}
use cache_custom.Resp.{bulk_string}
use cache_custom.Command.Strings.{set_command, get_command}
use cache_custom.Command.SetGet.{Serves, set_get}
use cache_custom.Command.Isolation.{Apart, Owned}
use cache_custom.Command.Isolation.Whole.{registry, dispatch_lem}

abbrev config : Config
config = record {
  max_memory = 600;
  shard_count = 1;
  strategy = 1;
  policy = allkeys_lru;
  max_ttl = pos 0;
}

abbrev tenant : Bytes → Tenant
tenant name = record {
  name = name;
  app_id = 1;
  password = codes "pw";
  status = active;
  db = new config;
  max_memory = 600;
  strategy = steal;
  policy = allkeys_lru;
  shards = 1;
  max_clients = pos 0;
  conn_count = 0;
}

abbrev world : World
world = record {
  tenants = (codes "a", tenant (codes "a")) ∷ (codes "b", tenant (codes "b")) ∷ [];
  hubs = [];
}

abbrev ctx : Context
ctx = record { quit = false; tenant = some (codes "a"); bound = true; pubsub = none; multi = [] }

abbrev policy : Policy
policy = record { require_auth = true; default_tenant = none; deny = [] }

abbrev intn : ℕ → ℕ → ℕ
intn n m = 0

abbrev clock : ℕ → ℕ
clock n = n + 1

abbrev matches : Bytes → Bytes → Bool
matches p ch = true

abbrev accepts : ℕ → Value → Bool
accepts c v = true

abbrev line : List Bytes
line = codes "SET" ∷ codes "k" ∷ codes "1" ∷ []

not_b : some (codes "a") ≢ some (codes "b")
not_b e = ground (arith, e)

ctx-Owned : Owned ctx
ctx-Owned name c e = absurd (cc)

dispatch_lem_example :
    Owned (dispatch policy (registry intn clock matches accepts []) line ctx world).ctx
    × Apart
        (codes "b")
        world
        (dispatch policy (registry intn clock matches accepts []) line ctx world).world
dispatch_lem_example =
    dispatch_lem intn clock matches accepts [] policy line ctx world (codes "b") ctx-Owned not_b

serves : Serves (codes "a") (tenant (codes "a")) ctx world
unfolding lookup dec_bytes
serves = record { bound_here = refl; found = refl; is_active = refl }

set_get_example :
    (get_command intn clock
      (codes "GET" ∷ codes "k" ∷ [])
      ctx
      (set_command intn clock (codes "SET" ∷ codes "k" ∷ codes "1" ∷ []) ctx world).world).reply
    ≡ bulk_string (codes "1")
unfolding new set_command add64 shard_index fnv32a
set_get_example =
    set_get intn clock clock (codes "a") (tenant (codes "a")) ctx world serves (codes "SET")
      (codes "GET") (codes "k") (codes "1") (omega arith) refl refl
