-- ===== src/Tenant.antt =====
-- Tenants, their authentication and their connection slots: internal/tenant/registry.go. The hub of
-- Pub/Sub messages of a tenant is left out.
pub mod Login
pub mod Slots
mod Tests
use cache_custom.Prelude.{
  ℕ, zero, suc, ◌+◌, ◌-◌, Bool, true, false, not, ◌&&◌, ◌||◌, Option, none, some, List, [], ◌∷◌,
  ◌++◌, ◌==◌, ltb, leb, if◌then◌else◌, ite, length,
}
use cache_custom.Prelude.Int.{ℤ, pos, is_pos, pos_part}
use cache_custom.Bytes.{Bytes, dec_bytes}
use cache_custom.Dict
use cache_custom.Dict.{Dict}
use cache_custom.Lfu.{member}
use cache_custom.Policy.{EvictionPolicy, allkeys_lru, name_of}
use cache_custom.Store.{Config, Db, Strategy, new, strategy_of}

pub data Status : Type 0 where
  active disabled : Status

pub record TenantConfig : Type 0 where
  pub name : Bytes
  pub password : Bytes
  pub app_id : ℕ
  pub max_memory : ℕ
  pub max_ttl : ℤ
  pub shard_count : ℕ
  pub strategy : ℕ
  pub policy : EvictionPolicy
  pub max_clients : ℤ
  pub is_disabled : Bool

pub record Tenant : Type 0 where
  pub name : Bytes
  pub app_id : ℕ
  pub password : Bytes
  pub status : Status
  pub db : Db
  pub max_memory : ℕ
  pub strategy : Strategy
  pub policy : EvictionPolicy
  pub shards : ℕ
  pub max_clients : ℤ
  pub conn_count : ℕ

pub record Registry : Type 0 where
  pub by_name : Dict Tenant
  pub order : List Tenant

pub data ConfigError : Type 0 where
  no_tenants no_name duplicate_name no_password : ConfigError

pub data NewReply : Type 0 where
  made : Registry → NewReply
  invalid : ConfigError → NewReply

make_db : ℕ → EvictionPolicy → TenantConfig → Db
unfolding new
make_db shards policy c = new (record {
  max_memory = c.max_memory;
  shard_count = shards;
  strategy = c.strategy;
  policy = policy;
  max_ttl = c.max_ttl;
})

unfoldable pub make_tenant : TenantConfig → Tenant
unfolding make_db strategy_of name_of dec_bytes
make_tenant c =
    let sc = if ltb c.shard_count 1 then 4 else c.shard_count in
    let pol = ite (dec_bytes (name_of c.policy) []) allkeys_lru c.policy in
    record {
      name = c.name;
      app_id = c.app_id;
      password = c.password;
      status = if c.is_disabled then disabled else active;
      db = make_db sc pol c;
      max_memory = c.max_memory;
      strategy = strategy_of c.strategy;
      policy = pol;
      shards = sc;
      max_clients = c.max_clients;
      conn_count = 0;
    }

abbrev pub is_empty_text : Bytes → Bool
is_empty_text [] = true
is_empty_text (c ∷ cs) = false

unfoldable pub add_tenants : List TenantConfig → List Bytes → Registry → NewReply
unfolding make_tenant member
add_tenants [] seen r = made r
add_tenants (c ∷ cs) seen r =
    let t = make_tenant c in
    let rest =
      add_tenants cs (c.name ∷ seen)
        (record { by_name = Dict.insert c.name t r.by_name; order = r.order ++ t ∷ [] }) in
    if is_empty_text c.name
    then invalid no_name
    else if member c.name seen
    then invalid duplicate_name
    else if is_empty_text c.password
    then invalid no_password
    else rest

unfoldable pub new_registry : List TenantConfig → NewReply
unfolding add_tenants
new_registry [] = invalid no_tenants
new_registry (c ∷ cs) = add_tenants (c ∷ cs) [] (record { by_name = []; order = [] })

pub data AuthReply : Type 0 where
  accepted : Tenant → AuthReply
  wrong_pass tenant_disabled : AuthReply

unfoldable pub check_password : Tenant → Status → Bytes → AuthReply
check_password t disabled password = tenant_disabled
check_password t active password = ite (dec_bytes t.password password) (accepted t) wrong_pass

unfoldable pub auth_found : Option Tenant → Bytes → AuthReply
unfolding check_password
auth_found none password = wrong_pass
auth_found (some t) password = check_password t t.status password

unfoldable pub authenticate : Bytes → Bytes → Registry → AuthReply
unfolding auth_found Dict.lookup
authenticate username password r = auth_found (Dict.lookup username r.by_name) password

abbrev pub get_tenant : Bytes → Registry → Option Tenant
get_tenant name r = Dict.lookup name r.by_name

abbrev pub all_tenants : Registry → List Tenant
all_tenants r = r.order

abbrev pub tenant_count : Registry → ℕ
tenant_count r = length r.order

-- A limit of 0 or less is none.
unfoldable pub acquire_conn : Tenant → Bool × Tenant
acquire_conn t =
    if is_pos t.max_clients && leb (pos_part t.max_clients) t.conn_count
    then (false, t)
    else (true, record t { conn_count = t.conn_count + 1 })

-- The count stops at 0.
unfoldable pub release_conn : Tenant → Tenant
release_conn t = record t { conn_count = t.conn_count - 1 }
