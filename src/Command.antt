-- ===== src/Command.antt =====
-- Commands and what they run on: internal/command/context.go and registry.go. A tenant is named by
-- its name, which the registry of tenants holds once, and a client of a hub by its number.
pub mod Strings
pub mod Auth
pub mod Channels
pub mod Dispatch
pub mod Isolation
pub mod SetGet
mod Tests
use cache_custom.Prelude.{Bool, true, false, Option, none, some, List, [], ◌∷◌, ◌++◌, ℕ}
use cache_custom.Bytes.{Bytes, codes}
use cache_custom.Dict
use cache_custom.Dict.{Dict}
use cache_custom.Store.{Db}
use cache_custom.Tenant.{Tenant, Status, active, disabled}
use cache_custom.Resp.{Value, error}
use cache_custom.Pubsub.{Hub, new_hub, client_at, in_subscribe_mode}

-- Of one connection. `pubsub` is the tenant of its client and the number of the client there.
pub record Context : Type 0 where
  pub quit : Bool
  pub tenant : Option Bytes
  pub bound : Bool
  pub pubsub : Option (Bytes × ℕ)
  pub multi : List Value

-- What the connections share.
pub record World : Type 0 where
  pub tenants : Dict Tenant
  pub hubs : Dict Hub

pub record Outcome : Type 0 where
  pub reply : Value
  pub ctx : Context
  pub world : World

abbrev pub Handler : Type 0
Handler = List Bytes → Context → World → Outcome

abbrev pub or_new : Option Hub → Hub
or_new none = new_hub
or_new (some h) = h

abbrev pub answer : Value → Context → World → Outcome
answer v ctx w = record { reply = v; ctx = ctx; world = w }

abbrev pub wrong_args : Bytes → Value
wrong_args name = error (codes "ERR wrong number of arguments for '" ++ (name ++ codes "' command"))

abbrev pub put_tenant : Bytes → Tenant → World → World
put_tenant name t w = record w { tenants = Dict.insert name t w.tenants }

abbrev pub put_hub : Bytes → Hub → World → World
put_hub name h w = record w { hubs = Dict.insert name h w.hubs }

unfoldable pub hub_of : Bytes → World → Hub
unfolding Dict.lookup
hub_of name w = or_new (Dict.lookup name w.hubs)

unfoldable pub subscribed : Option (Bytes × ℕ) → World → Bool
unfolding hub_of
subscribed none w = false
subscribed (some (name, c)) w = in_subscribe_mode (client_at c (hub_of name w))

unfoldable pub find_tenant : Option Bytes → World → Option Tenant
unfolding Dict.lookup
find_tenant none w = none
find_tenant (some name) w = Dict.lookup name w.tenants

-- `requireDB`, and what a handler does with the keyspace.
unfoldable pub with_status : (Db → Value × Db) → Bytes → Tenant → Status → Context → World → Outcome
with_status f name t disabled ctx w = answer (error (codes "ERR tenant is disabled")) ctx w
with_status f name t active ctx w =
    let (v, db) = f t.db in answer v ctx (put_tenant name (record t { db = db }) w)

unfoldable pub with_found : (Db → Value × Db) → Bytes → Option Tenant → Context → World → Outcome
unfolding with_status
with_found f name none ctx w = answer (error (codes "NOAUTH Authentication required.")) ctx w
with_found f name (some t) ctx w = with_status f name t t.status ctx w

unfoldable pub with_db : (Db → Value × Db) → Option Bytes → Context → World → Outcome
unfolding with_found Dict.lookup
with_db f none ctx w = answer (error (codes "NOAUTH Authentication required.")) ctx w
with_db f (some name) ctx w = with_found f name (Dict.lookup name w.tenants) ctx w

-- The arguments after the name of the command: none, a key, a key and one more, or some keys.
abbrev pub Body : Type 0
Body = Context → World → Outcome

unfoldable pub on_none : Bytes → Body → Handler
on_none name f (c ∷ []) ctx w = f ctx w
on_none name f args ctx w = answer (wrong_args name) ctx w

unfoldable pub on_key : Bytes → (Bytes → Body) → Handler
on_key name f (c ∷ key ∷ []) ctx w = f key ctx w
on_key name f args ctx w = answer (wrong_args name) ctx w

unfoldable pub on_two : Bytes → (Bytes → Bytes → Body) → Handler
on_two name f (c ∷ key ∷ s ∷ []) ctx w = f key s ctx w
on_two name f args ctx w = answer (wrong_args name) ctx w

unfoldable pub on_keys : Bytes → (List Bytes → Body) → Handler
on_keys name f (c ∷ key ∷ keys) ctx w = f (key ∷ keys) ctx w
on_keys name f args ctx w = answer (wrong_args name) ctx w

unfoldable pub on_pair : Bytes → (Bytes → Bytes → List Bytes → Body) → Handler
on_pair name f (c ∷ key ∷ val ∷ rest) ctx w = f key val rest ctx w
on_pair name f args ctx w = answer (wrong_args name) ctx w

unfoldable pub on_db : (Db → Value × Db) → Body
unfolding with_db
on_db f ctx w = with_db f ctx.tenant ctx w
