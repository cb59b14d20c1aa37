-- ===== src/Command/Auth.antt =====
-- AUTH and the release of its slot: internal/command/auth.go.
use cache_custom.Prelude.{
  ℕ, Bool, true, false, ◌&&◌, Option, none, some, [], ◌∷◌, ite, if◌then◌else◌,
}
use cache_custom.Bytes.{Bytes, codes, dec_bytes}
use cache_custom.Dict
use cache_custom.Tenant.{
  Tenant, AuthReply, accepted, wrong_pass, tenant_disabled, auth_found, acquire_conn, release_conn,
}
use cache_custom.Pubsub.{close}
use cache_custom.Resp.{simple_string, error}
use cache_custom.Command.{
  Context, World, Outcome, Handler, answer, wrong_args, put_tenant, put_hub, hub_of, find_tenant,
}

-- The slot of the tenant of a connection, if it holds one.
unfoldable pub release_found : Bytes → Option Tenant → World → World
unfolding release_conn
release_found name none w = w
release_found name (some t) w = put_tenant name (release_conn t) w

unfoldable pub release_slot : Option Bytes → Bool → World → World
unfolding release_found find_tenant
release_slot none bound w = w
release_slot (some name) false w = w
release_slot (some name) true w = release_found name (find_tenant (some name) w) w

-- The subscriptions with the tenant before.
unfoldable pub drop_client : Option (Bytes × ℕ) → World → World
unfolding close hub_of
drop_client none w = w
drop_client (some (name, c)) w = put_hub name (close c (hub_of name w)) w

abbrev pub same_tenant : Bytes → Option Bytes → Bool
same_tenant user none = false
same_tenant user (some name) = ite (dec_bytes name user) true false

-- The slot is acquired before the old one is released.
unfoldable pub bind_tenant : Bytes → Bool × Tenant → Context → World → Outcome
unfolding release_slot drop_client
bind_tenant user (false, t) ctx w =
    answer (error (codes "ERR max number of clients reached for tenant")) ctx w
bind_tenant user (true, t) ctx w =
    answer (simple_string (codes "OK"))
      (record ctx { tenant = some user; bound = true; pubsub = none })
      (drop_client ctx.pubsub (release_slot ctx.tenant ctx.bound (put_tenant user t w)))

unfoldable pub auth_reply : Bytes → AuthReply → Context → World → Outcome
unfolding bind_tenant acquire_conn dec_bytes
auth_reply user wrong_pass ctx w =
    answer (error (codes "WRONGPASS invalid username-password pair")) ctx w
auth_reply user tenant_disabled ctx w = answer (error (codes "ERR tenant is disabled")) ctx w
auth_reply user (accepted t) ctx w =
    if same_tenant user ctx.tenant && ctx.bound
    then answer (simple_string (codes "OK")) ctx w
    else bind_tenant user (acquire_conn t) ctx w

unfoldable pub auth_command : Handler
unfolding auth_reply auth_found Dict.lookup
auth_command (c ∷ user ∷ pass ∷ []) ctx w =
    auth_reply user (auth_found (Dict.lookup user w.tenants) pass) ctx w
auth_command args ctx w = answer (wrong_args (codes "auth")) ctx w

-- `ReleaseTenantConn`, when the connection ends.
unfoldable pub release_tenant_conn : Context → World → Context × World
unfolding release_slot
release_tenant_conn ctx w = elim ctx.tenant [
  | none ↦ (ctx, w)
  | some name ↦
      if ctx.bound
      then (record ctx { bound = false }, release_slot (some name) true w)
      else (ctx, w)
]
