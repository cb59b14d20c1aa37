-- ===== src/Access.antt =====
-- Which commands a connection may run: internal/command/policy.go.
pub mod Gate
mod Tests
use cache_custom.Prelude.{
  Bool, true, false, not, ◌&&◌, ◌||◌, Option, none, some, List, [], ◌∷◌, ◌++◌, if◌then◌else◌, ite,
}
use cache_custom.Bytes.{Bytes, codes, to_upper, to_lower, trim_space}
use cache_custom.Lfu.{member}
use cache_custom.Tenant.{Tenant, is_empty_text}
use cache_custom.Resp.{Value, error}

unfoldable pub unauthenticated_allow : List Bytes
unauthenticated_allow =
    codes "AUTH"
    ∷ codes "PING"
    ∷ codes "ECHO"
    ∷ codes "QUIT"
    ∷ codes "COMMAND"
    ∷ codes "INFO"
    ∷ codes "TENANTSTATS"
    ∷ []

unfoldable pub never_deny : List Bytes
never_deny = codes "AUTH" ∷ codes "PING" ∷ codes "QUIT" ∷ []

pub record Policy : Type 0 where
  pub require_auth : Bool
  pub default_tenant : Option Tenant
  pub deny : List Bytes

unfoldable pub deny_all : List Bytes → List Bytes
unfolding never_deny to_upper trim_space member
deny_all [] = []
deny_all (d ∷ ds) =
    let key = to_upper (trim_space d) in
    let rest = deny_all ds in
    if is_empty_text key then rest else if member key never_deny then rest else key ∷ rest

unfoldable pub new_policy : Bool → Option Tenant → List Bytes → Policy
unfolding deny_all
new_policy require_auth default_tenant deny = record {
  require_auth = require_auth;
  default_tenant = default_tenant;
  deny = deny_all deny;
}

-- The tenant that the connection is bound to after the check.
abbrev pub auto_bind : Option Tenant → Option Tenant → Option Tenant
auto_bind (some t) default_tenant = some t
auto_bind none default_tenant = default_tenant

-- `none` lets the command run.
unfoldable pub check_policy : Policy → Option Tenant → Bytes → Option Value × Option Tenant
unfolding unauthenticated_allow member to_lower
check_policy p tenant name =
    if member name p.deny
    then (
      some (
          error (
            codes "ERR command '"
            ++ to_lower name
            ++ codes "' is disabled by server configuration")),
      tenant,
    )
    else if not p.require_auth
    then (none, auto_bind tenant p.default_tenant)
    else elim tenant [
      | some t ↦ (none, some t)
      | none ↦
          if member name unauthenticated_allow
          then (none, none)
          else (some (error (codes "NOAUTH Authentication required.")), none)
    ]
