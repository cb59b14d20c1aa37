-- ===== src/Access/Gate.antt =====
-- What the checks of internal/command/policy.go let through.
use cache_custom.Prelude.{
  ◌≡◌, refl, sym, true, false, ◌||◌, Option, none, some, List, [], ◌∷◌, arith, subst,
}
use cache_custom.Bytes.{Bytes, to_upper, trim_space}
use cache_custom.Lfu.{member}
use cache_custom.Shard.Pick.{is_some}
use cache_custom.Tenant.{Tenant}
use cache_custom.Access.{unauthenticated_allow, never_deny, Policy, deny_all, check_policy}

-- No list of denied names, in whatever letter case or spacing, denies AUTH, PING or QUIT.
pub never_denied :
    (name : Bytes) (deny : List Bytes)
    → member name never_deny ≡ true
    → member name (deny_all deny) ≡ false
unfolding deny_all member
never_denied name [] h = refl
never_denied name (d ∷ ds) h =
    let key = to_upper (trim_space d) in
    let same : key ≡ name → member key never_deny ≡ true =
      λ q. subst (λ n. member n never_deny ≡ true) (sym q) h in
    ground (arith, never_denied name ds, same)

-- Where the policy requires a login or has a default tenant, a command that passes the check and
-- is not open to all is bound to a tenant afterwards.
pub check_policy-binds :
    (p : Policy) (tenant : Option Tenant) (name : Bytes)
    → is_some (check_policy p tenant name).0 ≡ false
    → (p.require_auth || is_some p.default_tenant) ≡ true
    → member name unauthenticated_allow ≡ false
    → is_some (check_policy p tenant name).1 ≡ true
unfolding check_policy
check_policy-binds p none name runs default closed = ground arith
check_policy-binds p (some t) name runs default closed = ground arith
