-- ===== src/Tenant/Login.antt =====
-- Who may log in to a registry made from a configuration (internal/tenant/registry.go).
use cache_custom.Prelude.{
  ◌≡◌, refl, subst, ap, ◌∙◌, false, Option, none, some, List, [], ◌∷◌, ◌++◌, if◌then◌else◌, ite,
  arith, Bool-cases, Option-cases, inl, inr,
}
use cache_custom.Bytes.{Bytes, dec_bytes}
use cache_custom.Dict
use cache_custom.Dict.{Dict}
use cache_custom.Lfu.{member}
use cache_custom.Tenant.{
  TenantConfig, Tenant, Registry, made, make_tenant, add_tenants, new_registry, AuthReply, accepted,
  wrong_pass, tenant_disabled, authenticate, auth_found, check_password,
}

-- The configuration of a name: the first one.
unfoldable pub config_of : Bytes → List TenantConfig → Option TenantConfig
config_of k [] = none
config_of k (c ∷ cs) = ite (dec_bytes c.name k) (some c) (config_of k cs)

-- The names seen are those in the map.
abbrev Sees : List Bytes → Dict Tenant → Type 0
Sees seen m = (k : Bytes) → member k seen ≡ false → Dict.lookup k m ≡ none

-- What the map of the registry holds at a name in the end.
abbrev ends_with : Option Tenant → Option TenantConfig → Option Tenant
ends_with none none = none
ends_with none (some c) = some (make_tenant c)
ends_with (some t) _ = some t

first_wins :
    {P : Type 0} (d : Dec P) (c : TenantConfig) (o : Option TenantConfig) (old new : Option Tenant)
    → new ≡ ite d (some (make_tenant c)) old
    → (P → old ≡ none)
    → ends_with new o ≡ ends_with old (ite d (some c) o)
first_wins (yes p) c o old new e fresh = rw (e, fresh p) refl
first_wins (no q) c o old new e fresh = rw e refl

add_tenants-lookup :
    (cs : List TenantConfig) (seen : List Bytes) (r r' : Registry) (k : Bytes)
    → Sees seen r.by_name
    → add_tenants cs seen r ≡ made r'
    → Dict.lookup k r'.by_name ≡ ends_with (Dict.lookup k r.by_name) (config_of k cs)
unfolding add_tenants config_of member
add_tenants-lookup [] seen r r' k sees e = elim (Option-cases (Dict.lookup k r.by_name)) [
  | inl out ↦ ground arith
  | inr (t, held) ↦ ground arith
]
add_tenants-lookup (c ∷ cs) seen r r' k sees e =
    let t = make_tenant c in
    let m' = Dict.insert c.name t r.by_name in
    let r2 : Registry = record { by_name = m'; order = r.order ++ t ∷ [] } in
    let sees' : Sees (c.name ∷ seen) m' =
      λ j out. ground (arith, Dict.lookup-insert c.name j t r.by_name, sees j) in
    let fresh : c.name ≡ k → member c.name seen ≡ false → Dict.lookup k r.by_name ≡ none =
      λ q out. sees k (subst (λ n. member n seen ≡ false) q out) in
    let made' : add_tenants cs (c.name ∷ seen) r2 ≡ made r' = ground (arith, e) in
    let new_name : member c.name seen ≡ false = ground (arith, e) in
    add_tenants-lookup cs (c.name ∷ seen) r2 r' k sees' made'
    ∙ first_wins (dec_bytes c.name k) c (config_of k cs) (Dict.lookup k r.by_name)
        (Dict.lookup k m') (Dict.lookup-insert c.name k t r.by_name) (λ q. fresh q new_name)

-- The reply of a login, by the configuration of the name.
unfoldable pub login : Option TenantConfig → Bytes → AuthReply
unfolding make_tenant
login none password = wrong_pass
login (some c) password =
    if c.is_disabled
    then tenant_disabled
    else ite (dec_bytes c.password password) (accepted (make_tenant c)) wrong_pass

auth_found-login :
    (o : Option TenantConfig) (password : Bytes)
    → auth_found (ends_with none o) password ≡ login o password
unfolding auth_found check_password login make_tenant
auth_found-login none password = refl
auth_found-login (some c) password = elim (Bool-cases c.is_disabled) [
  | inl never ↦ rw never refl
  | inr may ↦ rw may refl
]

-- On a registry that a configuration makes, a login with a name and a password gives the tenant
-- made from the entry of that name if it is not disabled and the password is its own; for an
-- unknown name or another password it gives WRONGPASS, and for a disabled tenant the disabled
-- error.
pub authenticate_lem :
    (cs : List TenantConfig) (r : Registry) (username password : Bytes)
    → new_registry cs ≡ made r
    → authenticate username password r ≡ login (config_of username cs) password
unfolding new_registry authenticate
authenticate_lem [] r username password e = absurd cc
authenticate_lem (c ∷ cs) r username password e =
    let empty : Registry = record { by_name = []; order = [] } in
    ap (λ o. auth_found o password)
      (add_tenants-lookup (c ∷ cs) [] empty r username (λ j out. refl) e)
    ∙ auth_found-login (config_of username (c ∷ cs)) password
