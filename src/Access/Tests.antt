-- ===== src/Access/Tests.antt =====
-- The command policy on concrete commands.
use cache_custom.Prelude.{◌≡◌, refl, true, false, ◌||◌, none, some, [], ◌∷◌, ℕ_discrete}
use cache_custom.Bytes.{codes, dec_bytes, to_upper, trim_space}
use cache_custom.Lfu.{member}
use cache_custom.Prelude.Int.{pos}
use cache_custom.Policy.{allkeys_lru}
use cache_custom.Tenant.{Tenant, make_tenant}
use cache_custom.Shard.Pick.{is_some}
use cache_custom.Access.{
  Policy, never_deny, unauthenticated_allow, deny_all, new_policy, check_policy,
}
use cache_custom.Access.Gate.{never_denied, check_policy-binds}

abbrev closed : Policy
closed = new_policy true none (codes " ping" ∷ codes "flushdb" ∷ [])

abbrev guest : Tenant
guest = make_tenant (record {
  name = codes "guest";
  password = codes "secret";
  app_id = 1;
  max_memory = 1000;
  max_ttl = pos 0;
  shard_count = 2;
  strategy = 1;
  policy = allkeys_lru;
  max_clients = pos 2;
  is_disabled = false;
})

abbrev local_profile : Policy
local_profile = new_policy false (some guest) []

runs : Unit {0}
unfolding member dec_bytes ℕ_discrete never_deny unauthenticated_allow deny_all new_policy
    check_policy to_upper trim_space
runs = tt

ping_is_kept : member (codes "PING") never_deny ≡ true
unfolding runs
ping_is_kept = refl

never_denied_example :
    member (codes "PING") (deny_all (codes " ping" ∷ codes "flushdb" ∷ [])) ≡ false
never_denied_example =
    never_denied (codes "PING") (codes " ping" ∷ codes "flushdb" ∷ []) ping_is_kept

get_runs : is_some (check_policy local_profile none (codes "GET")).0 ≡ false
unfolding runs
get_runs = refl

has_default : (local_profile.require_auth || is_some local_profile.default_tenant) ≡ true
unfolding runs
has_default = refl

get_is_closed : member (codes "GET") unauthenticated_allow ≡ false
unfolding runs
get_is_closed = refl

check_policy-binds_example : is_some (check_policy local_profile none (codes "GET")).1 ≡ true
check_policy-binds_example =
    check_policy-binds local_profile none (codes "GET") get_runs has_default get_is_closed
