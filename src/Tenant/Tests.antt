-- ===== src/Tenant/Tests.antt =====
-- Tenants on a concrete configuration.
use cache_custom.Prelude.{◌≡◌, ◌≤◌, refl, false, [], ◌∷◌, arith}
use cache_custom.Prelude.Int.{pos}
use cache_custom.Bytes.{codes}
use cache_custom.Dict
use cache_custom.Lfu.{member}
use cache_custom.Policy.{allkeys_lru}
use cache_custom.Tenant.{
  TenantConfig, Registry, made, make_tenant, add_tenants, new_registry, authenticate,
}
use cache_custom.Tenant.Login.{config_of, login, authenticate_lem}
use cache_custom.Tenant.Slots.{acquire, release, run, slots_bounded}

abbrev acme : TenantConfig
acme = record {
  name = codes "acme";
  password = codes "secret";
  app_id = 1;
  max_memory = 1000;
  max_ttl = pos 0;
  shard_count = 2;
  strategy = 1;
  policy = allkeys_lru;
  max_clients = pos 2;
  is_disabled = false;
}

abbrev registry : Registry
registry = record { by_name = (codes "acme", make_tenant acme) ∷ []; order = make_tenant acme ∷ [] }

runs : Unit {0}
unfolding add_tenants new_registry make_tenant member Dict.insert run
runs = tt

starts : new_registry (acme ∷ []) ≡ made registry
unfolding runs
starts = refl

authenticate_lem_example :
    authenticate (codes "acme") (codes "x") registry
    ≡ login (config_of (codes "acme") (acme ∷ [])) (codes "x")
authenticate_lem_example = authenticate_lem (acme ∷ []) registry (codes "acme") (codes "x") starts

two_slots : (make_tenant acme).max_clients ≡ pos 2
unfolding runs
two_slots = refl

no_slot_taken : (make_tenant acme).conn_count ≤ 2
unfolding runs
no_slot_taken = omega arith

slots_bounded_example :
    (run (acquire ∷ acquire ∷ acquire ∷ release ∷ []) (make_tenant acme)).conn_count ≤ 2
slots_bounded_example =
    slots_bounded 1 (acquire ∷ acquire ∷ acquire ∷ release ∷ []) (make_tenant acme) two_slots
      no_slot_taken
