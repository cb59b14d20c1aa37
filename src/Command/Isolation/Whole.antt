-- ===== src/Command/Isolation/Whole.antt =====
-- What a dispatched command touches (internal/command/registry.go).
use cache_custom.Prelude.{
  ℕ, ◌≡◌, ◌≢◌, refl, ap, sym, subst, ◌∙◌, Bool, true, false, not, ◌&&◌, ◌||◌, Option, none, some,
  List, [], ◌∷◌, ite, if◌then◌else◌, arith, Bool-cases, inl, inr,
}
use cache_custom.Bytes.{Bytes, dec_bytes, to_upper}
use cache_custom.Dict
use cache_custom.Dict.{Dict, lookup-insert}
use cache_custom.Lfu.{member}
use cache_custom.Tenant.{Tenant}
use cache_custom.Access.{Policy, check_policy}
use cache_custom.Pubsub.{channel, pattern}
use cache_custom.Resp.{Value}
use cache_custom.Command.{Context, World, Handler, subscribed, find_tenant}
use cache_custom.Command.Dispatch.{
  Registry, empty_registry, register, register_all, commands, subscribe_mode_names, bound_to,
  name_of_tenant, run_checked, run_found, dispatch,
}
use cache_custom.Command.Isolation.{Apart, Apart-self, Owned, Local}
use cache_custom.Command.Isolation.Strings.{
  get_command-Local, set_command-Local, del_command-Local, exists_command-Local, mget_command-Local,
  mset_command-Local, incr_command-Local, decr_command-Local, incrby_command-Local,
  decrby_command-Local, expire_command-Local, pexpire_command-Local, ttl_command-Local,
  pttl_command-Local, persist_command-Local, type_command-Local, dbsize_command-Local,
  flushdb_command-Local,
}
use cache_custom.Command.Isolation.Auth.{auth_command-Local}
use cache_custom.Command.Isolation.Channels.{
  subscribe_command-Local, unsubscribe_command-Local, publish_command-Local, pubsub_command-Local,
}
use cache_custom.Command.Isolation.Plain.{
  ping-Local, echo-Local, quit_command-Local, command_command-Local,
}

-- A registry whose handlers all stay with the tenant.
abbrev AllLocal : Registry → Type 0
AllLocal r = (name : Bytes) (h : Handler) → Dict.lookup name r.handlers ≡ some h → Local h

abbrev EachLocal : List (Bytes × Handler) → Type 0
EachLocal [] = Unit {0}
EachLocal ((name, h) ∷ hs) = Local h × EachLocal hs

abbrev FoundLocal : Option Handler → Type 0
FoundLocal none = Unit {0}
FoundLocal (some h) = Local h

register-AllLocal :
    (name : Bytes) (h : Handler) (r : Registry)
    → Local h
    → AllLocal r
    → AllLocal (register name h r)
unfolding register
register-AllLocal name h r l all u g e =
    at_name (dec_bytes (to_upper name) u) (sym (lookup-insert (to_upper name) u h r.handlers) ∙ e)
  where
    at_name :
        (d : Dec (to_upper name ≡ u)) → ite d (some h) (Dict.lookup u r.handlers) ≡ some g → Local g
    at_name (yes p) q = subst FoundLocal q l
    at_name (no p) q = all u g q

register_all-AllLocal :
    (hs : List (Bytes × Handler)) (r : Registry)
    → EachLocal hs
    → AllLocal r
    → AllLocal (register_all hs r)
unfolding register_all
register_all-AllLocal [] r each all = all
register_all-AllLocal ((name, h) ∷ hs) r each all =
    register_all-AllLocal hs (register name h r) each.1 (register-AllLocal name h r each.0 all)

module _ (intn : ℕ → ℕ → ℕ) (clock : ℕ → ℕ) (matches : Bytes → Bytes → Bool)
    (accepts : ℕ → Value → Bool) (names : List Bytes) where
  abbrev pub registry : Registry
  registry = register_all (commands intn clock matches accepts names) empty_registry

  commands-EachLocal : EachLocal (commands intn clock matches accepts names)
  unfolding commands
  commands-EachLocal = (
    ping-Local,
    (
      echo-Local,
      (
        quit_command-Local,
        (
          command_command-Local names,
          (
            auth_command-Local,
            (
              get_command-Local intn clock,
              (
                set_command-Local intn clock,
                (
                  del_command-Local intn clock,
                  (
                    exists_command-Local intn clock,
                    (
                      mget_command-Local intn clock,
                      (
                        mset_command-Local intn clock,
                        (
                          incr_command-Local intn clock,
                          (
                            decr_command-Local intn clock,
                            (
                              incrby_command-Local intn clock,
                              (
                                decrby_command-Local intn clock,
                                (
                                  expire_command-Local intn clock,
                                  (
                                    pexpire_command-Local intn clock,
                                    (
                                      ttl_command-Local intn clock,
                                      (
                                        pttl_command-Local intn clock,
                                        (
                                          persist_command-Local intn clock,
                                          (
                                            type_command-Local intn clock,
                                            (
                                              dbsize_command-Local intn clock,
                                              (
                                                flushdb_command-Local intn clock,
                                                (
                                                  subscribe_command-Local channel,
                                                  (
                                                    unsubscribe_command-Local channel,
                                                    (
                                                      subscribe_command-Local pattern,
                                                      (
                                                        unsubscribe_command-Local pattern,
                                                        (
                                                          publish_command-Local matches accepts,
                                                          (
                                                            pubsub_command-Local matches accepts,
                                                            tt,
                                                          ),
                                                        ),
                                                      ),
                                                    ),
                                                  ),
                                                ),
                                              ),
                                            ),
                                          ),
                                        ),
                                      ),
                                    ),
                                  ),
                                ),
                              ),
                            ),
                          ),
                        ),
                      ),
                    ),
                  ),
                ),
              ),
            ),
          ),
        ),
      ),
    ),
  )

  registry-AllLocal : AllLocal registry
  registry-AllLocal =
      register_all-AllLocal (commands intn clock matches accepts names) empty_registry
        commands-EachLocal nothing
    where
      nothing : AllLocal empty_registry
      nothing name h e = absurd (unfold Dict.lookup in cc)

  -- The tenant that a handler runs for: that of the connection, or else the default.
  checked_tenant :
      (p : Policy) (name : Bytes)
      → (check_policy p none name).1
        ≡ (if member name p.deny || p.require_auth then none else p.default_tenant)
  unfolding check_policy
  checked_tenant p name = ground arith

  bound_apart :
      (p : Policy) (name u : Bytes) (tenant : Option Bytes) (w : World)
      → bound_to tenant p.default_tenant ≢ some u
      → bound_to tenant (check_policy p (find_tenant tenant w) name).1 ≢ some u
  bound_apart p name u (some n) w ne = ne
  bound_apart p name u none w ne =
      unfold find_tenant in
      rw (checked_tenant p name) (at_test (member name p.deny || p.require_auth))
    where
      at_test : (b : Bool) → name_of_tenant (if b then none else p.default_tenant) ≢ some u
      at_test true e = cc
      at_test false e = ne e

  run_checked_lem :
      (h : Handler) (args : List Bytes) (r : Option Value × Option Tenant) (ctx : Context)
      (w : World) (u : Bytes)
      → Local h
      → Owned ctx
      → bound_to ctx.tenant r.1 ≢ some u
      → Owned (run_checked h args r ctx w).ctx × Apart u w (run_checked h args r ctx w).world
  unfolding run_checked
  run_checked_lem h args (some v, t) ctx w u l o ne' = (o, Apart-self u w)
  run_checked_lem h args (none, t) ctx w u l o ne' =
      let s =
        l args (record ctx { tenant = bound_to ctx.tenant t }) w
          λ n c e. ap (λ x. bound_to x t) (o n c e) in
      (s.owned, s.apart u ne')

  run_found_lem :
      (p : Policy) (name : Bytes) (h : Option Handler) (args : List Bytes) (typed : Bytes)
      (ctx : Context) (w : World) (u : Bytes)
      → FoundLocal h
      → Owned ctx
      → bound_to ctx.tenant p.default_tenant ≢ some u
      → Owned (run_found p name h args typed ctx w).ctx
        × Apart u w (run_found p name h args typed ctx w).world
  unfolding run_found
  run_found_lem p name none args typed ctx w u l o ne = (o, Apart-self u w)
  run_found_lem p name (some h) args typed ctx w u l o ne =
      run_checked_lem h args (check_policy p (find_tenant ctx.tenant w) name) ctx w u l o
        (bound_apart p name u ctx.tenant w ne)

  -- Dispatch of any line over the registered commands, on a connection whose Pub/Sub client, if it
  -- has one, is on the hub of its tenant, leaves the keyspace and the hub of every tenant other
  -- than the one it is bound to, or else the default, as they were; the client of the connection,
  -- if any, is then still on the hub of its tenant.
  pub dispatch_lem :
      (p : Policy) (line : List Bytes) (ctx : Context) (w : World) (u : Bytes)
      → Owned ctx
      → bound_to ctx.tenant p.default_tenant ≢ some u
      → Owned (dispatch p registry line ctx w).ctx
        × Apart u w (dispatch p registry line ctx w).world
  unfolding dispatch
  dispatch_lem p [] ctx w u o ne = (o, Apart-self u w)
  dispatch_lem p (typed ∷ args) ctx w u o ne =
      elim (Bool-cases
        (subscribed ctx.pubsub w && not (member (to_upper typed) subscribe_mode_names))) [
          | inl gated ↦ rw gated (o, Apart-self u w)
          | inr free ↦ rw free (
              run_found_lem p (to_upper typed) (Dict.lookup (to_upper typed) registry.handlers)
                (typed ∷ args) typed ctx w u
                (found (Dict.lookup (to_upper typed) registry.handlers) refl) o ne)
        ]
    where
      found :
          (h : Option Handler) → Dict.lookup (to_upper typed) registry.handlers ≡ h → FoundLocal h
      found none e = tt
      found (some h) e = registry-AllLocal (to_upper typed) h e
