-- ===== src/Command/Isolation/Auth.antt =====
-- What AUTH touches (internal/command/auth.go).
use cache_custom.Prelude.{
  ℕ, ◌≡◌, ◌≢◌, refl, ap, sym, ◌∙◌, Bool, true, false, ◌&&◌, Option, none, some, [], ◌∷◌, ite, arith,
}
use cache_custom.Bytes.{Bytes, dec_bytes}
use cache_custom.Dict
use cache_custom.Dict.{Dict, lookup-insert}
use cache_custom.Tenant.{
  Tenant, Status, active, disabled, AuthReply, accepted, wrong_pass, tenant_disabled,
  check_password, auth_found, acquire_conn,
}
use cache_custom.Command.{Context, World, put_tenant, find_tenant}
use cache_custom.Command.Auth.{
  release_found, release_slot, drop_client, same_tenant, bind_tenant, auth_reply, auth_command,
}
use cache_custom.Command.Isolation.{
  db_of, db_found, Apart, Apart-self, Apart-trans, Apart-put_tenant, Apart-put_hub, Owned, Stays,
  Local, answer_lem,
}
use cache_custom.Command.Isolation.Strings.{if-Stays}

-- Another count of connections is no change of a keyspace.
same_keyspace :
    (u name : Bytes) (t t' : Tenant) (w : World)
    → Dict.lookup name w.tenants ≡ some t
    → t'.db ≡ t.db
    → Apart u w (put_tenant name t' w)
unfolding db_of
same_keyspace u name t t' w found e = record {
  same_db = ap db_found (lookup-insert name u t' w.tenants) ∙ at_name (dec_bytes name u);
  same_hub = refl;
}
  where
    at_name :
        (d : Dec (name ≡ u))
        → db_found (ite d (some t') (Dict.lookup u w.tenants)) ≡ db_found (Dict.lookup u w.tenants)
    at_name (yes p) =
        ap some e ∙ sym (ap db_found (sym (ap (λ (k : Bytes). Dict.lookup k w.tenants) p) ∙ found))
    at_name (no q) = refl

release_slot-Apart :
    (u : Bytes) (o : Option Bytes) (bound : Bool) (w : World)
    → o ≢ some u
    → Apart u w (release_slot o bound w)
unfolding release_slot release_found
release_slot-Apart u none bound w ne = Apart-self u w
release_slot-Apart u (some name) false w ne = Apart-self u w
release_slot-Apart u (some name) true w ne = at_found (find_tenant (some name) w)
  where
    at_found : (t : Option Tenant) → Apart u w (release_found name t w)
    at_found none = Apart-self u w
    at_found (some t) = Apart-put_tenant u name _ w λ p. ne (ap some p)

drop_client-Apart :
    (u : Bytes) (o : Option (Bytes × ℕ)) (w : World)
    → ((name : Bytes) (c : ℕ) → o ≡ some (name, c) → name ≢ u)
    → Apart u w (drop_client o w)
unfolding drop_client
drop_client-Apart u none w ne = Apart-self u w
drop_client-Apart u (some (name, c)) w ne = Apart-put_hub u name _ w (ne name c refl)

check_password_lem :
    (s t : Tenant) (st : Status) (pass : Bytes) → check_password s st pass ≡ accepted t → s ≡ t
unfolding check_password
check_password_lem s t disabled pass e = absurd (cc)
check_password_lem s t active pass e = ground (arith, e)

auth_found_lem :
    (o : Option Tenant) (t : Tenant) (pass : Bytes) → auth_found o pass ≡ accepted t → o ≡ some t
unfolding auth_found
auth_found_lem none t pass e = absurd (cc)
auth_found_lem (some s) t pass e = ap some (check_password_lem s t s.status pass e)

acquire_conn-db : (t : Tenant) → (acquire_conn t).1.db ≡ t.db
unfolding acquire_conn
acquire_conn-db t = ground arith

bind_tenant_lem :
    (user : Bytes) (t : Tenant) (r : Bool × Tenant) (ctx : Context) (w : World)
    → Owned ctx
    → Dict.lookup user w.tenants ≡ some t
    → r.1.db ≡ t.db
    → Stays ctx w (bind_tenant user r ctx w)
unfolding bind_tenant
bind_tenant_lem user t (false, t') ctx w o found e = answer_lem _ ctx w o
bind_tenant_lem user t (true, t') ctx w o found e = record {
  owned = λ name c p. absurd (cc);
  apart = λ u ne.
      let w1 = put_tenant user t' w in
      let w2 = release_slot ctx.tenant ctx.bound w1 in
      Apart-trans u w w1 _ (same_keyspace u user t t' w found e) (
        Apart-trans u w1 w2 _ (release_slot-Apart u ctx.tenant ctx.bound w1 ne)
          (drop_client-Apart u ctx.pubsub w2 λ name c p q. ne (o name c p ∙ ap some q)));
}

auth_reply_lem :
    (user : Bytes) (r : AuthReply) (ctx : Context) (w : World)
    → Owned ctx
    → ((t : Tenant) → r ≡ accepted t → Dict.lookup user w.tenants ≡ some t)
    → Stays ctx w (auth_reply user r ctx w)
unfolding auth_reply
auth_reply_lem user wrong_pass ctx w o found = answer_lem _ ctx w o
auth_reply_lem user tenant_disabled ctx w o found = answer_lem _ ctx w o
auth_reply_lem user (accepted t) ctx w o found =
    if-Stays (same_tenant user ctx.tenant && ctx.bound) ctx w _ _ (answer_lem _ ctx w o)
      (bind_tenant_lem user t (acquire_conn t) ctx w o (found t refl) (acquire_conn-db t))

pub auth_command-Local : Local auth_command
unfolding auth_command
auth_command-Local [] = answer_lem _
auth_command-Local (c ∷ []) = answer_lem _
auth_command-Local (c ∷ user ∷ []) = answer_lem _
auth_command-Local (c ∷ user ∷ pass ∷ []) = λ ctx w o.
    auth_reply_lem user _ ctx w o λ t e. auth_found_lem (Dict.lookup user w.tenants) t pass e
auth_command-Local (c ∷ user ∷ pass ∷ a ∷ rest) = answer_lem _
