-- ===== src/Command/Isolation/Channels.antt =====
-- What the commands of Pub/Sub touch (internal/command/pubsub.go).
use cache_custom.Prelude.{ℕ, ◌≡◌, ◌≢◌, refl, ap, ◌∙◌, Bool, Option, none, some, List, [], ◌∷◌}
use cache_custom.Bytes.{Bytes}
use cache_custom.Dict
use cache_custom.Dict.{Dict, lookup-insert}
use cache_custom.Tenant.{Tenant, Status, active, disabled}
use cache_custom.Pubsub.{Kind, SubConfirm, subscribe, unsubscribe, client_at, sub_count}
use cache_custom.Resp.{Value}
use cache_custom.Command.{Context, World, Outcome, answer, put_hub, hub_of}
use cache_custom.Command.Channels.{
  tenant_status, tenant_found, with_tenant, client_on, emit_confirms, subscribe_as, subscribe_on,
  subscribe_command, confirm_none, confirm_all, unsubscribe_from, unsubscribe_command, tail,
  publish_command, pubsub_command,
}
use cache_custom.Command.Isolation.{
  Apart, Apart-self, Apart-trans, Apart-put_hub, Owned, Stays, LocalBody, Local, answer_lem,
}

-- What a handler may do to the hub of the tenant of the connection.
abbrev OnTenant : (Bytes → Context → World → Outcome) → Type 0
OnTenant f =
    (name : Bytes) (ctx : Context) (w : World)
    → Owned ctx
    → ctx.tenant ≡ some name
    → Stays ctx w (f name ctx w)

tenant_status_lem :
    (f : Bytes → Context → World → Outcome) (st : Status)
    → OnTenant f
    → OnTenant (λ name. tenant_status f name st)
unfolding tenant_status
tenant_status_lem f disabled l name ctx w o e = answer_lem _ ctx w o
tenant_status_lem f active l name ctx w o e = l name ctx w o e

tenant_found_lem :
    (f : Bytes → Context → World → Outcome) (t : Option Tenant)
    → OnTenant f
    → OnTenant (λ name. tenant_found f name t)
unfolding tenant_found
tenant_found_lem f none l name ctx w o e = answer_lem _ ctx w o
tenant_found_lem f (some t) l name ctx w o e = tenant_status_lem f t.status l name ctx w o e

with_tenant_lem :
    (f : Bytes → Context → World → Outcome) (tenant : Option Bytes) (ctx : Context) (w : World)
    → OnTenant f
    → Owned ctx
    → ctx.tenant ≡ tenant
    → Stays ctx w (with_tenant f tenant ctx w)
unfolding with_tenant
with_tenant_lem f none ctx w l o e = answer_lem _ ctx w o
with_tenant_lem f (some name) ctx w l o e =
    tenant_found_lem f (Dict.lookup name w.tenants) l name ctx w o e

on_tenant_lem :
    (f : Bytes → Context → World → Outcome)
    → OnTenant f
    → LocalBody (λ ctx w. with_tenant f ctx.tenant ctx w)
on_tenant_lem f l ctx w o = with_tenant_lem f ctx.tenant ctx w l o refl

emit_confirms_lem :
    (confs : List SubConfirm) (ctx ctx' : Context) (w w' : World)
    → Owned ctx'
    → ((u : Bytes) → ctx.tenant ≢ some u → Apart u w w')
    → Stays ctx w (emit_confirms confs ctx' w')
unfolding emit_confirms
emit_confirms_lem [] ctx ctx' w w' o a = record { owned = o; apart = a }
emit_confirms_lem (s ∷ ss) ctx ctx' w w' o a = record { owned = o; apart = a }

subscribe_as_lem :
    (k : Kind) (ts : List Bytes) (home : Bytes) (c : ℕ) (ctx : Context) (w w' : World)
    → ctx.tenant ≡ some home
    → ((u : Bytes) → ctx.tenant ≢ some u → Apart u w w')
    → Stays ctx w (subscribe_as k ts ((home, c), w') ctx)
unfolding subscribe_as
subscribe_as_lem k ts home c ctx w w' e a =
    let r = subscribe k c ts (hub_of home w') in
    emit_confirms_lem r.0 ctx (record ctx { pubsub = some (home, c) }) w (put_hub home r.1 w')
      (λ name b p. e ∙ ap home_of p)
      λ u ne. Apart-trans u w w' _ (a u ne) (Apart-put_hub u home r.1 w' λ q. ne (e ∙ ap some q))
  where
    home_of : Option (Bytes × ℕ) → Option Bytes
    home_of none = none
    home_of (some (name, b)) = some name

subscribe_on_lem : (k : Kind) (ts : List Bytes) → OnTenant (subscribe_on k ts)
unfolding subscribe_on
subscribe_on_lem k ts name ctx w o e = at_client ctx.pubsub refl
  where
    at_client :
        (p : Option (Bytes × ℕ))
        → ctx.pubsub ≡ p
        → Stays ctx w (subscribe_as k ts (client_on name p w) ctx)
    at_client none q =
        unfold client_on in
        subscribe_as_lem k ts name _ ctx w _ e
          λ u ne. Apart-put_hub u name _ w λ r. ne (e ∙ ap some r)
    at_client (some (home, c)) q =
        unfold client_on in subscribe_as_lem k ts home c ctx w w (o home c q) λ u ne. Apart-self u w

pub subscribe_command-Local : (k : Kind) → Local (subscribe_command k)
unfolding subscribe_command
subscribe_command-Local k [] = answer_lem _
subscribe_command-Local k (c ∷ []) = answer_lem _
subscribe_command-Local k (c ∷ t ∷ ts) =
    on_tenant_lem (subscribe_on k (t ∷ ts)) (subscribe_on_lem k (t ∷ ts))

confirm_none_lem :
    (k : Kind) (n : ℕ) (ctx : Context) (w w' : World)
    → Owned ctx
    → ((u : Bytes) → ctx.tenant ≢ some u → Apart u w w')
    → Stays ctx w (confirm_none k n ctx w')
unfolding confirm_none
confirm_none_lem k n ctx w w' o a = record { owned = o; apart = a }

confirm_all_lem :
    (k : Kind) (n : ℕ) (confs : List SubConfirm) (ctx : Context) (w w' : World)
    → Owned ctx
    → ((u : Bytes) → ctx.tenant ≢ some u → Apart u w w')
    → Stays ctx w (confirm_all k n confs ctx w')
unfolding confirm_all
confirm_all_lem k n [] ctx w w' o a = confirm_none_lem k n ctx w w' o a
confirm_all_lem k n (s ∷ ss) ctx w w' o a = emit_confirms_lem (s ∷ ss) ctx ctx w w' o a

unsubscribe_from_lem :
    (k : Kind) (ts : List Bytes) (p : Option (Bytes × ℕ)) (ctx : Context) (w : World)
    → Owned ctx
    → ctx.pubsub ≡ p
    → Stays ctx w (unsubscribe_from k ts p ctx w)
unfolding unsubscribe_from
unsubscribe_from_lem k ts none ctx w o e = confirm_none_lem k 0 ctx w w o λ u ne. Apart-self u w
unsubscribe_from_lem k ts (some (home, c)) ctx w o e =
    let r = unsubscribe k c ts (hub_of home w) in
    confirm_all_lem k (sub_count (client_at c r.1)) r.0 ctx w (put_hub home r.1 w) o
      λ u ne. Apart-put_hub u home r.1 w λ q. ne (o home c e ∙ ap some q)

pub unsubscribe_command-Local : (k : Kind) → Local (unsubscribe_command k)
unfolding unsubscribe_command
unsubscribe_command-Local k args =
    on_tenant_lem (λ name ctx w. unsubscribe_from k (tail args) ctx.pubsub ctx w)
      λ name ctx w o e. unsubscribe_from_lem k (tail args) ctx.pubsub ctx w o refl

module _ (matches : Bytes → Bytes → Bool) (accepts : ℕ → Value → Bool) where
  reply_lem : (f : Bytes → World → Value) → OnTenant (λ name ctx w. answer (f name w) ctx w)
  reply_lem f name ctx w o e = answer_lem (f name w) ctx w o

  pub publish_command-Local : Local (publish_command matches accepts)
  unfolding publish_command
  publish_command-Local [] = answer_lem _
  publish_command-Local (c ∷ []) = answer_lem _
  publish_command-Local (c ∷ ch ∷ []) = answer_lem _
  publish_command-Local (c ∷ ch ∷ msg ∷ []) = on_tenant_lem _ (reply_lem _)
  publish_command-Local (c ∷ ch ∷ msg ∷ a ∷ rest) = answer_lem _

  pub pubsub_command-Local : Local (pubsub_command matches accepts)
  unfolding pubsub_command
  pubsub_command-Local [] = answer_lem _
  pubsub_command-Local (c ∷ []) = answer_lem _
  pubsub_command-Local (c ∷ sub ∷ rest) = on_tenant_lem _ (reply_lem _)
