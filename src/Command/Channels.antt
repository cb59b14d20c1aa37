-- ===== src/Command/Channels.antt =====
-- The commands of Pub/Sub: internal/command/pubsub.go.
use cache_custom.Prelude.{ℕ, Bool, Option, none, some, List, [], ◌∷◌, ◌++◌, ite, length}
use cache_custom.Prelude.Int.{pos}
use cache_custom.Bytes.{Bytes, codes, dec_bytes, to_upper}
use cache_custom.Dict
use cache_custom.Tenant.{Tenant, Status, active, disabled}
use cache_custom.Pubsub.{
  Hub, Kind, new_client, client_at, sub_count, SubConfirm, to_value, subscribe_word,
  unsubscribe_word, subscribe, unsubscribe, publish, channels_like, num_sub, num_pat,
}
use cache_custom.Resp.{Value, Values, error, integer, bulk_string, array, nil, cons}
use cache_custom.Command.{Context, World, Outcome, Handler, answer, wrong_args, put_hub, hub_of}

-- `requireTenant`, and what a handler does with the name of the tenant.
unfoldable pub tenant_status :
    (Bytes → Context → World → Outcome) → Bytes → Status → Context → World → Outcome
tenant_status f name disabled ctx w = answer (error (codes "ERR tenant is disabled")) ctx w
tenant_status f name active ctx w = f name ctx w

unfoldable pub tenant_found :
    (Bytes → Context → World → Outcome) → Bytes → Option Tenant → Context → World → Outcome
unfolding tenant_status
tenant_found f name none ctx w = answer (error (codes "NOAUTH Authentication required.")) ctx w
tenant_found f name (some t) ctx w = tenant_status f name t.status ctx w

unfoldable pub with_tenant :
    (Bytes → Context → World → Outcome) → Option Bytes → Context → World → Outcome
unfolding tenant_found Dict.lookup
with_tenant f none ctx w = answer (error (codes "NOAUTH Authentication required.")) ctx w
with_tenant f (some name) ctx w = tenant_found f name (Dict.lookup name w.tenants) ctx w

-- The client of the connection, a new one on the hub of its tenant if it has none.
unfoldable pub client_on : Bytes → Option (Bytes × ℕ) → World → (Bytes × ℕ) × World
unfolding hub_of
client_on name (some c) w = (c, w)
client_on name none w =
    ((name, length (hub_of name w).clients), put_hub name (new_client (hub_of name w)) w)

unfoldable pub confirms : List SubConfirm → List Value
unfolding to_value
confirms [] = []
confirms (s ∷ ss) = to_value s ∷ confirms ss

unfoldable pub last_value : Value → List Value → Value
last_value v [] = v
last_value v (u ∷ us) = last_value u us

-- `emitConfirms`
unfoldable pub emit_confirms : List SubConfirm → Context → World → Outcome
unfolding confirms last_value
emit_confirms [] ctx w =
    answer (error (codes "ERR wrong number of arguments for subscribe command")) ctx w
emit_confirms (s ∷ ss) ctx w =
    answer (last_value (to_value s) (confirms ss))
      (record ctx { multi = ctx.multi ++ confirms (s ∷ ss) }) w

unfoldable pub subscribe_as : Kind → List Bytes → (Bytes × ℕ) × World → Context → Outcome
unfolding emit_confirms subscribe hub_of
subscribe_as k ts ((home, c), w) ctx =
    let (confs, h) = subscribe k c ts (hub_of home w) in
    emit_confirms confs (record ctx { pubsub = some (home, c) }) (put_hub home h w)

unfoldable pub subscribe_on : Kind → List Bytes → Bytes → Context → World → Outcome
unfolding client_on subscribe_as
subscribe_on k ts name ctx w = subscribe_as k ts (client_on name ctx.pubsub w) ctx

unfoldable pub subscribe_command : Kind → Handler
unfolding with_tenant subscribe_on
subscribe_command k (c ∷ t ∷ ts) ctx w = with_tenant (subscribe_on k (t ∷ ts)) ctx.tenant ctx w
subscribe_command k args ctx w = answer (wrong_args (subscribe_word k)) ctx w

-- One confirmation with no name; the reply is the first that is queued.
unfoldable pub first_value : Value → List Value → Value
first_value v [] = v
first_value v (u ∷ us) = u

unfoldable pub confirm_none : Kind → ℕ → Context → World → Outcome
unfolding to_value first_value
confirm_none k n ctx w =
    let v = to_value (record { kind = unsubscribe_word k; name = []; count = n }) in
    answer (first_value v ctx.multi) (record ctx { multi = ctx.multi ++ v ∷ [] }) w

unfoldable pub confirm_all : Kind → ℕ → List SubConfirm → Context → World → Outcome
unfolding confirm_none emit_confirms
confirm_all k n [] ctx w = confirm_none k n ctx w
confirm_all k n (s ∷ ss) ctx w = emit_confirms (s ∷ ss) ctx w

unfoldable pub unsubscribe_from : Kind → List Bytes → Option (Bytes × ℕ) → Context → World → Outcome
unfolding confirm_none confirm_all unsubscribe hub_of
unsubscribe_from k ts none ctx w = confirm_none k 0 ctx w
unsubscribe_from k ts (some (home, c)) ctx w =
    let (confs, h) = unsubscribe k c ts (hub_of home w) in
    confirm_all k (sub_count (client_at c h)) confs ctx (put_hub home h w)

unfoldable pub tail : List Bytes → List Bytes
tail [] = []
tail (c ∷ ts) = ts

unfoldable pub unsubscribe_command : Kind → Handler
unfolding with_tenant unsubscribe_from tail
unsubscribe_command k args ctx w =
    with_tenant (λ name ctx' w'. unsubscribe_from k (tail args) ctx'.pubsub ctx' w') ctx.tenant ctx
      w

unfoldable pub bulk_all : List Bytes → Values
bulk_all [] = nil
bulk_all (s ∷ ss) = cons (bulk_string s) (bulk_all ss)

unfoldable pub counted : List Bytes → List ℕ → Values
counted (c ∷ cs) (n ∷ ns) = cons (bulk_string c) (cons (integer (pos n)) (counted cs ns))
counted cs ns = nil

module _ (matches : Bytes → Bytes → Bool) (accepts : ℕ → Value → Bool) where
  unfoldable pub publish_command : Handler
  unfolding with_tenant publish hub_of
  publish_command (c ∷ ch ∷ msg ∷ []) ctx w =
      with_tenant
        (λ name ctx' w'.
          answer (integer (pos (publish matches accepts ch msg (hub_of name w')))) ctx' w')
        ctx.tenant ctx w
  publish_command args ctx w = answer (wrong_args (codes "publish")) ctx w

  unfoldable pub list_channels : Hub → List Bytes → Value
  unfolding channels_like bulk_all
  list_channels h [] = array (bulk_all (channels_like matches accepts [] h.by_channel))
  list_channels h (p ∷ []) = array (bulk_all (channels_like matches accepts p h.by_channel))
  list_channels h rest = wrong_args (codes "pubsub|channels")

  unfoldable pub count_patterns : Hub → List Bytes → Value
  unfolding num_pat
  count_patterns h [] = integer (pos (num_pat h.by_pattern))
  count_patterns h rest = wrong_args (codes "pubsub|numpat")

  unfoldable pub pubsub_reply : Bytes → List Bytes → Hub → Value
  unfolding list_channels count_patterns counted num_sub dec_bytes to_upper
  pubsub_reply sub rest h =
      ite (dec_bytes (to_upper sub) (codes "CHANNELS")) (list_channels h rest) (
        ite (dec_bytes (to_upper sub) (codes "NUMSUB")) (array (counted rest (num_sub rest h))) (
          ite (dec_bytes (to_upper sub) (codes "NUMPAT")) (count_patterns h rest) (
            error (
              codes "ERR unknown subcommand or wrong number of arguments for '"
              ++ (sub ++ codes "'")))))

  unfoldable pub pubsub_command : Handler
  unfolding with_tenant pubsub_reply hub_of
  pubsub_command (c ∷ sub ∷ rest) ctx w =
      with_tenant (λ name ctx' w'. answer (pubsub_reply sub rest (hub_of name w')) ctx' w')
        ctx.tenant ctx w
  pubsub_command args ctx w = answer (wrong_args (codes "pubsub")) ctx w
