-- ===== src/Command/SetGet.antt =====
-- GET after SET (internal/command/strings.go).
use cache_custom.Prelude.{
  ℕ, ◌<◌, ◌≡◌, refl, ap, sym, subst, ◌∙◌, Option, none, some, [], ◌∷◌, arith, length,
}
use cache_custom.Prelude.Int.{pos}
use cache_custom.Bytes.{Bytes, codes}
use cache_custom.Dict
use cache_custom.Dict.{lookup-insert}
use cache_custom.Shard.{Entry, expired}
use cache_custom.Store.{Db, live}
use cache_custom.Store.Read.{get}
use cache_custom.Store.Read.Laws.{value_of, get_value}
use cache_custom.Store.Write.{
  no_options, SetReply, done, refused, err_oom, fuel, set_expiry, keeps_ttl, kept_expiry, set,
}
use cache_custom.Store.Write.Laws.{Stored, set-Stored}
use cache_custom.Tenant.{Tenant, active}
use cache_custom.Resp.{Value, simple_string, bulk_string, null}
use cache_custom.Command.{
  Context, World, Outcome, answer, put_tenant, with_db, with_found, with_status, on_db,
}
use cache_custom.Command.Strings.{
  set_options, set_parsed, checked, set_reply, or_null, set_command, get_command, get_reply,
}

-- The connection is bound to a tenant that is active.
pub record Serves (name : Bytes) (t : Tenant) (ctx : Context) (w : World) : Type 0 where
  pub bound_here : ctx.tenant ≡ some name
  pub found : Dict.lookup name w.tenants ≡ some t
  pub is_active : t.status ≡ active

on_db_lem :
    (f : Db → Value × Db) (name : Bytes) (t : Tenant) (ctx : Context) (w : World)
    → Serves name t ctx w
    → on_db f ctx w ≡ answer (f t.db).0 ctx (put_tenant name (record t { db = (f t.db).1 }) w)
unfolding on_db with_db with_found with_status
on_db_lem f name t ctx w s =
    ap (λ o. with_db f o ctx w) s.bound_here
    ∙ ap (λ o. with_found f name o ctx w) s.found
    ∙ ap (λ st. with_status f name t st ctx w) s.is_active

Serves-put_tenant :
    (name : Bytes) (t : Tenant) (db : Db) (ctx : Context) (w : World)
    → Serves name t ctx w
    → Serves name (record t { db = db }) ctx (put_tenant name (record t { db = db }) w)
Serves-put_tenant name t db ctx w s = record {
  bound_here = s.bound_here;
  found = lookup-insert name name (record t { db = db }) w.tenants ∙ ground arith;
  is_active = s.is_active;
}

acknowledged :
    (r : SetReply × Db)
    → (set_reply r).0 ≡ simple_string (codes "OK")
    → (r.0 ≡ done) × ((set_reply r).1 ≡ r.1)
unfolding set_reply
acknowledged (done, db) e = (refl, refl)
acknowledged (refused, db) e = absurd (cc)
acknowledged (err_oom, db) e = absurd (cc)
acknowledged (fuel, db) e = absurd (cc)

no_expiry :
    (now : ℕ) (o : Option Entry)
    → kept_expiry no_options (set_expiry now (pos 0) no_options) o ≡ none
unfolding set_expiry keeps_ttl
no_expiry now none = refl
no_expiry now (some e) = refl

live_value :
    (now : ℕ) (key value : Bytes) (a b : Db)
    → Stored key value none a b
    → value_of (live now key b) ≡ some value
unfolding live expired
live_value now key value a b s = ground (arith, s.at_key)

module _ (intn : ℕ → ℕ → ℕ) (clock clock' : ℕ → ℕ) (name : Bytes) (t : Tenant) (ctx : Context)
    (w : World) (s : Serves name t ctx w) (c c' key val : Bytes) where
  set_run : Outcome
  set_run = set_command intn clock (c ∷ key ∷ val ∷ []) ctx w

  set_now : SetReply × Db
  set_now = set intn (clock 0) key val no_options t.db

  set_run_lem : set_run ≡ on_db (λ db. set_reply (set intn (clock 0) key val no_options db)) ctx w
  unfolding set_run set_command set_parsed checked set_options
  set_run_lem =
      ap
        (λ v.
          checked intn clock (on_db (λ db. (null, db)) ctx w)
            (on_db (λ db. set_reply (set intn (clock 0) key val no_options db)) ctx w) v)
        (ap (λ o. o.reply) (on_db_lem (λ db. (null, db)) name t ctx w s))

  set_ran :
      set_run
      ≡ answer
          (set_reply set_now).0
          ctx
          (put_tenant name (record t { db = (set_reply set_now).1 }) w)
  unfolding set_now
  set_ran =
      set_run_lem
      ∙ on_db_lem (λ db. set_reply (set intn (clock 0) key val no_options db)) name t ctx w s

  -- On a connection bound to an active tenant with at least one shard and no ceiling of expiry,
  -- where a SET with no options replies OK, a GET of the key with no other command between replies
  -- the value, whenever it runs.
  pub set_get :
      0 < length t.db.shards
      → t.db.max_ttl ≡ pos 0
      → (set_command intn clock (c ∷ key ∷ val ∷ []) ctx w).reply ≡ simple_string (codes "OK")
      → (get_command intn clock'
          (c' ∷ key ∷ [])
          ctx
          (set_command intn clock (c ∷ key ∷ val ∷ []) ctx w).world).reply
        ≡ bulk_string val
  unfolding set_run set_now get_command get_reply
  set_get shards no_ceiling ok =
      let acked = acknowledged set_now (sym (ap (λ o. o.reply) set_ran) ∙ ok) in
      let t' : Tenant = record t { db = (set_reply set_now).1 } in
      let w' = put_tenant name t' w in
      let stored = set-Stored intn key val no_options (clock 0) t.db shards acked.0 in
      let kept =
        ap
          (λ m.
            kept_expiry no_options (set_expiry (clock 0) m no_options) (live (clock 0) key t.db))
          no_ceiling
        ∙ no_expiry (clock 0) (live (clock 0) key t.db) in
      let value_now =
        live_value (clock' 0) key val t.db set_now.1
          (subst (λ (x : Option ℕ). Stored key val x t.db set_now.1) kept stored) in
      ap (λ o. (on_db (get_reply intn clock' key) ctx o.world).reply) set_ran
      ∙ ap (λ o. o.reply)
          (on_db_lem (get_reply intn clock' key) name t' ctx w'
            (Serves-put_tenant name t (set_reply set_now).1 ctx w s))
      ∙ ap (λ db. or_null (get (clock' 0) key db).0) acked.1
      ∙ ap or_null (get_value (clock' 0) key set_now.1 ∙ value_now)
