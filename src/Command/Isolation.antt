-- ===== src/Command/Isolation.antt =====
-- What a handler may touch (internal/command).
pub mod Strings
pub mod Plain
pub mod Auth
pub mod Channels
pub mod Whole
use cache_custom.Prelude.{
  ℕ, ◌≡◌, ◌≢◌, refl, ap, sym, ◌∙◌, subst, Bool, true, false, not, ◌&&◌, Option, none, some, List,
  [], ◌∷◌, ◌++◌, if◌then◌else◌, ite, arith, Bool-cases, Option-cases, inl, inr,
}
use cache_custom.Bytes.{Bytes, dec_bytes}
use cache_custom.Dict
use cache_custom.Dict.{Dict, lookup-insert}
use cache_custom.Store.{Db}
use cache_custom.Tenant.{Tenant, Status, active, disabled}
use cache_custom.Pubsub.{Hub}
use cache_custom.Resp.{Value}
use cache_custom.Command.{
  Context, World, Outcome, Handler, Body, answer, put_tenant, put_hub, with_status, with_found,
  with_db, on_none, on_key, on_two, on_keys, on_pair, on_db,
}

abbrev pub db_found : Option Tenant → Option Db
db_found none = none
db_found (some t) = some t.db

-- The keyspace of a tenant.
unfoldable pub db_of : Bytes → World → Option Db
unfolding Dict.lookup
db_of u w = db_found (Dict.lookup u w.tenants)

-- Nothing of the tenant `u` is touched but the count of its connections.
pub record Apart (u : Bytes) (a b : World) : Type 0 where
  pub same_db : db_of u b ≡ db_of u a
  pub same_hub : Dict.lookup u b.hubs ≡ Dict.lookup u a.hubs

-- The client of a connection is on the hub of its tenant.
abbrev pub Owned : Context → Type 0
Owned ctx = (name : Bytes) (c : ℕ) → ctx.pubsub ≡ some (name, c) → ctx.tenant ≡ some name

pub record Stays (ctx : Context) (w : World) (o : Outcome) : Type 0 where
  pub owned : Owned o.ctx
  pub apart : (u : Bytes) → ctx.tenant ≢ some u → Apart u w o.world

abbrev pub LocalBody : Body → Type 0
LocalBody f = (ctx : Context) (w : World) → Owned ctx → Stays ctx w (f ctx w)

abbrev pub Local : Handler → Type 0
Local h = (args : List Bytes) → LocalBody (h args)

Apart-self : (u : Bytes) (w : World) → Apart u w w
Apart-self u w = record { same_db = refl; same_hub = refl }

pub Apart-trans : (u : Bytes) (a b c : World) → Apart u a b → Apart u b c → Apart u a c
Apart-trans u a b c p q = record {
  same_db = q.same_db ∙ p.same_db;
  same_hub = q.same_hub ∙ p.same_hub;
}

pub answer_lem : (v : Value) → LocalBody (answer v)
answer_lem v ctx w o = record { owned = o; apart = λ u ne. Apart-self u w }

pub Apart-put_tenant :
    (u name : Bytes) (t : Tenant) (w : World) → name ≢ u → Apart u w (put_tenant name t w)
unfolding db_of
Apart-put_tenant u name t w ne = record {
  same_db = ap db_found (lookup-insert name u t w.tenants ∙ if_no u name ne);
  same_hub = refl;
}
  where
    if_no :
        (u name : Bytes)
        → name ≢ u
        → ite (dec_bytes name u) (some t) (Dict.lookup u w.tenants) ≡ Dict.lookup u w.tenants
    if_no u name ne = ground (arith, ne)

pub Apart-put_hub : (u name : Bytes) (h : Hub) (w : World) → name ≢ u → Apart u w (put_hub name h w)
unfolding db_of
Apart-put_hub u name h w ne = record {
  same_db = refl;
  same_hub = lookup-insert name u h w.hubs ∙ ground (arith, ne);
}

with_status_lem :
    (f : Db → Value × Db) (name : Bytes) (t : Tenant) (st : Status) (ctx : Context) (w : World)
    → Owned ctx
    → ctx.tenant ≡ some name
    → Stays ctx w (with_status f name t st ctx w)
unfolding with_status
with_status_lem f name t disabled ctx w o e = answer_lem _ ctx w o
with_status_lem f name t active ctx w o e = record {
  owned = o;
  apart = λ u ne. Apart-put_tenant u name _ w λ p. ne (e ∙ ap some p);
}

with_found_lem :
    (f : Db → Value × Db) (name : Bytes) (t : Option Tenant) (ctx : Context) (w : World)
    → Owned ctx
    → ctx.tenant ≡ some name
    → Stays ctx w (with_found f name t ctx w)
unfolding with_found
with_found_lem f name none ctx w o e = answer_lem _ ctx w o
with_found_lem f name (some t) ctx w o e = with_status_lem f name t t.status ctx w o e

with_db_lem :
    (f : Db → Value × Db) (name : Option Bytes) (ctx : Context) (w : World)
    → Owned ctx
    → ctx.tenant ≡ name
    → Stays ctx w (with_db f name ctx w)
unfolding with_db
with_db_lem f none ctx w o e = answer_lem _ ctx w o
with_db_lem f (some name) ctx w o e = with_found_lem f name (Dict.lookup name w.tenants) ctx w o e

pub on_db-Local : (f : Db → Value × Db) → LocalBody (on_db f)
unfolding on_db
on_db-Local f ctx w o = with_db_lem f ctx.tenant ctx w o refl

module _ (name : Bytes) where
  pub on_none-Local : (f : Body) → LocalBody f → Local (on_none name f)
  unfolding on_none
  on_none-Local f l [] = answer_lem _
  on_none-Local f l (c ∷ []) = l
  on_none-Local f l (c ∷ a ∷ rest) = answer_lem _

  pub on_key-Local :
      (f : Bytes → Body) → ((key : Bytes) → LocalBody (f key)) → Local (on_key name f)
  unfolding on_key
  on_key-Local f l [] = answer_lem _
  on_key-Local f l (c ∷ []) = answer_lem _
  on_key-Local f l (c ∷ key ∷ []) = l key
  on_key-Local f l (c ∷ key ∷ a ∷ rest) = answer_lem _

  pub on_two-Local :
      (f : Bytes → Bytes → Body) → ((key s : Bytes) → LocalBody (f key s)) → Local (on_two name f)
  unfolding on_two
  on_two-Local f l [] = answer_lem _
  on_two-Local f l (c ∷ []) = answer_lem _
  on_two-Local f l (c ∷ key ∷ []) = answer_lem _
  on_two-Local f l (c ∷ key ∷ s ∷ []) = l key s
  on_two-Local f l (c ∷ key ∷ s ∷ a ∷ rest) = answer_lem _

  pub on_keys-Local :
      (f : List Bytes → Body) → ((keys : List Bytes) → LocalBody (f keys)) → Local (on_keys name f)
  unfolding on_keys
  on_keys-Local f l [] = answer_lem _
  on_keys-Local f l (c ∷ []) = answer_lem _
  on_keys-Local f l (c ∷ key ∷ keys) = l (key ∷ keys)

  pub on_pair-Local :
      (f : Bytes → Bytes → List Bytes → Body)
      → ((key val : Bytes) (rest : List Bytes) → LocalBody (f key val rest))
      → Local (on_pair name f)
  unfolding on_pair
  on_pair-Local f l [] = answer_lem _
  on_pair-Local f l (c ∷ []) = answer_lem _
  on_pair-Local f l (c ∷ key ∷ []) = answer_lem _
  on_pair-Local f l (c ∷ key ∷ val ∷ rest) = l key val rest
