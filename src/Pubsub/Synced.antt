-- ===== src/Pubsub/Synced.antt =====
-- The two sides of a subscription: the maps of a hub and the sets of its clients
-- (internal/pubsub/hub.go).
pub mod Members
use cache_custom.Prelude.{
  ℕ, zero, suc, ◌+◌, ◌<◌, ◌≡◌, ◌≢◌, refl, ap, sym, subst, ◌∙◌, Bool, true, false, not, ◌&&◌, Option,
  none, some, List, [], ◌∷◌, ◌++◌, if◌then◌else◌, ite, arith, length, get_or, set, ℕ_discrete,
  length-set, get_or-set_self, get_or-set_ne, Bool-cases, inl, inr,
}
use cache_custom.Bytes.{Bytes, dec_bytes}
use cache_custom.Dict
use cache_custom.Dict.{Dict}
use cache_custom.Sets.{has, remove, put, has-put, has-remove}
use Members.{
  AllFull, same, hits, registered, registered-add_member, registered-remove_member,
  clients-add_member, clients-remove_member, full-add_member, full-remove_member,
}
use cache_custom.Pubsub.{
  Client, Hub, no_client, new_client, Kind, channel, pattern, client_at, topics, registry,
  set_topics, set_registry, set_client, members, add_member, remove_member, remove_members,
  subscribe_one, unsubscribe_one, closed_client, close,
}

-- A client has a topic among its own exactly where the hub lists the client for the topic, and the
-- hub keeps no empty set.
pub record IsSynced (h : Hub) : Type 0 where
  pub agree :
      (k : Kind) (c : ℕ) (t : Bytes)
      → has dec_bytes t (topics k (client_at c h)) ≡ registered k c t h
  pub full : (k : Kind) → AllFull (registry k h)

topics-set_topics :
    (k j : Kind) (ts : List Bytes) (cl : Client)
    → topics j (set_topics k ts cl) ≡ (if same k j then ts else topics j cl)
topics-set_topics channel channel ts cl = refl
topics-set_topics channel pattern ts cl = refl
topics-set_topics pattern channel ts cl = refl
topics-set_topics pattern pattern ts cl = refl

pub client_at-set_client :
    (c b : ℕ) (cl : Client) (h : Hub)
    → c < length h.clients
    → client_at b (set_client c cl h) ≡ ite (ℕ_discrete c b) cl (client_at b h)
client_at-set_client c b cl h less =
    elim (ℕ_discrete c b) as (λ d. client_at b (set_client c cl h) ≡ ite d cl (client_at b h)) [
      | yes p ↦
          subst (λ (n : ℕ). client_at n (set_client c cl h) ≡ cl) p
            (get_or-set_self h.clients c cl no_client less)
      | no q ↦ get_or-set_ne h.clients c b cl no_client q
    ]

pub registered-set_client :
    (k : Kind) (c b : ℕ) (t : Bytes) (cl : Client) (h : Hub)
    → registered k b t (set_client c cl h) ≡ registered k b t h
unfolding registered
registered-set_client channel c b t cl h = refl
registered-set_client pattern c b t cl h = refl

pub full-set_client :
    (k : Kind) (c : ℕ) (cl : Client) (h : Hub)
    → AllFull (registry k h)
    → AllFull (registry k (set_client c cl h))
full-set_client channel c cl h full = full
full-set_client pattern c cl h full = full

pub client_at-same : (b : ℕ) (g h : Hub) → g.clients ≡ h.clients → client_at b g ≡ client_at b h
client_at-same b g h e = ap (λ cs. get_or cs b no_client) e

topics_same : (k j : Kind) (cl : Client) → same k j ≡ true → topics k cl ≡ topics j cl
topics_same channel channel cl e = refl
topics_same channel pattern cl e = absurd cc
topics_same pattern channel cl e = absurd cc
topics_same pattern pattern cl e = refl

-- What the clients have after one of them is given other topics.
owned :
    (k j : Kind) (c b : ℕ) (u : Bytes) (ts : List Bytes) (g h : Hub)
    → g.clients ≡ h.clients
    → c < length h.clients
    → has dec_bytes u (topics j (client_at b (set_client c (set_topics k ts (client_at c h)) g)))
      ≡ (if same k j && ite (ℕ_discrete c b) true false
          then has dec_bytes u ts
          else has dec_bytes u (topics j (client_at b h)))
owned k j c b u ts g h e less =
    let cl = client_at c h in
    let new = set_topics k ts cl in
    ap (λ x. has dec_bytes u (topics j x))
      (client_at-set_client c b new g (omega (arith, ap length e))
        ∙ ap (λ y. ite (ℕ_discrete c b) new y) (client_at-same b g h e))
    ∙ at_one (ℕ_discrete c b)
  where
    at_one :
        (d : Dec (c ≡ b))
        → has dec_bytes u (topics j (ite d (set_topics k ts (client_at c h)) (client_at b h))) ≡ (
            if same k j && ite d true false
            then has dec_bytes u ts
            else has dec_bytes u (topics j (client_at b h)))
    at_one (yes p) = rw (topics-set_topics k j ts (client_at c h)) (
        ground
          (arith, λ (q : c ≡ b). ap (λ (n : ℕ). has dec_bytes u (topics j (client_at n h))) q, p))
    at_one (no q) = ground arith

-- The step of a set on one member, and that of the registry, agree.
same_step :
    (k j : Kind) (c b : ℕ) (t u : Bytes) (h : Hub) (now : Bool) (ts : List Bytes)
    → IsSynced h
    → has dec_bytes u ts ≡ ite (dec_bytes t u) now (has dec_bytes u (topics k (client_at c h)))
    → (if same k j && ite (ℕ_discrete c b) true false
        then has dec_bytes u ts
        else has dec_bytes u (topics j (client_at b h)))
      ≡ (if hits k j t u c b then now else registered j b u h)
same_step k j c b t u h now ts s step = ground (
  arith,
  step,
  s.agree j b u,
  λ (e : same k j ≡ true). ap (has dec_bytes u) (topics_same k j (client_at c h) e),
  λ (p : c ≡ b). ap (λ (n : ℕ). has dec_bytes u (topics j (client_at n h))) p,
)

pub subscribe_one-IsSynced :
    (k : Kind) (c : ℕ) (t : Bytes) (h : Hub)
    → c < length h.clients
    → IsSynced h
    → IsSynced (subscribe_one k c t h)
unfolding subscribe_one
subscribe_one-IsSynced k c t h less s =
    let cl = client_at c h in
    let ts = put dec_bytes t (topics k cl) in
    let added = add_member k c t h in
    record {
      agree = λ j b u.
          owned k j c b u ts added h (clients-add_member k c t h) less
          ∙ same_step k j c b t u h true ts s (has-put dec_bytes t u (topics k cl))
          ∙ sym (
              registered-set_client j c b u (set_topics k ts cl) added
              ∙ registered-add_member k j c b t u h);
      full = λ j. full-set_client j c (set_topics k ts cl) added (full-add_member k j c t h s.full);
    }

pub unsubscribe_one-IsSynced :
    (k : Kind) (c : ℕ) (t : Bytes) (h : Hub)
    → c < length h.clients
    → IsSynced h
    → IsSynced (unsubscribe_one k c t h)
unfolding unsubscribe_one remove_members
unsubscribe_one-IsSynced k c t h less s =
    let cl = client_at c h in
    let ts = remove dec_bytes t (topics k cl) in
    let left = remove_member k c t h in
    record {
      agree = λ j b u.
          owned k j c b u ts left h (clients-remove_member k c t h) less
          ∙ same_step k j c b t u h false ts s (has-remove dec_bytes t u (topics k cl))
          ∙ sym (
              registered-set_client j c b u (set_topics k ts cl) left
              ∙ registered-remove_member k j c b t u h);
      full =
          λ j. full-set_client j c (set_topics k ts cl) left (full-remove_member k j c t h s.full);
    }
