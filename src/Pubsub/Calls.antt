-- ===== src/Pubsub/Calls.antt =====
-- Sequences of calls of the clients of a hub (internal/pubsub/hub.go).
use cache_custom.Prelude.{
  ℕ, zero, suc, ◌<◌, ◌≡◌, ◌⊎◌, refl, ap, sym, ◌∙◌, Bool, true, false, ◌&&◌, List, [], ◌∷◌, ◌++◌,
  if◌then◌else◌, ite, arith, length, get_or, ℕ_discrete, length-set, Bool-cases, inl, inr,
}
use cache_custom.Bytes.{Bytes, dec_bytes}
use cache_custom.Dict
use cache_custom.Sets.{has}
use cache_custom.Tenant.{is_empty_text}
use cache_custom.Pubsub.{
  Client, Hub, new_hub, no_client, new_client, Kind, channel, pattern, client_at, topics, registry,
  set_client, members, remove_member, remove_members, subscribe_one, unsubscribe_one, subscribe,
  unsubscribe_each, unsubscribe, closed_client, close,
}
use cache_custom.Pubsub.Synced.{
  IsSynced, subscribe_one-IsSynced, unsubscribe_one-IsSynced, client_at-set_client,
  registered-set_client, full-set_client, client_at-same,
}
use cache_custom.Pubsub.Synced.Members.{
  AllFull, unique, same, registered, registered-remove_member, clients-add_member,
  clients-remove_member, full-remove_member,
}

-- The hub is in agreement and has as many clients as before.
record Kept (n : ℕ) (h : Hub) : Type 0 where
  pub synced : IsSynced h
  pub count : length h.clients ≡ n

subscribe_one-Kept :
    (n : ℕ) (k : Kind) (c : ℕ) (t : Bytes) (h : Hub)
    → c < n
    → Kept n h
    → Kept n (subscribe_one k c t h)
unfolding subscribe_one
subscribe_one-Kept n k c t h less s = record {
  synced = subscribe_one-IsSynced k c t h (omega (arith, s.count)) s.synced;
  count = length-set _ c _ ∙ ap length (clients-add_member k c t h) ∙ s.count;
}

unsubscribe_one-Kept :
    (n : ℕ) (k : Kind) (c : ℕ) (t : Bytes) (h : Hub)
    → c < n
    → Kept n h
    → Kept n (unsubscribe_one k c t h)
unfolding unsubscribe_one remove_members
unsubscribe_one-Kept n k c t h less s = record {
  synced = unsubscribe_one-IsSynced k c t h (omega (arith, s.count)) s.synced;
  count = length-set _ c _ ∙ ap length (clients-remove_member k c t h) ∙ s.count;
}

if-Kept : (n : ℕ) (b : Bool) (g h : Hub) → Kept n g → Kept n h → Kept n (if b then g else h)
if-Kept n true g h k l = k
if-Kept n false g h k l = l

subscribe-Kept :
    (n : ℕ) (k : Kind) (c : ℕ) (ts : List Bytes) (h : Hub)
    → c < n
    → Kept n h
    → Kept n (subscribe k c ts h).1
unfolding subscribe
subscribe-Kept n k c [] h less s = s
subscribe-Kept n k c (t ∷ ts) h less s =
    subscribe-Kept n k c ts (if is_empty_text t then h else subscribe_one k c t h) less (
      if-Kept n (is_empty_text t) h (subscribe_one k c t h) s (subscribe_one-Kept n k c t h less s))

unsubscribe_each-Kept :
    (n : ℕ) (k : Kind) (c : ℕ) (ts : List Bytes) (h : Hub)
    → c < n
    → Kept n h
    → Kept n (unsubscribe_each k c ts h).1
unfolding unsubscribe_each
unsubscribe_each-Kept n k c [] h less s = s
unsubscribe_each-Kept n k c (t ∷ ts) h less s =
    unsubscribe_each-Kept n k c ts (unsubscribe_one k c t h) less
      (unsubscribe_one-Kept n k c t h less s)

unsubscribe-Kept :
    (n : ℕ) (k : Kind) (c : ℕ) (ts : List Bytes) (h : Hub)
    → c < n
    → Kept n h
    → Kept n (unsubscribe k c ts h).1
unfolding unsubscribe
unsubscribe-Kept n k c [] h less s = unsubscribe_each-Kept n k c (topics k (client_at c h)) h less s
unsubscribe-Kept n k c (t ∷ ts) h less s = unsubscribe_each-Kept n k c (t ∷ ts) h less s

-- Taking a client off the lists of some topics.
registered-remove_members :
    (k j : Kind) (c b : ℕ) (ts : List Bytes) (u : Bytes) (h : Hub)
    → registered j b u (remove_members k c ts h) ≡ (
        if same k j && has dec_bytes u ts && ite (ℕ_discrete c b) true false
        then false
        else registered j b u h)
unfolding remove_members has
registered-remove_members k j c b [] u h = ground arith
registered-remove_members k j c b (t ∷ ts) u h =
    registered-remove_members k j c b ts u (remove_member k c t h)
    ∙ ground (arith, registered-remove_member k j c b t u h)

clients-remove_members :
    (k : Kind) (c : ℕ) (ts : List Bytes) (h : Hub) → (remove_members k c ts h).clients ≡ h.clients
unfolding remove_members
clients-remove_members k c [] h = refl
clients-remove_members k c (t ∷ ts) h =
    clients-remove_members k c ts (remove_member k c t h) ∙ clients-remove_member k c t h

full-remove_members :
    (k j : Kind) (c : ℕ) (ts : List Bytes) (h : Hub)
    → ((i : Kind) → AllFull (registry i h))
    → AllFull (registry j (remove_members k c ts h))
unfolding remove_members
full-remove_members k j c [] h full = full j
full-remove_members k j c (t ∷ ts) h full =
    full-remove_members k j c ts (remove_member k c t h) λ i. full-remove_member k i c t h full

-- A client that is closed is on no list.
module _ (c : ℕ) (h : Hub) (less : c < length h.clients) (s : IsSynced h) where
  closing : Hub
  closing = set_client c closed_client h

  after_channels : Hub
  unfolding closing
  after_channels = remove_members channel c (client_at c h).channels closing

  after_close : Hub
  unfolding after_channels
  after_close = remove_members pattern c (client_at c h).patterns after_channels

  registered_after :
      (k : Kind) (b : ℕ) (u : Bytes)
      → registered k b u after_close
        ≡ (if ite (ℕ_discrete c b) true false then false else registered k b u h)
  unfolding after_close after_channels closing
  registered_after k b u = ground (
    arith,
    registered-remove_members pattern k c b (client_at c h).patterns u after_channels,
    registered-remove_members channel k c b (client_at c h).channels u closing,
    registered-set_client k c b u closed_client h,
    s.agree channel c u,
    s.agree pattern c u,
    λ (p : c ≡ b). ap (λ (n : ℕ). registered k n u h) p,
    k_cases k,
  )
    where
      k_cases : (k : Kind) → (k ≡ channel) ⊎ (k ≡ pattern)
      k_cases channel = inl refl
      k_cases pattern = inr refl

  clients_after : after_close.clients ≡ closing.clients
  unfolding after_close after_channels closing
  clients_after =
      clients-remove_members pattern c (client_at c h).patterns after_channels
      ∙ clients-remove_members channel c (client_at c h).channels closing

  topics_after :
      (k : Kind) (b : ℕ) (u : Bytes)
      → has dec_bytes u (topics k (client_at b after_close)) ≡ (
          if ite (ℕ_discrete c b) true false
          then false
          else has dec_bytes u (topics k (client_at b h)))
  unfolding closing has
  topics_after k b u =
      ap (λ x. has dec_bytes u (topics k x))
        (client_at-same b after_close closing clients_after
          ∙ client_at-set_client c b closed_client h less)
      ∙ at_one k (ℕ_discrete c b)
    where
      at_one :
          (k : Kind) (d : Dec (c ≡ b))
          → has dec_bytes u (topics k (ite d closed_client (client_at b h)))
            ≡ (if ite d true false then false else has dec_bytes u (topics k (client_at b h)))
      at_one channel (yes p) = refl
      at_one pattern (yes p) = refl
      at_one k (no q) = refl

  close-Kept : Kept (length h.clients) after_close
  unfolding after_close after_channels closing
  close-Kept = record {
    synced = record {
      agree = λ k b u.
          topics_after k b u
          ∙ ap (λ x. if ite (ℕ_discrete c b) true false then false else x) (s.agree k b u)
          ∙ sym (registered_after k b u);
      full = λ k. full-remove_members pattern k c (client_at c h).patterns after_channels λ i.
          full-remove_members channel i c (client_at c h).channels closing
            λ j. full-set_client j c closed_client h (s.full j);
    };
    count = ap length clients_after ∙ length-set h.clients c closed_client;
  }

close_lem : (n c : ℕ) (h : Hub) → c < n → Kept n h → Kept n (close c h)
unfolding close after_close
close_lem n c h less s = elim (Bool-cases (client_at c h).closed) [
  | inl already ↦ rw already s
  | inr open_one ↦
      let k = close-Kept c h (omega (arith, s.count)) s.synced in
      rw open_one (record { synced = k.synced; count = k.count ∙ s.count })
]

new_client-IsSynced : (h : Hub) → IsSynced h → IsSynced (new_client h)
unfolding registered
new_client-IsSynced h s = record {
  agree = λ k c t.
      ap (λ x. has dec_bytes t (topics k x)) (fresh c h.clients) ∙ s.agree k c t ∙ reg k c t;
  full = full;
}
  where
    fresh :
        (c : ℕ) (cs : List Client)
        → get_or (cs ++ no_client ∷ []) c no_client ≡ get_or cs c no_client
    fresh zero [] = refl
    fresh (suc c) [] = refl
    fresh zero (x ∷ cs) = refl
    fresh (suc c) (x ∷ cs) = fresh c cs

    reg : (k : Kind) (c : ℕ) (t : Bytes) → registered k c t h ≡ registered k c t (new_client h)
    reg channel c t = refl
    reg pattern c t = refl

    full : (k : Kind) → AllFull (registry k (new_client h))
    full channel = s.full channel
    full pattern = s.full pattern

-- One call by one of the clients, or a new client.
pub data Call (h : Hub) : Hub → Type 0 where
  joins : Call h (new_client h)
  subscribes :
      (k : Kind) (c : ℕ) (ts : List Bytes) → c < length h.clients → Call h (subscribe k c ts h).1
  unsubscribes :
      (k : Kind) (c : ℕ) (ts : List Bytes) → c < length h.clients → Call h (unsubscribe k c ts h).1
  closes : (c : ℕ) → c < length h.clients → Call h (close c h)

pub data Calls : Hub → Type 0 where
  begin : Calls new_hub
  then_call : {g h : Hub} → Calls g → Call g h → Calls h

Call-IsSynced : {g h : Hub} → Call g h → IsSynced g → IsSynced h
Call-IsSynced {g} joins s = new_client-IsSynced g s
Call-IsSynced {g} (subscribes k c ts less) s =
    (subscribe-Kept (length g.clients) k c ts g less (record { synced = s; count = refl })).synced
Call-IsSynced {g} (unsubscribes k c ts less) s =
    (unsubscribe-Kept (length g.clients) k c ts g less (record { synced = s; count = refl })).synced
Call-IsSynced {g} (closes c less) s =
    (close_lem (length g.clients) c g less (record { synced = s; count = refl })).synced

new_hub-IsSynced : IsSynced new_hub
unfolding registered members has Dict.lookup unique
new_hub-IsSynced = record { agree = λ k c t. nothing k c t; full = empty }
  where
    nothing :
        (k : Kind) (c : ℕ) (t : Bytes)
        → has dec_bytes t (topics k (client_at c new_hub)) ≡ registered k c t new_hub
    nothing channel c t = refl
    nothing pattern c t = refl

    empty : (k : Kind) → AllFull (registry k new_hub)
    empty channel = (refl, λ t e. cc)
    empty pattern = (refl, λ t e. cc)

-- After any calls of any clients of a hub (new clients, subscriptions, cancelled subscriptions, of
-- some names or of all, and closed clients), a client is listed by the hub for exactly the
-- channels and patterns that it has, and the hub keeps no topic twice and none with no subscriber.
pub Calls-IsSynced : {h : Hub} → Calls h → IsSynced h
Calls-IsSynced begin = new_hub-IsSynced
Calls-IsSynced (then_call r c) = Call-IsSynced c (Calls-IsSynced r)
