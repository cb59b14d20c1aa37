-- ===== src/Pubsub/Synced/Members.antt =====
-- What a hub's two maps hold after a step (internal/pubsub/hub.go).
use cache_custom.Prelude.{
  ℕ, ◌≡◌, ◌≢◌, refl, ap, sym, ◌∙◌, Bool, true, false, ◌&&◌, Option, none, some, List, [], ◌∷◌,
  if◌then◌else◌, ite, arith, ℕ_discrete, Option-cases, inl, inr,
}
use cache_custom.Bytes.{Bytes, dec_bytes}
use cache_custom.Dict
use cache_custom.Dict.{Dict, lookup-insert, lookup-delete}
use cache_custom.Sets.{has, remove, put, has-put, has-remove}
use cache_custom.Pubsub.{
  Hub, Kind, channel, pattern, registry, set_registry, members, store_members, add_member,
  remove_member_found, remove_member,
}

unfoldable pub unknown : Option (List ℕ) → Bool
unknown none = true
unknown (some cs) = false

-- Whether a map holds each key once.
unfoldable pub unique : Dict (List ℕ) → Bool
unfolding unknown Dict.lookup
unique [] = true
unique ((k, cs) ∷ m) = unknown (Dict.lookup k m) && unique m

-- A map holds each key once, and no empty set.
abbrev pub AllFull : Dict (List ℕ) → Type 0
AllFull m = (unique m ≡ true) × ((t : Bytes) → Dict.lookup t m ≢ some [])

unique-insert :
    (t : Bytes) (cs : List ℕ) (m : Dict (List ℕ))
    → unique m ≡ true
    → unique (Dict.insert t cs m) ≡ true
unfolding unique unknown Dict.insert Dict.lookup
unique-insert t cs [] h = refl
unique-insert t cs ((k, ds) ∷ m) h = ground (arith, unique-insert t cs m, lookup-insert t k cs m)

unique-delete : (t : Bytes) (m : Dict (List ℕ)) → unique m ≡ true → unique (Dict.delete t m) ≡ true
unfolding unique unknown Dict.delete Dict.lookup
unique-delete t [] h = refl
unique-delete t ((k, ds) ∷ m) h = ground (arith, unique-delete t m, lookup-delete t k m)

members-insert :
    (t u : Bytes) (cs : List ℕ) (m : Dict (List ℕ))
    → members u (Dict.insert t cs m) ≡ ite (dec_bytes t u) cs (members u m)
unfolding members
members-insert t u cs m = ground (arith, lookup-insert t u cs m)

members-store :
    (t u : Bytes) (cs : List ℕ) (m : Dict (List ℕ))
    → members u (store_members t cs m) ≡ ite (dec_bytes t u) cs (members u m)
unfolding members
members-store t u [] m = ground (arith, lookup-delete t u m)
members-store t u (c ∷ cs) m = ground (arith, lookup-insert t u (c ∷ cs) m)

abbrev pub same : Kind → Kind → Bool
same channel channel = true
same channel pattern = false
same pattern channel = false
same pattern pattern = true

registry-set_registry :
    (k j : Kind) (m : Dict (List ℕ)) (h : Hub)
    → registry j (set_registry k m h) ≡ (if same k j then m else registry j h)
registry-set_registry channel channel m h = refl
registry-set_registry channel pattern m h = refl
registry-set_registry pattern channel m h = refl
registry-set_registry pattern pattern m h = refl

clients-set_registry :
    (k : Kind) (m : Dict (List ℕ)) (h : Hub) → (set_registry k m h).clients ≡ h.clients
clients-set_registry channel m h = refl
clients-set_registry pattern m h = refl

-- Whether a client is registered for a topic.
unfoldable pub registered : Kind → ℕ → Bytes → Hub → Bool
unfolding has members
registered k c t h = has ℕ_discrete c (members t (registry k h))

same_topic : (k j : Kind) (t u : Bytes) (h : Hub) → same k j ≡ true → registry k h ≡ registry j h
same_topic channel channel t u h e = refl
same_topic channel pattern t u h e = absurd cc
same_topic pattern channel t u h e = absurd cc
same_topic pattern pattern t u h e = refl

-- Whether a step on one topic of one client is about this client and topic.
abbrev pub hits : Kind → Kind → Bytes → Bytes → ℕ → ℕ → Bool
hits k j t u c b = same k j && ite (dec_bytes t u) true false && ite (ℕ_discrete c b) true false

module _ (d : Discrete ℕ) (c b : ℕ) (t u : Bytes) (m : Dict (List ℕ)) where
  -- In one map: the set of a topic gains a client,
  has-add : has d b (members u (Dict.insert t (put d c (members t m)) m)) ≡ (
      if ite (dec_bytes t u) true false && ite (d c b) true false
      then true
      else has d b (members u m))
  has-add = ground (
    arith,
    members-insert t u (put d c (members t m)) m,
    has-put d c b (members t m),
    λ (p : t ≡ u). ap (λ (x : Bytes). members x m) p,
  )

  -- or loses one.
  has-gone :
      (cs : List ℕ)
      → members t m ≡ cs
      → has d b (members u (store_members t (remove d c cs) m)) ≡ (
          if ite (dec_bytes t u) true false && ite (d c b) true false
          then false
          else has d b (members u m))
  has-gone cs e = ground (
    arith,
    e,
    members-store t u (remove d c cs) m,
    has-remove d c b cs,
    λ (p : t ≡ u). ap (λ (x : Bytes). members x m) p,
  )

  has-absent :
      Dict.lookup t m ≡ none
      → has d b (members u m) ≡ (
          if ite (dec_bytes t u) true false && ite (d c b) true false
          then false
          else has d b (members u m))
  unfolding members has
  has-absent e = ground (arith, e, λ (p : t ≡ u). ap (λ (x : Bytes). Dict.lookup x m) p)

pub registered-add_member :
    (k j : Kind) (c b : ℕ) (t u : Bytes) (h : Hub)
    → registered j b u (add_member k c t h)
      ≡ (if hits k j t u c b then true else registered j b u h)
unfolding registered add_member
registered-add_member channel channel c b t u h = has-add ℕ_discrete c b t u h.by_channel
registered-add_member channel pattern c b t u h = refl
registered-add_member pattern channel c b t u h = refl
registered-add_member pattern pattern c b t u h = has-add ℕ_discrete c b t u h.by_pattern

found_members :
    (t : Bytes) (cs : List ℕ) (m : Dict (List ℕ)) → Dict.lookup t m ≡ some cs → members t m ≡ cs
unfolding members
found_members t cs m e = rw e refl

-- In the map of the kind itself.
registered_here :
    (k : Kind) (c b : ℕ) (t u : Bytes) (h : Hub)
    → registered k b u (remove_member k c t h) ≡ (
        if ite (dec_bytes t u) true false && ite (ℕ_discrete c b) true false
        then false
        else registered k b u h)
unfolding registered remove_member remove_member_found
registered_here k c b t u h = elim (Option-cases (Dict.lookup t (registry k h))) [
  | inl out ↦ rw out (has-absent ℕ_discrete c b t u (registry k h) out)
  | inr (cs, e) ↦
      rw (e, registry-self k)
        (has-gone ℕ_discrete c b t u (registry k h) cs (found_members t cs (registry k h) e))
]
  where
    registry-self : (k : Kind) (m : Dict (List ℕ)) → registry k (set_registry k m h) ≡ m
    registry-self channel m = refl
    registry-self pattern m = refl

registered_there :
    (k j : Kind) (c b : ℕ) (t u : Bytes) (h : Hub)
    → same k j ≡ false
    → registered j b u (remove_member k c t h) ≡ registered j b u h
unfolding registered remove_member remove_member_found
registered_there channel channel c b t u h e = absurd cc
registered_there channel pattern c b t u h e = elim (Option-cases (Dict.lookup t h.by_channel)) [
  | inl out ↦ rw out refl
  | inr (cs, q) ↦ rw q refl
]
registered_there pattern channel c b t u h e = elim (Option-cases (Dict.lookup t h.by_pattern)) [
  | inl out ↦ rw out refl
  | inr (cs, q) ↦ rw q refl
]
registered_there pattern pattern c b t u h e = absurd cc

pub registered-remove_member :
    (k j : Kind) (c b : ℕ) (t u : Bytes) (h : Hub)
    → registered j b u (remove_member k c t h)
      ≡ (if hits k j t u c b then false else registered j b u h)
registered-remove_member channel channel c b t u h = registered_here channel c b t u h
registered-remove_member channel pattern c b t u h = registered_there channel pattern c b t u h refl
registered-remove_member pattern channel c b t u h = registered_there pattern channel c b t u h refl
registered-remove_member pattern pattern c b t u h = registered_here pattern c b t u h

pub clients-add_member :
    (k : Kind) (c : ℕ) (t : Bytes) (h : Hub) → (add_member k c t h).clients ≡ h.clients
unfolding add_member
clients-add_member channel c t h = refl
clients-add_member pattern c t h = refl

pub clients-remove_member :
    (k : Kind) (c : ℕ) (t : Bytes) (h : Hub) → (remove_member k c t h).clients ≡ h.clients
unfolding remove_member remove_member_found
clients-remove_member k c t h = elim (Option-cases (Dict.lookup t (registry k h))) [
  | inl out ↦ rw out refl
  | inr (cs, q) ↦ rw q (clients-set_registry k _ h)
]

full-insert :
    (t : Bytes) (cs : List ℕ) (m : Dict (List ℕ))
    → cs ≢ []
    → AllFull m
    → AllFull (Dict.insert t cs m)
full-insert t cs m ne full = (
  unique-insert t cs m full.0,
  λ u e.
      elim (dec_bytes t u)
          as (λ d. Dict.lookup u (Dict.insert t cs m) ≡ ite d (some cs) (Dict.lookup u m) → ⊥) [
            | yes p ↦ λ look. ne (some_inj (sym look ∙ e))
            | no q ↦ λ look. full.1 u (sym look ∙ e)
          ]
        (lookup-insert t u cs m),
)
  where
    some_inj : {a b : List ℕ} → some a ≡ some b → a ≡ b
    some_inj e = cc

full-delete : (t : Bytes) (m : Dict (List ℕ)) → AllFull m → AllFull (Dict.delete t m)
full-delete t m full = (
  unique-delete t m full.0,
  λ u e.
      elim (dec_bytes t u)
          as (λ d. Dict.lookup u (Dict.delete t m) ≡ ite d none (Dict.lookup u m) → ⊥) [
            | yes p ↦ λ look. none_some (sym look ∙ e)
            | no q ↦ λ look. full.1 u (sym look ∙ e)
          ]
        (lookup-delete t u m),
)
  where
    none_some : ◌≡◌ {A = Option (List ℕ)} none (some []) → ⊥
    none_some e = cc

full-store :
    (t : Bytes) (cs : List ℕ) (m : Dict (List ℕ)) → AllFull m → AllFull (store_members t cs m)
full-store t [] m full = full-delete t m full
full-store t (c ∷ cs) m full = full-insert t (c ∷ cs) m (λ e. cc) full

put-full : (d : Discrete ℕ) (c : ℕ) (cs : List ℕ) → put d c cs ≢ []
unfolding put
put-full d c [] e = cc
put-full d c (x ∷ xs) e = ground (arith, e)

pub full-add_member :
    (k j : Kind) (c : ℕ) (t : Bytes) (h : Hub)
    → ((i : Kind) → AllFull (registry i h))
    → AllFull (registry j (add_member k c t h))
unfolding add_member
full-add_member channel channel c t h full =
    full-insert t _ h.by_channel (put-full ℕ_discrete c (members t h.by_channel)) (full channel)
full-add_member channel pattern c t h full = full pattern
full-add_member pattern channel c t h full = full channel
full-add_member pattern pattern c t h full =
    full-insert t _ h.by_pattern (put-full ℕ_discrete c (members t h.by_pattern)) (full pattern)

full-found :
    (k j : Kind) (c : ℕ) (t : Bytes) (o : Option (List ℕ)) (h : Hub)
    → ((i : Kind) → AllFull (registry i h))
    → AllFull (registry j (remove_member_found k c t o h))
unfolding remove_member_found
full-found k j c t none h full = full j
full-found channel channel c t (some cs) h full = full-store t _ h.by_channel (full channel)
full-found channel pattern c t (some cs) h full = full pattern
full-found pattern channel c t (some cs) h full = full channel
full-found pattern pattern c t (some cs) h full = full-store t _ h.by_pattern (full pattern)

pub full-remove_member :
    (k j : Kind) (c : ℕ) (t : Bytes) (h : Hub)
    → ((i : Kind) → AllFull (registry i h))
    → AllFull (registry j (remove_member k c t h))
unfolding remove_member
full-remove_member k j c t h full = full-found k j c t (Dict.lookup t (registry k h)) h full
