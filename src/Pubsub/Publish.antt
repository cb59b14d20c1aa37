-- ===== src/Pubsub/Publish.antt =====
-- Whom a message reaches (internal/pubsub/hub.go).
use cache_custom.Prelude.{
  ℕ, ◌≡◌, refl, ap, ◌∙◌, Bool, true, false, ◌&&◌, ◌||◌, Option, none, some, List, [], ◌∷◌, ◌++◌,
  ite, arith, ℕ_discrete,
}
use cache_custom.Bytes.{Bytes, dec_bytes}
use cache_custom.Dict
use cache_custom.Dict.{Dict}
use cache_custom.Sets.{has}
use cache_custom.Resp.{Value}
use cache_custom.Pubsub.{
  Hub, channel, pattern, client_at, members, Target, as_targets, pattern_targets, targets,
}
use cache_custom.Pubsub.Synced.{IsSynced}
use cache_custom.Pubsub.Synced.Members.{unique, unknown, registered}

-- By the channel itself, or by the same pattern.
abbrev pub same_way : Option Bytes → Option Bytes → Bool
same_way none none = true
same_way none (some q) = false
same_way (some p) none = false
same_way (some p) (some q) = ite (dec_bytes p q) true false

-- Whether a client is among the recipients in that way.
unfoldable pub reached : ℕ → Option Bytes → List Target → Bool
reached c q [] = false
reached c q ((b, p) ∷ ts) = (ite (ℕ_discrete b c) true false && same_way p q) || reached c q ts

reached-append :
    (c : ℕ) (q : Option Bytes) (xs ys : List Target)
    → reached c q (xs ++ ys) ≡ (reached c q xs || reached c q ys)
unfolding reached
reached-append c q [] ys = refl
reached-append c q ((b, p) ∷ xs) ys = ground (arith, reached-append c q xs ys)

reached-as_targets :
    (c : ℕ) (p q : Option Bytes) (cs : List ℕ)
    → reached c q (as_targets p cs) ≡ (same_way p q && has ℕ_discrete c cs)
unfolding reached as_targets has
reached-as_targets c p q [] = ground arith
reached-as_targets c p q (b ∷ cs) = ground (arith, reached-as_targets c p q cs)

module _ (matches : Bytes → Bytes → Bool) (accepts : ℕ → Value → Bool) (ch : Bytes) where
  plain-patterns :
      (c : ℕ) (m : Dict (List ℕ)) → reached c none (pattern_targets matches accepts ch m) ≡ false
  unfolding pattern_targets reached
  plain-patterns c [] = refl
  plain-patterns c ((p, cs) ∷ m) = ground (
    arith,
    plain-patterns c m,
    reached-append c none (as_targets (some p) cs) (pattern_targets matches accepts ch m),
    reached-as_targets c (some p) none cs,
  )

  by_pattern :
      (c : ℕ) (q : Bytes) (m : Dict (List ℕ))
      → unique m ≡ true
      → reached c (some q) (pattern_targets matches accepts ch m)
        ≡ (matches q ch && has ℕ_discrete c (members q m))
  unfolding pattern_targets reached members has unique unknown Dict.lookup
  by_pattern c q [] once = ground arith
  by_pattern c q ((p, cs) ∷ m) once = ground (
    arith,
    by_pattern c q m,
    reached-append c (some q) (as_targets (some p) cs) (pattern_targets matches accepts ch m),
    reached-as_targets c (some p) (some q) cs,
    λ (e : p ≡ q). ap (λ (x : Bytes). matches x ch) e,
    λ (e : p ≡ q). ap (λ (x : Bytes). Dict.lookup x m) e,
  )

  -- Where the two sides of a hub agree, Publish to a channel takes a client as a plain recipient
  -- exactly if the client has the channel, and as a recipient by a pattern exactly if the client
  -- has the pattern and the pattern matches the channel.
  pub targets_lem :
      (c : ℕ) (p : Bytes) (h : Hub)
      → IsSynced h
      → (reached c none (targets matches accepts ch h) ≡ has dec_bytes ch (client_at c h).channels)
        × (reached c (some p) (targets matches accepts ch h)
            ≡ (matches p ch && has dec_bytes p (client_at c h).patterns))
  unfolding targets registered
  targets_lem c p h s = (
    reached-append c none (as_targets none (members ch h.by_channel))
          (pattern_targets matches accepts ch h.by_pattern)
        ∙ ground (
          arith,
          reached-as_targets c none none (members ch h.by_channel),
          plain-patterns c h.by_pattern,
          s.agree channel c ch,
        ),
    reached-append c (some p) (as_targets none (members ch h.by_channel))
          (pattern_targets matches accepts ch h.by_pattern)
        ∙ ground (
          arith,
          reached-as_targets c none (some p) (members ch h.by_channel),
          by_pattern c p h.by_pattern (s.full pattern).0,
          s.agree pattern c p,
        ),
  )
