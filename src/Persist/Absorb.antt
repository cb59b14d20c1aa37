-- ===== src/Persist/Absorb.antt =====
-- Lines of an append-only file as effects on one key (internal/persist/engine.go).
use cache_custom.Prelude.{
  ℕ, ◌≡◌, refl, ap, sym, ◌∙◌, true, false, ◌&&◌, Option, none, some, List, [], ◌∷◌, ◌++◌,
  if◌then◌else◌, ite,
}
use cache_custom.Prelude.Int.{pos_part, is_pos}
use cache_custom.Bytes.{Bytes, codes, dec_bytes}
use cache_custom.Sets.{has}
use cache_custom.Persist.Log.{AofLine, named}

-- The value of a key and its deadline, 0 for none.
abbrev pub Item : Type 0
Item = Option (Bytes × ℕ)

abbrev pub with_deadline : ℕ → Item → Item
with_deadline t none = none
with_deadline t (some (v, s)) = some (v, t)

-- What a line does to one key: nothing, a new deadline for the item if there is one, or an item of
-- its own, which may be none.
pub data Effect : Type 0 where
  keeps : Effect
  renews : ℕ → Effect
  leaves : Item → Effect

unfoldable pub act : Effect → Item → Item
act keeps x = x
act (renews t) x = with_deadline t x
act (leaves y) x = y

-- The effect of a line on the key `k` of the tenant `t`.
unfoldable pub effect : Bytes → Bytes → AofLine → Effect
unfolding has dec_bytes
effect t k l =
    let here = ite (dec_bytes l.key k) true false in
    ite (dec_bytes l.tenant t)
      (ite (dec_bytes l.op (codes "SET"))
        (if here then leaves (some (l.value, pos_part l.exp)) else keeps)
        (ite (dec_bytes l.op (codes "DEL"))
          (if has dec_bytes k (named l) then leaves none else keeps)
          (ite (dec_bytes l.op (codes "EXPIRE"))
            (if here && is_pos l.exp then renews (pos_part l.exp) else keeps)
            (ite (dec_bytes l.op (codes "PERSIST")) (if here then renews 0 else keeps)
              (ite (dec_bytes l.op (codes "FLUSHDB")) (leaves none) keeps)))))
      keeps

-- The item of a key after the lines.
unfoldable pub replay : Bytes → Bytes → List AofLine → Item → Item
unfolding act effect
replay t k [] x = x
replay t k (l ∷ ls) x = replay t k ls (act (effect t k l) x)

then_effect : Effect → Effect → Effect
then_effect e keeps = e
then_effect keeps (renews t) = renews t
then_effect (renews s) (renews t) = renews t
then_effect (leaves x) (renews t) = leaves (with_deadline t x)
then_effect e (leaves x) = leaves x

act-then_effect : (e f : Effect) (x : Item) → act (then_effect e f) x ≡ act f (act e x)
unfolding act then_effect
act-then_effect e keeps x = refl
act-then_effect keeps (renews t) x = refl
act-then_effect (renews s) (renews t) none = refl
act-then_effect (renews s) (renews t) (some (v, u)) = refl
act-then_effect (leaves y) (renews t) x = refl
act-then_effect keeps (leaves y) x = refl
act-then_effect (renews s) (leaves y) x = refl
act-then_effect (leaves z) (leaves y) x = refl

twice : (e : Effect) (x : Item) → act e (act e x) ≡ act e x
unfolding act
twice keeps x = refl
twice (renews t) none = refl
twice (renews t) (some (v, s)) = refl
twice (leaves y) x = refl

module _ (t k : Bytes) where
  -- The lines as one effect.
  whole : List AofLine → Effect
  unfolding then_effect
  whole [] = keeps
  whole (l ∷ ls) = then_effect (effect t k l) (whole ls)

  replay-whole : (ls : List AofLine) (x : Item) → replay t k ls x ≡ act (whole ls) x
  unfolding replay whole
  replay-whole [] x = refl
  replay-whole (l ∷ ls) x =
      replay-whole ls (act (effect t k l) x) ∙ sym (act-then_effect (effect t k l) (whole ls) x)

  pub replay-append :
      (xs ys : List AofLine) (x : Item) → replay t k (xs ++ ys) x ≡ replay t k ys (replay t k xs x)
  unfolding replay
  replay-append [] ys x = refl
  replay-append (l ∷ xs) ys x = replay-append xs ys (act (effect t k l) x)

  replay_twice : (ls : List AofLine) (x : Item) → replay t k ls (replay t k ls x) ≡ replay t k ls x
  replay_twice ls x =
      replay-whole ls (replay t k ls x)
      ∙ ap (act (whole ls)) (replay-whole ls x)
      ∙ twice (whole ls) x
      ∙ sym (replay-whole ls x)

  -- Lines that are replayed on top of a state which some of the first of them led to.
  pub replay_again :
      (xs ys : List AofLine) (x : Item)
      → replay t k (xs ++ ys) (replay t k xs x) ≡ replay t k (xs ++ ys) x
  replay_again xs ys x =
      replay-append xs ys (replay t k xs x)
      ∙ ap (replay t k ys) (replay_twice xs x)
      ∙ sym (replay-append xs ys x)
