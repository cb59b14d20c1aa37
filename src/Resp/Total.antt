-- ===== src/Resp/Total.antt =====
-- The readers of internal/protocol/resp.go end, and leave less input than they were given.
use cache_custom.Prelude.{
  ℕ, zero, suc, ◌+◌, ◌-◌, ◌^◌, ◌≡◌, ◌≢◌, ◌≤◌, ◌<◌, Bool, true, false, ◌&&◌, Option, none, some, [],
  ◌∷◌, ltb, ◌==◌, if◌then◌else◌, length, skip, get_or, arith, Bool-cases, Option-cases, inl, inr,
}
use cache_custom.Prelude.Int.{ℤ, pos, negsuc}
use cache_custom.Bytes.{Bytes}
use cache_custom.Numbers.{parse_int}
use cache_custom.Resp.{
  Value, Read, got, failed, panics, out_of_fuel, and_then, read_line, until_lf, cons_line,
  line_read, lf_read, strip_cr, payload, read_elems, bulk_of, array_of, read_tagged, read,
  read_value, integer_of, array_read, inline_of, read_inline,
}

-- A result other than `out_of_fuel`, with at most `n` bytes left.
abbrev Ends {ℓ} : {A : Type ℓ} → ℕ → Read A → Type 0
Ends n (got a rest) = length rest ≤ n
Ends n (failed e) = Unit
Ends n panics = Unit
Ends n out_of_fuel = ⊥

and_then-Ends {ℓ κ} :
    {A : Type ℓ} {B : Type κ} (m n : ℕ) (r : Read A) (f : A → Bytes → Read B)
    → Ends m r
    → ((a : A) (rest : Bytes) → length rest ≤ m → Ends n (f a rest))
    → Ends n (and_then r f)
unfolding and_then
and_then-Ends m n (got a rest) f h next = next a rest h
and_then-Ends m n (failed e) f h next = tt
and_then-Ends m n panics f h next = tt
and_then-Ends m n out_of_fuel f h next = absurd h

Ends-mono {ℓ} : {A : Type ℓ} (m n : ℕ) (r : Read A) → m ≤ n → Ends m r → Ends n r
Ends-mono m n (got a rest) le h = omega arith
Ends-mono m n (failed e) le h = tt
Ends-mono m n panics le h = tt
Ends-mono m n out_of_fuel le h = h

if-Ends {ℓ} :
    {A : Type ℓ} (n : ℕ) (b : Bool) (x y : Read A)
    → Ends n x
    → Ends n y
    → Ends n (if b then x else y)
if-Ends n true x y h k = h
if-Ends n false x y h k = k

until_lf-shorter : (s l rest : Bytes) → until_lf s ≡ some (l, rest) → length rest < length s
unfolding until_lf cons_line
until_lf-shorter [] l rest e = absurd cc
until_lf-shorter (c ∷ cs) l rest e = elim (Bool-cases (c == 10)) [
  | inl lf ↦ ground arith
  | inr other ↦ elim (Option-cases (until_lf cs)) [
    | inl none_left ↦ ground arith
    | inr (p, found) ↦ ground (arith, until_lf-shorter cs p.0 p.1)
  ]
]

line_read-Ends : (o : Option Bytes) (rest : Bytes) → Ends (length rest) (line_read o rest)
unfolding line_read
line_read-Ends none rest = tt
line_read-Ends (some l) rest = omega arith

-- A line takes at least its line feed.
read_line-Ends : (s : Bytes) → Ends (length s - 1) (read_line s)
unfolding read_line lf_read
read_line-Ends s = elim (Option-cases (until_lf s)) [
  | inl stuck ↦ rw stuck tt
  | inr ((l, rest), found) ↦
      let less = until_lf-shorter s l rest found in
      rw found (
        Ends-mono (length rest) (length s - 1) (line_read (strip_cr l) rest) (omega arith)
          (line_read-Ends (strip_cr l) rest))
]

length-skip : (n : ℕ) (s : Bytes) → length (skip n s) ≤ length s
length-skip zero s = omega arith
length-skip (suc n) [] = omega arith
length-skip (suc n) (x ∷ xs) = omega (arith, length-skip n xs)

payload-Ends : (n : ℕ) (s : Bytes) → Ends (length s) (payload n s)
unfolding payload
payload-Ends n s = if-Ends (length s) (ltb (length s) (n + 2)) _ _ tt (
    if-Ends (length s) (get_or s n 0 == 13 && get_or s (n + 1) 0 == 10) _ _ (length-skip (n + 2) s)
      tt)

inline_of-Ends : (l rest : Bytes) → Ends (length rest) (inline_of l rest)
unfolding inline_of
inline_of-Ends [] rest = tt
inline_of-Ends (c ∷ cs) rest = omega arith

integer_of-Ends : (o : Option ℤ) (rest : Bytes) → Ends (length rest) (integer_of o rest)
unfolding integer_of
integer_of-Ends none rest = tt
integer_of-Ends (some n) rest = omega arith

read_elems-Ends :
    (bound : ℕ) (reader : Bytes → Read Value) (n : ℕ) (s : Bytes)
    → length s ≤ bound
    → ((t : Bytes) → length t ≤ bound → Ends (length t) (reader t))
    → Ends (length s) (read_elems reader n s)
unfolding read_elems
read_elems-Ends bound reader zero s le each = omega arith
read_elems-Ends bound reader (suc n) s le each =
    and_then-Ends (length s) (length s) (reader s) _ (each s le) λ v rest less.
      and_then-Ends (length rest) (length s) (read_elems reader n rest) _
        (read_elems-Ends bound reader n rest (omega arith) each) λ vs rest' less'. omega arith

module _ (make_bytes make_values : ℕ → Bool) where
  bulk_of-Ends :
      (o : Option ℤ) (rest : Bytes) → Ends (length rest) (bulk_of make_bytes make_values o rest)
  unfolding bulk_of
  bulk_of-Ends none rest = tt
  bulk_of-Ends (some (negsuc zero)) rest = omega arith
  bulk_of-Ends (some (negsuc (suc n))) rest = tt
  bulk_of-Ends (some (pos n)) rest =
      if-Ends (length rest) (ltb (n + 2) (2 ^ 63) && make_bytes (n + 2)) _ _ (payload-Ends n rest)
        tt

  array_of-Ends :
      (reader : Bytes → Read Value) (o : Option ℤ) (rest : Bytes)
      → ((t : Bytes) → length t ≤ length rest → Ends (length t) (reader t))
      → Ends (length rest) (array_of make_bytes make_values reader o rest)
  unfolding array_of array_read
  array_of-Ends reader none rest each = tt
  array_of-Ends reader (some (negsuc zero)) rest each = omega arith
  array_of-Ends reader (some (negsuc (suc n))) rest each = tt
  array_of-Ends reader (some (pos n)) rest each = elim (Bool-cases (make_values n)) [
    | inl made ↦
        rw (made, array_of)
          (and_then-Ends (length rest) (length rest) (read_elems reader n rest) _
            (read_elems-Ends (length rest) reader n rest (omega arith) each) λ vs left less. less)
    | inr huge ↦ rw (huge, array_of) tt
  ]

  after_line :
      (n : ℕ) (s : Bytes) (f : Bytes → Bytes → Read Value)
      → ((l rest : Bytes) → length rest ≤ length s - 1 → Ends (length rest) (f l rest))
      → length s - 1 ≤ n
      → Ends n (and_then (read_line s) f)
  after_line n s f each bound =
      and_then-Ends (length s - 1) n (read_line s) f (read_line-Ends s)
        λ l rest le. Ends-mono (length rest) n (f l rest) (omega arith) (each l rest le)

  read_tagged-Ends :
      (reader : Bytes → Read Value) (c : ℕ) (s : Bytes)
      → ((t : Bytes) → length t ≤ length s → Ends (length t) (reader t))
      → Ends (length s) (read_tagged make_bytes make_values reader c s)
  unfolding read_tagged read_inline
  read_tagged-Ends reader c s each =
      let n = length s in
      if-Ends n (c == b'+') _ _ (after_line n s _ (λ l rest le. omega arith) (omega arith)) (
        if-Ends n (c == b'-') _ _ (after_line n s _ (λ l rest le. omega arith) (omega arith)) (
          if-Ends n (c == b':') _ _
            (after_line n s _ (λ l rest le. integer_of-Ends (parse_int l) rest) (omega arith))
            (if-Ends n (c == b'$') _ _
              (after_line n s _ (λ l rest le. bulk_of-Ends (parse_int l) rest) (omega arith))
              (if-Ends n (c == b'*') _ _
                (after_line n s _
                  (λ l rest le.
                    array_of-Ends reader (parse_int l) rest λ t less. each t (omega arith))
                  (omega arith))
                (after_line n (c ∷ s) inline_of (λ l rest le. inline_of-Ends l rest)
                  (omega arith))))))

  read-Ends :
      (fuel : ℕ) (s : Bytes)
      → length s < fuel
      → Ends (length s - 1) (read make_bytes make_values fuel s)
  unfolding read
  read-Ends zero s h = absurd (omega arith)
  read-Ends (suc fuel) [] h = tt
  read-Ends (suc fuel) (c ∷ s) h = Ends-mono (length s) (suc (length s) - 1) _ (omega arith) (
      read_tagged-Ends (read make_bytes make_values fuel) c s λ t le.
        Ends-mono (length t - 1) (length t) (read make_bytes make_values fuel t) (omega arith)
          (read-Ends fuel t (omega arith)))

  -- On every input the recursion of Read ends within as many levels as the input has bytes, and
  -- one more: the model never runs out of fuel.
  pub read_value_ends : (s : Bytes) → read_value make_bytes make_values s ≢ out_of_fuel
  unfolding read_value
  read_value_ends s e = let ends = read-Ends (suc (length s)) s (omega arith) in rw e at ends

  got_shorter :
      (s : Bytes) (r : Read Value) (v : Value) (rest : Bytes)
      → Ends (length s - 1) r
      → r ≡ got v rest
      → length rest ≤ length s - 1
  got_shorter s r v rest ends e = rw e at ends

  -- A Read that gives a value takes at least a byte of the input.
  pub read_value_progress :
      (s : Bytes) (v : Value) (rest : Bytes)
      → read_value make_bytes make_values s ≡ got v rest
      → length rest < length s
  unfolding read_value read
  read_value_progress [] v rest e = absurd cc
  read_value_progress (c ∷ s) v rest e =
      let le =
        got_shorter (c ∷ s) _ v rest (read-Ends (suc (suc (length s))) (c ∷ s) (omega arith)) e in
      omega (arith, le)
