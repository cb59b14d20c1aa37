-- ===== src/Numbers.antt =====
-- strconv.ParseInt and strconv.FormatInt at base 10 and 64 bits, and `int64` arithmetic.
use native.Mathlib.Nat.{pow-suc}
use cache_custom.Prelude.{
  ℕ, zero, suc, ◌+◌, ◌-◌, ◌*◌, ◌/◌, ◌%◌, ◌^◌, ◌≤◌, ◌<◌, ◌≡◌, refl, Bool, true, ◌&&◌, Option, none,
  some, [], ◌∷◌, ◌==◌, ltb, leb, if◌then◌else◌, arith, ap, ◌∙◌, Bool-cases, inl, inr,
}
use cache_custom.Prelude.Int.{ℤ, pos, negsuc, pos_part, neg_part}
use cache_custom.Bytes.{Bytes, free_of}

digits : ℕ → Bytes → Option ℕ
digits n [] = some n
digits n (c ∷ cs) =
    let rest = digits (n * 10 + (c - 48)) cs in if leb 48 c && leb c 57 then rest else none

-- At least one digit.
magnitude : Bytes → Option ℕ
unfolding digits
magnitude [] = none
magnitude (c ∷ cs) = digits 0 (c ∷ cs)

positive : Option ℕ → Option ℤ
positive none = none
positive (some n) = if ltb n (2 ^ 63) then some (pos n) else none

negative : Option ℕ → Option ℤ
negative none = none
negative (some zero) = some (pos 0)
negative (some (suc n)) = if ltb n (2 ^ 63) then some (negsuc n) else none

unfoldable pub parse_int : Bytes → Option ℤ
unfolding magnitude positive negative
parse_int [] = none
parse_int (c ∷ cs) =
    if c == b'-'
    then negative (magnitude cs)
    else if c == b'+'
    then positive (magnitude cs)
    else positive (magnitude (c ∷ cs))

-- The digits of `n`, in front of `rest`. `fuel` bounds their number.
print_onto : ℕ → ℕ → Bytes → Bytes
print_onto zero n rest = rest
print_onto (suc fuel) n rest =
    let more = print_onto fuel (n / 10) ((48 + n % 10) ∷ rest) in
    if ltb n 10 then (48 + n) ∷ rest else more

-- Twenty digits are enough for 64 bits.
print_ℕ : ℕ → Bytes
unfolding print_onto
print_ℕ n = print_onto 20 n []

unfoldable pub format_int : ℤ → Bytes
unfolding print_ℕ
format_int (pos n) = print_ℕ n
format_int (negsuc n) = b'-' ∷ print_ℕ (suc n)

-- The `int64` with the given value modulo 2^64.
unfoldable pub wrap64 : ℤ → ℤ
wrap64 z =
    let m = (pos_part z % 2 ^ 64 + 2 ^ 64 - neg_part z % 2 ^ 64) % 2 ^ 64 in
    if ltb m (2 ^ 63) then pos m else negsuc (2 ^ 64 - 1 - m)

-- The integers of 64 bits.
unfoldable pub is_int64 : ℤ → Bool
is_int64 (pos n) = ltb n (2 ^ 63)
is_int64 (negsuc n) = ltb n (2 ^ 63)

-- One more digit: what is read so far goes on with it.
digits-digit :
    (n d : ℕ) (rest : Bytes) → d < 10 → digits n ((48 + d) ∷ rest) ≡ digits (n * 10 + d) rest
unfolding digits
digits-digit n d rest h =
    let e : n * 10 + (48 + d - 48) ≡ n * 10 + d = omega arith in rw e (ground arith)

tenth : (n p : ℕ) → n < p * 10 → n / 10 < p
tenth n p h = omega arith

-- Reading goes on through the digits that were printed.
digits-print_onto :
    (fuel n : ℕ) (rest : Bytes) → n < 10 ^ fuel → digits 0 (print_onto fuel n rest) ≡ digits n rest
unfolding print_onto
digits-print_onto zero n rest h = let e : n ≡ 0 = omega arith in rw e
digits-print_onto (suc fuel) n rest h = elim (Bool-cases (ltb n 10)) [
  | inl small ↦
      rw small (digits-digit 0 n rest (ground arith) ∙ ap (λ (m : ℕ). digits m rest) (omega arith))
  | inr large ↦ rw large (
      digits-print_onto fuel (n / 10) ((48 + n % 10) ∷ rest) (tenth n (10 ^ fuel) (rw pow-suc at h))
      ∙ digits-digit (n / 10) (n % 10) rest (omega arith)
      ∙ ap (λ (m : ℕ). digits m rest) (omega arith))
]

-- A text that starts with a digit.
abbrev FirstDigit : Bytes → Type 0
FirstDigit s = (c : ℕ) × (cs : Bytes) × (s ≡ c ∷ cs) × (48 ≤ c)

print_onto-FirstDigit :
    (fuel n d : ℕ) (rest : Bytes) → FirstDigit (print_onto fuel n ((48 + d) ∷ rest))
unfolding print_onto
print_onto-FirstDigit zero n d rest = (48 + d, rest, refl, omega arith)
print_onto-FirstDigit (suc fuel) n d rest = elim (Bool-cases (ltb n 10)) [
  | inl small ↦ (48 + n, (48 + d) ∷ rest, rw small, omega arith)
  | inr large ↦ rw large (print_onto-FirstDigit fuel (n / 10) (n % 10) ((48 + d) ∷ rest))
]

print_ℕ-FirstDigit : (n : ℕ) → FirstDigit (print_ℕ n)
unfolding print_ℕ print_onto
print_ℕ-FirstDigit n = elim (Bool-cases (ltb n 10)) [
  | inl small ↦ (48 + n, [], rw small, omega arith)
  | inr large ↦ rw large (print_onto-FirstDigit 19 (n / 10) (n % 10) [])
]

magnitude-print_ℕ : (n : ℕ) → n < 10 ^ 20 → magnitude (print_ℕ n) ≡ some n
unfolding magnitude print_ℕ digits
magnitude-print_ℕ n h =
    let (c, cs, e, _) = print_ℕ-FirstDigit n in
    let read : digits 0 (print_onto 20 n []) ≡ some n = digits-print_onto 20 n [] h in
    rw e (rw e at read)

-- What FormatInt prints of a 64-bit integer, ParseInt reads back as that integer.
pub parse_int-format_int : (z : ℤ) → is_int64 z ≡ true → parse_int (format_int z) ≡ some z
unfolding parse_int format_int is_int64
parse_int-format_int (pos n) h =
    let (c, cs, e, digit) = print_ℕ-FirstDigit n in
    let read = rw e at (magnitude-print_ℕ n (ground arith)) in rw e (ground (arith, read))
parse_int-format_int (negsuc n) h = rw (magnitude-print_ℕ (suc n) (ground arith)) (ground arith)

-- The value of every wrapped sum is an `int64`, so it prints as a number that ParseInt reads.
pub is_int64-wrap64 : (z : ℤ) → is_int64 (wrap64 z) ≡ true
unfolding is_int64 wrap64
is_int64-wrap64 z = ground arith

free_of-print_onto :
    (c fuel n : ℕ) (rest : Bytes)
    → c < 45
    → free_of c rest ≡ true
    → free_of c (print_onto fuel n rest) ≡ true
unfolding print_onto free_of
free_of-print_onto c zero n rest h free = free
free_of-print_onto c (suc fuel) n rest h free =
    let more = free_of-print_onto c fuel (n / 10) ((48 + n % 10) ∷ rest) h (ground arith) in
    ground (arith, more)

-- Digits and a minus sign are all that is printed.
pub free_of-format_int : (c : ℕ) (z : ℤ) → c < 45 → free_of c (format_int z) ≡ true
unfolding format_int free_of print_ℕ
free_of-format_int c (pos n) h = free_of-print_onto c 20 n [] h refl
free_of-format_int c (negsuc n) h = ground (arith, free_of-print_onto c 20 (suc n) [] h refl)
