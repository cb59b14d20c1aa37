-- ===== src/Bytes.antt =====
-- Go strings as lists of byte values: equality, order, hashing and letter case.
use Prim.Native.Nat.{bit_xor}
use mathlib.Core.List.{reverse}
use Prim.Native.Char.{code}
use Prim.Native.String.{String}
use cache_custom.Prelude.{
  ℕ, ◌+◌, ◌*◌, ◌%◌, ◌^◌, refl, not, Bool, true, false, ◌&&◌, ◌||◌, List, [], ◌∷◌, map, ltb, leb,
  ◌-◌, ◌==◌, if◌then◌else◌, ℕ_discrete,
}

abbrev pub Bytes : Type 0
Bytes = List ℕ

-- The bytes of an ASCII literal.
abbrev pub codes : String → Bytes
codes String.[] = []
codes (String.◌∷◌ c s) = code c ∷ codes s

unfoldable pub dec_bytes : Discrete Bytes
unfolding ℕ_discrete
dec_bytes [] [] = yes refl
dec_bytes [] (y ∷ ys) = no (λ e. cc)
dec_bytes (x ∷ xs) [] = no (λ e. cc)
dec_bytes (x ∷ xs) (y ∷ ys) = elim (ℕ_discrete x y) [
  | no p ↦ no (λ e. p (cc))
  | yes p ↦ elim (dec_bytes xs ys) [ no q ↦ no (λ e. q (cc)) | yes q ↦ yes (cc) ]
]

-- Go's `<` on strings: byte by byte, a prefix first.
unfoldable pub bytes_lt : Bytes → Bytes → Bool
bytes_lt [] [] = false
bytes_lt [] (y ∷ ys) = true
bytes_lt (x ∷ xs) [] = false
bytes_lt (x ∷ xs) (y ∷ ys) =
    let rest = bytes_lt xs ys in if ltb x y then true else if ltb y x then false else rest

-- hash/fnv New32a: FNV-1a over the bytes, modulo 2^32.
fnv_step : ℕ → Bytes → ℕ
fnv_step h [] = h
fnv_step h (c ∷ cs) = fnv_step ((bit_xor h c * 16777619) % 2 ^ 32) cs

unfoldable pub fnv32a : Bytes → ℕ
unfolding fnv_step
fnv32a s = fnv_step 2166136261 s

-- strings.ToLower and strings.ToUpper, on ASCII.
unfoldable pub to_lower : Bytes → Bytes
to_lower = map (λ c. if leb b'A' c && leb c b'Z' then c + 32 else c)

unfoldable pub to_upper : Bytes → Bytes
to_upper = map (λ c. if leb b'a' c && leb c b'z' then c - 32 else c)

-- strings.TrimSpace, on ASCII.
abbrev is_space : ℕ → Bool
is_space c = c == 32 || (leb 9 c && leb c 13)

trim_left : Bytes → Bytes
trim_left [] = []
trim_left (c ∷ cs) = let rest = trim_left cs in if is_space c then rest else c ∷ cs

unfoldable pub trim_space : Bytes → Bytes
unfolding trim_left
trim_space s = reverse (trim_left (reverse (trim_left s)))

-- Whether no byte is `c`.
unfoldable pub free_of : ℕ → Bytes → Bool
free_of c [] = true
free_of c (x ∷ xs) = not (x == c) && free_of c xs
