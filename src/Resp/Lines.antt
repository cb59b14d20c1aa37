-- ===== src/Resp/Lines.antt =====
-- What the readers of lines and payloads do with text that was printed (internal/protocol/resp.go).
use cache_custom.Prelude.{
  ℕ, zero, suc, ◌+◌, ◌≡◌, refl, ap, true, false, some, List, [], ◌∷◌, ◌++◌, ltb, length, take, skip,
  get_or, arith, length-append,
}
use cache_custom.Bytes.{Bytes, free_of}
use cache_custom.Resp.{got, line, until_lf, strip_cr, read_line, payload, bulk_string}

until_lf-line :
    (l rest : Bytes) → free_of 10 l ≡ true → until_lf (line l rest) ≡ some (l ++ 13 ∷ [], rest)
unfolding until_lf free_of
until_lf-line [] rest h = refl
until_lf-line (c ∷ cs) rest h = ground (arith, until_lf-line cs rest)

strip_cr-line : (l : Bytes) → strip_cr (l ++ 13 ∷ []) ≡ some l
unfolding strip_cr
strip_cr-line [] = refl
strip_cr-line (c ∷ []) = refl
strip_cr-line (c ∷ d ∷ cs) = rw (strip_cr-line (d ∷ cs)) refl

pub read_line-line : (l rest : Bytes) → free_of 10 l ≡ true → read_line (line l rest) ≡ got l rest
unfolding read_line
read_line-line l rest h = rw (until_lf-line l rest h, strip_cr-line l) refl

take-append {ℓ} : {A : Type ℓ} (xs ys : List A) → take (length xs) (xs ++ ys) ≡ xs
take-append [] ys = refl
take-append (x ∷ xs) ys = ap (λ t. x ∷ t) (take-append xs ys)

skip-append {ℓ} :
    {A : Type ℓ} (xs ys : List A) (n i : ℕ) → n ≡ length xs + i → skip n (xs ++ ys) ≡ skip i ys
skip-append [] ys n i e = ap (λ (m : ℕ). skip m ys) (omega arith)
skip-append (x ∷ xs) ys zero i e = absurd (omega arith)
skip-append (x ∷ xs) ys (suc n) i e = skip-append xs ys n i (omega arith)

get_or-append {ℓ} :
    {A : Type ℓ} (xs ys : List A) (n i : ℕ) (d : A)
    → n ≡ length xs + i
    → get_or (xs ++ ys) n d ≡ get_or ys i d
get_or-append [] ys n i d e = ap (λ (m : ℕ). get_or ys m d) (omega arith)
get_or-append (x ∷ xs) ys zero i d e = absurd (omega arith)
get_or-append (x ∷ xs) ys (suc n) i d e = get_or-append xs ys n i d (omega arith)

pub payload-line : (s rest : Bytes) → payload (length s) (line s rest) ≡ got (bulk_string s) rest
unfolding payload
payload-line s rest =
    let end = 13 ∷ 10 ∷ rest in
    let n = length-append s end in
    let short : ltb (length (line s rest)) (length s + 2) ≡ false = ground (arith, n) in
    let cr = get_or-append s end (length s) 0 0 (omega arith) in
    let lf = get_or-append s end (length s + 1) 1 0 refl in
    let left = skip-append s end (length s + 2) 2 refl in
    rw (short, cr, lf, take-append s end, left) refl
