-- ===== src/Resp/RoundTrip.antt =====
-- `Read` after `Write` (internal/protocol/resp.go).
use mathlib.Core.List.{append_assoc}
use cache_custom.Prelude.{
  ℕ, zero, suc, ◌+◌, ◌^◌, ◌≡◌, ◌≤◌, ◌<◌, refl, Bool, true, some, [], ◌∷◌, ◌++◌, length, arith,
  length-append,
}
use cache_custom.Prelude.Int.{ℤ, pos}
use cache_custom.Bytes.{Bytes, free_of}
use cache_custom.Numbers.{parse_int, format_int, is_int64, parse_int-format_int, free_of-format_int}
use cache_custom.Resp.{
  Value, Values, simple_string, error, integer, bulk_string, array, null, nil, cons, count, line,
  write, write_all, Read, got, and_then, read_line, read_elems, bulk_of, array_of, read_tagged,
  read, read_value, until_lf, strip_cr, integer_of, array_read,
}
use cache_custom.Resp.Lines.{read_line-line, payload-line}

module _ (make_bytes make_values : ℕ → Bool) where
  -- What RESP can carry: no line feed in a line, 64-bit numbers, and lengths that the reader can
  -- allocate.
  abbrev mutual
    pub Sendable : Value → Type 0
    Sendable (simple_string s) = free_of 10 s ≡ true
    Sendable (error s) = free_of 10 s ≡ true
    Sendable (integer n) = is_int64 n ≡ true
    Sendable (bulk_string s) = (length s + 2 < 2 ^ 63) × (make_bytes (length s + 2) ≡ true)
    Sendable (array vs) = (count vs < 2 ^ 63) × (make_values (count vs) ≡ true) × AllSendable vs
    Sendable null = Unit

    pub AllSendable : Values → Type 0
    AllSendable nil = Unit
    AllSendable (cons v vs) = Sendable v × AllSendable vs

  length_line :
      (n : ℤ) (rest : Bytes) → read_line (line (format_int n) rest) ≡ got (format_int n) rest
  length_line n rest = read_line-line (format_int n) rest (free_of-format_int 10 n (omega arith))

  parsed : (n : ℕ) → n < 2 ^ 63 → parse_int (format_int (pos n)) ≡ some (pos n)
  unfolding is_int64
  parsed n h = parse_int-format_int (pos n) (ground arith)

  line_assoc : (s more rest : Bytes) → line s more ++ rest ≡ line s (more ++ rest)
  line_assoc s more rest = append_assoc s (13 ∷ 10 ∷ more) rest

  bulk-line :
      (s rest : Bytes)
      → Sendable (bulk_string s)
      → bulk_of make_bytes make_values (some (pos (length s))) (line s rest)
        ≡ got (bulk_string s) rest
  unfolding bulk_of
  bulk-line s rest (small, made) = ground (arith, payload-line s rest)

  array-elems :
      (vs : Values) (reader : Bytes → Read Value) (s rest : Bytes)
      → make_values (count vs) ≡ true
      → read_elems reader (count vs) s ≡ got vs rest
      → array_of make_bytes make_values reader (some (pos (count vs))) s ≡ got (array vs) rest
  unfolding array_of array_read and_then
  array-elems vs reader s rest made e = rw (made, array_of) (rw e refl)

  read-null :
      (fuel : ℕ) (rest : Bytes)
      → read make_bytes make_values (suc fuel) (write null ++ rest) ≡ got null rest
  unfolding read read_tagged read_line until_lf strip_cr and_then parse_int write bulk_of
  read-null fuel rest = refl

  write-pos : (v : Value) → 0 < length (write v)
  unfolding write
  write-pos (simple_string s) = omega arith
  write-pos (error s) = omega arith
  write-pos (integer n) = omega arith
  write-pos (bulk_string s) = omega arith
  write-pos (array vs) = omega arith
  write-pos null = omega arith

  mutual
    unfolding write read read_tagged and_then array_of read_elems count integer_of array_read

    read-write :
        (v : Value) (fuel : ℕ) (rest : Bytes)
        → Sendable v
        → length (write v) ≤ fuel
        → read make_bytes make_values fuel (write v ++ rest) ≡ got v rest
    read-write v zero rest ok h = absurd (omega (arith, write-pos v))
    read-write (simple_string s) (suc fuel) rest ok h =
        rw (line_assoc s [] rest, read_line-line s rest ok) refl
    read-write (error s) (suc fuel) rest ok h =
        rw (line_assoc s [] rest, read_line-line s rest ok) refl
    read-write (integer n) (suc fuel) rest ok h =
        rw (line_assoc (format_int n) [] rest, length_line n rest, parse_int-format_int n ok) refl
    read-write (bulk_string s) (suc fuel) rest ok h =
        let n = pos (length s) in
        rw
          (
            line_assoc (format_int n) (line s []) rest,
            line_assoc s [] rest,
            length_line n (line s rest),
            parsed (length s) (omega (arith, ok.0)),
          )
          (bulk-line s rest ok)
    read-write (array vs) (suc fuel) rest (small, made, all) h =
        let n = pos (count vs) in
        rw
          (
            line_assoc (format_int n) (write_all vs) rest,
            length_line n (write_all vs ++ rest),
            parsed (count vs) small,
          )
          (array-elems vs (read make_bytes make_values fuel) (write_all vs ++ rest) rest made (
            read_elems-write vs fuel rest all
              (omega (arith, length-append (format_int n) (13 ∷ 10 ∷ write_all vs)))))
    read-write null (suc fuel) rest ok h = read-null fuel rest

    read_elems-write :
        (vs : Values) (fuel : ℕ) (rest : Bytes)
        → AllSendable vs
        → length (write_all vs) ≤ fuel
        → read_elems (read make_bytes make_values fuel) (count vs) (write_all vs ++ rest)
          ≡ got vs rest
    read_elems-write nil fuel rest ok h = refl
    read_elems-write (cons v vs) fuel rest (ok, all) h =
        let n = length-append (write v) (write_all vs) in
        rw
          (
            append_assoc (write v) (write_all vs) rest,
            read-write v fuel (write_all vs ++ rest) ok (omega (arith, n)),
            read_elems-write vs fuel rest all (omega (arith, n)),
          )
          refl

  -- A value that RESP can carry (no line feed in a line, 64-bit numbers, lengths that the reader
  -- can allocate), written in front of any bytes, is read back, and those bytes are left; arrays
  -- nest to any depth.
  pub read_value-write :
      (v : Value) (rest : Bytes)
      → Sendable v
      → read_value make_bytes make_values (write v ++ rest) ≡ got v rest
  unfolding read_value
  read_value-write v rest ok =
      read-write v (suc (length (write v ++ rest))) rest ok
        (omega (arith, length-append (write v) rest))
