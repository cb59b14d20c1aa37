-- ===== src/Resp.antt =====
-- RESP2 values, printed and read: internal/protocol/resp.go. A writer gathers bytes and a reader
-- holds the bytes that are still to come, with an end of the stream after them.
pub mod Lines
pub mod RoundTrip
pub mod Total
pub mod Commands
mod Tests
use cache_custom.Prelude.{
  ℕ, zero, suc, ◌+◌, ◌^◌, Bool, true, false, not, ◌&&◌, ◌||◌, Option, none, some, List, [], ◌∷◌,
  ◌++◌, ltb, leb, ◌==◌, if◌then◌else◌, length, take, skip, get_or,
}
use cache_custom.Prelude.Int.{ℤ, pos, negsuc}
use cache_custom.Bytes.{Bytes}
use cache_custom.Numbers.{parse_int, format_int}

mutual
  pub data Value : Type 0 where
    simple_string : Bytes → Value
    error : Bytes → Value
    integer : ℤ → Value
    bulk_string : Bytes → Value
    array : Values → Value
    null : Value

  pub data Values : Type 0 where
    nil : Values
    cons : Value → Values → Values

unfoldable pub count : Values → ℕ
count nil = 0
count (cons v vs) = suc (count vs)

-- A line and its end.
abbrev pub line : Bytes → Bytes → Bytes
line s rest = s ++ 13 ∷ 10 ∷ rest

unfoldable mutual
  pub write : Value → Bytes
  write (simple_string s) = b'+' ∷ line s []
  write (error s) = b'-' ∷ line s []
  write (integer n) = b':' ∷ line (format_int n) []
  write (bulk_string s) = b'$' ∷ line (format_int (pos (length s))) (line s [])
  write (array vs) = b'*' ∷ line (format_int (pos (count vs))) (write_all vs)
  write null = b'$' ∷ line (b'-' ∷ b'1' ∷ []) []

  pub write_all : Values → Bytes
  write_all nil = []
  write_all (cons v vs) = write v ++ write_all vs

pub data ReadError : Type 0 where
  eof missing_crlf bad_integer bad_length bad_trailer empty_inline bad_command : ReadError

-- A value with the bytes left, an error, or a panic of `make`; `out_of_fuel` is no outcome of the
-- program.
pub data Read {ℓ} (A : Type ℓ) : Type ℓ where
  got : A → Bytes → Read A
  failed : ReadError → Read A
  panics : Read A
  out_of_fuel : Read A

unfoldable pub and_then {ℓ κ} : {A : Type ℓ} → {B : Type κ} → Read A → (A → Bytes → Read B) → Read B
and_then (got a rest) f = f a rest
and_then (failed e) f = failed e
and_then panics f = panics
and_then out_of_fuel f = out_of_fuel

unfoldable pub cons_line : ℕ → Option (Bytes × Bytes) → Option (Bytes × Bytes)
cons_line c none = none
cons_line c (some (l, rest)) = some (c ∷ l, rest)

-- ReadString('\n'), without the '\n'.
unfoldable pub until_lf : Bytes → Option (Bytes × Bytes)
unfolding cons_line
until_lf [] = none
until_lf (c ∷ cs) = let more = cons_line c (until_lf cs) in if c == 10 then some ([], cs) else more

cons_byte : ℕ → Option Bytes → Option Bytes
cons_byte c none = none
cons_byte c (some l) = some (c ∷ l)

unfoldable pub strip_cr : Bytes → Option Bytes
unfolding cons_byte
strip_cr [] = none
strip_cr (c ∷ []) = if c == 13 then some [] else none
strip_cr (c ∷ d ∷ cs) = cons_byte c (strip_cr (d ∷ cs))

unfoldable pub line_read : Option Bytes → Bytes → Read Bytes
line_read none rest = failed missing_crlf
line_read (some l) rest = got l rest

unfoldable pub lf_read : Option (Bytes × Bytes) → Read Bytes
unfolding line_read strip_cr
lf_read none = failed eof
lf_read (some (l, rest)) = line_read (strip_cr l) rest

unfoldable pub read_line : Bytes → Read Bytes
unfolding lf_read until_lf
read_line s = lf_read (until_lf s)

abbrev pub is_blank : ℕ → Bool
is_blank c = c == b' ' || c == 9

-- `cur` and `inSpace` of the loop.
unfoldable pub split_from : Bytes → Bool → Bytes → List Bytes
split_from cur in_space [] = if in_space then [] else cur ∷ []
split_from cur in_space (c ∷ cs) = elim (is_blank c) [
  | true ↦ elim in_space [ true ↦ split_from cur true cs | false ↦ cur ∷ split_from [] true cs ]
  | false ↦ split_from (cur ++ c ∷ []) false cs
]

unfoldable pub split_args : Bytes → List Bytes
unfolding split_from
split_args s = split_from [] true s

unfoldable pub bulk_strings : List Bytes → Values
bulk_strings [] = nil
bulk_strings (s ∷ ss) = cons (bulk_string s) (bulk_strings ss)

unfoldable pub inline_of : Bytes → Bytes → Read Value
unfolding split_args bulk_strings
inline_of [] rest = failed empty_inline
inline_of (c ∷ cs) rest = got (array (bulk_strings (split_args (c ∷ cs)))) rest

unfoldable pub read_inline : Bytes → Read Value
unfolding inline_of read_line and_then
read_inline s = and_then (read_line s) inline_of

unfoldable pub integer_of : Option ℤ → Bytes → Read Value
integer_of none rest = failed bad_integer
integer_of (some n) rest = got (integer n) rest

-- `n` bytes and the CRLF after them.
unfoldable pub payload : ℕ → Bytes → Read Value
payload n s =
    if ltb (length s) (n + 2)
    then failed eof
    else if get_or s n 0 == 13 && get_or s (n + 1) 0 == 10
    then got (bulk_string (take n s)) (skip (n + 2) s)
    else failed bad_trailer

unfoldable pub read_elems : (Bytes → Read Value) → ℕ → Bytes → Read Values
unfolding and_then
read_elems reader zero s = got nil s
read_elems reader (suc n) s =
    and_then (reader s)
      λ v rest. and_then (read_elems reader n rest) λ vs rest'. got (cons v vs) rest'

unfoldable pub array_read : Read Values → Read Value
unfolding and_then
array_read r = and_then r λ vs rest. got (array vs) rest

-- `make_bytes n` and `make_values n` tell whether the runtime allocates a slice of `n` bytes or of
-- `n` values; where it does not, `make` panics.
module _ (make_bytes make_values : ℕ → Bool) where
  -- The length `n + 2` is an `int`, which is negative from 2^63 on.
  unfoldable pub bulk_of : Option ℤ → Bytes → Read Value
  unfolding payload
  bulk_of none rest = failed bad_length
  bulk_of (some (negsuc zero)) rest = got null rest
  bulk_of (some (negsuc (suc n))) rest = failed bad_length
  bulk_of (some (pos n)) rest =
      if ltb (n + 2) (2 ^ 63) && make_bytes (n + 2) then payload n rest else panics

  unfoldable pub array_of : (Bytes → Read Value) → Option ℤ → Bytes → Read Value
  unfolding read_elems array_read
  array_of reader none rest = failed bad_length
  array_of reader (some (negsuc zero)) rest = got null rest
  array_of reader (some (negsuc (suc n))) rest = failed bad_length
  array_of reader (some (pos n)) rest = elim (make_values n) [
    | true ↦ array_read (read_elems reader n rest)
    | false ↦ panics
  ]

  -- By the first byte; a byte that is no tag is put back.
  unfoldable pub read_tagged : (Bytes → Read Value) → ℕ → Bytes → Read Value
  unfolding read_line read_inline and_then integer_of bulk_of array_of parse_int
  read_tagged reader c s =
      if c == b'+'
      then and_then (read_line s) (λ l. got (simple_string l))
      else if c == b'-'
      then and_then (read_line s) (λ l. got (error l))
      else if c == b':'
      then and_then (read_line s) (λ l. integer_of (parse_int l))
      else if c == b'$'
      then and_then (read_line s) (λ l. bulk_of (parse_int l))
      else if c == b'*'
      then and_then (read_line s) (λ l. array_of reader (parse_int l))
      else read_inline (c ∷ s)

  -- `fuel` bounds the nesting of arrays.
  unfoldable pub read : ℕ → Bytes → Read Value
  unfolding read_tagged
  read zero s = out_of_fuel
  read (suc fuel) [] = failed eof
  read (suc fuel) (c ∷ s) = read_tagged (read fuel) c s

  -- Each array that is entered takes a byte of the input.
  unfoldable pub read_value : Bytes → Read Value
  unfolding read
  read_value s = read (suc (length s)) s

-- The argument that an element of a command array stands for.
arg_of : Value → Option Bytes
unfolding format_int
arg_of (simple_string s) = some s
arg_of (error s) = none
arg_of (integer n) = some (format_int n)
arg_of (bulk_string s) = some s
arg_of (array vs) = none
arg_of null = none

cons_arg : Option Bytes → Option (List Bytes) → Option (List Bytes)
cons_arg none rest = none
cons_arg (some a) none = none
cons_arg (some a) (some rest) = some (a ∷ rest)

unfoldable pub args_of : Values → Option (List Bytes)
unfolding arg_of cons_arg
args_of nil = some []
args_of (cons v vs) = cons_arg (arg_of v) (args_of vs)

args_read : Option (List Bytes) → Bytes → Read (List Bytes)
args_read none rest = failed bad_command
args_read (some args) rest = got args rest

single_arg : Bytes → Bytes → Read (List Bytes)
single_arg [] rest = failed bad_command
single_arg (c ∷ cs) rest = got ((c ∷ cs) ∷ []) rest

unfoldable pub command_of : Value → Bytes → Read (List Bytes)
unfolding args_of args_read single_arg
command_of (array nil) rest = failed bad_command
command_of (array (cons v vs)) rest = args_read (args_of (cons v vs)) rest
command_of (simple_string s) rest = single_arg s rest
command_of (bulk_string s) rest = single_arg s rest
command_of (error s) rest = failed bad_command
command_of (integer n) rest = failed bad_command
command_of null rest = failed bad_command

unfoldable pub read_command : (make_bytes make_values : ℕ → Bool) → Bytes → Read (List Bytes)
unfolding read_value and_then command_of
read_command make_bytes make_values s = and_then (read_value make_bytes make_values s) command_of
