-- ===== src/Resp/Tests.antt =====
-- The protocol on concrete input.
use cache_custom.Prelude.{ℕ, ◌<◌, ◌≡◌, ◌≢◌, refl, Bool, [], ◌∷◌, ◌++◌, ltb, arith, ℕ_discrete}
use cache_custom.Prelude.Int.{negsuc}
use cache_custom.Bytes.{codes, free_of}
use cache_custom.Numbers.{parse_int, format_int, is_int64}
use cache_custom.Resp.{
  Value, integer, bulk_string, array, null, nil, cons, count, line, write, got, panics, out_of_fuel,
  and_then, read_line, until_lf, strip_cr, read_elems, payload, bulk_of, array_of, read_tagged,
  read, read_value, integer_of, array_read, inline_of, read_inline, split_from, split_args,
  bulk_strings, args_of, command_of, read_command,
}
use cache_custom.Resp.RoundTrip.{Sendable, read_value-write}
use cache_custom.Resp.Total.{read_value_ends, read_value_progress}
use cache_custom.Resp.Commands.{
  join, all_words, is_word, starts_inline, read_command-write, read_command-inline,
}

abbrev fits : ℕ → Bool
fits n = ltb n 1000

abbrev reply : Value
reply = array (cons (bulk_string (13 ∷ 10 ∷ [])) (cons null (cons (integer (negsuc 6)) nil)))

runs : Unit {0}
unfolding free_of parse_int format_int is_int64 count write and_then read_line until_lf strip_cr
    read_elems payload bulk_of array_of read_tagged read read_value integer_of array_read inline_of
    read_inline split_from split_args bulk_strings args_of command_of read_command join is_word
    all_words starts_inline ℕ_discrete
runs = tt

reply-Sendable : Sendable fits fits reply
unfolding runs
reply-Sendable = (omega arith, refl, ((omega arith, refl), (tt, (refl, tt))))

read_value-write_example : read_value fits fits (write reply ++ b'+' ∷ []) ≡ got reply (b'+' ∷ [])
read_value-write_example = read_value-write fits fits reply (b'+' ∷ []) reply-Sendable

read_value_ends_example : read_value fits fits (codes "*9\r\n*9\r\n") ≢ out_of_fuel
read_value_ends_example = read_value_ends fits fits (codes "*9\r\n*9\r\n")

reads_null : read_value fits fits (codes "$-1\r\n+") ≡ got null (b'+' ∷ [])
unfolding runs
reads_null = refl

read_value_progress_example : 1 < 6
read_value_progress_example =
    read_value_progress fits fits (codes "$-1\r\n+") null (b'+' ∷ []) reads_null

get_k-Sendable : Sendable fits fits (array (bulk_strings (codes "GET" ∷ codes "k" ∷ [])))
unfolding runs
get_k-Sendable = (omega arith, refl, ((omega arith, refl), ((omega arith, refl), tt)))

read_command-write_example :
    read_command fits fits (write (array (bulk_strings (codes "GET" ∷ codes "k" ∷ []))) ++ [])
    ≡ got (codes "GET" ∷ codes "k" ∷ []) []
read_command-write_example =
    read_command-write fits fits (codes "GET") (codes "k" ∷ []) [] get_k-Sendable

read_command-inline_example :
    read_command fits fits (line (join (codes "GET" ∷ codes "k" ∷ [])) [])
    ≡ got (codes "GET" ∷ codes "k" ∷ []) []
unfolding runs
read_command-inline_example =
    read_command-inline fits fits (codes "GET") (codes "k" ∷ []) [] refl refl

-- A length whose `n + 2` is no `int64` ends the reader with a panic.
huge_length : read_value fits fits (codes "$9223372036854775806\r\n") ≡ panics
unfolding runs
huge_length = refl
