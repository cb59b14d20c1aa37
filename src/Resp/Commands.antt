-- ===== src/Resp/Commands.antt =====
-- `ReadCommand` and `splitArgs` (internal/protocol/resp.go) on what clients send.
use mathlib.Core.List.{append_assoc}
use mathlib.Core.List.{append-nil}
use cache_custom.Prelude.{
  ℕ, ◌≡◌, refl, sym, ap, ◌∙◌, Bool, true, false, not, ◌&&◌, ◌||◌, some, List, [], ◌∷◌, ◌++◌, ◌==◌,
  arith,
}
use cache_custom.Bytes.{Bytes, free_of}
use cache_custom.Resp.{
  array, line, write, got, and_then, split_from, split_args, bulk_strings, inline_of, read_inline,
  read_tagged, read, read_value, args_of, arg_of, cons_arg, args_read, command_of, read_command,
  is_blank,
}
use cache_custom.Resp.Lines.{read_line-line}
use cache_custom.Resp.RoundTrip.{Sendable, read_value-write}

-- Words with one blank between them.
unfoldable pub join : List Bytes → Bytes
join [] = []
join (a ∷ []) = a
join (a ∷ b ∷ rest) = a ++ b' ' ∷ join (b ∷ rest)

-- Whether a text is not empty and has no blank.
unfoldable pub is_word : Bytes → Bool
unfolding free_of
is_word [] = false
is_word (c ∷ cs) = free_of b' ' (c ∷ cs) && free_of 9 (c ∷ cs)

unfoldable pub all_words : List Bytes → Bool
unfolding is_word
all_words [] = true
all_words (a ∷ rest) = is_word a && all_words rest

-- The bytes that start a RESP value.
abbrev pub is_tag : ℕ → Bool
is_tag c = c == b'+' || c == b'-' || c == b':' || c == b'$' || c == b'*'

-- A text that starts with no tag and stands on one line.
unfoldable pub starts_inline : Bytes → Bool
unfolding free_of
starts_inline [] = false
starts_inline (c ∷ cs) = not (is_tag c) && free_of 10 (c ∷ cs)

args_of-bulk_strings : (args : List Bytes) → args_of (bulk_strings args) ≡ some args
unfolding args_of bulk_strings arg_of cons_arg
args_of-bulk_strings [] = refl
args_of-bulk_strings (a ∷ rest) = rw (args_of-bulk_strings rest) refl

command_of-bulk_strings :
    (a : Bytes) (args : List Bytes) (rest : Bytes)
    → command_of (array (bulk_strings (a ∷ args))) rest ≡ got (a ∷ args) rest
unfolding command_of bulk_strings args_read
command_of-bulk_strings a args rest = rw (args_of-bulk_strings args) refl

split_from-byte :
    (cur cs : Bytes) (in_space : Bool) (c : ℕ)
    → is_blank c ≡ false
    → split_from cur in_space (c ∷ cs) ≡ split_from (cur ++ c ∷ []) false cs
unfolding split_from
split_from-byte cur cs in_space c h = rw (h, split_from) refl

split_from-word :
    (cur w rest : Bytes)
    → free_of b' ' w ≡ true
    → free_of 9 w ≡ true
    → split_from cur false (w ++ rest) ≡ split_from (cur ++ w) false rest
unfolding free_of
split_from-word cur [] rest h k = rw (append-nil cur) refl
split_from-word cur (c ∷ cs) rest h k =
    split_from-byte cur (cs ++ rest) false c (ground arith)
    ∙ split_from-word (cur ++ c ∷ []) cs rest (ground arith) (ground arith)
    ∙ ap (λ (w : Bytes). split_from w false rest) (append_assoc cur (c ∷ []) cs)

split_from-first :
    (w rest : Bytes) → is_word w ≡ true → split_from [] true (w ++ rest) ≡ split_from w false rest
unfolding is_word free_of
split_from-first [] rest h = absurd cc
split_from-first (c ∷ cs) rest h =
    split_from-byte [] (cs ++ rest) true c (ground arith)
    ∙ split_from-word (c ∷ []) cs rest (ground arith) (ground arith)

-- Words that are joined with blanks come apart again.
pub split_args-join : (args : List Bytes) → all_words args ≡ true → split_args (join args) ≡ args
unfolding split_args join all_words split_from
split_args-join [] h = refl
split_args-join (a ∷ []) h =
    ap (split_from [] true) (sym (append-nil a)) ∙ split_from-first a [] (ground arith)
split_args-join (a ∷ b ∷ rest) h =
    split_from-first a (b' ' ∷ join (b ∷ rest)) (ground arith)
    ∙ ap (λ ws. a ∷ ws) (split_args-join (b ∷ rest) (ground arith))

module _ (make_bytes make_values : ℕ → Bool) where
  -- ReadCommand reads an array of bulk strings with at least one element, whose lengths can be
  -- allocated, as the list of those strings, and leaves the bytes that follow.
  pub read_command-write :
      (a : Bytes) (args : List Bytes) (rest : Bytes)
      → Sendable make_bytes make_values (array (bulk_strings (a ∷ args)))
      → read_command make_bytes make_values (write (array (bulk_strings (a ∷ args))) ++ rest)
        ≡ got (a ∷ args) rest
  unfolding read_command and_then
  read_command-write a args rest ok =
      rw (read_value-write make_bytes make_values (array (bulk_strings (a ∷ args))) rest ok)
        (command_of-bulk_strings a args rest)

  read_value-untagged :
      (c : ℕ) (cs : Bytes)
      → is_tag c ≡ false
      → read_value make_bytes make_values (c ∷ cs) ≡ read_inline (c ∷ cs)
  unfolding read_value read read_tagged
  read_value-untagged c cs h = ground arith

  read_value-inline :
      (w rest : Bytes)
      → starts_inline w ≡ true
      → read_value make_bytes make_values (line w rest)
        ≡ got (array (bulk_strings (split_args w))) rest
  unfolding starts_inline read_inline inline_of and_then
  read_value-inline [] rest h = absurd cc
  read_value-inline (c ∷ cs) rest h =
      read_value-untagged c (line cs rest) (ground arith)
      ∙ rw (read_line-line (c ∷ cs) rest (ground arith)) refl

  -- ReadCommand reads an inline line, of words with one blank between them that starts with no
  -- RESP tag and holds no line feed, as the list of the words, and leaves the bytes that follow.
  pub read_command-inline :
      (a : Bytes) (args : List Bytes) (rest : Bytes)
      → all_words (a ∷ args) ≡ true
      → starts_inline (join (a ∷ args)) ≡ true
      → read_command make_bytes make_values (line (join (a ∷ args)) rest) ≡ got (a ∷ args) rest
  unfolding read_command and_then
  read_command-inline a args rest words plain =
      rw (read_value-inline (join (a ∷ args)) rest plain, split_args-join (a ∷ args) words)
        (command_of-bulk_strings a args rest)
