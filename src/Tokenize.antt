-- ===== src/Tokenize.antt =====
-- tokenize.c: `tokenize_cmdline`. A command line is its bytes without the NUL. The pointers `p` and
-- `search_start` go through it once, so the loop is a machine that takes a byte at a time: in a token,
-- `seen` holds the bytes from `p` to `search_start`, the last one first, less the backslashes that the
-- `memmove` removes. Memory is taken to be there.
pub mod Quoted
pub mod Tests
use foot.Base.{
  ℕ, Bool, true, false, List, [], ◌∷◌, ◌++◌, Option, none, some, ◌==◌, ◌||◌, if◌then◌else◌,
}

abbrev pub double_quote : ℕ
double_quote = 34

abbrev pub single_quote : ℕ
single_quote = 39

abbrev pub backslash : ℕ
backslash = 92

abbrev pub space : ℕ
space = 32

-- Where the loop is: in a token that ends at a delimiter, or behind one, at one of the two loops
-- `while (*p == delim)` and `while (*p == ' ')`.
pub data Place : Type 0 where
  in_token : ℕ → List ℕ → Place
  at_delimiters : ℕ → Place
  at_spaces : Place

abbrev pub reverse_onto : List ℕ → List ℕ → List ℕ
reverse_onto [] out = out
reverse_onto (c ∷ cs) out = reverse_onto cs (c ∷ out)

-- `push_argv`, for an argument: one that begins with `%` is dropped.
unfoldable pub push_argv : List ℕ → List (List ℕ) → List (List ℕ)
push_argv [] argv = argv ++ [] ∷ []
push_argv (c ∷ arg) argv = if c == b'%' then argv else argv ++ (c ∷ arg) ∷ []

-- A delimiter: the end of the token, unless a backslash of the token is in front of it.
unfoldable pub end_token : ℕ → List ℕ → List (List ℕ) → Place × List (List ℕ)
unfolding push_argv
end_token delim [] argv = (at_delimiters delim, push_argv [] argv)
end_token delim (c ∷ seen) argv =
    if c == backslash
    then (in_token delim (delim ∷ seen), argv)
    else (at_delimiters delim, push_argv (reverse_onto (c ∷ seen) []) argv)

-- Behind the delimiters: a quote or another byte begins a token.
unfoldable pub between : ℕ → Place
between c =
    if c == space
    then at_spaces
    else if c == double_quote || c == single_quote
    then in_token c []
    else in_token space (c ∷ [])

unfoldable pub step : Place → ℕ → List (List ℕ) → Place × List (List ℕ)
unfolding end_token between
step (in_token delim seen) c argv =
    if c == delim then end_token delim seen argv else (in_token delim (c ∷ seen), argv)
step (at_delimiters delim) c argv =
    if c == delim then (at_delimiters delim, argv) else (between c, argv)
step at_spaces c argv = (between c, argv)

-- At the NUL: the loop ends where `p` is there, and otherwise the last token has no delimiter.
unfoldable pub finish : Place → List (List ℕ) → Option (List (List ℕ))
unfolding push_argv
finish (in_token delim []) argv = some argv
finish (in_token delim (c ∷ seen)) argv =
    if delim == space then some (push_argv (reverse_onto (c ∷ seen) []) argv) else none
finish _ argv = some argv

unfoldable pub tokenize_from : Place → List ℕ → List (List ℕ) → Option (List (List ℕ))
unfolding step finish
tokenize_from place [] argv = finish place argv
tokenize_from place (c ∷ cs) argv =
    let (place', argv') = step place c argv in tokenize_from place' cs argv'

-- `argv` without the `NULL` at its end, and `none` for the error.
unfoldable pub tokenize_cmdline : List ℕ → Option (List (List ℕ))
unfolding tokenize_from
tokenize_cmdline [] = some []
tokenize_cmdline (c ∷ cmdline) =
    if c == double_quote || c == single_quote
    then tokenize_from (in_token c []) cmdline []
    else tokenize_from (in_token space []) (c ∷ cmdline) []
