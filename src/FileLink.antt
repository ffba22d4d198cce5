-- ===== src/FileLink.antt =====
-- file-link.c: file names in the terminal's output, and file URIs. A string is its bytes without the NUL.
pub mod PathUri
mod Tests
use foot.Base.{
  ℕ, zero, suc, ◌+◌, ◌-◌, ◌*◌, ◌/◌, ◌%◌, ◌^◌, Bool, true, false, List, [], ◌∷◌, ◌++◌, Option, none,
  some, ltb, within, ◌==◌, ◌&&◌, ◌||◌, not, if◌then◌else◌, length, get_or, take, bit_and,
}
use mathlib.Core.Option
use foot.Uri.{Uri, streq, uri_parse, hostname_is_localhost}

abbrev pub is_trailing_punct : ℕ → Bool
is_trailing_punct c = c == b'.' || c == b',' || c == b':' || c == b';' || c == b'!' || c == b'?'

-- The new length.
unfoldable pub trim_trailing_punct : List ℕ → ℕ → ℕ
trim_trailing_punct s zero = zero
trim_trailing_punct s (suc n) =
    let rest = trim_trailing_punct s n in
    if ltb 1 (suc n) && is_trailing_punct (get_or s n 0) then rest else suc n

-- Where the digits in front of an index begin.
unfoldable pub digits_from : List ℕ → ℕ → ℕ
digits_from s zero = zero
digits_from s (suc n) =
    let rest = digits_from s n in if within b'0' b'9' (get_or s n 0) then rest else suc n

-- The length without the `:digits` at the end, if they are there.
unfoldable pub strip_position : List ℕ → ℕ → Option ℕ
unfolding digits_from
strip_position s len =
    let i = digits_from s len in
    if i == len || ltb i 2 || not (get_or s (i - 1) 0 == b':') then none else some (i - 1)

unfoldable pub file_link_clean : List ℕ → List ℕ
unfolding trim_trailing_punct strip_position
file_link_clean token =
    let len = trim_trailing_punct token (length token) in
    elim (strip_position token len) [
      | none ↦ take len token
      | some l ↦ elim (strip_position token l) [ none ↦ take l token | some l' ↦ take l' token ]
    ]

abbrev pub starts_with : ℕ → List ℕ → Bool
starts_with c [] = false
starts_with c (x ∷ xs) = x == c

abbrev pub ends_with : ℕ → List ℕ → Bool
ends_with c s = ltb 0 (length s) && get_or s (length s - 1) 0 == c

-- In front of a relative name: the working directory, which has to be absolute.
unfoldable pub in_directory : List ℕ → Option (List ℕ) → Option (List ℕ)
in_directory token none = none
in_directory token (some cwd) =
    if starts_with b'/' cwd
    then some (if ends_with b'/' cwd then cwd ++ token else cwd ++ b'/' ∷ token)
    else none

-- For a name that begins with `~`.
unfoldable pub in_home : List ℕ → Option (List ℕ) → Option (List ℕ)
in_home rest none = none
in_home rest (some []) = none
in_home rest (some (h ∷ hs)) = some ((h ∷ hs) ++ rest)

-- `NULL` is `none`.
unfoldable pub file_link_resolve :
    Option (List ℕ) → Option (List ℕ) → Option (List ℕ) → Option (List ℕ)
unfolding in_directory in_home
file_link_resolve none cwd home = none
file_link_resolve (some []) cwd home = none
file_link_resolve (some (c ∷ rest)) cwd home =
    if c == b'/'
    then some (c ∷ rest)
    else if c == b'~' && (length rest == 0 || starts_with b'/' rest)
    then in_home rest home
    else in_directory (c ∷ rest) cwd

abbrev pub file_scheme : List ℕ
file_scheme = b'f' ∷ b'i' ∷ b'l' ∷ b'e' ∷ []

-- `host == NULL || hostname_is_localhost(host)`.
abbrev pub is_local : List ℕ → Option (List ℕ) → Bool
is_local this_host none = true
is_local this_host (some host) = hostname_is_localhost this_host (some host)

-- The path of a file URI on this host. A byte 0 that was `%00` stays in it, as in the buffer.
unfoldable pub local_path : List ℕ → Uri → Option (List ℕ)
unfolding streq hostname_is_localhost
local_path this_host uri =
    if streq uri.scheme file_scheme
      && (starts_with b'/' uri.path && is_local this_host uri.authority.host)
    then some uri.path
    else none

-- `this_host` is what `gethostname` gives, empty where it fails.
unfoldable pub file_link_path_from_uri : List ℕ → List ℕ → Option (List ℕ)
unfolding uri_parse local_path
file_link_path_from_uri this_host uri = Option.bind (uri_parse uri) (local_path this_host)

abbrev pub hex : ℕ → ℕ
hex n = if ltb n 10 then b'0' + n else b'A' + (n - 10)

abbrev pub is_plain : ℕ → Bool
is_plain c =
    within b'a' b'z' c
    || within b'A' b'Z' c
    || within b'0' b'9' c
    || c == b'/'
    || c == b'-'
    || c == b'.'
    || c == b'_'
    || c == b'~'

-- The loop of `file_link_path_to_uri`.
unfoldable pub escape_path : List ℕ → List ℕ
escape_path [] = []
escape_path (c ∷ cs) =
    let rest = escape_path cs in
    if is_plain c then c ∷ rest else b'%' ∷ hex (c / 2 ^ 4) ∷ hex (bit_and c 0xf) ∷ rest

unfoldable pub file_link_path_to_uri : List ℕ → List ℕ
unfolding escape_path
file_link_path_to_uri path = b'f' ∷ b'i' ∷ b'l' ∷ b'e' ∷ b':' ∷ b'/' ∷ b'/' ∷ escape_path path
