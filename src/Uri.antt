-- ===== src/Uri.antt =====
-- uri.c: `uri_parse`, with all of its results wanted, and `hostname_is_localhost`. A string is its bytes
-- without the NUL; what lies behind a string is taken to be no hexadecimal digit, as a NUL is not.
mod Find
pub mod Port
pub mod Decode
mod Print
mod Query
pub mod RoundTrip
pub mod Tests
use foot.Base.{
  ℕ, zero, suc, ◌+◌, ◌-◌, ◌*◌, ◌%◌, ◌^◌, Bool, true, false, List, [], ◌∷◌, Option, none, some, ltb,
  leb, within, ◌==◌, ◌&&◌, ◌||◌, not, if◌then◌else◌, bit_or, length, take, drop,
}
use mathlib.Core.Option

-- `memchr`, as the index of the byte.
unfoldable pub memchr : ℕ → List ℕ → Option ℕ
memchr c [] = none
memchr c (x ∷ xs) =
    let rest = Option.map (λ i. i + 1) (memchr c xs) in if x == c then some 0 else rest

unfoldable pub streq : List ℕ → List ℕ → Bool
streq [] [] = true
streq (x ∷ xs) (y ∷ ys) = x == y && streq xs ys
streq _ _ = false

-- `hex2nibble` of util.h; `HEX_DIGIT_INVALID` is 16.
unfoldable pub hex2nibble : ℕ → ℕ
hex2nibble c =
    if within b'0' b'9' c
    then c - b'0'
    else if within b'a' b'f' c
    then c - b'a' + 10
    else if within b'A' b'F' c
    then c - b'A' + 10
    else 16

-- The path, with its `%xx` decoded.
unfoldable pub decode_path : List ℕ → List ℕ
unfolding hex2nibble
decode_path (c ∷ x ∷ y ∷ rest) =
    let decoded = decode_path rest in
    let literal = decode_path (x ∷ y ∷ rest) in
    if c == b'%' && (leb (hex2nibble x) 15 && leb (hex2nibble y) 15)
    then bit_or (hex2nibble x * 2 ^ 4) (hex2nibble y) ∷ decoded
    else c ∷ literal
decode_path (c ∷ rest) = c ∷ decode_path rest
decode_path [] = []

-- The loop over the digits of the port, on a `uint16_t`.
unfoldable pub port_digits : ℕ → List ℕ → Option ℕ
port_digits port [] = some port
port_digits port (c ∷ cs) =
    let rest = port_digits ((port * 10 % 2 ^ 16 + (c - b'0')) % 2 ^ 16) cs in
    if within b'0' b'9' c then rest else none

pub record Authority : Type 0 where
  pub user : Option (List ℕ)
  pub password : Option (List ℕ)
  pub host : Option (List ℕ)
  pub port : ℕ

abbrev pub is_empty : List ℕ → Bool
is_empty [] = true
is_empty (c ∷ cs) = false

-- `[user[:password]]`, in front of the `@`.
unfoldable pub parse_user : Option ℕ → List ℕ → Option (List ℕ × Option (List ℕ))
parse_user none text = if is_empty text then none else some (text, none)
parse_user (some i) text =
    let pw = drop (i + 1) text in
    if i == 0 || is_empty pw then none else some (take i text, some pw)

-- `host[:port]`.
unfoldable pub parse_host : Option ℕ → List ℕ → Option (List ℕ × ℕ)
unfolding port_digits
parse_host none text = some (text, 0)
parse_host (some i) text =
    let port_str = drop (i + 1) text in
    if is_empty port_str
    then none
    else Option.map (λ port. (take i text, port)) (port_digits 0 port_str)

abbrev pub with_host : Option (List ℕ) → Option (List ℕ) → List ℕ × ℕ → Authority
with_host user password (host, port) = record {
  user = user;
  password = password;
  host = some host;
  port = port;
}

-- `[user[:password]@]host[:port]`, in front of the path.
unfoldable pub parse_authority : Option ℕ → List ℕ → Option Authority
unfolding memchr parse_user parse_host
parse_authority none text = Option.map (with_host none none) (parse_host (memchr b':' text) text)
parse_authority (some i) text =
    let user_pw = take i text in
    let host = drop (i + 1) text in
    Option.bind (parse_user (memchr b':' user_pw) user_pw) (λ (user, password).
      Option.map (with_host (some user) password) (parse_host (memchr b':' host) host))

pub record Uri : Type 0 where
  pub scheme : List ℕ
  pub authority : Authority
  pub path : List ℕ
  pub query : Option (List ℕ)
  pub fragment : Option (List ℕ)

pub record Tail : Type 0 where
  pub encoded : List ℕ
  pub query : Option (List ℕ)
  pub fragment : Option (List ℕ)

-- A part that has to be there if its delimiter is.
abbrev pub nonempty : List ℕ → Option (List ℕ)
nonempty text = if is_empty text then none else some text

-- `path[?query][#fragment]`, by where the delimiters are.
unfoldable pub parse_tail : Option ℕ → Option ℕ → List ℕ → Option Tail
parse_tail none none text =
    Option.map (λ p. record { encoded = p; query = none; fragment = none }) (nonempty text)
parse_tail (some q) none text = Option.bind (nonempty (take q text)) (λ p.
    Option.map (λ s. record { encoded = p; query = some s; fragment = none })
      (nonempty (drop (q + 1) text)))
parse_tail none (some f) text = Option.bind (nonempty (take f text)) (λ p.
    Option.map (λ s. record { encoded = p; query = none; fragment = some s })
      (nonempty (drop (f + 1) text)))
parse_tail (some q) (some f) text = Option.bind (nonempty (take q text)) (λ p.
    Option.bind (nonempty (take (f - (q + 1)) (drop (q + 1) text))) (λ s.
      Option.map (λ t. record { encoded = p; query = some s; fragment = some t })
        (nonempty (drop (f + 1) text))))

abbrev pub comes_first : Option ℕ → Option ℕ → Bool
comes_first (some i) (some j) = ltb i j
comes_first _ _ = false

-- Query and fragment are looked for, except in file URIs, and where the fragment comes first.
unfoldable pub find_tail : List ℕ → List ℕ → Option Tail
unfolding memchr streq parse_tail
find_tail scheme text =
    let q = memchr b'?' text in
    let f = memchr b'#' text in
    if streq scheme (b'f' ∷ b'i' ∷ b'l' ∷ b'e' ∷ [])
    then parse_tail none none text
    else if comes_first f q
    then parse_tail none none text
    else parse_tail q f text

abbrev pub no_authority : Authority
no_authority = record { user = none; password = none; host = none; port = 0 }

-- The authority, in front of the path.
unfoldable pub at_path : Option ℕ → List ℕ → Option (Authority × List ℕ)
unfolding memchr parse_authority
at_path none text = none
at_path (some i) text =
    Option.map (λ authority. (authority, drop i text))
      (parse_authority (memchr b'@' (take i text)) (take i text))

-- The text behind the scheme: `//`, and the authority up to the path, if there is one.
unfoldable pub split_authority : List ℕ → Option (Authority × List ℕ)
unfolding memchr at_path
split_authority (a ∷ b ∷ text) =
    if a == b'/' && b == b'/'
    then at_path (memchr b'/' text) text
    else some (no_authority, a ∷ b ∷ text)
split_authority text = some (no_authority, text)

abbrev pub uri_of : List ℕ → Authority → Tail → Uri
uri_of scheme authority tail = record {
  scheme = scheme;
  authority = authority;
  path = decode_path tail.encoded;
  query = tail.query;
  fragment = tail.fragment;
}

-- By where the scheme ends.
unfoldable pub parse_from : Option ℕ → List ℕ → Option Uri
unfolding split_authority find_tail decode_path
parse_from none uri = none
parse_from (some i) uri =
    if i == 0
    then none
    else Option.bind (split_authority (drop (i + 1) uri)) (λ (authority, text).
      Option.map (uri_of (take i uri) authority) (find_tail (take i uri) text))

unfoldable pub uri_parse : List ℕ → Option Uri
unfolding memchr parse_from
uri_parse uri = parse_from (memchr b':' uri) uri

-- `hostname_is_localhost`; `this_host` is what `gethostname` gives, empty where it fails.
unfoldable pub hostname_is_localhost : List ℕ → Option (List ℕ) → Bool
unfolding streq
hostname_is_localhost this_host none = false
hostname_is_localhost this_host (some hostname) =
    streq hostname []
    || streq hostname (b'l' ∷ b'o' ∷ b'c' ∷ b'a' ∷ b'l' ∷ b'h' ∷ b'o' ∷ b's' ∷ b't' ∷ [])
    || streq hostname this_host
