-- ===== src/Uri/RoundTrip.antt =====
-- A URI, written out and parsed: `uri_parse` gives back its parts.
use foot.Base.{
  ℕ, ◌<◌, ◌≡◌, refl, arith, false, List, [], ◌∷◌, ◌++◌, Option, none, some, ◌==◌, length, All,
  take-append_length,
}
use mathlib.Core.Option
use foot.Uri.{is_empty, streq, at_path, parse_from, split_authority, uri_parse}
use foot.Uri.Find.{Lacks, memchr-found, Lacks-append, drop-found, drop-length}
use foot.Uri.Decode.{encode_path, decode_path-encode, encode_path-Lacks}
use foot.Uri.Print.{
  IsPart, IsUser, IsPort, print_authority, authority_of, parse_authority-print, print_user-Lacks,
  print_host-Lacks, print_host, print_user,
}
use foot.Uri.Query.{print_tail, IsTail, find_tail-print}

-- The parts of a URI with an authority. The path begins with a slash, which is not part of `path` here.
pub record Parts : Type 0 where
  pub scheme : List ℕ
  pub user : Option (List ℕ × Option (List ℕ))
  pub host : List ℕ
  pub port : Option (List ℕ)
  pub path : List ℕ
  pub query : Option (List ℕ)
  pub fragment : Option (List ℕ)

pub record AreParts (u : Parts) : Type 0 where
  pub scheme : IsPart (b':' ∷ []) u.scheme
  pub no_file : streq u.scheme (b'f' ∷ b'i' ∷ b'l' ∷ b'e' ∷ []) ≡ false
  pub user : IsUser u.user
  pub host : All (λ c. Lacks c u.host) (b':' ∷ b'@' ∷ b'/' ∷ [])
  pub port : IsPort u.port
  pub path : All (λ c. c < 256) u.path
  pub tail : IsTail u.query u.fragment

-- `scheme://[user[:password]@]host[:port]/path[?query][#fragment]`
abbrev pub print_path : Parts → List ℕ
print_path u = encode_path (b'/' ∷ u.path) ++ print_tail u.query u.fragment

abbrev pub print_uri : Parts → List ℕ
print_uri u =
    u.scheme ++ b':' ∷ b'/' ∷ b'/' ∷ (print_authority u.user u.host u.port ++ print_path u)

print_authority-Lacks :
    (user : Option (List ℕ × Option (List ℕ))) (host : List ℕ) (port : Option (List ℕ))
    → IsUser user
    → Lacks b'/' host
    → IsPort port
    → Lacks b'/' (print_authority user host port)
print_authority-Lacks none host port u h p = print_host-Lacks b'/' host port refl refl h p
print_authority-Lacks (some (user, password)) host port u h p =
    Lacks-append b'/' (print_user user password) (b'@' ∷ print_host host port)
      (print_user-Lacks user password u.0 u.1).1
      (refl, print_host-Lacks b'/' host port refl refl h p)

module _ (u : Parts) (v : AreParts u) where
  abbrev auth : List ℕ
  auth = print_authority u.user u.host u.port

  split_authority-print :
      split_authority (b'/' ∷ b'/' ∷ (auth ++ print_path u))
      ≡ some (authority_of u.user u.host u.port, print_path u)
  unfolding split_authority at_path
  split_authority-print =
      rw
        (
          memchr-found b'/' auth (encode_path u.path ++ print_tail u.query u.fragment)
              (print_authority-Lacks u.user u.host u.port v.user v.host.1.1.0 v.port),
          take-append_length auth (print_path u),
          parse_authority-print u.user u.host u.port v.user v.host v.port,
          drop-length auth (print_path u),
        )
        refl

  not_empty : (xs : List ℕ) → is_empty xs ≡ false → (length xs == 0) ≡ false
  not_empty [] h = h
  not_empty (x ∷ xs) h = ground arith

  path-IsPart : IsPart (b'?' ∷ b'#' ∷ []) (encode_path (b'/' ∷ u.path))
  path-IsPart = (
    refl,
    (
      encode_path-Lacks b'?' (b'/' ∷ u.path) refl,
      (encode_path-Lacks b'#' (b'/' ∷ u.path) refl, tt),
    ),
  )

  -- For a URI with an authority, whose scheme is not `file`, whose parts are not empty and hold none of
  -- the delimiters behind them, and whose path is any bytes, percent-encoded: `uri_parse` succeeds, and
  -- gives the scheme, user, password, host, query and fragment as they were written, the path decoded,
  -- and the port modulo 65536.
  pub uri_parse-print :
      uri_parse (print_uri u)
      ≡ some (record {
        scheme = u.scheme;
        authority = authority_of u.user u.host u.port;
        path = b'/' ∷ u.path;
        query = u.query;
        fragment = u.fragment;
      })
  unfolding uri_parse parse_from Option.bind
  uri_parse-print =
      rw
        (
          memchr-found b':' u.scheme (b'/' ∷ b'/' ∷ (auth ++ print_path u)) v.scheme.1.0,
          not_empty u.scheme v.scheme.0,
          drop-found b':' u.scheme (b'/' ∷ b'/' ∷ (auth ++ print_path u)),
          split_authority-print,
          take-append_length u.scheme (b':' ∷ b'/' ∷ b'/' ∷ (auth ++ print_path u)),
          find_tail-print u.scheme (encode_path (b'/' ∷ u.path)) u.query u.fragment v.no_file
              path-IsPart v.tail,
          decode_path-encode (b'/' ∷ u.path) (omega arith, v.path),
        )
        refl
