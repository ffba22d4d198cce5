-- ===== src/Uri/Print.antt =====
-- The authority of a URI, written out and parsed.
use foot.Base.{
  ℕ, ◌%◌, ◌^◌, ◌≡◌, refl, ap, arith, false, List, [], ◌∷◌, ◌++◌, Option, none, some, ◌==◌, length,
  within, All, take-append_length,
}
use mathlib.Core.Option
use foot.Uri.{Authority, is_empty, memchr, parse_user, parse_host, parse_authority, with_host}
use foot.Uri.Find.{Lacks, memchr-Lacks, memchr-found, Lacks-append, drop-found}
use foot.Uri.Port.{decimal, AreDigits, port_digits-decimal}

-- A text that is not empty and holds none of some bytes.
abbrev pub IsPart : List ℕ → List ℕ → Type 0
IsPart bytes text = (is_empty text ≡ false) × All (λ c. Lacks c text) bytes

abbrev pub print_user : List ℕ → Option (List ℕ) → List ℕ
print_user user none = user
print_user user (some password) = user ++ b':' ∷ password

abbrev pub IsPassword : Option (List ℕ) → Type 0
IsPassword none = Unit
IsPassword (some password) = IsPart (b'@' ∷ b'/' ∷ []) password

not_first : (xs : List ℕ) → is_empty xs ≡ false → (length xs == 0) ≡ false
not_first [] h = h
not_first (x ∷ xs) h = ground arith

parse_user-print :
    (user : List ℕ) (password : Option (List ℕ))
    → IsPart (b':' ∷ b'@' ∷ b'/' ∷ []) user
    → IsPassword password
    → parse_user (memchr b':' (print_user user password)) (print_user user password)
      ≡ some (user, password)
unfolding parse_user
parse_user-print user none u p = rw (memchr-Lacks b':' user u.1.0, u.0) refl
parse_user-print user (some password) u p =
    rw
      (
        memchr-found b':' user password u.1.0,
        drop-found b':' user password,
        p.0,
        take-append_length user (b':' ∷ password),
        not_first user u.0,
      )
      refl

abbrev pub print_host : List ℕ → Option (List ℕ) → List ℕ
print_host host none = host
print_host host (some digits) = host ++ b':' ∷ digits

abbrev pub IsPort : Option (List ℕ) → Type 0
IsPort none = Unit
IsPort (some digits) = (is_empty digits ≡ false) × AreDigits digits

abbrev pub port_value : Option (List ℕ) → ℕ
port_value none = 0
port_value (some digits) = decimal 0 digits % 2 ^ 16

parse_host-print :
    (host : List ℕ) (port : Option (List ℕ))
    → Lacks b':' host
    → IsPort port
    → parse_host (memchr b':' (print_host host port)) (print_host host port)
      ≡ some (host, port_value port)
unfolding parse_host
parse_host-print host none h p = rw (memchr-Lacks b':' host h) refl
parse_host-print host (some digits) h p =
    rw
      (
        memchr-found b':' host digits h,
        drop-found b':' host digits,
        p.0,
        take-append_length host (b':' ∷ digits),
      )
      (ap (Option.map (λ port. (host, port))) (port_digits-decimal 0 digits p.1))

-- `[user[:password]@]host[:port]`
abbrev pub print_authority : Option (List ℕ × Option (List ℕ)) → List ℕ → Option (List ℕ) → List ℕ
print_authority none host port = print_host host port
print_authority (some (user, password)) host port =
    print_user user password ++ b'@' ∷ print_host host port

abbrev pub IsUser : Option (List ℕ × Option (List ℕ)) → Type 0
IsUser none = Unit
IsUser (some (user, password)) = IsPart (b':' ∷ b'@' ∷ b'/' ∷ []) user × IsPassword password

abbrev pub authority_of : Option (List ℕ × Option (List ℕ)) → List ℕ → Option (List ℕ) → Authority
authority_of none host port = with_host none none (host, port_value port)
authority_of (some (user, password)) host port =
    with_host (some user) password (host, port_value port)

digits-Lacks : (c : ℕ) (ds : List ℕ) → within b'0' b'9' c ≡ false → AreDigits ds → Lacks c ds
digits-Lacks c [] h a = tt
digits-Lacks c (d ∷ ds) h a = (ground (arith, a.0, h), digits-Lacks c ds h a.1)

pub print_host-Lacks :
    (c : ℕ) (host : List ℕ) (port : Option (List ℕ))
    → (b':' == c) ≡ false
    → within b'0' b'9' c ≡ false
    → Lacks c host
    → IsPort port
    → Lacks c (print_host host port)
print_host-Lacks c host none e d h p = h
print_host-Lacks c host (some digits) e d h p =
    Lacks-append c host (b':' ∷ digits) h (e, digits-Lacks c digits d p.1)

pub print_user-Lacks :
    (user : List ℕ) (password : Option (List ℕ))
    → IsPart (b':' ∷ b'@' ∷ b'/' ∷ []) user
    → IsPassword password
    → Lacks b'@' (print_user user password) × Lacks b'/' (print_user user password)
print_user-Lacks user none u p = (u.1.1.0, u.1.1.1.0)
print_user-Lacks user (some password) u p = (
  Lacks-append b'@' user (b':' ∷ password) u.1.1.0 (refl, p.1.0),
  Lacks-append b'/' user (b':' ∷ password) u.1.1.1.0 (refl, p.1.1.0),
)

pub parse_authority-print :
    (user : Option (List ℕ × Option (List ℕ))) (host : List ℕ) (port : Option (List ℕ))
    → IsUser user
    → All (λ c. Lacks c host) (b':' ∷ b'@' ∷ b'/' ∷ [])
    → IsPort port
    → parse_authority
        (memchr b'@' (print_authority user host port))
        (print_authority user host port)
      ≡ some (authority_of user host port)
unfolding parse_authority Option.bind
parse_authority-print none host port u h p =
    rw
      (
        memchr-Lacks b'@' (print_host host port)
            (print_host-Lacks b'@' host port refl refl h.1.0 p),
        parse_host-print host port h.0 p,
      )
      refl
parse_authority-print (some (user, password)) host port u h p =
    rw
      (
        memchr-found b'@' (print_user user password) (print_host host port)
            (print_user-Lacks user password u.0 u.1).0,
        take-append_length (print_user user password) (b'@' ∷ print_host host port),
        drop-found b'@' (print_user user password) (print_host host port),
        parse_user-print user password u.0 u.1,
        parse_host-print host port h.0 p,
      )
      refl
