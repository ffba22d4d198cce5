-- ===== src/Uri/Query.antt =====
-- Query and fragment of a URI, written out and parsed.
use foot.Base.{
  ℕ, ◌+◌, ◌-◌, ◌≡◌, refl, sym, ap, ◌∙◌, arith, false, List, [], ◌∷◌, ◌++◌, Option, none, some, ltb,
  length, drop, append_assoc, append-nil, length-append, take-append_length,
}
use mathlib.Core.Option
use foot.Uri.{is_empty, memchr, streq, parse_tail, find_tail}
use foot.Uri.Find.{memchr-Lacks, memchr-found, Lacks-append, drop-found}
use foot.Uri.Print.{IsPart}

-- `[?query][#fragment]`
abbrev pub print_tail : Option (List ℕ) → Option (List ℕ) → List ℕ
print_tail none none = []
print_tail (some query) none = b'?' ∷ query
print_tail none (some fragment) = b'#' ∷ fragment
print_tail (some query) (some fragment) = b'?' ∷ (query ++ b'#' ∷ fragment)

-- Without a query a fragment has no question mark, as the parser would take it for one.
abbrev pub IsTail : Option (List ℕ) → Option (List ℕ) → Type 0
IsTail none none = Unit
IsTail (some query) none = IsPart (b'#' ∷ []) query
IsTail none (some fragment) = IsPart (b'?' ∷ []) fragment
IsTail (some query) (some fragment) = IsPart (b'#' ∷ []) query × (is_empty fragment ≡ false)

pub find_tail-print :
    (scheme path : List ℕ) (query fragment : Option (List ℕ))
    → streq scheme (b'f' ∷ b'i' ∷ b'l' ∷ b'e' ∷ []) ≡ false
    → IsPart (b'?' ∷ b'#' ∷ []) path
    → IsTail query fragment
    → find_tail scheme (path ++ print_tail query fragment)
      ≡ some (record { encoded = path; query = query; fragment = fragment })
unfolding find_tail parse_tail Option.bind
find_tail-print scheme path none none f p t =
    rw (append-nil path, memchr-Lacks b'?' path p.1.0, memchr-Lacks b'#' path p.1.1.0, f, p.0) refl
find_tail-print scheme path (some query) none f p t =
    rw
      (
        memchr-found b'?' path query p.1.0,
        memchr-Lacks b'#' (path ++ b'?' ∷ query)
            (Lacks-append b'#' path (b'?' ∷ query) p.1.1.0 (refl, t.1.0)),
        f,
        take-append_length path (b'?' ∷ query),
        drop-found b'?' path query,
        p.0,
        t.0,
      )
      refl
find_tail-print scheme path none (some fragment) f p t =
    rw
      (
        memchr-Lacks b'?' (path ++ b'#' ∷ fragment)
            (Lacks-append b'?' path (b'#' ∷ fragment) p.1.0 (refl, t.1.0)),
        memchr-found b'#' path fragment p.1.1.0,
        f,
        take-append_length path (b'#' ∷ fragment),
        drop-found b'#' path fragment,
        p.0,
        t.0,
      )
      refl
find_tail-print scheme path (some query) (some fragment) f p t =
    rw
      (
        memchr-found b'?' path (query ++ b'#' ∷ fragment) p.1.0,
        second,
        f,
        behind,
        take-append_length path (b'?' ∷ (query ++ b'#' ∷ fragment)),
        drop-found b'?' path (query ++ b'#' ∷ fragment),
        p.0,
        between,
        take-append_length query (b'#' ∷ fragment),
        t.0.0,
        last,
        t.1,
      )
      refl
  where
    front : List ℕ
    front = path ++ b'?' ∷ query

    joined : front ++ b'#' ∷ fragment ≡ path ++ b'?' ∷ (query ++ b'#' ∷ fragment)
    joined = append_assoc path (b'?' ∷ query) (b'#' ∷ fragment)

    second : memchr b'#' (path ++ b'?' ∷ (query ++ b'#' ∷ fragment)) ≡ some (length front)
    second =
        ap (memchr b'#') (sym joined)
        ∙ memchr-found b'#' front fragment
            (Lacks-append b'#' path (b'?' ∷ query) p.1.1.0 (refl, t.0.1.0))

    behind : ltb (length front) (length path) ≡ false
    behind = ground (arith, length-append path (b'?' ∷ query))

    between : length front - (length path + 1) ≡ length query
    between = omega (arith, length-append path (b'?' ∷ query))

    last : drop (length front + 1) (path ++ b'?' ∷ (query ++ b'#' ∷ fragment)) ≡ fragment
    last = ap (drop (length front + 1)) (sym joined) ∙ drop-found b'#' front fragment
