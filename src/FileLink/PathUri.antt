-- ===== src/FileLink/PathUri.antt =====
-- A path, made a file URI and taken out of it again.
use foot.Base.{
  ℕ, ◌%◌, ◌<◌, ◌≡◌, ◌∙◌, ap, arith, true, false, Bool-cases, inl, inr, List, [], ◌∷◌, some, none,
  ◌==◌, All, bit_and,
}
use foot.Base.Mask.{bit_and-mask}
use mathlib.Core.Option
use foot.Uri.{Uri, decode_path, uri_parse}
use foot.Uri.Decode.{decode-nil, decode-plain, decode-escape}
use foot.FileLink.{
  is_plain, escape_path, local_path, file_scheme, file_link_path_from_uri, file_link_path_to_uri,
}

plain_no_percent : (c : ℕ) → is_plain c ≡ true → (c == b'%') ≡ false
plain_no_percent c h = ground arith

low_digit : (c : ℕ) → bit_and c 0xf ≡ c % 16
low_digit c = bit_and-mask 4 c

decode_path-escape_path : (p : List ℕ) → All (λ c. c < 256) p → decode_path (escape_path p) ≡ p
unfolding escape_path
decode_path-escape_path [] a = decode-nil
decode_path-escape_path (c ∷ cs) a = elim (Bool-cases (is_plain c)) [
  | inl e ↦ rw e (
      decode-plain c (escape_path cs) (plain_no_percent c e)
      ∙ ap (◌∷◌ c) (decode_path-escape_path cs a.1))
  | inr e ↦
      rw (e, low_digit c)
        (decode-escape c (escape_path cs) a.0 ∙ ap (◌∷◌ c) (decode_path-escape_path cs a.1))
]

All-bytes : (p : List ℕ) → All (λ c. (0 < c) × (c < 256)) p → All (λ c. c < 256) p
All-bytes [] a = tt
All-bytes (c ∷ cs) ((l, h), a) = (h, All-bytes cs a)

abbrev file_uri : List ℕ → Uri
file_uri path = record {
  scheme = file_scheme;
  authority = record { user = none; password = none; host = some []; port = 0 };
  path = path;
  query = none;
  fragment = none;
}

uri_parse-to_uri :
    (p : List ℕ)
    → All (λ c. c < 256) p
    → uri_parse (file_link_path_to_uri (b'/' ∷ p)) ≡ some (file_uri (b'/' ∷ p))
unfolding file_link_path_to_uri uri_parse Option.bind
uri_parse-to_uri p a =
    ap (λ path. some (file_uri path)) (decode_path-escape_path (b'/' ∷ p) (omega arith, a))

-- An absolute path of any bytes but NUL, made a file URI by `file_link_path_to_uri`, is given back by
-- `file_link_path_from_uri`, whatever the name of this host is.
pub file_link_path_from_uri-to_uri :
    (this_host p : List ℕ)
    → All (λ c. (0 < c) × (c < 256)) p
    → file_link_path_from_uri this_host (file_link_path_to_uri (b'/' ∷ p)) ≡ some (b'/' ∷ p)
unfolding file_link_path_from_uri local_path Option.bind
file_link_path_from_uri-to_uri this_host p a =
    ap (λ parsed. Option.bind parsed (local_path this_host)) (uri_parse-to_uri p (All-bytes p a))
