-- ===== src/Uri/Decode.antt =====
-- Percent decoding undoes percent encoding.
use foot.Base.{
  ℕ, ◌+◌, ◌-◌, ◌/◌, ◌%◌, ◌<◌, ◌≡◌, refl, ap, ◌∙◌, arith, Bool, true, false, Bool-cases, inl, inr,
  List, [], ◌∷◌, ◌++◌, ltb, leb, ◌==◌, ◌||◌, if◌then◌else◌, All,
}
use foot.Base.Mask.{bit_or-disjoint}
use foot.Uri.{hex2nibble, decode_path}
use foot.Uri.Find.{Lacks, Lacks-append}

abbrev pub hex_digit : ℕ → ℕ
hex_digit n = if ltb n 10 then b'0' + n else b'A' + (n - 10)

-- The bytes that a path cannot hold as they are.
abbrev pub is_special : ℕ → Bool
is_special c = c == b'%' || (c == b'?' || c == b'#')

abbrev pub encode_byte : ℕ → List ℕ
encode_byte c = if is_special c then b'%' ∷ hex_digit (c / 16) ∷ hex_digit (c % 16) ∷ [] else c ∷ []

abbrev pub encode_path : List ℕ → List ℕ
encode_path [] = []
encode_path (c ∷ cs) = encode_byte c ++ encode_path cs

hex2nibble-digit : (n : ℕ) → n < 16 → hex2nibble (hex_digit n) ≡ n
unfolding hex2nibble
hex2nibble-digit n h = ground arith

pub decode-nil : decode_path [] ≡ []
unfolding decode_path
decode-nil = refl

pub decode-plain :
    (c : ℕ) (rest : List ℕ) → (c == b'%') ≡ false → decode_path (c ∷ rest) ≡ c ∷ decode_path rest
unfolding decode_path
decode-plain c [] h = refl
decode-plain c (x ∷ []) h = refl
decode-plain c (x ∷ y ∷ rest) h = rw h refl

pub decode-escape :
    (c : ℕ) (rest : List ℕ)
    → c < 256
    → decode_path (b'%' ∷ hex_digit (c / 16) ∷ hex_digit (c % 16) ∷ rest) ≡ c ∷ decode_path rest
unfolding decode_path
decode-escape c rest h =
    let high = hex2nibble-digit (c / 16) (omega arith) in
    let low = hex2nibble-digit (c % 16) (omega arith) in
    let ok : leb (c / 16) 15 ≡ true = ground arith in
    let ok' : leb (c % 16) 15 ≡ true = ground arith in
    rw (high, low, ok, ok')
      (ap (λ k. k ∷ decode_path rest)
        (bit_or-disjoint 4 (c / 16) (c % 16) (omega arith) ∙ omega arith))

-- A path of bytes, encoded and decoded again, is what it was.
pub decode_path-encode : (p : List ℕ) → All (λ c. c < 256) p → decode_path (encode_path p) ≡ p
decode_path-encode [] a = decode-nil
decode_path-encode (c ∷ cs) a = elim (Bool-cases (is_special c)) [
  | inl e ↦ rw e (decode-escape c (encode_path cs) a.0 ∙ ap (◌∷◌ c) (decode_path-encode cs a.1))
  | inr e ↦
      rw e (decode-plain c (encode_path cs) (plain c e) ∙ ap (◌∷◌ c) (decode_path-encode cs a.1))
]
  where
    plain : (c : ℕ) → is_special c ≡ false → (c == b'%') ≡ false
    plain c e = ground arith

-- The delimiters do not occur in an encoded path.
pub encode_byte-Lacks : (d c : ℕ) → ((d == b'?') || (d == b'#')) ≡ true → Lacks d (encode_byte c)
encode_byte-Lacks d c h = elim (Bool-cases (is_special c)) [
  | inl e ↦ rw e (ground arith, (ground arith, (ground arith, tt)))
  | inr e ↦ rw e (ground (arith, e), tt)
]

pub encode_path-Lacks :
    (d : ℕ) (p : List ℕ) → ((d == b'?') || (d == b'#')) ≡ true → Lacks d (encode_path p)
encode_path-Lacks d [] h = tt
encode_path-Lacks d (c ∷ cs) h =
    Lacks-append d (encode_byte c) (encode_path cs) (encode_byte-Lacks d c h)
      (encode_path-Lacks d cs h)
