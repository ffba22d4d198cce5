-- ===== src/Base64/RoundTrip.antt =====
-- What base64.c encodes it decodes to the same bytes.
use foot.Base.{
  ℕ, ◌+◌, ◌*◌, ◌/◌, ◌%◌, ◌<◌, ◌≡◌, refl, ap, arith, Bool, true, List, [], ◌∷◌, ◌++◌, some, ◌==◌,
  length, take, All, append_assoc,
}
use foot.Base64.{base64_decode, encode_group, encode_groups, base64_encode, base64_encode_final}
use foot.Base64.Groups.{Decodes, Decodes-none, Decodes-one, Decodes-two, Decodes-group}

abbrev pub Bytes : List ℕ → Type 0
Bytes = All (λ b. b < 256)

-- The ending of fewer than three bytes.
Decodes-final : (r : List ℕ) → length r < 3 → Bytes r → Decodes (base64_encode_final r) r
Decodes-final [] h b = Decodes-none
Decodes-final (x ∷ []) h b = Decodes-one x b.0
Decodes-final (x ∷ y ∷ []) h b = Decodes-two x y b.0 b.1.0
Decodes-final (x ∷ y ∷ z ∷ r) h b = absurd (omega arith)

pub Decodes-all :
    (d r : List ℕ)
    → length d % 3 ≡ 0
    → length r < 3
    → Bytes d
    → Bytes r
    → Decodes (encode_groups d ++ base64_encode_final r) (d ++ r)
unfolding encode_groups
Decodes-all [] r e h bd br = Decodes-final r h br
Decodes-all (x ∷ []) r e h bd br = absurd (omega (arith, e))
Decodes-all (x ∷ y ∷ []) r e h bd br = absurd (omega (arith, e))
Decodes-all (x ∷ y ∷ z ∷ d) r e h bd br =
    rw (append_assoc (encode_group x y z) (encode_groups d) (base64_encode_final r)) (
      Decodes-group x y z _ (d ++ r) bd.0 bd.1.0 bd.1.1.0
        (Decodes-all d r (omega (arith, e)) h bd.1.1.1 br))

pub take-length : (a b : List ℕ) → take (length a) (a ++ b) ≡ a
take-length [] b = refl
take-length (x ∷ a) b = ap (◌∷◌ x) (take-length a b)

pub base64_decode-Decodes :
    (malloc : ℕ → Bool) (s bytes : List ℕ)
    → ((n : ℕ) → malloc n ≡ true)
    → (v : Decodes s bytes)
    → base64_decode malloc s ≡ some ((bytes ++ v.zeroes) ++ 0 ∷ [], length bytes)
unfolding base64_decode
base64_decode-Decodes malloc s bytes served v =
    rw (quads, served (length s / 4 * 3 + 1), v.decoded)
      (ap (λ k. some ((bytes ++ v.zeroes) ++ 0 ∷ [], k)) (omega (arith, v.size, v.filled)))
  where
    quads : (length s % 4 == 0) ≡ true
    quads = ground (arith, v.size)

-- With a `malloc` that serves every size, bytes that `base64_encode` takes (a multiple of three of them)
-- give a string, that string with the ending of up to two more bytes decodes, the size is the number of
-- all the bytes, and the buffer begins with them.
pub base64_decode-encode :
    (malloc : ℕ → Bool) (d r : List ℕ)
    → ((n : ℕ) → malloc n ≡ true)
    → length d % 3 ≡ 0
    → length r < 3
    → Bytes d
    → Bytes r
    → (text : List ℕ) × (ret : List ℕ) × (base64_encode malloc d ≡ some (text ++ 0 ∷ []))
      × (base64_decode malloc (text ++ base64_encode_final r) ≡ some (ret, length (d ++ r)))
      × (take (length (d ++ r)) ret ≡ d ++ r)
unfolding base64_encode
base64_decode-encode malloc d r served e h bd br = (
  encode_groups d,
  (d ++ r ++ v.zeroes) ++ 0 ∷ [],
  rw (triples, served (length d / 3 * 4 + 1)) refl,
  base64_decode-Decodes malloc _ (d ++ r) served v,
  rw (append_assoc (d ++ r) v.zeroes (0 ∷ [])) (take-length (d ++ r) (v.zeroes ++ 0 ∷ [])),
)
  where
    v : Decodes (encode_groups d ++ base64_encode_final r) (d ++ r)
    v = Decodes-all d r e h bd br

    triples : (length d % 3 == 0) ≡ true
    triples = ground (arith, e)
