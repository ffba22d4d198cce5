-- ===== src/Base64/Tests.antt =====
-- base64.c on `Hello`.
use foot.Base.{ℕ, ◌≡◌, refl, arith, true, List, [], ◌∷◌, ◌++◌, some, take}
use foot.Base64.{base64_decode, base64_encode, base64_encode_final}
use foot.Base64.RoundTrip.{base64_decode-encode}

base64_decode-encode_example :
    (text : List ℕ) × (ret : List ℕ) × (base64_encode (λ n. true) (0x48 ∷ 0x65 ∷ 0x6c ∷ [])
      ≡ some (text ++ 0 ∷ []))
    × (base64_decode (λ n. true) (text ++ base64_encode_final (0x6c ∷ 0x6f ∷ [])) ≡ some (ret, 5))
    × (take 5 ret ≡ 0x48 ∷ 0x65 ∷ 0x6c ∷ 0x6c ∷ 0x6f ∷ [])
base64_decode-encode_example =
    base64_decode-encode (λ n. true) (0x48 ∷ 0x65 ∷ 0x6c ∷ []) (0x6c ∷ 0x6f ∷ []) (λ n. refl) refl
      (omega arith) (omega arith, (omega arith, (omega arith, _))) (omega arith, (omega arith, _))
