-- ===== src/Base64/Bits.antt =====
-- The bits of base64.c: three bytes as four groups of six bits, and the padding bit.
use foot.Base.{
  ℕ, ◌+◌, ◌*◌, ◌/◌, ◌%◌, ◌^◌, ◌<◌, ◌≡◌, refl, ap, ◌∙◌, arith, true, false, [], ◌∷◌, ltb, ltb→lt,
  ◌==◌, ◌&&◌, not, bit_and, bit_or, all_below, all_below_sound,
}
use foot.Base.Mask.{bit_and-mask, bit_or-disjoint}
use foot.Base64.{padding, invalid, has, reverse_lookup, lookup, three_bytes}

pub reverse_lookup-lookup : (a : ℕ) → a < 64 → reverse_lookup (lookup a) ≡ a
unfolding reverse_lookup lookup
reverse_lookup-lookup a h = ground arith

-- Facts on six bits, by trying each value.
pub or_below : (a b : ℕ) → a < 64 → b < 64 → bit_or a b < 64
unfolding all_below
or_below a b ha hb = ltb→lt _ _ (
    all_below_sound 64 (λ b. ltb (bit_or a b) 64) b
      (all_below_sound 64 (λ a. all_below 64 (λ b. ltb (bit_or a b) 64)) a refl ha) hb)

no_bits : (a : ℕ) → a < 64 → (not (has invalid a) && not (has padding a)) ≡ true
unfolding all_below
no_bits a h = all_below_sound 64 (λ a. not (has invalid a) && not (has padding a)) a refl h

pub no_invalid : (a : ℕ) → a < 64 → has invalid a ≡ false
no_invalid a h = ground (arith, no_bits a h)

pub no_padding : (a : ℕ) → a < 64 → has padding a ≡ false
no_padding a h = ground (arith, no_bits a h)

pad_bits :
    (a : ℕ)
    → a < 64
    → (not (has invalid (bit_or a 64))
        && has padding (bit_or a 64)
        && bit_or (bit_or a 64) 64 == bit_or a 64)
      ≡ true
unfolding all_below
pad_bits a h =
    all_below_sound 64
      (λ a.
        not (has invalid (bit_or a 64))
        && has padding (bit_or a 64)
        && bit_or (bit_or a 64) 64 == bit_or a 64)
      a refl h

pub pad_invalid : (a : ℕ) → a < 64 → has invalid (bit_or a 64) ≡ false
pad_invalid a h = ground (arith, pad_bits a h)

pub pad_padding : (a : ℕ) → a < 64 → has padding (bit_or a 64) ≡ true
pad_padding a h = ground (arith, pad_bits a h)

pub pad_again : (a : ℕ) → a < 64 → bit_or (bit_or a 64) 64 ≡ bit_or a 64
pad_again a h = ground (arith, pad_bits a h)

-- The 24 bits of three bytes, and of four groups of six bits.
pub joined8 :
    (x y z : ℕ)
    → y < 2 ^ 8
    → z < 2 ^ 8
    → bit_or (bit_or (x * 2 ^ 16) (y * 2 ^ 8)) z ≡ x * 2 ^ 16 + y * 2 ^ 8 + z
joined8 x y z hy hz =
    ap (λ v. bit_or v z) (bit_or-disjoint 16 x (y * 2 ^ 8) (omega arith) ∙ regroup)
    ∙ bit_or-disjoint 8 (x * 2 ^ 8 + y) z hz
    ∙ omega arith
  where
    regroup : x * 2 ^ 16 + y * 2 ^ 8 ≡ (x * 2 ^ 8 + y) * 2 ^ 8
    regroup = omega arith

joined6 :
    (a b c d : ℕ)
    → b < 2 ^ 6
    → c < 2 ^ 6
    → d < 2 ^ 6
    → bit_or (bit_or (bit_or (a * 2 ^ 18) (b * 2 ^ 12)) (c * 2 ^ 6)) d
      ≡ a * 2 ^ 18 + b * 2 ^ 12 + c * 2 ^ 6 + d
joined6 a b c d hb hc hd =
    ap (λ v. bit_or (bit_or v (c * 2 ^ 6)) d)
      (bit_or-disjoint 18 a (b * 2 ^ 12) (omega arith) ∙ regroup1)
    ∙ ap (λ v. bit_or v d) (bit_or-disjoint 12 (a * 2 ^ 6 + b) (c * 2 ^ 6) (omega arith) ∙ regroup2)
    ∙ bit_or-disjoint 6 (a * 2 ^ 12 + b * 2 ^ 6 + c) d hd
    ∙ omega arith
  where
    regroup1 : a * 2 ^ 18 + b * 2 ^ 12 ≡ (a * 2 ^ 6 + b) * 2 ^ 12
    regroup1 = omega arith

    regroup2 : (a * 2 ^ 6 + b) * 2 ^ 12 + c * 2 ^ 6 ≡ (a * 2 ^ 12 + b * 2 ^ 6 + c) * 2 ^ 6
    regroup2 = omega arith

-- The four groups of the 24 bits of a number, put together again.
pub three_bytes_of :
    (v : ℕ)
    → v < 2 ^ 24
    → three_bytes (v / 2 ^ 18) (v / 2 ^ 12 % 2 ^ 6) (v / 2 ^ 6 % 2 ^ 6) (v % 2 ^ 6)
      ≡ (v / 2 ^ 16) ∷ (v / 2 ^ 8 % 2 ^ 8) ∷ (v % 2 ^ 8) ∷ []
unfolding three_bytes
three_bytes_of v h =
    ap (λ w. bit_and (w / 2 ^ 16) 0xff ∷ bit_and (w / 2 ^ 8) 0xff ∷ bit_and w 0xff ∷ [])
      (joined6 (v / 2 ^ 18) (v / 2 ^ 12 % 2 ^ 6) (v / 2 ^ 6 % 2 ^ 6) (v % 2 ^ 6) (omega arith)
          (omega arith) (omega arith)
        ∙ whole)
    ∙ ap (λ k. k ∷ bit_and (v / 2 ^ 8) 0xff ∷ bit_and v 0xff ∷ [])
        (omega (arith, bit_and-mask 8 (v / 2 ^ 16)))
    ∙ ap (λ k. (v / 2 ^ 16) ∷ k ∷ bit_and v 0xff ∷ []) (bit_and-mask 8 (v / 2 ^ 8))
    ∙ ap (λ k. (v / 2 ^ 16) ∷ (v / 2 ^ 8 % 2 ^ 8) ∷ k ∷ []) (bit_and-mask 8 v)
  where
    whole :
        v / 2 ^ 18 * 2 ^ 18 + v / 2 ^ 12 % 2 ^ 6 * 2 ^ 12 + v / 2 ^ 6 % 2 ^ 6 * 2 ^ 6 + v % 2 ^ 6
        ≡ v
    whole = omega arith
