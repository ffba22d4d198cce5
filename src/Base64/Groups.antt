-- ===== src/Base64/Groups.antt =====
-- Each group of base64.c, and each of its endings, decodes to the bytes that were encoded.
use foot.Base.{
  ℕ, suc, ◌+◌, ◌*◌, ◌/◌, ◌%◌, ◌^◌, ◌<◌, ◌≡◌, refl, ap, ap₂, ◌∙◌, arith, Bool, true, List, [], ◌∷◌,
  ◌++◌, some, bit_and, bit_or, length,
}
use foot.Base.Mask.{bit_and-mask, bit_or-disjoint}
use mathlib.Core.Option
use foot.Base64.{
  reverse_lookup, lookup, three_bytes, decode_group, add_group, decode_groups, encode_group,
  base64_encode_final,
}
use foot.Base64.Bits.{
  reverse_lookup-lookup, or_below, no_invalid, no_padding, pad_invalid, pad_padding, pad_again,
  joined8, three_bytes_of,
}

-- Four groups of six bits, as the characters that stand for them.
abbrev quad : ℕ → List ℕ → List ℕ
quad v rest =
    lookup (v / 2 ^ 18)
    ∷ lookup (v / 2 ^ 12 % 2 ^ 6)
    ∷ lookup (v / 2 ^ 6 % 2 ^ 6)
    ∷ lookup (v % 2 ^ 6)
    ∷ rest

abbrev masked : ℕ → List ℕ
masked v =
    lookup (bit_and (v / 2 ^ 18) 0x3f)
    ∷ lookup (bit_and (v / 2 ^ 12) 0x3f)
    ∷ lookup (bit_and (v / 2 ^ 6) 0x3f)
    ∷ lookup (bit_and v 0x3f)
    ∷ []

top_bits : (v : ℕ) → v < 2 ^ 24 → v / 2 ^ 18 % 2 ^ 6 ≡ v / 2 ^ 18
top_bits v h = omega arith

masked-quad : (v : ℕ) → v < 2 ^ 24 → masked v ≡ quad v []
masked-quad v h =
    rw
      (
        bit_and-mask 6 (v / 2 ^ 18),
        bit_and-mask 6 (v / 2 ^ 12),
        bit_and-mask 6 (v / 2 ^ 6),
        bit_and-mask 6 v,
        top_bits v h,
      )
      refl

encode_group-quad :
    (x y z : ℕ)
    → x < 256
    → y < 256
    → z < 256
    → encode_group x y z ≡ quad (x * 2 ^ 16 + y * 2 ^ 8 + z) []
unfolding encode_group
encode_group-quad x y z hx hy hz =
    ap masked (joined8 x y z hy hz) ∙ masked-quad (x * 2 ^ 16 + y * 2 ^ 8 + z) (omega arith)

decode_group-full :
    (last : Bool) (a b c d : ℕ)
    → a < 64
    → b < 64
    → c < 64
    → d < 64
    → decode_group last a b c d ≡ some (three_bytes a b c d, 0)
unfolding decode_group
decode_group-full last a b c d ha hb hc hd = rw (no_invalid _ u, no_padding _ u) refl
  where
    u : bit_or (bit_or (bit_or a b) c) d < 64
    u = or_below _ d (or_below _ c (or_below a b ha hb) hc) hd

decode_groups-quad :
    (v : ℕ) (rest : List ℕ)
    → v < 2 ^ 24
    → decode_groups (quad v rest)
      ≡ Option.map
          (add_group ((v / 2 ^ 16) ∷ (v / 2 ^ 8 % 2 ^ 8) ∷ (v % 2 ^ 8) ∷ [], 0))
          (decode_groups rest)
unfolding decode_groups Option.bind
decode_groups-quad v rest h =
    rw
      (
        reverse_lookup-lookup (v / 2 ^ 18) (omega arith),
        reverse_lookup-lookup (v / 2 ^ 12 % 2 ^ 6) (omega arith),
        reverse_lookup-lookup (v / 2 ^ 6 % 2 ^ 6) (omega arith),
        reverse_lookup-lookup (v % 2 ^ 6) (omega arith),
        decode_group-full _ (v / 2 ^ 18) (v / 2 ^ 12 % 2 ^ 6) (v / 2 ^ 6 % 2 ^ 6) (v % 2 ^ 6)
            (omega arith) (omega arith) (omega arith) (omega arith),
        three_bytes_of v h,
      )
      refl

decode_group-one_pad :
    (a b c : ℕ)
    → a < 64
    → b < 64
    → c < 64
    → decode_group true a b c 64 ≡ some (three_bytes a b c 0, 1)
unfolding decode_group
decode_group-one_pad a b c ha hb hc =
    rw
      (
        pad_invalid _ u,
        pad_padding _ u,
        no_padding _ (or_below a b ha hb),
        no_padding c hc,
        bit_and-mask 6 c,
      )
      (ap (λ k. some (three_bytes a b k 0, 1)) (omega arith))
  where
    u : bit_or (bit_or a b) c < 64
    u = or_below _ c (or_below a b ha hb) hc

decode_group-two_pads :
    (a b : ℕ) → a < 64 → b < 64 → decode_group true a b 64 64 ≡ some (three_bytes a b 0 0, 2)
unfolding decode_group
decode_group-two_pads a b ha hb =
    rw (pad_again _ u, pad_invalid _ u, pad_padding _ u, no_padding _ u) refl
  where
    u : bit_or a b < 64
    u = or_below a b ha hb

-- A string decodes to bytes, and zeroes that its padding leaves.
pub record Decodes (s bytes : List ℕ) : Type 0 where
  pub zeroes : List ℕ
  pub quads : ℕ
  pub decoded : decode_groups s ≡ some (bytes ++ zeroes, length zeroes)
  pub size : length s ≡ quads * 4
  pub filled : length bytes + length zeroes ≡ quads * 3

-- The three bytes of 24 bits.
abbrev bytes_in : ℕ → List ℕ
bytes_in v = (v / 2 ^ 16) ∷ (v / 2 ^ 8 % 2 ^ 8) ∷ (v % 2 ^ 8) ∷ []

bytes_of :
    (v x y z : ℕ)
    → v ≡ x * 2 ^ 16 + y * 2 ^ 8 + z
    → x < 256
    → y < 256
    → z < 256
    → bytes_in v ≡ x ∷ y ∷ z ∷ []
bytes_of v x y z e hx hy hz = ap₂ (◌∷◌) first (ap₂ (◌∷◌) second (ap (λ k. k ∷ []) third))
  where
    first : v / 2 ^ 16 ≡ x
    first = omega (arith, e)

    second : v / 2 ^ 8 % 2 ^ 8 ≡ y
    second = omega (arith, e)

    third : v % 2 ^ 8 ≡ z
    third = omega (arith, e)

or_zero : (w : ℕ) → w < 2 ^ 24 → bit_or 0 w ≡ w
or_zero w h = bit_or-disjoint 24 0 w h ∙ omega arith

pad_char : reverse_lookup 61 ≡ 64
unfolding reverse_lookup
pad_char = refl

final_one :
    (x : ℕ)
    → x < 256
    → base64_encode_final (x ∷ [])
      ≡ lookup (x * 2 ^ 16 / 2 ^ 18) ∷ lookup (x * 2 ^ 16 / 2 ^ 12 % 2 ^ 6) ∷ 61 ∷ 61 ∷ []
unfolding base64_encode_final
final_one x h =
    rw
      (
        or_zero (x * 2 ^ 16) (omega arith),
        bit_and-mask 6 (x * 2 ^ 16 / 2 ^ 18),
        top_bits (x * 2 ^ 16) (omega arith),
        bit_and-mask 6 (x * 2 ^ 16 / 2 ^ 12),
      )
      refl

abbrev both : ℕ → ℕ → ℕ
both x y = x * 2 ^ 16 + y * 2 ^ 8

final_two :
    (x y : ℕ)
    → x < 256
    → y < 256
    → base64_encode_final (x ∷ y ∷ [])
      ≡ lookup (both x y / 2 ^ 18)
        ∷ lookup (both x y / 2 ^ 12 % 2 ^ 6)
        ∷ lookup (both x y / 2 ^ 6 % 2 ^ 6)
        ∷ 61
        ∷ []
unfolding base64_encode_final
final_two x y hx hy =
    rw
      (
        or_zero (x * 2 ^ 16) (omega arith),
        bit_or-disjoint 16 x (y * 2 ^ 8) (omega arith),
        bit_and-mask 6 (both x y / 2 ^ 18),
        top_bits (both x y) (omega arith),
        bit_and-mask 6 (both x y / 2 ^ 12),
        bit_and-mask 6 (both x y / 2 ^ 6),
      )
      refl

one_bytes :
    (x : ℕ)
    → x < 256
    → three_bytes (x * 2 ^ 16 / 2 ^ 18) (x * 2 ^ 16 / 2 ^ 12 % 2 ^ 6) 0 0 ≡ x ∷ 0 ∷ 0 ∷ []
one_bytes x h =
    ap (three_bytes (x * 2 ^ 16 / 2 ^ 18) (x * 2 ^ 16 / 2 ^ 12 % 2 ^ 6) 0) fourth
    ∙ ap
        (λ k.
          three_bytes (x * 2 ^ 16 / 2 ^ 18) (x * 2 ^ 16 / 2 ^ 12 % 2 ^ 6) k (x * 2 ^ 16 % 2 ^ 6))
        third
    ∙ three_bytes_of (x * 2 ^ 16) (omega arith)
    ∙ bytes_of (x * 2 ^ 16) x 0 0 (omega arith) h (omega arith) (omega arith)
  where
    third : 0 ≡ x * 2 ^ 16 / 2 ^ 6 % 2 ^ 6
    third = omega arith

    fourth : 0 ≡ x * 2 ^ 16 % 2 ^ 6
    fourth = omega arith

two_bytes :
    (x y : ℕ)
    → x < 256
    → y < 256
    → three_bytes (both x y / 2 ^ 18) (both x y / 2 ^ 12 % 2 ^ 6) (both x y / 2 ^ 6 % 2 ^ 6) 0
      ≡ x ∷ y ∷ 0 ∷ []
two_bytes x y hx hy =
    ap (three_bytes (both x y / 2 ^ 18) (both x y / 2 ^ 12 % 2 ^ 6) (both x y / 2 ^ 6 % 2 ^ 6))
      fourth
    ∙ three_bytes_of (both x y) (omega arith)
    ∙ bytes_of (both x y) x y 0 (omega arith) hx hy (omega arith)
  where
    fourth : 0 ≡ both x y % 2 ^ 6
    fourth = omega arith

pub Decodes-none : Decodes (base64_encode_final []) []
unfolding decode_groups base64_encode_final
Decodes-none = record { zeroes = []; quads = 0; decoded = refl; size = refl; filled = refl }

pub Decodes-one : (x : ℕ) → x < 256 → Decodes (base64_encode_final (x ∷ [])) (x ∷ [])
unfolding decode_groups Option.bind
Decodes-one x h = record {
  zeroes = 0 ∷ 0 ∷ [];
  quads = 1;
  decoded =
      rw
        (
          final_one x h,
          pad_char,
          reverse_lookup-lookup (x * 2 ^ 16 / 2 ^ 18) (omega arith),
          reverse_lookup-lookup (x * 2 ^ 16 / 2 ^ 12 % 2 ^ 6) (omega arith),
          decode_group-two_pads (x * 2 ^ 16 / 2 ^ 18) (x * 2 ^ 16 / 2 ^ 12 % 2 ^ 6) (omega arith)
              (omega arith),
          one_bytes x h,
        )
        refl;
  size = rw (final_one x h) refl;
  filled = refl;
}

pub Decodes-two :
    (x y : ℕ) → x < 256 → y < 256 → Decodes (base64_encode_final (x ∷ y ∷ [])) (x ∷ y ∷ [])
unfolding decode_groups Option.bind
Decodes-two x y hx hy = record {
  zeroes = 0 ∷ [];
  quads = 1;
  decoded =
      rw
        (
          final_two x y hx hy,
          pad_char,
          reverse_lookup-lookup (both x y / 2 ^ 18) (omega arith),
          reverse_lookup-lookup (both x y / 2 ^ 12 % 2 ^ 6) (omega arith),
          reverse_lookup-lookup (both x y / 2 ^ 6 % 2 ^ 6) (omega arith),
          decode_group-one_pad (both x y / 2 ^ 18) (both x y / 2 ^ 12 % 2 ^ 6)
              (both x y / 2 ^ 6 % 2 ^ 6) (omega arith) (omega arith) (omega arith),
          two_bytes x y hx hy,
        )
        refl;
  size = rw (final_two x y hx hy) refl;
  filled = refl;
}

pub Decodes-group :
    (x y z : ℕ) (s bytes : List ℕ)
    → x < 256
    → y < 256
    → z < 256
    → Decodes s bytes
    → Decodes (encode_group x y z ++ s) (x ∷ y ∷ z ∷ bytes)
Decodes-group x y z s bytes hx hy hz ih = record {
  zeroes = ih.zeroes;
  quads = suc ih.quads;
  decoded = rw (encode_group-quad x y z hx hy hz) (
      decode_groups-quad v s (omega arith)
      ∙ ap (λ l. Option.map (add_group (l, 0)) (decode_groups s)) (bytes_of v x y z refl hx hy hz)
      ∙ ap (Option.map (add_group (x ∷ y ∷ z ∷ [], 0))) ih.decoded
      ∙ ap (λ k. some (x ∷ y ∷ z ∷ (bytes ++ ih.zeroes), k)) (omega arith));
  size = rw (encode_group-quad x y z hx hy hz) (omega (arith, ih.size));
  filled = omega (arith, ih.filled);
}
  where
    v : ℕ
    v = x * 2 ^ 16 + y * 2 ^ 8 + z
