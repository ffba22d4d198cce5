-- ===== src/Base64.antt =====
-- base64.c. Bytes are numbers below 256, a string is its bytes without the NUL, and a pointer that
-- `malloc` may refuse is an `Option`.
mod Bits
mod Groups
pub mod RoundTrip
pub mod Tests
use foot.Base.{
  ℕ, zero, suc, ◌+◌, ◌-◌, ◌*◌, ◌/◌, ◌%◌, ◌^◌, Bool, true, false, List, [], ◌∷◌, ◌++◌, Option, none,
  some, ltb, within, ◌==◌, ◌||◌, ◌&&◌, not, if◌then◌else◌, bit_and, bit_or, length,
}
use mathlib.Core.Option

-- The bits `P` and `I`: padding, and bytes that are not allowed.
abbrev pub padding : ℕ
padding = 2 ^ 6

abbrev pub invalid : ℕ
invalid = 2 ^ 7

-- The tables `reverse_lookup` and `lookup`, as the ranges that they consist of.
unfoldable pub reverse_lookup : ℕ → ℕ
reverse_lookup c =
    if within 65 90 c
    then c - 65
    else if within 97 122 c
    then c - 97 + 26
    else if within 48 57 c
    then c - 48 + 52
    else if c == 43
    then 62
    else if c == 47
    then 63
    else if c == 61
    then padding
    else invalid

unfoldable pub lookup : ℕ → ℕ
lookup a =
    if ltb a 26
    then 65 + a
    else if ltb a 52
    then 97 + (a - 26)
    else if ltb a 62
    then 48 + (a - 52)
    else if a == 62
    then 43
    else 47

-- `x & bit` as a condition.
abbrev pub has : ℕ → ℕ → Bool
has bit x = not (bit_and x bit == 0)

-- The three bytes of four groups of six bits.
unfoldable pub three_bytes : ℕ → ℕ → ℕ → ℕ → List ℕ
three_bytes a b c d =
    let v = bit_or (bit_or (bit_or (a * 2 ^ 18) (b * 2 ^ 12)) (c * 2 ^ 6)) d in
    bit_and (v / 2 ^ 16) 0xff ∷ bit_and (v / 2 ^ 8) 0xff ∷ bit_and v 0xff ∷ []

-- One turn of the loop of `base64_decode`, on looked up characters: the bytes, and how many of them the
-- padding stands for. `last` is `i + 4 == len`.
unfoldable pub decode_group : Bool → ℕ → ℕ → ℕ → ℕ → Option (List ℕ × ℕ)
unfolding three_bytes
decode_group last a b c d =
    let u = bit_or (bit_or (bit_or a b) c) d in
    if has invalid u
    then none
    else if has padding u
    then if not last || has padding (bit_or a b) || (has padding c && not (has padding d))
      then none
      else some (three_bytes a b (bit_and c 63) (bit_and d 63), if has padding c then 2 else 1)
    else some (three_bytes a b c d, 0)

abbrev pub is_empty : List ℕ → Bool
is_empty [] = true
is_empty (x ∷ xs) = false

abbrev pub add_group : List ℕ × ℕ → List ℕ × ℕ → List ℕ × ℕ
add_group (bytes, less) (more, less') = (bytes ++ more, less + less')

-- The loop of `base64_decode`.
unfoldable pub decode_groups : List ℕ → Option (List ℕ × ℕ)
unfolding decode_group reverse_lookup
decode_groups (s0 ∷ s1 ∷ s2 ∷ s3 ∷ rest) =
    Option.bind
      (decode_group (is_empty rest) (reverse_lookup s0) (reverse_lookup s1) (reverse_lookup s2)
        (reverse_lookup s3))
      (λ group. Option.map (add_group group) (decode_groups rest))
decode_groups _ = some ([], 0)

-- The buffer that is returned, with its NUL, and `*size`. `malloc` tells which sizes it serves.
unfoldable pub base64_decode : (ℕ → Bool) → List ℕ → Option (List ℕ × ℕ)
unfolding decode_groups
base64_decode malloc s =
    let len = length s in
    if not (len % 4 == 0)
    then none
    else if malloc (len / 4 * 3 + 1)
    then Option.map (λ (bytes, less). (bytes ++ 0 ∷ [], len / 4 * 3 - less)) (decode_groups s)
    else none

-- One turn of the loop of `base64_encode`.
unfoldable pub encode_group : ℕ → ℕ → ℕ → List ℕ
unfolding lookup
encode_group x y z =
    let v = bit_or (bit_or (x * 2 ^ 16) (y * 2 ^ 8)) z in
    lookup (bit_and (v / 2 ^ 18) 0x3f)
    ∷ lookup (bit_and (v / 2 ^ 12) 0x3f)
    ∷ lookup (bit_and (v / 2 ^ 6) 0x3f)
    ∷ lookup (bit_and v 0x3f)
    ∷ []

unfoldable pub encode_groups : List ℕ → List ℕ
unfolding encode_group
encode_groups (x ∷ y ∷ z ∷ rest) = encode_group x y z ++ encode_groups rest
encode_groups _ = []

unfoldable pub base64_encode : (ℕ → Bool) → List ℕ → Option (List ℕ)
unfolding encode_groups
base64_encode malloc bytes =
    if not (length bytes % 3 == 0)
    then none
    else if malloc (length bytes / 3 * 4 + 1)
    then some (encode_groups bytes ++ 0 ∷ [])
    else none

-- `base64_encode_final` for one and for two bytes; the code asserts that there are no others.
unfoldable pub base64_encode_final : List ℕ → List ℕ
unfolding lookup
base64_encode_final (x ∷ []) =
    let v = bit_or 0 (x * 2 ^ 16) in
    lookup (bit_and (v / 2 ^ 18) 0x3f) ∷ lookup (bit_and (v / 2 ^ 12) 0x3f) ∷ 61 ∷ 61 ∷ []
base64_encode_final (x ∷ y ∷ []) =
    let v = bit_or (bit_or 0 (x * 2 ^ 16)) (y * 2 ^ 8) in
    lookup (bit_and (v / 2 ^ 18) 0x3f)
    ∷ lookup (bit_and (v / 2 ^ 12) 0x3f)
    ∷ lookup (bit_and (v / 2 ^ 6) 0x3f)
    ∷ 61
    ∷ []
base64_encode_final _ = []
