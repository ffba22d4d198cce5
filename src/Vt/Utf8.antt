-- ===== src/Vt/Utf8.antt =====
-- The UTF-8 actions of vt.c, on `vt.utf8`.
use foot.Base.{ℕ, ◌*◌, ◌^◌, bit_and, bit_or}

unfoldable pub action_utf8_21 : ℕ → ℕ
action_utf8_21 c = bit_and c 0x1f * 2 ^ 6

unfoldable pub action_utf8_31 : ℕ → ℕ
action_utf8_31 c = bit_and c 0x0f * 2 ^ 12

unfoldable pub action_utf8_41 : ℕ → ℕ
action_utf8_41 c = bit_and c 0x07 * 2 ^ 18

-- `vt.utf8 |= (c & 0x3f) << shift`, which all the later bytes do.
unfoldable pub or_continuation : ℕ → ℕ → ℕ → ℕ
or_continuation shift c wc = bit_or wc (bit_and c 0x3f * 2 ^ shift)
