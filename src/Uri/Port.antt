-- ===== src/Uri/Port.antt =====
-- The port of a URI is its decimal digits, modulo 65536.

use foot.Base.{
  ℕ, ◌+◌, ◌-◌, ◌*◌, ◌%◌, ◌^◌, ◌≡◌, refl, ap, ◌∙◌, arith, true, List, [], ◌∷◌, some, within, All,
}
use foot.Uri.{port_digits}

-- A decimal number, behind the digits read so far.
abbrev pub decimal : ℕ → List ℕ → ℕ
decimal n [] = n
decimal n (c ∷ cs) = decimal (n * 10 + (c - b'0')) cs

abbrev pub AreDigits : List ℕ → Type 0
AreDigits = All (λ c. within b'0' b'9' c ≡ true)

-- For decimal digits the loop on a `uint16_t` never fails, and gives the decimal number modulo 2 ^ 16: a
-- port that is too large is not refused, it wraps around.
pub port_digits-decimal :
    (n : ℕ) (cs : List ℕ)
    → AreDigits cs
    → port_digits (n % 2 ^ 16) cs ≡ some (decimal n cs % 2 ^ 16)
unfolding port_digits
port_digits-decimal n [] a = refl
port_digits-decimal n (c ∷ cs) a =
    rw a.0 (ap (λ k. port_digits k cs) step ∙ port_digits-decimal (n * 10 + (c - b'0')) cs a.1)
  where
    step : (n % 2 ^ 16 * 10 % 2 ^ 16 + (c - b'0')) % 2 ^ 16 ≡ (n * 10 + (c - b'0')) % 2 ^ 16
    step = omega arith
