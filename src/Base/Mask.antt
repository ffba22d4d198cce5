-- ===== src/Base/Mask.antt =====
-- Masks: `x & (n - 1)` is `x % n` where `n` is a power of two, for the unsigned and for the signed
-- numbers (in two's complement). The bit operations of the native numbers have no laws of their
-- own at variables, so these follow from the digit recursion.
use Prim.Native.Nat.{
  ℕ, zero, suc, ◌+◌, ◌-◌, ◌*◌, ◌/◌, ◌%◌, ◌^◌, ◌≤◌, ◌<◌, min, max, bit_and, bit_or, digits,
  bit_and-bitwise, bit_or-bitwise,
}
use mathlib.Core.Path.{◌≡◌, refl, ap, sym, ◌∙◌}
use native.Mathlib.Omega.{arith}
use native.Mathlib.Nat.{pow-suc, mod-lt, mod-eq_of_lt, add-mul-mod_self_left, div-add-mod}
use foot.Base.Int.{ℤ, pos, negsuc}

-- An operation that works digit by digit: `join` on two digits, and `rest` of the second operand once
-- the first has no digits left.
module _ (rest : ℕ → ℕ) (join : ℕ → ℕ → ℕ) where
  no_digits : (fuel y : ℕ) → digits rest join fuel 0 y ≡ rest y
  no_digits zero y = refl
  no_digits (suc fuel) y = refl

  -- Any two amounts of fuel that are enough give the same.
  digits_agree :
      (x y fuel fuel' : ℕ)
      → x ≤ fuel
      → x ≤ fuel'
      → digits rest join fuel x y ≡ digits rest join fuel' x y
  digits_agree zero y fuel fuel' h h' = no_digits fuel y ∙ sym (no_digits fuel' y)
  digits_agree (suc x) y zero fuel' h h' = absurd (omega arith)
  digits_agree (suc x) y (suc fuel) zero h h' = absurd (omega arith)
  digits_agree (suc x) y (suc fuel) (suc fuel') h h' =
      ap (λ k. k * 2 + join (suc x % 2) (y % 2))
        (digits_agree (suc x / 2) (y / 2) fuel fuel' (omega arith) (omega arith))

  module _ (op : ℕ → ℕ → ℕ) (op_digits : (x y : ℕ) → op x y ≡ digits rest join x x y)
      (rest_digit : (y : ℕ) → rest y ≡ rest (y / 2) * 2 + join 0 (y % 2)) where
    op_zero : (y : ℕ) → op 0 y ≡ rest y
    op_zero y = op_digits 0 y

    lowest_digit : (x y : ℕ) → op x y ≡ op (x / 2) (y / 2) * 2 + join (x % 2) (y % 2)
    lowest_digit zero y =
        op_zero y ∙ rest_digit y ∙ ap (λ k. k * 2 + join 0 (y % 2)) (sym (op_zero (y / 2)))
    lowest_digit (suc x) y =
        op_digits (suc x) y
        ∙ ap (λ k. k * 2 + join (suc x % 2) (y % 2))
            (digits_agree (suc x / 2) (y / 2) x (suc x / 2) (omega arith) (omega arith)
              ∙ sym (op_digits (suc x / 2) (y / 2)))

    -- The operation on 0 from the right, where it is known on digits.
    right_zero :
        (value : ℕ → ℕ)
        → rest 0 ≡ value 0
        → ((x : ℕ) → value (x / 2) * 2 + join (x % 2) 0 ≡ value x)
        → (bound x : ℕ) → x ≤ bound
        → op x 0 ≡ value x
    right_zero value base digit bound zero h = op_zero 0 ∙ base
    right_zero value base digit zero (suc x) h = absurd (omega arith)
    right_zero value base digit (suc bound) (suc x) h =
        lowest_digit (suc x) 0
        ∙ ap (λ k. k * 2 + join (suc x % 2) 0)
            (right_zero value base digit bound (suc x / 2) (omega arith))
        ∙ digit (suc x)

and_lowest : (x y : ℕ) → bit_and x y ≡ bit_and (x / 2) (y / 2) * 2 + min (x % 2) (y % 2)
and_lowest = lowest_digit (λ y. zero) min bit_and bit_and-bitwise (λ y. omega arith)

and_right_zero : (x : ℕ) → bit_and x 0 ≡ 0
and_right_zero x =
    right_zero (λ y. zero) min bit_and bit_and-bitwise (λ y. omega arith) (λ x. 0) refl
      (λ x. omega arith) x x (omega arith)

or_lowest : (x y : ℕ) → bit_or x y ≡ bit_or (x / 2) (y / 2) * 2 + max (x % 2) (y % 2)
or_lowest = lowest_digit (λ y. y) max bit_or bit_or-bitwise (λ y. omega arith)

or_right_zero : (x : ℕ) → bit_or x 0 ≡ x
or_right_zero x =
    right_zero (λ y. y) max bit_or bit_or-bitwise (λ y. omega arith) (λ x. x) refl
      (λ x. omega arith) x x (omega arith)

two_pow_pos : (k : ℕ) → 0 < 2 ^ k
two_pow_pos zero = omega arith
two_pow_pos (suc k) = omega (arith, pow-suc 2 k, two_pow_pos k)

-- One digit of a remainder by an even number.
mod-double : (p a : ℕ) → 0 < p → (a / 2 % p) * 2 + a % 2 ≡ a % (p * 2)
mod-double p a h =
    sym (mod-eq_of_lt {n = r * 2 + a % 2} {m = p * 2} small)
    ∙ sym (add-mul-mod_self_left (r * 2 + a % 2) (p * 2) (a / 2 / p))
    ∙ ap (λ x. x % (p * 2)) whole
  where
    r : ℕ
    r = a / 2 % p

    small : r * 2 + a % 2 < p * 2
    small = omega (arith, mod-lt (a / 2) {m = p} h)

    whole : r * 2 + a % 2 + p * 2 * (a / 2 / p) ≡ a
    whole = omega (arith, div-add-mod (a / 2) p)

-- A mask of `k` ones keeps the remainder by `2 ^ k`.
pub bit_and-mask : (k a : ℕ) → bit_and a (2 ^ k - 1) ≡ a % 2 ^ k
bit_and-mask zero a = and_right_zero a ∙ omega arith
bit_and-mask (suc k) a = rw (pow-suc 2 k) (
    omega (
      arith,
      and_lowest a (2 ^ k * 2 - 1),
      ap (bit_and (a / 2)) half,
      bit_and-mask k (a / 2),
      mod-double (2 ^ k) a (two_pow_pos k),
      two_pow_pos k,
    ))
  where
    half : (2 ^ k * 2 - 1) / 2 ≡ 2 ^ k - 1
    half = omega (arith, two_pow_pos k)

-- Where the bits do not overlap, `|` is `+`.
pub bit_or-disjoint : (k a b : ℕ) → b < 2 ^ k → bit_or (a * 2 ^ k) b ≡ a * 2 ^ k + b
bit_or-disjoint zero a b h =
    let e : b ≡ 0 = omega arith in rw e (omega (arith, or_right_zero (a * 2 ^ 0)))
bit_or-disjoint (suc k) a b h = rw (pow-suc 2 k) (
    omega (
      arith,
      or_lowest (a * (2 ^ k * 2)) b,
      ap (λ x. bit_or x (b / 2)) (let e : a * (2 ^ k * 2) / 2 ≡ a * 2 ^ k = omega arith in e),
      bit_or-disjoint k a (b / 2) (omega (arith, pow-suc 2 k)),
    ))

-- The mask of a power of two, on a number of any sign: `~n & m` is `m - (n & m)`.
unfoldable pub and_mask : ℤ → ℕ → ℕ
and_mask (pos a) n = bit_and a (n - 1)
and_mask (negsuc a) n = n - 1 - bit_and a (n - 1)
