-- ===== src/Grid/Coords.antt =====
-- Absolute and scrollback relative row numbers of grid.c are each other's inverse, and count from
-- the row behind the screen.
use native.Mathlib.Nat.{mod-eq_of_lt, mod-add-mod, add-mod_right}
use foot.Base.{
  ℕ, ◌+◌, ◌-◌, ◌%◌, ◌^◌, ◌≤◌, ◌<◌, ◌≡◌, sym, ap, ◌∙◌, arith, leb, leb→le, false, Bool-cases, inl,
  inr, length,
}
use foot.Base.Int.{pos, ◌+ℤ◌, ◌-ℤ◌, sub_ℕ}
use foot.Base.Mask.{and_mask, bit_and-mask}
use foot.Grid.{Ring, grid_row_absolute, grid_row_abs_to_sb, grid_row_sb_to_abs}

-- A ring whose size is a power of two, and whose offset lies in it.
pub record IsRing {R : Type 0} (g : Ring R) : Type 0 where
  pub bits : ℕ
  pub power : g.num_rows ≡ 2 ^ bits
  pub sized : length g.rows ≡ g.num_rows
  pub offset_in : g.offset < g.num_rows
  pub view_in : g.view < g.num_rows

-- `x & (n - 1)` of a difference that is not below `-n`.
pub and_mask-sub :
    (k a b : ℕ) → b ≤ a + 2 ^ k → and_mask (sub_ℕ a b) (2 ^ k) ≡ (a + 2 ^ k - b) % 2 ^ k
unfolding and_mask
and_mask-sub k a b h = elim (Bool-cases (leb b a)) [
  | inl e ↦ rw e (
      bit_and-mask k (a - b)
      ∙ sym (add-mod_right (a - b) (2 ^ k))
      ∙ ap (λ x. x % 2 ^ k) (omega (arith, leb→le _ _ e)))
  | inr e ↦ rw e (
      ap (λ x. 2 ^ k - 1 - x) (bit_and-mask k (b - a - 1) ∙ mod-eq_of_lt (small e))
      ∙ rest e
      ∙ sym (mod-eq_of_lt (small' e)))
]
  where
    below : leb b a ≡ false → a < b
    below e = ground arith

    small : leb b a ≡ false → b - a - 1 < 2 ^ k
    small e = omega (arith, below e)

    small' : leb b a ≡ false → a + 2 ^ k - b < 2 ^ k
    small' e = omega (arith, below e)

    rest : leb b a ≡ false → 2 ^ k - 1 - (b - a - 1) ≡ a + 2 ^ k - b
    rest e = omega (arith, below e)

pub and_mask-pos : (k a : ℕ) → and_mask (pos a) (2 ^ k) ≡ a % 2 ^ k
unfolding and_mask
and_mask-pos k a = bit_and-mask k a

-- The differences that the code takes, as one subtraction.
sub_add : (a b n : ℕ) → pos a -ℤ pos b +ℤ pos n ≡ sub_ℕ (a + n) b
unfolding ◌-ℤ◌ ◌+ℤ◌
sub_add a b n = ground arith

pub add_sub : (o i n : ℕ) → pos o +ℤ (pos i -ℤ pos n) ≡ sub_ℕ (o + i) n
unfolding ◌-ℤ◌ ◌+ℤ◌
add_sub o i n = ground arith

pub sub_pos : (a b : ℕ) → pos a -ℤ pos b ≡ sub_ℕ a b
unfolding ◌-ℤ◌
sub_pos a b = ground arith

pub add_pos : (a b : ℕ) → pos a +ℤ pos b ≡ pos (a + b)
unfolding ◌+ℤ◌
add_pos a b = ground arith

module _ {R : Type 0} (g : Ring R) (v : IsRing g) where
  -- A row number on the screen, below a row number that is not negative.
  pub row-lower :
      (i n : ℕ)
      → n ≤ g.num_rows
      → grid_row_absolute g (pos i -ℤ pos n) ≡ (g.offset + i + g.num_rows - n) % g.num_rows
  unfolding grid_row_absolute
  row-lower i n h =
      rw (v.power, add_sub g.offset i n)
        (and_mask-sub v.bits (g.offset + i) n (omega (arith, v.power)))

  pub row-pos : (i : ℕ) → grid_row_absolute g (pos i) ≡ (g.offset + i) % g.num_rows
  unfolding grid_row_absolute
  row-pos i = rw (v.power, add_pos g.offset i) (and_mask-pos v.bits (g.offset + i))

  module _ (screen_rows : ℕ) (fits : screen_rows ≤ g.num_rows) where
    pub to_sb :
        (a : ℕ)
        → grid_row_abs_to_sb g screen_rows (pos a)
          ≡ (a + g.num_rows + g.num_rows - (g.offset + screen_rows)) % g.num_rows
    unfolding grid_row_abs_to_sb
    to_sb a =
        rw (v.power, sub_add a (g.offset + screen_rows) (2 ^ v.bits))
          (and_mask-sub v.bits (a + 2 ^ v.bits) (g.offset + screen_rows)
            (omega (arith, v.power, v.offset_in)))

    pub to_abs :
        (s : ℕ)
        → grid_row_sb_to_abs g screen_rows (pos s) ≡ (s + (g.offset + screen_rows)) % g.num_rows
    unfolding grid_row_sb_to_abs
    to_abs s = rw (v.power, add_pos s (g.offset + screen_rows)) (and_mask-pos v.bits _)

drop_two : (x n : ℕ) → x < n → (x + n + n) % n ≡ x
drop_two x n h = add-mod_right (x + n) n ∙ add-mod_right x n ∙ mod-eq_of_lt h

module _ {R : Type 0} (g : Ring R) (v : IsRing g) (screen_rows : ℕ)
    (fits : screen_rows ≤ g.num_rows) where
  -- On a ring whose size is a power of two, and which is not smaller than the screen, the conversions
  -- between absolute and scrollback relative row numbers undo one another, in both directions.
  pub sb-abs_inverse :
      (r : ℕ)
      → r < g.num_rows
      → (grid_row_sb_to_abs g screen_rows (pos (grid_row_abs_to_sb g screen_rows (pos r))) ≡ r)
        × (grid_row_abs_to_sb g screen_rows (pos (grid_row_sb_to_abs g screen_rows (pos r))) ≡ r)
  sb-abs_inverse r h = (
    rw (to_abs g v screen_rows fits, to_sb g v screen_rows fits r)
        (mod-add-mod (r + n + n - d) n d ∙ ap (λ x. x % n) back ∙ drop_two r n h),
    rw (to_sb g v screen_rows fits, to_abs g v screen_rows fits r)
        (ap (λ x. x % n) forth
          ∙ mod-add-mod (r + d) n (n + n - d)
          ∙ ap (λ x. x % n) back'
          ∙ drop_two r n h),
  )
    where
      n : ℕ
      n = g.num_rows

      d : ℕ
      d = g.offset + screen_rows

      back : r + n + n - d + d ≡ r + n + n
      back = omega (arith, v.offset_in)

      forth : (r + d) % n + n + n - d ≡ (r + d) % n + (n + n - d)
      forth = omega (arith, v.offset_in)

      back' : r + d + (n + n - d) ≡ r + n + n
      back' = omega (arith, v.offset_in)

  -- Row `i` of the screen has the scrollback relative number `num_rows - screen_rows + i`: the screen
  -- is the end of the scrollback, in order, and its last row has the highest number of all.
  pub screen-sb :
      (i : ℕ)
      → i < screen_rows
      → grid_row_abs_to_sb g screen_rows (pos (grid_row_absolute g (pos i)))
        ≡ g.num_rows - screen_rows + i
  screen-sb i h =
      rw (to_sb g v screen_rows fits, row-pos g v i)
        (ap (λ x. x % n) forth
          ∙ mod-add-mod (g.offset + i) n (n + n - d)
          ∙ ap (λ x. x % n) back
          ∙ add-mod_right (n - screen_rows + i) n
          ∙ mod-eq_of_lt (omega arith))
    where
      n : ℕ
      n = g.num_rows

      d : ℕ
      d = g.offset + screen_rows

      forth : (g.offset + i) % n + n + n - d ≡ (g.offset + i) % n + (n + n - d)
      forth = omega (arith, v.offset_in)

      back : g.offset + i + (n + n - d) ≡ n - screen_rows + i + n
      back = omega (arith, v.offset_in)
