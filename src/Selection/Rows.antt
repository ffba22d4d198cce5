-- ===== src/Selection/Rows.antt =====
-- The scrollback relative numbers of the rows of a selection, in closed form.
use native.Mathlib.Nat.{mod-eq_of_lt, mod-add-mod, add-mod_right, mod-lt}
use foot.Base.{ℕ, ◌+◌, ◌-◌, ◌%◌, ◌≤◌, ◌<◌, ◌≡◌, ◌≢◌, refl, sym, ap, ◌∙◌, arith}
use foot.Base.Int.{ℤ, pos}
use foot.Base.Mask.{and_mask}
use foot.Grid.{Ring, grid_row_abs_to_sb, grid_row_sb_to_abs, grid_row_abs_to_sb_precalc_sb_start}
use foot.Grid.Coords.{IsRing, and_mask-pos, to_sb, to_abs, sb-abs_inverse}

module _ {R : Type 0} (g : Ring R) (v : IsRing g) where
  pub mask_row : (a : ℕ) → and_mask (pos a) g.num_rows ≡ a % g.num_rows
  mask_row a = rw v.power (and_mask-pos v.bits a)

  pub num_rows-positive : 0 < g.num_rows
  num_rows-positive = omega (arith, v.offset_in)

  module _ (screen_rows : ℕ) (fits : screen_rows ≤ g.num_rows) where
    pub sb-small : (a : ℕ) → grid_row_abs_to_sb g screen_rows (pos a) < g.num_rows
    sb-small a = rw (to_sb g v screen_rows fits a) (mod-lt _ {m = g.num_rows} num_rows-positive)

    -- Back from a row number of any size to the row of the ring.
    pub abs-sb :
        (a : ℕ)
        → grid_row_sb_to_abs g screen_rows (pos (grid_row_abs_to_sb g screen_rows (pos a)))
          ≡ a % g.num_rows
    abs-sb a =
        rw (to_abs g v screen_rows fits, to_sb g v screen_rows fits a)
          (mod-add-mod (a + n + n - d) n d
            ∙ ap (λ x. x % n) back
            ∙ add-mod_right (a + n) n
            ∙ add-mod_right a n)
      where
        n : ℕ
        n = g.num_rows

        d : ℕ
        d = g.offset + screen_rows

        back : a + n + n - d + d ≡ a + n + n
        back = omega (arith, v.offset_in)

    -- The next row of the ring is the next one of the scrollback.
    pub abs-next :
        (s : ℕ)
        → and_mask (pos (grid_row_sb_to_abs g screen_rows (pos s) + 1)) g.num_rows
          ≡ grid_row_sb_to_abs g screen_rows (pos (s + 1))
    abs-next s =
        rw
          (
            mask_row (grid_row_sb_to_abs g screen_rows (pos s) + 1),
            to_abs g v screen_rows fits s,
            to_abs g v screen_rows fits (s + 1),
          )
          (mod-add-mod (s + d) g.num_rows 1 ∙ ap (λ x. x % g.num_rows) (omega arith))
      where
        d : ℕ
        d = g.offset + screen_rows

    pub abs-different :
        (s t : ℕ)
        → s < t
        → t < g.num_rows
        → grid_row_sb_to_abs g screen_rows (pos s) ≢ grid_row_sb_to_abs g screen_rows (pos t)
    abs-different s t h h' e =
        let same : s ≡ t =
          sym ((sb-abs_inverse g v screen_rows fits s (omega arith)).1)
          ∙ ap (λ x. grid_row_abs_to_sb g screen_rows (pos x)) e
          ∙ (sb-abs_inverse g v screen_rows fits t h').1 in
        omega (arith, same)

    pub precalc-sb :
        (r : ℤ)
        → grid_row_abs_to_sb_precalc_sb_start g (g.offset + screen_rows) r
          ≡ grid_row_abs_to_sb g screen_rows r
    unfolding grid_row_abs_to_sb_precalc_sb_start grid_row_abs_to_sb
    precalc-sb r = refl

    -- Row `i` of the screen counts from `num_rows - screen_rows` on.
    pub screen_row-sb :
        (i : ℕ)
        → i < screen_rows
        → grid_row_abs_to_sb g screen_rows (pos (i + g.offset)) ≡ g.num_rows - screen_rows + i
    screen_row-sb i h = rw (to_sb g v screen_rows fits (i + g.offset)) (
        ap (λ x. x % g.num_rows) whole
        ∙ add-mod_right (g.num_rows - screen_rows + i) g.num_rows
        ∙ mod-eq_of_lt (omega arith))
      where
        whole :
            i + g.offset + g.num_rows + g.num_rows - (g.offset + screen_rows)
            ≡ g.num_rows - screen_rows + i + g.num_rows
        whole = omega arith
