-- ===== src/Selection/Scrollback/Touches.antt =====
-- The test whether the selection touches the scrollback, before it is erased.
use native.Mathlib.Nat.{mod-eq_of_lt}
use foot.Base.{
  ℕ, ◌+◌, ◌-◌, ◌%◌, ◌<◌, ◌≡◌, ◌⊎◌, ◌↔◌, ◌∙◌, sym, ap, arith, Bool, true, leb, ◌&&◌, ◌||◌,
}
use foot.Base.Int.{pos}
use foot.Base.Mask.{and_mask}
use foot.Grid.{Ring, grid_row_abs_to_sb}
use foot.Grid.Coords.{IsRing, to_abs, sb-abs_inverse, and_mask-pos}
use foot.Selection.{bounded}
use foot.Selection.Scrollback.{scrollback_first, scrollback_last, touches_scrollback}
use foot.Selection.Scrollback.Places.{first_place, last_place}

-- The code's three conditions, with the scrollback from 0 to `last`.
abbrev meets : ℕ → ℕ → ℕ → ℕ → Bool
meets first last a b =
    (leb a first && leb first b) || (leb a last && leb last b) || (leb first a && leb b last)

meets_either : (last n a b : ℕ) → (last + 1 ≡ n) → (meets 0 last a b ≡ true) ↔ ((a < n) ⊎ (b < n))
meets_either last n a b h = ground arith

module _ {R : Type 0} (g : Ring R) (v : IsRing g) (screen_rows : ℕ)
    (room : screen_rows < g.num_rows) where
  first-sb : grid_row_abs_to_sb g screen_rows (pos (scrollback_first g screen_rows)) ≡ 0
  first-sb =
      ap (λ a. grid_row_abs_to_sb g screen_rows (pos a))
        (first_place g v screen_rows
          ∙ sym (to_abs g v screen_rows (omega arith) 0 ∙ ap (λ x. x % g.num_rows) (omega arith)))
      ∙ (sb-abs_inverse g v screen_rows (omega arith) 0 (omega arith)).1

  last-sb :
      grid_row_abs_to_sb g screen_rows (pos (scrollback_last g)) ≡ g.num_rows - screen_rows - 1
  last-sb =
      let s = g.num_rows - screen_rows - 1 in
      ap (λ a. grid_row_abs_to_sb g screen_rows (pos a))
        (last_place g v
          ∙ sym (to_abs g v screen_rows (omega arith) s ∙ ap (λ x. x % g.num_rows) (omega arith)))
      ∙ (sb-abs_inverse g v screen_rows (omega arith) s (omega arith)).1

  -- Row `a` of the ring is above the screen.
  abbrev pub InScrollback : ℕ → Type 0
  InScrollback a = grid_row_abs_to_sb g screen_rows (pos a) < g.num_rows - screen_rows

  masked : (a : ℕ) → a < g.num_rows → and_mask (pos a) g.num_rows ≡ a
  masked a h =
      ap (and_mask (pos a)) v.power
      ∙ and_mask-pos v.bits a
      ∙ ap (λ n. a % n) (sym v.power)
      ∙ mod-eq_of_lt h

  -- On a ring whose size is a power of two and above the screen's, for a selection from row `a` to row
  -- `b` of the ring, in either direction, the test of `term_erase_scrollback` tells whether one of the
  -- two rows is in the scrollback.
  pub touches_scrollback-InScrollback :
      (a b col col' : ℕ)
      → a < g.num_rows
      → b < g.num_rows
      → (touches_scrollback g screen_rows (record {
        start = record { col = col; row = pos a };
        end = record { col = col'; row = pos b };
      })
          ≡ true)
        ↔ (InScrollback a ⊎ InScrollback b)
  unfolding touches_scrollback foot.Selection.selection_get
  touches_scrollback-InScrollback a b col col' ha hb =
      rw (masked a ha, masked b hb, first-sb, last-sb)
        (meets_either (g.num_rows - screen_rows - 1) (g.num_rows - screen_rows)
          (grid_row_abs_to_sb g screen_rows (pos a)) (grid_row_abs_to_sb g screen_rows (pos b))
          (omega arith))
