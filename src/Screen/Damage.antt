-- ===== src/Screen/Damage.antt =====
-- Damage: `term_damage_rows`, `term_damage_rows_in_view` and `term_damage_scroll` of terminal.c.
pub mod Redrawn
use foot.Base.{
  ℕ, zero, suc, ◌+◌, ◌-◌, ◌^◌, Bool, true, false, List, [], ◌∷◌, leb, ◌==◌, ◌&&◌, if◌then◌else◌,
  map,
}
use foot.Base.Int.{pos}
use mathlib.Core.Option
use foot.Grid.{Ring, grid_row_absolute, grid_row_absolute_in_view, row_at, set_row}
use foot.Screen.State.{
  Cell, Row, Region, DamageType, scroll, scroll_reverse, scroll_in_view, scroll_reverse_in_view,
  Damage, Screen,
}

abbrev pub damage_cell : Cell → Cell
damage_cell c = record c { attrs = record (c.attrs) { clean = false } }

module _ {X : Type 0} where
  abbrev pub damage_row : Row X → Row X
  damage_row r = record r { dirty = true; cells = map damage_cell r.cells }

  abbrev pub damage_at : ℕ → Ring (Row X) → Ring (Row X)
  damage_at i g = set_row g i (Option.map damage_row (row_at g i))

  -- `n` rows, from `start` on.
  unfoldable pub damage_rows : ℕ → ℕ → Ring (Row X) → Ring (Row X)
  damage_rows zero start g = g
  damage_rows (suc n) start g =
      damage_rows n (start + 1) (damage_at (grid_row_absolute g (pos start)) g)

  unfoldable pub damage_rows_in_view : ℕ → ℕ → Ring (Row X) → Ring (Row X)
  damage_rows_in_view zero start g = g
  damage_rows_in_view (suc n) start g =
      damage_rows_in_view n (start + 1) (damage_at (grid_row_absolute_in_view g (pos start)) g)

abbrev same_type : DamageType → DamageType → Bool
same_type scroll scroll = true
same_type scroll_reverse scroll_reverse = true
same_type scroll_in_view scroll_in_view = true
same_type scroll_reverse_in_view scroll_reverse_in_view = true
same_type _ _ = false

-- The newest damage takes the lines, if it is of the same kind and region and they fit.
unfoldable pub add_damage : Damage → List Damage → List Damage
add_damage d [] = d ∷ []
add_damage d (e ∷ ds) =
    if same_type e.type d.type
      && e.region.start == d.region.start
      && e.region.end == d.region.end
      && leb (e.lines + d.lines) (2 ^ 16 - 1)
    then record e { lines = e.lines + d.lines } ∷ ds
    else d ∷ e ∷ ds

module _ {X T : Type 0} where
  unfoldable pub term_damage_rows : ℕ → ℕ → Screen X T → Screen X T
  unfolding damage_rows
  term_damage_rows start end s = record s { ring = damage_rows (end + 1 - start) start s.ring }

  unfoldable pub term_damage_rows_in_view : ℕ → ℕ → Screen X T → Screen X T
  unfolding damage_rows_in_view
  term_damage_rows_in_view start end s = record s {
    ring = damage_rows_in_view (end + 1 - start) start s.ring;
  }

  unfoldable pub term_damage_view : Screen X T → Screen X T
  unfolding term_damage_rows_in_view
  term_damage_view s = term_damage_rows_in_view 0 (s.rows - 1) s

  -- `lines` is stored in a `uint16_t`.
  unfoldable pub term_damage_scroll : DamageType → Region → ℕ → Screen X T → Screen X T
  unfolding add_damage
  term_damage_scroll type region lines s = record s {
    scroll_damage =
        add_damage (record { type = type; region = region; lines = lines }) s.scroll_damage;
  }
