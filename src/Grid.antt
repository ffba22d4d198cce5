-- ===== src/Grid.antt =====
-- grid.c and grid.h: the ring of rows, and the coordinates of its rows.
pub mod Coords
pub mod Start
pub mod Tests
use foot.Base.{
  ℕ, zero, suc, ◌+◌, ◌-◌, Bool, true, false, List, Option, none, some, get_or, set, if◌then◌else◌,
}
use foot.Base.Int.{ℤ, pos, negsuc, ◌+ℤ◌, ◌-ℤ◌}
use foot.Base.Mask.{and_mask}

-- The ring of rows of `struct grid`. A row that is not allocated is `none`.
pub record Ring (R : Type 0) : Type 0 where
  pub num_rows : ℕ
  pub offset : ℕ
  pub view : ℕ
  pub rows : List (Option R)

module _ {R : Type 0} where
  -- `grid_row_absolute` and `grid_row_absolute_in_view`. A row number may be negative.
  unfoldable pub grid_row_absolute : Ring R → ℤ → ℕ
  grid_row_absolute g row_no = and_mask (pos g.offset +ℤ row_no) g.num_rows

  unfoldable pub grid_row_absolute_in_view : Ring R → ℤ → ℕ
  grid_row_absolute_in_view g row_no = and_mask (pos g.view +ℤ row_no) g.num_rows

  -- `rows[real_row]`.
  abbrev pub row_at : Ring R → ℕ → Option R
  row_at g real_row = get_or g.rows real_row none

  abbrev pub set_row : Ring R → ℕ → Option R → Ring R
  set_row g real_row r = record g { rows = set g.rows real_row r }

  -- `grid_row`.
  unfoldable pub grid_row : Ring R → ℤ → Option R
  unfolding grid_row_absolute
  grid_row g row_no = row_at g (grid_row_absolute g row_no)

  unfoldable pub grid_swap_row : ℤ → ℤ → Ring R → Ring R
  unfolding grid_row_absolute
  grid_swap_row row_a row_b g =
      let real_a = grid_row_absolute g row_a in
      let real_b = grid_row_absolute g row_b in
      let a = row_at g real_a in let b = row_at g real_b in set_row (set_row g real_a b) real_b a

  unfoldable pub grid_row_abs_to_sb : Ring R → ℕ → ℤ → ℕ
  grid_row_abs_to_sb g screen_rows abs_row =
      let scrollback_start = pos (g.offset + screen_rows) in
      and_mask (abs_row -ℤ scrollback_start +ℤ pos g.num_rows) g.num_rows

  unfoldable pub grid_row_sb_to_abs : Ring R → ℕ → ℤ → ℕ
  grid_row_sb_to_abs g screen_rows sb_rel_row =
      let scrollback_start = pos (g.offset + screen_rows) in
      and_mask (sb_rel_row +ℤ scrollback_start) g.num_rows

  unfoldable pub grid_row_abs_to_sb_precalc_sb_start : Ring R → ℕ → ℤ → ℕ
  grid_row_abs_to_sb_precalc_sb_start g sb_start abs_row =
      and_mask (abs_row -ℤ pos sb_start +ℤ pos g.num_rows) g.num_rows

  unfoldable pub grid_row_sb_to_abs_precalc_sb_start : Ring R → ℕ → ℤ → ℕ
  grid_row_sb_to_abs_precalc_sb_start g sb_start sb_rel_row =
      and_mask (sb_rel_row +ℤ pos sb_start) g.num_rows

  abbrev pub is_null : Option R → Bool
  is_null none = true
  is_null (some r) = false

  -- The loop of `grid_sb_start_ignore_uninitialized`, from a row of the ring. `none` means that the
  -- fuel has run out; the code has no bound of its own.
  unfoldable pub first_row : ℕ → ℕ → Ring R → Option ℕ
  first_row zero start g = none
  first_row (suc fuel) start g =
      let rest = first_row fuel (and_mask (pos (start + 1)) g.num_rows) g in
      if is_null (row_at g start) then rest else some start

  -- One turn of the ring is enough fuel.
  unfoldable pub grid_sb_start_ignore_uninitialized : Ring R → ℕ → Option ℕ
  unfolding first_row
  grid_sb_start_ignore_uninitialized g screen_rows =
      first_row g.num_rows (and_mask (pos (g.offset + screen_rows)) g.num_rows) g
