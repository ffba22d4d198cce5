-- ===== src/Csi/Edit.antt =====
-- Erasing, inserting and deleting: `term_erase` of terminal.c, and the control sequences of csi.c that use
-- it or scroll a part of the screen (ED, EL, IL, DL, DCH, ICH, ECH, SU, SD).
pub mod Wiped
pub mod Erase
pub mod Moved
pub mod Chars
mod Tests
use foot.Base.{
  ℕ, zero, suc, ◌+◌, ◌-◌, Bool, true, false, List, [], ◌∷◌, ◌++◌, Option, none, some, ltb, leb,
  ◌==◌, ◌||◌, if◌then◌else◌, min, take, drop, map,
}
use foot.Base.Int.{pos}
use mathlib.Core.Option
use foot.Grid.{Ring, grid_row_absolute, row_at, set_row}
use foot.Screen.State.{Row, Region, Screen, Hooks}
use foot.Screen.Row.{erase_cell_range, erase_line}
use foot.Screen.Damage.{damage_cell}
use foot.Screen.Scroll.{
  term_scroll_partial, term_scroll_reverse_partial, term_scroll, term_scroll_reverse,
}
use foot.Screen.Print.{on_cur_row}

-- What the sequences call besides: sixel.c, and `term_erase_scrollback`, which Selection.Scrollback models on
-- the selection and the rows.
pub record EraseHooks (X T : Type 0) : Type 0 where
  pub sixel_overwrite_by_row : ℕ → ℕ → ℕ → Screen X T → Screen X T
  pub sixel_overwrite_by_rectangle : ℕ → ℕ → ℕ → ℕ → Screen X T → Screen X T
  pub term_erase_scrollback : Screen X T → Screen X T

-- A change of the row that `grid_row` finds.
abbrev pub on_row : {X T : Type 0} → ℕ → (Row X → Row X) → Screen X T → Screen X T
on_row row f s =
    let i = grid_row_absolute s.ring (pos row) in
    record s { ring = set_row s.ring i (Option.map f (row_at s.ring i)) }

-- The erasing sequences end the pending wrap.
abbrev pub unwrapped : {X T : Type 0} → Screen X T → Screen X T
unwrapped s = record s { cursor = record (s.cursor) { lcf = false } }

module _ {X T : Type 0} (hooks : Hooks X T) (others : EraseHooks X T) where
  -- `erase_cell_range` on a row of the screen.
  abbrev pub erase_on_row : ℕ → ℕ → ℕ → Screen X T → Screen X T
  erase_on_row row start end s = on_row row (erase_cell_range hooks s.attrs start end) s

  -- The loop over `n` rows from `r` on.
  unfoldable pub erase_lines : ℕ → ℕ → Screen X T → Screen X T
  erase_lines zero r s = s
  erase_lines (suc n) r s = erase_lines n (r + 1) (on_row r (erase_line hooks s.attrs s.cols) s)

  -- The columns are those of the first row and of the last row, both included.
  unfoldable pub term_erase : ℕ → ℕ → ℕ → ℕ → Screen X T → Screen X T
  unfolding erase_lines
  term_erase start_row start_col end_row end_col s =
      if start_row == end_row
      then others.sixel_overwrite_by_row start_row start_col (end_col + 1 - start_col)
          (erase_on_row start_row start_col end_col s)
      else (let first =
            others.sixel_overwrite_by_row start_row start_col (s.cols - start_col)
              (erase_on_row start_row start_col (s.cols - 1) s) in
          let middle =
            others.sixel_overwrite_by_rectangle (start_row + 1) 0 (end_row - start_row) first.cols
              (erase_lines (end_row - (start_row + 1)) (start_row + 1) first) in
          others.sixel_overwrite_by_row end_row 0 (end_col + 1)
            (erase_on_row end_row 0 end_col middle))

  -- ED.
  unfoldable pub erase_display : ℕ → Screen X T → Screen X T
  unfolding term_erase
  erase_display zero s =
      unwrapped (term_erase s.cursor.row s.cursor.col (s.rows - 1) (s.cols - 1) s)
  erase_display (suc zero) s = unwrapped (term_erase 0 0 s.cursor.row s.cursor.col s)
  erase_display (suc (suc zero)) s = unwrapped (term_erase 0 0 (s.rows - 1) (s.cols - 1) s)
  erase_display (suc (suc (suc zero))) s = others.term_erase_scrollback s
  erase_display param s = s

  -- EL.
  unfoldable pub erase_in_line : ℕ → Screen X T → Screen X T
  unfolding term_erase
  erase_in_line zero s =
      unwrapped (term_erase s.cursor.row s.cursor.col s.cursor.row (s.cols - 1) s)
  erase_in_line (suc zero) s = unwrapped (term_erase s.cursor.row 0 s.cursor.row s.cursor.col s)
  erase_in_line (suc (suc zero)) s =
      unwrapped (term_erase s.cursor.row 0 s.cursor.row (s.cols - 1) s)
  erase_in_line param s = s

  -- ECH. `param` is what `vt_param_get` answers, one at least, as in DCH and ICH.
  unfoldable pub erase_chars : ℕ → Screen X T → Screen X T
  unfolding term_erase
  erase_chars param s =
      let count = min param (s.cols - s.cursor.col) in
      unwrapped (term_erase s.cursor.row s.cursor.col s.cursor.row (s.cursor.col + count - 1) s)

  -- DCH. The cells that move are marked.
  unfoldable pub delete_chars : ℕ → Screen X T → Screen X T
  unfolding term_erase
  delete_chars param s =
      let count = min param (s.cols - s.cursor.col) in
      let remaining = s.cols - (s.cursor.col + count) in
      let moved =
        on_cur_row
          (λ r. record r {
            dirty = true;
            cells =
                take s.cursor.col r.cells
                ++ map damage_cell (take remaining (drop (s.cursor.col + count) r.cells))
                ++ drop (s.cursor.col + remaining) r.cells;
          })
          s in
      unwrapped (term_erase s.cursor.row (s.cursor.col + remaining) s.cursor.row (s.cols - 1) moved)

  -- ICH.
  unfoldable pub insert_chars : ℕ → Screen X T → Screen X T
  unfolding term_erase
  insert_chars param s =
      let count = min param (s.cols - s.cursor.col) in
      let remaining = s.cols - (s.cursor.col + count) in
      let moved =
        on_cur_row
          (λ r. record r {
            dirty = true;
            cells =
                take (s.cursor.col + count) r.cells
                ++ map damage_cell (take remaining (drop s.cursor.col r.cells))
                ++ drop s.cols r.cells;
          })
          s in
      unwrapped (term_erase s.cursor.row s.cursor.col s.cursor.row (s.cursor.col + count - 1) moved)

  abbrev pub outside_region : Screen X T → Bool
  outside_region s = ltb s.cursor.row s.region.start || leb s.region.end s.cursor.row

  abbrev pub first_column : Screen X T → Screen X T
  first_column s = record s { cursor = record (s.cursor) { col = 0; lcf = false } }

  -- IL.
  unfoldable pub insert_lines : ℕ → Screen X T → Screen X T
  unfolding term_scroll_reverse_partial
  insert_lines param s =
      if outside_region s
      then s
      else first_column (
          term_scroll_reverse_partial hooks (record { start = s.cursor.row; end = s.region.end })
            (min param (s.region.end - s.cursor.row)) s)

  -- DL.
  unfoldable pub delete_lines : ℕ → Screen X T → Screen X T
  unfolding term_scroll_partial
  delete_lines param s =
      if outside_region s
      then s
      else first_column (
          term_scroll_partial hooks (record { start = s.cursor.row; end = s.region.end })
            (min param (s.region.end - s.cursor.row)) s)

  -- SU and SD.
  unfoldable pub scroll_up : ℕ → Screen X T → Screen X T
  unfolding term_scroll
  scroll_up param s = term_scroll hooks (min param (s.region.end - s.region.start)) s

  unfoldable pub scroll_down : ℕ → Screen X T → Screen X T
  unfolding term_scroll_reverse
  scroll_down param s = term_scroll_reverse hooks (min param (s.region.end - s.region.start)) s
