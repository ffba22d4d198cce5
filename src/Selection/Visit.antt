-- ===== src/Selection/Visit.antt =====
-- The walks over the cells of a selection: `foreach_selected*` of selection.c. The callback works on
-- a state of its own, and tells whether to go on.
use foot.Base.{
  ℕ, zero, suc, ◌+◌, ◌-◌, min, max, Bool, true, Option, none, some, ltb, ◌==◌, if◌then◌else◌,
}
use foot.Base.Int.{ℤ, pos}
use foot.Base.Mask.{and_mask}
use foot.Grid.{Ring, grid_row_abs_to_sb}

-- A row is -1 where there is no selection; the column, which is -1 then too, is not read.
pub record Coord : Type 0 where
  pub col : ℕ
  pub row : ℤ

pub record Range : Type 0 where
  pub start : Coord
  pub end : Coord

pub data SelectionKind : Type 0 where
  selection_none selection_char_wise selection_word_wise selection_quote_wise : SelectionKind
  selection_line_wise selection_block : SelectionKind

module _ {S : Type 0} (cb : S → ℕ → ℕ → Bool × S) where
  -- `count` columns of row `r` from column `c` on.
  unfoldable pub visit_cols : ℕ → ℕ → ℕ → S → Bool × S
  visit_cols zero r c st = (true, st)
  visit_cols (suc count) r c st =
      let out = cb st r c in
      let rest = visit_cols count r (c + 1) out.1 in if out.0 then rest else out

  module _ {R : Type 0} (g : Ring R) (cols : ℕ) where
    -- The loop over the rows, and the last, partial row. `none` means that the fuel has run out.
    unfoldable pub visit_rows : ℕ → ℕ → ℕ → ℕ → ℕ → S → Option (Bool × S)
    unfolding visit_cols
    visit_rows zero r start_col end_row end_col st = none
    visit_rows (suc fuel) r start_col end_row end_col st =
        let out = visit_cols (cols - start_col) r start_col st in
        let rest = visit_rows fuel (and_mask (pos (r + 1)) g.num_rows) 0 end_row end_col out.1 in
        if r == end_row
        then some (visit_cols (end_col + 1 - start_col) r start_col st)
        else if out.0
        then rest
        else some out

    -- The rows of a block, the last one included.
    unfoldable pub visit_block : ℕ → ℕ → ℕ → ℕ → ℕ → S → Option (Bool × S)
    unfolding visit_cols
    visit_block zero r left bottom right st = none
    visit_block (suc fuel) r left bottom right st =
        let out = visit_cols (right + 1 - left) r left st in
        let rest = visit_block fuel (and_mask (pos (r + 1)) g.num_rows) left bottom right out.1 in
        if out.0 then if r == bottom then some out else rest else some out

  module _ {R : Type 0} (g : Ring R) (rows cols : ℕ) where
    -- One turn of the ring is enough fuel.
    unfoldable pub foreach_selected_normal : Coord → Coord → S → Option (Bool × S)
    unfolding visit_rows
    foreach_selected_normal start end st =
        let rel_start_row = grid_row_abs_to_sb g rows start.row in
        let rel_end_row = grid_row_abs_to_sb g rows end.row in
        let start_row = and_mask start.row g.num_rows in
        let end_row = and_mask end.row g.num_rows in
        if ltb rel_start_row rel_end_row
        then visit_rows g cols g.num_rows start_row start.col end_row end.col st
        else if ltb rel_end_row rel_start_row
        then visit_rows g cols g.num_rows end_row end.col start_row start.col st
        else visit_rows g cols g.num_rows start_row (min start.col end.col) start_row
            (max start.col end.col) st

    unfoldable pub foreach_selected_block : Coord → Coord → S → Option (Bool × S)
    unfolding visit_block
    foreach_selected_block start end st =
        let rel_start_row = grid_row_abs_to_sb g rows start.row in
        let rel_end_row = grid_row_abs_to_sb g rows end.row in
        let top =
          and_mask (if ltb rel_start_row rel_end_row then start.row else end.row) g.num_rows in
        let bottom =
          and_mask (if ltb rel_end_row rel_start_row then start.row else end.row) g.num_rows in
        visit_block g cols g.num_rows top (min start.col end.col) bottom (max start.col end.col) st

    -- Without a kind the code stops with `BUG`.
    unfoldable pub foreach_selected : SelectionKind → Coord → Coord → S → Option (Bool × S)
    unfolding foreach_selected_normal foreach_selected_block
    foreach_selected selection_none start end st = none
    foreach_selected selection_block start end st = foreach_selected_block start end st
    foreach_selected _ start end st = foreach_selected_normal start end st
