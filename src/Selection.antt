-- ===== src/Selection.antt =====
-- selection.c: the coordinates of the selection, its bookkeeping when rows scroll or the view moves,
-- and, in Selection.Visit, the walk over the selected cells.
mod Rows
pub mod Overlap
pub mod Scrolled
pub mod View
pub mod Walk
pub mod Cells
pub mod Scrollback
pub mod Tests
pub mod Visit
use foot.Base.{
  ℕ, ◌+◌, ◌-◌, min, max, Bool, true, false, Option, some, none, ltb, leb, ◌&&◌, ◌||◌, if◌then◌else◌,
  get_or, set,
}
use foot.Base.Int.{ℤ, pos, negsuc, ◌+ℤ◌, ltb_ℤ}
use foot.Base.Mask.{and_mask}
use mathlib.Core.Option
use foot.Grid.{Ring, row_at, set_row, grid_row_abs_to_sb, grid_row_abs_to_sb_precalc_sb_start}
use foot.Screen.State.{Cell, Row}
use foot.Screen.Row.{no_cell}
use foot.Selection.Visit.{Coord, Range, SelectionKind, selection_none, foreach_selected}

pub data SelectionDirection : Type 0 where
  undir left right : SelectionDirection

-- The fields of `selection` in `struct terminal` that this file's operations use.
pub record Selection : Type 0 where
  pub kind : SelectionKind
  pub direction : SelectionDirection
  pub coords : Range
  pub ongoing : Bool
  pub pivot : Range

-- The part of a terminal that a selection works on; `rest` is what other parts keep.
pub record Term (X T : Type 0) : Type 0 where
  pub ring : Ring (Row X)
  pub rows : ℕ
  pub cols : ℕ
  pub selection : Selection
  pub rest : T

-- What `selection_cancel` calls: the timer, the renderer and search.c.
pub record Calls (T : Type 0) : Type 0 where
  pub selection_stop_scroll_timer : T → T
  pub render_refresh : T → T
  pub search_selection_cancelled : T → T

abbrev pub is_negative : ℤ → Bool
is_negative (pos n) = false
is_negative (negsuc n) = true

abbrev pub no_coord : Coord
no_coord = record { col = 0; row = negsuc 0 }

abbrev pub no_range : Range
no_range = record { start = no_coord; end = no_coord }

module _ {R : Type 0} where
  abbrev pub bounded : Ring R → Coord → Coord
  bounded g c = record c { row = pos (and_mask c.row g.num_rows) }

  -- `selection_get_start` and `selection_get_end`, on one of the two coordinates.
  unfoldable pub selection_get : Ring R → Coord → Coord
  selection_get g c = if is_negative c.row then c else bounded g c

  unfoldable pub selection_on_rows : Ring R → ℕ → Range → ℤ → ℤ → Bool
  selection_on_rows g rows sel row_start row_end =
      let sb_start = g.offset + rows in
      let rel = grid_row_abs_to_sb_precalc_sb_start g sb_start in
      let rel_row_start = rel (row_start +ℤ pos g.offset) in
      let rel_row_end = rel (row_end +ℤ pos g.offset) in
      let a = rel sel.start.row in
      let b = rel sel.end.row in
      let rel_sel_start = if ltb b a then b else a in
      let rel_sel_end = if ltb b a then a else b in
      if leb rel_row_start rel_sel_start && leb rel_sel_start rel_row_end
        || leb rel_row_start rel_sel_end && leb rel_sel_end rel_row_end
      then true
      else leb rel_sel_start rel_row_start && leb rel_row_end rel_sel_end

  -- The conditions under which scrolling cancels the selection. `actual_start - rows < 0` is on `int`.
  unfoldable pub scrolls_out_above : Ring R → ℕ → Range → ℕ → Bool
  scrolls_out_above g screen_rows sel rows =
      let actual_start =
        min (grid_row_abs_to_sb g screen_rows sel.start.row)
          (grid_row_abs_to_sb g screen_rows sel.end.row) in
      ltb actual_start rows

  -- `actual_end > screen_end - rows`.
  unfoldable pub scrolls_out_below : Ring R → ℕ → Range → ℕ → Bool
  scrolls_out_below g screen_rows sel rows =
      let screen_end = grid_row_abs_to_sb g screen_rows (pos (g.offset + screen_rows - 1)) in
      let actual_end =
        max (grid_row_abs_to_sb g screen_rows sel.start.row)
          (grid_row_abs_to_sb g screen_rows sel.end.row) in
      ltb screen_end (actual_end + rows)

  unfoldable pub selection_view_up : Ring R → ℕ → Range → Range
  selection_view_up g new_view sel =
      if is_negative sel.start.row then sel else if ltb new_view g.view then sel else record {
        start = record (sel.start) { row = sel.start.row +ℤ pos g.num_rows };
        end =
            if is_negative sel.end.row
            then sel.end
            else record (sel.end) { row = sel.end.row +ℤ pos g.num_rows };
      }

  unfoldable pub selection_view_down : Ring R → ℕ → Range → Range
  selection_view_down g new_view sel =
      if is_negative sel.start.row then sel else if ltb g.view new_view then sel else record {
        start = bounded g sel.start;
        end = if is_negative sel.end.row then sel.end else bounded g sel.end;
      }

module _ {X : Type 0} where
  -- On the cells of the grid: the row is marked as dirty where a cell was selected.
  unfoldable pub unmark_selected : Ring (Row X) → ℕ → ℕ → Bool × Ring (Row X)
  unmark_selected g row_no col = elim (row_at g row_no) [
    | none ↦ (true, g)
    | some row ↦
        let cell = get_or row.cells col no_cell in
        if cell.attrs.selected
        then (
          true,
          set_row g row_no (
              some (record row {
                dirty = true;
                cells = set row.cells col (record cell {
                  attrs = record (cell.attrs) { selected = false; clean = false };
                });
              })),
        )
        else (true, g)
  ]

module _ {X T : Type 0} (calls : Calls T) where
  abbrev pub unmarked : Term X T → Term X T
  unmarked t =
      if is_negative t.selection.coords.start.row || is_negative t.selection.coords.end.row
      then t
      else record t {
        ring =
            elim (foreach_selected unmark_selected t.ring t.rows t.cols t.selection.kind
              t.selection.coords.start t.selection.coords.end t.ring) [
                | none ↦ t.ring
                | some out ↦ out.1
              ];
        rest = calls.render_refresh t.rest;
      }

  unfoldable pub selection_cancel : Term X T → Term X T
  unfolding foreach_selected unmark_selected
  selection_cancel t =
      let t' = unmarked (record t { rest = calls.selection_stop_scroll_timer t.rest }) in
      record t' {
        selection = record (t'.selection) {
          kind = selection_none;
          coords = no_range;
          pivot = no_range;
          direction = undir;
          ongoing = false;
        };
        rest = calls.search_selection_cancelled t'.rest;
      }

  unfoldable pub selection_scroll_up : ℕ → Term X T → Term X T
  unfolding scrolls_out_above selection_cancel
  selection_scroll_up rows t =
      if scrolls_out_above t.ring t.rows t.selection.coords rows then selection_cancel t else t

  unfoldable pub selection_scroll_down : ℕ → Term X T → Term X T
  unfolding scrolls_out_below selection_cancel
  selection_scroll_down rows t =
      if scrolls_out_below t.ring t.rows t.selection.coords rows then selection_cancel t else t
