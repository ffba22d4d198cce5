-- ===== src/Selection/Scrollback.antt =====
-- `term_erase_scrollback` of terminal.c: it cancels a selection that touches the scrollback, and frees the
-- rows of the scrollback.
pub mod Places
pub mod Erased
pub mod Touches
mod Tests
use foot.Base.{
  ℕ, zero, suc, ◌+◌, ◌-◌, Bool, true, false, Option, some, none, ltb, leb, ◌==◌, ◌&&◌, ◌||◌,
  if◌then◌else◌,
}
use foot.Base.Int.{ℤ, pos, ◌+ℤ◌, ◌-ℤ◌}
use foot.Base.Mask.{and_mask}
use mathlib.Core.Option
use foot.Grid.{Ring, row_at, set_row, grid_row_abs_to_sb}
use foot.Screen.State.{Row}
use foot.Selection.Visit.{Range}
use foot.Selection.{Term, Calls, is_negative, selection_get, selection_cancel}

-- What the function calls besides: the removal of the images between two rows of the scrollback, the
-- renderer's pointer to a row, and the damage of the view.
pub record ScrollbackCalls (X T : Type 0) : Type 0 where
  pub destroy_images : ℕ → ℕ → Ring (Row X) → T → T
  pub forget_row : ℕ → T → T
  pub term_damage_view : Ring (Row X) → T → T

-- The first and the last row of the scrollback.
abbrev pub scrollback_first : {R : Type 0} → Ring R → ℕ → ℕ
scrollback_first g screen_rows = and_mask (pos (g.offset + screen_rows)) g.num_rows

abbrev pub scrollback_last : {R : Type 0} → Ring R → ℕ
scrollback_last g = and_mask (pos g.offset -ℤ pos 1) g.num_rows

-- The test whether the selection touches the scrollback. There is no selection if its end is negative.
unfoldable pub touches_scrollback : {R : Type 0} → Ring R → ℕ → Range → Bool
touches_scrollback g screen_rows sel =
    let sel_end = selection_get g sel.end in
    let rel_start = grid_row_abs_to_sb g screen_rows (pos (scrollback_first g screen_rows)) in
    let rel_end = grid_row_abs_to_sb g screen_rows (pos (scrollback_last g)) in
    let rel_sel_start = grid_row_abs_to_sb g screen_rows (selection_get g sel.start).row in
    let rel_sel_end = grid_row_abs_to_sb g screen_rows sel_end.row in
    if is_negative sel_end.row
    then false
    else (leb rel_sel_start rel_start && leb rel_start rel_sel_end)
      || (leb rel_sel_start rel_end && leb rel_end rel_sel_end)
      || (leb rel_start rel_sel_start && leb rel_sel_end rel_end)

module _ {X T : Type 0} (others : ScrollbackCalls X T) where
  abbrev pub free_found : Option (Row X) → ℕ → Term X T → Term X T
  free_found none i t = t
  free_found (some row) i t = record t {
    ring = set_row t.ring i none;
    rest = others.forget_row i t.rest;
  }

  abbrev pub free_row : ℕ → Term X T → Term X T
  free_row i t = free_found (row_at t.ring i) i t

  -- The loop has no bound of its own. `none` where the fuel has run out.
  unfoldable pub free_rows_until : ℕ → ℕ → ℕ → Term X T → Option (Term X T)
  free_rows_until zero last i t = none
  free_rows_until (suc fuel) last i t =
      let rest =
        free_rows_until fuel last (and_mask (pos (i + 1)) t.ring.num_rows) (free_row i t) in
      if i == last then some (free_row i t) else rest

  abbrev pub view_to_screen : Term X T → Term X T
  view_to_screen u =
      let v = record (u.ring) { view = u.ring.offset } in
      record u { ring = v; rest = others.term_damage_view v u.rest }

  -- The part behind the test of the selection; `g` is the ring from before it.
  unfoldable pub free_scrollback : Ring (Row X) → Term X T → Option (Term X T)
  unfolding free_rows_until
  free_scrollback g s =
      let rel_start = grid_row_abs_to_sb g s.rows (pos (scrollback_first g s.rows)) in
      let rel_end = grid_row_abs_to_sb g s.rows (pos (scrollback_last g)) in
      Option.map view_to_screen (
        free_rows_until g.num_rows (scrollback_last g) (scrollback_first g s.rows)
          (record s { rest = others.destroy_images rel_start rel_end s.ring s.rest }))

  unfoldable pub term_erase_scrollback : Calls T → Term X T → Option (Term X T)
  unfolding touches_scrollback selection_cancel free_scrollback
  term_erase_scrollback calls t =
      if t.ring.num_rows == t.rows
      then some t
      else free_scrollback t.ring (
          if touches_scrollback t.ring t.rows t.selection.coords
          then selection_cancel calls t
          else t)
