-- ===== src/Screen/Scroll.antt =====
-- `term_scroll_partial` and `term_scroll_reverse_partial` of terminal.c.
pub mod Shift
pub mod Erase
pub mod Up
pub mod Down
use foot.Base.{
  ℕ, zero, suc, ◌+◌, ◌-◌, Bool, true, false, Option, none, some, leb, ltb, ◌==◌, ◌||◌, ◌&&◌,
  if◌then◌else◌,
}
use foot.Base.Int.{pos, ◌-ℤ◌}
use foot.Base.Mask.{and_mask}
use foot.Grid.{
  Ring, grid_row_absolute, grid_swap_row, grid_row_abs_to_sb, grid_row_sb_to_abs, row_at, set_row,
}
use foot.Screen.State.{Attributes, Row, Region, Screen, Hooks, scroll, scroll_reverse}
use foot.Screen.Row.{grid_row_alloc, erase_line}
use foot.Screen.Damage.{term_damage_scroll, term_damage_view}
use foot.Screen.View.{set_view, cmd_scrollback_down}

module _ {R : Type 0} where
  -- `for (i = lo + n - 1; i >= lo; i--) grid_swap_row(grid, i - rows, i);`
  unfoldable pub shift_up_loop : ℕ → ℕ → ℕ → Ring R → Ring R
  shift_up_loop zero lo rows g = g
  shift_up_loop (suc n) lo rows g =
      shift_up_loop n lo rows (grid_swap_row (pos (lo + n) -ℤ pos rows) (pos (lo + n)) g)

  -- `for (i = from; n > 0; i++, n--) grid_swap_row(grid, i, i - rows);`
  unfoldable pub shift_down_loop : ℕ → ℕ → ℕ → Ring R → Ring R
  shift_down_loop zero from rows g = g
  shift_down_loop (suc n) from rows g =
      shift_down_loop n (from + 1) rows (grid_swap_row (pos from) (pos from -ℤ pos rows) g)

  -- The loop over `n` rows from `r` on that frees them.
  unfoldable pub free_rows : ℕ → ℕ → Ring R → Ring R
  free_rows zero r g = g
  free_rows (suc n) r g = free_rows n (r + 1) (set_row g (grid_row_absolute g (pos r)) none)

module _ {X T : Type 0} (hooks : Hooks X T) where
  -- `grid_row_and_alloc`.
  abbrev pub alloc_if_null : ℕ → Option (Row X) → Row X
  alloc_if_null cols none = grid_row_alloc cols
  alloc_if_null cols (some r) = r

  -- The loop over `n` rows from `r` on that erases them.
  unfoldable pub erase_rows : Attributes → ℕ → ℕ → ℕ → ℕ → Ring (Row X) → Ring (Row X)
  erase_rows attrs num_cols cols zero r g = g
  erase_rows attrs num_cols cols (suc n) r g =
      let i = grid_row_absolute g (pos r) in
      erase_rows attrs num_cols cols n (r + 1)
        (set_row g i (some (erase_line hooks attrs cols (alloc_if_null num_cols (row_at g i)))))

  unfoldable pub selection_on_top_region : Region → Screen X T → Bool
  selection_on_top_region region s =
      ltb 0 region.start && hooks.selection_on_rows 0 (region.start - 1) s

  unfoldable pub selection_on_bottom_region : Region → Screen X T → Bool
  selection_on_bottom_region region s =
      ltb region.end s.rows && hooks.selection_on_rows region.end (s.rows - 1) s

  -- The selection is cancelled, or follows the scrolled rows by the function that is given.
  abbrev pub scroll_selection : (Screen X T → Screen X T) → Region → Screen X T → Screen X T
  scroll_selection follow region s =
      if hooks.has_selection s.rest
      then if selection_on_top_region region s || selection_on_bottom_region region s
        then hooks.selection_cancel s
        else follow s
      else s

  abbrev pub set_cur_row : Screen X T → Screen X T
  set_cur_row s = record s { cur_row = grid_row_absolute s.ring (pos s.cursor.row) }

  -- `view_sb_start_distance > offset_sb_start_distance`: the view is further from the start of the
  -- scrollback than the screen.
  unfoldable pub view_scrolled_out : Screen X T → Bool
  unfolding grid_row_abs_to_sb
  view_scrolled_out s =
      ltb (grid_row_abs_to_sb s.ring s.rows (pos s.ring.offset))
        (grid_row_abs_to_sb s.ring s.rows (pos s.ring.view))

  -- `term_scroll_partial` up to the loops: the new offset, and what becomes of the view.
  unfoldable pub advance : Region → ℕ → Screen X T → Screen X T
  unfolding term_damage_scroll grid_row_abs_to_sb grid_row_sb_to_abs cmd_scrollback_down
  advance region rows s =
      let distance = grid_row_abs_to_sb s.ring s.rows (pos s.ring.view) in
      let follows = s.ring.view == s.ring.offset in
      let offset = and_mask (pos (s.ring.offset + rows)) s.ring.num_rows in
      let moved : Screen X T = record s { ring = record (s.ring) { offset = offset } } in
      if follows
      then (let t = term_damage_scroll scroll region rows moved in
          set_view hooks t.ring.offset
            (record t { rest = hooks.selection_view_down t.ring.offset t }))
      else if ltb distance rows
      then (let new_view = grid_row_sb_to_abs moved.ring moved.rows (pos 0) in
          cmd_scrollback_down hooks (rows - distance)
            (record moved { rest = hooks.selection_view_down new_view moved }))
      else moved

  -- The loops of `term_scroll_partial`.
  unfoldable pub scroll_rows : Region → ℕ → Screen X T → Screen X T
  unfolding shift_up_loop erase_rows
  scroll_rows region rows s = record s {
    ring = erase_rows s.attrs s.num_cols s.cols rows (region.end - rows) (
        shift_up_loop (s.rows - region.end) region.end rows
          (shift_up_loop region.start 0 rows s.ring));
  }

  unfoldable pub term_scroll_partial : Region → ℕ → Screen X T → Screen X T
  unfolding advance scroll_rows
  term_scroll_partial region rows s =
      let selected = scroll_selection (hooks.selection_scroll_up rows) region s in
      set_cur_row
        (scroll_rows region rows (advance region rows (hooks.sixel_scroll_up rows selected)))

  unfoldable pub term_scroll : ℕ → Screen X T → Screen X T
  unfolding term_scroll_partial
  term_scroll rows s = term_scroll_partial s.region rows s

  -- What becomes of the view when the offset goes back.
  unfoldable pub recede : Region → ℕ → Screen X T → Screen X T
  unfolding term_damage_scroll
  recede region rows s =
      let offset = and_mask (pos (s.ring.offset + s.ring.num_rows) -ℤ pos rows) s.ring.num_rows in
      let moved : Screen X T = record s { ring = record (s.ring) { offset = offset } } in
      if s.ring.view == s.ring.offset
      then (let t = term_damage_scroll scroll_reverse region rows moved in
          set_view hooks offset (record t { rest = hooks.selection_view_up offset t }))
      else if view_scrolled_out moved
      then set_view hooks offset (record moved { rest = hooks.selection_view_up offset moved })
      else moved

  -- The loops of `term_scroll_reverse_partial` after the offset went back.
  unfoldable pub scroll_reverse_rows : Region → ℕ → Screen X T → Screen X T
  unfolding shift_down_loop erase_rows
  scroll_reverse_rows region rows s = record s {
    ring = erase_rows s.attrs s.num_cols s.cols rows region.start (
        shift_down_loop region.start rows rows
          (shift_down_loop (s.rows - region.end) (region.end + rows) rows s.ring));
  }

  -- The loop that frees the rows that are scrolled out. `render.last_cursor.row` is cleared when its row
  -- is freed; it only serves the renderer.
  unfoldable pub freed : Region → ℕ → Screen X T → Screen X T
  unfolding free_rows
  freed region rows s = record s { ring = free_rows rows (region.end - rows) s.ring }

  -- Whether the view is to be drawn again, by the new offset and the old view.
  unfoldable pub redraws_view : ℕ → Screen X T → Bool
  unfolding view_scrolled_out
  redraws_view rows s =
      let offset = and_mask (pos (s.ring.offset + s.ring.num_rows) -ℤ pos rows) s.ring.num_rows in
      view_scrolled_out (record s { ring = record (s.ring) { offset = offset } })

  unfoldable pub redraw_if : Bool → Screen X T → Screen X T
  unfolding term_damage_view
  redraw_if true s = term_damage_view s
  redraw_if false s = s

  -- `term_scroll_reverse_partial` from the new offset on.
  unfoldable pub scroll_reverse_freed : Region → ℕ → Screen X T → Screen X T
  unfolding recede scroll_reverse_rows redraws_view redraw_if
  scroll_reverse_freed region rows s =
      let looped = scroll_reverse_rows region rows (recede region rows s) in
      set_cur_row (redraw_if (redraws_view rows s) looped)

  unfoldable pub term_scroll_reverse_partial : Region → ℕ → Screen X T → Screen X T
  unfolding freed scroll_reverse_freed
  term_scroll_reverse_partial region rows s =
      let selected = scroll_selection (hooks.selection_scroll_down rows) region s in
      scroll_reverse_freed region rows (hooks.sixel_scroll_down rows (freed region rows selected))

  unfoldable pub term_scroll_reverse : ℕ → Screen X T → Screen X T
  unfolding term_scroll_reverse_partial
  term_scroll_reverse rows s = term_scroll_reverse_partial s.region rows s
