-- ===== src/Screen/Cursor.antt =====
-- Cursor movement of terminal.c, and the operations that move it or scroll.
pub mod OnScreen
pub mod Saved
use foot.Base.{
  ℕ, zero, suc, ◌+◌, ◌-◌, ◌^◌, Bool, true, false, Option, none, some, leb, ltb, ◌==◌, ◌||◌, ◌&&◌,
  not, if◌then◌else◌, min, List, [], ◌∷◌, get_or,
}
use foot.Base.Int.{pos}
use mathlib.Core.Option
use foot.Grid.{Ring, grid_row_absolute}
use foot.Screen.State.{
  Row, Region, Screen, Hooks, Cursor, Charset, ascii, graphic, Origin, absolute, relative, Printer,
  generic, fast, single_shift,
}
use foot.Screen.Damage.{term_damage_view}
use foot.Screen.Scroll.{term_scroll, term_scroll_reverse}

abbrev pub is_ascii : Charset → Bool
is_ascii ascii = true
is_ascii graphic = false

-- One more than the largest `int`.
abbrev pub int_limit : ℕ
int_limit = 2 ^ 31

-- The sum of two `int`s that are not negative.
unfoldable pub add_int : ℕ → ℕ → Option ℕ
add_int a b = if ltb (a + b) int_limit then some (a + b) else none

module _ {X T : Type 0} where
  abbrev pub term_reset_grapheme_state : Screen X T → Screen X T
  term_reset_grapheme_state s = record s { grapheme_state = 0 }

  -- `none` where the sum is not an `int`: the behaviour is undefined then.
  unfoldable pub term_row_rel_to_abs : Screen X T → ℕ → Option ℕ
  unfolding add_int
  term_row_rel_to_abs s row = elim s.origin [
    | absolute ↦ some (min row (s.rows - 1))
    | relative ↦ Option.map (λ sum. min sum (s.region.end - 1)) (add_int row s.region.start)
  ]

  unfoldable pub term_cursor_to : ℕ → ℕ → Screen X T → Screen X T
  term_cursor_to row col s = record s {
    cursor = record { row = row; col = col; lcf = false };
    grapheme_state = 0;
    cur_row = grid_row_absolute s.ring (pos row);
  }

  unfoldable pub term_cursor_home : Screen X T → Option (Screen X T)
  unfolding term_cursor_to term_row_rel_to_abs
  term_cursor_home s = Option.map (λ row. term_cursor_to row 0 s) (term_row_rel_to_abs s 0)

  unfoldable pub term_cursor_col : ℕ → Screen X T → Screen X T
  term_cursor_col col s =
      term_reset_grapheme_state (record s { cursor = record (s.cursor) { col = col; lcf = false } })

  unfoldable pub term_cursor_left : ℕ → Screen X T → Screen X T
  unfolding term_cursor_col
  term_cursor_left count s = term_cursor_col (s.cursor.col - min s.cursor.col count) s

  -- A cursor that is not on the screen is taken to the last column: the amount is negative then.
  unfoldable pub term_cursor_right : ℕ → Screen X T → Screen X T
  unfolding term_cursor_col
  term_cursor_right count s =
      term_cursor_col
        (if ltb s.cursor.col s.cols
          then s.cursor.col + min (s.cols - s.cursor.col - 1) count
          else s.cols - 1)
        s

  abbrev pub top : Screen X T → ℕ
  top s = elim s.origin [ absolute ↦ 0 | relative ↦ s.region.start ]

  abbrev pub bottom : Screen X T → ℕ
  bottom s = elim s.origin [ absolute ↦ s.rows | relative ↦ s.region.end ]

  -- Above the top row the amount is negative, and takes the cursor to that row.
  unfoldable pub term_cursor_up : ℕ → Screen X T → Screen X T
  unfolding term_cursor_to
  term_cursor_up count s =
      term_cursor_to
        (if leb (top s) s.cursor.row
          then s.cursor.row - min (s.cursor.row - top s) count
          else top s)
        s.cursor.col s

  -- Below the bottom row likewise.
  unfoldable pub term_cursor_down : ℕ → Screen X T → Screen X T
  unfolding term_cursor_to
  term_cursor_down count s =
      term_cursor_to
        (if ltb s.cursor.row (bottom s)
          then s.cursor.row + min (bottom s - s.cursor.row - 1) count
          else bottom s - 1)
        s.cursor.col s

  unfoldable pub term_carriage_return : Screen X T → Screen X T
  unfolding term_cursor_left
  term_carriage_return s = term_cursor_left s.cursor.col s

  unfoldable pub term_reset_view : Screen X T → Screen X T
  unfolding term_damage_view
  term_reset_view s =
      if s.ring.view == s.ring.offset
      then s
      else term_damage_view (record s { ring = record (s.ring) { view = s.ring.offset } })

  unfoldable pub term_update_ascii_printer : Screen X T → Screen X T
  term_update_ascii_printer s = record s {
    ascii_printer = if s.charset_affects_printer || s.other_affects_printer then generic else fast;
  }

  -- The flag of the character set that is selected, and the printer that it leads to.
  unfoldable pub update_charset_printer : Screen X T → Screen X T
  unfolding term_update_ascii_printer
  update_charset_printer s = term_update_ascii_printer (record s {
    charset_affects_printer = not (is_ascii (get_or s.charsets.set s.charsets.selected ascii));
  })

  unfoldable pub term_save_cursor : Screen X T → Screen X T
  term_save_cursor s = record s {
    saved_cursor = s.cursor;
    saved_attrs = s.attrs;
    saved_charsets = s.charsets;
  }

  unfoldable pub term_restore_cursor : Cursor → Screen X T → Screen X T
  unfolding term_cursor_to update_charset_printer
  term_restore_cursor cursor s =
      let t = term_cursor_to (min cursor.row (s.rows - 1)) (min cursor.col (s.cols - 1)) s in
      update_charset_printer (record t {
        cursor = record (t.cursor) { lcf = cursor.lcf };
        attrs = s.saved_attrs;
        charsets = s.saved_charsets;
      })

  unfoldable pub term_single_shift : ℕ → Screen X T → Screen X T
  term_single_shift idx s = record s {
    charsets = record (s.charsets) { saved = s.charsets.selected; selected = idx };
    ascii_printer = single_shift;
  }

module _ {X T : Type 0} (hooks : Hooks X T) where
  unfoldable pub term_linefeed : Screen X T → Screen X T
  unfolding term_cursor_down term_scroll
  term_linefeed s =
      let t = record s { cursor = record (s.cursor) { lcf = false } } in
      term_reset_grapheme_state
        (if s.cursor.row + 1 == s.region.end then term_scroll hooks 1 t else term_cursor_down 1 t)

  unfoldable pub term_reverse_index : Screen X T → Screen X T
  unfolding term_cursor_up term_scroll_reverse
  term_reverse_index s =
      if s.cursor.row == s.region.start then term_scroll_reverse hooks 1 s else term_cursor_up 1 s
