-- ===== src/Screen/Tests.antt =====
-- A small screen, and the operations of terminal.c and commands.c run on it.
pub mod Printing
pub mod Viewing
use foot.Screen.Print.SingleShift.{Unshifted, print_ascii-single_shift, single_shift-twice}
use foot.Screen.Scroll.Down.{ScrolledDown, term_scroll_reverse_partial-ScrolledDown}
use foot.Screen.View.{rows_above_view, rows_below_view, cmd_scrollback_up, cmd_scrollback_down}
use foot.Screen.View.Position.{cmd_scrollback_down-below, cmd_scrollback_up-below}
use foot.Base.{
  ℕ, zero, suc, ◌+◌, ◌-◌, min, ◌≤◌, ◌<◌, ◌≡◌, refl, arith, List, [], ◌∷◌, some, none, true, false,
  replicate, length,
}
use foot.Base.Int.{pos, negsuc}
use foot.Grid.{Ring, grid_row}
use foot.Grid.Coords.{IsRing}
use foot.Screen.State.{Row, Screen, Hooks, absolute, relative, ascii, generic}
use foot.Screen.Row.{no_attributes}
use foot.Screen.Cursor.{
  term_single_shift, term_save_cursor, term_restore_cursor, term_row_rel_to_abs, term_cursor_up,
  term_cursor_down,
}
use foot.Screen.Cursor.OnScreen.{OnScreen, vertical-InOrigin}
use foot.Screen.Cursor.Saved.{Restored, StillSaved, restore-save}
use foot.Screen.Print.{print_ascii, ascii_printer_fast, ascii_printer_generic}
use foot.Screen.Print.Fast.{FastAllowed, ascii_printer_fast-generic}
use foot.Screen.Scroll.{term_scroll_partial, term_scroll_reverse_partial}
use foot.Screen.Scroll.Up.{CanScroll, ScrolledUp, term_scroll_partial-ScrolledUp}

-- Nothing but the screen: no selection, no images.
abbrev pub no_hooks : Hooks ℕ ℕ
no_hooks = record {
  uri_range_erase = λ a b x. x;
  underline_range_erase = λ a b x. x;
  has_selection = λ t. false;
  selection_on_rows = λ a b s. false;
  selection_cancel = λ s. s;
  selection_scroll_up = λ n s. s;
  selection_scroll_down = λ n s. s;
  selection_view_up = λ v s. s.rest;
  selection_view_down = λ v s. s.rest;
  sixel_scroll_up = λ n s. s;
  sixel_scroll_down = λ n s. s;
  urls_mode_is_active = λ t. false;
  refresh = λ s. s.rest;
  sixel_overwrite_at_cursor = λ w s. s;
  set_last_printed = λ c t. c;
  osc8_uri = λ t. false;
  osc8_underline_always = λ t. false;
  uri_range_put = λ c t x. x;
  underline_extended = λ t. false;
  underline_range_put = λ c t x. x;
}

abbrev pub letter_row : ℕ → Row ℕ
letter_row c = record {
  cells = replicate 2 (record { wc = c; attrs = no_attributes });
  extra = none;
  dirty = false;
  linebreak = false;
  prompt_marker = false;
  cmd_start = negsuc 0;
  cmd_end = negsuc 0;
}

-- Rows `A` to `D`, from row 6 of a ring of eight rows on.
abbrev small_ring : Ring (Row ℕ)
small_ring = record {
  num_rows = 8;
  offset = 6;
  view = 6;
  rows =
      some (letter_row 67)
      ∷ some (letter_row 68)
      ∷ none
      ∷ none
      ∷ none
      ∷ none
      ∷ some (letter_row 65)
      ∷ some (letter_row 66)
      ∷ [];
}

abbrev pub small_screen : Screen ℕ ℕ
small_screen = record {
  ring = small_ring;
  num_cols = 2;
  cursor = record { row = 1; col = 0; lcf = false };
  saved_cursor = record { row = 0; col = 0; lcf = false };
  cur_row = 7;
  scroll_damage = [];
  is_alt = false;
  cols = 2;
  rows = 4;
  region = record { start = 1; end = 3 };
  origin = absolute;
  auto_margin = true;
  insert_mode = false;
  reverse_wrap = false;
  attrs = no_attributes;
  saved_attrs = no_attributes;
  charsets = record { selected = 0; saved = 0; set = replicate 4 ascii };
  saved_charsets = record { selected = 0; saved = 0; set = replicate 4 ascii };
  charset_affects_printer = false;
  other_affects_printer = false;
  ascii_printer = generic;
  grapheme_state = 0;
  rest = 0;
}

small_ring-IsRing : IsRing small_ring
small_ring-IsRing = record {
  bits = 3;
  power = refl;
  sized = refl;
  offset_in = omega arith;
  view_in = omega arith;
}

small_CanScroll : CanScroll small_screen.region 1 small_screen
small_CanScroll = record {
  ring = small_ring-IsRing;
  fits = omega arith;
  inside = omega arith;
  clamped = omega arith;
}

term_scroll_partial-ScrolledUp_example :
    ScrolledUp no_hooks small_screen.region 1 small_screen
      (term_scroll_partial no_hooks small_screen.region 1 small_screen)
term_scroll_partial-ScrolledUp_example =
    term_scroll_partial-ScrolledUp no_hooks small_screen.region 1 small_screen small_CanScroll refl
      refl refl

-- Rows `A`, `C`, an erased row, and `D`.
scrolled_rows :
    (grid_row (term_scroll_partial no_hooks small_screen.region 1 small_screen).ring (pos 1)
      ≡ some (letter_row 67))
    × (grid_row (term_scroll_partial no_hooks small_screen.region 1 small_screen).ring (pos 3)
        ≡ some (letter_row 68))
unfolding grid_row term_scroll_partial foot.Grid.grid_swap_row foot.Base.Mask.and_mask
    foot.Base.Int.◌+ℤ◌ foot.Base.Int.◌-ℤ◌
scrolled_rows = (refl, refl)

-- The largest parameter, with a region that starts in the third row.
overflow_run :
    term_row_rel_to_abs
      (record small_screen { origin = relative; region = record { start = 2; end = 3 } })
      0x7ffffffe
    ≡ none
unfolding term_row_rel_to_abs
overflow_run = refl

term_scroll_reverse_partial-ScrolledDown_example :
    ScrolledDown no_hooks small_screen.region 1 small_screen
      (term_scroll_reverse_partial no_hooks small_screen.region 1 small_screen)
term_scroll_reverse_partial-ScrolledDown_example =
    term_scroll_reverse_partial-ScrolledDown no_hooks small_screen.region 1 small_screen
      small_CanScroll refl refl refl
