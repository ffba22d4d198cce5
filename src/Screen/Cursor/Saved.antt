-- ===== src/Screen/Cursor/Saved.antt =====
-- Saving and restoring the cursor by terminal.c.
use foot.Base.{◌-◌, ◌≡◌, refl, arith, min, get_or, not}
use foot.Base.Int.{pos}
use foot.Grid.{grid_row_absolute}
use foot.Screen.State.{Screen, ascii}
use foot.Screen.Cursor.{
  term_cursor_to, term_save_cursor, term_restore_cursor, update_charset_printer,
  term_update_ascii_printer, is_ascii,
}
use foot.Screen.Cursor.OnScreen.{OnScreen}

module _ {X T : Type 0} where
  -- What `t` has of the cursor that was saved in `s`: nothing else was saved, and the screen is
  -- not smaller.
  pub record StillSaved (s t : Screen X T) : Type 0 where
    pub cursor : t.saved_cursor ≡ s.saved_cursor
    pub attrs : t.saved_attrs ≡ s.saved_attrs
    pub charsets : t.saved_charsets ≡ s.saved_charsets
    pub rows : t.rows ≡ s.rows
    pub cols : t.cols ≡ s.cols

  -- What is restored.
  pub record Restored (s t : Screen X T) : Type 0 where
    pub cursor : t.cursor ≡ s.cursor
    pub attrs : t.attrs ≡ s.attrs
    pub charsets : t.charsets ≡ s.charsets
    pub cur_row : t.cur_row ≡ grid_row_absolute t.ring (pos s.cursor.row)
    pub flag :
        t.charset_affects_printer ≡ not (is_ascii (get_or s.charsets.set s.charsets.selected ascii))

  -- A cursor on the screen that was saved is restored, with its attributes, its character sets and its
  -- pending linewrap, from any screen of the same size that still has it saved; and the row pointer
  -- and the printer's flag are those of what was restored.
  pub restore-save :
      (s t : Screen X T)
      → OnScreen s
      → StillSaved (term_save_cursor s) t
      → Restored s (term_restore_cursor t.saved_cursor t)
  unfolding term_save_cursor term_restore_cursor term_cursor_to update_charset_printer
      term_update_ascii_printer
  restore-save s t v k = record {
    cursor = rw (k.cursor, k.rows, k.cols, row_kept, col_kept) refl;
    attrs = k.attrs;
    charsets = k.charsets;
    cur_row = rw (k.cursor, k.rows, row_kept) refl;
    flag = rw k.charsets refl;
  }
    where
      row_kept : min s.cursor.row (s.rows - 1) ≡ s.cursor.row
      row_kept = omega (arith, v.row)

      col_kept : min s.cursor.col (s.cols - 1) ≡ s.cursor.col
      col_kept = omega (arith, v.col)
