-- ===== src/Csi/Edit/Tests.antt =====
-- Erasing on a small screen.
use foot.Base.{
  ℕ, zero, suc, ◌≡◌, refl, arith, List, [], ◌∷◌, some, none, true, false, replicate, map, get_elem?,
}
use foot.Base.Int.{pos, negsuc}
use foot.Grid.{grid_row_absolute}
use foot.Grid.Coords.{IsRing}
use foot.Screen.State.{Cell, Row, Screen}
use foot.Screen.Row.{no_attributes}
use foot.Screen.Scroll.Shift.{content}
use foot.Screen.Tests.{small_screen, no_hooks}
use foot.Csi.Edit.{EraseHooks, term_erase, delete_chars, insert_chars}
use foot.Csi.Edit.Wiped.{Wiped, Wiped-refl, in_row}
use foot.Csi.Edit.Chars.{
  CharsDeleted, CharsInserted, delete_chars-CharsDeleted, insert_chars-CharsInserted,
}
use foot.Csi.Edit.Erase.{KeepsCells, is_between, term_erase-Wiped}

-- No images, and no scrollback.
abbrev no_images : EraseHooks ℕ ℕ
no_images = record {
  sixel_overwrite_by_row = λ row col width s. s;
  sixel_overwrite_by_rectangle = λ row col height width s. s;
  term_erase_scrollback = λ s. s;
}

no_images-KeepsCells : KeepsCells no_images
no_images-KeepsCells = record {
  by_row = λ row col width s. Wiped-refl s;
  by_rectangle = λ row col height width s. Wiped-refl s;
}

abbrev lettered : ℕ → Cell
lettered c = record { wc = c; attrs = no_attributes }

abbrev text_row : List ℕ → Row ℕ
text_row text = record {
  cells = map lettered text;
  extra = none;
  dirty = false;
  linebreak = false;
  prompt_marker = false;
  cmd_start = negsuc 0;
  cmd_end = negsuc 0;
}

-- Four rows of four columns.
abbrev text_screen : Screen ℕ ℕ
text_screen = record small_screen {
  ring = record {
    num_rows = 4;
    offset = 1;
    view = 1;
    rows =
        some (text_row (13 ∷ 14 ∷ 15 ∷ 16 ∷ []))
        ∷ some (text_row (1 ∷ 2 ∷ 3 ∷ 4 ∷ []))
        ∷ some (text_row (5 ∷ 6 ∷ 7 ∷ 8 ∷ []))
        ∷ some (text_row (9 ∷ 10 ∷ 11 ∷ 12 ∷ []))
        ∷ [];
  };
  cols = 4;
  num_cols = 4;
  rows = 4;
  cursor = record { row = 1; col = 1; lcf = true };
  cur_row = 2;
}

text_screen-IsRing : IsRing text_screen.ring
text_screen-IsRing = record {
  bits = 2;
  power = refl;
  sized = refl;
  offset_in = omega arith;
  view_in = omega arith;
}

term_erase-Wiped_example :
    Wiped (is_between 0 2 2 1) text_screen (term_erase no_hooks no_images 0 2 2 1 text_screen)
term_erase-Wiped_example =
    term_erase-Wiped no_hooks no_images no_images-KeepsCells text_screen 0 2 2 1 text_screen-IsRing
      (omega arith) (omega arith) (omega arith)

-- The second row, from its second column on, is 6 7 8.
abbrev second_row : Row ℕ
second_row = text_row (5 ∷ 6 ∷ 7 ∷ 8 ∷ [])

cur_row_run : text_screen.cur_row ≡ grid_row_absolute text_screen.ring (pos 1)
unfolding foot.Grid.grid_row_absolute foot.Base.Mask.and_mask foot.Base.Int.◌+ℤ◌
cur_row_run = refl

at_cursor_run : content text_screen.ring 1 ≡ some second_row
at_cursor_run = refl

delete_chars_run :
    in_row 1 (content (delete_chars no_hooks no_images 2 text_screen).ring 1) ≡ some (lettered 8)
unfolding delete_chars foot.Grid.grid_row_absolute foot.Base.Mask.and_mask foot.Base.Int.◌+ℤ◌
    foot.Screen.Row.erase_cell_range
delete_chars_run = refl

delete_chars-CharsDeleted_example :
    CharsDeleted no_hooks no_images no_images-KeepsCells text_screen text_screen-IsRing
      (omega arith)
      (omega arith)
      (omega arith)
      cur_row_run
      second_row
      at_cursor_run
      refl
      2
      (delete_chars no_hooks no_images 2 text_screen)
delete_chars-CharsDeleted_example =
    delete_chars-CharsDeleted no_hooks no_images no_images-KeepsCells text_screen text_screen-IsRing
      (omega arith) (omega arith) (omega arith) cur_row_run second_row at_cursor_run refl 2

insert_chars-CharsInserted_example :
    CharsInserted no_hooks no_images no_images-KeepsCells text_screen text_screen-IsRing
      (omega arith)
      (omega arith)
      (omega arith)
      cur_row_run
      second_row
      at_cursor_run
      refl
      2
      (insert_chars no_hooks no_images 2 text_screen)
insert_chars-CharsInserted_example =
    insert_chars-CharsInserted no_hooks no_images no_images-KeepsCells text_screen
      text_screen-IsRing (omega arith) (omega arith) (omega arith) cur_row_run second_row
      at_cursor_run refl 2 (omega arith)
