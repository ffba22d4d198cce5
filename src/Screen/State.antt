-- ===== src/Screen/State.antt =====
-- `struct attributes`, `cell`, `row`, `cursor`, `damage`, `charsets`, and the fields of `struct grid`
-- and `struct terminal` (terminal.h) that the screen operations read and write.
use foot.Base.{ℕ, Bool, List, Option}
use foot.Base.Int.{ℤ}
use foot.Grid.{Ring}

pub data ColorSource : Type 0 where
  color_default color_base16 color_base256 color_rgb : ColorSource

pub record Attributes : Type 0 where
  pub bold : Bool
  pub dim : Bool
  pub italic : Bool
  pub underline : Bool
  pub strikethrough : Bool
  pub blink : Bool
  pub conceal : Bool
  pub reverse : Bool
  pub fg : ℕ
  pub clean : Bool
  pub fg_src : ColorSource
  pub bg_src : ColorSource
  pub confined : Bool
  pub selected : Bool
  pub url : Bool
  pub bg : ℕ

pub record Cell : Type 0 where
  pub wc : ℕ
  pub attrs : Attributes

-- `extra` holds the URI and underline ranges of a row, of a type that the grid leaves open.
pub record Row (X : Type 0) : Type 0 where
  pub cells : List Cell
  pub extra : Option X
  pub dirty : Bool
  pub linebreak : Bool
  pub prompt_marker : Bool
  pub cmd_start : ℤ
  pub cmd_end : ℤ

pub record Cursor : Type 0 where
  pub row : ℕ
  pub col : ℕ
  pub lcf : Bool

pub record Region : Type 0 where
  pub start : ℕ
  pub end : ℕ

pub data DamageType : Type 0 where
  scroll scroll_reverse scroll_in_view scroll_reverse_in_view : DamageType

pub record Damage : Type 0 where
  pub type : DamageType
  pub region : Region
  pub lines : ℕ

pub data Origin : Type 0 where
  absolute relative : Origin

pub data Charset : Type 0 where
  ascii graphic : Charset

pub data Printer : Type 0 where
  generic fast single_shift : Printer

-- `selected` and `saved` are designators, G0 to G3; `set` holds their character sets.
pub record Charsets : Type 0 where
  pub selected : ℕ
  pub saved : ℕ
  pub set : List Charset

-- `cur_row` is the index in `ring.rows` of the row that the pointer shows; `scroll_damage` has the
-- newest damage first. `rest` is what other parts of the terminal keep.
pub record Screen (X T : Type 0) : Type 0 where
  pub ring : Ring (Row X)
  pub num_cols : ℕ
  pub cursor : Cursor
  pub saved_cursor : Cursor
  pub cur_row : ℕ
  pub scroll_damage : List Damage
  pub is_alt : Bool
  pub cols : ℕ
  pub rows : ℕ
  pub region : Region
  pub origin : Origin
  pub auto_margin : Bool
  pub insert_mode : Bool
  pub reverse_wrap : Bool
  pub attrs : Attributes
  pub saved_attrs : Attributes
  pub charsets : Charsets
  pub saved_charsets : Charsets
  pub charset_affects_printer : Bool
  pub other_affects_printer : Bool
  pub ascii_printer : Printer
  pub grapheme_state : ℕ
  pub rest : T

-- What the screen operations call in other parts: the ranges of a row (grid.c), the selection
-- (selection.c), the sixel images (sixel.c), URL mode and the renderer. Cancelling a
-- selection and erasing an image mark cells, so these return a screen. `osc8_uri` tells whether a URI
-- is open, `underline_extended` whether the underline has a style or a colour of its own.
pub record Hooks (X T : Type 0) : Type 0 where
  pub uri_range_erase : ℕ → ℕ → X → X
  pub underline_range_erase : ℕ → ℕ → X → X
  pub has_selection : T → Bool
  pub selection_on_rows : ℕ → ℕ → Screen X T → Bool
  pub selection_cancel : Screen X T → Screen X T
  pub selection_scroll_up : ℕ → Screen X T → Screen X T
  pub selection_scroll_down : ℕ → Screen X T → Screen X T
  pub selection_view_up : ℕ → Screen X T → T
  pub selection_view_down : ℕ → Screen X T → T
  pub sixel_scroll_up : ℕ → Screen X T → Screen X T
  pub sixel_scroll_down : ℕ → Screen X T → Screen X T
  pub urls_mode_is_active : T → Bool
  pub refresh : Screen X T → T
  pub sixel_overwrite_at_cursor : ℕ → Screen X T → Screen X T
  pub set_last_printed : ℕ → T → T
  pub osc8_uri : T → Bool
  pub osc8_underline_always : T → Bool
  pub uri_range_put : ℕ → T → Option X → Option X
  pub underline_extended : T → Bool
  pub underline_range_put : ℕ → T → Option X → Option X
