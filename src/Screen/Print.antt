-- ===== src/Screen/Print.antt =====
-- Printing, by terminal.c: `term_print` and the three printers of ASCII characters.

pub mod Fast
pub mod SingleShift
use foot.Base.{
  ℕ, zero, suc, ◌+◌, ◌-◌, Bool, true, false, List, [], ◌∷◌, ◌++◌, Option, none, some, leb, ltb,
  ◌==◌, ◌||◌, ◌&&◌, not, if◌then◌else◌, min, set, get_or, take, drop, map, within,
}
use foot.Base.Int.{pos}
use mathlib.Core.Option
use foot.Grid.{Ring, grid_row_absolute, row_at, set_row}
use foot.Screen.State.{
  Attributes, Cell, Row, Screen, Hooks, Charset, ascii, graphic, Printer, generic, fast,
  single_shift,
}
use foot.Screen.Row.{no_attributes}
use foot.Screen.Damage.{damage_cell}
use foot.Screen.Scroll.{term_scroll}
use foot.Screen.Cursor.{is_ascii, update_charset_printer}

-- What `vt100_0` has for the characters from 0x60 to 0x7e.
abbrev vt100_0 : List ℕ
vt100_0 =
    0x25c6 ∷ 0x2592 ∷ 0x2409 ∷ 0x240c ∷ 0x240d ∷ 0x240a ∷ 0xb0 ∷ 0xb1 ∷ 0x2424 ∷ 0x240b ∷ 0x2518
    ∷ 0x2510 ∷ 0x250c ∷ 0x2514 ∷ 0x253c ∷ 0x23ba ∷ 0x23bb ∷ 0x2500 ∷ 0x23bc ∷ 0x23bd ∷ 0x251c
    ∷ 0x2524 ∷ 0x2534 ∷ 0x252c ∷ 0x2502 ∷ 0x2264 ∷ 0x2265 ∷ 0x3c0 ∷ 0x2260 ∷ 0xa3 ∷ 0xb7 ∷ []

-- `CELL_SPACER` of terminal.h: `CELL_COMB_CHARS_HI + 1`.
abbrev pub cell_spacer : ℕ
cell_spacer = 0x40200000

abbrev pub set_cell : {X : Type 0} → ℕ → Cell → Row X → Row X
set_cell col c r = record r { cells = set r.cells col c }

module _ {X T : Type 0} where
  -- A change of the row that `cur_row` points to.
  abbrev pub on_cur_row : (Row X → Row X) → Screen X T → Screen X T
  on_cur_row f s = record s {
    ring = set_row s.ring s.cur_row (Option.map f (row_at s.ring s.cur_row));
  }

  unfoldable pub graphic_char : Screen X T → ℕ → ℕ
  graphic_char s wc =
      if not (is_ascii (get_or s.charsets.set s.charsets.selected ascii)) && within 0x60 0x7e wc
      then get_or vt100_0 (wc - 0x60) wc
      else wc

  -- The cells from the cursor on go `width` columns on; those moved are marked.
  unfoldable pub print_insert : ℕ → Screen X T → Screen X T
  print_insert width s =
      if s.insert_mode
      then on_cur_row
          (λ r. record r {
            cells =
                take (s.cursor.col + width) r.cells
                ++ map damage_cell
                    (take (s.cols - s.cursor.col - width) (drop s.cursor.col r.cells))
                ++ drop s.cols r.cells;
          })
          s
      else s

  unfoldable pub print_spacer : ℕ → ℕ → Screen X T → Screen X T
  print_spacer col remaining s =
      on_cur_row (set_cell col (record { wc = cell_spacer + remaining; attrs = no_attributes })) s

  -- `n` spacers from a column on, that stand for nothing.
  unfoldable pub pad_line : ℕ → ℕ → Screen X T → Screen X T
  unfolding print_spacer
  pad_line zero col s = s
  pad_line (suc n) col s = pad_line n (col + 1) (print_spacer col 0 s)

  -- The loop behind a wide character, from the column before it. Ends at the last column.
  unfoldable pub spacers : ℕ → ℕ → Screen X T → ℕ × Screen X T
  unfolding print_spacer
  spacers zero col s = (col, s)
  spacers (suc n) col s =
      let rest = spacers n (col + 1) (print_spacer (col + 1) (suc n) s) in
      if ltb (col + 1) s.cols then rest else (col, s)

  -- The cursor goes on from the last column that was written.
  unfoldable pub advance_cursor : ℕ → Screen X T → Screen X T
  advance_cursor col s =
      if leb s.cols (col + 1)
      then record s { cursor = record (s.cursor) { col = col; lcf = true } }
      else record s { cursor = record (s.cursor) { col = col + 1 } }

module _ {X T : Type 0} (hooks : Hooks X T) where
  unfoldable pub print_linewrap : Screen X T → Screen X T
  unfolding term_scroll
  print_linewrap s =
      if not s.cursor.lcf || not s.auto_margin
      then s
      else (let t : Screen X T =
            on_cur_row (λ r. record r { linebreak = false })
              (record s { cursor = record (s.cursor) { lcf = false } }) in
          let new_row = min (s.cursor.row + 1) (s.rows - 1) in
          let u = if s.cursor.row + 1 == s.region.end then term_scroll hooks 1 t else record t {
            cursor = record (t.cursor) { row = new_row };
            cur_row = grid_row_absolute t.ring (pos new_row);
          } in
          record u { cursor = record (u.cursor) { col = 0 } })

  unfoldable pub put_uris : ℕ → ℕ → T → Option X → Option X
  put_uris zero col t x = x
  put_uris (suc n) col t x = put_uris n (col + 1) t (hooks.uri_range_put col t x)

  abbrev pub printed_attrs : T → Attributes → Attributes
  printed_attrs t a =
      if hooks.osc8_uri t && hooks.osc8_underline_always t then record a { url = true } else a

  -- What a printed character does to the URIs and underlines of its row.
  unfoldable pub print_extra : ℕ → ℕ → ℕ → T → Option X → Option X
  unfolding put_uris
  print_extra width cols col t x =
      let with_uri =
        if hooks.osc8_uri t
        then put_uris (min width (cols - col)) col t x
        else Option.map (hooks.uri_range_erase col (col + width - 1)) x in
      if hooks.underline_extended t
      then hooks.underline_range_put col t with_uri
      else Option.map (hooks.underline_range_erase col (col + width - 1)) with_uri

  -- The part of `term_print` behind the linewraps.
  unfoldable pub print_at_cursor : ℕ → ℕ → ℕ → Screen X T → Screen X T
  unfolding print_extra spacers advance_cursor
  print_at_cursor wc width col s =
      let t =
        on_cur_row
          (λ r. record r {
            dirty = true;
            linebreak = true;
            cells = set r.cells col (record { wc = wc; attrs = printed_attrs s.rest s.attrs });
            extra = print_extra width s.cols col s.rest r.extra;
          })
          s in
      let (last, u) =
        spacers (width - 1) col (record t { rest = hooks.set_last_printed wc t.rest }) in
      advance_cursor last u

  -- A wide character that does not fit on the line: spacers, and a linewrap.
  unfoldable pub wrap_wide : ℕ → Screen X T → Screen X T
  unfolding pad_line print_linewrap
  wrap_wide width s =
      if ltb 1 width && s.auto_margin && ltb s.cols (s.cursor.col + width)
      then (let t = pad_line (s.cols - s.cursor.col) s.cursor.col s in
          print_linewrap (record t { cursor = record (t.cursor) { lcf = true } }))
      else s

  unfoldable pub term_print : ℕ → ℕ → Bool → Screen X T → Screen X T
  unfolding graphic_char print_linewrap print_insert wrap_wide print_at_cursor
  term_print wc width insert_mode_disable s =
      let wrapped = print_linewrap s in
      let inserted = if insert_mode_disable then wrapped else print_insert width wrapped in
      let placed = wrap_wide width inserted in
      print_at_cursor (graphic_char s wc) width placed.cursor.col
        (hooks.sixel_overwrite_at_cursor width placed)

  unfoldable pub ascii_printer_generic : ℕ → Screen X T → Screen X T
  unfolding term_print
  ascii_printer_generic wc s = term_print wc 1 false s

  unfoldable pub ascii_printer_fast : ℕ → Screen X T → Screen X T
  unfolding print_linewrap advance_cursor
  ascii_printer_fast wc s =
      let w = print_linewrap s in
      let col = w.cursor.col in
      let t =
        on_cur_row
          (λ r. record r {
            dirty = true;
            linebreak = true;
            cells = set r.cells col (record { wc = wc; attrs = w.attrs });
          })
          w in
      let u = advance_cursor col (record t { rest = hooks.set_last_printed wc t.rest }) in
      on_cur_row
        (λ r. record r {
          extra =
              Option.map
                (λ x. hooks.underline_range_erase col col (hooks.uri_range_erase col col x))
                r.extra;
        })
        u

  unfoldable pub ascii_printer_single_shift : ℕ → Screen X T → Screen X T
  unfolding ascii_printer_generic update_charset_printer
  ascii_printer_single_shift wc s =
      let t = ascii_printer_generic wc s in
      update_charset_printer
        (record t { charsets = record (t.charsets) { selected = t.charsets.saved } })

  -- The call through `term->ascii_printer`.
  unfoldable pub print_ascii : ℕ → Screen X T → Screen X T
  unfolding ascii_printer_generic ascii_printer_fast ascii_printer_single_shift
  print_ascii wc s = elim s.ascii_printer [
    | generic ↦ ascii_printer_generic wc s
    | fast ↦ ascii_printer_fast wc s
    | single_shift ↦ ascii_printer_single_shift wc s
  ]
