-- ===== src/Screen/Row.antt =====
-- Rows: `grid_row_alloc` of grid.c, and `erase_cell_range` and `erase_line` of terminal.c.
use foot.Base.{ℕ, ◌+◌, ◌-◌, true, false, List, [], ◌∷◌, none, leb, ◌&&◌, if◌then◌else◌, replicate}
use foot.Base.Int.{negsuc}
use mathlib.Core.Option
use foot.Screen.State.{Attributes, color_default, Cell, Row, Hooks}

abbrev pub no_attributes : Attributes
no_attributes = record {
  bold = false;
  dim = false;
  italic = false;
  underline = false;
  strikethrough = false;
  blink = false;
  conceal = false;
  reverse = false;
  fg = 0;
  clean = false;
  fg_src = color_default;
  bg_src = color_default;
  confined = false;
  selected = false;
  url = false;
  bg = 0;
}

abbrev pub no_cell : Cell
no_cell = record { wc = 0; attrs = no_attributes }

-- What an erased cell holds: nothing, or the current background. The two branches of the code, a
-- loop and a `memset`.
abbrev pub erased_cell : Attributes → Cell
erased_cell a = elim a.bg_src [
  | color_default ↦ no_cell
  | other ↦ record { wc = 0; attrs = record no_attributes { bg_src = a.bg_src; bg = a.bg } }
]

-- Writes a cell over the columns from `start` to `end`, counting from column `i`.
unfoldable pub fill_range : Cell → ℕ → ℕ → ℕ → List Cell → List Cell
fill_range c start end i [] = []
fill_range c start end i (x ∷ xs) =
    (if leb start i && leb i end then c else x) ∷ fill_range c start end (i + 1) xs

-- `grid_row_alloc` without initialisation. The cells that `xmalloc` leaves are not specified.
unfoldable pub grid_row_alloc : {X : Type 0} → ℕ → Row X
grid_row_alloc cols = record {
  cells = replicate cols no_cell;
  extra = none;
  dirty = false;
  linebreak = true;
  prompt_marker = false;
  cmd_start = negsuc 0;
  cmd_end = negsuc 0;
}

module _ {X T : Type 0} (hooks : Hooks X T) where
  unfoldable pub erase_cell_range : Attributes → ℕ → ℕ → Row X → Row X
  unfolding fill_range
  erase_cell_range attrs start end row = record row {
    dirty = true;
    cells = fill_range (erased_cell attrs) start end 0 row.cells;
    extra =
        Option.map (λ x. hooks.underline_range_erase start end (hooks.uri_range_erase start end x))
          row.extra;
  }

  unfoldable pub erase_line : Attributes → ℕ → Row X → Row X
  unfolding erase_cell_range
  erase_line attrs cols row = record (erase_cell_range attrs 0 (cols - 1) row) {
    linebreak = true;
    prompt_marker = false;
    cmd_start = negsuc 0;
    cmd_end = negsuc 0;
  }
