-- ===== src/Lib.antt =====
-- foot, a Wayland terminal emulator: its escape sequence parser, its grid of rows, the screen
-- operations on the grid, the modes, colours and tab stops that control sequences set, the selection, the
-- clipboard, URIs and command lines, the table of composed characters, base64, and the handlers of the
-- event loop.
--
-- The program's parts. Bytes from the shell go through `vt_from_slave` (vt.c), a table of states that
-- collects parameters, intermediate characters, UTF-8 characters and OSC strings, and calls the handlers
-- of control characters, printing, ESC, CSI, OSC and DCS. Those handlers work on the terminal
-- (terminal.c): they print, move the cursor, scroll and erase rows of the grid (grid.c, grid.h), a ring
-- of rows that holds the screen and the scrollback, and record damage for the renderer. The user moves
-- a view through the scrollback (commands.c), and selects text (selection.c), which the program may also
-- ask for, in base64 (osc.c, base64.c). Everything runs from one loop that dispatches the events of file
-- descriptors (fdm.c).
--
-- Base: names and lemmas that the parts share. Base.Int has integers, for the row numbers that may be
-- negative; Base.Mask has `x & (n - 1)` for sizes that are powers of two.
--
-- Vt: vt.c, vt.h and `struct vt` of terminal.h. Vt.State has the states and the fields; Vt.Params the
-- parameters (`action_clear`, `action_param*`, `action_collect`, `vt_param_get`); Vt.Utf8 the UTF-8
-- actions; Vt.Osc the OSC buffer (`action_osc_*`, and `osc_ensure_size` of osc.c); Vt.Switch the
-- `state_*_switch` functions; Vt.Machine the loop of `vt_from_slave`. The handlers outside vt.c are the
-- record `Host` of Vt.Machine, over a state `rest` of their own. `realloc` is a parameter of the OSC
-- buffer; a write outside the buffer's block sets a flag that no field of the program stands for. The
-- children of Vt.Machine hold the proofs, Vt.Tests a host that records its calls.
--
-- Grid: grid.c and grid.h. A ring is a list of rows that may be missing (`NULL`), with its size, its
-- offset and its view. A row number is an integer, as the scrolling loops pass negative ones. The search
-- of `grid_sb_start_ignore_uninitialized` has no bound in the code; here it has fuel, one turn of the
-- ring, and answers `none` when that has run out: from there on it would meet the same rows again.
--
-- Screen: terminal.c and commands.c on the grid. Screen.State has the fields of `struct terminal` and
-- `struct grid` that these operations use, and the record `Hooks` of what they call elsewhere: the ranges
-- of URIs and underlines of a row (grid.c), selection.c, sixel.c, url-mode.c and the renderer. A row
-- pointer (`cur_row`) is an index of the ring. Screen.Row has `erase_cell_range`, `erase_line` and
-- `grid_row_alloc`; Screen.Damage the damage functions; Screen.View `cmd_scrollback_up` and
-- `cmd_scrollback_down`; Screen.Scroll `term_scroll*`; Screen.Cursor the cursor; Screen.Print
-- `term_print` and the three ASCII printers. What `int` arithmetic makes of a negative amount is
-- written out where it can occur, and where a sum of a parameter overflows, the result is `none`.
--
-- Base64: base64.c. `malloc` is a parameter, the tables are written as ranges.
--
-- Composed: composed.c, the search tree in which a cell's key leads to the characters that make it up. The
-- search past collisions has no bound in the code; here it has as much fuel as there are keys.
--
-- Selection: selection.c on the ring. Selection has the coordinates, `selection_on_rows`,
-- `selection_scroll_up`, `selection_scroll_down`, the moves of the view and the cancelling; Selection.Visit
-- the walks `foreach_selected*`. A walk goes on until it meets its last row; its fuel is one turn of the
-- ring. Selection.Scrollback has `term_erase_scrollback` of terminal.c; its loop over the rows of the
-- scrollback has no bound of its own, and one turn of the ring as fuel. The other children hold the proofs:
-- Rows on row numbers, Overlap, Scrolled, View, and Walk and Cells on
-- the cells a walk meets.
--
-- Osc: the answer to a request for the clipboard, `from_clipboard_cb` and its kin in osc.c. What is sent to
-- the slave is a list of bytes.
--
-- Uri: `uri_parse` and `hostname_is_localhost` of uri.c. Positions in the string are the suffixes left; the
-- children hold the search for a character, the port number, percent decoding, and a printer that stands for
-- no code, with the round trip through it. Tokenize: `tokenize_cmdline` of tokenize.c. FileLink:
-- the functions of file-link.c, which cleans and resolves file names and makes URIs of them and back.
--
-- Csi: csi.c apart from the cursor moves. Csi.Modes has the DEC private modes; what a mode does
-- elsewhere is the interface `Effects`, and the options of the build are the record `Build`. Csi.Sgr has
-- `csi_sgr` on the attributes (the pen); Csi.Sgr.Written says which parameters the parser's arrays hold.
-- Csi.Tabs has the tab stops, also those of vt.c. Csi.Edit has `term_erase` of terminal.c and the sequences
-- that erase, insert and delete.
--
-- Fdm: the handlers of fdm.c. A pointer is an index of a heap whose slots are never used again; what
-- `malloc` and `epoll_ctl` answer is an argument of the operation, and a callback is the list of operations
-- that it performs on the handlers.
--
-- Not modelled: dcs.c, and of csi.c and osc.c the sequences not named above; of selection.c the
-- boundaries of words and lines, the changes of a selection and the data offers; URL mode, search, tabs of
-- the window, sixel images, the configuration, input, rendering, Wayland, the hooks and signals of fdm.c,
-- and starting processes. `int` is taken as unbounded, except where the code relies on the width of a field
-- and where a cursor move's parameter can overflow it.
-- Cells that `xmalloc` leaves unwritten are modelled as empty cells.
pub mod Base
pub mod Vt
pub mod Grid
pub mod Screen
pub mod Base64
pub mod Composed
pub mod Selection
pub mod Osc
pub mod Uri
pub mod Tokenize
pub mod Csi
pub mod Fdm
pub mod FileLink
