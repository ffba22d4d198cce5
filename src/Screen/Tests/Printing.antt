-- ===== src/Screen/Tests/Printing.antt =====
-- The printers of terminal.c on a small screen.
use foot.Screen.Print.SingleShift.{Unshifted, single_shift-twice}
use foot.Base.{◌≡◌, refl}
use foot.Screen.Cursor.{term_single_shift}
use foot.Screen.Print.{print_ascii, ascii_printer_fast, ascii_printer_generic}
use foot.Screen.Print.Fast.{FastAllowed, ascii_printer_fast-generic}
use foot.Screen.Tests.{no_hooks, small_screen}

small_FastAllowed : FastAllowed no_hooks small_screen
unfolding foot.Screen.Print.print_linewrap
small_FastAllowed = record {
  charset = refl;
  insert = refl;
  uri = refl;
  underline = refl;
  sixel = refl;
}

ascii_printer_fast-generic_example :
    ascii_printer_fast no_hooks 65 small_screen ≡ ascii_printer_generic no_hooks 65 small_screen
ascii_printer_fast-generic_example =
    ascii_printer_fast-generic no_hooks 65 small_screen small_FastAllowed

shifted_kept :
    (ascii_printer_generic no_hooks 65 (term_single_shift 2 small_screen)).charsets
    ≡ (term_single_shift 2 small_screen).charsets
unfolding ascii_printer_generic term_single_shift
shifted_kept = refl

shifted_twice_kept :
    (ascii_printer_generic no_hooks 65
      (term_single_shift 3 (term_single_shift 2 small_screen))).charsets
    ≡ (term_single_shift 3 (term_single_shift 2 small_screen)).charsets
unfolding ascii_printer_generic term_single_shift
shifted_twice_kept = refl

single_shift-twice_example :
    Unshifted no_hooks 65 3 small_screen 2
      (print_ascii no_hooks 65 (term_single_shift 3 (term_single_shift 2 small_screen)))
single_shift-twice_example = single_shift-twice no_hooks 65 3 small_screen 2 shifted_twice_kept
