-- ===== src/Screen/Print/SingleShift.antt =====
-- Single shifts, by `term_single_shift` and `ascii_printer_single_shift` of terminal.c.
use foot.Base.{ℕ, ◌≡◌, refl, ap, ◌∙◌, get_or, not}
use foot.Screen.State.{Screen, Hooks, ascii, Charsets}
use foot.Screen.Cursor.{
  is_ascii, term_single_shift, update_charset_printer, term_update_ascii_printer,
}
use foot.Screen.Print.{print_ascii, ascii_printer_generic, ascii_printer_single_shift}

module _ {X T : Type 0} (hooks : Hooks X T) (wc idx : ℕ) (s : Screen X T) where
  -- What printing a character leaves of the character sets, once the sets `saved` were to come back.
  pub record Unshifted (selected : ℕ) (t : Screen X T) : Type 0 where
    pub selects : t.charsets.selected ≡ selected
    pub sets : t.charsets.set ≡ s.charsets.set
    pub flag : t.charset_affects_printer ≡ not (is_ascii (get_or s.charsets.set selected ascii))

  shifted_print :
      (t : Screen X T)
      → (ascii_printer_generic hooks wc (term_single_shift idx t)).charsets
        ≡ (term_single_shift idx t).charsets
      → t.charsets.set ≡ s.charsets.set
      → Unshifted t.charsets.selected (print_ascii hooks wc (term_single_shift idx t))
  unfolding print_ascii ascii_printer_single_shift update_charset_printer term_update_ascii_printer
      term_single_shift
  shifted_print t kept same = record {
    selects = ap (λ (c : Charsets). c.saved) kept;
    sets = ap (λ (c : Charsets). c.set) kept ∙ same;
    flag =
        ap (λ (c : Charsets). not (is_ascii (get_or c.set c.saved ascii))) kept
        ∙ ap (λ g. not (is_ascii (get_or g t.charsets.selected ascii))) same;
  }

  -- If printing leaves the character sets alone, a single shift lasts for one ASCII character: after it
  -- the set that was selected before is selected again, and the printer's flag is that set's.
  pub print_ascii-single_shift :
      (ascii_printer_generic hooks wc (term_single_shift idx s)).charsets
        ≡ (term_single_shift idx s).charsets
      → Unshifted s.charsets.selected (print_ascii hooks wc (term_single_shift idx s))
  print_ascii-single_shift kept = shifted_print s kept refl

  -- If printing leaves the character sets alone, then of two single shifts without a character between
  -- them the first one stays: after the next ASCII character its set is selected, and not the set
  -- that was selected before them.
  pub single_shift-twice :
      (first : ℕ)
      → (ascii_printer_generic hooks wc
          (term_single_shift idx (term_single_shift first s))).charsets
        ≡ (term_single_shift idx (term_single_shift first s)).charsets
      → Unshifted first (print_ascii hooks wc (term_single_shift idx (term_single_shift first s)))
  unfolding term_single_shift
  single_shift-twice first kept = shifted_print (term_single_shift first s) kept refl
