-- ===== src/Screen/Print/Fast.antt =====
-- The fast printer of terminal.c does what the generic one does, where the terminal chooses it.
use foot.Base.{
  ℕ, zero, suc, ◌+◌, ◌-◌, ◌≡◌, refl, sym, ap, ◌∙◌, arith, List, [], ◌∷◌, Option, none, some, true,
  false, Bool-cases, inl, inr, leb, set, get_or,
}
use mathlib.Core.Option
use foot.Screen.State.{Row, Screen, Hooks, ascii}
use foot.Screen.Cursor.{is_ascii}
use foot.Screen.Print.{
  on_cur_row, graphic_char, print_linewrap, print_insert, wrap_wide, print_extra, print_at_cursor,
  spacers, advance_cursor, term_print, ascii_printer_generic, ascii_printer_fast,
}

set-set : {A : Type 0} (xs : List A) (i : ℕ) (a b : A) → set (set xs i a) i b ≡ set xs i b
set-set [] i a b = refl
set-set (x ∷ xs) zero a b = refl
set-set (x ∷ xs) (suc i) a b = ap (◌∷◌ x) (set-set xs i a b)

-- Two changes of one row, one after the other.
set-map :
    {R : Type 0} (xs : List (Option R)) (i : ℕ) (f g : R → R)
    → set
        (set xs i (Option.map f (get_or xs i none)))
        i
        (Option.map g (get_or (set xs i (Option.map f (get_or xs i none))) i none))
      ≡ set xs i (Option.map (λ r. g (f r)) (get_or xs i none))
set-map [] i f g = refl
set-map (none ∷ xs) zero f g = refl
set-map (some r ∷ xs) zero f g = refl
set-map (x ∷ xs) (suc i) f g = ap (◌∷◌ x) (set-map xs i f g)

module _ {X T : Type 0} where
  on_cur_row-twice :
      (f g : Row X → Row X) (s : Screen X T)
      → on_cur_row g (on_cur_row f s) ≡ on_cur_row (λ r. g (f r)) s
  on_cur_row-twice f g s =
      ap (λ xs. record s { ring = record (s.ring) { rows = xs } })
        (set-map s.ring.rows s.cur_row f g)

  on_cur_row-advance :
      (f : Row X → Row X) (col : ℕ) (s : Screen X T)
      → on_cur_row f (advance_cursor col s) ≡ advance_cursor col (on_cur_row f s)
  unfolding advance_cursor
  on_cur_row-advance f col s = elim (Bool-cases (leb s.cols (col + 1))) [
    | inl e ↦ rw e refl
    | inr e ↦ rw e refl
  ]

module _ {X T : Type 0} (hooks : Hooks X T) where
  -- What the bits that `term_update_ascii_printer` tests stand for: an ASCII character set, no insert
  -- mode, no open URI, no extended underline, and no sixel image at the cursor, the last four where
  -- the character is printed.
  pub record FastAllowed (s : Screen X T) : Type 0 where
    pub charset : is_ascii (get_or s.charsets.set s.charsets.selected ascii) ≡ true
    pub insert : (print_linewrap hooks s).insert_mode ≡ false
    pub uri : hooks.osc8_uri (print_linewrap hooks s).rest ≡ false
    pub underline : hooks.underline_extended (print_linewrap hooks s).rest ≡ false
    pub sixel : hooks.sixel_overwrite_at_cursor 1 (print_linewrap hooks s) ≡ print_linewrap hooks s

  one_after : (c : ℕ) → c + 1 - 1 ≡ c
  one_after c = omega arith

  map-map :
      {A B C : Type 0} (f : A → B) (g : B → C) (o : Option A)
      → Option.map g (Option.map f o) ≡ Option.map (λ a. g (f a)) o
  map-map f g none = refl
  map-map f g (some a) = refl

  -- What both printers do behind the linewrap.
  at_once : ℕ → (Option X → Option X) → Screen X T → Screen X T
  unfolding advance_cursor
  at_once wc extra w =
      advance_cursor w.cursor.col
        (record (on_cur_row
          (λ r. record r {
            dirty = true;
            linebreak = true;
            cells = set r.cells w.cursor.col (record { wc = wc; attrs = w.attrs });
            extra = extra r.extra;
          })
          w) { rest = hooks.set_last_printed wc w.rest })

  abbrev erase_extra : ℕ → Option X → Option X
  erase_extra col =
      Option.map (λ x. hooks.underline_range_erase col col (hooks.uri_range_erase col col x))

  generic-at_once :
      (wc : ℕ) (w : Screen X T)
      → hooks.osc8_uri w.rest ≡ false
      → hooks.underline_extended w.rest ≡ false
      → print_at_cursor hooks wc 1 w.cursor.col w ≡ at_once wc (erase_extra w.cursor.col) w
  unfolding print_at_cursor print_extra spacers at_once
  generic-at_once wc w uri underline =
      rw (uri, underline, one_after)
        (ap (λ m. at_once wc m w)
          (λ i o.
            map-map (hooks.uri_range_erase w.cursor.col w.cursor.col)
              (hooks.underline_range_erase w.cursor.col w.cursor.col) o i))

  fast-at_once :
      (wc : ℕ) (s : Screen X T)
      → ascii_printer_fast hooks wc s
        ≡ at_once wc (erase_extra (print_linewrap hooks s).cursor.col) (print_linewrap hooks s)
  unfolding ascii_printer_fast at_once
  fast-at_once wc s =
      on_cur_row-advance erase w.cursor.col written
      ∙ ap (advance_cursor w.cursor.col)
          (on_cur_row-twice write erase (record w { rest = hooks.set_last_printed wc w.rest }))
    where
      w : Screen X T
      w = print_linewrap hooks s

      write : Row X → Row X
      write r = record r {
        dirty = true;
        linebreak = true;
        cells = set r.cells w.cursor.col (record { wc = wc; attrs = w.attrs });
      }

      erase : Row X → Row X
      erase r = record r { extra = erase_extra w.cursor.col r.extra }

      written : Screen X T
      written = record (on_cur_row write w) { rest = hooks.set_last_printed wc w.rest }

  graphic_char-ascii :
      (s : Screen X T) (wc : ℕ)
      → is_ascii (get_or s.charsets.set s.charsets.selected ascii) ≡ true
      → graphic_char s wc ≡ wc
  unfolding graphic_char
  graphic_char-ascii s wc e = rw e refl

  print_insert-off : (width : ℕ) (s : Screen X T) → s.insert_mode ≡ false → print_insert width s ≡ s
  unfolding print_insert
  print_insert-off width s e = rw e refl

  wrap_wide-narrow : (s : Screen X T) → wrap_wide hooks 1 s ≡ s
  unfolding wrap_wide
  wrap_wide-narrow s = refl

  generic-placed :
      (wc : ℕ) (s : Screen X T)
      → FastAllowed s
      → ascii_printer_generic hooks wc s
        ≡ print_at_cursor hooks wc 1 (print_linewrap hooks s).cursor.col (print_linewrap hooks s)
  unfolding ascii_printer_generic term_print
  generic-placed wc s v =
      ap
        (λ c.
          print_at_cursor hooks c 1 placed.cursor.col (hooks.sixel_overwrite_at_cursor 1 placed))
        (graphic_char-ascii s wc v.charset)
      ∙ ap (λ p. print_at_cursor hooks wc 1 p.cursor.col (hooks.sixel_overwrite_at_cursor 1 p))
          {x = placed} {y = w} (wrap_wide-narrow (print_insert 1 w) ∙ print_insert-off 1 w v.insert)
      ∙ ap (print_at_cursor hooks wc 1 w.cursor.col) v.sixel
    where
      w : Screen X T
      w = print_linewrap hooks s

      placed : Screen X T
      placed = wrap_wide hooks 1 (print_insert 1 w)

  -- Where the terminal may choose the fast printer, it does exactly what the generic printer does.
  pub ascii_printer_fast-generic :
      (wc : ℕ) (s : Screen X T)
      → FastAllowed s
      → ascii_printer_fast hooks wc s ≡ ascii_printer_generic hooks wc s
  ascii_printer_fast-generic wc s v =
      fast-at_once wc s
      ∙ sym (generic-at_once wc (print_linewrap hooks s) v.uri v.underline)
      ∙ sym (generic-placed wc s v)
