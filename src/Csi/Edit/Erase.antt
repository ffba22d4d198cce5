-- ===== src/Csi/Edit/Erase.antt =====
-- `term_erase` erases the cells from one to another in reading order.
use foot.Base.{
  ℕ, zero, suc, ℕ_discrete, ==_iff, ◌+◌, ◌-◌, ◌≤◌, ◌<◌, ◌≡◌, arith, Bool, true, false, ltb, leb,
  ◌==◌, ◌||◌, ◌&&◌,
}
use foot.Grid.Coords.{IsRing}
use foot.Screen.State.{Screen, Hooks}
use foot.Screen.Row.{erase_cell_range, erase_line}
use foot.Screen.Scroll.Shift.{IsRing-same}
use foot.Csi.Edit.{EraseHooks, erase_on_row, erase_lines, term_erase}
use foot.Csi.Edit.Wiped.{
  Wiped, Wiped-refl, Wiped-trans, Wiped-test, not_same, Wiped-row, cell-erased, cell-line,
}

-- Overwriting an image leaves the cells as they are, though it may mark them for the renderer.
pub record KeepsCells {X T : Type 0} (others : EraseHooks X T) : Type 0 where
  pub by_row :
      (row col width : ℕ) (s : Screen X T)
      → Wiped (λ r c. false) s (others.sixel_overwrite_by_row row col width s)
  pub by_rectangle :
      (row col height width : ℕ) (s : Screen X T)
      → Wiped (λ r c. false) s (others.sixel_overwrite_by_rectangle row col height width s)

-- The cell is neither before the first cell in reading order, nor behind the last.
abbrev pub is_between : ℕ → ℕ → ℕ → ℕ → ℕ → ℕ → Bool
is_between start_row start_col end_row end_col r c =
    (ltb start_row r || (start_row == r) && leb start_col c)
    && (ltb r end_row || (r == end_row) && leb c end_col)

-- The tests that the steps make, on one cell.
no_row : (r y : ℕ) → false ≡ (leb r y && ltb y (r + 0))
no_row r y = ground arith

next_row :
    (n r y : ℕ)
    → (((y == r) && true) || (leb (r + 1) y && ltb y (r + 1 + n))) ≡ (leb r y && ltb y (r + suc n))
next_row n r y = ground arith

one_row :
    (start_row start_col end_row end_col r c : ℕ)
    → start_row ≡ end_row
    → ((((r == start_row) && (leb start_col c && leb c end_col)) || false))
      ≡ is_between start_row start_col end_row end_col r c
one_row start_row start_col end_row end_col r c e = ground arith

abbrev several : ℕ → ℕ → ℕ → ℕ → ℕ → ℕ → ℕ → Bool
several start_row start_col end_row end_col cols r c =
    (((((r == start_row) && (leb start_col c && leb c (cols - 1)) || false)
          || leb (start_row + 1) r && ltb r (start_row + 1 + (end_row - (start_row + 1))))
        || false)
      || (r == end_row) && (leb 0 c && leb c end_col))
    || false

several_rows :
    (start_row start_col end_row end_col cols r c : ℕ)
    → start_row < end_row
    → c < cols
    → several start_row start_col end_row end_col cols r c
      ≡ is_between start_row start_col end_row end_col r c
several_rows start_row start_col end_row end_col cols r c lt hc = ground arith

module _ {X T : Type 0} (hooks : Hooks X T) (others : EraseHooks X T) where
  Wiped-cells :
      (s : Screen X T)
      → IsRing s.ring
      → (row start end : ℕ) → row < s.ring.num_rows
      → Wiped
          (λ r c. (r == row) && (leb start c && leb c end))
          s
          (erase_on_row hooks others row start end s)
  Wiped-cells s v row start end h =
      Wiped-row hooks s v row h (erase_cell_range hooks s.attrs start end)
        (λ c. leb start c && leb c end) (λ o c hc. cell-erased hooks s v row h start end o c)

  erase_lines-Wiped :
      (n r : ℕ) (s : Screen X T)
      → IsRing s.ring
      → r + n ≤ s.ring.num_rows
      → Wiped (λ y c. leb r y && ltb y (r + n)) s (erase_lines hooks others n r s)
  unfolding erase_lines
  erase_lines-Wiped zero r s v h = Wiped-test _ _ s s (Wiped-refl s) (λ y c hy hc. no_row r y)
  erase_lines-Wiped (suc n) r s v h =
      let first =
        Wiped-row hooks s v r (omega arith) (erase_line hooks s.attrs s.cols) (λ c. true)
          (cell-line hooks s v r (omega arith)) in
      Wiped-test _ _ s _
        (Wiped-trans _ _ s _ _ first
          (erase_lines-Wiped n (r + 1) _ (IsRing-same v first.frame) (omega arith)))
        (λ y c hy hc. next_row n r y)

  -- For two cells of the screen, the first no later than the second in reading order, on a ring whose
  -- size is a power of two and no smaller than the screen, and with image code that leaves the cells
  -- as they are, `term_erase` erases with the current background each cell from the first to the
  -- second in reading order, and leaves every other cell in the columns of the screen as it is, but for the mark that
  -- it has been rendered.
  pub term_erase-Wiped :
      KeepsCells others
      → (s : Screen X T) (start_row start_col end_row end_col : ℕ) → IsRing s.ring
      → s.rows ≤ s.ring.num_rows
      → end_row < s.rows
      → (start_row ≤ end_row)
      → Wiped
          (is_between start_row start_col end_row end_col)
          s
          (term_erase hooks others start_row start_col end_row end_col s)
  unfolding term_erase
  term_erase-Wiped keeps s start_row start_col end_row end_col v fits inside order =
      elim (ℕ_discrete start_row end_row) [
        | yes e ↦ rw ((==_iff start_row end_row).1 e) (
            Wiped-test _ _ s _
              (Wiped-trans _ _ s _ _ (Wiped-cells s v start_row start_col end_col (omega arith))
                (keeps.by_row start_row start_col (end_col + 1 - start_col) _))
              (λ r c hr hc. one_row start_row start_col end_row end_col r c e))
        | no ne ↦ rw (not_same start_row end_row ne) (
            let first =
              Wiped-trans _ _ s _ _ (Wiped-cells s v start_row start_col (s.cols - 1) (omega arith))
                (keeps.by_row start_row start_col (s.cols - start_col) _) in
            let lines = Wiped-trans _ _ s _ _ first (
              erase_lines-Wiped (end_row - (start_row + 1)) (start_row + 1) _
                (IsRing-same v first.frame) (omega (arith, first.frame.num_rows))) in
            let middle = Wiped-trans _ _ s _ _ lines (keeps.by_rectangle (start_row + 1) 0 _ _ _) in
            let last = Wiped-trans _ _ s _ _ middle (
              Wiped-cells _ (IsRing-same v middle.frame) end_row 0 end_col
                (omega (arith, middle.frame.num_rows))) in
            Wiped-test _ _ s _ (Wiped-trans _ _ s _ _ last (keeps.by_row end_row 0 (end_col + 1) _))
              (λ r c hr hc.
                several_rows start_row start_col end_row end_col s.cols r c (omega arith) hc))
      ]
