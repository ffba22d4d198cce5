-- ===== src/Screen/Scroll/Down/Loops.antt =====
-- The ring that `term_scroll_reverse_partial` of terminal.c leaves before it is damaged, row by row.
use foot.Base.{ℕ, ◌+◌, ◌-◌, ◌≤◌, ◌<◌, ◌≡◌, ◌⊎◌, inl, inr, sym, ap, ◌∙◌, arith}
use foot.Grid.{Ring}
use foot.Grid.Coords.{IsRing}
use foot.Screen.State.{Row, Region, Screen, Hooks}
use foot.Screen.Scroll.{free_rows, erase_rows}
use foot.Screen.Scroll.Shift.{content, SameFrame, IsRing-same}
use foot.Screen.Scroll.Erase.{Erased, erase_rows-Erased}
use foot.Screen.Scroll.Up.{CanScroll}
use foot.Screen.Scroll.Down.Rows.{
  Freed, free_rows-Freed, backward, backward-IsRing, content-back, pulled_back,
  pulled_back-SameFrame, top_rows, region_rows, bottom_rows,
}

module _ {X T : Type 0} (hooks : Hooks X T) (region : Region) (n : ℕ) where
  module _ (s : Screen X T) (can : CanScroll region n s) where
    unfoldable pub free_ring : Ring (Row X)
    free_ring = free_rows n (region.end - n) s.ring

    pub free-Freed : Freed n (region.end - n) s.ring free_ring
    unfolding free_ring
    free-Freed =
        free_rows-Freed n (region.end - n) s.ring can.ring
          (omega (arith, can.clamped, can.inside, can.fits))

    pub free-IsRing : IsRing free_ring
    free-IsRing = IsRing-same can.ring free-Freed.frame

    unfoldable pub begin : Ring (Row X)
    begin = backward free_ring n

    pub n-fits : n ≤ free_ring.num_rows
    n-fits = omega (arith, free-Freed.frame.num_rows, can.fits, can.inside, can.clamped)

    pub begin-IsRing : IsRing begin
    unfolding begin
    begin-IsRing = backward-IsRing free_ring free-IsRing n n-fits

    begin-num_rows : begin.num_rows ≡ s.ring.num_rows
    unfolding begin
    begin-num_rows = free-Freed.frame.num_rows

    pub rows-fit : s.rows ≤ begin.num_rows
    rows-fit = omega (arith, begin-num_rows, can.fits)

    unfoldable pub loops : Ring (Row X)
    loops =
        pulled_back begin begin-IsRing s.rows region.start region.end n rows-fit can.inside
          can.clamped

    pub loops-SameFrame : SameFrame begin loops
    unfolding loops
    loops-SameFrame =
        pulled_back-SameFrame begin begin-IsRing s.rows region.start region.end n rows-fit
          can.inside can.clamped

    loops-IsRing : IsRing loops
    loops-IsRing = IsRing-same begin-IsRing loops-SameFrame

    unfoldable pub wiped : Ring (Row X)
    wiped = erase_rows hooks s.attrs s.num_cols s.cols n region.start loops

    pub wiped-Erased : Erased hooks s.attrs s.num_cols s.cols n region.start loops wiped
    unfolding wiped
    wiped-Erased =
        erase_rows-Erased hooks s.attrs s.num_cols s.cols n region.start loops loops-IsRing
          (omega (arith, loops-SameFrame.num_rows, rows-fit, can.inside, can.clamped))

    pub wiped-IsRing : IsRing wiped
    wiped-IsRing = IsRing-same loops-IsRing wiped-Erased.frame

    outside :
        (i : ℕ)
        → i < s.rows
        → (i < region.start) ⊎ (region.start + n ≤ i)
        → content wiped i ≡ content loops i
    outside i h out = wiped-Erased.kept i (omega (arith, loops-SameFrame.num_rows, rows-fit)) out

    back : (i : ℕ) → content begin (n + i) ≡ content free_ring i
    unfolding begin
    back i = content-back free_ring free-IsRing n n-fits i

    kept :
        (i : ℕ)
        → i < s.rows
        → (i < region.end - n) ⊎ (region.end ≤ i)
        → content free_ring i ≡ content s.ring i
    kept i h out = free-Freed.kept i (omega (arith, can.fits)) (omega (arith, can.clamped))

    pub wiped-above : (i : ℕ) → i < region.start → content wiped i ≡ content s.ring i
    unfolding loops
    wiped-above i h =
        outside i (omega (arith, can.clamped, can.inside)) (inl h)
        ∙ top_rows begin begin-IsRing s.rows region.start region.end n rows-fit can.inside
            can.clamped i h
        ∙ back i
        ∙ kept i (omega (arith, can.clamped, can.inside)) (inl (omega (arith, can.clamped)))

    pub wiped-moved :
        (i : ℕ) → region.start ≤ i → i + n < region.end → content wiped (i + n) ≡ content s.ring i
    unfolding loops
    wiped-moved i lo hi =
        outside (i + n) (omega (arith, can.inside)) (inr (omega arith))
        ∙ region_rows begin begin-IsRing s.rows region.start region.end n rows-fit can.inside
            can.clamped (i + n) (omega arith) hi
        ∙ ap (content begin) {y = n + i} (omega arith)
        ∙ back i
        ∙ kept i (omega (arith, can.inside)) (inl (omega arith))

    pub wiped-below : (i : ℕ) → region.end ≤ i → i < s.rows → content wiped i ≡ content s.ring i
    unfolding loops
    wiped-below i lo hi =
        outside i hi (inr (omega (arith, can.clamped)))
        ∙ bottom_rows begin begin-IsRing s.rows region.start region.end n rows-fit can.inside
            can.clamped i lo hi
        ∙ back i
        ∙ kept i hi (inr lo)

    pub wiped-follows : wiped.view ≡ wiped.offset
    unfolding begin
    wiped-follows =
        wiped-Erased.frame.view
        ∙ loops-SameFrame.view
        ∙ sym loops-SameFrame.offset
        ∙ sym wiped-Erased.frame.offset
