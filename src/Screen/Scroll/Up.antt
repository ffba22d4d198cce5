-- ===== src/Screen/Scroll/Up.antt =====
-- Scrolling up, by `term_scroll_partial` of terminal.c: which row of the screen shows what.
pub mod Rows
use native.Mathlib.Nat.{mod-add-mod, add-mod_right, mod-lt}
use foot.Base.{
  ℕ, zero, suc, ◌+◌, ◌-◌, ◌%◌, ◌^◌, ◌≤◌, ◌<◌, ◌≡◌, ◌⊎◌, inl, inr, refl, sym, ap, ◌∙◌, arith, Option,
  some, Bool, true, false, length, if◌then◌else◌, ◌==◌,
}
use foot.Base.Int.{ℤ, pos}
use foot.Base.Mask.{and_mask}
use foot.Grid.{Ring, grid_row_absolute, grid_row, row_at}
use foot.Grid.Coords.{IsRing, row-pos, and_mask-pos}
use foot.Screen.State.{Attributes, Row, Region, Screen, Hooks}
use foot.Screen.Row.{erase_line}
use foot.Screen.Scroll.{
  shift_up_loop, erase_rows, advance, scroll_rows, term_scroll_partial, alloc_if_null,
}
use foot.Screen.Scroll.Shift.{
  place, content, base, SameFrame, IsRing-same, Shifted, shift_up_loop-Shifted,
}
use foot.Screen.Scroll.Erase.{blank, Erased, erase_rows-Erased}
use foot.Screen.Scroll.Up.Rows.{
  row-content, top, both, both-SameFrame, top_rows, region_rows, bottom_rows, forward,
  forward-IsRing, content-forward, content-backward,
}

-- The region of rows is a part of the screen, and no more rows are scrolled than it has.
pub record CanScroll {X T : Type 0} (region : Region) (n : ℕ) (s : Screen X T) : Type 0 where
  pub ring : IsRing s.ring
  pub fits : s.rows ≤ s.ring.num_rows
  pub inside : region.end ≤ s.rows
  pub clamped : region.start + n ≤ region.end

module _ {X T : Type 0} (hooks : Hooks X T) (region : Region) (n : ℕ) where
  -- What scrolling a region of the screen up by `n` rows is to do, row by row.
  pub record ScrolledUp (s s' : Screen X T) : Type 0 where
    pub follows : s'.ring.view ≡ s'.ring.offset
    pub above : (i : ℕ) → i < region.start → grid_row s'.ring (pos i) ≡ grid_row s.ring (pos i)
    pub moved :
        (i : ℕ)
        → region.start ≤ i
        → i < region.end - n
        → grid_row s'.ring (pos i) ≡ grid_row s.ring (pos (i + n))
    pub blank :
        (i : ℕ)
        → region.end - n ≤ i
        → i < region.end
        → (r : Row X) × (grid_row s'.ring (pos i) ≡ some (erase_line hooks s.attrs s.cols r))
    pub below :
        (i : ℕ) → region.end ≤ i → i < s.rows → grid_row s'.ring (pos i) ≡ grid_row s.ring (pos i)

  module _ (s : Screen X T) (can : CanScroll region n s) where
    abbrev start : Ring (Row X)
    start = forward s.ring n

    start-IsRing : IsRing start
    start-IsRing =
        forward-IsRing s.ring can.ring n (omega (arith, can.fits, can.inside, can.clamped))

    loops : Ring (Row X)
    loops = both start start-IsRing s.rows region.start region.end n can.fits can.inside can.clamped

    loops-SameFrame : SameFrame start loops
    unfolding loops both
    loops-SameFrame =
        both-SameFrame start start-IsRing s.rows region.start region.end n can.fits can.inside
          can.clamped

    loops-IsRing : IsRing loops
    loops-IsRing = IsRing-same start-IsRing loops-SameFrame

    wiped : Ring (Row X)
    wiped = erase_rows hooks s.attrs s.num_cols s.cols n (region.end - n) loops

    wiped-Erased : Erased hooks s.attrs s.num_cols s.cols n (region.end - n) loops wiped
    unfolding wiped
    wiped-Erased =
        erase_rows-Erased hooks s.attrs s.num_cols s.cols n (region.end - n) loops loops-IsRing
          (omega (arith, loops-SameFrame.num_rows, can.fits, can.inside, can.clamped))

    wiped-IsRing : IsRing wiped
    wiped-IsRing = IsRing-same loops-IsRing wiped-Erased.frame

    outside :
        (i : ℕ)
        → i < s.rows
        → (i < region.end - n) ⊎ (region.end ≤ i)
        → content wiped i ≡ content loops i
    outside i h out =
        wiped-Erased.kept i (omega (arith, loops-SameFrame.num_rows, can.fits))
          (omega (arith, can.clamped))

  -- What `advance` does where the view follows the screen.
  record Advanced (s t : Screen X T) : Type 0 where
    pub ring : t.ring ≡ forward s.ring n
    pub attrs : t.attrs ≡ s.attrs
    pub num_cols : t.num_cols ≡ s.num_cols
    pub cols : t.cols ≡ s.cols
    pub rows : t.rows ≡ s.rows

  advance-Advanced :
      (s : Screen X T)
      → IsRing s.ring
      → s.ring.view ≡ s.ring.offset
      → Advanced s (advance hooks region n s)
  unfolding advance
  advance-Advanced s v e = rw same (record {
    ring = ap (λ k. record (s.ring) { offset = k; view = k }) masked;
    attrs = refl;
    num_cols = refl;
    cols = refl;
    rows = refl;
  })
    where
      same : (s.ring.view == s.ring.offset) ≡ true
      same = ground (arith, e)

      masked :
          and_mask (pos (s.ring.offset + n)) s.ring.num_rows ≡ (s.ring.offset + n) % s.ring.num_rows
      masked = rw v.power (and_mask-pos v.bits (s.ring.offset + n))

  scroll_rows-ring :
      (s t : Screen X T)
      → Advanced s t
      → (scroll_rows hooks region n t).ring
        ≡ erase_rows hooks s.attrs s.num_cols s.cols n (region.end - n) (
            shift_up_loop
              (s.rows - region.end)
              region.end
              n
              (shift_up_loop region.start 0 n (forward s.ring n)))
  unfolding scroll_rows
  scroll_rows-ring s t a = rw (a.ring, a.attrs, a.num_cols, a.cols, a.rows) refl

  module _ (s : Screen X T) (can : CanScroll region n s) (follows : s.ring.view ≡ s.ring.offset)
      (sel : hooks.has_selection s.rest ≡ false) (six : hooks.sixel_scroll_up n s ≡ s) where
    result-ring : (term_scroll_partial hooks region n s).ring ≡ wiped s can
    unfolding term_scroll_partial wiped loops both top
    result-ring = rw (sel, six) (scroll_rows-ring s _ (advance-Advanced s can.ring follows))

  module _ (s : Screen X T) (can : CanScroll region n s) where
    shown : (i : ℕ) → grid_row (wiped s can) (pos i) ≡ content (wiped s can) i
    shown i = row-content (wiped s can) (wiped-IsRing s can) i

    -- The rows of the screen after the loops.
    wiped-above : (i : ℕ) → i < region.start → content (wiped s can) i ≡ content s.ring i
    unfolding loops
    wiped-above i h =
        outside s can i (omega (arith, can.clamped, can.inside)) (inl (omega (arith, can.clamped)))
        ∙ top_rows (start s can) (start-IsRing s can) s.rows region.start region.end n can.fits
            can.inside can.clamped i h
        ∙ content-backward s.ring can.ring n (omega (arith, can.clamped, can.inside, can.fits)) i

    wiped-moved :
        (i : ℕ)
        → region.start ≤ i
        → i < region.end - n
        → content (wiped s can) i ≡ content s.ring (i + n)
    unfolding loops
    wiped-moved i lo hi =
        outside s can i (omega (arith, can.inside)) (inl hi)
        ∙ region_rows (start s can) (start-IsRing s can) s.rows region.start region.end n can.fits
            can.inside can.clamped i lo hi
        ∙ content-forward s.ring can.ring n (omega (arith, can.clamped, can.inside, can.fits)) i

    wiped-below : (i : ℕ) → region.end ≤ i → i < s.rows → content (wiped s can) i ≡ content s.ring i
    unfolding loops
    wiped-below i lo hi =
        outside s can i hi (inr lo)
        ∙ bottom_rows (start s can) (start-IsRing s can) s.rows region.start region.end n can.fits
            can.inside can.clamped i lo hi
        ∙ content-backward s.ring can.ring n (omega (arith, can.clamped, can.inside, can.fits)) i

    wiped-blank :
        (i : ℕ)
        → region.end - n ≤ i
        → i < region.end
        → content (wiped s can) i ≡ blank hooks s.attrs s.num_cols s.cols (content (loops s can) i)
    wiped-blank i lo hi = (wiped-Erased s can).erased i lo (omega (arith, can.clamped))

    wiped-follows : (wiped s can).view ≡ (wiped s can).offset
    wiped-follows =
        (wiped-Erased s can).frame.view
        ∙ (loops-SameFrame s can).view
        ∙ sym (loops-SameFrame s can).offset
        ∙ sym (wiped-Erased s can).frame.offset

    -- On a ring whose size is a power of two and not below the screen's, in a region of the screen
    -- that has at least `n` rows, where the view follows the screen, no selection is active and no
    -- sixel image is to be moved, scrolling up by `n` rows moves the region's rows up by `n`,
    -- leaves rows that were erased in the current background at its end, leaves the rows above and
    -- below it where they were on the screen, and the view still follows the screen.
    pub term_scroll_partial-ScrolledUp :
        s.ring.view ≡ s.ring.offset
        → hooks.has_selection s.rest ≡ false
        → hooks.sixel_scroll_up n s ≡ s
        → ScrolledUp s (term_scroll_partial hooks region n s)
    term_scroll_partial-ScrolledUp follows sel six = record {
      follows = rw e (wiped-follows);
      above = λ i h. rw e (shown i ∙ wiped-above i h ∙ sym (row-content s.ring can.ring i));
      moved = λ i lo hi.
          rw e (shown i ∙ wiped-moved i lo hi ∙ sym (row-content s.ring can.ring (i + n)));
      blank = λ i lo hi. (
        alloc_if_null hooks s.num_cols (content (loops s can) i),
        rw e (shown i ∙ wiped-blank i lo hi),
      );
      below = λ i lo hi. rw e (shown i ∙ wiped-below i lo hi ∙ sym (row-content s.ring can.ring i));
    }
      where
        e : (term_scroll_partial hooks region n s).ring ≡ wiped s can
        e = result-ring s can follows sel six
