-- ===== src/Screen/Scroll/Down.antt =====
-- Scrolling down, by `term_scroll_reverse_partial` of terminal.c: which row of the screen shows what.
pub mod Shift
pub mod Rows
pub mod Loops
use native.Mathlib.Nat.{add-mod_right}
use foot.Base.{
  ℕ, zero, suc, ◌+◌, ◌-◌, ◌%◌, ◌^◌, ◌≤◌, ◌<◌, ◌≡◌, ◌⊎◌, inl, inr, refl, sym, ap, ap₂, ◌∙◌, arith,
  Option, some, true, false, Bool, Bool-cases, ◌==◌, if◌then◌else◌,
}
use foot.Base.Int.{pos, ◌-ℤ◌}
use foot.Base.Mask.{and_mask}
use foot.Grid.{Ring, grid_row, row_at}
use foot.Grid.Coords.{IsRing, and_mask-sub, sub_pos}
use foot.Screen.State.{Row, Region, Screen, Hooks, Attributes}
use foot.Screen.Row.{erase_line}
use foot.Screen.Damage.{damage_rows_in_view, term_damage_view, term_damage_rows_in_view}
use foot.Screen.Damage.Redrawn.{
  Redrawn, Redrawn-same, Redrawn-trans, Damaged, damage_rows_in_view-Damaged,
}
use foot.Screen.Scroll.{
  free_rows, shift_down_loop, erase_rows, alloc_if_null, view_scrolled_out, recede,
  scroll_reverse_rows, freed, redraws_view, redraw_if, scroll_reverse_freed,
  term_scroll_reverse_partial, set_cur_row,
}
use foot.Screen.Scroll.Shift.{place, content, SameFrame, IsRing-same}
use foot.Screen.Scroll.Erase.{blank, Erased, erase_rows-Erased}
use foot.Screen.Scroll.Up.{CanScroll}
use foot.Screen.Scroll.Up.Rows.{row-content}
use foot.Screen.Scroll.Down.Rows.{
  Freed, free_rows-Freed, backward, backward-IsRing, content-back, lower_loop, pulled_back,
  pulled_back-SameFrame, top_rows, region_rows, bottom_rows,
}
use foot.Screen.Scroll.Down.Loops.{
  free_ring, free-Freed, free-IsRing, n-fits, begin, loops, loops-SameFrame, wiped, wiped-Erased,
  wiped-IsRing, wiped-above, wiped-moved, wiped-below, wiped-follows,
}

module _ {X T : Type 0} (hooks : Hooks X T) (region : Region) (n : ℕ) where
  -- What scrolling a region of the screen down by `n` rows is to do, row by row; a row may be marked for
  -- the renderer.
  pub record ScrolledDown (s s' : Screen X T) : Type 0 where
    pub follows : s'.ring.view ≡ s'.ring.offset
    pub above :
        (i : ℕ) → i < region.start → Redrawn (grid_row s.ring (pos i)) (grid_row s'.ring (pos i))
    pub blank :
        (i : ℕ)
        → region.start ≤ i
        → i < region.start + n
        → (r : Row X) × Redrawn
            (some (erase_line hooks s.attrs s.cols r))
            (grid_row s'.ring (pos i))
    pub moved :
        (i : ℕ)
        → region.start ≤ i
        → i + n < region.end
        → Redrawn (grid_row s.ring (pos i)) (grid_row s'.ring (pos (i + n)))
    pub below :
        (i : ℕ)
        → region.end ≤ i
        → i < s.rows
        → Redrawn (grid_row s.ring (pos i)) (grid_row s'.ring (pos i))

  -- What `recede` does where the view follows the screen.
  record Receded (s t : Screen X T) : Type 0 where
    pub ring : t.ring ≡ backward s.ring n
    pub attrs : t.attrs ≡ s.attrs
    pub num_cols : t.num_cols ≡ s.num_cols
    pub cols : t.cols ≡ s.cols
    pub rows : t.rows ≡ s.rows

  recede-Receded :
      (s : Screen X T)
      → IsRing s.ring
      → n ≤ s.ring.num_rows
      → s.ring.view ≡ s.ring.offset
      → Receded s (recede hooks region n s)
  unfolding recede
  recede-Receded s v h e = rw same (record {
    ring = ap (λ k. record (s.ring) { offset = k; view = k }) masked;
    attrs = refl;
    num_cols = refl;
    cols = refl;
    rows = refl;
  })
    where
      same : (s.ring.view == s.ring.offset) ≡ true
      same = ground (arith, e)

      turn :
          s.ring.offset + 2 ^ v.bits + 2 ^ v.bits - n ≡ s.ring.offset + 2 ^ v.bits - n + 2 ^ v.bits
      turn = omega (arith, h, v.power)

      masked :
          and_mask (pos (s.ring.offset + s.ring.num_rows) -ℤ pos n) s.ring.num_rows
          ≡ (s.ring.offset + s.ring.num_rows - n) % s.ring.num_rows
      masked =
          rw (v.power, sub_pos (s.ring.offset + 2 ^ v.bits) n)
            (and_mask-sub v.bits (s.ring.offset + 2 ^ v.bits) n (omega (arith, v.power))
              ∙ ap (λ k. k % 2 ^ v.bits) turn
              ∙ add-mod_right (s.ring.offset + 2 ^ v.bits - n) (2 ^ v.bits))

  module _ (s : Screen X T) (can : CanScroll region n s)
      (view_follows : s.ring.view ≡ s.ring.offset) (sel : hooks.has_selection s.rest ≡ false)
      (images : hooks.sixel_scroll_down n (freed hooks region n s) ≡ freed hooks region n s) where
    receded : Receded (freed hooks region n s) (recede hooks region n (freed hooks region n s))
    unfolding freed free_ring
    receded =
        recede-Receded (freed hooks region n s) (free-IsRing hooks region n s can)
          (n-fits hooks region n s can)
          (omega (
            arith,
            (free-Freed hooks region n s can).frame.view,
            (free-Freed hooks region n s can).frame.offset,
            view_follows,
          ))

    looped : Screen X T
    looped = scroll_reverse_rows hooks region n (recede hooks region n (freed hooks region n s))

    looped-ring : looped.ring ≡ wiped hooks region n s can
    unfolding looped scroll_reverse_rows wiped loops pulled_back lower_loop begin free_ring freed
    looped-ring =
        rw (receded.ring, receded.attrs, receded.num_cols, receded.cols, receded.rows) refl

    from_freed :
        term_scroll_reverse_partial hooks region n s
        ≡ scroll_reverse_freed hooks region n (freed hooks region n s)
    unfolding term_scroll_reverse_partial
    from_freed = rw sel (ap (scroll_reverse_freed hooks region n) images)

    redraw_if-Damaged :
        (b : Bool) (t : Screen X T) (g : Ring (Row X))
        → t.ring ≡ g
        → Damaged g (redraw_if hooks b t).ring
    unfolding redraw_if term_damage_view term_damage_rows_in_view
    redraw_if-Damaged true t g e = rw e (damage_rows_in_view-Damaged (t.rows - 1 + 1 - 0) 0 g)
    redraw_if-Damaged false t g e = rw e (record {
      num_rows = refl;
      offset = refl;
      view = refl;
      sized = refl;
      rows = λ j. Redrawn-same refl;
    })

    result-Damaged :
        Damaged (wiped hooks region n s can) (term_scroll_reverse_partial hooks region n s).ring
    unfolding scroll_reverse_freed looped
    result-Damaged = rw from_freed (
        redraw_if-Damaged (redraws_view hooks n (freed hooks region n s)) looped
          (wiped hooks region n s can) looped-ring)

    final : Ring (Row X)
    final = (term_scroll_reverse_partial hooks region n s).ring

    final-num_rows : final.num_rows ≡ (wiped hooks region n s can).num_rows
    unfolding final
    final-num_rows = result-Damaged.num_rows

    final-IsRing : IsRing final
    unfolding final
    final-IsRing = IsRing-same (wiped-IsRing hooks region n s can) (record {
      num_rows = result-Damaged.num_rows;
      offset = result-Damaged.offset;
      view = result-Damaged.view;
      sized = result-Damaged.sized;
    })

    -- A row of the screen, from what the loops left of it.
    shown :
        (i : ℕ) (o : Option (Row X))
        → content (wiped hooks region n s can) i ≡ o
        → Redrawn o (grid_row final (pos i))
    unfolding final
    shown i o e = rw (row-content final final-IsRing i) (
        Redrawn-trans o (content (wiped hooks region n s can) i) (content final i) (Redrawn-same e)
          (rw same_place (result-Damaged.rows (place (wiped hooks region n s can) i))))
      where
        same_place : place final i ≡ place (wiped hooks region n s can) i
        same_place = ap₂ (λ o m. (o + i) % m) result-Damaged.offset result-Damaged.num_rows

    -- On a ring whose size is a power of two and not below the screen's, in a region of the screen
    -- that has at least `n` rows, where the view follows the screen, no selection is active and no
    -- sixel image is to be moved, scrolling down by `n` rows moves the region's rows down by `n`,
    -- leaves rows that were erased in the current background at its start, leaves the rows above
    -- and below it where they were on the screen, and the view still follows the screen. Rows may
    -- have been marked for the renderer.
    pub term_scroll_reverse_partial-ScrolledDown :
        ScrolledDown s (term_scroll_reverse_partial hooks region n s)
    unfolding final
    term_scroll_reverse_partial-ScrolledDown = record {
      follows =
          result-Damaged.view ∙ wiped-follows hooks region n s can ∙ sym result-Damaged.offset;
      above = λ i h.
          shown i _ (wiped-above hooks region n s can i h ∙ sym (row-content s.ring can.ring i));
      blank = λ i lo hi. (
        alloc_if_null hooks s.num_cols (content (loops hooks region n s can) i),
        shown i _ ((wiped-Erased hooks region n s can).erased i lo hi),
      );
      moved = λ i lo hi.
          shown (i + n) _
            (wiped-moved hooks region n s can i lo hi ∙ sym (row-content s.ring can.ring i));
      below = λ i lo hi.
          shown i _
            (wiped-below hooks region n s can i lo hi ∙ sym (row-content s.ring can.ring i));
    }
