-- ===== src/Screen/Scroll/Up/Rows.antt =====
-- The two swap loops of `term_scroll_partial` together, and the new offset of the ring.
use native.Mathlib.Nat.{mod-add-mod, add-mod_right, mod-lt}
use foot.Base.{ℕ, ◌+◌, ◌-◌, ◌%◌, ◌≤◌, ◌<◌, ◌≡◌, sym, ap, ◌∙◌, arith}
use foot.Base.Int.{pos}
use foot.Grid.{Ring, grid_row, row_at}
use foot.Grid.Coords.{IsRing, row-pos}
use foot.Screen.Scroll.{shift_up_loop}
use foot.Screen.Scroll.Shift.{content, base, SameFrame, IsRing-same, Shifted, shift_up_loop-Shifted}

pub row-content :
    {R : Type 0} (g : Ring R) (v : IsRing g) (i : ℕ) → grid_row g (pos i) ≡ content g i
unfolding grid_row
row-content g v i = rw (row-pos g v i)

-- Two places that are the same row, going once round the ring.
pub around : {R : Type 0} (g : Ring R) (a b : ℕ) → a ≡ b + g.num_rows → content g a ≡ content g b
around g a b e =
    ap (row_at g)
      (ap (λ k. k % g.num_rows) (omega (arith, e)) ∙ add-mod_right (g.offset + b) g.num_rows)

module _ {R : Type 0} (g : Ring R) (v : IsRing g) (rows start end n : ℕ) (fits : rows ≤ g.num_rows)
    (inside : end ≤ rows) (clamped : start + n ≤ end) where
  unfoldable pub top : Ring R
  top = shift_up_loop start 0 n g

  unfoldable pub both : Ring R
  unfolding top
  both = shift_up_loop (rows - end) end n top

  top-Shifted : Shifted (base g 0 n) start n g top
  unfolding top
  top-Shifted = shift_up_loop-Shifted start 0 n g v (omega arith)

  top-IsRing : IsRing top
  top-IsRing = IsRing-same v top-Shifted.frame

  both-Shifted : Shifted (base top end n) (rows - end) n top both
  unfolding both
  both-Shifted =
      shift_up_loop-Shifted (rows - end) end n top top-IsRing
        (omega (arith, top-Shifted.frame.num_rows))

  pub both-SameFrame : SameFrame g both
  both-SameFrame = record {
    num_rows = both-Shifted.frame.num_rows ∙ top-Shifted.frame.num_rows;
    offset = both-Shifted.frame.offset ∙ top-Shifted.frame.offset;
    view = both-Shifted.frame.view ∙ top-Shifted.frame.view;
    sized = both-Shifted.frame.sized ∙ top-Shifted.frame.sized;
  }

  top-num_rows : top.num_rows ≡ g.num_rows
  top-num_rows = top-Shifted.frame.num_rows

  both-num_rows : both.num_rows ≡ g.num_rows
  both-num_rows = both-SameFrame.num_rows

  -- The first loop, in places of the screen. Place `i + num_rows - n` is what was row `i`.
  top_moved : (i : ℕ) → i < start → content top i ≡ content g (i + (g.num_rows - n))
  top_moved i h =
      sym (around top (base g 0 n + (n + i)) i (omega (arith, top-num_rows)))
      ∙ top-Shifted.moved i h
      ∙ ap (content g) (omega arith)

  top_stays : (i : ℕ) → start ≤ i → i < g.num_rows - n → content top i ≡ content g i
  top_stays i lo hi =
      sym (around top (base g 0 n + (n + i)) i (omega (arith, top-num_rows)))
      ∙ top-Shifted.stay (n + i) (omega arith) (omega arith)
      ∙ around g (base g 0 n + (n + i)) i (omega arith)

  -- The second loop leaves what is above the last `n` rows of the region.
  both_stays : (i : ℕ) → i < end - n → content both i ≡ content top i
  both_stays i hi =
      sym (around both (i + g.num_rows) i (omega (arith, both-num_rows)))
      ∙ sym (
          around both (base top end n + k) (i + g.num_rows)
            (omega (arith, both-num_rows, top-num_rows)))
      ∙ both-Shifted.stay k (omega arith) (omega (arith, top-num_rows))
      ∙ around top (base top end n + k) (i + g.num_rows) (omega (arith, top-num_rows))
      ∙ around top (i + g.num_rows) i (omega (arith, top-num_rows))
    where
      k : ℕ
      k = i + n + g.num_rows - end

  pub top_rows : (i : ℕ) → i < start → content both i ≡ content g (i + (g.num_rows - n))
  top_rows i h = both_stays i (omega arith) ∙ top_moved i h

  pub region_rows : (i : ℕ) → start ≤ i → i < end - n → content both i ≡ content g i
  region_rows i lo hi = both_stays i hi ∙ top_stays i lo (omega arith)

  pub bottom_rows : (i : ℕ) → end ≤ i → i < rows → content both i ≡ content g (i + (g.num_rows - n))
  bottom_rows i lo hi =
      sym (
        around both (base top end n + (n + (i - end))) i
          (omega (arith, both-num_rows, top-num_rows)))
      ∙ both-Shifted.moved (i - end) (omega arith)
      ∙ around top (base top end n + (i - end)) (i - n) (omega (arith, top-num_rows))
      ∙ top_stays (i - n) (omega arith) (omega arith)
      ∙ sym (around g (i + (g.num_rows - n)) (i - n) (omega arith))

-- The ring after the offset and the view have advanced.
abbrev pub forward : {R : Type 0} → Ring R → ℕ → Ring R
forward g n = record g { offset = (g.offset + n) % g.num_rows; view = (g.offset + n) % g.num_rows }

module _ {R : Type 0} (g : Ring R) (v : IsRing g) (n : ℕ) (fits : n ≤ g.num_rows) where
  pub forward-IsRing : IsRing (forward g n)
  forward-IsRing = record {
    bits = v.bits;
    power = v.power;
    sized = v.sized;
    offset_in = mod-lt (g.offset + n) (omega (arith, v.offset_in));
    view_in = mod-lt (g.offset + n) (omega (arith, v.offset_in));
  }

  pub content-forward : (k : ℕ) → content (forward g n) k ≡ content g (k + n)
  content-forward k =
      ap (row_at g)
        (mod-add-mod (g.offset + n) g.num_rows k ∙ ap (λ x. x % g.num_rows) (omega arith))

  pub content-backward : (i : ℕ) → content (forward g n) (i + (g.num_rows - n)) ≡ content g i
  content-backward i = content-forward (i + (g.num_rows - n)) ∙ around g _ i (omega arith)
