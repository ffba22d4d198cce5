-- ===== src/Screen/Scroll/Down/Shift.antt =====
-- What the swap loops of `term_scroll_reverse_partial` of terminal.c do to a ring, row by row.
use native.Mathlib.Nat.{add-mod_right}
use foot.Base.{
  ℕ, zero, suc, ◌+◌, ◌-◌, ◌%◌, ◌≤◌, ◌<◌, ◌≡◌, refl, sym, ap, ◌∙◌, arith, length-set, if◌then◌else◌,
  ◌==◌,
}
use foot.Base.Int.{pos, ◌-ℤ◌}
use foot.Grid.{Ring, grid_row_absolute, grid_swap_row, set_row}
use foot.Grid.Coords.{IsRing, row-pos, row-lower}
use foot.Screen.Scroll.{shift_down_loop}
use foot.Screen.Scroll.Up.Rows.{around}
use foot.Screen.Scroll.Shift.{place, content, content-set, SameFrame, IsRing-same}

-- The loop works on the window that begins `n` rows above row `from`; in it, row `from + m` has place
-- `n + m`.
module _ {R : Type 0} (g : Ring R) (v : IsRing g) (from n : ℕ) (fits : n ≤ g.num_rows) where
  window : ℕ
  window = from + (g.num_rows - n)

  upper : grid_row_absolute g (pos from -ℤ pos n) ≡ place g (window + 0)
  unfolding window
  upper = row-lower g v from n fits ∙ ap (λ k. k % g.num_rows) (omega arith)

  lower : grid_row_absolute g (pos from) ≡ place g (window + n)
  unfolding window
  lower =
      row-pos g v from
      ∙ sym (add-mod_right (g.offset + from) g.num_rows)
      ∙ ap (λ k. k % g.num_rows) (omega arith)

  pulled : Ring R
  pulled = grid_swap_row (pos from) (pos from -ℤ pos n) g

  pulled-SameFrame : SameFrame g pulled
  unfolding pulled grid_swap_row
  pulled-SameFrame = record {
    num_rows = refl;
    offset = refl;
    view = refl;
    sized = length-set _ _ _ ∙ length-set _ _ _;
  }

  -- One swap exchanges the first place of the window and place `n`.
  content-pulled :
      (y : ℕ)
      → n < g.num_rows
      → y < g.num_rows
      → content pulled (window + y) ≡ (
          if y == 0
          then content g (window + n)
          else if y == n
          then content g (window + 0)
          else content g (window + y))
  unfolding pulled grid_swap_row
  content-pulled y hn hy =
      rw (upper, lower)
        (content-set g1 window 0 y (content g (window + n)) (length-set _ _ _ ∙ v.sized)
            (omega arith) hy
          ∙ ap (λ z. if y == 0 then content g (window + n) else z)
              (content-set g window n y (content g (window + 0)) v.sized hn hy))
    where
      g1 : Ring R
      g1 = set_row g (place g (window + n)) (content g (window + 0))

-- What the loop over `c` rows from row `from` on does: the `c` places behind the first `n` of the window
-- that begins at place `b` go `n` places back, and those behind them stay.
pub record Pulled {R : Type 0} (b c n : ℕ) (g h : Ring R) : Type 0 where
  pub frame : SameFrame g h
  pub moved : (m : ℕ) → m < c → content h (b + m) ≡ content g (b + (n + m))
  pub stay : (k : ℕ) → c + n ≤ k → k < g.num_rows → content h (b + k) ≡ content g (b + k)

module _ {R : Type 0} (c from n : ℕ) (g h : Ring R) (v : IsRing g) (fits : n ≤ g.num_rows)
    (room : suc c + n ≤ g.num_rows)
    (ih : Pulled (from + 1 + (g.num_rows - n)) c n (pulled g v from n fits) h) where
  w : ℕ
  w = from + (g.num_rows - n)

  same : SameFrame g (pulled g v from n fits)
  same = pulled-SameFrame g v from n fits

  exchange :
      (y : ℕ)
      → y < g.num_rows
      → content (pulled g v from n fits) (w + y) ≡ (
          if y == 0
          then content g (w + n)
          else if y == n
          then content g (w + 0)
          else content g (w + y))
  unfolding w window
  exchange y hy = content-pulled g v from n fits y (omega arith) hy

  next : (k : ℕ) → from + 1 + (g.num_rows - n) + k ≡ w + suc k
  unfolding w
  next k = omega arith

  last : from + 1 + (g.num_rows - n) + (g.num_rows - 1) ≡ w + 0 + g.num_rows
  unfolding w
  last = omega (arith, room)

  stays : (k : ℕ) → suc c + n ≤ k → k < g.num_rows → content h (w + k) ≡ content g (w + k)
  stays zero lo hi = absurd (omega arith)
  stays (suc k) lo hi =
      ap (content h) (sym (next k))
      ∙ ih.stay k (omega arith) (omega (arith, same.num_rows))
      ∙ ap (content (pulled g v from n fits)) (next k)
      ∙ ground (arith, exchange (suc k) hi)

  moves : (m : ℕ) → m < suc c → content h (w + m) ≡ content g (w + (n + m))
  moves zero lt =
      sym (
        around h (from + 1 + (g.num_rows - n) + (g.num_rows - 1)) (w + 0)
          (omega (arith, last, ih.frame.num_rows, same.num_rows)))
      ∙ ih.stay (g.num_rows - 1) (omega arith) (omega (arith, same.num_rows))
      ∙ around (pulled g v from n fits) (from + 1 + (g.num_rows - n) + (g.num_rows - 1)) (w + 0)
          (omega (arith, last, same.num_rows))
      ∙ exchange 0 (omega arith)
      ∙ ap (content g) (omega arith)
  moves (suc m) lt =
      ap (content h) (sym (next m))
      ∙ ih.moved m (omega arith)
      ∙ ap (content (pulled g v from n fits)) {y = w + (n + suc m)}
          (next (n + m) ∙ ap (λ k. w + k) {y = n + suc m} (omega arith))
      ∙ ground (arith, exchange (n + suc m) (omega arith))

  Pulled-swap : Pulled (from + (g.num_rows - n)) (suc c) n g h
  unfolding w
  Pulled-swap = record {
    frame = record {
      num_rows = ih.frame.num_rows ∙ same.num_rows;
      offset = ih.frame.offset ∙ same.offset;
      view = ih.frame.view ∙ same.view;
      sized = ih.frame.sized ∙ same.sized;
    };
    moved = moves;
    stay = stays;
  }

pub shift_down_loop-Pulled :
    {R : Type 0} (c from n : ℕ) (g : Ring R)
    → IsRing g
    → c + n ≤ g.num_rows
    → Pulled (from + (g.num_rows - n)) c n g (shift_down_loop c from n g)
unfolding shift_down_loop pulled grid_swap_row
shift_down_loop-Pulled zero from n g v h = record {
  frame = record { num_rows = refl; offset = refl; view = refl; sized = refl };
  moved = λ m lt. absurd (omega arith);
  stay = λ k lo hi. refl;
}
shift_down_loop-Pulled (suc c) from n g v h =
    let fits : n ≤ g.num_rows = omega arith in
    let same = pulled-SameFrame g v from n fits in
    let ih =
      shift_down_loop-Pulled c (from + 1) n (pulled g v from n fits) (IsRing-same v same)
        (omega (arith, same.num_rows)) in
    Pulled-swap c from n g _ v fits h ih
