-- ===== src/Screen/Scroll/Down/Rows.antt =====
-- The rows that `term_scroll_reverse_partial` frees, the new offset, and its two swap loops together.
use native.Mathlib.Nat.{mod-add-mod, add-mod_right, mod-lt}
use foot.Base.{
  ℕ, zero, suc, ◌+◌, ◌-◌, ◌%◌, ◌≤◌, ◌<◌, ◌≡◌, ◌⊎◌, refl, sym, ap, ◌∙◌, arith, none, length-set,
  if◌then◌else◌, ◌==◌,
}
use foot.Base.Int.{pos}
use foot.Grid.{Ring, grid_row_absolute, row_at, set_row}
use foot.Grid.Coords.{IsRing, row-pos}
use foot.Screen.Scroll.{free_rows, shift_down_loop}
use foot.Screen.Scroll.Shift.{content, SameFrame, IsRing-same}
use foot.Screen.Scroll.Erase.{content-set_row}
use foot.Screen.Scroll.Up.Rows.{around}
use foot.Screen.Scroll.Down.Shift.{Pulled, shift_down_loop-Pulled}

-- Freeing `n` rows from row `r` on leaves the others.
pub record Freed {R : Type 0} (n r : ℕ) (g h : Ring R) : Type 0 where
  pub frame : SameFrame g h
  pub kept : (k : ℕ) → k < g.num_rows → (k < r) ⊎ (r + n ≤ k) → content h k ≡ content g k

module _ {R : Type 0} (r : ℕ) (g : Ring R) (v : IsRing g) where
  first_freed : Ring R
  first_freed = set_row g (grid_row_absolute g (pos r)) none

  first-SameFrame : SameFrame g first_freed
  unfolding first_freed
  first-SameFrame = record { num_rows = refl; offset = refl; view = refl; sized = length-set _ _ _ }

  first-content :
      (y : ℕ)
      → r < g.num_rows
      → y < g.num_rows
      → content first_freed y ≡ (if y == r then none else content g y)
  unfolding first_freed
  first-content y hr hy = rw (row-pos g v r) (content-set_row g r y none v.sized hr hy)

pub free_rows-Freed :
    {R : Type 0} (n r : ℕ) (g : Ring R)
    → IsRing g
    → r + n ≤ g.num_rows
    → Freed n r g (free_rows n r g)
unfolding free_rows first_freed
free_rows-Freed zero r g v h = record {
  frame = record { num_rows = refl; offset = refl; view = refl; sized = refl };
  kept = λ k hk out. refl;
}
free_rows-Freed (suc n) r g v h =
    let same = first-SameFrame r g v in
    let ih =
      free_rows-Freed n (r + 1) (first_freed r g v) (IsRing-same v same)
        (omega (arith, same.num_rows)) in
    record {
      frame = record {
        num_rows = ih.frame.num_rows ∙ same.num_rows;
        offset = ih.frame.offset ∙ same.offset;
        view = ih.frame.view ∙ same.view;
        sized = ih.frame.sized ∙ same.sized;
      };
      kept = λ k hk out.
          ih.kept k (omega (arith, same.num_rows)) (omega arith)
          ∙ ground (arith, first-content r g v k (omega arith) hk);
    }

-- The ring after the offset and the view have gone back.
abbrev pub backward : {R : Type 0} → Ring R → ℕ → Ring R
backward g n = record g {
  offset = (g.offset + g.num_rows - n) % g.num_rows;
  view = (g.offset + g.num_rows - n) % g.num_rows;
}

module _ {R : Type 0} (g : Ring R) (v : IsRing g) (n : ℕ) (fits : n ≤ g.num_rows) where
  pub backward-IsRing : IsRing (backward g n)
  backward-IsRing = record {
    bits = v.bits;
    power = v.power;
    sized = v.sized;
    offset_in = mod-lt (g.offset + g.num_rows - n) (omega (arith, v.offset_in));
    view_in = mod-lt (g.offset + g.num_rows - n) (omega (arith, v.offset_in));
  }

  pub content-back : (i : ℕ) → content (backward g n) (n + i) ≡ content g i
  content-back i = ap (row_at g) (
      mod-add-mod (g.offset + g.num_rows - n) g.num_rows (n + i)
      ∙ ap (λ x. x % g.num_rows) (omega arith)
      ∙ add-mod_right (g.offset + i) g.num_rows)

module _ {R : Type 0} (g : Ring R) (v : IsRing g) (rows start end n : ℕ) (fits : rows ≤ g.num_rows)
    (inside : end ≤ rows) (clamped : start + n ≤ end) where
  unfoldable pub lower_loop : Ring R
  lower_loop = shift_down_loop (rows - end) (end + n) n g

  unfoldable pub pulled_back : Ring R
  unfolding lower_loop
  pulled_back = shift_down_loop start n n lower_loop

  lower-Pulled : Pulled (end + n + (g.num_rows - n)) (rows - end) n g lower_loop
  unfolding lower_loop
  lower-Pulled = shift_down_loop-Pulled (rows - end) (end + n) n g v (omega arith)

  lower-num_rows : lower_loop.num_rows ≡ g.num_rows
  lower-num_rows = lower-Pulled.frame.num_rows

  upper-Pulled : Pulled (n + (lower_loop.num_rows - n)) start n lower_loop pulled_back
  unfolding pulled_back
  upper-Pulled =
      shift_down_loop-Pulled start n n lower_loop (IsRing-same v lower-Pulled.frame)
        (omega (arith, lower-num_rows))

  pub pulled_back-SameFrame : SameFrame g pulled_back
  pulled_back-SameFrame = record {
    num_rows = upper-Pulled.frame.num_rows ∙ lower-Pulled.frame.num_rows;
    offset = upper-Pulled.frame.offset ∙ lower-Pulled.frame.offset;
    view = upper-Pulled.frame.view ∙ lower-Pulled.frame.view;
    sized = upper-Pulled.frame.sized ∙ lower-Pulled.frame.sized;
  }

  back-num_rows : pulled_back.num_rows ≡ g.num_rows
  back-num_rows = pulled_back-SameFrame.num_rows

  lower_moved : (i : ℕ) → end ≤ i → i < rows → content lower_loop i ≡ content g (n + i)
  lower_moved i lo hi =
      sym (
        around lower_loop (end + n + (g.num_rows - n) + (i - end)) i
          (omega (arith, lower-num_rows)))
      ∙ lower-Pulled.moved (i - end) (omega arith)
      ∙ around g (end + n + (g.num_rows - n) + (n + (i - end))) (n + i) (omega arith)

  lower_stays : (i : ℕ) → n ≤ i → i < end → content lower_loop i ≡ content g i
  lower_stays i lo hi =
      sym (around lower_loop (i + g.num_rows) i (omega (arith, lower-num_rows)))
      ∙ sym (
          around lower_loop (end + n + (g.num_rows - n) + k) (i + g.num_rows)
            (omega (arith, lower-num_rows)))
      ∙ lower-Pulled.stay k (omega arith) (omega arith)
      ∙ around g (end + n + (g.num_rows - n) + k) (i + g.num_rows) (omega arith)
      ∙ around g (i + g.num_rows) i (omega arith)
    where
      k : ℕ
      k = i + g.num_rows - end

  upper_moved : (i : ℕ) → i < start → content pulled_back i ≡ content lower_loop (n + i)
  upper_moved i h =
      sym (
        around pulled_back (n + (lower_loop.num_rows - n) + i) i
          (omega (arith, back-num_rows, lower-num_rows)))
      ∙ upper-Pulled.moved i h
      ∙ around lower_loop (n + (lower_loop.num_rows - n) + (n + i)) (n + i)
          (omega (arith, lower-num_rows))

  upper_stays : (i : ℕ) → start + n ≤ i → i < rows → content pulled_back i ≡ content lower_loop i
  upper_stays i lo hi =
      sym (
        around pulled_back (n + (lower_loop.num_rows - n) + i) i
          (omega (arith, back-num_rows, lower-num_rows)))
      ∙ upper-Pulled.stay i lo (omega (arith, lower-num_rows))
      ∙ around lower_loop (n + (lower_loop.num_rows - n) + i) i (omega (arith, lower-num_rows))

  pub top_rows : (i : ℕ) → i < start → content pulled_back i ≡ content g (n + i)
  top_rows i h = upper_moved i h ∙ lower_stays (n + i) (omega arith) (omega arith)

  pub region_rows : (i : ℕ) → start + n ≤ i → i < end → content pulled_back i ≡ content g i
  region_rows i lo hi = upper_stays i lo (omega arith) ∙ lower_stays i (omega arith) hi

  pub bottom_rows : (i : ℕ) → end ≤ i → i < rows → content pulled_back i ≡ content g (n + i)
  bottom_rows i lo hi = upper_stays i (omega arith) hi ∙ lower_moved i lo hi
