-- ===== src/Screen/Scroll/Erase.antt =====
-- What the erasing loops of terminal.c do to a ring, row by row.
use Prim.Native.Nat.add
use foot.Base.{
  ℕ, zero, suc, ◌+◌, ◌≤◌, ◌<◌, ◌≡◌, ◌⊎◌, inl, refl, ap, ◌∙◌, arith, Option, some, length,
  length-set, if◌then◌else◌, ◌==◌, ℕ_discrete,
}
use foot.Base.Int.{pos}
use foot.Grid.{Ring, grid_row_absolute, row_at, set_row}
use foot.Grid.Coords.{IsRing, row-pos}
use foot.Screen.State.{Attributes, Row, Hooks}
use foot.Screen.Row.{erase_line}
use foot.Screen.Scroll.{alloc_if_null, erase_rows}
use foot.Screen.Scroll.Shift.{place, content, content-set, SameFrame, IsRing-same}

pub content-set_row :
    {R : Type 0} (g : Ring R) (x y : ℕ) (r : Option R)
    → length g.rows ≡ g.num_rows
    → x < g.num_rows
    → y < g.num_rows
    → content (set_row g (place g x) r) y ≡ (if y == x then r else content g y)
content-set_row g x y r sized hx hy =
    rw (add.zero x, add.zero y) at (content-set g 0 x y r sized hx hy)

module _ {X T : Type 0} (hooks : Hooks X T) (attrs : Attributes) (num_cols cols : ℕ) where
  abbrev pub blank : Option (Row X) → Option (Row X)
  blank o = some (erase_line hooks attrs cols (alloc_if_null hooks num_cols o))

  pub record Erased (n r : ℕ) (g h : Ring (Row X)) : Type 0 where
    pub frame : SameFrame g h
    pub erased : (k : ℕ) → r ≤ k → k < r + n → content h k ≡ blank (content g k)
    pub kept : (k : ℕ) → k < g.num_rows → (k < r) ⊎ (r + n ≤ k) → content h k ≡ content g k

  first_erased : ℕ → Ring (Row X) → Ring (Row X)
  first_erased r g =
      set_row g (grid_row_absolute g (pos r)) (blank (row_at g (grid_row_absolute g (pos r))))

  module _ (r : ℕ) (g : Ring (Row X)) (v : IsRing g) where
    first-SameFrame : SameFrame g (first_erased r g)
    unfolding first_erased
    first-SameFrame = record {
      num_rows = refl;
      offset = refl;
      view = refl;
      sized = length-set _ _ _;
    }

    first-content :
        (y : ℕ)
        → r < g.num_rows
        → y < g.num_rows
        → content (first_erased r g) y ≡ (if y == r then blank (content g r) else content g y)
    unfolding first_erased
    first-content y hr hy =
        rw (row-pos g v r) (content-set_row g r y (blank (content g r)) v.sized hr hy)

    Erased-first :
        (n : ℕ) (h : Ring (Row X))
        → r + suc n ≤ g.num_rows
        → Erased n (r + 1) (first_erased r g) h
        → Erased (suc n) r g h
    Erased-first n h room ih = record {
      frame = record {
        num_rows = ih.frame.num_rows ∙ first-SameFrame.num_rows;
        offset = ih.frame.offset ∙ first-SameFrame.offset;
        view = ih.frame.view ∙ first-SameFrame.view;
        sized = ih.frame.sized ∙ first-SameFrame.sized;
      };
      erased = λ k lo hi. elim (ℕ_discrete k r) [
        | yes e ↦
            ih.kept k (omega (arith, first-SameFrame.num_rows)) (inl (omega arith))
            ∙ rw e (ground (arith, first-content r (omega arith) (omega arith)))
        | no ne ↦
            ih.erased k (omega arith) (omega arith)
            ∙ ap blank {x = content (first_erased r g) k} {y = content g k}
                (ground (arith, first-content k (omega arith) (omega arith)))
      ];
      kept = λ k hk out.
          ih.kept k (omega (arith, first-SameFrame.num_rows)) (omega arith)
          ∙ ground (arith, first-content k (omega arith) hk);
    }

  pub erase_rows-Erased :
      (n r : ℕ) (g : Ring (Row X))
      → IsRing g
      → r + n ≤ g.num_rows
      → Erased n r g (erase_rows hooks attrs num_cols cols n r g)
  unfolding erase_rows first_erased
  erase_rows-Erased zero r g v h = record {
    frame = record { num_rows = refl; offset = refl; view = refl; sized = refl };
    erased = λ k lo hi. absurd (omega arith);
    kept = λ k hk out. refl;
  }
  erase_rows-Erased (suc n) r g v h =
      Erased-first r g v n _ h
        (erase_rows-Erased n (r + 1) _ (IsRing-same v (first-SameFrame r g v)) (omega arith))
