-- ===== src/Selection/View.antt =====
-- Moving the view adds turns of the ring to the rows of the selection, or takes them off; which rows
-- are selected never changes.
use foot.Base.{
  ℕ, ◌+◌, ◌%◌, ◌<◌, ◌≡◌, All, refl, sym, ap, ◌∙◌, List, [], ◌∷◌, ltb, Bool-cases, inl, inr,
}
use foot.Base.Int.{ℤ, pos, negsuc, ◌+ℤ◌}
use foot.Base.Mask.{and_mask}
use native.Mathlib.Nat.{add-mod_right, mod-mod}
use foot.Grid.{Ring}
use foot.Grid.Coords.{IsRing, add_pos}
use foot.Selection.{selection_get, selection_view_up, selection_view_down}
use foot.Selection.Visit.{Range}
use foot.Selection.Rows.{mask_row}

-- The moves of the view, to the row that it has afterwards.
pub data ViewMove : Type 0 where
  up down : ℕ → ViewMove

abbrev pub new_view : ViewMove → ℕ
new_view (up w) = w
new_view (down w) = w

module _ {R : Type 0} where
  -- The callers set the view once the selection is told.
  unfoldable pub move_view : Ring R → ViewMove → Range → Range
  unfolding selection_view_up selection_view_down
  move_view g (up w) sel = selection_view_up g w sel
  move_view g (down w) sel = selection_view_down g w sel

  unfoldable pub move_views : Ring R → List ViewMove → Range → Range
  unfolding move_view
  move_views g [] sel = sel
  move_views g (m ∷ moves) sel =
      move_views (record g { view = new_view m }) moves (move_view g m sel)

module _ {R : Type 0} (g : Ring R) (v : IsRing g) where
  get-turn :
      (col a : ℕ)
      → selection_get g (record { col = col; row = pos a +ℤ pos g.num_rows })
        ≡ selection_get g (record { col = col; row = pos a })
  unfolding selection_get
  get-turn col a = rw (add_pos a g.num_rows) (
      ap (λ k. record { col = col; row = pos k })
        (mask_row g v (a + g.num_rows) ∙ add-mod_right a g.num_rows ∙ sym (mask_row g v a)))

  get-bounded :
      (col a : ℕ)
      → selection_get g (record { col = col; row = pos (and_mask (pos a) g.num_rows) })
        ≡ selection_get g (record { col = col; row = pos a })
  unfolding selection_get
  get-bounded col a =
      ap (λ k. record { col = col; row = pos k })
        (mask_row g v (and_mask (pos a) g.num_rows)
          ∙ ap (λ x. x % g.num_rows) (mask_row g v a)
          ∙ mod-mod a g.num_rows
          ∙ sym (mask_row g v a))

  -- The same rows are selected.
  abbrev pub SameRows : Range → Range → Type 0
  SameRows sel sel' =
      (selection_get g sel.start ≡ selection_get g sel'.start)
      × (selection_get g sel.end ≡ selection_get g sel'.end)

  abbrev range_of : ℕ → ℤ → ℕ → ℤ → Range
  range_of c r c' r' = record {
    start = record { col = c; row = r };
    end = record { col = c'; row = r' };
  }

  up-SameRows :
      (w c : ℕ) (r : ℤ) (c' : ℕ) (r' : ℤ)
      → SameRows (selection_view_up g w (range_of c r c' r')) (range_of c r c' r')
  unfolding selection_view_up
  up-SameRows w c (negsuc a) c' r' = (refl, refl)
  up-SameRows w c (pos a) c' (negsuc b) = elim (Bool-cases (ltb w g.view)) [
    | inl e ↦ rw e (refl, refl)
    | inr e ↦ rw e (get-turn c a, refl)
  ]
  up-SameRows w c (pos a) c' (pos b) = elim (Bool-cases (ltb w g.view)) [
    | inl e ↦ rw e (refl, refl)
    | inr e ↦ rw e (get-turn c a, get-turn c' b)
  ]

  down-SameRows :
      (w c : ℕ) (r : ℤ) (c' : ℕ) (r' : ℤ)
      → SameRows (selection_view_down g w (range_of c r c' r')) (range_of c r c' r')
  unfolding selection_view_down
  down-SameRows w c (negsuc a) c' r' = (refl, refl)
  down-SameRows w c (pos a) c' (negsuc b) = elim (Bool-cases (ltb g.view w)) [
    | inl e ↦ rw e (refl, refl)
    | inr e ↦ rw e (get-bounded c a, refl)
  ]
  down-SameRows w c (pos a) c' (pos b) = elim (Bool-cases (ltb g.view w)) [
    | inl e ↦ rw e (refl, refl)
    | inr e ↦ rw e (get-bounded c a, get-bounded c' b)
  ]

  move-SameRows : (m : ViewMove) (sel : Range) → SameRows (move_view g m sel) sel
  unfolding move_view
  move-SameRows (up w) sel = up-SameRows w sel.start.col sel.start.row sel.end.col sel.end.row
  move-SameRows (down w) sel = down-SameRows w sel.start.col sel.start.row sel.end.col sel.end.row

moved :
    {R : Type 0} {g : Ring R}
    → IsRing g
    → (m : ViewMove) → new_view m < g.num_rows
    → IsRing (record g { view = new_view m })
moved v m h = record {
  bits = v.bits;
  power = v.power;
  sized = v.sized;
  offset_in = v.offset_in;
  view_in = h;
}

module _ {R : Type 0} where
  -- However often the view moves up and down, wherever to, over a ring whose size is a power of two, the
  -- two ends that `selection_get_start` and `selection_get_end` give stay what they were.
  pub move_views-SameRows :
      (g : Ring R) (v : IsRing g) (moves : List ViewMove) (sel : Range)
      → All (λ m. new_view m < g.num_rows) moves
      → SameRows g v (move_views g moves sel) sel
  unfolding move_views selection_get
  move_views-SameRows g v [] sel a = (refl, refl)
  move_views-SameRows g v (m ∷ moves) sel a =
      let g' = record g { view = new_view m } in
      let rest = move_views-SameRows g' (moved v m a.0) moves (move_view g m sel) a.1 in
      let here = move-SameRows g v m sel in (rest.0 ∙ here.0, rest.1 ∙ here.1)
