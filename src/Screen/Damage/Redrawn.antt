-- ===== src/Screen/Damage/Redrawn.antt =====
-- Damage marks rows and cells for the renderer, and changes nothing else of a ring.
use foot.Base.{
  ℕ, zero, suc, ◌+◌, ◌≡◌, ◌⊎◌, inl, inr, refl, ap, ◌∙◌, List, [], ◌∷◌, Option, none, some, true,
  map, set, get_or, length, length-set,
}
use foot.Base.Int.{pos}
use mathlib.Core.Option
use foot.Grid.{Ring, row_at, grid_row_absolute_in_view}
use foot.Screen.State.{Cell, Row}
use foot.Screen.Damage.{damage_cell, damage_row, damage_at, damage_rows_in_view}

-- The same row, or the row damaged.
pub Redrawn : {X : Type 0} → Option (Row X) → Option (Row X) → Type 0
Redrawn o o' = (o' ≡ o) ⊎ (o' ≡ Option.map damage_row o)

pub Redrawn-same : {X : Type 0} {o o' : Option (Row X)} → o' ≡ o → Redrawn o o'
unfolding Redrawn
Redrawn-same e = inl e

cells_twice : (cs : List Cell) → map damage_cell (map damage_cell cs) ≡ map damage_cell cs
cells_twice [] = refl
cells_twice (c ∷ cs) = ap (◌∷◌ (damage_cell c)) (cells_twice cs)

damage_twice :
    {X : Type 0} (o : Option (Row X))
    → Option.map damage_row (Option.map damage_row o) ≡ Option.map damage_row o
damage_twice none = refl
damage_twice (some r) =
    ap (λ cs. some (record r { dirty = true; cells = cs })) (cells_twice r.cells)

pub Redrawn-trans : {X : Type 0} (o p q : Option (Row X)) → Redrawn o p → Redrawn p q → Redrawn o q
unfolding Redrawn
Redrawn-trans o p q (inl e) (inl f) = inl (f ∙ e)
Redrawn-trans o p q (inl e) (inr f) = inr (f ∙ ap (Option.map damage_row) e)
Redrawn-trans o p q (inr e) (inl f) = inr (f ∙ e)
Redrawn-trans o p q (inr e) (inr f) = inr (f ∙ ap (Option.map damage_row) e ∙ damage_twice o)

damage_one :
    {X : Type 0} (xs : List (Option (Row X))) (i j : ℕ)
    → Redrawn
        (get_or xs j none)
        (get_or (set xs i (Option.map damage_row (get_or xs i none))) j none)
unfolding Redrawn
damage_one [] i j = inl refl
damage_one (x ∷ xs) zero zero = inr refl
damage_one (x ∷ xs) zero (suc j) = inl refl
damage_one (x ∷ xs) (suc i) zero = inl refl
damage_one (x ∷ xs) (suc i) (suc j) = damage_one xs i j

pub record Damaged {X : Type 0} (g h : Ring (Row X)) : Type 0 where
  pub num_rows : h.num_rows ≡ g.num_rows
  pub offset : h.offset ≡ g.offset
  pub view : h.view ≡ g.view
  pub sized : length h.rows ≡ length g.rows
  pub rows : (j : ℕ) → Redrawn (row_at g j) (row_at h j)

pub damage_rows_in_view-Damaged :
    {X : Type 0} (n start : ℕ) (g : Ring (Row X)) → Damaged g (damage_rows_in_view n start g)
unfolding damage_rows_in_view
damage_rows_in_view-Damaged zero start g = record {
  num_rows = refl;
  offset = refl;
  view = refl;
  sized = refl;
  rows = λ j. Redrawn-same refl;
}
damage_rows_in_view-Damaged (suc n) start g =
    let i = grid_row_absolute_in_view g (pos start) in
    let ih = damage_rows_in_view-Damaged n (start + 1) (damage_at i g) in
    record {
      num_rows = ih.num_rows;
      offset = ih.offset;
      view = ih.view;
      sized = ih.sized ∙ length-set _ _ _;
      rows = λ j. Redrawn-trans _ _ _ (damage_one g.rows i j) (ih.rows j);
    }
