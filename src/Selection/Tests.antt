-- ===== src/Selection/Tests.antt =====
-- Selections on a ring of eight rows, with a screen of three rows and four columns.
use foot.Base.{
  ℕ, ◌+◌, ◌%◌, ◌≤◌, ◌≡◌, ◌↔◌, refl, arith, Bool, true, false, List, [], ◌∷◌, Option, ◌⊎◌, none,
  some, replicate,
}
use foot.Base.Int.{pos}
use foot.Grid.{Ring, grid_row_abs_to_sb}
use foot.Grid.Coords.{IsRing}
use foot.Screen.State.{Row}
use foot.Selection.{Term, Calls, undir, no_range, selection_on_rows, selection_scroll_up}
use foot.Selection.Visit.{
  Range, foreach_selected_normal, foreach_selected, selection_block, selection_none,
}
use foot.Selection.Overlap.{IsSelectedRow, selection_on_rows-IsSelectedRow}
use foot.Selection.Scrolled.{Stays, selection_scroll_up-kept}
use foot.Selection.View.{up, down, move_views, SameRows, move_views-SameRows}
use foot.Selection.Walk.{until_false, block}
use foot.Selection.Cells.{foreach_selected-cells}

abbrev ring : Ring ℕ
ring = record {
  num_rows = 8;
  offset = 6;
  view = 6;
  rows = replicate 8 (let o : Option ℕ = none in o);
}

ring-IsRing : IsRing ring
ring-IsRing = record {
  bits = 3;
  power = refl;
  sized = refl;
  offset_in = omega arith;
  view_in = omega arith;
}

-- From the first row of the screen to its last one, the last one first.
abbrev upwards : Range
upwards = record { start = record { col = 1; row = pos 0 }; end = record { col = 2; row = pos 6 } }

-- A callback that collects the cells, the newest one first.
abbrev collect : List (ℕ × ℕ) → ℕ → ℕ → Bool × List (ℕ × ℕ)
collect cells r c = (true, (r, c) ∷ cells)

on_rows : selection_on_rows ring 3 upwards (pos 1) (pos 2) ≡ true
unfolding selection_on_rows foot.Grid.grid_row_abs_to_sb_precalc_sb_start foot.Base.Mask.and_mask
    foot.Base.Int.◌+ℤ◌ foot.Base.Int.◌-ℤ◌
on_rows = refl

selection_on_rows-IsSelectedRow_example :
    (selection_on_rows ring 3 upwards (pos 1) (pos 2) ≡ true)
    ↔ ((i : ℕ) × (1 ≤ i) × (i ≤ 2) × IsSelectedRow ring ring-IsRing 3 (omega arith) upwards i)
selection_on_rows-IsSelectedRow_example =
    selection_on_rows-IsSelectedRow ring ring-IsRing 3 (omega arith) upwards 1 2 (omega arith)
      (omega arith)

abbrev no_calls : Calls ℕ
no_calls = record {
  selection_stop_scroll_timer = λ t. t;
  render_refresh = λ t. t;
  search_selection_cancelled = λ t. t;
}

-- A terminal on such a ring, without the rows, with that selection.
abbrev selected_term : Term ℕ ℕ
selected_term = record {
  ring = record {
    num_rows = 8;
    offset = 6;
    view = 6;
    rows = replicate 8 (let o : Option (Row ℕ) = none in o);
  };
  rows = 3;
  cols = 4;
  selection = record {
    kind = selection_block;
    direction = undir;
    coords = upwards;
    pivot = upwards;
    ongoing = false;
  };
  rest = 0;
}

selected_ring-IsRing : IsRing selected_term.ring
selected_ring-IsRing = record {
  bits = 3;
  power = refl;
  sized = refl;
  offset_in = omega arith;
  view_in = omega arith;
}

abbrev after_scroll : Term ℕ ℕ
after_scroll = selection_scroll_up no_calls 2 selected_term

selection_scroll_up-kept_example :
    (Stays no_calls selected_term selected_ring-IsRing 2 0 6 (omega arith)
      × (after_scroll ≡ selected_term))
    ⊎ ((¬ Stays no_calls selected_term selected_ring-IsRing 2 0 6 (omega arith))
        × (after_scroll.selection.kind ≡ selection_none)
        × (after_scroll.selection.coords ≡ no_range))
selection_scroll_up-kept_example =
    selection_scroll_up-kept no_calls selected_term selected_ring-IsRing 2 0 6 (omega arith) refl
      refl

move_views-SameRows_example :
    SameRows ring ring-IsRing (move_views ring (up 7 ∷ down 2 ∷ []) upwards) upwards
move_views-SameRows_example =
    move_views-SameRows ring ring-IsRing (up 7 ∷ down 2 ∷ []) upwards
      (omega arith, (omega arith, tt))

foreach_selected-cells_example :
    foreach_selected collect ring 3 4 selection_block upwards.start upwards.end []
    ≡ some (until_false collect (block ring 3 2 5 1 2) [])
unfolding grid_row_abs_to_sb foot.Base.Mask.and_mask foot.Base.Int.◌+ℤ◌ foot.Base.Int.◌-ℤ◌
foreach_selected-cells_example =
    foreach_selected-cells collect ring ring-IsRing 3 4 (omega arith) 0 6 upwards.start upwards.end
      refl refl selection_block []

normal_cells :
    foreach_selected_normal collect ring 3 4 upwards.start upwards.end []
    ≡ some (true, (0, 1) ∷ (0, 0) ∷ (7, 3) ∷ (7, 2) ∷ (7, 1) ∷ (7, 0) ∷ (6, 3) ∷ (6, 2) ∷ [])
unfolding foreach_selected_normal grid_row_abs_to_sb foot.Base.Mask.and_mask foot.Base.Int.◌+ℤ◌
    foot.Base.Int.◌-ℤ◌
normal_cells = refl
