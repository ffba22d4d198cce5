-- ===== src/Grid/Tests.antt =====
-- The coordinates of grid.c on a ring of eight rows, with a screen of three.
use foot.Base.{ℕ, ◌≡◌, refl, arith, replicate, none, Option, some, [], ◌∷◌, ◌%◌}
use foot.Grid.{Ring, grid_sb_start_ignore_uninitialized}
use foot.Grid.Start.{IsFirst, sb_start-IsFirst}
use foot.Grid.Coords.{IsRing}

abbrev empty_ring : Ring ℕ
empty_ring = record {
  num_rows = 8;
  offset = 6;
  view = 6;
  rows = replicate 8 (let o : Option ℕ = none in o);
}

empty_ring-IsRing : IsRing empty_ring
empty_ring-IsRing = record {
  bits = 3;
  power = refl;
  sized = refl;
  offset_in = omega arith;
  view_in = omega arith;
}

-- A ring in which only row 3 is allocated.
abbrev one_row : Ring ℕ
one_row = record { num_rows = 4; offset = 1; view = 1; rows = none ∷ none ∷ none ∷ some 7 ∷ [] }

one_row-IsRing : IsRing one_row
one_row-IsRing = record {
  bits = 2;
  power = refl;
  sized = refl;
  offset_in = omega arith;
  view_in = omega arith;
}

sb_start-IsFirst_example :
    (found : ℕ) × (grid_sb_start_ignore_uninitialized one_row 3 ≡ some found)
    × IsFirst one_row (4 % 4) found
sb_start-IsFirst_example = sb_start-IsFirst one_row one_row-IsRing 3 3 (omega arith) refl
