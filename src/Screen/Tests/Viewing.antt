-- ===== src/Screen/Tests/Viewing.antt =====
-- The view of commands.c over a full scrollback.
use foot.Screen.View.{rows_above_view, rows_below_view, cmd_scrollback_up}
use foot.Screen.View.Position.{cmd_scrollback_up-below}
use foot.Base.{
  ℕ, zero, suc, ◌+◌, ◌-◌, min, ◌≤◌, ◌<◌, ◌≡◌, refl, arith, List, [], ◌∷◌, some, none, true, false,
  replicate, length,
}
use foot.Base.Int.{pos, negsuc}
use foot.Grid.{Ring, grid_row}
use foot.Grid.Coords.{IsRing}
use foot.Screen.State.{Screen}
use foot.Screen.Tests.{no_hooks, letter_row, small_screen}

-- A screen with a full scrollback, and the view one row above it.
abbrev viewed_screen : Screen ℕ ℕ
viewed_screen = record small_screen {
  ring = record { num_rows = 8; offset = 6; view = 5; rows = replicate 8 (some (letter_row 65)) };
}

viewed_ring-IsRing : IsRing viewed_screen.ring
viewed_ring-IsRing = record {
  bits = 3;
  power = refl;
  sized = refl;
  offset_in = omega arith;
  view_in = omega arith;
}

viewed_above : rows_above_view no_hooks viewed_screen ≡ some 3
unfolding rows_above_view foot.Base.Mask.and_mask foot.Base.Int.◌-ℤ◌ foot.Base.Int.◌+ℤ◌
    foot.Grid.grid_sb_start_ignore_uninitialized foot.Grid.grid_row_abs_to_sb_precalc_sb_start
viewed_above = refl

viewed_below : rows_below_view no_hooks viewed_screen ≡ 1
unfolding rows_below_view
viewed_below = refl

cmd_scrollback_up-below_example :
    (t : Screen ℕ ℕ) × (cmd_scrollback_up no_hooks 2 viewed_screen ≡ some t)
    × (rows_below_view no_hooks t ≡ rows_below_view no_hooks viewed_screen + min 2 3)
cmd_scrollback_up-below_example =
    cmd_scrollback_up-below no_hooks 2 viewed_screen viewed_ring-IsRing refl refl 3 viewed_above
      (omega (arith, viewed_below))
