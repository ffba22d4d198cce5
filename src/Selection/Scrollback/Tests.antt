-- ===== src/Selection/Scrollback/Tests.antt =====
-- The scrollback of a ring of eight rows, with a screen of three.
use foot.Base.{ℕ, suc, ◌≡◌, ◌⊎◌, refl, arith, false, some, replicate}
use foot.Grid.Coords.{IsRing}
use foot.Screen.Row.{grid_row_alloc}
use foot.Selection.{Term, Calls, Selection, undir, no_range}
use foot.Selection.Visit.{selection_none}
use foot.Selection.Scrollback.{ScrollbackCalls, touches_scrollback, term_erase_scrollback}
use foot.Selection.Scrollback.Erased.{FreedFrom, term_erase_scrollback-FreedFrom}

abbrev no_calls : Calls ℕ
no_calls = record {
  selection_stop_scroll_timer = λ t. t;
  render_refresh = λ t. t;
  search_selection_cancelled = λ t. t;
}

-- Counts the rows that are freed.
abbrev counting : ScrollbackCalls ℕ ℕ
counting = record {
  destroy_images = λ a b g t. t;
  forget_row = λ i t. suc t;
  term_damage_view = λ g t. t;
}

abbrev full_term : Term ℕ ℕ
full_term = record {
  ring = record {
    num_rows = 8;
    offset = 6;
    view = 4;
    rows = replicate 8 (some (grid_row_alloc 2));
  };
  rows = 3;
  cols = 2;
  selection = record {
    kind = selection_none;
    direction = undir;
    coords = no_range;
    pivot = no_range;
    ongoing = false;
  };
  rest = 0;
}

full_ring-IsRing : IsRing full_term.ring
full_ring-IsRing = record {
  bits = 3;
  power = refl;
  sized = refl;
  offset_in = omega arith;
  view_in = omega arith;
}

untouched : touches_scrollback full_term.ring 3 no_range ≡ false
unfolding touches_scrollback foot.Selection.selection_get
untouched = refl

term_erase_scrollback-FreedFrom_example :
    (u : Term ℕ ℕ) × (term_erase_scrollback counting no_calls full_term ≡ some u)
    × FreedFrom 3 full_term.ring u.ring
    × ((u ≡ full_term) ⊎ (u.ring.view ≡ u.ring.offset))
term_erase_scrollback-FreedFrom_example =
    term_erase_scrollback-FreedFrom counting no_calls full_term full_ring-IsRing (omega arith)
      untouched
