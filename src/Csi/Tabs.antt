-- ===== src/Csi/Tabs.antt =====
-- Tab stops: `tab_set` of vt.c, and clearing them and moving to them in csi.c. The list is in ascending
-- order.
pub mod Stops
pub mod Moves
mod Tests
use foot.Base.{
  ℕ, zero, suc, ◌-◌, Bool, true, false, List, [], ◌∷◌, ◌++◌, Option, none, some, ltb, ◌==◌, ◌||◌,
  if◌then◌else◌,
}
use foot.Screen.State.{Screen}
use foot.Screen.Cursor.{term_cursor_left, term_cursor_right}

-- `tll_back(tab_stops) < col`, or an empty list.
unfoldable pub is_behind : ℕ → List ℕ → Bool
is_behind col [] = true
is_behind col (t ∷ []) = ltb t col
is_behind col (t ∷ u ∷ ts) = is_behind col (u ∷ ts)

-- The loop of `tab_set`.
unfoldable pub insert_before : ℕ → List ℕ → List ℕ
insert_before col [] = []
insert_before col (t ∷ ts) =
    let rest = t ∷ insert_before col ts in
    if ltb t col then rest else if ltb col t then col ∷ t ∷ ts else t ∷ ts

unfoldable pub tab_set : ℕ → List ℕ → List ℕ
unfolding is_behind insert_before
tab_set col tab_stops =
    if is_behind col tab_stops then tab_stops ++ col ∷ [] else insert_before col tab_stops

-- Clears the tab stop at a column (TBC).
unfoldable pub tab_clear : ℕ → List ℕ → List ℕ
tab_clear col [] = []
tab_clear col (t ∷ ts) =
    let rest = tab_clear col ts in if t == col then rest else if ltb col t then t ∷ ts else t ∷ rest

-- HTS and TBC: what sequences do to the list, at the column of the cursor.
pub data TabOperation : Type 0 where
  horizontal_tab_set : ℕ → TabOperation
  tabulation_clear : ℕ → TabOperation
  tabulation_clear_all : TabOperation

unfoldable pub perform_tab : TabOperation → List ℕ → List ℕ
unfolding tab_set tab_clear
perform_tab (horizontal_tab_set col) tab_stops = tab_set col tab_stops
perform_tab (tabulation_clear col) tab_stops = tab_clear col tab_stops
perform_tab tabulation_clear_all tab_stops = []

unfoldable pub perform_tabs : List TabOperation → List ℕ → List ℕ
unfolding perform_tab
perform_tabs [] tab_stops = tab_stops
perform_tabs (o ∷ os) tab_stops = perform_tabs os (perform_tab o tab_stops)

-- The first tab stop behind a column, or the last column.
unfoldable pub next_stop : ℕ → ℕ → List ℕ → ℕ
next_stop last col [] = last
next_stop last col (t ∷ ts) = let rest = next_stop last col ts in if ltb col t then t else rest

-- The last tab stop in front of a column, or the first column.
unfoldable pub previous_stop : ℕ → ℕ → List ℕ → ℕ
previous_stop found col [] = found
previous_stop found col (t ∷ ts) = previous_stop (if ltb t col then t else found) col ts

module _ {X T : Type 0} (tab_stops : List ℕ) where
  -- CHT. `xassert` says that the stop is not in front of the cursor.
  unfoldable pub tab_forward : ℕ → Screen X T → Screen X T
  unfolding next_stop
  tab_forward zero s = s
  tab_forward (suc n) s =
      let new_col = next_stop (s.cols - 1) s.cursor.col tab_stops in
      let s' = term_cursor_right (new_col - s.cursor.col) s in
      tab_forward n (record s' { cursor = record (s'.cursor) { lcf = s.cursor.lcf } })

  -- CBT.
  unfoldable pub tab_back : ℕ → Screen X T → Screen X T
  unfolding previous_stop
  tab_back zero s = s
  tab_back (suc n) s =
      let new_col = previous_stop 0 s.cursor.col tab_stops in
      tab_back n (term_cursor_left (s.cursor.col - new_col) s)
