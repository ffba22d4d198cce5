-- ===== src/Csi/Tabs/Tests.antt =====
-- Tab stops set, cleared and moved to.
use foot.Base.{ℕ, ◌≡◌, inl, refl, arith, true, List, [], ◌∷◌}
use foot.Screen.State.{Screen}
use foot.Screen.Tests.{small_screen}
use foot.Screen.Cursor.{term_cursor_right}
use foot.Csi.Tabs.{
  TabOperation, horizontal_tab_set, tabulation_clear, tabulation_clear_all, perform_tabs,
  tab_forward, tab_back,
}
use foot.Csi.Tabs.Stops.{is_tab, Above, perform_set_all, perform_tabs-set}
use foot.Csi.Tabs.Moves.{tab_back-tab_forward}

abbrev every_eight : List ℕ
every_eight = 0 ∷ 8 ∷ 16 ∷ 24 ∷ []

every_eight-Above : Above 0 every_eight
unfolding Above
every_eight-Above = (omega arith, (omega arith, (omega arith, (omega arith, tt))))

abbrev operations : List TabOperation
operations =
    horizontal_tab_set 12
    ∷ tabulation_clear 8
    ∷ horizontal_tab_set 30
    ∷ horizontal_tab_set 12
    ∷ tabulation_clear 9
    ∷ []

operations_run : perform_tabs operations every_eight ≡ 0 ∷ 12 ∷ 16 ∷ 24 ∷ 30 ∷ []
unfolding perform_tabs
operations_run = refl

cleared_run : perform_tabs (tabulation_clear_all ∷ horizontal_tab_set 3 ∷ []) every_eight ≡ 3 ∷ []
unfolding perform_tabs
cleared_run = refl

perform_tabs-set_example :
    Above 0 (perform_tabs operations every_eight)
    × ((c : ℕ)
        → is_tab c (perform_tabs operations every_eight)
          ≡ perform_set_all operations (λ c. is_tab c every_eight) c)
perform_tabs-set_example = perform_tabs-set operations every_eight every_eight-Above

abbrev tab_screen : Screen ℕ ℕ
tab_screen = record small_screen { cols = 80; cursor = record { row = 0; col = 8; lcf = true } }

forward_run :
    (tab_forward every_eight 1 tab_screen).cursor ≡ record { row = 0; col = 16; lcf = true }
unfolding tab_forward term_cursor_right
forward_run = refl

beyond_run : (tab_forward every_eight 5 tab_screen).cursor.col ≡ 79
unfolding tab_forward term_cursor_right
beyond_run = refl

tab_back-tab_forward_example :
    (tab_back every_eight 1 (tab_forward every_eight 1 tab_screen)).cursor.col ≡ 8
unfolding is_tab
tab_back-tab_forward_example =
    tab_back-tab_forward every_eight tab_screen every_eight-Above (omega arith) (inl refl)
