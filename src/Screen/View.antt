-- ===== src/Screen/View.antt =====
-- commands.c: scrolling the view through the scrollback.
pub mod Position
use foot.Base.{ℕ, ◌+◌, ◌-◌, Option, some, leb, ltb, ◌==◌, ◌||◌, if◌then◌else◌, min}
use foot.Base.Int.{pos, ◌-ℤ◌}
use foot.Base.Mask.{and_mask}
use mathlib.Core.Option
use foot.Grid.{grid_sb_start_ignore_uninitialized, grid_row_abs_to_sb_precalc_sb_start}
use foot.Screen.State.{Screen, Hooks, scroll_in_view, scroll_reverse_in_view}
use foot.Screen.Damage.{term_damage_rows_in_view, term_damage_view, term_damage_scroll}

module _ {X T : Type 0} (hooks : Hooks X T) where
  abbrev pub set_view : ℕ → Screen X T → Screen X T
  set_view v s = record s { ring = record (s.ring) { view = v } }

  abbrev refreshed : Screen X T → Screen X T
  refreshed s = record s { rest = hooks.refresh s }

  -- The part of `cmd_scrollback_up` that moves the view, by `rows` rows that there are.
  unfoldable pub view_up : ℕ → Screen X T → Screen X T
  unfolding term_damage_scroll term_damage_rows_in_view term_damage_view
  view_up rows s =
      let new_view = and_mask (pos (s.ring.view + s.ring.num_rows) -ℤ pos rows) s.ring.num_rows in
      let s' = set_view new_view (record s { rest = hooks.selection_view_up new_view s }) in
      refreshed (
        if ltb rows s.rows
        then term_damage_rows_in_view 0 (rows - 1)
            (term_damage_scroll scroll_reverse_in_view (record { start = 0; end = s.rows }) rows s')
        else term_damage_view s')

  -- How far up the view can go. `none` where the code would not come to an end.
  unfoldable pub rows_above_view : Screen X T → Option ℕ
  rows_above_view s =
      Option.map (λ sb_start. grid_row_abs_to_sb_precalc_sb_start s.ring sb_start (pos s.ring.view))
        (grid_sb_start_ignore_uninitialized s.ring s.rows)

  unfoldable pub cmd_scrollback_up : ℕ → Screen X T → Option (Screen X T)
  unfolding view_up rows_above_view
  cmd_scrollback_up rows s =
      if s.is_alt || hooks.urls_mode_is_active s.rest
      then some s
      else Option.map (λ above. let n = min rows above in if n == 0 then s else view_up n s)
          (rows_above_view s)

  -- The part of `cmd_scrollback_down` that moves the view.
  unfoldable pub view_down : ℕ → Screen X T → Screen X T
  unfolding term_damage_scroll term_damage_rows_in_view term_damage_view
  view_down rows s =
      let new_view = and_mask (pos (s.ring.view + rows)) s.ring.num_rows in
      let s' = set_view new_view (record s { rest = hooks.selection_view_down new_view s }) in
      refreshed (
        if ltb rows s.rows
        then term_damage_rows_in_view (s.rows - rows) (s.rows - 1)
            (term_damage_scroll scroll_in_view (record { start = 0; end = s.rows }) rows s')
        else term_damage_view s')

  -- How far down the view can go: to the screen.
  unfoldable pub rows_below_view : Screen X T → ℕ
  rows_below_view s =
      if leb s.ring.view s.ring.offset
      then s.ring.offset - s.ring.view
      else s.ring.offset + (s.ring.num_rows - s.ring.view)

  unfoldable pub cmd_scrollback_down : ℕ → Screen X T → Screen X T
  unfolding view_down rows_below_view
  cmd_scrollback_down rows s =
      if s.is_alt || hooks.urls_mode_is_active s.rest
      then s
      else (let n = min rows (rows_below_view s) in if n == 0 then s else view_down n s)
