-- ===== src/Screen/Cursor/OnScreen.antt =====
-- The cursor operations of terminal.c keep the cursor on the screen, and restoring undoes saving.
use foot.Base.{◌+◌, Option, some, none, ℕ, ◌-◌, ◌≤◌, ◌<◌, ◌≡◌, ◌⊎◌, refl, arith, min, inl, inr}
use foot.Screen.State.{Screen, Origin, absolute, relative}
use mathlib.Core.Option
use foot.Screen.Cursor.{
  int_limit, term_cursor_to, term_cursor_home, term_cursor_col, term_cursor_left, term_cursor_right,
  term_cursor_up, term_cursor_down, term_row_rel_to_abs, term_carriage_return, top, bottom,
}

-- The moves that the control sequences of csi.c ask for, with their parameters, which are never 0.
pub data Move : Type 0 where
  cursor_position : ℕ → ℕ → Move
  cursor_column cursor_row cursor_up cursor_down cursor_right cursor_left next_line previous_line :
      ℕ → Move
  home carriage_return : Move

Origin-cases : (o : Origin) → (o ≡ absolute) ⊎ (o ≡ relative)
Origin-cases absolute = inl refl
Origin-cases relative = inr refl

-- The row that a move asks for, counted from 0, where it asks for one.
abbrev pub row_asked : Move → Option ℕ
row_asked (cursor_position row col) = some (row - 1)
row_asked (cursor_row row) = some (row - 1)
row_asked home = some 0
row_asked _ = none

module _ {X T : Type 0} where
  -- The cases `f` and `H`, `` ` `` and `G`, `d`, and `A` to `F` of `csi_dispatch`; `none` where an `int`
  -- overflows.
  unfoldable pub apply : Move → Screen X T → Option (Screen X T)
  unfolding term_cursor_to term_cursor_home term_cursor_col term_cursor_left term_cursor_right
      term_cursor_up term_cursor_down term_carriage_return
  apply (cursor_position row col) s =
      Option.map (λ r. term_cursor_to r (min col s.cols - 1) s) (term_row_rel_to_abs s (row - 1))
  apply (cursor_column col) s = some (term_cursor_col (min col s.cols - 1) s)
  apply (cursor_row row) s =
      Option.map (λ r. term_cursor_to r s.cursor.col s) (term_row_rel_to_abs s (row - 1))
  apply (cursor_up n) s = some (term_cursor_up n s)
  apply (cursor_down n) s = some (term_cursor_down n s)
  apply (cursor_right n) s = some (term_cursor_right n s)
  apply (cursor_left n) s = some (term_cursor_left n s)
  apply (next_line n) s = some (let t = term_cursor_down n s in term_cursor_left t.cursor.col t)
  apply (previous_line n) s = some (let t = term_cursor_up n s in term_cursor_left t.cursor.col t)
  apply home s = term_cursor_home s
  apply carriage_return s = some (term_carriage_return s)

  -- The row asked for, in relative origin mode, and the start of the region are too much for an `int`.
  pub record Overflows (m : Move) (s : Screen X T) : Type 0 where
    pub is_relative : s.origin ≡ relative
    pub row : ℕ
    pub asked : row_asked m ≡ some row
    pub too_large : int_limit ≤ row + s.region.start

  pub record OnScreen (s : Screen X T) : Type 0 where
    pub row : s.cursor.row < s.rows
    pub col : s.cursor.col < s.cols
    pub region : s.region.start < s.region.end
    pub inside : s.region.end ≤ s.rows

  -- Where the cursor's row may end: from the top to the bottom row of the origin mode.
  abbrev pub InOrigin : ℕ → Screen X T → Type 0
  InOrigin row s = (top s ≤ row) × (row < bottom s)

  bounds : (s : Screen X T) → OnScreen s → (top s < bottom s) × (bottom s ≤ s.rows)
  bounds s v = elim (Origin-cases s.origin) [
    | inl e ↦ rw e (omega (arith, v.row))
    | inr e ↦ rw e (omega (arith, v.region, v.inside))
  ]

  -- What is to hold of a move.
  abbrev pub Moved : Move → Screen X T → Type 0
  Moved m s =
      ((t : Screen X T) × (apply m s ≡ some t) × OnScreen t) ⊎ (Overflows m s × (apply m s ≡ none))

  -- From a row that a screen's origin mode leaves to the cursor (in relative mode, those of the
  -- region), moving up or down by any amount ends on such a row.
  pub vertical-InOrigin :
      (n : ℕ) (s : Screen X T)
      → OnScreen s
      → InOrigin s.cursor.row s
      → InOrigin (term_cursor_up n s).cursor.row s × InOrigin (term_cursor_down n s).cursor.row s
  unfolding term_cursor_up term_cursor_down term_cursor_to
  vertical-InOrigin n s v h = (ground (arith, bounds s v), ground (arith, bounds s v))
