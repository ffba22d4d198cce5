-- ===== src/Selection/Cells.antt =====
-- The walks of selection.c visit exactly the cells of the selection.
use foot.Base.{
  ℕ, ◌-◌, min, max, ◌≤◌, ◌<◌, ◌≡◌, refl, sym, ◌∙◌, arith, Bool, Bool-cases, inl, inr, ltb→lt,
  Option, none, List, some, ltb, if◌then◌else◌,
}
use foot.Base.Int.{pos}
use mathlib.Core.Option
use foot.Base.Mask.{and_mask}
use foot.Grid.{Ring, grid_row_abs_to_sb}
use foot.Grid.Coords.{IsRing}
use foot.Selection.Visit.{
  Coord, SelectionKind, selection_none, selection_char_wise, selection_word_wise,
  selection_quote_wise, selection_line_wise, selection_block, foreach_selected, visit_rows,
  visit_block, foreach_selected_normal, foreach_selected_block,
}
use foot.Selection.Rows.{mask_row, sb-small, abs-sb}
use foot.Selection.Walk.{until_false, row_of, stretch, block, visit_rows-stretch, visit_block-block}

-- The column at which a selection begins in its first row, and the one at which it ends in its last.
abbrev pub first_col : ℕ → ℕ → Coord → Coord → ℕ
first_col a b start end =
    if ltb a b then start.col else if ltb b a then end.col else min start.col end.col

abbrev pub last_col : ℕ → ℕ → Coord → Coord → ℕ
last_col a b start end =
    if ltb a b then end.col else if ltb b a then start.col else max start.col end.col

module _ {S R : Type 0} (cb : S → ℕ → ℕ → Bool × S) (g : Ring R) (v : IsRing g) (rows cols : ℕ)
    (fits : rows ≤ g.num_rows) where
  ring_row :
      (a : ℕ) → and_mask (pos a) g.num_rows ≡ row_of g rows (grid_row_abs_to_sb g rows (pos a))
  ring_row a = mask_row g v a ∙ sym (abs-sb g v rows fits a)

  ordered :
      (s t c last : ℕ) (st : S)
      → s ≤ t
      → t < g.num_rows
      → visit_rows cb g cols g.num_rows (row_of g rows s) c (row_of g rows t) last st
        ≡ some (until_false cb (stretch g rows cols (t - s) s c last) st)
  ordered s t c last st h h' =
      visit_rows-stretch cb g v rows cols fits (t - s) g.num_rows s t c last st (omega arith)
        (omega arith) h'

  block_ordered :
      (s t left right : ℕ) (st : S)
      → s ≤ t
      → t < g.num_rows
      → visit_block cb g cols g.num_rows (row_of g rows s) left (row_of g rows t) right st
        ≡ some (until_false cb (block g rows (t - s) s left right) st)
  block_ordered s t left right st h h' =
      visit_block-block cb g v rows cols fits (t - s) g.num_rows s t left right st (omega arith)
        (omega arith) h'

  module _ (a b : ℕ) (start end : Coord) (e : start.row ≡ pos a) (e' : end.row ≡ pos b) where
    abbrev pub sa : ℕ
    sa = grid_row_abs_to_sb g rows (pos a)

    abbrev pub sb : ℕ
    sb = grid_row_abs_to_sb g rows (pos b)

    small_a : sa < g.num_rows
    small_a = sb-small g v rows fits a

    small_b : sb < g.num_rows
    small_b = sb-small g v rows fits b

    foreach_selected_normal-stretch :
        (st : S)
        → foreach_selected_normal cb g rows cols start end st
          ≡ some (
              until_false cb
                (stretch g rows cols
                  (max sa sb - min sa sb)
                  (min sa sb)
                  (first_col sa sb start end)
                  (last_col sa sb start end))
                st)
    unfolding foreach_selected_normal
    foreach_selected_normal-stretch st =
        rw (e, e', ring_row a, ring_row b)
          (elim (Bool-cases (ltb sa sb)) [
            | inl lt ↦
                rw
                  (
                    lt,
                    (let m : max sa sb - min sa sb ≡ sb - sa = omega (arith, ltb→lt sa sb lt) in m),
                    (let m : min sa sb ≡ sa = omega (arith, ltb→lt sa sb lt) in m),
                  )
                  (ordered sa sb start.col end.col st (omega (arith, ltb→lt sa sb lt)) small_b)
            | inr le ↦ elim (Bool-cases (ltb sb sa)) [
              | inl lt ↦
                  rw
                    (
                      le,
                      lt,
                      (let m : max sa sb - min sa sb ≡ sa - sb = omega (arith, ltb→lt sb sa lt) in
                          m),
                      (let m : min sa sb ≡ sb = omega (arith, ltb→lt sb sa lt) in m),
                    )
                    (ordered sb sa end.col start.col st (omega (arith, ltb→lt sb sa lt)) small_a)
              | inr ge ↦
                  rw
                    (
                      le,
                      ge,
                      (let m : max sa sb - min sa sb ≡ sa - sa = ground arith in m),
                      (let m : min sa sb ≡ sa = ground arith in m),
                    )
                    (ordered sa sa (min start.col end.col) (max start.col end.col) st (omega arith)
                      small_a)
            ]
          ])

    foreach_selected_block-block :
        (st : S)
        → foreach_selected_block cb g rows cols start end st
          ≡ some (
              until_false cb
                (block g rows
                  (max sa sb - min sa sb)
                  (min sa sb)
                  (min start.col end.col)
                  (max start.col end.col))
                st)
    unfolding foreach_selected_block
    foreach_selected_block-block st =
        rw (e, e')
          (elim (Bool-cases (ltb sa sb)) [
            | inl lt ↦ elim (Bool-cases (ltb sb sa)) [
              | inl gt ↦ absurd (omega (arith, ltb→lt sa sb lt, ltb→lt sb sa gt))
              | inr ge ↦
                  rw
                    (
                      lt,
                      ge,
                      ring_row a,
                      ring_row b,
                      (let m : max sa sb - min sa sb ≡ sb - sa = omega (arith, ltb→lt sa sb lt) in
                          m),
                      (let m : min sa sb ≡ sa = omega (arith, ltb→lt sa sb lt) in m),
                    )
                    (block_ordered sa sb (min start.col end.col) (max start.col end.col) st
                      (omega (arith, ltb→lt sa sb lt)) small_b)
            ]
            | inr le ↦ elim (Bool-cases (ltb sb sa)) [
              | inl gt ↦
                  rw
                    (
                      le,
                      gt,
                      ring_row b,
                      ring_row a,
                      (let m : max sa sb - min sa sb ≡ sa - sb = omega (arith, ltb→lt sb sa gt) in
                          m),
                      (let m : min sa sb ≡ sb = omega (arith, ltb→lt sb sa gt) in m),
                    )
                    (block_ordered sb sa (min start.col end.col) (max start.col end.col) st
                      (omega (arith, ltb→lt sb sa gt)) small_a)
              | inr ge ↦
                  rw
                    (
                      le,
                      ge,
                      ring_row b,
                      (let m : max sa sb - min sa sb ≡ sb - sb = ground arith in m),
                      (let m : min sa sb ≡ sb = ground arith in m),
                    )
                    (block_ordered sb sb (min start.col end.col) (max start.col end.col) st
                      (omega arith) small_b)
            ]
          ])

    -- The cells of a selection of each kind; there are none to speak of without a kind.
    abbrev pub selected_cells : SelectionKind → Option (List (ℕ × ℕ))
    selected_cells selection_none = none
    selected_cells selection_block = some (
        block g rows (max sa sb - min sa sb) (min sa sb) (min start.col end.col)
          (max start.col end.col))
    selected_cells kind = some (
        stretch g rows cols (max sa sb - min sa sb) (min sa sb) (first_col sa sb start end)
          (last_col sa sb start end))

    -- On a ring whose size is a power of two and no smaller than the screen, and for ends in any order
    -- whose rows are not negative, `foreach_selected` terminates for every kind of selection but
    -- `SELECTION_NONE`. It calls back for exactly the cells of the selection until the callback answers
    -- false: for a block the rectangle between the ends, row by row, and for the other kinds the cells in
    -- reading order from the upper end to the lower one, whole rows between them.
    pub foreach_selected-cells :
        (kind : SelectionKind) (st : S)
        → foreach_selected cb g rows cols kind start end st
          ≡ Option.map (λ cells. until_false cb cells st) (selected_cells kind)
    unfolding foreach_selected
    foreach_selected-cells selection_none st = refl
    foreach_selected-cells selection_char_wise st = foreach_selected_normal-stretch st
    foreach_selected-cells selection_word_wise st = foreach_selected_normal-stretch st
    foreach_selected-cells selection_quote_wise st = foreach_selected_normal-stretch st
    foreach_selected-cells selection_line_wise st = foreach_selected_normal-stretch st
    foreach_selected-cells selection_block st = foreach_selected_block-block st
