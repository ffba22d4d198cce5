-- ===== src/Selection/Overlap.antt =====
-- `selection_on_rows` of selection.c tells whether a range of screen rows meets the selection.
use foot.Base.{
  ℕ, ◌+◌, ◌-◌, min, max, ◌≤◌, ◌<◌, ◌≡◌, ◌↔◌, ◌∙◌, refl, arith, Bool, true, ltb, leb, ◌&&◌, ◌||◌,
  if◌then◌else◌,
}
use foot.Base.Int.{pos, ◌+ℤ◌}
use foot.Grid.{Ring, grid_row_abs_to_sb}
use foot.Grid.Coords.{IsRing, add_pos}
use foot.Selection.{selection_on_rows}
use foot.Selection.Visit.{Range}
use foot.Selection.Rows.{precalc-sb, screen_row-sb}

-- The test on four numbers.
abbrev overlap : ℕ → ℕ → ℕ → ℕ → Bool
overlap from to a b =
    let lo = if ltb b a then b else a in
    let hi = if ltb b a then a else b in
    if leb from lo && leb lo to || leb from hi && leb hi to then true else leb lo from && leb to hi

overlap-meets :
    (from to a b : ℕ)
    → from ≤ to
    → (overlap from to a b ≡ true)
      ↔ ((s : ℕ) × (from ≤ s) × (s ≤ to) × (min a b ≤ s) × (s ≤ max a b))
overlap-meets from to a b h = (
  λ e. (max from (min a b), omega arith, ground arith, omega arith, ground arith),
  λ (s, p, q, r, t). ground arith,
)

module _ {R : Type 0} (g : Ring R) (v : IsRing g) (screen_rows : ℕ)
    (fits : screen_rows ≤ g.num_rows) where
  -- The scrollback relative number of row `i` of the screen.
  abbrev pub sb_of : ℕ → ℕ
  sb_of i = grid_row_abs_to_sb g screen_rows (pos (i + g.offset))

  -- Row `i` of the screen lies between the ends of the selection, in the order of the scrollback.
  abbrev pub IsSelectedRow : Range → ℕ → Type 0
  IsSelectedRow sel i =
      let a = grid_row_abs_to_sb g screen_rows sel.start.row in
      let b = grid_row_abs_to_sb g screen_rows sel.end.row in
      (min a b ≤ sb_of i) × (sb_of i ≤ max a b)

  on_rows-overlap :
      (sel : Range) (first last : ℕ)
      → first < screen_rows
      → last < screen_rows
      → selection_on_rows g screen_rows sel (pos first) (pos last)
        ≡ overlap
            (g.num_rows - screen_rows + first)
            (g.num_rows - screen_rows + last)
            (grid_row_abs_to_sb g screen_rows sel.start.row)
            (grid_row_abs_to_sb g screen_rows sel.end.row)
  unfolding selection_on_rows
  on_rows-overlap sel first last h h' =
      rw
        (
          precalc-sb g v screen_rows fits (pos first +ℤ pos g.offset),
          precalc-sb g v screen_rows fits (pos last +ℤ pos g.offset),
          precalc-sb g v screen_rows fits sel.start.row,
          precalc-sb g v screen_rows fits sel.end.row,
          add_pos first g.offset,
          add_pos last g.offset,
          screen_row-sb g v screen_rows fits first h,
          screen_row-sb g v screen_rows fits last h',
        )
        refl

  -- For a range of rows on the screen, from `first` to `last`, on a ring whose size is a power of two
  -- and no smaller than the screen, `selection_on_rows` answers true exactly if one of these rows lies
  -- between the two ends of the selection, in the order of the scrollback and whichever end is first.
  pub selection_on_rows-IsSelectedRow :
      (sel : Range) (first last : ℕ)
      → first ≤ last
      → last < screen_rows
      → (selection_on_rows g screen_rows sel (pos first) (pos last) ≡ true)
        ↔ ((i : ℕ) × (first ≤ i) × (i ≤ last) × IsSelectedRow sel i)
  selection_on_rows-IsSelectedRow sel first last h h' =
      rw (on_rows-overlap sel first last (omega arith) h') (
        let meets =
          overlap-meets (base + first) (base + last)
            (grid_row_abs_to_sb g screen_rows sel.start.row)
            (grid_row_abs_to_sb g screen_rows sel.end.row) (omega arith) in
        (
          (λ e.
              let (m, p, q, r, t) = meets.0 e in
              let here : sb_of (m - base) ≡ m =
                screen_row-sb g v screen_rows fits (m - base) (omega arith) ∙ omega arith in
              (m - base, omega arith, omega arith, (omega (arith, here), omega (arith, here)))),
          λ (i, p, q, (r, t)). meets.1 (
            base + i,
            omega arith,
            omega arith,
            omega (arith, screen_row-sb g v screen_rows fits i (omega arith)),
            omega (arith, screen_row-sb g v screen_rows fits i (omega arith)),
          ),
        ))
    where
      base : ℕ
      base = g.num_rows - screen_rows
