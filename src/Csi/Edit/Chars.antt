-- ===== src/Csi/Edit/Chars.antt =====
-- What DCH and ICH do to the cells of the screen.
use foot.Base.{
  ℕ, ==_iff, ◌+◌, ◌-◌, min, ◌≤◌, ◌<◌, ◌≡◌, ◌≢◌, ◌⊎◌, ◌∙◌, refl, sym, ap, ap₂, arith, Bool, true,
  false, inl, inr, Option, some, leb, ◌==◌, ◌&&◌, if◌then◌else◌, length, length-set,
}
use foot.Base.Int.{pos}
use mathlib.Core.Option
use foot.Grid.{grid_row_absolute}
use foot.Grid.Coords.{IsRing}
use foot.Screen.State.{Cell, Row, Screen, Hooks}
use foot.Screen.Row.{erased_cell}
use foot.Screen.Scroll.Shift.{content, IsRing-same}
use foot.Csi.Edit.{EraseHooks, on_row, term_erase, delete_chars, insert_chars}
use foot.Screen.Print.{on_cur_row}
use foot.Csi.Edit.Wiped.{Wiped, content-on_row, not_same, cell_at, in_row, wipe}
use foot.Csi.Edit.Erase.{KeepsCells, is_between, term_erase-Wiped}
use foot.Csi.Edit.Moved.{seen, piece, length-piece, seen-front, seen-moved, seen-present}

outside_range : (a b c : ℕ) → (c < a) ⊎ (b < c) → (leb a c && leb c b) ≡ false
outside_range a b c h = ground arith

inside_range : (a b c : ℕ) → a ≤ c → c ≤ b → (leb a c && leb c b) ≡ true
inside_range a b c h h' = ground arith

between_columns :
    (row start end c : ℕ) → is_between row start row end row c ≡ (leb start c && leb c end)
between_columns row start end c = ground arith

module _ {X T : Type 0} (hooks : Hooks X T) (others : EraseHooks X T) (keeps : KeepsCells others)
    (s : Screen X T) (ring : IsRing s.ring) (fits : s.rows ≤ s.ring.num_rows)
    (row_on : s.cursor.row < s.rows) (col_on : s.cursor.col < s.cols)
    (here : s.cur_row ≡ grid_row_absolute s.ring (pos s.cursor.row)) (row : Row X)
    (at_cursor : content s.ring s.cursor.row ≡ some row) (full : length row.cells ≡ s.cols) where
  -- The cursor's row with its cells moved, and then some of its cells erased.
  module _ (f : Row X → Row X) (start end : ℕ) where
    edited : Screen X T
    edited = term_erase hooks others s.cursor.row start s.cursor.row end (on_cur_row f s)

    same_row : on_cur_row f s ≡ on_row s.cursor.row f s
    same_row = rw here refl

    content-edited :
        (r : ℕ)
        → r < s.ring.num_rows
        → content (on_cur_row f s).ring r
          ≡ (if r == s.cursor.row then some (f row) else content s.ring r)
    content-edited r hr =
        ap (λ t. content t.ring r) same_row
        ∙ content-on_row hooks s ring s.cursor.row (omega arith) f r hr
        ∙ ap (λ o. if r == s.cursor.row then Option.map f o else content s.ring r) at_cursor

    edited-Wiped : Wiped (is_between s.cursor.row start s.cursor.row end) (on_cur_row f s) edited
    unfolding edited
    edited-Wiped =
        term_erase-Wiped hooks others keeps (on_cur_row f s) s.cursor.row start s.cursor.row end
          (IsRing-same ring
            (record { num_rows = refl; offset = refl; view = refl; sized = length-set _ _ _ }))
          fits row_on (omega arith)

    cell-edited :
        (c : ℕ)
        → c < s.cols
        → cell_at edited s.cursor.row c
          ≡ wipe (leb start c && leb c end) (erased_cell s.attrs) (seen c (f row).cells)
    cell-edited c hc =
        let at_row : content (on_cur_row f s).ring s.cursor.row ≡ some (f row) =
          content-edited s.cursor.row (omega arith)
          ∙ rw ((==_iff s.cursor.row s.cursor.row).1 refl) refl in
        edited-Wiped.cells s.cursor.row c (omega arith) hc
        ∙ ap₂ (λ b o. wipe b (erased_cell s.attrs) (in_row c o))
            (between_columns s.cursor.row start end c) at_row

    cell-other :
        (r c : ℕ)
        → r < s.ring.num_rows
        → r ≢ s.cursor.row
        → c < s.cols
        → cell_at edited r c ≡ cell_at s r c
    cell-other r c hr ne hc =
        edited-Wiped.cells r c hr hc
        ∙ ap₂ (λ b o. wipe b (erased_cell s.attrs) (in_row c o)) {y = false} (ground arith)
            (content-edited r hr ∙ rw (not_same r s.cursor.row ne) refl)

  -- How many characters DCH and ICH delete and insert.
  abbrev pub clamped : ℕ → ℕ
  clamped n = min n (s.cols - s.cursor.col)

  abbrev pub seen_at : Screen X T → ℕ → Option Cell
  seen_at t c = cell_at t s.cursor.row c

  abbrev pub remaining : ℕ → ℕ
  remaining n = s.cols - (s.cursor.col + clamped n)

  wipe_not : (b : Bool) (x : Cell) (o : Option Cell) → b ≡ false → wipe b x o ≡ o
  wipe_not b x o e = rw e refl

  wipe_all :
      (b : Bool) (x : Cell) (o : Option Cell)
      → b ≡ true
      → ((y : Cell) × (o ≡ some y))
      → wipe b x o ≡ some x
  wipe_all b x o e (y, e') = rw (e, e') refl

  -- What DCH is to do: the cells behind the deleted ones close up, and the end of the line is erased.
  pub record CharsDeleted (n : ℕ) (s' : Screen X T) : Type 0 where
    pub front : (c : ℕ) → c < s.cursor.col → seen_at s' c ≡ seen_at s c
    pub moved :
        (c : ℕ)
        → s.cursor.col ≤ c
        → c + clamped n < s.cols
        → seen_at s' c ≡ seen_at s (c + clamped n)
    pub blank :
        (c : ℕ) → c < s.cols → s.cols ≤ c + clamped n → seen_at s' c ≡ some (erased_cell s.attrs)
    pub other_rows :
        (r c : ℕ)
        → r < s.ring.num_rows
        → r ≢ s.cursor.row
        → c < s.cols
        → cell_at s' r c ≡ cell_at s r c

  module _ (n : ℕ) where
    abbrev from : ℕ
    from = s.cursor.col + clamped n

    abbrev start : ℕ
    start = s.cursor.col + remaining n

    abbrev end : ℕ
    end = s.cols - 1

    abbrev deleted : Row X → Row X
    deleted r = record r {
      dirty = true;
      cells = piece s.cursor.col (remaining n) from start r.cells;
    }

    at_row : (c : ℕ) → seen c row.cells ≡ seen_at s c
    at_row c = ap (in_row c) {x = some row} (sym at_cursor)

    moved_to :
        (c : ℕ)
        → s.cursor.col ≤ c
        → c + clamped n < s.cols
        → seen c (deleted row).cells ≡ seen (c + clamped n) row.cells
    moved_to c lo hi =
        let here : s.cursor.col + (c - s.cursor.col) ≡ c = omega arith in
        let there : from + (c - s.cursor.col) ≡ c + clamped n = omega arith in
        rw (here, there) at
          (seen-moved s.cursor.col (remaining n) from start row.cells (omega (arith, full))
            (omega (arith, full)) (c - s.cursor.col) (omega arith))

    -- On a screen whose ring has a size that is a power of two and no smaller than the screen, with the
    -- cursor on it, a row at the cursor that is as long as the screen is wide, `cur_row` pointing to it,
    -- and image code that leaves the cells as they are, DCH for `n` characters, or those that there
    -- are behind the cursor, closes up the cells behind the deleted ones, erases with the current
    -- background as many at the end of the line, and leaves the cells in front of the cursor and in
    -- other rows as they are; cells are compared but for the mark that they have been rendered.
    pub delete_chars-CharsDeleted : CharsDeleted n (delete_chars hooks others n s)
    unfolding delete_chars edited
    delete_chars-CharsDeleted = record {
      front = λ c h.
          cell-edited deleted start end c (omega arith)
          ∙ wipe_not _ _ _ (outside_range start end c (inl (omega arith)))
          ∙ seen-front s.cursor.col (remaining n) from start row.cells (omega (arith, full))
              (omega (arith, full)) c h
          ∙ at_row c;
      moved = λ c lo hi.
          cell-edited deleted start end c (omega arith)
          ∙ wipe_not _ _ _ (outside_range start end c (inl (omega arith)))
          ∙ moved_to c lo hi
          ∙ at_row (c + clamped n);
      blank = λ c hc lo.
          cell-edited deleted start end c hc
          ∙ wipe_all _ _ _ (inside_range start end c (omega arith) (omega arith)) (
              seen-present c (deleted row).cells (
                omega (
                  arith,
                  length-piece s.cursor.col (remaining n) from start row.cells (omega (arith, full))
                      (omega (arith, full)),
                  full,
                )));
      other_rows = λ r c hr ne hc. cell-other deleted start end r c hr ne hc;
    }

  -- What ICH is to do: blanks stand at the cursor, and the cells from there on have moved on, those
  -- that leave the line being lost.
  pub record CharsInserted (n : ℕ) (s' : Screen X T) : Type 0 where
    pub front : (c : ℕ) → c < s.cursor.col → seen_at s' c ≡ seen_at s c
    pub blank :
        (c : ℕ)
        → s.cursor.col ≤ c
        → c < s.cursor.col + clamped n
        → seen_at s' c ≡ some (erased_cell s.attrs)
    pub moved :
        (c : ℕ)
        → s.cursor.col ≤ c
        → c + clamped n < s.cols
        → seen_at s' (c + clamped n) ≡ seen_at s c
    pub other_rows :
        (r c : ℕ)
        → r < s.ring.num_rows
        → r ≢ s.cursor.row
        → c < s.cols
        → cell_at s' r c ≡ cell_at s r c

  module _ (n : ℕ) (some_chars : 0 < n) where
    abbrev last_blank : ℕ
    last_blank = s.cursor.col + clamped n - 1

    abbrev inserted : Row X → Row X
    inserted r = record r {
      dirty = true;
      cells = piece (s.cursor.col + clamped n) (remaining n) s.cursor.col s.cols r.cells;
    }

    moved_on :
        (c : ℕ)
        → s.cursor.col ≤ c
        → c + clamped n < s.cols
        → seen (c + clamped n) (inserted row).cells ≡ seen c row.cells
    moved_on c lo hi =
        let here : s.cursor.col + (c - s.cursor.col) ≡ c = omega arith in
        let there : s.cursor.col + clamped n + (c - s.cursor.col) ≡ c + clamped n = omega arith in
        rw (here, there) at
          (seen-moved (s.cursor.col + clamped n) (remaining n) s.cursor.col s.cols row.cells
            (omega (arith, full)) (omega (arith, full)) (c - s.cursor.col) (omega arith))

    inserted-present : (c : ℕ) → c < s.cols → (x : Cell) × (seen c (inserted row).cells ≡ some x)
    inserted-present c hc = seen-present c (inserted row).cells (
        omega (
          arith,
          length-piece (s.cursor.col + clamped n) (remaining n) s.cursor.col s.cols row.cells
              (omega (arith, full)) (omega (arith, full)),
          full,
        ))

    -- On such a screen ICH for `n` characters, one at least, or as many as fit behind the cursor,
    -- puts cells erased with the current background at the cursor, moves the cells from there on to the
    -- right, those that leave the line being lost, and leaves the cells in front of the cursor and in
    -- other rows as they are; cells are compared but for the mark that they have been rendered.
    pub insert_chars-CharsInserted : CharsInserted n (insert_chars hooks others n s)
    unfolding insert_chars edited
    insert_chars-CharsInserted = record {
      front = λ c h.
          cell-edited inserted s.cursor.col last_blank c (omega arith)
          ∙ wipe_not _ _ _ (outside_range s.cursor.col last_blank c (inl h))
          ∙ seen-front (s.cursor.col + clamped n) (remaining n) s.cursor.col s.cols row.cells
              (omega (arith, full)) (omega (arith, full)) c (omega arith)
          ∙ at_row n c;
      blank = λ c lo hi.
          cell-edited inserted s.cursor.col last_blank c (omega arith)
          ∙ wipe_all _ _ _ (inside_range s.cursor.col last_blank c lo (omega arith))
              (inserted-present c (omega arith));
      moved = λ c lo hi.
          cell-edited inserted s.cursor.col last_blank (c + clamped n) hi
          ∙ wipe_not _ _ _
              (outside_range s.cursor.col last_blank (c + clamped n) (inr (omega arith)))
          ∙ moved_on c lo hi
          ∙ at_row n c;
      other_rows = λ r c hr ne hc. cell-other inserted s.cursor.col last_blank r c hr ne hc;
    }
