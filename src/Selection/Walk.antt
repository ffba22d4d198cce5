-- ===== src/Selection/Walk.antt =====
-- The walks of selection.c visit the cells of the selection, in reading order, each once.
use foot.Base.{
  ℕ, zero, suc, ◌+◌, ◌-◌, ◌≤◌, ◌<◌, ◌≡◌, ◌≢◌, refl, ap, arith, Bool, true, false, Bool-cases, inl,
  inr, List, [], ◌∷◌, ◌++◌, some, ◌==◌, if◌then◌else◌,
}
use foot.Base.Int.{pos}
use foot.Grid.{Ring, grid_row_sb_to_abs}
use foot.Grid.Coords.{IsRing}
use foot.Selection.Visit.{visit_cols, visit_rows, visit_block}
use foot.Selection.Rows.{abs-next, abs-different}

-- The cells of `count` columns of a row.
unfoldable pub columns : ℕ → ℕ → ℕ → List (ℕ × ℕ)
columns zero r c = []
columns (suc count) r c = (r, c) ∷ columns count r (c + 1)

-- A callback on one cell after the other, until it answers false.
unfoldable pub until_false : {S : Type 0} → (S → ℕ → ℕ → Bool × S) → List (ℕ × ℕ) → S → Bool × S
until_false cb [] st = (true, st)
until_false cb ((r, c) ∷ cells) st =
    let out = cb st r c in let rest = until_false cb cells out.1 in if out.0 then rest else out

module _ {R : Type 0} (g : Ring R) (rows : ℕ) where
  abbrev pub row_of : ℕ → ℕ
  row_of s = grid_row_sb_to_abs g rows (pos s)

  -- From column `c` of scrollback row `s` to column `last` of the row that lies `d` rows below.
  unfoldable pub stretch : ℕ → ℕ → ℕ → ℕ → ℕ → List (ℕ × ℕ)
  unfolding columns
  stretch cols zero s c last = columns (last + 1 - c) (row_of s) c
  stretch cols (suc d) s c last = columns (cols - c) (row_of s) c ++ stretch cols d (s + 1) 0 last

  -- The columns from `left` to `right` of `d + 1` rows, from scrollback row `s` on.
  unfoldable pub block : ℕ → ℕ → ℕ → ℕ → List (ℕ × ℕ)
  unfolding columns
  block zero s left right = columns (right + 1 - left) (row_of s) left
  block (suc d) s left right =
      columns (right + 1 - left) (row_of s) left ++ block d (s + 1) left right

module _ {S : Type 0} (cb : S → ℕ → ℕ → Bool × S) where
  until_false-append :
      (xs ys : List (ℕ × ℕ)) (st : S)
      → until_false cb (xs ++ ys) st
        ≡ (let out = until_false cb xs st in if out.0 then until_false cb ys out.1 else out)
  unfolding until_false
  until_false-append [] ys st = refl
  until_false-append ((r, c) ∷ xs) ys st = elim (Bool-cases (cb st r c).0) [
    | inl e ↦ rw e (until_false-append xs ys (cb st r c).1)
    | inr e ↦ rw e refl
  ]

  visit_cols-columns :
      (count r c : ℕ) (st : S) → visit_cols cb count r c st ≡ until_false cb (columns count r c) st
  unfolding visit_cols until_false columns
  visit_cols-columns zero r c st = refl
  visit_cols-columns (suc count) r c st =
      ap (λ rest. if (cb st r c).0 then rest else cb st r c)
        (visit_cols-columns count r (c + 1) (cb st r c).1)

  module _ {R : Type 0} (g : Ring R) (v : IsRing g) (rows cols : ℕ) (fits : rows ≤ g.num_rows) where
    differ :
        (s t : ℕ) → row_of g rows s ≢ row_of g rows t → (row_of g rows s == row_of g rows t) ≡ false
    differ s t h = ground arith

    pub visit_rows-stretch :
        (d fuel s t c last : ℕ) (st : S)
        → d < fuel
        → t ≡ s + d
        → t < g.num_rows
        → visit_rows cb g cols fuel (row_of g rows s) c (row_of g rows t) last st
          ≡ some (until_false cb (stretch g rows cols d s c last) st)
    unfolding visit_rows stretch
    visit_rows-stretch d zero s t c last st h e h' = absurd (omega arith)
    visit_rows-stretch zero (suc fuel) s t c last st h e h' =
        let same : (row_of g rows s == row_of g rows t) ≡ true =
          rw (let at : t ≡ s = omega arith in at) (ground arith) in
        rw same (ap some (visit_cols-columns (last + 1 - c) (row_of g rows s) c st))
    visit_rows-stretch (suc d) (suc fuel) s t c last st h e h' =
        rw
          (
            differ s t (abs-different g v rows fits s t (omega arith) h'),
            abs-next g v rows fits s,
            visit_cols-columns (cols - c) (row_of g rows s) c st,
            until_false-append here below st,
          )
          (elim (Bool-cases (until_false cb here st).0) [
            | inl more ↦ rw more (
                visit_rows-stretch d fuel (s + 1) t 0 last (until_false cb here st).1 (omega arith)
                  (omega arith) h')
            | inr done ↦ rw done refl
          ])
      where
        here : List (ℕ × ℕ)
        here = columns (cols - c) (row_of g rows s) c

        below : List (ℕ × ℕ)
        below = stretch g rows cols d (s + 1) 0 last

    pub visit_block-block :
        (d fuel s t left right : ℕ) (st : S)
        → d < fuel
        → t ≡ s + d
        → t < g.num_rows
        → visit_block cb g cols fuel (row_of g rows s) left (row_of g rows t) right st
          ≡ some (until_false cb (block g rows d s left right) st)
    unfolding visit_block block
    visit_block-block d zero s t left right st h e h' = absurd (omega arith)
    visit_block-block zero (suc fuel) s t left right st h e h' =
        let same : (row_of g rows s == row_of g rows t) ≡ true =
          rw (let at : t ≡ s = omega arith in at) (ground arith) in
        rw (same, visit_cols-columns (right + 1 - left) (row_of g rows s) left st)
          (elim (Bool-cases
            (until_false cb (columns (right + 1 - left) (row_of g rows s) left) st).0) [
              | inl more ↦ rw more refl
              | inr done ↦ rw done refl
            ])
    visit_block-block (suc d) (suc fuel) s t left right st h e h' =
        rw
          (
            differ s t (abs-different g v rows fits s t (omega arith) h'),
            abs-next g v rows fits s,
            visit_cols-columns (right + 1 - left) (row_of g rows s) left st,
            until_false-append here below st,
          )
          (elim (Bool-cases (until_false cb here st).0) [
            | inl more ↦ rw more (
                visit_block-block d fuel (s + 1) t left right (until_false cb here st).1
                  (omega arith) (omega arith) h')
            | inr done ↦ rw done refl
          ])
      where
        here : List (ℕ × ℕ)
        here = columns (right + 1 - left) (row_of g rows s) left

        below : List (ℕ × ℕ)
        below = block g rows d (s + 1) left right
