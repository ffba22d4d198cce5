-- ===== src/Csi/Edit/Moved.antt =====
-- Moving a piece of a row, as DCH and ICH do, cell by cell.
use foot.Base.{
  ℕ, zero, suc, ◌+◌, ◌-◌, ◌≤◌, ◌<◌, ◌≡◌, ◌∙◌, refl, ap, arith, List, [], ◌∷◌, ◌++◌, Option, none,
  some, length, get_elem?, take, drop, map, length-take, length-drop, length-map, length-append,
}
use mathlib.Core.Option
use foot.Screen.State.{Cell}
use foot.Screen.Damage.{damage_cell}

module _ {A : Type 0} where
  get_elem?-append_left :
      (xs ys : List A) (c : ℕ) → c < length xs → get_elem? (xs ++ ys) c ≡ get_elem? xs c
  get_elem?-append_left [] ys c h = absurd (omega arith)
  get_elem?-append_left (x ∷ xs) ys zero h = refl
  get_elem?-append_left (x ∷ xs) ys (suc c) h = get_elem?-append_left xs ys c (omega arith)

  get_elem?-append_right :
      (xs ys : List A) (c : ℕ) → get_elem? (xs ++ ys) (length xs + c) ≡ get_elem? ys c
  get_elem?-append_right [] ys c = ap (get_elem? ys) (omega arith)
  get_elem?-append_right (x ∷ xs) ys c =
      ap (get_elem? ((x ∷ xs) ++ ys)) {x = suc (length xs) + c} {y = suc (length xs + c)}
        (omega arith)
      ∙ get_elem?-append_right xs ys c

  get_elem?-take : (n : ℕ) (xs : List A) (c : ℕ) → c < n → get_elem? (take n xs) c ≡ get_elem? xs c
  get_elem?-take zero xs c h = absurd (omega arith)
  get_elem?-take (suc n) [] c h = refl
  get_elem?-take (suc n) (x ∷ xs) zero h = refl
  get_elem?-take (suc n) (x ∷ xs) (suc c) h = get_elem?-take n xs c (omega arith)

  get_elem?-drop : (n : ℕ) (xs : List A) (c : ℕ) → get_elem? (drop n xs) c ≡ get_elem? xs (n + c)
  get_elem?-drop zero xs c = ap (get_elem? xs) (omega arith)
  get_elem?-drop (suc n) [] c = refl
  get_elem?-drop (suc n) (x ∷ xs) c =
      get_elem?-drop n xs c
      ∙ ap (get_elem? (x ∷ xs)) {x = suc (n + c)} {y = suc n + c} (omega arith)

  get_elem?-map :
      {B : Type 0} (f : A → B) (xs : List A) (c : ℕ)
      → get_elem? (map f xs) c ≡ Option.map f (get_elem? xs c)
  get_elem?-map f [] c = refl
  get_elem?-map f (x ∷ xs) zero = refl
  get_elem?-map f (x ∷ xs) (suc c) = get_elem?-map f xs c

damage_twice :
    (o : Option Cell) → Option.map damage_cell (Option.map damage_cell o) ≡ Option.map damage_cell o
damage_twice none = refl
damage_twice (some x) = refl

-- A piece of `n` cells from `from` on stands, marked, from `to` on.
abbrev pub piece : ℕ → ℕ → ℕ → ℕ → List Cell → List Cell
piece to n from rest cells =
    take to cells ++ map damage_cell (take n (drop from cells)) ++ drop rest cells

abbrev pub seen : ℕ → List Cell → Option Cell
seen c cells = Option.map damage_cell (get_elem? cells c)

module _ (to n from rest : ℕ) (cells : List Cell) (fits : from + n ≤ length cells)
    (inside : to ≤ length cells) where
  length-piece_middle : length (map damage_cell (take n (drop from cells))) ≡ n
  length-piece_middle =
      length-map (take n (drop from cells)) damage_cell
      ∙ omega (arith, length-take n (drop from cells), length-drop from cells)

  abbrev front : List Cell
  front = take to cells

  abbrev moved : List Cell
  moved = map damage_cell (take n (drop from cells))

  length-front : length front ≡ to
  length-front = omega (arith, length-take to cells)

  pub length-piece : length (piece to n from rest cells) ≡ to + n + (length cells - rest)
  length-piece = omega (
    arith,
    length-append (front ++ moved) (drop rest cells),
    length-append front moved,
    length-front,
    length-piece_middle,
    length-drop rest cells,
  )

  pub seen-front : (c : ℕ) → c < to → seen c (piece to n from rest cells) ≡ seen c cells
  seen-front c h = ap (Option.map damage_cell) (
      get_elem?-append_left (front ++ moved) (drop rest cells) c
        (omega (arith, length-front, length-append front moved))
      ∙ get_elem?-append_left front moved c (omega (arith, length-front))
      ∙ get_elem?-take to cells c h)

  get_elem?-moved :
      (c : ℕ) → c < n → get_elem? moved c ≡ Option.map damage_cell (get_elem? cells (from + c))
  get_elem?-moved c h =
      get_elem?-map damage_cell (take n (drop from cells)) c
      ∙ ap (Option.map damage_cell)
          (get_elem?-take n (drop from cells) c h ∙ get_elem?-drop from cells c)

  pub seen-moved :
      (c : ℕ) → c < n → seen (to + c) (piece to n from rest cells) ≡ seen (from + c) cells
  seen-moved c h =
      ap (Option.map damage_cell) (
        get_elem?-append_left (front ++ moved) (drop rest cells) (to + c)
          (omega (arith, length-front, length-piece_middle, length-append front moved))
        ∙ rw length-front at (get_elem?-append_right front moved c)
        ∙ get_elem?-moved c h)
      ∙ damage_twice (get_elem? cells (from + c))

-- All columns are there.
pub seen-present :
    (c : ℕ) (cells : List Cell) → c < length cells → (x : Cell) × (seen c cells ≡ some x)
seen-present c [] h = absurd (omega arith)
seen-present zero (x ∷ cells) h = (damage_cell x, refl)
seen-present (suc c) (x ∷ cells) h = seen-present c cells (omega arith)
