-- ===== src/Csi/Edit/Wiped.antt =====
-- Which cells of the screen a step of `term_erase` erases.
use foot.Base.{
  ℕ, zero, suc, ◌+◌, ◌-◌, ◌<◌, ◌≡◌, ◌∙◌, refl, sym, ap, ap₂, arith, Bool, true, false, List, [],
  ◌∷◌, Option, none, some, leb, ◌==◌, ==_iff, ◌||◌, ◌&&◌, if◌then◌else◌, get_elem?, length-set,
  ℕ_discrete,
}
use mathlib.Core.Option
use foot.Grid.Coords.{IsRing, row-pos}
use foot.Screen.Damage.{damage_cell}
use foot.Screen.State.{Attributes, Cell, Row, Screen, Hooks}
use foot.Screen.Row.{erased_cell, fill_range, erase_cell_range, erase_line}
use foot.Screen.Scroll.Shift.{content, SameFrame}
use foot.Screen.Scroll.Erase.{content-set_row}
use foot.Csi.Edit.{on_row}

-- The cell in a column of a row, whether or not it has been rendered since it changed.
abbrev pub in_row : {X : Type 0} → ℕ → Option (Row X) → Option Cell
in_row c none = none
in_row c (some r) = Option.map damage_cell (get_elem? r.cells c)

-- The cell in a row and a column of the screen.
abbrev pub cell_at : {X T : Type 0} → Screen X T → ℕ → ℕ → Option Cell
cell_at s r c = in_row c (content s.ring r)

abbrev pub wipe : Bool → Cell → Option Cell → Option Cell
wipe b x o = if b then Option.map (λ y. x) o else o

-- The cells that pass the test are erased with the current background, the others are as before.
pub record Wiped {X T : Type 0} (test : ℕ → ℕ → Bool) (s s' : Screen X T) : Type 0 where
  pub frame : SameFrame s.ring s'.ring
  pub attrs : s'.attrs ≡ s.attrs
  pub cols : s'.cols ≡ s.cols
  pub cells :
      (r c : ℕ)
      → r < s.ring.num_rows
      → c < s.cols
      → cell_at s' r c ≡ wipe (test r c) (erased_cell s.attrs) (cell_at s r c)

pub not_same : (a b : ℕ) → (¬ (a ≡ b)) → (a == b) ≡ false
not_same a b h = ground arith

if_same : {A : Type 0} (b : Bool) (x : A) → (if b then x else x) ≡ x
if_same true x = refl
if_same false x = refl

some-if :
    {A : Type 0} (b : Bool) (x y : A) → some (if b then x else y) ≡ (if b then some x else some y)
some-if true x y = refl
some-if false x y = refl

wipe-wipe : (p q : Bool) (x : Cell) (o : Option Cell) → wipe q x (wipe p x o) ≡ wipe (p || q) x o
wipe-wipe true true x none = refl
wipe-wipe true true x (some y) = refl
wipe-wipe true false x o = refl
wipe-wipe false q x o = refl

damage-erased : (a : Attributes) → damage_cell (erased_cell a) ≡ erased_cell a
damage-erased a = ground arith

damage-wipe :
    (b : Bool) (a : Attributes) (o : Option Cell)
    → Option.map damage_cell (wipe b (erased_cell a) o)
      ≡ wipe b (erased_cell a) (Option.map damage_cell o)
damage-wipe true a none = refl
damage-wipe true a (some x) = ap some (damage-erased a)
damage-wipe false a o = refl

get_elem?-fill_range :
    (x : Cell) (start end i : ℕ) (cells : List Cell) (c : ℕ)
    → get_elem? (fill_range x start end i cells) c ≡ (
        if leb start (i + c) && leb (i + c) end
        then Option.map (λ y. x) (get_elem? cells c)
        else get_elem? cells c)
unfolding fill_range
get_elem?-fill_range x start end i [] c = sym (if_same (leb start (i + c) && leb (i + c) end) none)
get_elem?-fill_range x start end i (y ∷ ys) zero =
    let shift : i + 0 ≡ i = omega arith in rw shift (some-if (leb start i && leb i end) x y)
get_elem?-fill_range x start end i (y ∷ ys) (suc c) =
    let shift : i + suc c ≡ i + 1 + c = omega arith in
    rw shift (get_elem?-fill_range x start end (i + 1) ys c)

module _ {X T : Type 0} where
  pub Wiped-refl : (s : Screen X T) → Wiped (λ r c. false) s s
  Wiped-refl s = record {
    frame = record { num_rows = refl; offset = refl; view = refl; sized = refl };
    attrs = refl;
    cols = refl;
    cells = λ r c hr hc. refl;
  }

  -- Another test that agrees on the screen.
  pub Wiped-test :
      (p q : ℕ → ℕ → Bool) (s t : Screen X T)
      → Wiped p s t
      → ((r c : ℕ) → r < s.ring.num_rows → c < s.cols → p r c ≡ q r c)
      → Wiped q s t
  Wiped-test p q s t w same = record {
    frame = w.frame;
    attrs = w.attrs;
    cols = w.cols;
    cells = λ r c hr hc.
        w.cells r c hr hc ∙ ap (λ b. wipe b (erased_cell s.attrs) (cell_at s r c)) (same r c hr hc);
  }

  pub Wiped-trans :
      (p q : ℕ → ℕ → Bool) (s t u : Screen X T)
      → Wiped p s t
      → Wiped q t u
      → Wiped (λ r c. p r c || q r c) s u
  Wiped-trans p q s t u w w' = record {
    frame = record {
      num_rows = w'.frame.num_rows ∙ w.frame.num_rows;
      offset = w'.frame.offset ∙ w.frame.offset;
      view = w'.frame.view ∙ w.frame.view;
      sized = w'.frame.sized ∙ w.frame.sized;
    };
    attrs = w'.attrs ∙ w.attrs;
    cols = w'.cols ∙ w.cols;
    cells = λ r c hr hc.
        w'.cells r c (omega (arith, w.frame.num_rows)) (omega (arith, w.cols))
        ∙ ap₂ (λ a o. wipe (q r c) (erased_cell a) o) w.attrs (w.cells r c hr hc)
        ∙ wipe-wipe (p r c) (q r c) (erased_cell s.attrs) (cell_at s r c);
  }

  module _ (hooks : Hooks X T) (s : Screen X T) (v : IsRing s.ring) (row : ℕ)
      (h : row < s.ring.num_rows) where
    pub content-on_row :
        (f : Row X → Row X) (r : ℕ)
        → r < s.ring.num_rows
        → content (on_row row f s).ring r
          ≡ (if r == row then Option.map f (content s.ring row) else content s.ring r)
    content-on_row f r hr =
        rw (row-pos s.ring v row)
          (content-set_row s.ring row r (Option.map f (content s.ring row)) v.sized h hr)

    cell-filled :
        (start end : ℕ) (r : Row X) (c : ℕ)
        → Option.map damage_cell
            (get_elem? (fill_range (erased_cell s.attrs) start end 0 r.cells) c)
          ≡ wipe (leb start c && leb c end) (erased_cell s.attrs) (in_row c (some r))
    cell-filled start end r c =
        let shift : 0 + c ≡ c = omega arith in
        ap (Option.map damage_cell)
          (rw shift at (get_elem?-fill_range (erased_cell s.attrs) start end 0 r.cells c))
        ∙ damage-wipe (leb start c && leb c end) s.attrs (get_elem? r.cells c)

    pub cell-erased :
        (start end : ℕ) (o : Option (Row X)) (c : ℕ)
        → in_row c (Option.map (erase_cell_range hooks s.attrs start end) o)
          ≡ wipe (leb start c && leb c end) (erased_cell s.attrs) (in_row c o)
    unfolding erase_cell_range
    cell-erased start end none c = sym (if_same (leb start c && leb c end) none)
    cell-erased start end (some r) c = cell-filled start end r c

    pub cell-line :
        (o : Option (Row X)) (c : ℕ)
        → c < s.cols
        → in_row c (Option.map (erase_line hooks s.attrs s.cols) o)
          ≡ wipe true (erased_cell s.attrs) (in_row c o)
    unfolding erase_line erase_cell_range
    cell-line none c hc = refl
    cell-line (some r) c hc =
        let all : (leb 0 c && leb c (s.cols - 1)) ≡ true = ground arith in
        cell-filled 0 (s.cols - 1) r c
        ∙ ap (λ b. wipe b (erased_cell s.attrs) (in_row c (some r))) all

    -- A change of one row that erases the cells in some columns.
    pub Wiped-row :
        (f : Row X → Row X) (test : ℕ → Bool)
        → ((o : Option (Row X)) (c : ℕ)
            → c < s.cols
            → in_row c (Option.map f o) ≡ wipe (test c) (erased_cell s.attrs) (in_row c o))
        → Wiped (λ r c. (r == row) && test c) s (on_row row f s)
    Wiped-row f test erases = record {
      frame = record { num_rows = refl; offset = refl; view = refl; sized = length-set _ _ _ };
      attrs = refl;
      cols = refl;
      cells = λ r c hr hc. elim (ℕ_discrete r row) [
        | yes e ↦
            rw (content-on_row f r hr, (==_iff r row).1 e)
              (erases (content s.ring row) c hc
                ∙ ap (λ k. wipe (test c) (erased_cell s.attrs) (cell_at s k c)) (sym e))
        | no ne ↦ rw (content-on_row f r hr, not_same r row ne) refl
      ];
    }
