-- ===== src/Selection/Scrolled.antt =====
-- Scrolling and the selection: it is cancelled exactly where the scroll recycles one of its rows, and a
-- selection that stays keeps its place among the rows.
use native.Mathlib.Nat.{mod-eq_of_lt, mod-lt, div-add-mod, add-mul-mod_self_left}
use foot.Base.{
  ℕ, ◌+◌, ◌-◌, ◌*◌, ◌/◌, ◌%◌, min, ◌≤◌, ◌≡◌, ◌↔◌, ap, ◌∙◌, arith, Bool-cases, true≢false, inl, inr,
  ◌⊎◌, sym, refl, false, ltb,
}
use foot.Base.Int.{pos}
use foot.Grid.{Ring, grid_row_abs_to_sb}
use foot.Grid.Coords.{IsRing, to_sb}
use foot.Selection.{Term, Calls, no_range, scrolls_out_above, selection_cancel, selection_scroll_up}
use foot.Selection.Visit.{Range, selection_none}
use foot.Selection.Rows.{num_rows-positive}

-- What `term_scroll_partial` does to the offset of the ring.
abbrev pub scrolled : {R : Type 0} → ℕ → Ring R → Ring R
scrolled rows g = record g { offset = (g.offset + rows) % g.num_rows }

module _ {R : Type 0} (g : Ring R) (v : IsRing g) (screen_rows rows : ℕ)
    (fits : screen_rows ≤ g.num_rows) where
  scrolled-IsRing : IsRing (scrolled rows g)
  scrolled-IsRing = record {
    bits = v.bits;
    power = v.power;
    sized = v.sized;
    offset_in = mod-lt (g.offset + rows) {m = g.num_rows} (num_rows-positive g v);
    view_in = v.view_in;
  }

  sb-scrolled :
      (a : ℕ)
      → rows ≤ grid_row_abs_to_sb g screen_rows (pos a)
      → grid_row_abs_to_sb (scrolled rows g) screen_rows (pos a) + rows
        ≡ grid_row_abs_to_sb g screen_rows (pos a)
  sb-scrolled a h = rw (to_sb g v screen_rows fits a) (
      ap (λ x. x + rows)
        (to_sb (scrolled rows g) scrolled-IsRing screen_rows fits a
          ∙ ap (λ x. x % n) turns
          ∙ add-mul-mod_self_left (s - rows + n * (e / n)) n ((g.offset + rows) / n)
          ∙ add-mul-mod_self_left (s - rows) n (e / n)
          ∙ mod-eq_of_lt (omega (arith, mod-lt e {m = n} (num_rows-positive g v))))
      ∙ omega (arith, reached))
    where
      n : ℕ
      n = g.num_rows

      e : ℕ
      e = a + n + n - (g.offset + screen_rows)

      s : ℕ
      s = e % n

      reached : rows ≤ s
      reached = omega (arith, to_sb g v screen_rows fits a)

      turns :
          a + n + n - ((g.offset + rows) % n + screen_rows)
          ≡ s - rows + n * (e / n) + n * ((g.offset + rows) / n)
      turns = omega (
        arith,
        div-add-mod e n,
        div-add-mod (g.offset + rows) n,
        mod-lt (g.offset + rows) {m = n} (num_rows-positive g v),
        v.offset_in,
        reached,
      )

  not_out : (a b : ℕ) → (ltb (min a b) rows ≡ false) ↔ ((rows ≤ a) × (rows ≤ b))
  not_out a b = ground arith

  -- The row lies as many rows nearer to the start of the scrollback afterwards.
  abbrev pub MovesAlong : ℕ → Type 0
  MovesAlong a =
      grid_row_abs_to_sb (scrolled rows g) screen_rows (pos a) + rows
      ≡ grid_row_abs_to_sb g screen_rows (pos a)

  scrolls_out_iff :
      (a b : ℕ) (sel : Range)
      → sel.start.row ≡ pos a
      → sel.end.row ≡ pos b
      → (scrolls_out_above g screen_rows sel rows ≡ false) ↔ (MovesAlong a × MovesAlong b)
  unfolding scrolls_out_above
  scrolls_out_iff a b sel e e' =
      let sa = grid_row_abs_to_sb g screen_rows (pos a) in
      let sb = grid_row_abs_to_sb g screen_rows (pos b) in
      rw (e, e')
        (
          (λ h. let (ha, hb) = (not_out sa sb).0 h in (sb-scrolled a ha, sb-scrolled b hb)),
          λ (ha, hb). (not_out sa sb).1 (omega (arith, ha), omega (arith, hb)),
        )

module _ {X T : Type 0} (calls : Calls T) (t : Term X T) (v : IsRing t.ring) (rows a b : ℕ)
    (fits : t.rows ≤ t.ring.num_rows) where
  -- Both ends of the selection stay in the ring.
  abbrev pub Stays : Type 0
  Stays = MovesAlong t.ring v t.rows rows fits a × MovesAlong t.ring v t.rows rows fits b

  cancelled-none : (selection_cancel calls t).selection.kind ≡ selection_none
  unfolding selection_cancel
  cancelled-none = refl

  cancelled-no_range : (selection_cancel calls t).selection.coords ≡ no_range
  unfolding selection_cancel
  cancelled-no_range = refl

  -- Scrolling up by `rows`, on a ring that has a power of two rows, no fewer than the screen, with a
  -- selection from row `a` to row `b`: if both rows lie as many rows nearer to the start of the
  -- scrollback afterwards, `selection_scroll_up` changes nothing; if not, as the ring has come round to
  -- one of them, it leaves no selection and no coordinates.
  pub selection_scroll_up-kept :
      t.selection.coords.start.row ≡ pos a
      → t.selection.coords.end.row ≡ pos b
      → (Stays × (selection_scroll_up calls rows t ≡ t))
        ⊎ ((¬ Stays)
            × ((selection_scroll_up calls rows t).selection.kind ≡ selection_none)
            × ((selection_scroll_up calls rows t).selection.coords ≡ no_range))
  unfolding selection_scroll_up
  selection_scroll_up-kept e e' =
      let out = scrolls_out_above t.ring t.rows t.selection.coords rows in
      let iff = scrolls_out_iff t.ring v t.rows rows fits a b t.selection.coords e e' in
      elim (Bool-cases out) [
        | inl h ↦ inr (
          (λ stays. true≢false (sym h ∙ iff.1 stays)),
          rw h cancelled-none,
          rw h cancelled-no_range,
        )
        | inr h ↦ inl (iff.0 h, rw h refl)
      ]
