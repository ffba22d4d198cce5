-- ===== src/Selection/Scrollback/Erased.antt =====
-- Erasing the scrollback ends, frees its rows and keeps those of the screen.
use foot.Base.{
  ℕ, zero, suc, ◌+◌, ◌-◌, ◌%◌, ◌≤◌, ◌<◌, ◌≡◌, ◌∙◌, refl, sym, ap, ap₂, ◌⊎◌, subst, arith, false,
  Option, none, some, ◌==◌, ==_iff, inl, inr, if◌then◌else◌, length-set, ℕ_discrete,
}
use foot.Base.Int.{pos}
use foot.Base.Mask.{and_mask}
use mathlib.Core.Option
use foot.Grid.{Ring, grid_row_abs_to_sb, row_at}
use foot.Grid.Coords.{IsRing}
use foot.Screen.State.{Row}
use foot.Screen.Scroll.Shift.{place, content, SameFrame, IsRing-same}
use foot.Screen.Scroll.Erase.{content-set_row}
use foot.Selection.Scrollback.Places.{not_same, next_place, last_place, first_place, place_inj}
use foot.Selection.{Term, Calls}
use foot.Selection.Scrollback.{
  ScrollbackCalls, scrollback_first, scrollback_last, touches_scrollback, free_found, free_row,
  free_rows_until, view_to_screen, free_scrollback, term_erase_scrollback,
}

-- From row `k` of the screen's numbering on, no row is left; the rows in front are as before.
pub record FreedFrom {R : Type 0} (k : ℕ) (g h : Ring R) : Type 0 where
  pub num_rows : h.num_rows ≡ g.num_rows
  pub offset : h.offset ≡ g.offset
  pub freed : (r : ℕ) → k ≤ r → r < g.num_rows → content h r ≡ none
  pub kept : (r : ℕ) → r < k → r < g.num_rows → content h r ≡ content g r

module _ {X T : Type 0} (others : ScrollbackCalls X T) where
  module _ (t : Term X T) (v : IsRing t.ring) where
    free_found-SameFrame :
        (o : Option (Row X)) (i : ℕ) → SameFrame t.ring (free_found others o i t).ring
    free_found-SameFrame none i = record {
      num_rows = refl;
      offset = refl;
      view = refl;
      sized = refl;
    }
    free_found-SameFrame (some row) i = record {
      num_rows = refl;
      offset = refl;
      view = refl;
      sized = length-set t.ring.rows i none;
    }

    content-free_found :
        (o : Option (Row X)) (k r : ℕ)
        → content t.ring k ≡ o
        → k < t.ring.num_rows
        → r < t.ring.num_rows
        → content (free_found others o (place t.ring k) t).ring r
          ≡ (if r == k then none else content t.ring r)
    content-free_found none k r e hk hr = elim (ℕ_discrete r k) [
      | yes same ↦ rw ((==_iff r k).1 same) (ap (content t.ring) same ∙ e)
      | no ne ↦ rw (not_same r k ne) refl
    ]
    content-free_found (some row) k r e hk hr = content-set_row t.ring k r none v.sized hk hr

    frame-free_row : (i : ℕ) → SameFrame t.ring (free_row others i t).ring
    frame-free_row i = free_found-SameFrame (row_at t.ring i) i

    content-free_row :
        (i k r : ℕ)
        → i ≡ place t.ring k
        → k < t.ring.num_rows
        → r < t.ring.num_rows
        → content (free_row others i t).ring r ≡ (if r == k then none else content t.ring r)
    content-free_row i k r p hk hr =
        subst
          (λ j. content (free_row others j t).ring r ≡ (if r == k then none else content t.ring r))
          (sym p) (content-free_found (content t.ring k) k r refl hk hr)

    place-free_row : (i k : ℕ) → place t.ring k ≡ place (free_row others i t).ring k
    place-free_row i k =
        ap₂ (λ o n. (o + k) % n) (sym (frame-free_row i).offset) (sym (frame-free_row i).num_rows)

    FreedFrom-last :
        (i k : ℕ)
        → i ≡ place t.ring k
        → k + 1 ≡ t.ring.num_rows
        → FreedFrom k t.ring (free_row others i t).ring
    FreedFrom-last i k p e = record {
      num_rows = (frame-free_row i).num_rows;
      offset = (frame-free_row i).offset;
      freed = λ r lo hi.
          content-free_row i k r p (omega arith) hi ∙ rw ((==_iff r k).1 (omega arith)) refl;
      kept = λ r hk hr.
          content-free_row i k r p (omega arith) hr ∙ rw (not_same r k (omega arith)) refl;
    }

    FreedFrom-step :
        (i k : ℕ) (h : Ring (Row X))
        → i ≡ place t.ring k
        → k < t.ring.num_rows
        → FreedFrom (k + 1) (free_row others i t).ring h
        → FreedFrom k t.ring h
    FreedFrom-step i k h p hk f = record {
      num_rows = f.num_rows ∙ (frame-free_row i).num_rows;
      offset = f.offset ∙ (frame-free_row i).offset;
      freed = λ r lo hi. elim (ℕ_discrete r k) [
        | yes e ↦
            f.kept r (omega arith) (omega (arith, (frame-free_row i).num_rows))
            ∙ content-free_row i k r p hk hi
            ∙ rw ((==_iff r k).1 e) refl
        | no ne ↦ f.freed r (omega arith) (omega (arith, (frame-free_row i).num_rows))
      ];
      kept = λ r lo hr.
          f.kept r (omega arith) (omega (arith, (frame-free_row i).num_rows))
          ∙ content-free_row i k r p hk hr
          ∙ rw (not_same r k (omega arith)) refl;
    }

  abbrev Ends : ℕ → ℕ → ℕ → ℕ → Term X T → Type 0
  Ends fuel last i k t =
      (u : Term X T) × (free_rows_until others fuel last i t ≡ some u) × FreedFrom k t.ring u.ring

  -- The loop from row `k` to the last one.
  loop-Ends :
      (n fuel last i k : ℕ) (t : Term X T)
      → IsRing t.ring
      → i ≡ place t.ring k
      → last ≡ place t.ring (t.ring.num_rows - 1)
      → k + suc n ≡ t.ring.num_rows
      → n < fuel
      → Ends fuel last i k t
  unfolding free_rows_until
  loop-Ends n zero last i k t v p q e h = absurd (omega arith)
  loop-Ends zero (suc fuel) last i k t v p q e h =
      let here : i ≡ last =
        p ∙ ap (place t.ring) {x = k} {y = t.ring.num_rows - 1} (omega arith) ∙ sym q in
      rw ((==_iff i last).1 here)
        (free_row others i t, refl, FreedFrom-last t v i k p (omega arith))
  loop-Ends (suc n) (suc fuel) last i k t v p q e h =
      let frame = frame-free_row t v i in
      let next : and_mask (pos (i + 1)) t.ring.num_rows ≡ place (free_row others i t).ring (k + 1) =
        ap (λ j. and_mask (pos (j + 1)) t.ring.num_rows) p
        ∙ next_place t.ring v k
        ∙ place-free_row t v i (k + 1) in
      let end : last ≡ place (free_row others i t).ring ((free_row others i t).ring.num_rows - 1) =
        q
        ∙ place-free_row t v i (t.ring.num_rows - 1)
        ∙ ap (λ m. place (free_row others i t).ring (m - 1)) (sym frame.num_rows) in
      let (u, r, f) =
        loop-Ends n fuel last (and_mask (pos (i + 1)) t.ring.num_rows) (k + 1) (free_row others i t)
          (IsRing-same v frame) next end (omega (arith, frame.num_rows)) (omega arith) in
      let apart : (i == last) ≡ false =
        ap₂ ◌==◌ p q
        ∙ place_inj t.ring v k (t.ring.num_rows - 1) (omega arith) (omega arith) (omega arith) in
      rw apart (u, r, FreedFrom-step t v i k u.ring p (omega arith) f)

  free_scrollback-FreedFrom :
      (t : Term X T)
      → IsRing t.ring
      → t.rows < t.ring.num_rows
      → (u : Term X T) × (free_scrollback others t.ring t ≡ some u)
        × FreedFrom t.rows t.ring u.ring
        × (u.ring.view ≡ u.ring.offset)
  unfolding free_scrollback
  free_scrollback-FreedFrom t v room =
      let t' = record t {
        rest =
            others.destroy_images
              (grid_row_abs_to_sb t.ring t.rows (pos (scrollback_first t.ring t.rows)))
              (grid_row_abs_to_sb t.ring t.rows (pos (scrollback_last t.ring))) t.ring t.rest;
      } in
      let (u, e, f) =
        loop-Ends (t.ring.num_rows - t.rows - 1) t.ring.num_rows (scrollback_last t.ring)
          (scrollback_first t.ring t.rows) t.rows t' v (first_place t.ring v t.rows)
          (last_place t.ring v) (omega arith) (omega arith) in
      (
        view_to_screen others u,
        ap (Option.map (view_to_screen others)) e,
        record { num_rows = f.num_rows; offset = f.offset; freed = f.freed; kept = f.kept },
        refl,
      )

  -- On a ring whose size is a power of two and no smaller than the screen, with a selection that does not
  -- touch the scrollback, or none, `term_erase_scrollback` ends, with one turn of the ring as fuel: afterwards
  -- no row is left outside the screen, the rows of the screen are as before, and the view follows the screen,
  -- unless the ring has no room for a scrollback, where nothing changes.
  pub term_erase_scrollback-FreedFrom :
      (calls : Calls T) (t : Term X T)
      → IsRing t.ring
      → t.rows ≤ t.ring.num_rows
      → touches_scrollback t.ring t.rows t.selection.coords ≡ false
      → (u : Term X T) × (term_erase_scrollback others calls t ≡ some u)
        × FreedFrom t.rows t.ring u.ring
        × ((u ≡ t) ⊎ (u.ring.view ≡ u.ring.offset))
  unfolding term_erase_scrollback
  term_erase_scrollback-FreedFrom calls t v fits untouched =
      elim (ℕ_discrete t.ring.num_rows t.rows) [
        | yes e ↦ (
          t,
          rw ((==_iff t.ring.num_rows t.rows).1 e) refl,
          record {
            num_rows = refl;
            offset = refl;
            freed = λ r lo hi. absurd (omega arith);
            kept = λ r lo hi. refl;
          },
          inl refl,
        )
        | no ne ↦
            let (u, e, f, w) = free_scrollback-FreedFrom t v (omega arith) in
            (u, rw (not_same t.ring.num_rows t.rows ne, untouched) e, f, inr w)
      ]
