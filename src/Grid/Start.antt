-- ===== src/Grid/Start.antt =====
-- The search for the start of the scrollback, by `grid_sb_start_ignore_uninitialized` of grid.c.
use native.Mathlib.Nat.{mod-eq_of_lt, mod-add-mod, add-mod_right, mod-lt}
use foot.Base.{
  ℕ, zero, suc, ◌+◌, ◌-◌, ◌%◌, ◌≤◌, ◌<◌, ◌≡◌, refl, sym, ap, ◌∙◌, arith, some, Bool, true, false,
  true≢false, Bool-cases, inl, inr, dec_le,
}
use foot.Base.Int.{pos}
use foot.Base.Mask.{and_mask}
use foot.Grid.{Ring, row_at, is_null, first_row, grid_sb_start_ignore_uninitialized}
use foot.Grid.Coords.{IsRing, and_mask-pos}

module _ {R : Type 0} (g : Ring R) where
  -- Whether the row `k` places behind row `start` is missing.
  abbrev pub missing : ℕ → ℕ → Bool
  missing start k = is_null (row_at g ((start + k) % g.num_rows))

  -- `found` is the first allocated row from `start` on.
  pub record IsFirst (start found : ℕ) : Type 0 where
    pub steps : ℕ
    pub in_turn : steps < g.num_rows
    pub place : found ≡ (start + steps) % g.num_rows
    pub allocated : missing start steps ≡ false
    pub skipped : (i : ℕ) → i < steps → missing start i ≡ true

  module _ (v : IsRing g) where
    next : (start : ℕ) → and_mask (pos (start + 1)) g.num_rows ≡ (start + 1) % g.num_rows
    next start = rw v.power (and_mask-pos v.bits (start + 1))

    missing-next : (start i : ℕ) → missing ((start + 1) % g.num_rows) i ≡ missing start (suc i)
    missing-next start i =
        ap (λ k. is_null (row_at g k))
          (mod-add-mod (start + 1) g.num_rows i ∙ ap (λ k. k % g.num_rows) (omega arith))

    at_start : (start : ℕ) → start < g.num_rows → (start + 0) % g.num_rows ≡ start
    at_start start h = mod-eq_of_lt (omega arith) ∙ omega arith

    IsFirst-here :
        (start : ℕ) → start < g.num_rows → is_null (row_at g start) ≡ false → IsFirst start start
    IsFirst-here start h here = record {
      steps = 0;
      in_turn = omega arith;
      place = sym (at_start start h);
      allocated = rw (at_start start h) here;
      skipped = λ i h. absurd (omega arith);
    }

    -- The search does not go past an allocated row.
    IsFirst-steps :
        (start found k : ℕ) (first : IsFirst start found)
        → missing start k ≡ false
        → first.steps ≤ k
    IsFirst-steps start found k first e = elim (dec_le first.steps k) [
      | yes h ↦ h
      | no h ↦ absurd (true≢false (sym (first.skipped k (omega arith)) ∙ e))
    ]

    IsFirst-next :
        (start found k : ℕ)
        → start < g.num_rows
        → suc k < g.num_rows
        → missing start 0 ≡ true
        → missing start (suc k) ≡ false
        → IsFirst ((start + 1) % g.num_rows) found
        → IsFirst start found
    IsFirst-next start found k hs hk null e first = record {
      steps = suc first.steps;
      in_turn = omega (
        arith,
        IsFirst-steps ((start + 1) % g.num_rows) found k first (missing-next start k ∙ e),
      );
      place =
          first.place
          ∙ mod-add-mod (start + 1) g.num_rows first.steps
          ∙ ap (λ k. k % g.num_rows) (omega arith);
      allocated = sym (missing-next start first.steps) ∙ first.allocated;
      skipped = λ i h. before i h;
    }
      where
        before : (i : ℕ) → i < suc first.steps → missing start i ≡ true
        before zero h = null
        before (suc i) h = sym (missing-next start i) ∙ first.skipped i (omega arith)

    first_row-IsFirst :
        (fuel start k : ℕ)
        → start < g.num_rows
        → k < fuel
        → fuel ≤ g.num_rows
        → missing start k ≡ false
        → (found : ℕ) × (first_row fuel start g ≡ some found) × IsFirst start found
    unfolding first_row
    first_row-IsFirst zero start k hs hk hf e = absurd (omega arith)
    first_row-IsFirst (suc fuel) start zero hs hk hf e =
        let here : is_null (row_at g start) ≡ false = rw (at_start start hs) at e in
        (start, rw here refl, IsFirst-here start hs here)
    first_row-IsFirst (suc fuel) start (suc k) hs hk hf e =
        elim (Bool-cases (is_null (row_at g start))) [
          | inr here ↦ (start, rw here refl, IsFirst-here start hs here)
          | inl null ↦
              let (found, answer, first) =
                first_row-IsFirst fuel ((start + 1) % g.num_rows) k
                  (mod-lt (start + 1) (omega arith)) (omega arith) (omega arith)
                  (missing-next start k ∙ e) in
              (
                found,
                rw (null, next start) answer,
                IsFirst-next start found k hs (omega arith) (rw (at_start start hs) null) e first,
              )
        ]

    -- On a ring whose size is a power of two and which has an allocated row, the search ends within one
    -- turn, at the first allocated row behind the screen: those from behind the screen to it are missing.
    pub sb_start-IsFirst :
        (screen_rows r : ℕ)
        → r < g.num_rows
        → is_null (row_at g r) ≡ false
        → (found : ℕ) × (grid_sb_start_ignore_uninitialized g screen_rows ≡ some found)
          × IsFirst ((g.offset + screen_rows) % g.num_rows) found
    unfolding grid_sb_start_ignore_uninitialized
    sb_start-IsFirst screen_rows r h e = rw behind (elim (dec_le start r) [
      | yes le ↦
          first_row-IsFirst g.num_rows start (r - start) inside (omega arith) (omega arith)
            (rw (after le) e)
      | no gt ↦
          first_row-IsFirst g.num_rows start (r + g.num_rows - start) inside (omega arith)
            (omega arith) (rw (round (omega arith)) e)
    ])
      where
        start : ℕ
        start = (g.offset + screen_rows) % g.num_rows

        inside : start < g.num_rows
        inside = mod-lt (g.offset + screen_rows) (omega arith)

        behind : and_mask (pos (g.offset + screen_rows)) g.num_rows ≡ start
        behind = rw v.power (and_mask-pos v.bits (g.offset + screen_rows))

        after : start ≤ r → (start + (r - start)) % g.num_rows ≡ r
        after le = ap (λ k. k % g.num_rows) (omega arith) ∙ mod-eq_of_lt h

        round : r < start → (start + (r + g.num_rows - start)) % g.num_rows ≡ r
        round gt =
            ap (λ k. k % g.num_rows) (omega (arith, inside))
            ∙ add-mod_right r g.num_rows
            ∙ mod-eq_of_lt h
