-- ===== src/Screen/View/Position.antt =====
-- Where commands.c takes the view.
use native.Mathlib.Nat.{mod-eq_of_lt, add-mod_right, mod-lt}
use foot.Base.{
  ℕ, zero, suc, ◌+◌, ◌-◌, ◌%◌, ◌^◌, ◌≤◌, ◌<◌, ◌≡◌, ◌⊎◌, refl, sym, ap, ap₂, ◌∙◌, arith, some, true,
  false, Bool-cases, inl, inr, leb, leb→le, ltb, ◌==◌, min, dec_le, if◌then◌else◌,
}
use foot.Base.Int.{pos, ◌-ℤ◌}
use foot.Base.Mask.{and_mask}
use foot.Grid.{Ring}
use foot.Grid.Coords.{IsRing, and_mask-pos, and_mask-sub, sub_pos}
use foot.Screen.State.{Row, Screen, Hooks}
use foot.Screen.Damage.{
  damage_rows_in_view, term_damage_rows_in_view, term_damage_view, term_damage_scroll,
}
use foot.Screen.View.{
  view_up, view_down, rows_below_view, rows_above_view, cmd_scrollback_up, cmd_scrollback_down,
}

-- The ring of `h` has its view at `view`, and all else but its rows like `g`.
record ViewAt {R : Type 0} (view : ℕ) (g h : Ring R) : Type 0 where
  pub num_rows : h.num_rows ≡ g.num_rows
  pub offset : h.offset ≡ g.offset
  pub at : h.view ≡ view

damaged :
    {X : Type 0} (n start : ℕ) (g : Ring (Row X)) → ViewAt g.view g (damage_rows_in_view n start g)
unfolding damage_rows_in_view
damaged zero start g = record { num_rows = refl; offset = refl; at = refl }
damaged (suc n) start g =
    let ih = damaged n (start + 1) _ in
    record { num_rows = ih.num_rows; offset = ih.offset; at = ih.at }

-- How far the view is above the screen, as a remainder.
below-mod :
    {X T : Type 0} (hooks : Hooks X T) (s : Screen X T)
    → s.ring.view < s.ring.num_rows
    → s.ring.offset < s.ring.num_rows
    → rows_below_view hooks s ≡ (s.ring.offset + s.ring.num_rows - s.ring.view) % s.ring.num_rows
unfolding rows_below_view
below-mod hooks s view_in offset_in = elim (Bool-cases (leb s.ring.view s.ring.offset)) [
  | inl e ↦ rw e (
      sym (
        ap (λ k. k % s.ring.num_rows) (near e)
        ∙ add-mod_right _ s.ring.num_rows
        ∙ mod-eq_of_lt (omega (arith, offset_in))))
  | inr e ↦ rw e (sym (mod-eq_of_lt (far' e) ∙ far e))
]
  where
    near :
        leb s.ring.view s.ring.offset ≡ true
        → s.ring.offset + s.ring.num_rows - s.ring.view
          ≡ s.ring.offset - s.ring.view + s.ring.num_rows
    near e = omega (arith, leb→le _ _ e)

    below : leb s.ring.view s.ring.offset ≡ false → s.ring.offset < s.ring.view
    below e = ground arith

    far :
        leb s.ring.view s.ring.offset ≡ false
        → s.ring.offset + s.ring.num_rows - s.ring.view
          ≡ s.ring.offset + (s.ring.num_rows - s.ring.view)
    far e = omega (arith, view_in)

    far' :
        leb s.ring.view s.ring.offset ≡ false
        → s.ring.offset + s.ring.num_rows - s.ring.view < s.ring.num_rows
    far' e = omega (arith, below e)

-- A view that was set, and then damaged.
reset :
    {X : Type 0} (view n start : ℕ) (g : Ring (Row X))
    → ViewAt view g (damage_rows_in_view n start (record g { view = view }))
reset view n start g =
    let d = damaged n start (record g { view = view }) in
    record { num_rows = d.num_rows; offset = d.offset; at = d.at }

module _ {X T : Type 0} (hooks : Hooks X T) (n : ℕ) (s : Screen X T) (v : IsRing s.ring) where
  down-mask : and_mask (pos (s.ring.view + n)) s.ring.num_rows ≡ (s.ring.view + n) % s.ring.num_rows
  down-mask = rw v.power (and_mask-pos v.bits (s.ring.view + n))

  view_down-ViewAt : ViewAt ((s.ring.view + n) % s.ring.num_rows) s.ring (view_down hooks n s).ring
  unfolding view_down term_damage_scroll term_damage_rows_in_view term_damage_view
  view_down-ViewAt = elim (Bool-cases (ltb n s.rows)) [
    | inl e ↦
        rw (e, down-mask)
          (reset ((s.ring.view + n) % s.ring.num_rows) (s.rows - 1 + 1 - (s.rows - n)) (s.rows - n)
            s.ring)
    | inr e ↦
        rw (e, down-mask)
          (reset ((s.ring.view + n) % s.ring.num_rows) (s.rows - 1 + 1 - 0) 0 s.ring)
  ]

  up-mask :
      n ≤ s.ring.num_rows
      → and_mask (pos (s.ring.view + s.ring.num_rows) -ℤ pos n) s.ring.num_rows
        ≡ (s.ring.view + s.ring.num_rows - n) % s.ring.num_rows
  up-mask h =
      rw (v.power, sub_pos (s.ring.view + 2 ^ v.bits) n)
        (and_mask-sub v.bits (s.ring.view + 2 ^ v.bits) n (omega (arith, v.power))
          ∙ ap (λ k. k % 2 ^ v.bits) turn
          ∙ add-mod_right (s.ring.view + 2 ^ v.bits - n) (2 ^ v.bits))
    where
      turn : s.ring.view + 2 ^ v.bits + 2 ^ v.bits - n ≡ s.ring.view + 2 ^ v.bits - n + 2 ^ v.bits
      turn = omega (arith, h, v.power)

  view_up-ViewAt :
      n ≤ s.ring.num_rows
      → ViewAt
          ((s.ring.view + s.ring.num_rows - n) % s.ring.num_rows)
          s.ring
          (view_up hooks n s).ring
  unfolding view_up term_damage_scroll term_damage_rows_in_view term_damage_view
  view_up-ViewAt h = elim (Bool-cases (ltb n s.rows)) [
    | inl e ↦
        rw (e, up-mask h)
          (reset ((s.ring.view + s.ring.num_rows - n) % s.ring.num_rows) (n - 1 + 1 - 0) 0 s.ring)
    | inr e ↦
        rw (e, up-mask h)
          (reset ((s.ring.view + s.ring.num_rows - n) % s.ring.num_rows) (s.rows - 1 + 1 - 0) 0
            s.ring)
  ]

-- The remainder of a number below two turns.
mod-once : (x n : ℕ) → x < n + n → ((x < n) × (x % n ≡ x)) ⊎ ((n ≤ x) × (x % n ≡ x - n))
mod-once x n h = elim (dec_le n x) [
  | yes le ↦
      inr (le, ap (λ k. k % n) (split le) ∙ add-mod_right (x - n) n ∙ mod-eq_of_lt (omega arith))
  | no gt ↦ inl (omega arith, mod-eq_of_lt (omega arith))
]
  where
    split : n ≤ x → x ≡ x - n + n
    split le = omega arith

-- How far a view is above the screen once it has moved by no more than there is room for.
module _ (offset view n size below : ℕ) (in_view : view < size) (in_offset : offset < size)
    (before : below ≡ (offset + size - view) % size) where
  moved_down : n ≤ below → (offset + size - (view + n) % size) % size ≡ below - n
  moved_down h = omega (
    arith,
    before,
    mod-lt (offset + size - view) {m = size} (omega arith),
    mod-once (offset + size - view) size (omega arith),
    mod-once (view + n) size
        (omega (arith, before, mod-lt (offset + size - view) {m = size} (omega arith))),
    mod-once (offset + size - (view + n) % size) size (omega arith),
    mod-lt (view + n) {m = size} (omega arith),
  )

  moved_up : n + below < size → (offset + size - (view + size - n) % size) % size ≡ below + n
  moved_up h = omega (
    arith,
    before,
    mod-once (offset + size - view) size (omega arith),
    mod-once (view + size - n) size (omega arith),
    mod-once (offset + size - (view + size - n) % size) size (omega arith),
    mod-lt (view + size - n) {m = size} (omega arith),
  )

module _ {X T : Type 0} (hooks : Hooks X T) (s : Screen X T) (v : IsRing s.ring) where
  below : ℕ
  below = rows_below_view hooks s

  below-ring : below ≡ (s.ring.offset + s.ring.num_rows - s.ring.view) % s.ring.num_rows
  unfolding below
  below-ring = below-mod hooks s v.view_in v.offset_in

  below-small : below < s.ring.num_rows
  below-small = omega (
    arith,
    below-ring,
    mod-lt (s.ring.offset + s.ring.num_rows - s.ring.view) {m = s.ring.num_rows}
        (omega (arith, v.view_in)),
  )

  below-at :
      (view : ℕ) (t : Screen X T)
      → view < s.ring.num_rows
      → ViewAt view s.ring t.ring
      → rows_below_view hooks t ≡ (s.ring.offset + s.ring.num_rows - view) % s.ring.num_rows
  below-at view t h m =
      below-mod hooks t (omega (arith, m.num_rows, m.at))
        (omega (arith, m.num_rows, m.offset, v.offset_in))
      ∙ ap₂ (λ a b. a % b) distance m.num_rows
    where
      distance :
          t.ring.offset + t.ring.num_rows - t.ring.view ≡ s.ring.offset + s.ring.num_rows - view
      distance = omega (arith, m.num_rows, m.offset, m.at)

  below-view_down : (n : ℕ) → n ≤ below → rows_below_view hooks (view_down hooks n s) ≡ below - n
  below-view_down n h =
      below-at _ _ (mod-lt (s.ring.view + n) (omega (arith, v.view_in)))
        (view_down-ViewAt hooks n s v)
      ∙ moved_down s.ring.offset s.ring.view n s.ring.num_rows below v.view_in v.offset_in
          below-ring h

  below-view_up :
      (n : ℕ) → n + below < s.ring.num_rows → rows_below_view hooks (view_up hooks n s) ≡ below + n
  below-view_up n h =
      below-at _ _ (mod-lt (s.ring.view + s.ring.num_rows - n) (omega (arith, v.view_in)))
        (view_up-ViewAt hooks n s v (omega arith))
      ∙ moved_up s.ring.offset s.ring.view n s.ring.num_rows below v.view_in v.offset_in below-ring
          h

module _ {X T : Type 0} (hooks : Hooks X T) (rows : ℕ) (s : Screen X T) (v : IsRing s.ring)
    (normal : s.is_alt ≡ false) (no_urls : hooks.urls_mode_is_active s.rest ≡ false) where
  down-result :
      cmd_scrollback_down hooks rows s
      ≡ (let n = min rows (rows_below_view hooks s) in if n == 0 then s else view_down hooks n s)
  unfolding cmd_scrollback_down
  down-result = rw (normal, no_urls) refl

  -- On the normal screen, on a ring whose size is a power of two and outside URL mode, scrolling
  -- the view down by any number of rows brings it that much closer to the screen, and never past
  -- it.
  pub cmd_scrollback_down-below :
      rows_below_view hooks (cmd_scrollback_down hooks rows s) ≡ rows_below_view hooks s - rows
  unfolding below
  cmd_scrollback_down-below =
      ap (rows_below_view hooks) down-result
      ∙ elim (Bool-cases (min rows (rows_below_view hooks s) == 0)) [
        | inl e ↦ rw e (ground (arith, e))
        | inr e ↦ rw e (
            below-view_down hooks s v (min rows (rows_below_view hooks s)) (omega arith)
            ∙ omega arith)
      ]

  -- On the normal screen, on a ring whose size is a power of two and outside URL mode, if the rows
  -- above and below the view are fewer than the ring has, scrolling the view up by any number of
  -- rows takes it that much further from the screen, and never past the start of the scrollback.
  pub cmd_scrollback_up-below :
      (above : ℕ)
      → rows_above_view hooks s ≡ some above
      → above + rows_below_view hooks s < s.ring.num_rows
      → (t : Screen X T) × (cmd_scrollback_up hooks rows s ≡ some t)
        × (rows_below_view hooks t ≡ rows_below_view hooks s + min rows above)
  unfolding cmd_scrollback_up below
  cmd_scrollback_up-below above e room = elim (Bool-cases (min rows above == 0)) [
    | inl z ↦ (s, rw (normal, no_urls, e, z) refl, ground (arith, z))
    | inr z ↦ (
      view_up hooks (min rows above) s,
      rw (normal, no_urls, e, z) refl,
      below-view_up hooks s v (min rows above) (omega arith),
    )
  ]
