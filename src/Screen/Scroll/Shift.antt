-- ===== src/Screen/Scroll/Shift.antt =====
-- What the swap loops of terminal.c do to a ring, row by row.
use native.Mathlib.Nat.{add-mod_right, mod-lt, div-add-mod}
use foot.Base.{
  ℕ, zero, suc, ◌+◌, ◌-◌, ◌*◌, ◌/◌, ◌%◌, ◌≤◌, ◌<◌, ◌≡◌, ◌≢◌, refl, sym, ap, ◌∙◌, arith, Option,
  none, length, get_or-set, length-set, if◌then◌else◌, ◌==◌, dec_lt, ℕ_discrete,
}
use foot.Base.Int.{pos, ◌-ℤ◌}
use foot.Grid.{Ring, grid_row_absolute, grid_swap_row, row_at, set_row}
use foot.Grid.Coords.{IsRing, row-pos, row-lower}
use foot.Screen.Scroll.{shift_up_loop}

mul_step : (n p q : ℕ) → p < q → n * p + n ≤ n * q
mul_step n p q h = grind arith

mul_mono : (n p q : ℕ) → q ≤ p → n * q ≤ n * p
mul_mono n p q h = grind arith

-- Different places in a window no longer than the ring are different rows of the ring.
pub places_differ : (b x y n : ℕ) → x < y → y < x + n → (b + x) % n ≢ (b + y) % n
places_differ b x y n lt near e = elim (dec_lt ((b + x) / n) ((b + y) / n)) [
  | yes p ↦ omega (arith, e, div-add-mod (b + x) n, div-add-mod (b + y) n, mul_step n _ _ p)
  | no p ↦ omega (
    arith,
    e,
    div-add-mod (b + x) n,
    div-add-mod (b + y) n,
    mul_mono n ((b + x) / n) ((b + y) / n) (omega arith),
  )
]

-- The row at a place of the ring, counted from its offset; `place` is its index.
abbrev pub place : {R : Type 0} → Ring R → ℕ → ℕ
place g k = (g.offset + k) % g.num_rows

abbrev pub content : {R : Type 0} → Ring R → ℕ → Option R
content g k = row_at g (place g k)

regroup : (o b x : ℕ) → o + (b + x) ≡ o + b + x
regroup o b x = omega arith

module _ {R : Type 0} (g : Ring R) where
  pub place_ne :
      (b x y : ℕ) → x ≢ y → x < g.num_rows → y < g.num_rows → place g (b + x) ≢ place g (b + y)
  place_ne b x y ne hx hy e = elim (dec_lt x y) [
    | yes p ↦ places_differ (g.offset + b) x y g.num_rows p (omega arith) same
    | no p ↦ places_differ (g.offset + b) y x g.num_rows (omega arith) (omega arith) (sym same)
  ]
    where
      same : (g.offset + b + x) % g.num_rows ≡ (g.offset + b + y) % g.num_rows
      same =
          ap (λ k. k % g.num_rows) (sym (regroup g.offset b x))
          ∙ e
          ∙ ap (λ k. k % g.num_rows) (regroup g.offset b y)

  -- Writing one place of a window leaves the others alone.
  pub content-set :
      (b x y : ℕ) (r : Option R)
      → length g.rows ≡ g.num_rows
      → x < g.num_rows
      → y < g.num_rows
      → content (set_row g (place g (b + x)) r) (b + y) ≡ (if y == x then r else content g (b + y))
  content-set b x y r sized hx hy =
      get_or-set g.rows (place g (b + x)) (place g (b + y)) r none
        (omega (arith, sized, mod-lt (g.offset + (b + x)) {m = g.num_rows} (omega arith)))
      ∙ elim (ℕ_discrete y x) [
        | yes e ↦ rw e (ground arith)
        | no ne ↦ ground (arith, place_ne b x y (λ q. ne (sym q)) hx hy)
      ]

-- A ring with other rows.
pub record SameFrame {R : Type 0} (g h : Ring R) : Type 0 where
  pub num_rows : h.num_rows ≡ g.num_rows
  pub offset : h.offset ≡ g.offset
  pub view : h.view ≡ g.view
  pub sized : length h.rows ≡ length g.rows

pub IsRing-same : {R : Type 0} {g h : Ring R} → IsRing g → SameFrame g h → IsRing h
IsRing-same v e = record {
  bits = v.bits;
  power = e.num_rows ∙ v.power;
  sized = e.sized ∙ v.sized ∙ sym e.num_rows;
  offset_in = omega (arith, e.num_rows, e.offset, v.offset_in);
  view_in = omega (arith, e.num_rows, e.view, v.view_in);
}

-- The window in which the loops work begins `n` places above row `lo`.
abbrev pub base : {R : Type 0} → Ring R → ℕ → ℕ → ℕ
base g lo n = lo + (g.num_rows - n)

module _ {R : Type 0} (g : Ring R) (v : IsRing g) (lo n m : ℕ) (fits : n ≤ g.num_rows) where
  above_place : grid_row_absolute g (pos (lo + m) -ℤ pos n) ≡ place g (base g lo n + m)
  above_place = row-lower g v (lo + m) n fits ∙ ap (λ k. k % g.num_rows) (omega arith)

  row_place : grid_row_absolute g (pos (lo + m)) ≡ place g (base g lo n + (n + m))
  row_place =
      row-pos g v (lo + m)
      ∙ sym (add-mod_right (g.offset + (lo + m)) g.num_rows)
      ∙ ap (λ k. k % g.num_rows) (omega arith)

  swapped : Ring R
  swapped = grid_swap_row (pos (lo + m) -ℤ pos n) (pos (lo + m)) g

  swapped-SameFrame : SameFrame g swapped
  unfolding swapped grid_swap_row
  swapped-SameFrame = record {
    num_rows = refl;
    offset = refl;
    view = refl;
    sized = length-set _ _ _ ∙ length-set _ _ _;
  }

  -- One swap exchanges two places of the window.
  content-swapped :
      (y : ℕ)
      → n + m < g.num_rows
      → y < g.num_rows
      → content swapped (base g lo n + y) ≡ (
          if y == n + m
          then content g (base g lo n + m)
          else if y == m
          then content g (base g lo n + (n + m))
          else content g (base g lo n + y))
  unfolding swapped grid_swap_row
  content-swapped y hm hy =
      rw (above_place, row_place)
        (content-set g1 (base g lo n) (n + m) y (content g (base g lo n + m))
            (length-set _ _ _ ∙ v.sized) hm hy
          ∙ ap (λ z. if y == n + m then content g (base g lo n + m) else z)
              (content-set g (base g lo n) m y (content g (base g lo n + (n + m))) v.sized
                (omega arith) hy))
    where
      g1 : Ring R
      g1 = set_row g (place g (base g lo n + m)) (content g (base g lo n + (n + m)))

-- What the loop over rows `lo` to `lo + c - 1` of `term_scroll_partial` does to the places of its
-- window: the first `c` of them go `n` places on, and those behind stay.
pub record Shifted {R : Type 0} (b c n : ℕ) (g h : Ring R) : Type 0 where
  pub frame : SameFrame g h
  pub moved : (m : ℕ) → m < c → content h (b + (n + m)) ≡ content g (b + m)
  pub stay : (k : ℕ) → c + n ≤ k → k < g.num_rows → content h (b + k) ≡ content g (b + k)

Shifted-swap :
    {R : Type 0} (c lo n : ℕ) (g h : Ring R) (v : IsRing g) (fits : n ≤ g.num_rows)
    → suc c + n ≤ g.num_rows
    → Shifted (base g lo n) c n (swapped g v lo n c fits) h
    → Shifted (base g lo n) (suc c) n g h
Shifted-swap c lo n g h v fits room ih = record {
  frame = record {
    num_rows = ih.frame.num_rows ∙ same.num_rows;
    offset = ih.frame.offset ∙ same.offset;
    view = ih.frame.view ∙ same.view;
    sized = ih.frame.sized ∙ same.sized;
  };
  moved = λ m lt. elim (ℕ_discrete m c) [
    | yes e ↦ rw e (
        ih.stay (n + c) (omega arith) (omega (arith, same.num_rows))
        ∙ ground (arith, exchange (n + c) (omega arith)))
    | no ne ↦ ih.moved m (omega arith) ∙ ground (arith, exchange m (omega arith))
  ];
  stay = λ k lo' hi.
      ih.stay k (omega arith) (omega (arith, same.num_rows)) ∙ ground (arith, exchange k hi);
}
  where
    same : SameFrame g (swapped g v lo n c fits)
    same = swapped-SameFrame g v lo n c fits

    exchange :
        (y : ℕ)
        → y < g.num_rows
        → content (swapped g v lo n c fits) (base g lo n + y) ≡ (
            if y == n + c
            then content g (base g lo n + c)
            else if y == c
            then content g (base g lo n + (n + c))
            else content g (base g lo n + y))
    exchange y hy = content-swapped g v lo n c fits y (omega arith) hy

pub shift_up_loop-Shifted :
    {R : Type 0} (c lo n : ℕ) (g : Ring R)
    → IsRing g
    → c + n ≤ g.num_rows
    → Shifted (base g lo n) c n g (shift_up_loop c lo n g)
unfolding shift_up_loop swapped grid_swap_row
shift_up_loop-Shifted zero lo n g v h = record {
  frame = record { num_rows = refl; offset = refl; view = refl; sized = refl };
  moved = λ m lt. absurd (omega arith);
  stay = λ k lo hi. refl;
}
shift_up_loop-Shifted (suc c) lo n g v h =
    let fits : n ≤ g.num_rows = omega arith in
    let same = swapped-SameFrame g v lo n c fits in
    let ih =
      shift_up_loop-Shifted c lo n (swapped g v lo n c fits) (IsRing-same v same)
        (omega (arith, same.num_rows)) in
    Shifted-swap c lo n g _ v fits h ih
