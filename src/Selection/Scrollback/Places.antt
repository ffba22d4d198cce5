-- ===== src/Selection/Scrollback/Places.antt =====
-- The rows of the ring in the order in which the scrollback is erased.
use Prim.Native.Nat.add
use native.Mathlib.Nat.{mod-add-mod}
use foot.Base.{ℕ, ◌+◌, ◌-◌, ◌%◌, ◌^◌, ◌<◌, ◌≡◌, ◌≢◌, ◌∙◌, sym, ap, arith, false, ◌==◌}
use foot.Base.Int.{pos}
use foot.Base.Mask.{and_mask}
use foot.Grid.{Ring}
use foot.Grid.Coords.{IsRing, and_mask-pos, and_mask-sub, sub_pos}
use foot.Screen.Scroll.Shift.{place, place_ne}
use foot.Selection.Scrollback.{scrollback_last}

pub not_same : (a b : ℕ) → a ≢ b → (a == b) ≡ false
not_same a b h = ground arith

module _ {R : Type 0} (g : Ring R) (v : IsRing g) where
  pub next_place : (k : ℕ) → and_mask (pos (place g k + 1)) g.num_rows ≡ place g (k + 1)
  next_place k =
      ap (and_mask (pos (place g k + 1))) v.power
      ∙ and_mask-pos v.bits (place g k + 1)
      ∙ ap (λ n. ((g.offset + k) % g.num_rows + 1) % n) (sym v.power)
      ∙ mod-add-mod (g.offset + k) g.num_rows 1
      ∙ ap (λ x. x % g.num_rows) (omega arith)

  pub last_place : scrollback_last g ≡ place g (g.num_rows - 1)
  last_place =
      rw (v.power, sub_pos g.offset 1)
        (and_mask-sub v.bits g.offset 1 (omega (arith, v.power, v.offset_in))
          ∙ ap (λ x. x % 2 ^ v.bits) (omega (arith, v.power, v.offset_in)))

  pub first_place : (k : ℕ) → and_mask (pos (g.offset + k)) g.num_rows ≡ place g k
  first_place k =
      ap (and_mask (pos (g.offset + k))) v.power
      ∙ and_mask-pos v.bits (g.offset + k)
      ∙ ap (λ n. (g.offset + k) % n) (sym v.power)

  pub place_inj :
      (a b : ℕ) → a ≢ b → a < g.num_rows → b < g.num_rows → (place g a == place g b) ≡ false
  place_inj a b ne ha hb =
      not_same (place g a) (place g b) (rw (add.zero a, add.zero b) at (place_ne g 0 a b ne ha hb))
