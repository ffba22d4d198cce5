-- ===== src/Csi/Sgr/Written.antt =====
-- What the parser leaves in `params.v`, as `csi_sgr` reads it: of the sixteen elements the ones in use, and
-- of each its value and the subparameters in use.
use foot.Base.{
  ℕ, zero, suc, ◌<◌, ◌≤◌, ◌≡◌, refl, sym, ap, ◌∙◌, arith, true, false, Bool-cases, inl, inr, List,
  [], ◌∷◌, ◌==◌, leb, dec_le, length, map, take, get_or, All, length-take, length-map,
}
use foot.Vt.State.{Param, Params}
use foot.Vt.Params.{no_param}
use foot.Vt.Params.Bounds.{SubFits, ParamsFit}
use foot.Csi.Sgr.{
  Pen, value_at, sub_value, underline, sgr_plain, sgr_color, sgr_param, sgr_loop, csi_sgr,
}
use foot.Csi.Sgr.Colors.{colons}

leb-false : (a b : ℕ) → (¬ (a ≤ b)) → leb a b ≡ false
leb-false a b h = ground arith

leb-true : (a b : ℕ) → a ≤ b → leb a b ≡ true
leb-true a b h = ground arith

-- The value and the subparameters in use.
abbrev pub used : Param → Param
used p = colons p.value (take p.sub.idx p.sub.value)

-- The parser's arrays, with the pointers inside, hold these parameters.
pub record Written (params : Params) (list : List Param) : Type 0 where
  pub fits : ParamsFit params
  pub holds : map used (take params.idx params.v) ≡ list

abbrev Fits : Param → Type 0
Fits p = SubFits p.sub

get_or-take : (n : ℕ) (xs : List ℕ) (i d : ℕ) → i < n → get_or (take n xs) i d ≡ get_or xs i d
get_or-take zero xs i d h = absurd (omega arith)
get_or-take (suc n) [] i d h = refl
get_or-take (suc n) (x ∷ xs) zero d h = refl
get_or-take (suc n) (x ∷ xs) (suc i) d h = get_or-take n xs i d (omega arith)

value_at-used : (ps : List Param) (i : ℕ) → value_at (map used ps) i ≡ value_at ps i
value_at-used [] i = refl
value_at-used (p ∷ ps) zero = refl
value_at-used (p ∷ ps) (suc i) = value_at-used ps i

module _ (p : Param) (f : Fits p) where
  count-used : length (take p.sub.idx p.sub.value) ≡ p.sub.idx
  count-used = omega (arith, length-take p.sub.idx p.sub.value, f.size, f.count)

  sub_value-used : (i : ℕ) → i < p.sub.idx → sub_value (used p) i ≡ sub_value p i
  sub_value-used i h = get_or-take p.sub.idx p.sub.value i 0 h

  underline-used : (pen : Pen) → underline (used p) pen ≡ underline p pen
  unfolding underline
  underline-used pen = elim (Bool-cases (p.sub.idx == 1)) [
    | inl e ↦ rw (count-used, e, sub_value-used 0 (ground (arith, e))) refl
    | inr e ↦ rw (count-used, e) refl
  ]

  sgr_plain-used : (pen : Pen) → sgr_plain (used p) pen ≡ sgr_plain p pen
  unfolding sgr_plain
  sgr_plain-used pen = rw (underline-used pen) refl

  sgr_color-used : (ps : List Param) → sgr_color (used p) (map used ps) ≡ sgr_color p ps
  unfolding sgr_color
  sgr_color-used ps =
      rw
        (
          value_at-used ps 0,
          value_at-used ps 1,
          value_at-used ps 2,
          value_at-used ps 3,
          length-map ps used,
          count-used,
        )
        (elim (dec_le 2 p.sub.idx) [
          | no few ↦
              rw (leb-false 2 p.sub.idx few, leb-false 4 p.sub.idx (λ h. few (omega arith))) refl
          | yes two ↦ elim (dec_le 4 p.sub.idx) [
            | no few ↦
                rw
                  (
                    leb-false 4 p.sub.idx few,
                    sub_value-used 0 (omega arith),
                    sub_value-used 1 (omega arith),
                  )
                  refl
            | yes four ↦ elim (dec_le 5 p.sub.idx) [
              | no few ↦
                  rw
                    (
                      leb-false 5 p.sub.idx few,
                      sub_value-used 0 (omega arith),
                      sub_value-used 1 (omega arith),
                      sub_value-used 2 (omega arith),
                      sub_value-used 3 (omega arith),
                    )
                    refl
              | yes five ↦
                  rw
                    (
                      leb-true 5 p.sub.idx five,
                      sub_value-used 0 (omega arith),
                      sub_value-used 1 (omega arith),
                      sub_value-used 2 (omega arith),
                      sub_value-used 3 (omega arith),
                      sub_value-used 4 (omega arith),
                    )
                    refl
            ]
          ]
        ])

  sgr_param-used :
      (ps : List Param) (pen : Pen) → sgr_param (used p) (map used ps) pen ≡ sgr_param p ps pen
  unfolding sgr_param
  sgr_param-used ps pen = rw (sgr_color-used ps, sgr_plain-used pen) refl

sgr_loop-used :
    (skip : ℕ) (ps : List Param) (pen : Pen)
    → All Fits ps
    → sgr_loop skip (map used ps) pen ≡ sgr_loop skip ps pen
unfolding sgr_loop
sgr_loop-used skip [] pen all = refl
sgr_loop-used zero (p ∷ ps) pen (f, all) =
    ap (λ out. sgr_loop out.1 (map used ps) out.0) (sgr_param-used p f ps pen)
    ∙ sgr_loop-used (sgr_param p ps pen).1 ps (sgr_param p ps pen).0 all
sgr_loop-used (suc skip) (p ∷ ps) pen (f, all) = sgr_loop-used skip ps pen all

All-get_or :
    (xs : List Param) → ((i : ℕ) → i < length xs → Fits (get_or xs i no_param)) → All Fits xs
All-get_or [] each = tt
All-get_or (x ∷ xs) each = (each 0 (omega arith), All-get_or xs (λ i h. each (suc i) (omega arith)))

All-take : (n : ℕ) (xs : List Param) → All Fits xs → All Fits (take n xs)
All-take zero xs all = tt
All-take (suc n) [] all = tt
All-take (suc n) (x ∷ xs) (f, all) = (f, All-take n xs all)

none_in_use :
    (n : ℕ) (xs : List Param) (y : Param) (ys : List Param)
    → map used (take n xs) ≡ y ∷ ys
    → (n == 0) ≡ false
none_in_use zero xs y ys e = absurd (omega (arith, ap length e))
none_in_use (suc n) xs y ys e = ground arith

-- `csi_sgr` reads nothing else of the parameters.
pub csi_sgr-Written :
    (params : Params) (x : Param) (xs : List Param) (pen : Pen)
    → Written params (x ∷ xs)
    → csi_sgr params pen ≡ sgr_loop 0 (x ∷ xs) pen
unfolding csi_sgr
csi_sgr-Written params x xs pen w =
    let all =
      All-take params.idx params.v
        (All-get_or params.v (λ i h. w.fits.each i (omega (arith, w.fits.size)))) in
    rw (none_in_use params.idx params.v x xs w.holds) (
      sym (sgr_loop-used 0 (take params.idx params.v) pen all)
      ∙ ap (λ ps. sgr_loop 0 ps pen) w.holds)
