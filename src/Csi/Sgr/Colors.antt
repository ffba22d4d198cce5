-- ===== src/Csi/Sgr/Colors.antt =====
-- The two ways to write a colour, with semicolons and with colons.
use foot.Base.{
  ℕ, suc, ◌≡◌, ◌⊎◌, inl, inr, refl, sym, ap, ◌∙◌, arith, Bool, true, false, List, [], ◌∷◌, some,
  ◌==◌, ◌&&◌, ◌||◌, leb, min, length,
}
use foot.Vt.State.{Param, null}
use foot.Screen.State.{ColorSource, color_rgb, color_base256}
use foot.Csi.Sgr.{
  Pen, rgb, max_color, apply_color, value_at, sgr_color, sgr_param, sgr_loop, set_color,
}

-- A parameter with its subparameters.
abbrev pub colons : ℕ → List ℕ → Param
colons v subs = record {
  value = v;
  sub = record { idx = length subs; cur = null; value = subs; spare = 0 };
}

abbrev pub plain : ℕ → Param
plain v = colons v []

-- The parameters whose colour can be written in both ways.
abbrev pub IsColor : ℕ → Type 0
IsColor v = (v ≡ 38) ⊎ ((v ≡ 48) ⊎ (v ≡ 58))

-- What follows is not taken for the rest of a colour.
abbrev pub NoColor : List Param → Type 0
NoColor rest = ((value_at rest 0 == 5) ≡ false) × ((value_at rest 0 == 2) ≡ false)

is_color : (v : ℕ) → IsColor v → (v == 38 || (v == 48 || v == 58)) ≡ true
is_color v (inl e) = rw e refl
is_color v (inr (inl e)) = rw e refl
is_color v (inr (inr e)) = rw e refl

and_false : (b : Bool) → (b && false) ≡ false
and_false true = refl
and_false false = refl

module _ (v : ℕ) (h : IsColor v) (pen : Pen) where
  turned :
      (param : Param) (rest : List Param) (src : ColorSource) (color skip : ℕ)
      → param.value ≡ v
      → sgr_color param rest ≡ some ((src, color), skip)
      → sgr_param param rest pen ≡ (set_color v src color pen, skip)
  unfolding sgr_param apply_color
  turned param rest src color skip e c = rw (e, is_color v h, c) refl

  -- One turn of the loop on a colour.
  pub turn :
      (param : Param) (rest : List Param) (src : ColorSource) (color skip : ℕ)
      → param.value ≡ v
      → sgr_color param rest ≡ some ((src, color), skip)
      → sgr_loop 0 (param ∷ rest) pen ≡ sgr_loop skip rest (set_color v src color pen)
  unfolding sgr_loop
  turn param rest src color skip e c =
      ap (λ out. sgr_loop out.1 rest out.0) (turned param rest src color skip e c)

  -- Three subparameters and more, with or without a colour space.
  by_subparameters :
      (subs : List ℕ) (space r g b : ℕ) (rest : List Param)
      → NoColor rest
      → (sgr_color (colons v (2 ∷ r ∷ g ∷ b ∷ [])) rest ≡ some ((color_rgb, rgb r g b), 0))
        × (sgr_color (colons v (2 ∷ space ∷ r ∷ g ∷ b ∷ [])) rest
            ≡ some ((color_rgb, rgb r g b), 0))
        × (sgr_color (colons v (5 ∷ r ∷ [])) rest ≡ some ((color_base256, min r max_color), 0))
  unfolding sgr_color
  by_subparameters subs space r g b rest n =
      rw (n.0, n.1, and_false (leb 2 (length rest)), and_false (leb 4 (length rest)))
        (refl, refl, refl)

  at_least_two : (n : ℕ) → leb 2 (suc (suc n)) ≡ true
  at_least_two n = ground arith

  at_least_four : (n : ℕ) → leb 4 (suc (suc (suc (suc n)))) ≡ true
  at_least_four n = ground arith

  pub by_parameters :
      (r g b : ℕ) (rest : List Param)
      → (sgr_color (plain v) (plain 2 ∷ plain r ∷ plain g ∷ plain b ∷ rest)
          ≡ some ((color_rgb, rgb r g b), 4))
        × (sgr_color (plain v) (plain 5 ∷ plain r ∷ rest)
            ≡ some ((color_base256, min r max_color), 2))
  unfolding sgr_color
  by_parameters r g b rest = (
    rw (at_least_two (suc (suc (length rest))), at_least_four (length rest)) refl,
    rw (at_least_two (length rest)) refl,
  )

  -- For the foreground, the background and the underline, a colour given by its three parts leads to the
  -- same pen whether its parameters are divided by semicolons, by colons, or by colons with a colour
  -- space in front, and so does a colour of the palette by semicolons or by a colon, and the loop goes on
  -- behind it; as long as the parameter that follows a colour with colons is neither 2 nor 5.
  pub sgr_loop-colons :
      (space r g b : ℕ) (rest : List Param)
      → NoColor rest
      → (sgr_loop 0 (colons v (2 ∷ r ∷ g ∷ b ∷ []) ∷ rest) pen
          ≡ sgr_loop 0 (plain v ∷ plain 2 ∷ plain r ∷ plain g ∷ plain b ∷ rest) pen)
        × (sgr_loop 0 (colons v (2 ∷ space ∷ r ∷ g ∷ b ∷ []) ∷ rest) pen
            ≡ sgr_loop 0 (plain v ∷ plain 2 ∷ plain r ∷ plain g ∷ plain b ∷ rest) pen)
        × (sgr_loop 0 (colons v (5 ∷ r ∷ []) ∷ rest) pen
            ≡ sgr_loop 0 (plain v ∷ plain 5 ∷ plain r ∷ rest) pen)
  unfolding sgr_loop
  sgr_loop-colons space r g b rest n =
      let (short, long, palette) = by_subparameters [] space r g b rest n in
      let (parts, index) = by_parameters r g b rest in
      let by_parts =
        turn (plain v) (plain 2 ∷ plain r ∷ plain g ∷ plain b ∷ rest) color_rgb (rgb r g b) 4 refl
          parts in
      let by_index =
        turn (plain v) (plain 5 ∷ plain r ∷ rest) color_base256 (min r max_color) 2 refl index in
      (
        turn (colons v (2 ∷ r ∷ g ∷ b ∷ [])) rest color_rgb (rgb r g b) 0 refl short ∙ sym by_parts,
        turn (colons v (2 ∷ space ∷ r ∷ g ∷ b ∷ [])) rest color_rgb (rgb r g b) 0 refl long
            ∙ sym by_parts,
        turn (colons v (5 ∷ r ∷ [])) rest color_base256 (min r max_color) 0 refl palette
            ∙ sym by_index,
      )

  swallowed :
      (subs : List ℕ) (c : ℕ) (rest : List Param)
      → sgr_color (colons v subs) (plain 5 ∷ plain c ∷ rest)
        ≡ some ((color_base256, min c max_color), 2)
  unfolding sgr_color
  swallowed subs c rest = rw (at_least_two (length rest)) refl

  -- Where parameter 5 (blinking) and one more follow a colour that is complete with its colons, whatever
  -- these are, the colour is lost: the two parameters are taken for a colour of the palette instead.
  pub sgr_loop-swallows :
      (subs : List ℕ) (c : ℕ) (rest : List Param)
      → sgr_loop 0 (colons v subs ∷ plain 5 ∷ plain c ∷ rest) pen
        ≡ sgr_loop 0 (plain v ∷ plain 5 ∷ plain c ∷ rest) pen
  sgr_loop-swallows subs c rest =
      turn (colons v subs) (plain 5 ∷ plain c ∷ rest) color_base256 (min c max_color) 2 refl
        (swallowed subs c rest)
      ∙ sym (
          turn (plain v) (plain 5 ∷ plain c ∷ rest) color_base256 (min c max_color) 2 refl
            (swallowed [] c rest))
