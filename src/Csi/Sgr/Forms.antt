-- ===== src/Csi/Sgr/Forms.antt =====
-- Colours with colons and with semicolons, as `csi_sgr` meets them in the parser's arrays.
use foot.Base.{ℕ, ◌≡◌, ◌∙◌, sym, List, [], ◌∷◌}
use foot.Vt.State.{Param, Params}
use foot.Csi.Sgr.{Pen, csi_sgr}
use foot.Csi.Sgr.Colors.{colons, plain, IsColor, sgr_loop-swallows}
use foot.Csi.Sgr.Written.{Written, csi_sgr-Written}

-- The colours that can be written with colons: three parts, with or without a colour space in front, or
-- one of the palette.
pub data ColonColor : Type 0 where
  by_parts : ℕ → ℕ → ℕ → ColonColor
  with_space : ℕ → ℕ → ℕ → ℕ → ColonColor
  by_palette : ℕ → ColonColor

abbrev pub with_colons : ℕ → ColonColor → Param
with_colons v (by_parts r g b) = colons v (2 ∷ r ∷ g ∷ b ∷ [])
with_colons v (with_space space r g b) = colons v (2 ∷ space ∷ r ∷ g ∷ b ∷ [])
with_colons v (by_palette n) = colons v (5 ∷ n ∷ [])

abbrev pub with_semicolons : ℕ → ColonColor → List Param → List Param
with_semicolons v (by_parts r g b) rest = plain v ∷ plain 2 ∷ plain r ∷ plain g ∷ plain b ∷ rest
with_semicolons v (with_space space r g b) rest =
    plain v ∷ plain 2 ∷ plain r ∷ plain g ∷ plain b ∷ rest
with_semicolons v (by_palette n) rest = plain v ∷ plain 5 ∷ plain n ∷ rest

module _ (v : ℕ) (h : IsColor v) (pen : Pen) (rest : List Param)
    (colon_params params : Params) where
  -- Where parameter 5 (blinking) and one more follow a colour at the start of a control sequence that is
  -- complete with its colons, whatever these are, the colour is lost: the two parameters are taken for
  -- a colour of the palette, as if nothing had stood behind the colons.
  pub csi_sgr-swallows :
      (subs : List ℕ) (c : ℕ)
      → Written colon_params (colons v subs ∷ plain 5 ∷ plain c ∷ rest)
      → Written params (plain v ∷ plain 5 ∷ plain c ∷ rest)
      → csi_sgr colon_params pen ≡ csi_sgr params pen
  csi_sgr-swallows subs c w w' =
      csi_sgr-Written colon_params _ _ pen w
      ∙ sgr_loop-swallows v h pen subs c rest
      ∙ sym (csi_sgr-Written params _ _ pen w')
