-- ===== src/Csi/Sgr/Rendition.antt =====
-- Every rendition can be asked for: the parameters that describe it lead to it from any pen.
use foot.Base.{
  ℕ, zero, suc, ◌≤◌, ◌≡◌, refl, ◌∙◌, arith, Bool, true, false, List, [], ◌∷◌, ◌++◌, min, ltb,
  within, inl, inr, if◌then◌else◌,
}
use foot.Vt.State.{Param, Params}
use foot.Screen.State.{Attributes, ColorSource, color_default, color_base256, color_rgb, fast}
use foot.Screen.Row.{no_attributes}
use foot.Csi.Sgr.{
  Pen, update_printer, underline, sgr_plain, sgr_param, sgr_loop, csi_sgr, set_color, rgb,
  max_color,
}
use foot.Csi.Sgr.Written.{Written, csi_sgr-Written}
use foot.Csi.Sgr.Colors.{colons, plain, turn, by_parameters}

-- A colour: the default one, one of the palette, or its three parts.
pub data Color : Type 0 where
  default_color : Color
  palette : ℕ → Color
  parts : ℕ → ℕ → ℕ → Color

-- `underline` is the style, 0 for none.
pub record Rendition : Type 0 where
  pub bold : Bool
  pub dim : Bool
  pub italic : Bool
  pub underline : ℕ
  pub blink : Bool
  pub reverse : Bool
  pub conceal : Bool
  pub strikethrough : Bool
  pub foreground : Color
  pub background : Color
  pub underline_color : Color

abbrev pub flag : ℕ → Bool → List Param
flag v on = if on then plain v ∷ [] else []

abbrev pub underline_params : ℕ → List Param
underline_params zero = []
underline_params (suc n) = colons 4 (suc n ∷ []) ∷ []

abbrev pub color_params : ℕ → Color → List Param
color_params v default_color = []
color_params v (palette n) = plain v ∷ plain 5 ∷ plain n ∷ []
color_params v (parts r g b) = plain v ∷ plain 2 ∷ plain r ∷ plain g ∷ plain b ∷ []

-- A reset, then what is on.
abbrev pub rendition_params : Rendition → List Param
rendition_params s =
    plain 0
    ∷ (flag 1 s.bold
        ++ (flag 2 s.dim
            ++ (flag 3 s.italic
                ++ (underline_params s.underline
                    ++ (flag 5 s.blink
                        ++ (flag 7 s.reverse
                            ++ (flag 8 s.conceal
                                ++ (flag 9 s.strikethrough
                                    ++ (color_params 38 s.foreground
                                        ++ (color_params 48 s.background
                                            ++ (color_params 58 s.underline_color ++ [])))))))))))

abbrev pub source_of : Color → ColorSource
source_of default_color = color_default
source_of (palette n) = color_base256
source_of (parts r g b) = color_rgb

abbrev pub color_of : Color → ℕ
color_of default_color = 0
color_of (palette n) = min n max_color
color_of (parts r g b) = rgb r g b

abbrev pub has_color : Color → Bool
has_color default_color = false
has_color _ = true

-- A pen by its attributes and its underline; the printer is the one that fits.
abbrev pub pen_with : Attributes → ℕ → Color → Bool → Pen
pen_with a style color other = update_printer (record {
  attrs = a;
  underline_style = style;
  underline_color_src = source_of color;
  underline_color = color_of color;
  style_bit = ltb 1 style;
  color_bit = has_color color;
  other_bits = other;
  ascii_printer = fast;
})

abbrev pub attributes_of : Rendition → Attributes
attributes_of s = record no_attributes {
  bold = s.bold;
  dim = s.dim;
  italic = s.italic;
  underline = ltb 0 s.underline;
  blink = s.blink;
  reverse = s.reverse;
  conceal = s.conceal;
  strikethrough = s.strikethrough;
  fg_src = source_of s.foreground;
  fg = color_of s.foreground;
  bg_src = source_of s.background;
  bg = color_of s.background;
}

module _ (a : Attributes) (rest : List Param) (style : ℕ) (c : Color) (other : Bool) where
  abbrev pen : Attributes → Pen
  pen a' = pen_with a' style c other

  bold-flag :
      (on : Bool)
      → sgr_loop 0 (flag 1 on ++ rest) (pen (record a { bold = false }))
        ≡ sgr_loop 0 rest (pen (record a { bold = on }))
  unfolding sgr_loop sgr_param sgr_plain
  bold-flag true = refl
  bold-flag false = refl

  dim-flag :
      (on : Bool)
      → sgr_loop 0 (flag 2 on ++ rest) (pen (record a { dim = false }))
        ≡ sgr_loop 0 rest (pen (record a { dim = on }))
  unfolding sgr_loop sgr_param sgr_plain
  dim-flag true = refl
  dim-flag false = refl

  italic-flag :
      (on : Bool)
      → sgr_loop 0 (flag 3 on ++ rest) (pen (record a { italic = false }))
        ≡ sgr_loop 0 rest (pen (record a { italic = on }))
  unfolding sgr_loop sgr_param sgr_plain
  italic-flag true = refl
  italic-flag false = refl

  blink-flag :
      (on : Bool)
      → sgr_loop 0 (flag 5 on ++ rest) (pen (record a { blink = false }))
        ≡ sgr_loop 0 rest (pen (record a { blink = on }))
  unfolding sgr_loop sgr_param sgr_plain
  blink-flag true = refl
  blink-flag false = refl

  reverse-flag :
      (on : Bool)
      → sgr_loop 0 (flag 7 on ++ rest) (pen (record a { reverse = false }))
        ≡ sgr_loop 0 rest (pen (record a { reverse = on }))
  unfolding sgr_loop sgr_param sgr_plain
  reverse-flag true = refl
  reverse-flag false = refl

  conceal-flag :
      (on : Bool)
      → sgr_loop 0 (flag 8 on ++ rest) (pen (record a { conceal = false }))
        ≡ sgr_loop 0 rest (pen (record a { conceal = on }))
  unfolding sgr_loop sgr_param sgr_plain
  conceal-flag true = refl
  conceal-flag false = refl

  strikethrough-flag :
      (on : Bool)
      → sgr_loop 0 (flag 9 on ++ rest) (pen (record a { strikethrough = false }))
        ≡ sgr_loop 0 rest (pen (record a { strikethrough = on }))
  unfolding sgr_loop sgr_param sgr_plain
  strikethrough-flag true = refl
  strikethrough-flag false = refl

  foreground-params :
      (color : Color)
      → sgr_loop 0
          (color_params 38 color ++ rest)
          (pen (record a { fg_src = color_default; fg = 0 }))
        ≡ sgr_loop 0 rest (pen (record a { fg_src = source_of color; fg = color_of color }))
  unfolding sgr_loop set_color
  foreground-params default_color = refl
  foreground-params (palette n) =
      turn 38 (inl refl) (pen (record a { fg_src = color_default; fg = 0 })) (plain 38)
        (plain 5 ∷ plain n ∷ rest) color_base256 (min n max_color) 2 refl
        (by_parameters 38 (inl refl) (pen a) n 0 0 rest).1
  foreground-params (parts r g b) =
      turn 38 (inl refl) (pen (record a { fg_src = color_default; fg = 0 })) (plain 38)
        (plain 2 ∷ plain r ∷ plain g ∷ plain b ∷ rest) color_rgb (rgb r g b) 4 refl
        (by_parameters 38 (inl refl) (pen a) r g b rest).0

  background-params :
      (color : Color)
      → sgr_loop 0
          (color_params 48 color ++ rest)
          (pen (record a { bg_src = color_default; bg = 0 }))
        ≡ sgr_loop 0 rest (pen (record a { bg_src = source_of color; bg = color_of color }))
  unfolding sgr_loop set_color
  background-params default_color = refl
  background-params (palette n) =
      turn 48 (inr (inl refl)) (pen (record a { bg_src = color_default; bg = 0 })) (plain 48)
        (plain 5 ∷ plain n ∷ rest) color_base256 (min n max_color) 2 refl
        (by_parameters 48 (inr (inl refl)) (pen a) n 0 0 rest).1
  background-params (parts r g b) =
      turn 48 (inr (inl refl)) (pen (record a { bg_src = color_default; bg = 0 })) (plain 48)
        (plain 2 ∷ plain r ∷ plain g ∷ plain b ∷ rest) color_rgb (rgb r g b) 4 refl
        (by_parameters 48 (inr (inl refl)) (pen a) r g b rest).0

module _ (a : Attributes) (rest : List Param) (other : Bool) where
  underline-params :
      (style : ℕ)
      → style ≤ 5
      → sgr_loop 0
          (underline_params style ++ rest)
          (pen_with (record a { underline = false }) 0 default_color other)
        ≡ sgr_loop 0 rest
            (pen_with (record a { underline = ltb 0 style }) style default_color other)
  unfolding sgr_loop sgr_param sgr_plain underline
  underline-params zero h = refl
  underline-params (suc n) h =
      let known : within 1 5 (suc n) ≡ true = ground arith in
      let on : ltb 0 (suc n) ≡ true = ground arith in rw (known, on) refl

  underline_color-params :
      (style : ℕ) (color : Color)
      → sgr_loop 0 (color_params 58 color ++ rest) (pen_with a style default_color other)
        ≡ sgr_loop 0 rest (pen_with a style color other)
  unfolding sgr_loop set_color
  underline_color-params style default_color = refl
  underline_color-params style (palette n) =
      turn 58 (inr (inr refl)) (pen_with a style default_color other) (plain 58)
        (plain 5 ∷ plain n ∷ rest) color_base256 (min n max_color) 2 refl
        (by_parameters 58 (inr (inr refl)) (pen_with a style default_color other) n 0 0 rest).1
  underline_color-params style (parts r g b) =
      turn 58 (inr (inr refl)) (pen_with a style default_color other) (plain 58)
        (plain 2 ∷ plain r ∷ plain g ∷ plain b ∷ rest) color_rgb (rgb r g b) 4 refl
        (by_parameters 58 (inr (inr refl)) (pen_with a style default_color other) r g b rest).0

reset-param :
    (rest : List Param) (p : Pen)
    → sgr_loop 0 (plain 0 ∷ rest) p
      ≡ sgr_loop 0 rest (pen_with no_attributes 0 default_color p.other_bits)
unfolding sgr_loop sgr_param sgr_plain
reset-param rest p = refl

loop-end : (p : Pen) → sgr_loop 0 [] p ≡ p
unfolding sgr_loop
loop-end p = refl

loop-rendition :
    (s : Rendition) (p : Pen)
    → s.underline ≤ 5
    → sgr_loop 0 (rendition_params s) p
      ≡ pen_with (attributes_of s) s.underline s.underline_color p.other_bits
loop-rendition s p h =
    reset-param _ p
    ∙ bold-flag no_attributes _ 0 default_color other s.bold
    ∙ dim-flag (record no_attributes { bold = s.bold }) _ 0 default_color other s.dim
    ∙ italic-flag (record no_attributes { bold = s.bold; dim = s.dim }) _ 0 default_color other
        s.italic
    ∙ underline-params (record no_attributes { bold = s.bold; dim = s.dim; italic = s.italic }) _
        other s.underline h
    ∙ blink-flag
        (record no_attributes {
          bold = s.bold;
          dim = s.dim;
          italic = s.italic;
          underline = ltb 0 s.underline;
        })
        _ s.underline default_color other s.blink
    ∙ reverse-flag
        (record no_attributes {
          bold = s.bold;
          dim = s.dim;
          italic = s.italic;
          underline = ltb 0 s.underline;
          blink = s.blink;
        })
        _ s.underline default_color other s.reverse
    ∙ conceal-flag
        (record no_attributes {
          bold = s.bold;
          dim = s.dim;
          italic = s.italic;
          underline = ltb 0 s.underline;
          blink = s.blink;
          reverse = s.reverse;
        })
        _ s.underline default_color other s.conceal
    ∙ strikethrough-flag
        (record no_attributes {
          bold = s.bold;
          dim = s.dim;
          italic = s.italic;
          underline = ltb 0 s.underline;
          blink = s.blink;
          reverse = s.reverse;
          conceal = s.conceal;
        })
        _ s.underline default_color other s.strikethrough
    ∙ foreground-params
        (record no_attributes {
          bold = s.bold;
          dim = s.dim;
          italic = s.italic;
          underline = ltb 0 s.underline;
          blink = s.blink;
          reverse = s.reverse;
          conceal = s.conceal;
          strikethrough = s.strikethrough;
        })
        _ s.underline default_color other s.foreground
    ∙ background-params
        (record no_attributes {
          bold = s.bold;
          dim = s.dim;
          italic = s.italic;
          underline = ltb 0 s.underline;
          blink = s.blink;
          reverse = s.reverse;
          conceal = s.conceal;
          strikethrough = s.strikethrough;
          fg_src = source_of s.foreground;
          fg = color_of s.foreground;
        })
        _ s.underline default_color other s.background
    ∙ underline_color-params
        (record no_attributes {
          bold = s.bold;
          dim = s.dim;
          italic = s.italic;
          underline = ltb 0 s.underline;
          blink = s.blink;
          reverse = s.reverse;
          conceal = s.conceal;
          strikethrough = s.strikethrough;
          fg_src = source_of s.foreground;
          fg = color_of s.foreground;
          bg_src = source_of s.background;
          bg = color_of s.background;
        })
        _ other s.underline s.underline_color
    ∙ loop-end (pen_with (attributes_of s) s.underline s.underline_color other)
  where
    other : Bool
    other = p.other_bits

-- From any pen, a control sequence with the parameters that describe a rendition, as the parser's arrays of
-- sixteen hold them, leads to exactly this rendition, with nothing left of the old pen and the ASCII
-- printer that fits; for any of the flags, one of the five underline styles or none, and any default,
-- palette or direct colours that take no more than sixteen parameters in all.
pub csi_sgr-rendition :
    (s : Rendition) (params : Params) (p : Pen)
    → s.underline ≤ 5
    → Written params (rendition_params s)
    → csi_sgr params p ≡ pen_with (attributes_of s) s.underline s.underline_color p.other_bits
csi_sgr-rendition s params p h w = csi_sgr-Written params (plain 0) _ p w ∙ loop-rendition s p h
