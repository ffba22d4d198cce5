-- ===== src/Csi/Sgr.antt =====
-- SGR of csi.c: `sgr_reset` and `csi_sgr`, the graphic rendition. The parameters are a list, and a
-- colour that takes more of them tells how many the loop skips.
pub mod Colors
pub mod Written
pub mod Forms
pub mod Rendition
pub mod Tests
use foot.Base.{
  ℕ, zero, suc, ◌+◌, ◌-◌, ◌*◌, ◌%◌, ◌^◌, min, Bool, true, false, List, [], ◌∷◌, Option, none, some,
  ltb, leb, within, ◌==◌, ◌&&◌, ◌||◌, not, if◌then◌else◌, bit_or, length, get_or, take,
}
use foot.Vt.State.{Param, Params}
use foot.Vt.Params.{no_param}
use foot.Screen.State.{
  ColorSource, color_default, color_base16, color_base256, color_rgb, Attributes, Printer, generic,
  fast,
}
use foot.Screen.Row.{no_attributes}

-- The part of `struct terminal` that SGR works on: `attrs` and `underline` of `vt`, and the bits that
-- choose the ASCII printer. `other_bits` tells whether any other bit is set.
pub record Pen : Type 0 where
  pub attrs : Attributes
  pub underline_style : ℕ
  pub underline_color_src : ColorSource
  pub underline_color : ℕ
  pub style_bit : Bool
  pub color_bit : Bool
  pub other_bits : Bool
  pub ascii_printer : Printer

-- `term_update_ascii_printer`.
abbrev pub update_printer : Pen → Pen
update_printer p = record p {
  ascii_printer = if p.style_bit || (p.color_bit || p.other_bits) then generic else fast;
}

abbrev pub sgr_reset : Pen → Pen
sgr_reset p = update_printer (record p {
  attrs = no_attributes;
  underline_style = 0;
  underline_color_src = color_default;
  underline_color = 0;
  style_bit = false;
  color_bit = false;
})

abbrev pub set_attrs : Attributes → Pen → Pen
set_attrs a p = record p { attrs = a }

abbrev pub set_underline : Bool → ℕ → Bool → Pen → Pen
set_underline on style bit p = update_printer (record p {
  attrs = record (p.attrs) { underline = on };
  underline_style = style;
  style_bit = bit;
})

-- Parameter 4, with the style of its only subparameter.
unfoldable pub underline : Param → Pen → Pen
underline param p =
    let style = get_or param.sub.value 0 0 in
    if param.sub.idx == 1
    then if within 1 5 style
      then set_underline true style (ltb 1 style) p
      else set_underline false 0 false p
    else set_underline true 1 false p

-- The parameters without a colour behind them.
unfoldable pub sgr_plain : Param → Pen → Pen
unfolding underline
sgr_plain param p =
    let a = p.attrs in
    let v = param.value in
    if v == 0
    then sgr_reset p
    else if v == 1
    then set_attrs (record a { bold = true }) p
    else if v == 2
    then set_attrs (record a { dim = true }) p
    else if v == 3
    then set_attrs (record a { italic = true }) p
    else if v == 4
    then underline param p
    else if v == 5
    then set_attrs (record a { blink = true }) p
    else if v == 7
    then set_attrs (record a { reverse = true }) p
    else if v == 8
    then set_attrs (record a { conceal = true }) p
    else if v == 9
    then set_attrs (record a { strikethrough = true }) p
    else if v == 21
    then set_underline true 2 true p
    else if v == 22
    then set_attrs (record a { bold = false; dim = false }) p
    else if v == 23
    then set_attrs (record a { italic = false }) p
    else if v == 24
    then set_underline false 0 false p
    else if v == 25
    then set_attrs (record a { blink = false }) p
    else if v == 27
    then set_attrs (record a { reverse = false }) p
    else if v == 28
    then set_attrs (record a { conceal = false }) p
    else if v == 29
    then set_attrs (record a { strikethrough = false }) p
    else if within 30 37 v
    then set_attrs (record a { fg_src = color_base16; fg = v - 30 }) p
    else if v == 39
    then set_attrs (record a { fg_src = color_default }) p
    else if within 40 47 v
    then set_attrs (record a { bg_src = color_base16; bg = v - 40 }) p
    else if v == 49
    then set_attrs (record a { bg_src = color_default }) p
    else if v == 59
    then update_printer
        (record p { underline_color_src = color_default; underline_color = 0; color_bit = false })
    else if within 90 97 v
    then set_attrs (record a { fg_src = color_base16; fg = v - 90 + 8 }) p
    else if within 100 107 v
    then set_attrs (record a { bg_src = color_base16; bg = v - 100 + 8 }) p
    else p

-- `ALEN(term->colors.table) - 1`.
abbrev pub max_color : ℕ
max_color = 255

-- `r << 16 | g << 8 | b`, of three `uint8_t`.
abbrev pub rgb : ℕ → ℕ → ℕ → ℕ
rgb r g b = bit_or (bit_or (r % 2 ^ 8 * 2 ^ 16) (g % 2 ^ 8 * 2 ^ 8)) (b % 2 ^ 8)

abbrev pub value_at : List Param → ℕ → ℕ
value_at params i = (get_or params i no_param).value

abbrev pub sub_value : Param → ℕ → ℕ
sub_value param i = get_or param.sub.value i 0

-- The colour of parameter 38, 48 or 58, and how many more parameters it takes.
unfoldable pub sgr_color : Param → List Param → Option ((ColorSource × ℕ) × ℕ)
sgr_color param rest =
    let sub = param.sub in
    let first = if leb 5 sub.idx then 2 else 1 in
    if leb 2 (length rest) && value_at rest 0 == 5
    then some ((color_base256, min (value_at rest 1) max_color), 2)
    else if leb 4 (length rest) && value_at rest 0 == 2
    then some ((color_rgb, rgb (value_at rest 1) (value_at rest 2) (value_at rest 3)), 4)
    else if leb 2 sub.idx && sub_value param 0 == 5
    then some ((color_base256, min (sub_value param 1) max_color), 0)
    else if leb 4 sub.idx && sub_value param 0 == 2
    then some (
      (
        color_rgb,
        rgb (sub_value param first) (sub_value param (first + 1)) (sub_value param (first + 2)),
      ),
      0,
    )
    else none

unfoldable pub set_color : ℕ → ColorSource → ℕ → Pen → Pen
set_color v src color p =
    if v == 58
    then update_printer
        (record p { underline_color_src = src; underline_color = color; color_bit = true })
    else if v == 38
    then set_attrs (record (p.attrs) { fg_src = src; fg = color }) p
    else set_attrs (record (p.attrs) { bg_src = src; bg = color }) p

-- A colour that is not recognised changes nothing.
unfoldable pub apply_color : ℕ → Option ((ColorSource × ℕ) × ℕ) → Pen → Pen × ℕ
unfolding set_color
apply_color v none p = (p, 0)
apply_color v (some ((src, color), skip)) p = (set_color v src color p, skip)

-- One turn of the loop: the pen, and how many parameters to skip.
unfoldable pub sgr_param : Param → List Param → Pen → Pen × ℕ
unfolding sgr_plain sgr_color apply_color
sgr_param param rest p =
    let v = param.value in
    if v == 38 || (v == 48 || v == 58)
    then apply_color v (sgr_color param rest) p
    else (sgr_plain param p, 0)

unfoldable pub sgr_loop : ℕ → List Param → Pen → Pen
unfolding sgr_param
sgr_loop skip [] p = p
sgr_loop zero (param ∷ rest) p = let (p', skip) = sgr_param param rest p in sgr_loop skip rest p'
sgr_loop (suc skip) (param ∷ rest) p = sgr_loop skip rest p

unfoldable pub csi_sgr : Params → Pen → Pen
unfolding sgr_loop
csi_sgr params p = if params.idx == 0 then sgr_reset p else sgr_loop 0 (take params.idx params.v) p
