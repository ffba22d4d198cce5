-- ===== src/Csi/Sgr/Tests.antt =====
-- Renditions, asked for by their parameters.
use foot.Base.{ℕ, ◌≡◌, refl, arith, true, false, List, [], ◌∷◌, inl}
use foot.Vt.State.{Params}
use foot.Vt.Params.{
  action_clear, action_param, write_param, action_param_lazy_init, action_param_new, next_param,
  action_param_new_subparam, param_digit, next_sub_param,
}
use foot.Vt.Params.Bounds.{ParamsFit}
use foot.Vt.Params.Decimal.{action_bytes}
use foot.Vt.Switch.{state_switch}
use foot.Vt.Machine.{perform_all, vt_from_slave}
use foot.Vt.Machine.Bounds.{vt_from_slave-IsValid}
use foot.Vt.Tests.{recorder, recorder_laws, fresh, fresh-IsValid}
use foot.Screen.State.{color_base256, generic}
use foot.Screen.Row.{no_attributes}
use foot.Csi.Sgr.{Pen, csi_sgr}
use foot.Csi.Sgr.Colors.{colons, plain}
use foot.Csi.Sgr.Written.{Written}
use foot.Csi.Sgr.Forms.{csi_sgr-swallows}
use foot.Csi.Sgr.Rendition.{
  Rendition, default_color, palette, parts, rendition_params, pen_with, attributes_of,
  csi_sgr-rendition,
}

abbrev pen : Pen
pen = record {
  attrs = record no_attributes { bold = true; blink = true };
  underline_style = 3;
  underline_color_src = color_base256;
  underline_color = 9;
  style_bit = true;
  color_bit = true;
  other_bits = false;
  ascii_printer = generic;
}

-- Italic with a curly underline, on a background of the palette.
abbrev rendition : Rendition
rendition = record {
  bold = false;
  dim = false;
  italic = true;
  underline = 3;
  blink = false;
  reverse = false;
  conceal = false;
  strikethrough = false;
  foreground = default_color;
  background = palette 17;
  underline_color = parts 1 2 3;
}

-- What the parser leaves in its parameters.
abbrev read : List ℕ → Params
read bytes = (vt_from_slave recorder (0x1b ∷ b'[' ∷ bytes) fresh).vt.params

read_fits : (bytes : List ℕ) → ParamsFit (read bytes)
read_fits bytes =
    (vt_from_slave-IsValid recorder recorder_laws (0x1b ∷ b'[' ∷ bytes) fresh
      fresh-IsValid).params_fit

-- `0;3;4:3;48;5;17;58;2;1;2;3m`
abbrev rendition_bytes : List ℕ
rendition_bytes =
    b'0' ∷ b';' ∷ b'3' ∷ b';' ∷ b'4' ∷ b':' ∷ b'3' ∷ b';' ∷ b'4' ∷ b'8' ∷ b';' ∷ b'5' ∷ b';' ∷ b'1'
    ∷ b'7' ∷ b';' ∷ b'5' ∷ b'8' ∷ b';' ∷ b'2' ∷ b';' ∷ b'1' ∷ b';' ∷ b'2' ∷ b';' ∷ b'3' ∷ b'm' ∷ []

rendition-Written : Written (read rendition_bytes) (rendition_params rendition)
unfolding vt_from_slave state_switch perform_all action_clear action_bytes action_param write_param
    action_param_lazy_init action_param_new next_param action_param_new_subparam param_digit
    next_sub_param
rendition-Written = record { fits = read_fits rendition_bytes; holds = refl }

csi_sgr-rendition_example :
    csi_sgr (read rendition_bytes) pen ≡ pen_with (attributes_of rendition) 3 (parts 1 2 3) false
csi_sgr-rendition_example =
    csi_sgr-rendition rendition (read rendition_bytes) pen (omega arith) rendition-Written

-- `38:2:0:1:2:3;1m` and `38;2;1;2;3;1m`
abbrev colon_bytes : List ℕ
colon_bytes =
    b'3' ∷ b'8' ∷ b':' ∷ b'2' ∷ b':' ∷ b'0' ∷ b':' ∷ b'1' ∷ b':' ∷ b'2' ∷ b':' ∷ b'3' ∷ b';' ∷ b'1'
    ∷ b'm' ∷ []

abbrev semicolon_bytes : List ℕ
semicolon_bytes =
    b'3' ∷ b'8' ∷ b';' ∷ b'2' ∷ b';' ∷ b'1' ∷ b';' ∷ b'2' ∷ b';' ∷ b'3' ∷ b';' ∷ b'1' ∷ b'm' ∷ []

-- `38:5:1;5;7m`, a palette colour 1, blinking and reverse video, and `38;5;7m`
abbrev blinking_bytes : List ℕ
blinking_bytes = b'3' ∷ b'8' ∷ b':' ∷ b'5' ∷ b':' ∷ b'1' ∷ b';' ∷ b'5' ∷ b';' ∷ b'7' ∷ b'm' ∷ []

abbrev palette_bytes : List ℕ
palette_bytes = b'3' ∷ b'8' ∷ b';' ∷ b'5' ∷ b';' ∷ b'7' ∷ b'm' ∷ []

blinking-Written : Written (read blinking_bytes) (colons 38 (5 ∷ 1 ∷ []) ∷ plain 5 ∷ plain 7 ∷ [])
unfolding vt_from_slave state_switch perform_all action_clear action_bytes action_param write_param
    action_param_lazy_init action_param_new next_param action_param_new_subparam param_digit
    next_sub_param
blinking-Written = record { fits = read_fits blinking_bytes; holds = refl }

palette-Written : Written (read palette_bytes) (plain 38 ∷ plain 5 ∷ plain 7 ∷ [])
unfolding vt_from_slave state_switch perform_all action_clear action_bytes action_param write_param
    action_param_lazy_init action_param_new next_param action_param_new_subparam param_digit
    next_sub_param
palette-Written = record { fits = read_fits palette_bytes; holds = refl }

csi_sgr-swallows_example : csi_sgr (read blinking_bytes) pen ≡ csi_sgr (read palette_bytes) pen
csi_sgr-swallows_example =
    csi_sgr-swallows 38 (inl refl) pen [] (read blinking_bytes) (read palette_bytes) (5 ∷ 1 ∷ []) 7
      blinking-Written palette-Written
