-- ===== src/Csi/Modes/State.antt =====
-- `struct terminal`, as far as the DEC private modes of csi.c read and write it.
use foot.Base.{ℕ, Bool, Option, none, some, ◌==◌, if◌then◌else◌}
use foot.Screen.State.{Origin}

-- The labels of the `switch` of `decset_decrst`.
pub data DecMode : Type 0 where
  mode_1 mode_5 mode_6 mode_7 mode_9 mode_12 : DecMode
  mode_25 mode_45 mode_47 mode_66 mode_67 mode_80 : DecMode
  mode_1000 mode_1001 mode_1002 mode_1003 mode_1004 mode_1005 : DecMode
  mode_1006 mode_1007 mode_1015 mode_1016 mode_1034 mode_1035 : DecMode
  mode_1036 mode_1042 mode_1047 mode_1048 mode_1049 mode_1070 : DecMode
  mode_2004 mode_2026 mode_2027 mode_2031 mode_2048 mode_8452 : DecMode
  mode_737769 : DecMode

unfoldable pub mode_of : ℕ → Option DecMode
mode_of param =
    if param == 1
    then some mode_1
    else if param == 5
    then some mode_5
    else if param == 6
    then some mode_6
    else if param == 7
    then some mode_7
    else if param == 9
    then some mode_9
    else if param == 12
    then some mode_12
    else if param == 25
    then some mode_25
    else if param == 45
    then some mode_45
    else if param == 47
    then some mode_47
    else if param == 66
    then some mode_66
    else if param == 67
    then some mode_67
    else if param == 80
    then some mode_80
    else if param == 1000
    then some mode_1000
    else if param == 1001
    then some mode_1001
    else if param == 1002
    then some mode_1002
    else if param == 1003
    then some mode_1003
    else if param == 1004
    then some mode_1004
    else if param == 1005
    then some mode_1005
    else if param == 1006
    then some mode_1006
    else if param == 1007
    then some mode_1007
    else if param == 1015
    then some mode_1015
    else if param == 1016
    then some mode_1016
    else if param == 1034
    then some mode_1034
    else if param == 1035
    then some mode_1035
    else if param == 1036
    then some mode_1036
    else if param == 1042
    then some mode_1042
    else if param == 1047
    then some mode_1047
    else if param == 1048
    then some mode_1048
    else if param == 1049
    then some mode_1049
    else if param == 1070
    then some mode_1070
    else if param == 2004
    then some mode_2004
    else if param == 2026
    then some mode_2026
    else if param == 2027
    then some mode_2027
    else if param == 2031
    then some mode_2031
    else if param == 2048
    then some mode_2048
    else if param == 8452
    then some mode_8452
    else if param == 737769
    then some mode_737769
    else none

pub data MouseTracking : Type 0 where
  mouse_none mouse_x10 mouse_click mouse_drag mouse_motion : MouseTracking

pub data MouseReporting : Type 0 where
  mouse_normal mouse_utf8 mouse_sgr mouse_urxvt mouse_sgr_pixels : MouseReporting

-- `xtsave`: what has been saved for XTRESTORE.
pub record Saved : Type 0 where
  pub application_cursor_keys : Bool
  pub reverse : Bool
  pub origin : Bool
  pub auto_margin : Bool
  pub cursor_blink : Bool
  pub show_cursor : Bool
  pub reverse_wrap : Bool
  pub alt_screen : Bool
  pub application_keypad_keys : Bool
  pub sixel_display_mode : Bool
  pub mouse_click : Bool
  pub mouse_drag : Bool
  pub mouse_motion : Bool
  pub focus_events : Bool
  pub mouse_sgr : Bool
  pub alt_scrolling : Bool
  pub mouse_urxvt : Bool
  pub mouse_sgr_pixels : Bool
  pub meta_eight_bit : Bool
  pub num_lock_modifier : Bool
  pub meta_esc_prefix : Bool
  pub bell_action_enabled : Bool
  pub sixel_private_palette : Bool
  pub bracketed_paste : Bool
  pub app_sync_updates : Bool
  pub grapheme_shaping : Bool
  pub report_theme_changes : Bool
  pub size_notifications : Bool
  pub sixel_cursor_right_of_graphics : Bool
  pub ime : Bool

-- `rest` is what the modes change elsewhere, on the screen among others. `application_*` stand for the
-- two key modes, and `on_alt` for `grid == &alt`.
pub record Terminal (T : Type 0) : Type 0 where
  pub application_cursor_keys : Bool
  pub reverse : Bool
  pub origin : Origin
  pub auto_margin : Bool
  pub cursor_blink_decset : Bool
  pub hide_cursor : Bool
  pub reverse_wrap : Bool
  pub application_keypad : Bool
  pub sixel_scrolling : Bool
  pub mouse_tracking : MouseTracking
  pub focus_events : Bool
  pub mouse_reporting : MouseReporting
  pub alt_scrolling : Bool
  pub meta_eight_bit : Bool
  pub num_lock_modifier : Bool
  pub meta_esc_prefix : Bool
  pub bell_action_enabled : Bool
  pub on_alt : Bool
  pub sixel_private_palette : Bool
  pub bracketed_paste : Bool
  pub app_sync_updates : Bool
  pub grapheme_shaping : Bool
  pub report_theme_changes : Bool
  pub size_notifications : Bool
  pub sixel_cursor_right : Bool
  pub ime_enabled : Bool
  pub ime_reenable_after_url_mode : Bool
  pub saved : Saved
  pub rest : T

-- How foot was built and is configured: grapheme clustering, the input method, and
-- `conf->tweak.grapheme_width_method == GRAPHEME_WIDTH_DOUBLE`.
pub record Build : Type 0 where
  pub grapheme_clustering : Bool
  pub ime : Bool
  pub width_double : Bool

-- What setting a mode does in other parts: the renderer, the cursor (terminal.c), the switch between
-- the two screens with its selection, cursor, images and damage, the reports that are sent to the
-- shell, and the input method. The argument `true` of the switch stands for mode 1049.
pub record Effects (T : Type 0) : Type 0 where
  pub damage_all : T → T
  pub cursor_home : Origin → T → T
  pub reset_lcf : T → T
  pub cursor_blink_update : Bool → T → T
  pub xcursor_update : MouseTracking → T → T
  pub report_focus : T → T
  pub save_cursor : T → T
  pub restore_cursor : T → T
  pub enter_alt : Bool → T → T
  pub leave_alt : Bool → T → T
  pub sixels_affect_printer : Bool → T → T
  pub enable_app_sync : T → T
  pub disable_app_sync : T → T
  pub send_size : T → T
  pub ime_enable : T → T
  pub ime_disable : T → T
