-- ===== src/Csi/Modes.antt =====
-- The DEC private modes of csi.c: setting, resetting and querying them, and saving and restoring them
-- (`decset_decrst`, `decrqm`, `xtsave`, `xtrestore`).
pub mod State
pub mod Query
pub mod Restore
pub mod Tests
use foot.Base.{ℕ, Bool, true, false, List, [], ◌∷◌, Option, none, some, ◌&&◌, not, if◌then◌else◌}
use foot.Screen.State.{Origin, absolute, relative}
use foot.Csi.Modes.State.*

abbrev pub is_tracking : MouseTracking → MouseTracking → Bool
is_tracking mouse_click mouse_click = true
is_tracking mouse_drag mouse_drag = true
is_tracking mouse_motion mouse_motion = true
is_tracking _ _ = false

abbrev pub is_reporting : MouseReporting → MouseReporting → Bool
is_reporting mouse_sgr mouse_sgr = true
is_reporting mouse_urxvt mouse_urxvt = true
is_reporting mouse_sgr_pixels mouse_sgr_pixels = true
is_reporting _ _ = false

abbrev pub is_relative : Origin → Bool
is_relative absolute = false
is_relative relative = true

module _ {T : Type 0} (effects : Effects T) where
  abbrev pub on_rest : (T → T) → Terminal T → Terminal T
  on_rest f t = record t { rest = f t.rest }

  -- Modes 1000, 1002 and 1003.
  unfoldable pub set_tracking : MouseTracking → Bool → Terminal T → Terminal T
  set_tracking m enable t =
      let tracking =
        if enable
        then m
        else if is_tracking t.mouse_tracking m
        then mouse_none
        else t.mouse_tracking in
      record t { mouse_tracking = tracking; rest = effects.xcursor_update tracking t.rest }

  -- Modes 1006, 1015 and 1016.
  unfoldable pub set_reporting : MouseReporting → Bool → Terminal T → Terminal T
  set_reporting m enable t = record t {
    mouse_reporting =
        if enable
        then m
        else if is_reporting t.mouse_reporting m
        then mouse_normal
        else t.mouse_reporting;
  }

  -- Modes 47, 1047 and 1049, where `save_cursor` is for 1049.
  unfoldable pub set_alt : Bool → Bool → Terminal T → Terminal T
  set_alt save_cursor enable t =
      let t' =
        if enable && not t.on_alt
        then record t { on_alt = true; rest = effects.enter_alt save_cursor t.rest }
        else if not enable && t.on_alt
        then record t { on_alt = false; rest = effects.leave_alt save_cursor t.rest }
        else t in
      record t' { rest = effects.sixels_affect_printer t'.on_alt t'.rest }

  -- `term_ime_enable` and `term_ime_disable`.
  unfoldable pub set_ime : Build → Bool → Terminal T → Terminal T
  set_ime build true t =
      if build.ime && not t.ime_enabled
      then record t { ime_enabled = true; rest = effects.ime_enable t.rest }
      else t
  set_ime build false t =
      let t' =
        if build.ime && t.ime_enabled
        then record t { ime_enabled = false; rest = effects.ime_disable t.rest }
        else t in
      record t' { ime_reenable_after_url_mode = false }

  unfoldable pub decset_decrst : Build → DecMode → Bool → Terminal T → Terminal T
  unfolding set_tracking set_reporting set_alt set_ime
  decset_decrst build mode_1 enable t = record t { application_cursor_keys = enable }
  decset_decrst build mode_5 enable t = record t {
    reverse = enable;
    rest = effects.damage_all t.rest;
  }
  decset_decrst build mode_6 enable t =
      let origin = if enable then relative else absolute in
      record t { origin = origin; rest = effects.cursor_home origin t.rest }
  decset_decrst build mode_7 enable t = record t {
    auto_margin = enable;
    rest = effects.reset_lcf t.rest;
  }
  decset_decrst build mode_9 enable t = t
  decset_decrst build mode_12 enable t = record t {
    cursor_blink_decset = enable;
    rest = effects.cursor_blink_update enable t.rest;
  }
  decset_decrst build mode_25 enable t = record t { hide_cursor = not enable }
  decset_decrst build mode_45 enable t = record t { reverse_wrap = enable }
  decset_decrst build mode_66 enable t = record t { application_keypad = enable }
  decset_decrst build mode_67 enable t = t
  decset_decrst build mode_80 enable t = record t { sixel_scrolling = not enable }
  decset_decrst build mode_1000 enable t = set_tracking mouse_click enable t
  decset_decrst build mode_1001 enable t = t
  decset_decrst build mode_1002 enable t = set_tracking mouse_drag enable t
  decset_decrst build mode_1003 enable t = set_tracking mouse_motion enable t
  decset_decrst build mode_1004 enable t = record t {
    focus_events = enable;
    rest = if enable then effects.report_focus t.rest else t.rest;
  }
  decset_decrst build mode_1005 enable t = t
  decset_decrst build mode_1006 enable t = set_reporting mouse_sgr enable t
  decset_decrst build mode_1007 enable t = record t { alt_scrolling = enable }
  decset_decrst build mode_1015 enable t = set_reporting mouse_urxvt enable t
  decset_decrst build mode_1016 enable t = set_reporting mouse_sgr_pixels enable t
  decset_decrst build mode_1034 enable t = record t { meta_eight_bit = enable }
  decset_decrst build mode_1035 enable t = record t { num_lock_modifier = enable }
  decset_decrst build mode_1036 enable t = record t { meta_esc_prefix = enable }
  decset_decrst build mode_1042 enable t = record t { bell_action_enabled = enable }
  decset_decrst build mode_1048 enable t =
      on_rest (if enable then effects.save_cursor else effects.restore_cursor) t
  decset_decrst build mode_47 enable t = set_alt false enable t
  decset_decrst build mode_1047 enable t = set_alt false enable t
  decset_decrst build mode_1049 enable t = set_alt true enable t
  decset_decrst build mode_1070 enable t = record t { sixel_private_palette = enable }
  decset_decrst build mode_2004 enable t = record t { bracketed_paste = enable }
  decset_decrst build mode_2026 enable t = record t {
    app_sync_updates = enable;
    rest = if enable then effects.enable_app_sync t.rest else effects.disable_app_sync t.rest;
  }
  decset_decrst build mode_2027 enable t = record t {
    grapheme_shaping = if build.grapheme_clustering then enable else t.grapheme_shaping;
  }
  decset_decrst build mode_2031 enable t = record t { report_theme_changes = enable }
  decset_decrst build mode_2048 enable t = record t {
    size_notifications = enable;
    rest = if enable then effects.send_size t.rest else t.rest;
  }
  decset_decrst build mode_8452 enable t = record t { sixel_cursor_right = enable }
  decset_decrst build mode_737769 enable t = set_ime build enable t

pub data DecrpmStatus : Type 0 where
  not_recognized is_set is_reset permanently_set permanently_reset : DecrpmStatus

abbrev pub decrpm : Bool → DecrpmStatus
decrpm enabled = if enabled then is_set else is_reset

-- `term_ime_is_enabled`.
abbrev pub term_ime_is_enabled : {T : Type 0} → Build → Terminal T → Bool
term_ime_is_enabled build t = build.ime && t.ime_enabled

unfoldable pub decrqm : {T : Type 0} → Build → Terminal T → DecMode → DecrpmStatus
decrqm build t mode_1 = decrpm t.application_cursor_keys
decrqm build t mode_5 = decrpm t.reverse
decrqm build t mode_6 = decrpm (is_relative t.origin)
decrqm build t mode_7 = decrpm t.auto_margin
decrqm build t mode_9 = permanently_reset
decrqm build t mode_12 = decrpm t.cursor_blink_decset
decrqm build t mode_25 = decrpm (not t.hide_cursor)
decrqm build t mode_45 = decrpm t.reverse_wrap
decrqm build t mode_66 = decrpm t.application_keypad
decrqm build t mode_67 = permanently_reset
decrqm build t mode_80 = decrpm (not t.sixel_scrolling)
decrqm build t mode_1000 = decrpm (is_tracking t.mouse_tracking mouse_click)
decrqm build t mode_1001 = permanently_reset
decrqm build t mode_1002 = decrpm (is_tracking t.mouse_tracking mouse_drag)
decrqm build t mode_1003 = decrpm (is_tracking t.mouse_tracking mouse_motion)
decrqm build t mode_1004 = decrpm t.focus_events
decrqm build t mode_1005 = permanently_reset
decrqm build t mode_1006 = decrpm (is_reporting t.mouse_reporting mouse_sgr)
decrqm build t mode_1007 = decrpm t.alt_scrolling
decrqm build t mode_1015 = decrpm (is_reporting t.mouse_reporting mouse_urxvt)
decrqm build t mode_1016 = decrpm (is_reporting t.mouse_reporting mouse_sgr_pixels)
decrqm build t mode_1034 = decrpm t.meta_eight_bit
decrqm build t mode_1035 = decrpm t.num_lock_modifier
decrqm build t mode_1036 = decrpm t.meta_esc_prefix
decrqm build t mode_1042 = decrpm t.bell_action_enabled
decrqm build t mode_47 = decrpm t.on_alt
decrqm build t mode_1047 = decrpm t.on_alt
decrqm build t mode_1049 = decrpm t.on_alt
decrqm build t mode_1070 = decrpm t.sixel_private_palette
decrqm build t mode_2004 = decrpm t.bracketed_paste
decrqm build t mode_2026 = decrpm t.app_sync_updates
decrqm build t mode_2027 =
    if build.width_double then decrpm t.grapheme_shaping else permanently_reset
decrqm build t mode_2031 = decrpm t.report_theme_changes
decrqm build t mode_2048 = decrpm t.size_notifications
decrqm build t mode_8452 = decrpm t.sixel_cursor_right
decrqm build t mode_737769 = decrpm (term_ime_is_enabled build t)
decrqm build t mode_1048 = not_recognized

-- `xtsave`, on the saved modes.
unfoldable pub save_mode : {T : Type 0} → Build → Terminal T → DecMode → Saved → Saved
save_mode build t mode_1 saved = record saved {
  application_cursor_keys = t.application_cursor_keys;
}
save_mode build t mode_5 saved = record saved { reverse = t.reverse }
save_mode build t mode_6 saved = record saved { origin = is_relative t.origin }
save_mode build t mode_7 saved = record saved { auto_margin = t.auto_margin }
save_mode build t mode_9 saved = saved
save_mode build t mode_12 saved = record saved { cursor_blink = t.cursor_blink_decset }
save_mode build t mode_25 saved = record saved { show_cursor = not t.hide_cursor }
save_mode build t mode_45 saved = record saved { reverse_wrap = t.reverse_wrap }
save_mode build t mode_66 saved = record saved { application_keypad_keys = t.application_keypad }
save_mode build t mode_67 saved = saved
save_mode build t mode_80 saved = record saved { sixel_display_mode = not t.sixel_scrolling }
save_mode build t mode_1000 saved = record saved {
  mouse_click = is_tracking t.mouse_tracking mouse_click;
}
save_mode build t mode_1001 saved = saved
save_mode build t mode_1002 saved = record saved {
  mouse_drag = is_tracking t.mouse_tracking mouse_drag;
}
save_mode build t mode_1003 saved = record saved {
  mouse_motion = is_tracking t.mouse_tracking mouse_motion;
}
save_mode build t mode_1004 saved = record saved { focus_events = t.focus_events }
save_mode build t mode_1005 saved = saved
save_mode build t mode_1006 saved = record saved {
  mouse_sgr = is_reporting t.mouse_reporting mouse_sgr;
}
save_mode build t mode_1007 saved = record saved { alt_scrolling = t.alt_scrolling }
save_mode build t mode_1015 saved = record saved {
  mouse_urxvt = is_reporting t.mouse_reporting mouse_urxvt;
}
save_mode build t mode_1016 saved = record saved {
  mouse_sgr_pixels = is_reporting t.mouse_reporting mouse_sgr_pixels;
}
save_mode build t mode_1034 saved = record saved { meta_eight_bit = t.meta_eight_bit }
save_mode build t mode_1035 saved = record saved { num_lock_modifier = t.num_lock_modifier }
save_mode build t mode_1036 saved = record saved { meta_esc_prefix = t.meta_esc_prefix }
save_mode build t mode_1042 saved = record saved { bell_action_enabled = t.bell_action_enabled }
save_mode build t mode_47 saved = record saved { alt_screen = t.on_alt }
save_mode build t mode_1047 saved = record saved { alt_screen = t.on_alt }
save_mode build t mode_1049 saved = record saved { alt_screen = t.on_alt }
save_mode build t mode_1070 saved = record saved { sixel_private_palette = t.sixel_private_palette }
save_mode build t mode_2004 saved = record saved { bracketed_paste = t.bracketed_paste }
save_mode build t mode_2026 saved = record saved { app_sync_updates = t.app_sync_updates }
save_mode build t mode_2027 saved = record saved { grapheme_shaping = t.grapheme_shaping }
save_mode build t mode_2031 saved = record saved { report_theme_changes = t.report_theme_changes }
save_mode build t mode_2048 saved = record saved { size_notifications = t.size_notifications }
save_mode build t mode_8452 saved = record saved {
  sixel_cursor_right_of_graphics = t.sixel_cursor_right;
}
save_mode build t mode_737769 saved = record saved { ime = term_ime_is_enabled build t }
save_mode build t mode_1048 saved = saved

-- The `switch` of `xtrestore`: whether to enable the mode, or nothing for those that it leaves alone.
unfoldable pub saved_mode : DecMode → Saved → Option Bool
saved_mode mode_1 saved = some saved.application_cursor_keys
saved_mode mode_5 saved = some saved.reverse
saved_mode mode_6 saved = some saved.origin
saved_mode mode_7 saved = some saved.auto_margin
saved_mode mode_9 saved = none
saved_mode mode_12 saved = some saved.cursor_blink
saved_mode mode_25 saved = some saved.show_cursor
saved_mode mode_45 saved = some saved.reverse_wrap
saved_mode mode_66 saved = some saved.application_keypad_keys
saved_mode mode_67 saved = none
saved_mode mode_80 saved = some saved.sixel_display_mode
saved_mode mode_1000 saved = some saved.mouse_click
saved_mode mode_1001 saved = none
saved_mode mode_1002 saved = some saved.mouse_drag
saved_mode mode_1003 saved = some saved.mouse_motion
saved_mode mode_1004 saved = some saved.focus_events
saved_mode mode_1005 saved = none
saved_mode mode_1006 saved = some saved.mouse_sgr
saved_mode mode_1007 saved = some saved.alt_scrolling
saved_mode mode_1015 saved = some saved.mouse_urxvt
saved_mode mode_1016 saved = some saved.mouse_sgr_pixels
saved_mode mode_1034 saved = some saved.meta_eight_bit
saved_mode mode_1035 saved = some saved.num_lock_modifier
saved_mode mode_1036 saved = some saved.meta_esc_prefix
saved_mode mode_1042 saved = some saved.bell_action_enabled
saved_mode mode_47 saved = some saved.alt_screen
saved_mode mode_1047 saved = some saved.alt_screen
saved_mode mode_1049 saved = some saved.alt_screen
saved_mode mode_1070 saved = some saved.sixel_private_palette
saved_mode mode_2004 saved = some saved.bracketed_paste
saved_mode mode_2026 saved = some saved.app_sync_updates
saved_mode mode_2027 saved = some saved.grapheme_shaping
saved_mode mode_2031 saved = some saved.report_theme_changes
saved_mode mode_2048 saved = some saved.size_notifications
saved_mode mode_8452 saved = some saved.sixel_cursor_right_of_graphics
saved_mode mode_737769 saved = some saved.ime
saved_mode mode_1048 saved = some true

module _ {T : Type 0} (effects : Effects T) (build : Build) where
  -- `xtsave`; mode 1048 saves the cursor.
  unfoldable pub xtsave : DecMode → Terminal T → Terminal T
  unfolding save_mode
  xtsave mode_1048 t = on_rest effects effects.save_cursor t
  xtsave mode t = record t { saved = save_mode build t mode t.saved }

  abbrev restore : DecMode → Option Bool → Terminal T → Terminal T
  unfolding decset_decrst
  restore mode none t = t
  restore mode (some enable) t = decset_decrst effects build mode enable t

  unfoldable pub xtrestore : DecMode → Terminal T → Terminal T
  unfolding saved_mode restore
  xtrestore mode t = restore mode (saved_mode mode t.saved) t

  -- A parameter of DECSET or DECRST that is not known changes nothing.
  unfoldable pub decset_param : Bool → ℕ → Terminal T → Terminal T
  unfolding decset_decrst mode_of
  decset_param enable param t = elim (mode_of param) [
    | none ↦ t
    | some mode ↦ decset_decrst effects build mode enable t
  ]

  -- The loops over the parameters of DECSET and DECRST in `csi_dispatch`.
  unfoldable pub decset_all : Bool → List ℕ → Terminal T → Terminal T
  unfolding decset_param
  decset_all enable [] t = t
  decset_all enable (param ∷ params) t = decset_all enable params (decset_param enable param t)
