-- ===== src/Csi/Modes/Tests.antt =====
-- Modes of a terminal, set, saved and restored.
use foot.Base.{ℕ, ◌≡◌, refl, true, false, [], ◌∷◌}
use foot.Screen.State.{absolute}
use foot.Csi.Modes.State.{
  mode_6, mode_25, mode_1000, mode_1003, mouse_none, mouse_normal, Saved, Terminal, Build, Effects,
  mode_of,
}
use foot.Csi.Modes.{
  decset_decrst, decrqm, is_set, is_reset, xtsave, xtrestore, decset_all, decset_param,
}
use foot.Csi.Modes.Query.{decrqm-decset}
use foot.Csi.Modes.Restore.{set_modes, xtrestore-xtsave}

-- Effects that are counted.
abbrev counting : Effects ℕ
counting = record {
  damage_all = λ n. n;
  cursor_home = λ o n. n;
  reset_lcf = λ n. n;
  cursor_blink_update = λ b n. n;
  xcursor_update = λ m n. n;
  report_focus = λ n. n;
  save_cursor = λ n. 1;
  restore_cursor = λ n. 2;
  enter_alt = λ b n. n;
  leave_alt = λ b n. n;
  sixels_affect_printer = λ b n. n;
  enable_app_sync = λ n. n;
  disable_app_sync = λ n. n;
  send_size = λ n. n;
  ime_enable = λ n. n;
  ime_disable = λ n. n;
}

abbrev build : Build
build = record { grapheme_clustering = true; ime = true; width_double = true }

abbrev nothing_saved : Saved
nothing_saved = record {
  application_cursor_keys = false;
  reverse = false;
  origin = false;
  auto_margin = false;
  cursor_blink = false;
  show_cursor = false;
  reverse_wrap = false;
  alt_screen = false;
  application_keypad_keys = false;
  sixel_display_mode = false;
  mouse_click = false;
  mouse_drag = false;
  mouse_motion = false;
  focus_events = false;
  mouse_sgr = false;
  alt_scrolling = false;
  mouse_urxvt = false;
  mouse_sgr_pixels = false;
  meta_eight_bit = false;
  num_lock_modifier = false;
  meta_esc_prefix = false;
  bell_action_enabled = false;
  sixel_private_palette = false;
  bracketed_paste = false;
  app_sync_updates = false;
  grapheme_shaping = false;
  report_theme_changes = false;
  size_notifications = false;
  sixel_cursor_right_of_graphics = false;
  ime = false;
}

abbrev plain : Terminal ℕ
plain = record {
  application_cursor_keys = false;
  reverse = false;
  origin = absolute;
  auto_margin = false;
  cursor_blink_decset = false;
  hide_cursor = false;
  reverse_wrap = false;
  application_keypad = false;
  sixel_scrolling = false;
  mouse_tracking = mouse_none;
  focus_events = false;
  mouse_reporting = mouse_normal;
  alt_scrolling = false;
  meta_eight_bit = false;
  num_lock_modifier = false;
  meta_esc_prefix = false;
  bell_action_enabled = false;
  on_alt = false;
  sixel_private_palette = false;
  bracketed_paste = false;
  app_sync_updates = false;
  grapheme_shaping = false;
  report_theme_changes = false;
  size_notifications = false;
  sixel_cursor_right = false;
  ime_enabled = false;
  ime_reenable_after_url_mode = false;
  saved = nothing_saved;
  rest = 0;
}

decrqm-decset_example :
    decrqm build (decset_decrst counting build mode_1003 true plain) mode_1003 ≡ is_set
decrqm-decset_example = decrqm-decset counting build mode_1003 true plain refl

xtrestore-xtsave_example :
    decrqm build
      (xtrestore counting build mode_1000 (
        set_modes counting build
          ((true, mode_1000) ∷ (true, mode_6) ∷ [])
          (xtsave counting build mode_1000 plain)))
      mode_1000
    ≡ decrqm build plain mode_1000
xtrestore-xtsave_example =
    xtrestore-xtsave counting build mode_1000 ((true, mode_1000) ∷ (true, mode_6) ∷ []) plain refl

-- Mode 25 hides the cursor when it is reset; 3 is no mode.
hidden : decrqm build (decset_all counting build false (25 ∷ 3 ∷ []) plain) mode_25 ≡ is_reset
unfolding decset_all decset_param decset_decrst mode_of decrqm
hidden = refl
