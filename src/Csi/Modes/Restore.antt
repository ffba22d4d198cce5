-- ===== src/Csi/Modes/Restore.antt =====
-- XTSAVE and XTRESTORE bring a mode back, whatever modes are set and reset in between.
use foot.Base.{
  Bool, true, false, true≢false, ◌≡◌, refl, sym, ap, ◌∙◌, List, [], ◌∷◌, some, ◌&&◌, not,
  Bool-cases, inl, inr,
}
use foot.Csi.Modes.State.{
  DecMode, mode_1, mode_5, mode_6, mode_7, mode_9, mode_12, mode_25, mode_45, mode_47, mode_66,
  mode_67, mode_80, mode_1000, mode_1001, mode_1002, mode_1003, mode_1004, mode_1005, mode_1006,
  mode_1007, mode_1015, mode_1016, mode_1034, mode_1035, mode_1036, mode_1042, mode_1047, mode_1048,
  mode_1049, mode_1070, mode_2004, mode_2026, mode_2027, mode_2031, mode_2048, mode_8452,
  mode_737769, mouse_click, mouse_drag, mouse_motion, mouse_sgr, mouse_urxvt, mouse_sgr_pixels,
  Terminal, Build, Effects,
}
use foot.Csi.Modes.{
  is_relative, is_tracking, is_reporting, set_tracking, set_reporting, set_alt, set_ime,
  decset_decrst, decrpm, decrqm, save_mode, saved_mode, xtsave, xtrestore,
}
use foot.Csi.Modes.Query.{is_switch, decrqm-decset}

module _ {T : Type 0} (effects : Effects T) (build : Build) where
  -- Modes that are set and reset, one after the other.
  unfoldable pub set_modes : List (Bool × DecMode) → Terminal T → Terminal T
  unfolding decset_decrst
  set_modes [] t = t
  set_modes ((enable, mode) ∷ settings) t =
      set_modes settings (decset_decrst effects build mode enable t)

  alt-saved :
      (save enable : Bool) (t : Terminal T) → (set_alt effects save enable t).saved ≡ t.saved
  unfolding set_alt
  alt-saved save enable t = elim (Bool-cases (enable && not t.on_alt)) [
    | inl e ↦ rw e refl
    | inr e ↦ elim (Bool-cases (not enable && t.on_alt)) [
      | inl e' ↦ rw (e, e') refl
      | inr e' ↦ rw (e, e') refl
    ]
  ]

  ime-saved : (enable : Bool) (t : Terminal T) → (set_ime effects build enable t).saved ≡ t.saved
  unfolding set_ime
  ime-saved true t = elim (Bool-cases (build.ime && not t.ime_enabled)) [
    | inl e ↦ rw e refl
    | inr e ↦ rw e refl
  ]
  ime-saved false t = elim (Bool-cases (build.ime && t.ime_enabled)) [
    | inl e ↦ rw e refl
    | inr e ↦ rw e refl
  ]

  decset-saved :
      (mode : DecMode) (enable : Bool) (t : Terminal T)
      → (decset_decrst effects build mode enable t).saved ≡ t.saved
  unfolding decset_decrst set_tracking set_reporting
  decset-saved mode_1 enable t = refl
  decset-saved mode_5 enable t = refl
  decset-saved mode_6 enable t = refl
  decset-saved mode_7 enable t = refl
  decset-saved mode_9 enable t = refl
  decset-saved mode_12 enable t = refl
  decset-saved mode_25 enable t = refl
  decset-saved mode_45 enable t = refl
  decset-saved mode_47 enable t = alt-saved false enable t
  decset-saved mode_66 enable t = refl
  decset-saved mode_67 enable t = refl
  decset-saved mode_80 enable t = refl
  decset-saved mode_1000 enable t = refl
  decset-saved mode_1001 enable t = refl
  decset-saved mode_1002 enable t = refl
  decset-saved mode_1003 enable t = refl
  decset-saved mode_1004 enable t = refl
  decset-saved mode_1005 enable t = refl
  decset-saved mode_1006 enable t = refl
  decset-saved mode_1007 enable t = refl
  decset-saved mode_1015 enable t = refl
  decset-saved mode_1016 enable t = refl
  decset-saved mode_1034 enable t = refl
  decset-saved mode_1035 enable t = refl
  decset-saved mode_1036 enable t = refl
  decset-saved mode_1042 enable t = refl
  decset-saved mode_1047 enable t = alt-saved false enable t
  decset-saved mode_1048 enable t = refl
  decset-saved mode_1049 enable t = alt-saved true enable t
  decset-saved mode_1070 enable t = refl
  decset-saved mode_2004 enable t = refl
  decset-saved mode_2026 enable t = refl
  decset-saved mode_2027 enable t = refl
  decset-saved mode_2031 enable t = refl
  decset-saved mode_2048 enable t = refl
  decset-saved mode_8452 enable t = refl
  decset-saved mode_737769 enable t = ime-saved enable t

  set_modes-saved :
      (settings : List (Bool × DecMode)) (t : Terminal T) → (set_modes settings t).saved ≡ t.saved
  unfolding set_modes
  set_modes-saved [] t = refl
  set_modes-saved ((enable, mode) ∷ settings) t =
      set_modes-saved settings (decset_decrst effects build mode enable t)
      ∙ decset-saved mode enable t

  wide : (a b : Bool) → (a && b) ≡ true → b ≡ true
  wide true b h = h
  wide false b h = absurd (true≢false (sym h))

  -- What XTSAVE keeps is what DECRQM reports.
  saved_value :
      (mode : DecMode) (t : Terminal T)
      → is_switch build mode ≡ true
      → (b : Bool) × (saved_mode mode (xtsave effects build mode t).saved ≡ some b)
        × (decrqm build t mode ≡ decrpm b)
  unfolding saved_mode save_mode xtsave decrqm
  saved_value mode_1 t h = (t.application_cursor_keys, refl, refl)
  saved_value mode_5 t h = (t.reverse, refl, refl)
  saved_value mode_6 t h = (is_relative t.origin, refl, refl)
  saved_value mode_7 t h = (t.auto_margin, refl, refl)
  saved_value mode_9 t h = absurd (true≢false (sym h))
  saved_value mode_12 t h = (t.cursor_blink_decset, refl, refl)
  saved_value mode_25 t h = (not t.hide_cursor, refl, refl)
  saved_value mode_45 t h = (t.reverse_wrap, refl, refl)
  saved_value mode_47 t h = (t.on_alt, refl, refl)
  saved_value mode_66 t h = (t.application_keypad, refl, refl)
  saved_value mode_67 t h = absurd (true≢false (sym h))
  saved_value mode_80 t h = (not t.sixel_scrolling, refl, refl)
  saved_value mode_1000 t h = (is_tracking t.mouse_tracking mouse_click, refl, refl)
  saved_value mode_1001 t h = absurd (true≢false (sym h))
  saved_value mode_1002 t h = (is_tracking t.mouse_tracking mouse_drag, refl, refl)
  saved_value mode_1003 t h = (is_tracking t.mouse_tracking mouse_motion, refl, refl)
  saved_value mode_1004 t h = (t.focus_events, refl, refl)
  saved_value mode_1005 t h = absurd (true≢false (sym h))
  saved_value mode_1006 t h = (is_reporting t.mouse_reporting mouse_sgr, refl, refl)
  saved_value mode_1007 t h = (t.alt_scrolling, refl, refl)
  saved_value mode_1015 t h = (is_reporting t.mouse_reporting mouse_urxvt, refl, refl)
  saved_value mode_1016 t h = (is_reporting t.mouse_reporting mouse_sgr_pixels, refl, refl)
  saved_value mode_1034 t h = (t.meta_eight_bit, refl, refl)
  saved_value mode_1035 t h = (t.num_lock_modifier, refl, refl)
  saved_value mode_1036 t h = (t.meta_esc_prefix, refl, refl)
  saved_value mode_1042 t h = (t.bell_action_enabled, refl, refl)
  saved_value mode_1047 t h = (t.on_alt, refl, refl)
  saved_value mode_1048 t h = absurd (true≢false (sym h))
  saved_value mode_1049 t h = (t.on_alt, refl, refl)
  saved_value mode_1070 t h = (t.sixel_private_palette, refl, refl)
  saved_value mode_2004 t h = (t.bracketed_paste, refl, refl)
  saved_value mode_2026 t h = (t.app_sync_updates, refl, refl)
  saved_value mode_2027 t h =
      (t.grapheme_shaping, refl, rw (wide build.grapheme_clustering build.width_double h) refl)
  saved_value mode_2031 t h = (t.report_theme_changes, refl, refl)
  saved_value mode_2048 t h = (t.size_notifications, refl, refl)
  saved_value mode_8452 t h = (t.sixel_cursor_right, refl, refl)
  saved_value mode_737769 t h = (build.ime && t.ime_enabled, refl, refl)

  -- For every mode that can be switched: after XTSAVE, any sequence of modes set and reset with no other
  -- XTSAVE among them, and XTRESTORE, DECRQM reports for it what it reported before.
  pub xtrestore-xtsave :
      (mode : DecMode) (settings : List (Bool × DecMode)) (t : Terminal T)
      → is_switch build mode ≡ true
      → decrqm build
          (xtrestore effects build mode (set_modes settings (xtsave effects build mode t)))
          mode
        ≡ decrqm build t mode
  unfolding xtrestore
  xtrestore-xtsave mode settings t h =
      let saved = xtsave effects build mode t in
      let later = set_modes settings saved in
      let (b, kept, asked) = saved_value mode t h in
      let found = ap (saved_mode mode) (set_modes-saved settings saved) ∙ kept in
      rw found (decrqm-decset effects build mode b later h) ∙ sym asked
