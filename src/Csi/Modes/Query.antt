-- ===== src/Csi/Modes/Query.antt =====
-- What DECRQM answers for a mode that has been set or reset.
use foot.Base.{
  Bool, true, false, true≢false, ◌≡◌, refl, sym, ap, ◌&&◌, if◌then◌else◌, Bool-cases, inl, inr,
}
use foot.Csi.Modes.State.{
  DecMode, mode_1, mode_5, mode_6, mode_7, mode_9, mode_12, mode_25, mode_45, mode_47, mode_66,
  mode_67, mode_80, mode_1000, mode_1001, mode_1002, mode_1003, mode_1004, mode_1005, mode_1006,
  mode_1007, mode_1015, mode_1016, mode_1034, mode_1035, mode_1036, mode_1042, mode_1047, mode_1048,
  mode_1049, mode_1070, mode_2004, mode_2026, mode_2027, mode_2031, mode_2048, mode_8452,
  mode_737769, MouseTracking, mouse_none, mouse_x10, mouse_click, mouse_drag, mouse_motion,
  MouseReporting, mouse_normal, mouse_utf8, mouse_sgr, mouse_urxvt, mouse_sgr_pixels, Terminal,
  Build, Effects,
}
use foot.Csi.Modes.{
  is_tracking, is_reporting, set_tracking, set_reporting, set_alt, set_ime, decset_decrst, decrpm,
  decrqm,
}

-- The modes that can be switched: not the ones that foot does not implement, nor the saved cursor, and
-- clusters and the input method where foot has them.
abbrev pub is_switch : Build → DecMode → Bool
is_switch build mode_9 = false
is_switch build mode_67 = false
is_switch build mode_1001 = false
is_switch build mode_1005 = false
is_switch build mode_1048 = false
is_switch build mode_2027 = build.grapheme_clustering && build.width_double
is_switch build mode_737769 = build.ime
is_switch build mode = true

module _ {T : Type 0} (effects : Effects T) (build : Build) where
  both : (a b : Bool) → (a && b) ≡ true → (a ≡ true) × (b ≡ true)
  both true true h = (refl, refl)
  both true false h = absurd (true≢false (sym h))
  both false b h = absurd (true≢false (sym h))

  no_click :
      (a : MouseTracking)
      → is_tracking (if is_tracking a mouse_click then mouse_none else a) mouse_click ≡ false
  no_click mouse_none = refl
  no_click mouse_x10 = refl
  no_click mouse_click = refl
  no_click mouse_drag = refl
  no_click mouse_motion = refl

  no_drag :
      (a : MouseTracking)
      → is_tracking (if is_tracking a mouse_drag then mouse_none else a) mouse_drag ≡ false
  no_drag mouse_none = refl
  no_drag mouse_x10 = refl
  no_drag mouse_click = refl
  no_drag mouse_drag = refl
  no_drag mouse_motion = refl

  no_motion :
      (a : MouseTracking)
      → is_tracking (if is_tracking a mouse_motion then mouse_none else a) mouse_motion ≡ false
  no_motion mouse_none = refl
  no_motion mouse_x10 = refl
  no_motion mouse_click = refl
  no_motion mouse_drag = refl
  no_motion mouse_motion = refl

  no_sgr :
      (a : MouseReporting)
      → is_reporting (if is_reporting a mouse_sgr then mouse_normal else a) mouse_sgr ≡ false
  no_sgr mouse_normal = refl
  no_sgr mouse_utf8 = refl
  no_sgr mouse_sgr = refl
  no_sgr mouse_urxvt = refl
  no_sgr mouse_sgr_pixels = refl

  no_urxvt :
      (a : MouseReporting)
      → is_reporting (if is_reporting a mouse_urxvt then mouse_normal else a) mouse_urxvt ≡ false
  no_urxvt mouse_normal = refl
  no_urxvt mouse_utf8 = refl
  no_urxvt mouse_sgr = refl
  no_urxvt mouse_urxvt = refl
  no_urxvt mouse_sgr_pixels = refl

  no_sgr_pixels :
      (a : MouseReporting)
      → is_reporting (if is_reporting a mouse_sgr_pixels then mouse_normal else a) mouse_sgr_pixels
        ≡ false
  no_sgr_pixels mouse_normal = refl
  no_sgr_pixels mouse_utf8 = refl
  no_sgr_pixels mouse_sgr = refl
  no_sgr_pixels mouse_urxvt = refl
  no_sgr_pixels mouse_sgr_pixels = refl

  alt-set : (save enable : Bool) (t : Terminal T) → (set_alt effects save enable t).on_alt ≡ enable
  unfolding set_alt
  alt-set save true t = elim (Bool-cases t.on_alt) [ inl e ↦ rw e refl | inr e ↦ rw e refl ]
  alt-set save false t = elim (Bool-cases t.on_alt) [ inl e ↦ rw e refl | inr e ↦ rw e refl ]

  ime-set :
      (enable : Bool) (t : Terminal T)
      → build.ime ≡ true
      → (build.ime && (set_ime effects build enable t).ime_enabled) ≡ enable
  unfolding set_ime
  ime-set true t h = elim (Bool-cases t.ime_enabled) [
    | inl e ↦ rw (h, e) refl
    | inr e ↦ rw (h, e) refl
  ]
  ime-set false t h = elim (Bool-cases t.ime_enabled) [
    | inl e ↦ rw (h, e) refl
    | inr e ↦ rw (h, e) refl
  ]

  -- DECRQM reports that a mode is set exactly after it has been set, and that it is reset after it has been
  -- reset, for every mode that can be switched and whatever the state was before.
  pub decrqm-decset :
      (mode : DecMode) (enable : Bool) (t : Terminal T)
      → is_switch build mode ≡ true
      → decrqm build (decset_decrst effects build mode enable t) mode ≡ decrpm enable
  unfolding decrqm decset_decrst set_tracking set_reporting
  decrqm-decset mode_1 enable t h = refl
  decrqm-decset mode_5 enable t h = refl
  decrqm-decset mode_6 true t h = refl
  decrqm-decset mode_6 false t h = refl
  decrqm-decset mode_7 enable t h = refl
  decrqm-decset mode_9 enable t h = absurd (true≢false (sym h))
  decrqm-decset mode_12 enable t h = refl
  decrqm-decset mode_25 true t h = refl
  decrqm-decset mode_25 false t h = refl
  decrqm-decset mode_45 enable t h = refl
  decrqm-decset mode_47 enable t h = ap decrpm (alt-set false enable t)
  decrqm-decset mode_66 enable t h = refl
  decrqm-decset mode_67 enable t h = absurd (true≢false (sym h))
  decrqm-decset mode_80 true t h = refl
  decrqm-decset mode_80 false t h = refl
  decrqm-decset mode_1000 true t h = refl
  decrqm-decset mode_1000 false t h = ap decrpm (no_click t.mouse_tracking)
  decrqm-decset mode_1001 enable t h = absurd (true≢false (sym h))
  decrqm-decset mode_1002 true t h = refl
  decrqm-decset mode_1002 false t h = ap decrpm (no_drag t.mouse_tracking)
  decrqm-decset mode_1003 true t h = refl
  decrqm-decset mode_1003 false t h = ap decrpm (no_motion t.mouse_tracking)
  decrqm-decset mode_1004 enable t h = refl
  decrqm-decset mode_1005 enable t h = absurd (true≢false (sym h))
  decrqm-decset mode_1006 true t h = refl
  decrqm-decset mode_1006 false t h = ap decrpm (no_sgr t.mouse_reporting)
  decrqm-decset mode_1007 enable t h = refl
  decrqm-decset mode_1015 true t h = refl
  decrqm-decset mode_1015 false t h = ap decrpm (no_urxvt t.mouse_reporting)
  decrqm-decset mode_1016 true t h = refl
  decrqm-decset mode_1016 false t h = ap decrpm (no_sgr_pixels t.mouse_reporting)
  decrqm-decset mode_1034 enable t h = refl
  decrqm-decset mode_1035 enable t h = refl
  decrqm-decset mode_1036 enable t h = refl
  decrqm-decset mode_1042 enable t h = refl
  decrqm-decset mode_1047 enable t h = ap decrpm (alt-set false enable t)
  decrqm-decset mode_1048 enable t h = absurd (true≢false (sym h))
  decrqm-decset mode_1049 enable t h = ap decrpm (alt-set true enable t)
  decrqm-decset mode_1070 enable t h = refl
  decrqm-decset mode_2004 enable t h = refl
  decrqm-decset mode_2026 enable t h = refl
  decrqm-decset mode_2027 enable t h =
      let (c, d) = both build.grapheme_clustering build.width_double h in rw (c, d) refl
  decrqm-decset mode_2031 enable t h = refl
  decrqm-decset mode_2048 enable t h = refl
  decrqm-decset mode_8452 enable t h = refl
  decrqm-decset mode_737769 enable t h = ap decrpm (ime-set enable t h)
