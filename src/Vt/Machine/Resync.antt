-- ===== src/Vt/Machine/Resync.antt =====
-- Which bytes bring the parser of vt.c back to a known state, from wherever it is; and which ones
-- leave it in the middle of a character.
use foot.Base.{
  ℕ, ◌≡◌, refl, List, [], ◌∷◌, arith, ◌==◌, ◌||◌, within, Bool, true, false, ap, ◌++◌, ◌⊎◌, inl,
  inr,
}
use foot.Vt.State.{
  State, escape, escape_intermediate, csi_entry, csi_param, csi_intermediate, csi_ignore,
  osc_string, dcs_entry, dcs_param, dcs_intermediate, dcs_ignore, dcs_passthrough,
  sos_pm_apc_string, utf8_21, utf8_31, utf8_32, utf8_41, utf8_42, utf8_43,
}
use foot.Vt.Params.{action_clear}
use foot.Vt.Switch.{
  Action, clear, goto, stay, state_switch, state_ground_switch, before, osc_end, unhook,
  replacement, execute, continue,
}
use foot.Vt.Machine.Steps.{vt_from_slave-goto, vt_from_slave-stay}
use foot.Vt.Machine.{Terminal, Host, perform, perform_all, vt_from_slave}

-- What each state does before the `clear` of an ESC.
leave : State → List Action
leave osc_string = osc_end ∷ []
leave dcs_passthrough = unhook ∷ []
leave utf8_21 = replacement ∷ []
leave utf8_31 = replacement ∷ []
leave utf8_32 = replacement ∷ []
leave utf8_41 = replacement ∷ []
leave utf8_42 = replacement ∷ []
leave utf8_43 = replacement ∷ []
leave _ = []

escape-transition : (s : State) → state_switch s 0x1b ≡ goto (leave s ++ clear ∷ []) escape
unfolding state_switch leave
escape-transition State.ground = refl
escape-transition _ = refl

can-transition : (s : State) → state_switch s 0x18 ≡ goto (leave s ++ execute ∷ []) State.ground
unfolding state_switch leave
can-transition State.ground = refl
can-transition _ = refl

sub-transition : (s : State) → state_switch s 0x1a ≡ goto (leave s ++ execute ∷ []) State.ground
unfolding state_switch leave
sub-transition State.ground = refl
sub-transition _ = refl

module _ {T : Type 0} (host : Host T) where
  perform_all-append :
      (l m : List Action) (c : ℕ) (t : Terminal T)
      → perform_all host (l ++ m) c t ≡ perform_all host m c (perform_all host l c t)
  unfolding perform_all
  perform_all-append [] m c t = refl
  perform_all-append (a ∷ l) m c t = perform_all-append l m c (perform host a c t)

  -- After ESC the parser is in the escape state with no parameter and no intermediate character,
  -- whatever its state and its fields were, and the host's handlers did.
  pub escape-resets :
      (t : Terminal T)
      → let vt = (vt_from_slave host (0x1b ∷ []) t).vt in
        (vt.state ≡ escape) × (vt.params.idx ≡ 0) × (vt.privates ≡ 0)
  unfolding perform_all action_clear
  escape-resets t =
      rw
        (
          vt_from_slave-goto host 0x1b t (escape-transition t.vt.state),
          perform_all-append (leave t.vt.state) (clear ∷ []) 0x1b t,
        )
        (refl, refl, refl)

  -- CAN and SUB end any sequence: the parser is in the ground state after them.
  pub cancel-ground :
      (c : ℕ) (t : Terminal T)
      → (c ≡ 0x18) ⊎ (c ≡ 0x1a)
      → (vt_from_slave host (c ∷ []) t).vt.state ≡ State.ground
  cancel-ground c t (inl e) =
      rw (e, vt_from_slave-goto host 0x18 t (can-transition t.vt.state)) refl
  cancel-ground c t (inr e) =
      rw (e, vt_from_slave-goto host 0x1a t (sub-transition t.vt.state)) refl

-- The bytes that no case of the ground switch names.
abbrev pub unnamed : ℕ → Bool
unnamed c = c == 0x7f || within 0xa0 0xc1 c || within 0xf5 0xff c

ground-unnamed : (c : ℕ) → unnamed c ≡ true → state_ground_switch c ≡ stay []
unfolding state_ground_switch
ground-unnamed c h = ground arith

-- The states between the bytes of a character.
abbrev pub in_character : State → Bool
in_character utf8_21 = true
in_character utf8_31 = true
in_character utf8_32 = true
in_character utf8_41 = true
in_character utf8_42 = true
in_character utf8_43 = true
in_character _ = false

broken-transition :
    (s : State) (c : ℕ)
    → in_character s ≡ true
    → unnamed c ≡ true
    → within 0x80 0xbf c ≡ false
    → state_switch s c ≡ stay (replacement ∷ [])
unfolding state_switch continue
broken-transition State.ground c k h n = cc
broken-transition escape c k h n = cc
broken-transition escape_intermediate c k h n = cc
broken-transition csi_entry c k h n = cc
broken-transition csi_param c k h n = cc
broken-transition csi_intermediate c k h n = cc
broken-transition csi_ignore c k h n = cc
broken-transition osc_string c k h n = cc
broken-transition dcs_entry c k h n = cc
broken-transition dcs_param c k h n = cc
broken-transition dcs_intermediate c k h n = cc
broken-transition dcs_ignore c k h n = cc
broken-transition dcs_passthrough c k h n = cc
broken-transition sos_pm_apc_string c k h n = cc
broken-transition _ c k h n = rw n (ap (before replacement) (ground-unnamed c h))

-- A byte that ends a UTF-8 character early, and that the ground switch has no case for (DEL, 0xc0,
-- 0xc1 and from 0xf5 on), prints U+FFFD and does no more: the parser does not go to the ground
-- state, so that the next continuation byte is still taken for a part of the broken character.
pub broken_character_stays :
    {T : Type 0} (host : Host T) (c : ℕ) (t : Terminal T)
    → in_character t.vt.state ≡ true
    → unnamed c ≡ true
    → within 0x80 0xbf c ≡ false
    → vt_from_slave host (c ∷ []) t ≡ host.print_non_ascii 0xfffd t
unfolding perform_all
broken_character_stays host c t k h n =
    vt_from_slave-stay host c t (broken-transition t.vt.state c k h n)
