-- ===== src/Vt/Machine.antt =====
-- The parser's loop, `vt_from_slave` of vt.c, over the terminal that it acts on.

pub mod Steps
pub mod Resync
pub mod Chunks
pub mod Decode
pub mod Csi
pub mod OscString
pub mod Bounds
use foot.Base.{ℕ, List, [], ◌∷◌, ltb, within, if◌then◌else◌}
use foot.Vt.State.{State, Vt, Params, OscBuffer}
use foot.Vt.Params.{
  action_clear, action_param, action_param_new, action_param_new_subparam, action_collect,
}
use foot.Vt.Utf8.{action_utf8_21, action_utf8_31, action_utf8_41, or_continuation}
use foot.Vt.Osc.{Realloc, action_osc_start, action_osc_put, osc_terminate, osc_release}
use foot.Vt.Switch.{
  Action, ignore, clear, execute, print, collect, param, param_new, param_new_subparam,
  esc_dispatch, csi_dispatch, osc_start, osc_put, osc_end, hook, unhook, put, start_21, end_22,
  start_31, next_32, end_33, start_41, next_42, next_43, end_44, replacement, Transition, goto,
  stay, state_switch,
}

-- A terminal: the parser's fields, and the rest.
pub record Terminal (T : Type 0) : Type 0 where
  pub vt : Vt
  pub rest : T

-- What the parser calls. Any of these may change the parser's own fields (RIS resets them).
pub record Host (T : Type 0) : Type 0 where
  pub realloc : Realloc
  pub execute : ℕ → Terminal T → Terminal T
  pub print : ℕ → Terminal T → Terminal T
  pub print_non_ascii : ℕ → Terminal T → Terminal T
  pub esc_dispatch : ℕ → Terminal T → Terminal T
  pub csi_dispatch : ℕ → Terminal T → Terminal T
  pub osc_dispatch : Terminal T → Terminal T
  pub dcs_hook : ℕ → Terminal T → Terminal T
  pub dcs_put : ℕ → Terminal T → Terminal T
  pub dcs_unhook : Terminal T → Terminal T

module _ {T : Type 0} (host : Host T) where
  abbrev on_params : (Params → Params) → Terminal T → Terminal T
  on_params f t = record t { vt = record (t.vt) { params = f t.vt.params } }

  abbrev on_osc : (OscBuffer → OscBuffer) → Terminal T → Terminal T
  on_osc f t = record t { vt = record (t.vt) { osc = f t.vt.osc } }

  abbrev on_utf8 : (ℕ → ℕ) → Terminal T → Terminal T
  on_utf8 f t = record t { vt = record (t.vt) { utf8 = f t.vt.utf8 } }

  abbrev pub set_state : State → Terminal T → Terminal T
  set_state s t = record t { vt = record (t.vt) { state = s } }

  -- `action_utf8_print`.
  unfoldable pub action_utf8_print : ℕ → Terminal T → Terminal T
  action_utf8_print wc t = host.print_non_ascii wc t

  -- `action_utf8_22`.
  unfoldable pub action_utf8_22 : ℕ → Terminal T → Terminal T
  unfolding action_utf8_print
  action_utf8_22 c t = let t' = on_utf8 (or_continuation 0 c) t in action_utf8_print t'.vt.utf8 t'

  -- `action_utf8_33`: a surrogate half is not printed.
  unfoldable pub action_utf8_33 : ℕ → Terminal T → Terminal T
  unfolding action_utf8_print
  action_utf8_33 c t =
      let t' = on_utf8 (or_continuation 0 c) t in
      if within 0xd800 0xdfff t'.vt.utf8 then t' else action_utf8_print t'.vt.utf8 t'

  -- `action_utf8_44`: nothing above U+10FFFF is printed.
  unfoldable pub action_utf8_44 : ℕ → Terminal T → Terminal T
  unfolding action_utf8_print
  action_utf8_44 c t =
      let t' = on_utf8 (or_continuation 0 c) t in
      if ltb 0x10ffff t'.vt.utf8 then t' else action_utf8_print t'.vt.utf8 t'

  -- `action_osc_end`: an OSC that does not fit is not dispatched.
  unfoldable pub action_osc_end : ℕ → Terminal T → Terminal T
  action_osc_end c t =
      let (fits, b) = osc_terminate host.realloc c t.vt.osc in
      let t' : Terminal T = record t { vt = record (t.vt) { osc = b } } in
      if fits then on_osc osc_release (host.osc_dispatch t') else t'

  unfoldable pub perform : Action → ℕ → Terminal T → Terminal T
  unfolding action_utf8_print action_utf8_22 action_utf8_33 action_utf8_44
  perform ignore c t = t
  perform clear c t = record t { vt = action_clear t.vt }
  perform execute c t = host.execute c t
  perform print c t = host.print c t
  perform collect c t = record t {
    vt = record (t.vt) { privates = action_collect c t.vt.privates };
  }
  perform param c t = on_params (action_param c) t
  perform param_new c t = on_params action_param_new t
  perform param_new_subparam c t = on_params action_param_new_subparam t
  perform esc_dispatch c t = host.esc_dispatch c t
  perform csi_dispatch c t = host.csi_dispatch c t
  perform osc_start c t = on_osc action_osc_start t
  perform osc_put c t = on_osc (action_osc_put host.realloc c) t
  perform osc_end c t = action_osc_end c t
  perform hook c t = host.dcs_hook c t
  perform unhook c t = host.dcs_unhook t
  perform put c t = host.dcs_put c t
  perform start_21 c t = on_utf8 (λ _. action_utf8_21 c) t
  perform end_22 c t = action_utf8_22 c t
  perform start_31 c t = on_utf8 (λ _. action_utf8_31 c) t
  perform next_32 c t = on_utf8 (or_continuation 6 c) t
  perform end_33 c t = action_utf8_33 c t
  perform start_41 c t = on_utf8 (λ _. action_utf8_41 c) t
  perform next_42 c t = on_utf8 (or_continuation 12 c) t
  perform next_43 c t = on_utf8 (or_continuation 6 c) t
  perform end_44 c t = action_utf8_44 c t
  perform replacement c t = action_utf8_print 0xfffd t

  unfoldable pub perform_all : List Action → ℕ → Terminal T → Terminal T
  unfolding perform
  perform_all [] c t = t
  perform_all (a ∷ l) c t = perform_all l c (perform a c t)

  -- One call of a `state_*_switch`: the state that it returns, and the terminal.
  unfoldable pub take_transition : Transition → ℕ → Terminal T → State × Terminal T
  unfolding perform_all
  take_transition (goto l s) c t = (s, perform_all l c t)
  take_transition (stay l) c t = let t' = perform_all l c t in (t'.vt.state, t')

  -- The loop, with its local variable `current_state`.
  unfoldable pub from_slave_loop : List ℕ → State → Terminal T → Terminal T
  unfolding take_transition
  from_slave_loop [] s t = t
  from_slave_loop (c ∷ cs) s t =
      let (s', t') = take_transition (state_switch s c) c t in
      from_slave_loop cs s' (set_state s' t')

  unfoldable pub vt_from_slave : List ℕ → Terminal T → Terminal T
  unfolding from_slave_loop
  vt_from_slave cs t = from_slave_loop cs t.vt.state t
