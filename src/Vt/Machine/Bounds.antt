-- ===== src/Vt/Machine/Bounds.antt =====
-- The fields of the parser of vt.c stay well formed, whatever bytes come.
use foot.Base.{ℕ, List, [], ◌∷◌, arith, Bool-cases, ltb, within, inl, inr}
use foot.Vt.State.{State, Vt}
use foot.Vt.Params.{action_clear}
use foot.Vt.Params.Bounds.{
  ParamsFit, action_param_new-Fits, action_param_new_subparam-Fits, action_param-Fits, reset-Fits,
}
use foot.Vt.Osc.{action_osc_start, osc_terminate, osc_release}
use foot.Vt.Osc.Growth.{ReallocLaws, OscFits, action_osc_put-Fits, osc_terminate-Fits}
use foot.Vt.Utf8.{or_continuation}
use foot.Vt.Switch.{
  Action, ignore, clear, execute, print, collect, param, param_new, param_new_subparam,
  esc_dispatch, csi_dispatch, osc_start, osc_put, osc_end, hook, unhook, put, start_21, end_22,
  start_31, next_32, end_33, start_41, next_42, next_43, end_44, replacement, Transition, goto,
  stay, state_switch,
}
use foot.Vt.Machine.{
  Terminal, Host, action_osc_end, perform, perform_all, take_transition, from_slave_loop,
  vt_from_slave,
}

-- The arrays have their declared sizes, every pointer into them points inside, the OSC buffer is as
-- large as it says, and no byte was written outside it.
pub record IsValid (vt : Vt) : Type 0 where
  pub params_fit : ParamsFit vt.params
  pub osc_fits : OscFits vt.osc

abbrev pub Keeps : {T : Type 0} → (Terminal T → Terminal T) → Type 0
Keeps {T} f = (t : Terminal T) → IsValid t.vt → IsValid (f t).vt

-- What the parser relies on: the C library's `realloc`, and handlers that leave its fields valid.
pub record HostLaws {T : Type 0} (host : Host T) : Type 0 where
  pub realloc_laws : ReallocLaws host.realloc
  pub execute_keeps : (c : ℕ) → Keeps (host.execute c)
  pub print_keeps : (c : ℕ) → Keeps (host.print c)
  pub print_non_ascii_keeps : (c : ℕ) → Keeps (host.print_non_ascii c)
  pub esc_dispatch_keeps : (c : ℕ) → Keeps (host.esc_dispatch c)
  pub csi_dispatch_keeps : (c : ℕ) → Keeps (host.csi_dispatch c)
  pub osc_dispatch_keeps : Keeps host.osc_dispatch
  pub dcs_hook_keeps : (c : ℕ) → Keeps (host.dcs_hook c)
  pub dcs_put_keeps : (c : ℕ) → Keeps (host.dcs_put c)
  pub dcs_unhook_keeps : Keeps host.dcs_unhook

module _ {T : Type 0} (host : Host T) (laws : HostLaws host) where
  osc_end-Keeps : (c : ℕ) → Keeps (action_osc_end host c)
  unfolding action_osc_end osc_release
  osc_end-Keeps c t v = ground (
    arith,
    osc_terminate-Fits host.realloc laws.realloc_laws c t.vt.osc v.osc_fits,
    v.params_fit,
    laws.osc_dispatch_keeps
        (record t { vt = record (t.vt) { osc = (osc_terminate host.realloc c t.vt.osc).1 } }),
  )

  word-Keeps : (wc : ℕ) (t : Terminal T) → IsValid t.vt → IsValid (record (t.vt) { utf8 = wc })
  word-Keeps wc t v = record { params_fit = v.params_fit; osc_fits = v.osc_fits }

  printed-Keeps :
      (wc : ℕ) (t : Terminal T)
      → IsValid t.vt
      → IsValid (host.print_non_ascii wc (record t { vt = record (t.vt) { utf8 = wc } })).vt
  printed-Keeps wc t v = laws.print_non_ascii_keeps wc _ (word-Keeps wc t v)

  perform-Keeps : (a : Action) (c : ℕ) → Keeps (perform host a c)
  unfolding perform action_clear action_osc_start
  perform-Keeps ignore c t v = v
  perform-Keeps clear c t v = record {
    params_fit = reset-Fits t.vt.params v.params_fit;
    osc_fits = v.osc_fits;
  }
  perform-Keeps execute c t v = laws.execute_keeps c t v
  perform-Keeps print c t v = laws.print_keeps c t v
  perform-Keeps collect c t v = record { params_fit = v.params_fit; osc_fits = v.osc_fits }
  perform-Keeps param c t v = record {
    params_fit = action_param-Fits c _ v.params_fit;
    osc_fits = v.osc_fits;
  }
  perform-Keeps param_new c t v = record {
    params_fit = action_param_new-Fits _ v.params_fit;
    osc_fits = v.osc_fits;
  }
  perform-Keeps param_new_subparam c t v = record {
    params_fit = action_param_new_subparam-Fits _ v.params_fit;
    osc_fits = v.osc_fits;
  }
  perform-Keeps esc_dispatch c t v = laws.esc_dispatch_keeps c t v
  perform-Keeps csi_dispatch c t v = laws.csi_dispatch_keeps c t v
  perform-Keeps osc_start c t v = record {
    params_fit = v.params_fit;
    osc_fits = record { sized = v.osc_fits.sized; inside = v.osc_fits.inside };
  }
  perform-Keeps osc_put c t v = record {
    params_fit = v.params_fit;
    osc_fits = action_osc_put-Fits host.realloc laws.realloc_laws c t.vt.osc v.osc_fits;
  }
  perform-Keeps osc_end c t v = osc_end-Keeps c t v
  perform-Keeps hook c t v = laws.dcs_hook_keeps c t v
  perform-Keeps unhook c t v = laws.dcs_unhook_keeps t v
  perform-Keeps put c t v = laws.dcs_put_keeps c t v
  perform-Keeps start_21 c t v = word-Keeps _ t v
  perform-Keeps end_22 c t v = printed-Keeps (or_continuation 0 c t.vt.utf8) t v
  perform-Keeps start_31 c t v = word-Keeps _ t v
  perform-Keeps next_32 c t v = word-Keeps _ t v
  perform-Keeps end_33 c t v =
      elim (Bool-cases (within 0xd800 0xdfff (or_continuation 0 c t.vt.utf8))) [
        | inl e ↦ rw e (word-Keeps _ t v)
        | inr e ↦ rw e (printed-Keeps _ t v)
      ]
  perform-Keeps start_41 c t v = word-Keeps _ t v
  perform-Keeps next_42 c t v = word-Keeps _ t v
  perform-Keeps next_43 c t v = word-Keeps _ t v
  perform-Keeps end_44 c t v = elim (Bool-cases (ltb 0x10ffff (or_continuation 0 c t.vt.utf8))) [
    | inl e ↦ rw e (word-Keeps _ t v)
    | inr e ↦ rw e (printed-Keeps _ t v)
  ]
  perform-Keeps replacement c t v = laws.print_non_ascii_keeps 0xfffd t v

  perform_all-Keeps : (l : List Action) (c : ℕ) → Keeps (perform_all host l c)
  unfolding perform_all
  perform_all-Keeps [] c t v = v
  perform_all-Keeps (a ∷ l) c t v =
      perform_all-Keeps l c (perform host a c t) (perform-Keeps a c t v)

  take_transition-Keeps :
      (tr : Transition) (c : ℕ) (t : Terminal T)
      → IsValid t.vt
      → IsValid (take_transition host tr c t).1.vt
  unfolding take_transition
  take_transition-Keeps (goto l s) c t v = perform_all-Keeps l c t v
  take_transition-Keeps (stay l) c t v = perform_all-Keeps l c t v

  loop-Keeps : (cs : List ℕ) (s : State) → Keeps (from_slave_loop host cs s)
  unfolding from_slave_loop
  loop-Keeps [] s t v = v
  loop-Keeps (c ∷ cs) s t v =
      let w = take_transition-Keeps (state_switch s c) c t v in
      loop-Keeps cs _ _ (record { params_fit = w.params_fit; osc_fits = w.osc_fits })

  pub vt_from_slave-IsValid : (cs : List ℕ) → Keeps (vt_from_slave host cs)
  unfolding vt_from_slave
  vt_from_slave-IsValid cs t v = loop-Keeps cs t.vt.state t v
