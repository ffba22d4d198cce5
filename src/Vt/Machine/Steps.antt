-- ===== src/Vt/Machine/Steps.antt =====
-- One byte of the loop of vt.c, by what the switch of its state says.
use foot.Base.{ℕ, ◌≡◌, refl, List, [], ◌∷◌}
use foot.Vt.State.{State}
use foot.Vt.Switch.{Action, goto, stay, state_switch}
use foot.Vt.Machine.{Terminal, Host, set_state, perform_all, from_slave_loop, vt_from_slave}

module _ {T : Type 0} (host : Host T) where
  pub loop-nil : (s : State) (t : Terminal T) → from_slave_loop host [] s t ≡ t
  unfolding from_slave_loop
  loop-nil s t = refl

  pub loop-goto :
      {l : List Action} {s' : State} (s : State) (c : ℕ) (cs : List ℕ) (t : Terminal T)
      → state_switch s c ≡ goto l s'
      → from_slave_loop host (c ∷ cs) s t
        ≡ from_slave_loop host cs s' (set_state host s' (perform_all host l c t))
  unfolding from_slave_loop
  loop-goto s c cs t e = rw e

  pub loop-stay :
      {l : List Action} (s : State) (c : ℕ) (cs : List ℕ) (t : Terminal T)
      → state_switch s c ≡ stay l
      → from_slave_loop host (c ∷ cs) s t
        ≡ from_slave_loop host cs (perform_all host l c t).vt.state (perform_all host l c t)
  unfolding from_slave_loop
  loop-stay s c cs t e = rw e

  pub vt_from_slave-loop :
      (cs : List ℕ) (s : State) (t : Terminal T)
      → t.vt.state ≡ s
      → vt_from_slave host cs t ≡ from_slave_loop host cs s t
  unfolding vt_from_slave
  vt_from_slave-loop cs s t e = rw e

  -- A single byte.
  pub vt_from_slave-goto :
      {l : List Action} {s' : State} (c : ℕ) (t : Terminal T)
      → state_switch t.vt.state c ≡ goto l s'
      → vt_from_slave host (c ∷ []) t ≡ set_state host s' (perform_all host l c t)
  unfolding vt_from_slave
  vt_from_slave-goto c t e = loop-goto t.vt.state c [] t e

  pub vt_from_slave-stay :
      {l : List Action} (c : ℕ) (t : Terminal T)
      → state_switch t.vt.state c ≡ stay l
      → vt_from_slave host (c ∷ []) t ≡ perform_all host l c t
  unfolding vt_from_slave
  vt_from_slave-stay c t e = loop-stay t.vt.state c [] t e
