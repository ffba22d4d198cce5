-- ===== src/Vt/Machine/Csi.antt =====
-- A whole control sequence, from ESC to its final byte, through the switches of vt.c.
use foot.Base.{
  ℕ, ◌≡◌, refl, ◌∙◌, List, [], ◌∷◌, ◌++◌, arith, within, ◌==◌, ◌||◌, true, Bool-cases, ◌⊎◌, inl,
  inr, All, length, min,
}
use foot.Vt.State.{State, csi_entry, csi_param, escape, Params}
use foot.Vt.Params.{action_clear, vt_param_get}
use foot.Vt.Params.Decimal.{
  action_byte, action_bytes, scan_all, meaning, Represents, action_bytes-Represents,
  vt_param_get_of_Represents,
}
use foot.Vt.Switch.{goto, state_switch, param, param_new, clear, csi_dispatch}
use foot.Vt.Machine.Steps.{loop-goto, vt_from_slave-loop}
use foot.Vt.Machine.{Terminal, Host, set_state, perform_all, from_slave_loop, vt_from_slave}

-- A digit or a semicolon.
abbrev pub IsParamByte : ℕ → Type 0
IsParamByte c = (within b'0' b'9' c || c == b';') ≡ true

abbrev pub after_bytes : State → List ℕ → State
after_bytes s [] = s
after_bytes s (c ∷ cs) = csi_param

-- Final bytes.
abbrev pub IsFinal : ℕ → Type 0
IsFinal c = within 0x40 0x7e c ≡ true

-- The two states that take parameters.
abbrev pub TakesParams : State → Type 0
TakesParams s = (s ≡ csi_entry) ⊎ (s ≡ csi_param)

digit_row :
    (s : State) (c : ℕ)
    → TakesParams s
    → within b'0' b'9' c ≡ true
    → state_switch s c ≡ goto (param ∷ []) csi_param
unfolding state_switch
digit_row s c (inl e) h = rw e (ground arith)
digit_row s c (inr e) h = rw e (ground arith)

semicolon_row :
    (s : State) (c : ℕ)
    → TakesParams s
    → (c == b';') ≡ true
    → state_switch s c ≡ goto (param_new ∷ []) csi_param
unfolding state_switch
semicolon_row s c (inl e) h = rw e (ground arith)
semicolon_row s c (inr e) h = rw e (ground arith)

final_row :
    (s : State) (c : ℕ)
    → TakesParams s
    → IsFinal c
    → state_switch s c ≡ goto (csi_dispatch ∷ []) State.ground
unfolding state_switch
final_row s c (inl e) h = rw e (ground arith)
final_row s c (inr e) h = rw e (ground arith)

after-csi_param : (cs : List ℕ) → after_bytes csi_param cs ≡ csi_param
after-csi_param [] = refl
after-csi_param (c ∷ cs) = refl

after-TakesParams : (s : State) (cs : List ℕ) → TakesParams s → TakesParams (after_bytes s cs)
after-TakesParams s [] h = h
after-TakesParams s (c ∷ cs) h = inr refl

module _ {T : Type 0} (host : Host T) where
  abbrev pub with_params : State → Params → Terminal T → Terminal T
  with_params s ps t = record t { vt = record (t.vt) { state = s; params = ps } }

  one_byte :
      (s : State) (c : ℕ) (cs : List ℕ) (t : Terminal T)
      → TakesParams s
      → IsParamByte c
      → from_slave_loop host (c ∷ cs) s t
        ≡ from_slave_loop host cs csi_param (with_params csi_param (action_byte c t.vt.params) t)
  unfolding action_byte perform_all
  one_byte s c cs t at h = elim (Bool-cases (c == b';')) [
    | inl e ↦ rw e (loop-goto host s c cs t (semicolon_row s c at e))
    | inr e ↦ rw e (loop-goto host s c cs t (digit_row s c at (ground (arith, e, h))))
  ]

  run_bytes :
      (cs rest : List ℕ) (s : State) (t : Terminal T)
      → t.vt.state ≡ s
      → TakesParams s
      → All IsParamByte cs
      → from_slave_loop host (cs ++ rest) s t
        ≡ from_slave_loop host rest
            (after_bytes s cs)
            (with_params (after_bytes s cs) (action_bytes cs t.vt.params) t)
  unfolding action_bytes
  run_bytes [] rest s t e at h = rw (← e) refl
  run_bytes (c ∷ cs) rest s t e at h =
      one_byte s c (cs ++ rest) t at h.0
      ∙ run_bytes cs rest csi_param (with_params csi_param (action_byte c t.vt.params) t) refl
          (inr refl) h.1
      ∙ rw (after-csi_param cs) refl

  -- The terminal that a control sequence is dispatched on.
  abbrev pub dispatched : List ℕ → Terminal T → Terminal T
  dispatched cs t = record t {
    vt = record (t.vt) {
      state = after_bytes csi_entry cs;
      params = action_bytes cs (record (t.vt.params) { idx = 0 });
      privates = 0;
    };
  }

  introducer :
      (rest : List ℕ) (t : Terminal T)
      → t.vt.state ≡ State.ground
      → vt_from_slave host (0x1b ∷ 0x5b ∷ rest) t
        ≡ from_slave_loop host rest csi_entry (dispatched [] t)
  unfolding perform_all action_clear action_bytes state_switch
  introducer rest t e =
      vt_from_slave-loop host (0x1b ∷ 0x5b ∷ rest) State.ground t e
      ∙ loop-goto host {l = clear ∷ []} {s' = escape} State.ground 0x1b (0x5b ∷ rest) t refl
      ∙ loop-goto host {l = clear ∷ []} {s' = csi_entry} escape 0x5b rest _ refl

  csi_sequence :
      (cs : List ℕ) (final : ℕ) (t : Terminal T)
      → t.vt.state ≡ State.ground
      → All IsParamByte cs
      → IsFinal final
      → vt_from_slave host (0x1b ∷ 0x5b ∷ cs ++ final ∷ []) t
        ≡ set_state host State.ground (host.csi_dispatch final (dispatched cs t))
  unfolding perform_all from_slave_loop action_bytes
  csi_sequence cs final t e h f =
      introducer (cs ++ final ∷ []) t e
      ∙ run_bytes cs (final ∷ []) csi_entry (dispatched [] t) refl (inl refl) h
      ∙ loop-goto host (after_bytes csi_entry cs) final [] (dispatched cs t)
          (final_row (after_bytes csi_entry cs) final (after-TakesParams csi_entry cs (inl refl)) f)

  -- ESC [, digits and semicolons, and a final byte, read in the ground state, call the CSI dispatcher
  -- once, on a terminal whose parameters are the numbers written, in order, with no private
  -- character; then the parser is in the ground state. Here `vt_param_get` gives the `i`th number
  -- modulo 2^31, or the default where the number is 0, is missing or stands behind the sixteenth.
  pub csi_params :
      (cs : List ℕ) (final i d : ℕ) (t : Terminal T)
      → t.vt.state ≡ State.ground
      → length t.vt.params.v ≡ 16
      → All IsParamByte cs
      → IsFinal final
      → (vt_from_slave host (0x1b ∷ 0x5b ∷ cs ++ final ∷ []) t
          ≡ set_state host State.ground (host.csi_dispatch final (dispatched cs t)))
        × (vt_param_get (dispatched cs t).vt.params i d ≡ meaning (scan_all [] cs) i d)
        × ((dispatched cs t).vt.params.idx ≡ min 16 (length (scan_all [] cs)))
  csi_params cs final i d t e size h f =
      (csi_sequence cs final t e h f, vt_param_get_of_Represents _ _ i d r, r.count)
    where
      start : Represents [] (record (t.vt.params) { idx = 0 })
      start = record { size = size; count = refl; values = λ i lt. elim lt [ ]; cursor = tt }

      r : Represents (scan_all [] cs) (action_bytes cs (record (t.vt.params) { idx = 0 }))
      r = action_bytes-Represents cs [] _ start
