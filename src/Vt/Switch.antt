-- ===== src/Vt/Switch.antt =====
-- The switches of vt.c, one for each state: the actions that a byte runs, in order, and the state
-- that the function returns.
use foot.Base.{ℕ, List, [], ◌∷◌, ◌||◌, ◌==◌, within, if◌then◌else◌, Bool}
use foot.Vt.State.{
  State, ground, escape, escape_intermediate, csi_entry, csi_param, csi_intermediate, csi_ignore,
  osc_string, dcs_entry, dcs_param, dcs_intermediate, dcs_ignore, dcs_passthrough,
  sos_pm_apc_string, utf8_21, utf8_31, utf8_32, utf8_41, utf8_42, utf8_43,
}

-- The `action_*` functions that the switches call. `replacement` is `action_utf8_print` of 0xfffd.
pub data Action : Type 0 where
  ignore clear execute print collect param param_new param_new_subparam : Action
  esc_dispatch csi_dispatch osc_start osc_put osc_end hook unhook put : Action
  start_21 end_22 start_31 next_32 end_33 start_41 next_42 next_43 end_44 replacement : Action

-- `goto` is `return STATE_…`, and `stay` is the `return term->vt.state` that ends `anywhere`.
pub data Transition : Type 0 where
  goto : List Action → State → Transition
  stay : List Action → Transition

abbrev pub before : Action → Transition → Transition
before a (goto l s) = goto (a ∷ l) s
before a (stay l) = stay (a ∷ l)

-- `case 0x00 ... 0x17: case 0x19: case 0x1c ... 0x1f:`
abbrev pub is_c0 : ℕ → Bool
is_c0 c = within 0x00 0x17 c || c == 0x19 || within 0x1c 0x1f c

unfoldable pub anywhere : ℕ → Transition
anywhere c =
    if c == 0x18
    then goto (execute ∷ []) ground
    else if c == 0x1a
    then goto (execute ∷ []) ground
    else if c == 0x1b
    then goto (clear ∷ []) escape
    else if within 0x80 0x9f c
    then goto [] ground
    else stay []

unfoldable pub state_ground_switch : ℕ → Transition
unfolding anywhere
state_ground_switch c =
    if is_c0 c
    then goto (execute ∷ []) ground
    else if within 0x20 0x7e c
    then goto (print ∷ []) ground
    else if within 0xc2 0xdf c
    then goto (start_21 ∷ []) utf8_21
    else if within 0xe0 0xef c
    then goto (start_31 ∷ []) utf8_31
    else if within 0xf0 0xf4 c
    then goto (start_41 ∷ []) utf8_41
    else anywhere c

unfoldable pub state_escape_switch : ℕ → Transition
unfolding anywhere
state_escape_switch c =
    if is_c0 c
    then goto (execute ∷ []) escape
    else if within 0x20 0x2f c
    then goto (collect ∷ []) escape_intermediate
    else if within 0x30 0x4f c
    then goto (esc_dispatch ∷ []) ground
    else if c == 0x50
    then goto (clear ∷ []) dcs_entry
    else if within 0x51 0x57 c
    then goto (esc_dispatch ∷ []) ground
    else if c == 0x58
    then goto [] sos_pm_apc_string
    else if c == 0x59
    then goto (esc_dispatch ∷ []) ground
    else if c == 0x5a
    then goto (esc_dispatch ∷ []) ground
    else if c == 0x5b
    then goto (clear ∷ []) csi_entry
    else if c == 0x5c
    then goto (esc_dispatch ∷ []) ground
    else if c == 0x5d
    then goto (osc_start ∷ []) osc_string
    else if within 0x5e 0x5f c
    then goto [] sos_pm_apc_string
    else if within 0x60 0x7e c
    then goto (esc_dispatch ∷ []) ground
    else if c == 0x7f
    then goto (ignore ∷ []) escape
    else anywhere c

unfoldable pub state_escape_intermediate_switch : ℕ → Transition
unfolding anywhere
state_escape_intermediate_switch c =
    if is_c0 c
    then goto (execute ∷ []) escape_intermediate
    else if within 0x20 0x2f c
    then goto (collect ∷ []) escape_intermediate
    else if within 0x30 0x7e c
    then goto (esc_dispatch ∷ []) ground
    else if c == 0x7f
    then goto (ignore ∷ []) escape_intermediate
    else anywhere c

unfoldable pub state_csi_entry_switch : ℕ → Transition
unfolding anywhere
state_csi_entry_switch c =
    if is_c0 c
    then goto (execute ∷ []) csi_entry
    else if within 0x20 0x2f c
    then goto (collect ∷ []) csi_intermediate
    else if within 0x30 0x39 c
    then goto (param ∷ []) csi_param
    else if c == 0x3a
    then goto (param_new_subparam ∷ []) csi_param
    else if c == 0x3b
    then goto (param_new ∷ []) csi_param
    else if within 0x3c 0x3f c
    then goto (collect ∷ []) csi_param
    else if within 0x40 0x7e c
    then goto (csi_dispatch ∷ []) ground
    else if c == 0x7f
    then goto (ignore ∷ []) csi_entry
    else anywhere c

unfoldable pub state_csi_param_switch : ℕ → Transition
unfolding anywhere
state_csi_param_switch c =
    if is_c0 c
    then goto (execute ∷ []) csi_param
    else if within 0x20 0x2f c
    then goto (collect ∷ []) csi_intermediate
    else if within 0x30 0x39 c
    then goto (param ∷ []) csi_param
    else if c == 0x3a
    then goto (param_new_subparam ∷ []) csi_param
    else if c == 0x3b
    then goto (param_new ∷ []) csi_param
    else if within 0x3c 0x3f c
    then goto [] csi_ignore
    else if within 0x40 0x7e c
    then goto (csi_dispatch ∷ []) ground
    else if c == 0x7f
    then goto (ignore ∷ []) csi_param
    else anywhere c

unfoldable pub state_csi_intermediate_switch : ℕ → Transition
unfolding anywhere
state_csi_intermediate_switch c =
    if is_c0 c
    then goto (execute ∷ []) csi_intermediate
    else if within 0x20 0x2f c
    then goto (collect ∷ []) csi_intermediate
    else if within 0x30 0x3f c
    then goto [] csi_ignore
    else if within 0x40 0x7e c
    then goto (csi_dispatch ∷ []) ground
    else if c == 0x7f
    then goto (ignore ∷ []) csi_intermediate
    else anywhere c

unfoldable pub state_csi_ignore_switch : ℕ → Transition
unfolding anywhere
state_csi_ignore_switch c =
    if is_c0 c
    then goto (execute ∷ []) csi_ignore
    else if within 0x20 0x3f c
    then goto (ignore ∷ []) csi_ignore
    else if within 0x40 0x7e c
    then goto [] ground
    else if c == 0x7f
    then goto (ignore ∷ []) csi_ignore
    else anywhere c

-- The `default:` of this switch catches what no case names.
unfoldable pub state_osc_string_switch : ℕ → Transition
state_osc_string_switch c =
    if c == 0x07
    then goto (osc_end ∷ []) ground
    else if within 0x00 0x06 c || within 0x08 0x17 c || c == 0x19 || within 0x1c 0x1f c
    then goto (ignore ∷ []) osc_string
    else if c == 0x18 || c == 0x1a
    then goto (osc_end ∷ execute ∷ []) ground
    else if c == 0x1b
    then goto (osc_end ∷ clear ∷ []) escape
    else goto (osc_put ∷ []) osc_string

unfoldable pub state_dcs_entry_switch : ℕ → Transition
unfolding anywhere
state_dcs_entry_switch c =
    if is_c0 c
    then goto (ignore ∷ []) dcs_entry
    else if within 0x20 0x2f c
    then goto (collect ∷ []) dcs_intermediate
    else if within 0x30 0x39 c
    then goto (param ∷ []) dcs_param
    else if c == 0x3a
    then goto [] dcs_ignore
    else if c == 0x3b
    then goto (param_new ∷ []) dcs_param
    else if within 0x3c 0x3f c
    then goto (collect ∷ []) dcs_param
    else if within 0x40 0x7e c
    then goto (hook ∷ []) dcs_passthrough
    else if c == 0x7f
    then goto (ignore ∷ []) dcs_entry
    else anywhere c

unfoldable pub state_dcs_param_switch : ℕ → Transition
unfolding anywhere
state_dcs_param_switch c =
    if is_c0 c
    then goto (ignore ∷ []) dcs_param
    else if within 0x20 0x2f c
    then goto (collect ∷ []) dcs_intermediate
    else if within 0x30 0x39 c
    then goto (param ∷ []) dcs_param
    else if c == 0x3a
    then goto [] dcs_ignore
    else if c == 0x3b
    then goto (param_new ∷ []) dcs_param
    else if within 0x3c 0x3f c
    then goto [] dcs_ignore
    else if within 0x40 0x7e c
    then goto (hook ∷ []) dcs_passthrough
    else if c == 0x7f
    then goto (ignore ∷ []) dcs_param
    else anywhere c

unfoldable pub state_dcs_intermediate_switch : ℕ → Transition
unfolding anywhere
state_dcs_intermediate_switch c =
    if is_c0 c
    then goto (ignore ∷ []) dcs_intermediate
    else if within 0x20 0x2f c
    then goto (collect ∷ []) dcs_intermediate
    else if within 0x30 0x3f c
    then goto [] dcs_ignore
    else if within 0x40 0x7e c
    then goto (hook ∷ []) dcs_passthrough
    else if c == 0x7f
    then goto (ignore ∷ []) dcs_intermediate
    else anywhere c

unfoldable pub state_dcs_ignore_switch : ℕ → Transition
unfolding anywhere
state_dcs_ignore_switch c =
    if is_c0 c || within 0x20 0x7f c then goto (ignore ∷ []) dcs_ignore else anywhere c

unfoldable pub state_dcs_passthrough_switch : ℕ → Transition
state_dcs_passthrough_switch c =
    if within 0x00 0x17 c || c == 0x19 || within 0x1c 0x7e c
    then goto (put ∷ []) dcs_passthrough
    else if c == 0x7f
    then goto (ignore ∷ []) dcs_passthrough
    else if c == 0x18
    then goto (unhook ∷ execute ∷ []) ground
    else if c == 0x1a
    then goto (unhook ∷ execute ∷ []) ground
    else if c == 0x1b
    then goto (unhook ∷ clear ∷ []) escape
    else if within 0x80 0x9f c
    then goto (unhook ∷ []) ground
    else goto [] dcs_passthrough

unfoldable pub state_sos_pm_apc_string_switch : ℕ → Transition
unfolding anywhere
state_sos_pm_apc_string_switch c =
    if within 0x00 0x17 c || c == 0x19 || within 0x1c 0x7f c
    then goto (ignore ∷ []) sos_pm_apc_string
    else anywhere c

-- `case 0x80 ... 0xbf:` goes on with the sequence; `default:` prints U+FFFD and takes the byte
-- as in the ground state.
unfoldable pub continue : Action → State → ℕ → Transition
unfolding state_ground_switch
continue a s c =
    if within 0x80 0xbf c then goto (a ∷ []) s else before replacement (state_ground_switch c)

unfoldable pub state_utf8_21_switch : ℕ → Transition
unfolding continue
state_utf8_21_switch = continue end_22 ground

unfoldable pub state_utf8_31_switch : ℕ → Transition
unfolding continue
state_utf8_31_switch = continue next_32 utf8_32

unfoldable pub state_utf8_32_switch : ℕ → Transition
unfolding continue
state_utf8_32_switch = continue end_33 ground

unfoldable pub state_utf8_41_switch : ℕ → Transition
unfolding continue
state_utf8_41_switch = continue next_42 utf8_42

unfoldable pub state_utf8_42_switch : ℕ → Transition
unfolding continue
state_utf8_42_switch = continue next_43 utf8_43

unfoldable pub state_utf8_43_switch : ℕ → Transition
unfolding continue
state_utf8_43_switch = continue end_44 ground

-- The dispatch on the current state, in `vt_from_slave`.
unfoldable pub state_switch : State → ℕ → Transition
unfolding state_ground_switch state_escape_switch state_escape_intermediate_switch
    state_csi_entry_switch state_csi_param_switch state_csi_intermediate_switch
    state_csi_ignore_switch state_osc_string_switch state_dcs_entry_switch state_dcs_param_switch
    state_dcs_intermediate_switch state_dcs_ignore_switch state_dcs_passthrough_switch
    state_sos_pm_apc_string_switch state_utf8_21_switch state_utf8_31_switch state_utf8_32_switch
    state_utf8_41_switch state_utf8_42_switch state_utf8_43_switch
state_switch ground = state_ground_switch
state_switch escape = state_escape_switch
state_switch escape_intermediate = state_escape_intermediate_switch
state_switch csi_entry = state_csi_entry_switch
state_switch csi_param = state_csi_param_switch
state_switch csi_intermediate = state_csi_intermediate_switch
state_switch csi_ignore = state_csi_ignore_switch
state_switch osc_string = state_osc_string_switch
state_switch dcs_entry = state_dcs_entry_switch
state_switch dcs_param = state_dcs_param_switch
state_switch dcs_intermediate = state_dcs_intermediate_switch
state_switch dcs_ignore = state_dcs_ignore_switch
state_switch dcs_passthrough = state_dcs_passthrough_switch
state_switch sos_pm_apc_string = state_sos_pm_apc_string_switch
state_switch utf8_21 = state_utf8_21_switch
state_switch utf8_31 = state_utf8_31_switch
state_switch utf8_32 = state_utf8_32_switch
state_switch utf8_41 = state_utf8_41_switch
state_switch utf8_42 = state_utf8_42_switch
state_switch utf8_43 = state_utf8_43_switch
