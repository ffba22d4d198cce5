-- ===== src/Vt/State.antt =====
-- `enum state` of vt.c, and `struct vt` of terminal.h: the parser's own fields.
use foot.Base.{ℕ, Bool, List}

pub data State : Type 0 where
  ground escape escape_intermediate : State
  csi_entry csi_param csi_intermediate csi_ignore : State
  osc_string : State
  dcs_entry dcs_param dcs_intermediate dcs_ignore dcs_passthrough : State
  sos_pm_apc_string : State
  utf8_21 utf8_31 utf8_32 utf8_41 utf8_42 utf8_43 : State

-- The targets of the pointers `params.cur` and `sub.cur`: nothing, an element, or the dummy.
pub data Ref : Type 0 where
  null : Ref
  slot : ℕ → Ref
  dummy : Ref

-- `struct vt_subparams`.
pub record SubParams : Type 0 where
  pub idx : ℕ
  pub cur : Ref
  pub value : List ℕ
  pub spare : ℕ

-- `struct vt_param`.
pub record Param : Type 0 where
  pub value : ℕ
  pub sub : SubParams

-- `vt.params`; `spare` is its field `dummy`.
pub record Params : Type 0 where
  pub idx : ℕ
  pub cur : Ref
  pub v : List Param
  pub spare : Param

-- `vt.osc`.
-- `overrun` is no field of the program: it tells whether a byte was written outside the block.
pub record OscBuffer : Type 0 where
  pub bytes : List ℕ
  pub size : ℕ
  pub idx : ℕ
  pub bel : Bool
  pub overrun : Bool

-- The fields of `struct vt` that the parser reads and writes.
pub record Vt : Type 0 where
  pub state : State
  pub utf8 : ℕ
  pub params : Params
  pub privates : ℕ
  pub osc : OscBuffer
