-- ===== src/Vt/Params.antt =====
-- The parameter actions of vt.c (`action_clear`, `action_param*`, `action_collect`), and
-- `vt_param_get` of vt.h.
pub mod Bounds
pub mod Decimal
use foot.Base.{
  ℕ, ◌+◌, ◌-◌, ◌*◌, ◌/◌, ◌%◌, ◌^◌, [], bit_and, bit_or, ltb, ◌==◌, if◌then◌else◌, get_or, set,
}
use foot.Vt.State.{Ref, null, slot, dummy, Param, Params, Vt}

-- The lengths of `params.v` and of `sub.value`.
abbrev pub max_params : ℕ
max_params = 16

abbrev pub max_sub_params : ℕ
max_sub_params = 16

abbrev pub u32_mod : ℕ
u32_mod = 2 ^ 32

abbrev pub no_param : Param
no_param = record { value = 0; sub = record { idx = 0; cur = null; value = []; spare = 0 } }

-- `param->value = 0; param->sub.idx = 0; param->sub.cur = NULL;`
abbrev pub fresh_param : Param → Param
fresh_param p = record p { value = 0; sub = record (p.sub) { idx = 0; cur = null } }

-- What is written through a pointer into `params`. Through `NULL` nothing is.
unfoldable pub write_param : Ref → (Param → Param) → Params → Params
write_param null f ps = ps
write_param (slot i) f ps = record ps { v = set ps.v i (f (get_or ps.v i no_param)) }
write_param dummy f ps = record ps { spare = f ps.spare }

-- What a pointer into `params` reads.
unfoldable pub read_param : Ref → Params → Param
read_param null ps = no_param
read_param (slot i) ps = get_or ps.v i no_param
read_param dummy ps = ps.spare

unfoldable pub write_value : Ref → (ℕ → ℕ) → Param → Param
write_value null f p = record p { value = f p.value }
write_value (slot i) f p = record p {
  sub = record (p.sub) { value = set p.sub.value i (f (get_or p.sub.value i 0)) };
}
write_value dummy f p = record p { sub = record (p.sub) { spare = f p.sub.spare } }

unfoldable pub action_clear : Vt → Vt
action_clear vt = record vt { params = record (vt.params) { idx = 0 }; privates = 0 }

unfoldable pub action_param_lazy_init : Params → Params
unfolding write_param
action_param_lazy_init ps =
    if ps.idx == 0
    then record (write_param (slot 0) fresh_param ps) { idx = 1; cur = slot 0 }
    else ps

-- The part of `action_param_new` behind the lazy initialisation. `idx` is a `uint8_t`.
unfoldable pub next_param : Params → Params
unfolding write_param
next_param ps =
    if ltb ps.idx max_params
    then record (write_param (slot ps.idx) fresh_param ps) {
      idx = (ps.idx + 1) % 2 ^ 8;
      cur = slot ps.idx;
    }
    else record (write_param dummy fresh_param ps) { cur = dummy }

unfoldable pub action_param_new : Params → Params
action_param_new ps = next_param (action_param_lazy_init ps)

-- `param->sub`, in `action_param_new_subparam`.
unfoldable pub next_sub_param : Param → Param
next_sub_param p =
    if ltb p.sub.idx max_sub_params
    then record p {
      sub = record (p.sub) {
        idx = (p.sub.idx + 1) % 2 ^ 8;
        cur = slot p.sub.idx;
        value = set p.sub.value p.sub.idx 0;
      };
    }
    else record p { sub = record (p.sub) { cur = dummy; spare = 0 } }

unfoldable pub action_param_new_subparam : Params → Params
action_param_new_subparam ps =
    let ps' = action_param_lazy_init ps in write_param ps'.cur next_sub_param ps'

-- `v *= 10; v += c - '0';` on an `unsigned`, for a digit.
unfoldable pub add_digit : ℕ → ℕ → ℕ
add_digit c v = (v * 10 % u32_mod + (c - b'0')) % u32_mod

-- `value = sub.cur != NULL ? sub.cur : &param->value`, and the digit added there.
unfoldable pub param_digit : ℕ → Param → Param
unfolding write_value add_digit
param_digit c p = write_value p.sub.cur (add_digit c) p

unfoldable pub action_param : ℕ → Params → Params
action_param c ps = let ps' = action_param_lazy_init ps in write_param ps'.cur (param_digit c) ps'

-- The first free byte of `private` takes the character; a fifth one is dropped.
unfoldable pub action_collect : ℕ → ℕ → ℕ
action_collect c p =
    if p % 2 ^ 8 == 0
    then c
    else if p / 2 ^ 8 % 2 ^ 8 == 0
    then bit_or p (c * 2 ^ 8)
    else if p / 2 ^ 16 % 2 ^ 8 == 0
    then bit_or p (c * 2 ^ 16)
    else if p / 2 ^ 24 % 2 ^ 8 == 0
    then bit_or p (c * 2 ^ 24)
    else p

-- `vt_param_get`: the `idx`th value without its top bit, or the default where it is missing or 0.
unfoldable pub vt_param_get : Params → ℕ → ℕ → ℕ
vt_param_get ps idx default_value =
    let value = bit_and (get_or ps.v idx no_param).value 0x7fffffff in
    if ltb idx ps.idx then if value == 0 then default_value else value else default_value
