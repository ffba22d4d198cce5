-- ===== src/Vt/Params/Bounds.antt =====
-- The parameter actions of vt.c write inside `params.v` and `sub.value` only.
use foot.Base.{
  ℕ, ◌≤◌, ◌<◌, ◌≡◌, ◌≢◌, refl, ◌⊎◌, inl, inr, arith, Bool-cases, ltb, ltb→lt, ◌==◌, length,
  length-set, get_or, get_or-set, set,
}
use foot.Vt.State.{Ref, null, slot, dummy, SubParams, Param, Params}
use foot.Vt.Params.{
  no_param, fresh_param, write_param, write_value, action_param_lazy_init, next_param,
  action_param_new, next_sub_param, action_param_new_subparam, param_digit, add_digit, action_param,
}

-- `sub.cur` points at an element in use, at the dummy, or nowhere.
abbrev pub SubTarget : Ref → ℕ → Type 0
SubTarget null n = Unit {0}
SubTarget (slot i) n = i < n
SubTarget dummy n = Unit {0}

pub record SubFits (s : SubParams) : Type 0 where
  pub size : length s.value ≡ 16
  pub count : s.idx ≤ 16
  pub target : SubTarget s.cur s.idx

-- `params.cur` points at an element in use, or at the dummy, which is when all are in use.
abbrev pub Target : Ref → ℕ → Type 0
Target null n = n ≡ 0
Target (slot i) n = (n ≡ 0) ⊎ (i < n)
Target dummy n = (n ≡ 0) ⊎ (n ≡ 16)

pub record ParamsFit (ps : Params) : Type 0 where
  pub size : length ps.v ≡ 16
  pub count : ps.idx ≤ 16
  pub target : Target ps.cur ps.idx
  pub each : (i : ℕ) → i < 16 → SubFits (get_or ps.v i no_param).sub
  pub spare : SubFits ps.spare.sub

-- What an action does to one parameter keeps its sub-parameters within bounds.
abbrev pub KeepsSub : (Param → Param) → Type 0
KeepsSub f = (p : Param) → SubFits p.sub → SubFits (f p).sub

fresh_param-Keeps : KeepsSub fresh_param
fresh_param-Keeps p h = ground arith

next_sub_param-Keeps : KeepsSub next_sub_param
unfolding next_sub_param
next_sub_param-Keeps p h = ground (arith, length-set p.sub.value p.sub.idx 0)

write_value-Keeps : (r : Ref) (f : ℕ → ℕ) → KeepsSub (write_value r f)
unfolding write_value
write_value-Keeps null f p h = h
write_value-Keeps (slot i) f p h =
    ground (arith, length-set p.sub.value i (f (get_or p.sub.value i 0)))
write_value-Keeps dummy f p h = ground arith

param_digit-Keeps : (c : ℕ) → KeepsSub (param_digit c)
unfolding param_digit
param_digit-Keeps c p h = write_value-Keeps p.sub.cur (add_digit c) p h

-- A write through a pointer to a parameter keeps the sizes, the counts and the sub-parameters.
write_param-Fits :
    (r : Ref) (f : Param → Param) (ps : Params)
    → KeepsSub f
    → SubTarget r 16
    → ParamsFit ps
    → ParamsFit (write_param r f ps)
unfolding write_param
write_param-Fits null f ps k t h = h
write_param-Fits (slot n) f ps k t h = record {
  size = omega (arith, length-set ps.v n (f (get_or ps.v n no_param)), h.size);
  count = h.count;
  target = h.target;
  each = λ i lt. each i lt;
  spare = h.spare;
}
  where
    old : SubFits (get_or ps.v n no_param).sub
    old = h.each n t

    each :
        (i : ℕ) → i < 16 → SubFits (get_or (set ps.v n (f (get_or ps.v n no_param))) i no_param).sub
    each i lt =
        rw (get_or-set ps.v n i (f (get_or ps.v n no_param)) no_param (omega (arith, h.size)))
          (ground (arith, h.each i lt, k (get_or ps.v n no_param) old))
write_param-Fits dummy f ps k t h = record {
  size = h.size;
  count = h.count;
  target = h.target;
  each = h.each;
  spare = k ps.spare h.spare;
}

lazy_init-Fits : (ps : Params) → ParamsFit ps → ParamsFit (action_param_lazy_init ps)
unfolding action_param_lazy_init
lazy_init-Fits ps h = elim (Bool-cases (ps.idx == 0)) [
  | inl e ↦ rw e (record {
    size = w.size;
    count = omega arith;
    target = inr (omega arith);
    each = w.each;
    spare = w.spare;
  })
  | inr e ↦ rw e h
]
  where
    w : ParamsFit (write_param (slot 0) fresh_param ps)
    w = write_param-Fits (slot 0) fresh_param ps fresh_param-Keeps (omega arith) h

next_param-Fits : (ps : Params) → ParamsFit ps → ParamsFit (next_param ps)
unfolding next_param
next_param-Fits ps h = elim (Bool-cases (ltb ps.idx 16)) [
  | inl e ↦
      let w = write_param-Fits (slot ps.idx) fresh_param ps fresh_param-Keeps (ltb→lt _ _ e) h in
      rw e (record {
        size = w.size;
        count = omega (arith, ltb→lt _ _ e);
        target = inr (omega (arith, ltb→lt _ _ e));
        each = w.each;
        spare = w.spare;
      })
  | inr e ↦
      let w = write_param-Fits dummy fresh_param ps fresh_param-Keeps tt h in
      rw e (record {
        size = w.size;
        count = h.count;
        target = inr (ground (arith, h.count));
        each = w.each;
        spare = w.spare;
      })
]

-- `action_param_new` keeps the parameter array and its pointer within bounds.
pub action_param_new-Fits : (ps : Params) → ParamsFit ps → ParamsFit (action_param_new ps)
unfolding action_param_new
action_param_new-Fits ps h = next_param-Fits _ (lazy_init-Fits ps h)

cur-Fits : (ps : Params) → ParamsFit ps → SubTarget (action_param_lazy_init ps).cur 16
unfolding action_param_lazy_init
cur-Fits ps h = elim (Bool-cases (ps.idx == 0)) [
  | inl e ↦ rw e (omega arith)
  | inr e ↦ rw e (target ps.cur ps.idx (ground (arith, e)) h.count h.target)
]
  where
    target : (r : Ref) (n : ℕ) → n ≢ 0 → n ≤ 16 → Target r n → SubTarget r 16
    target null n ne le t = tt
    target (slot i) n ne le t = omega arith
    target dummy n ne le t = tt

pub action_param_new_subparam-Fits :
    (ps : Params) → ParamsFit ps → ParamsFit (action_param_new_subparam ps)
unfolding action_param_new_subparam
action_param_new_subparam-Fits ps h =
    write_param-Fits (action_param_lazy_init ps).cur next_sub_param (action_param_lazy_init ps)
      next_sub_param-Keeps (cur-Fits ps h) (lazy_init-Fits ps h)

pub action_param-Fits : (c : ℕ) (ps : Params) → ParamsFit ps → ParamsFit (action_param c ps)
unfolding action_param
action_param-Fits c ps h =
    write_param-Fits (action_param_lazy_init ps).cur (param_digit c) (action_param_lazy_init ps)
      (param_digit-Keeps c) (cur-Fits ps h) (lazy_init-Fits ps h)

-- `params.idx = 0`, in `action_clear`.
pub reset-Fits : (ps : Params) → ParamsFit ps → ParamsFit (record ps { idx = 0 })
reset-Fits ps h = record {
  size = h.size;
  count = omega arith;
  target = unused ps.cur;
  each = h.each;
  spare = h.spare;
}
  where
    unused : (r : Ref) → Target r 0
    unused null = refl
    unused (slot i) = inl refl
    unused dummy = inl refl
