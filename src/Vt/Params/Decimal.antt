-- ===== src/Vt/Params/Decimal.antt =====
-- What the parameter actions of vt.c collect from decimal digits and semicolons, against an
-- independent description: a list of numbers, the last one first.
use Prim.Native.Nat.add
use foot.Base.{
  ℕ, suc, ◌+◌, ◌-◌, ◌*◌, ◌%◌, ◌^◌, ◌≤◌, ◌<◌, ◌≡◌, refl, ap, sym, subst, ◌⊎◌, inl, inr, arith, ◌∙◌,
  Bool-cases, ltb, ltb→lt, ◌==◌, if◌then◌else◌, length, length-set, get_or, get_or-set, set, List,
  [], ◌∷◌, min,
}
use foot.Base.Mask.{bit_and-mask}
use foot.Vt.State.{null, slot, dummy, Param, Params}
use foot.Vt.Params.{
  no_param, fresh_param, write_param, write_value, action_param_lazy_init, next_param,
  action_param_new, param_digit, add_digit, action_param, vt_param_get, u32_mod,
}

-- The numbers of a parameter string, the last one first: a digit extends the last number, modulo
-- 2^32, and a semicolon begins a new one.
unfoldable pub scan : List ℕ → ℕ → List ℕ
scan [] c = if c == b';' then 0 ∷ 0 ∷ [] else ((c - b'0') % u32_mod) ∷ []
scan (v ∷ vs) c = if c == b';' then 0 ∷ v ∷ vs else ((v * 10 + (c - b'0')) % u32_mod) ∷ vs

unfoldable pub scan_all : List ℕ → List ℕ → List ℕ
unfolding scan
scan_all l [] = l
scan_all l (c ∷ cs) = scan_all (scan l c) cs

-- The `i`th number of a list that has the last one first.
abbrev pub entry : List ℕ → ℕ → ℕ
entry [] i = 0
entry (v ∷ vs) i = if i == length vs then v else entry vs i

-- What the code does with the same characters.
unfoldable pub action_byte : ℕ → Params → Params
action_byte c ps = if c == b';' then action_param_new ps else action_param c ps

unfoldable pub action_bytes : List ℕ → Params → Params
unfolding action_byte
action_bytes [] ps = ps
action_bytes (c ∷ cs) ps = action_bytes cs (action_byte c ps)

-- The parameter under construction is the last one.
abbrev pub Cursor : List ℕ → Params → Type 0
Cursor [] ps = Unit {0}
Cursor (v ∷ vs) ps =
    ((length vs < 16)
      × (ps.cur ≡ slot (length vs))
      × ((get_or ps.v (length vs) no_param).sub.cur ≡ null))
    ⊎ ((16 ≤ length vs) × (ps.cur ≡ dummy) × (ps.spare.sub.cur ≡ null))

-- The first sixteen numbers stand in the array.
pub record Represents (l : List ℕ) (ps : Params) : Type 0 where
  pub size : length ps.v ≡ 16
  pub count : ps.idx ≡ min 16 (length l)
  pub values : (i : ℕ) → i < ps.idx → (get_or ps.v i no_param).value ≡ entry l i
  pub cursor : Cursor l ps

-- A digit lands in `value`, as long as no sub-parameter has begun.
param_digit-value :
    (c : ℕ) (p : Param)
    → p.sub.cur ≡ null
    → param_digit c p ≡ record p { value = (p.value * 10 + (c - b'0')) % u32_mod }
unfolding param_digit write_value add_digit
param_digit-value c p e = ground (arith, e)

write_slot :
    (i j : ℕ) (f : Param → Param) (ps : Params)
    → i < length ps.v
    → get_or (write_param (slot i) f ps).v j no_param
      ≡ (if j == i then f (get_or ps.v i no_param) else get_or ps.v j no_param)
unfolding write_param
write_slot i j f ps h = get_or-set ps.v i j (f (get_or ps.v i no_param)) no_param h

size_slot :
    (i : ℕ) (f : Param → Param) (ps : Params) → length (write_param (slot i) f ps).v ≡ length ps.v
unfolding write_param
size_slot i f ps = length-set ps.v i (f (get_or ps.v i no_param))

-- The first parameter, set up by its first digit or by the first semicolon.
first_number :
    (ps : Params) → length ps.v ≡ 16 → ps.idx ≡ 0 → Represents (0 ∷ []) (action_param_lazy_init ps)
unfolding action_param_lazy_init
first_number ps size e = rw e (record {
  size = size_slot 0 fresh_param ps ∙ size;
  count = omega arith;
  values = λ i lt. rw (write_slot 0 i fresh_param ps (omega arith)) (ground arith);
  cursor = inl (omega arith, refl, rw (write_slot 0 0 fresh_param ps (omega arith)));
})

lazy_init-same :
    (v : ℕ) (vs : List ℕ) (ps : Params) → Represents (v ∷ vs) ps → action_param_lazy_init ps ≡ ps
unfolding action_param_lazy_init
lazy_init-same v vs ps r = ground (arith, r.count)

next_number :
    (v : ℕ) (vs : List ℕ) (ps : Params)
    → Represents (v ∷ vs) ps
    → Represents (0 ∷ v ∷ vs) (next_param ps)
unfolding next_param
next_number v vs ps r = elim (Bool-cases (ltb ps.idx 16)) [
  | inl e ↦ rw e (record {
    size = size_slot ps.idx fresh_param ps ∙ r.size;
    count = omega (arith, r.count, ltb→lt _ _ e);
    values = λ i lt.
        rw (write_slot ps.idx i fresh_param ps (omega (arith, r.size, ltb→lt _ _ e)))
          (ground (arith, e, r.count, r.values i));
    cursor = inl (
      omega (arith, r.count, ltb→lt _ _ e),
      ap slot (omega (arith, r.count, ltb→lt _ _ e)),
      rw (write_slot ps.idx (suc (length vs)) fresh_param ps (omega (arith, r.size, ltb→lt _ _ e)))
          (ground (arith, e, r.count)),
    );
  })
  | inr e ↦ rw e (record {
    size = r.size;
    count = ground (arith, r.count, e);
    values = λ i lt. ground (arith, e, r.count, r.values i lt);
    cursor = inr (ground (arith, r.count, e), refl, refl);
  })
]

abbrev next_value : ℕ → ℕ → ℕ
next_value c v = (v * 10 + (c - b'0')) % u32_mod

module _ (c v : ℕ) (vs : List ℕ) (ps : Params) (r : Represents (v ∷ vs) ps) where
  -- A digit of a number that has a slot.
  digit_at_slot :
      length vs < 16
      → ps.cur ≡ slot (length vs)
      → (get_or ps.v (length vs) no_param).sub.cur ≡ null
      → Represents (next_value c v ∷ vs) (write_param (slot (length vs)) (param_digit c) ps)
  unfolding write_param
  digit_at_slot lt at plain = record {
    size = size_slot (length vs) (param_digit c) ps ∙ r.size;
    count = r.count;
    values = λ i h. ground (arith, here i, r.values i h, r.values (length vs), changed, r.count);
    cursor = inl (lt, at, ground (arith, here (length vs), changed, plain));
  }
    where
      old : Param
      old = get_or ps.v (length vs) no_param

      here :
          (i : ℕ)
          → get_or (set ps.v (length vs) (param_digit c old)) i no_param
            ≡ (if i == length vs then param_digit c old else get_or ps.v i no_param)
      here i = get_or-set ps.v (length vs) i (param_digit c old) no_param (omega (arith, r.size))

      changed : param_digit c old ≡ record old { value = next_value c old.value }
      changed = param_digit-value c old plain

  -- A digit of a number that has none goes to the dummy.
  digit_at_dummy :
      16 ≤ length vs
      → ps.cur ≡ dummy
      → ps.spare.sub.cur ≡ null
      → Represents (next_value c v ∷ vs) (write_param dummy (param_digit c) ps)
  unfolding write_param
  digit_at_dummy le at plain = record {
    size = r.size;
    count = r.count;
    values = λ i h. ground (arith, r.values i h, r.count);
    cursor = inr (le, at, ground (arith, param_digit-value c ps.spare plain));
  }

  next_digit : Represents (next_value c v ∷ vs) (write_param ps.cur (param_digit c) ps)
  next_digit = go r.cursor
    where
      go :
          Cursor (v ∷ vs) ps
          → Represents (next_value c v ∷ vs) (write_param ps.cur (param_digit c) ps)
      go (inl (lt, at, plain)) =
          subst (λ q. Represents (next_value c v ∷ vs) (write_param q (param_digit c) ps)) (sym at)
            (digit_at_slot lt at plain)
      go (inr (le, at, plain)) =
          subst (λ q. Represents (next_value c v ∷ vs) (write_param q (param_digit c) ps)) (sym at)
            (digit_at_dummy le at plain)

-- One digit or semicolon.
action_byte-Represents :
    (c : ℕ) (l : List ℕ) (ps : Params) → Represents l ps → Represents (scan l c) (action_byte c ps)
unfolding scan action_byte action_param action_param_new
action_byte-Represents c [] ps r =
    let z = first_number ps r.size r.count in
    elim (Bool-cases (c == b';')) [
      | inl e ↦ rw e (next_number 0 [] (action_param_lazy_init ps) z)
      | inr e ↦ rw e (
          subst (λ q. Represents (q ∷ []) (action_param c ps))
            (ap (λ q. q % u32_mod) (add.zero (c - b'0')))
            (next_digit c 0 [] (action_param_lazy_init ps) z))
    ]
action_byte-Represents c (v ∷ vs) ps r = elim (Bool-cases (c == b';')) [
  | inl e ↦ rw (e, lazy_init-same v vs ps r) (next_number v vs ps r)
  | inr e ↦ rw (e, lazy_init-same v vs ps r) (next_digit c v vs ps r)
]

-- Reading digits and semicolons into the parameters is reading them as a list of numbers: the
-- count is that of the numbers, at most sixteen, and each slot holds its number modulo 2^32.
pub action_bytes-Represents :
    (cs l : List ℕ) (ps : Params)
    → Represents l ps
    → Represents (scan_all l cs) (action_bytes cs ps)
unfolding scan_all action_bytes
action_bytes-Represents [] l ps r = r
action_bytes-Represents (c ∷ cs) l ps r =
    action_bytes-Represents cs (scan l c) (action_byte c ps) (action_byte-Represents c l ps r)

-- The value that an escape sequence gets for its `i`th parameter.
unfoldable pub meaning : List ℕ → ℕ → ℕ → ℕ
meaning l i default_value =
    let value = entry l i % 2 ^ 31 in
    if ltb i (min 16 (length l)) then if value == 0 then default_value else value else default_value

-- `vt_param_get` of what stands for a list of numbers.
pub vt_param_get_of_Represents :
    (l : List ℕ) (ps : Params) (i d : ℕ) → Represents l ps → vt_param_get ps i d ≡ meaning l i d
unfolding vt_param_get meaning
vt_param_get_of_Represents l ps i d r =
    ground (arith, r.count, r.values i, bit_and-mask 31 (get_or ps.v i no_param).value)
