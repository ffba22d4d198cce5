-- ===== src/Vt/Osc/Growth.antt =====
-- The OSC buffer of vt.c and osc.c: it grows to what is asked for, every write is inside it, and
-- it holds the bytes that were put, in order.
use native.Mathlib.Nat.{pow-suc}
use foot.Base.{
  ℕ, zero, suc, ◌+◌, ◌*◌, ◌^◌, ◌≤◌, ◌<◌, ◌≡◌, ◌≢◌, ◌==◌, refl, ap, ◌∙◌, max, Bool, true, false,
  List, [], ◌∷◌, ◌++◌, Option, none, some, leb, ltb, set, arith, Bool-cases, leb→le, lt→ltb, inl,
  inr, length, length-set, take, length-append,
}
use foot.Vt.State.{OscBuffer}
use foot.Vt.Osc.{
  Realloc, pow2_max, grow, grow_fuel, install, write_byte, osc_ensure_size, action_osc_put,
  osc_terminate,
}

-- The loop ends by its test: with fuel for the shifts, the size that it finds is large enough.
grow-le : (fuel required size : ℕ) → required ≤ size * 2 ^ fuel → required ≤ grow fuel required size
unfolding grow
grow-le zero required size h = omega arith
grow-le (suc fuel) required size h = elim (Bool-cases (ltb size required)) [
  | inl e ↦ rw e (grow-le fuel required (size * 2) doubled)
  | inr e ↦ rw e (ground (arith, e))
]
  where
    doubled : required ≤ size * 2 * 2 ^ fuel
    doubled = omega (arith, ap (λ x. size * x) (pow-suc 2 fuel))

-- What the C library promises of `realloc`.
pub record ReallocLaws (realloc : Realloc) : Type 0 where
  pub resizes : (d e : List ℕ) (n : ℕ) → realloc d n ≡ some e → length e ≡ n
  pub copies :
      (d e : List ℕ) (n k : ℕ) → realloc d n ≡ some e → k ≤ length d → k ≤ n → take k e ≡ take k d

abbrev pub IsSized : OscBuffer → Type 0
IsSized b = length b.bytes ≡ b.size

-- The block is as large as recorded, and no byte was written outside it.
pub record OscFits (b : OscBuffer) : Type 0 where
  pub sized : IsSized b
  pub inside : b.overrun ≡ false

write_byte-inside :
    (c : ℕ) (b : OscBuffer)
    → b.idx < length b.bytes
    → write_byte c b ≡ record b { bytes = set b.bytes b.idx c }
unfolding write_byte
write_byte-inside c b h = rw (lt→ltb b.idx (length b.bytes) h) refl

module _ (realloc : Realloc) (laws : ReallocLaws realloc) where
  -- What holds of the answer to a request for `required` bytes.
  record Ensured (b : OscBuffer) (required : ℕ) (r : Bool × OscBuffer) : Type 0 where
    sized : IsSized r.1
    fits : r.0 ≡ true → required ≤ r.1.size
    idx : r.1.idx ≡ b.idx
    overrun : r.1.overrun ≡ b.overrun
    kept : (k : ℕ) → k ≤ b.size → k ≤ required → take k r.1.bytes ≡ take k b.bytes

  install-Ensured :
      (b : OscBuffer) (required n : ℕ) (o : Option (List ℕ))
      → IsSized b
      → required ≤ n
      → realloc b.bytes n ≡ o
      → Ensured b required (install realloc b n o)
  unfolding install
  install-Ensured b required n none s h e = record {
    sized = s;
    fits = λ f. cc;
    idx = refl;
    overrun = refl;
    kept = λ k lt lq. refl;
  }
  install-Ensured b required n (some d) s h e = record {
    sized = laws.resizes b.bytes d n e;
    fits = λ _. h;
    idx = refl;
    overrun = refl;
    kept = λ k lt lq. laws.copies b.bytes d n k e (omega arith) (omega arith);
  }

  osc_ensure_size-Ensured :
      (b : OscBuffer) (required : ℕ)
      → IsSized b
      → Ensured b required (osc_ensure_size realloc b required)
  unfolding osc_ensure_size
  osc_ensure_size-Ensured b required s = elim (Bool-cases (leb required b.size)) [
    | inl e ↦ rw e (record {
      sized = s;
      fits = λ _. leb→le _ _ e;
      idx = refl;
      overrun = refl;
      kept = λ k lt lq. refl;
    })
    | inr e ↦ elim (Bool-cases (ltb pow2_max required)) [
      | inl f ↦
          rw (e, f)
            (record {
              sized = s;
              fits = λ q. cc;
              idx = refl;
              overrun = refl;
              kept = λ k lt lq. refl;
            })
      | inr f ↦
          rw (e, f)
            (install-Ensured b required _ _ s
              (grow-le grow_fuel required (max b.size 4096) (ground (arith, f))) refl)
    ]
  ]

-- The buffer holds a string, and is allocated as large as it says.
pub record Holds (xs : List ℕ) (b : OscBuffer) : Type 0 where
  pub sized : IsSized b
  pub idx : b.idx ≡ length xs
  pub room : length xs ≤ b.size
  pub prefix : take (length xs) b.bytes ≡ xs

-- Writing the byte behind a prefix.
take-set :
    (xs d : List ℕ) (c : ℕ)
    → length xs < length d
    → take (length xs) d ≡ xs
    → take (length (xs ++ c ∷ [])) (set d (length xs) c) ≡ xs ++ c ∷ []
take-set [] [] c lt e = absurd (omega arith)
take-set [] (y ∷ d) c lt e = refl
take-set (x ∷ xs) [] c lt e = absurd (omega arith)
take-set (x ∷ xs) (y ∷ d) c lt e = ground (arith, take-set xs d c (omega arith), e)

take-set_same : (n : ℕ) (d : List ℕ) (c : ℕ) → take n (set d n c) ≡ take n d
take-set_same zero d c = refl
take-set_same (suc n) [] c = refl
take-set_same (suc n) (y ∷ d) c = ap (◌∷◌ y) (take-set_same n d c)

module _ (realloc : Realloc) (laws : ReallocLaws realloc) where
  -- The write of a byte at the index, after the buffer was asked to hold it.
  written-Fits :
      (c : ℕ) (b : OscBuffer)
      → OscFits b
      → (osc_ensure_size realloc b (b.idx + 1)).0 ≡ true
      → OscFits (write_byte c (osc_ensure_size realloc b (b.idx + 1)).1)
  written-Fits c b v e =
      let r = osc_ensure_size-Ensured realloc laws b (b.idx + 1) v.sized in
      let b' = (osc_ensure_size realloc b (b.idx + 1)).1 in
      rw (write_byte-inside c b' (omega (arith, r.fits e, r.idx, r.sized)))
        (record { sized = length-set b'.bytes b'.idx c ∙ r.sized; inside = r.overrun ∙ v.inside })

  unwritten-Fits : (b : OscBuffer) → OscFits b → OscFits (osc_ensure_size realloc b (b.idx + 1)).1
  unwritten-Fits b v =
      let r = osc_ensure_size-Ensured realloc laws b (b.idx + 1) v.sized in
      record { sized = r.sized; inside = r.overrun ∙ v.inside }

  -- `action_osc_put` writes inside the buffer whenever the buffer could grow.
  pub action_osc_put-Fits :
      (c : ℕ) (b : OscBuffer) → OscFits b → OscFits (action_osc_put realloc c b)
  unfolding action_osc_put
  action_osc_put-Fits c b v = elim (Bool-cases (osc_ensure_size realloc b (b.idx + 1)).0) [
    | inl e ↦ let w = written-Fits c b v e in rw e (record { sized = w.sized; inside = w.inside })
    | inr e ↦ rw e (unwritten-Fits b v)
  ]

  pub osc_terminate-Fits :
      (c : ℕ) (b : OscBuffer) → OscFits b → OscFits (osc_terminate realloc c b).1
  unfolding osc_terminate
  osc_terminate-Fits c b v = elim (Bool-cases (osc_ensure_size realloc b (b.idx + 1)).0) [
    | inl e ↦ let w = written-Fits 0 b v e in rw e (record { sized = w.sized; inside = w.inside })
    | inr e ↦ rw e (unwritten-Fits b v)
  ]

module _ (realloc : Realloc) (laws : ReallocLaws realloc)
    (succeeds : (d : List ℕ) (n : ℕ) → realloc d n ≢ none) where
  install-true :
      (b : OscBuffer) (n : ℕ) (o : Option (List ℕ)) → o ≢ none → (install realloc b n o).0 ≡ true
  unfolding install
  install-true b n none h = absurd (h refl)
  install-true b n (some d) h = refl

  osc_ensure_size-true :
      (b : OscBuffer) (required : ℕ)
      → required ≤ pow2_max
      → (osc_ensure_size realloc b required).0 ≡ true
  unfolding osc_ensure_size
  osc_ensure_size-true b required h = elim (Bool-cases (leb required b.size)) [
    | inl e ↦ rw e refl
    | inr e ↦ rw (e, fits h) (install-true b _ _ (succeeds _ _))
  ]
    where
      fits : required ≤ pow2_max → ltb pow2_max required ≡ false
      fits h = ground arith

  module _ (xs : List ℕ) (b : OscBuffer) (c : ℕ) (h : Holds xs b)
      (short : suc (length xs) ≤ pow2_max) where
    grown : Bool × OscBuffer
    grown = osc_ensure_size realloc b (b.idx + 1)

    grown-Ensured : Ensured realloc laws b (b.idx + 1) grown
    unfolding grown
    grown-Ensured = osc_ensure_size-Ensured realloc laws b (b.idx + 1) h.sized

    grown-true : grown.0 ≡ true
    unfolding grown
    grown-true = osc_ensure_size-true b (b.idx + 1) (omega (arith, h.idx))

    grown-take : take (length xs) grown.1.bytes ≡ xs
    grown-take = grown-Ensured.kept (length xs) h.room (omega (arith, h.idx)) ∙ h.prefix

    at_end : grown.1.idx ≡ length xs
    at_end = grown-Ensured.idx ∙ h.idx

    has_room : length xs < grown.1.size
    has_room = omega (arith, grown-Ensured.fits grown-true, h.idx)

    inside : ltb (length xs) (length grown.1.bytes) ≡ true
    inside = lt→ltb _ _ (omega (arith, has_room, grown-Ensured.sized))

    -- `action_osc_put` appends its byte, where memory does not run out.
    pub action_osc_put-Holds : Holds (xs ++ c ∷ []) (action_osc_put realloc c b)
    unfolding action_osc_put write_byte grown
    action_osc_put-Holds =
        rw (grown-true, at_end, inside)
          (record {
            sized = length-set grown.1.bytes (length xs) c ∙ grown-Ensured.sized;
            idx = omega (arith, length-append xs (c ∷ []));
            room = omega (arith, length-append xs (c ∷ []), has_room);
            prefix =
                take-set xs grown.1.bytes c (omega (arith, has_room, grown-Ensured.sized))
                  grown-take;
          })

    -- `action_osc_end` terminates the string, and hands it on with the kind of its terminator.
    pub osc_terminate-Holds :
        ((osc_terminate realloc c b).0 ≡ true)
        × Holds xs (osc_terminate realloc c b).1
        × ((osc_terminate realloc c b).1.bel ≡ (c == 7))
    unfolding osc_terminate write_byte grown
    osc_terminate-Holds =
        rw (grown-true, at_end, inside)
          (
            refl,
            record {
              sized = length-set grown.1.bytes (length xs) 0 ∙ grown-Ensured.sized;
              idx = refl;
              room = omega (arith, has_room);
              prefix = take-set_same (length xs) grown.1.bytes 0 ∙ grown-take;
            },
            refl,
          )
