-- ===== src/Vt/Machine/Decode.antt =====
-- The UTF-8 decoder of vt.c, against the encoding of Unicode's table 3-6.
use foot.Base.{
  ℕ, ◌+◌, ◌*◌, ◌/◌, ◌%◌, ◌^◌, ◌≤◌, ◌<◌, ◌≡◌, refl, ◌∙◌, ap, List, [], ◌∷◌, arith, bit_and, bit_or,
  within, ltb, ltb→lt, Bool-cases, inl, inr, if◌then◌else◌, false, ◌⊎◌,
}
use foot.Base.Mask.{bit_and-mask, bit_or-disjoint}
use foot.Vt.State.{State, utf8_21, utf8_31, utf8_32, utf8_41, utf8_42, utf8_43}
use foot.Vt.Utf8.{action_utf8_21, action_utf8_31, action_utf8_41, or_continuation}
use foot.Vt.Switch.{
  goto, state_switch, start_21, end_22, start_31, next_32, end_33, start_41, next_42, next_43,
  end_44,
}
use foot.Vt.Machine.Steps.{loop-goto, vt_from_slave-loop}
use foot.Vt.Machine.{Terminal, Host, set_state, perform_all, from_slave_loop, vt_from_slave}

abbrev pub encode2 : ℕ → List ℕ
encode2 wc = (0xc0 + wc / 2 ^ 6) ∷ (0x80 + wc % 2 ^ 6) ∷ []

abbrev pub encode3 : ℕ → List ℕ
encode3 wc = (0xe0 + wc / 2 ^ 12) ∷ (0x80 + wc / 2 ^ 6 % 2 ^ 6) ∷ (0x80 + wc % 2 ^ 6) ∷ []

abbrev pub encode4 : ℕ → List ℕ
encode4 wc =
    (0xf0 + wc / 2 ^ 18)
    ∷ (0x80 + wc / 2 ^ 12 % 2 ^ 6)
    ∷ (0x80 + wc / 2 ^ 6 % 2 ^ 6)
    ∷ (0x80 + wc % 2 ^ 6)
    ∷ []

-- The bytes of a scalar value above U+007F.
pub encode : ℕ → List ℕ
encode wc = if ltb wc 0x800 then encode2 wc else if ltb wc 0x10000 then encode3 wc else encode4 wc

-- A byte of a continuation, put in below the bits that are there.
continuation_low : (a b : ℕ) → b < 2 ^ 6 → or_continuation 0 (0x80 + b) (a * 2 ^ 6) ≡ a * 2 ^ 6 + b
unfolding or_continuation
continuation_low a b h =
    ap (bit_or (a * 2 ^ 6)) (omega (arith, bit_and-mask 6 (0x80 + b))) ∙ bit_or-disjoint 6 a b h

continuation_mid :
    (a b : ℕ) → b < 2 ^ 6 → or_continuation 6 (0x80 + b) (a * 2 ^ 12) ≡ a * 2 ^ 12 + b * 2 ^ 6
unfolding or_continuation
continuation_mid a b h =
    ap (bit_or (a * 2 ^ 12)) (omega (arith, bit_and-mask 6 (0x80 + b)))
    ∙ bit_or-disjoint 12 a (b * 2 ^ 6) (omega arith)

continuation_high :
    (a b : ℕ) → b < 2 ^ 6 → or_continuation 12 (0x80 + b) (a * 2 ^ 18) ≡ a * 2 ^ 18 + b * 2 ^ 12
unfolding or_continuation
continuation_high a b h =
    ap (bit_or (a * 2 ^ 18)) (omega (arith, bit_and-mask 6 (0x80 + b)))
    ∙ bit_or-disjoint 18 a (b * 2 ^ 12) (omega arith)

word2 :
    (wc : ℕ)
    → wc < 0x800
    → or_continuation 0 (0x80 + wc % 2 ^ 6) (action_utf8_21 (0xc0 + wc / 2 ^ 6)) ≡ wc
unfolding action_utf8_21
word2 wc h =
    ap (λ x. or_continuation 0 (0x80 + wc % 2 ^ 6) (x * 2 ^ 6)) lead
    ∙ continuation_low (wc / 2 ^ 6) (wc % 2 ^ 6) (omega arith)
    ∙ omega arith
  where
    lead : bit_and (0xc0 + wc / 2 ^ 6) 0x1f ≡ wc / 2 ^ 6
    lead = omega (arith, bit_and-mask 5 (0xc0 + wc / 2 ^ 6))

word3 :
    (wc : ℕ)
    → wc < 0x10000
    → or_continuation 0
        (0x80 + wc % 2 ^ 6)
        (or_continuation 6 (0x80 + wc / 2 ^ 6 % 2 ^ 6) (action_utf8_31 (0xe0 + wc / 2 ^ 12)))
      ≡ wc
unfolding action_utf8_31
word3 wc h =
    ap
      (λ x.
        or_continuation 0 (0x80 + wc % 2 ^ 6)
          (or_continuation 6 (0x80 + wc / 2 ^ 6 % 2 ^ 6) (x * 2 ^ 12)))
      lead
    ∙ ap (or_continuation 0 (0x80 + wc % 2 ^ 6))
        (continuation_mid (wc / 2 ^ 12) (wc / 2 ^ 6 % 2 ^ 6) (omega arith) ∙ regroup)
    ∙ continuation_low (wc / 2 ^ 6) (wc % 2 ^ 6) (omega arith)
    ∙ omega arith
  where
    lead : bit_and (0xe0 + wc / 2 ^ 12) 0x0f ≡ wc / 2 ^ 12
    lead = omega (arith, bit_and-mask 4 (0xe0 + wc / 2 ^ 12))

    regroup : wc / 2 ^ 12 * 2 ^ 12 + wc / 2 ^ 6 % 2 ^ 6 * 2 ^ 6 ≡ wc / 2 ^ 6 * 2 ^ 6
    regroup = omega arith

-- What the switches do with the bytes of a character.
module _ (n : ℕ) where
  lead2_row : 2 ≤ n → n < 0x20 → state_switch State.ground (0xc0 + n) ≡ goto (start_21 ∷ []) utf8_21
  unfolding state_switch
  lead2_row lo hi = ground arith

  lead3_row : n < 0x10 → state_switch State.ground (0xe0 + n) ≡ goto (start_31 ∷ []) utf8_31
  unfolding state_switch
  lead3_row hi = ground arith

  lead4_row : n < 5 → state_switch State.ground (0xf0 + n) ≡ goto (start_41 ∷ []) utf8_41
  unfolding state_switch
  lead4_row hi = ground arith

  row22 : n < 2 ^ 6 → state_switch utf8_21 (0x80 + n) ≡ goto (end_22 ∷ []) State.ground
  unfolding state_switch
  row22 h = ground arith

  row32 : n < 2 ^ 6 → state_switch utf8_31 (0x80 + n) ≡ goto (next_32 ∷ []) utf8_32
  unfolding state_switch
  row32 h = ground arith

  row33 : n < 2 ^ 6 → state_switch utf8_32 (0x80 + n) ≡ goto (end_33 ∷ []) State.ground
  unfolding state_switch
  row33 h = ground arith

  row42 : n < 2 ^ 6 → state_switch utf8_41 (0x80 + n) ≡ goto (next_42 ∷ []) utf8_42
  unfolding state_switch
  row42 h = ground arith

  row43 : n < 2 ^ 6 → state_switch utf8_42 (0x80 + n) ≡ goto (next_43 ∷ []) utf8_43
  unfolding state_switch
  row43 h = ground arith

  row44 : n < 2 ^ 6 → state_switch utf8_43 (0x80 + n) ≡ goto (end_44 ∷ []) State.ground
  unfolding state_switch
  row44 h = ground arith

word4 :
    (wc : ℕ)
    → wc < 0x110000
    → or_continuation 0 (0x80 + wc % 2 ^ 6) (
        or_continuation 6
          (0x80 + wc / 2 ^ 6 % 2 ^ 6)
          (or_continuation 12 (0x80 + wc / 2 ^ 12 % 2 ^ 6) (action_utf8_41 (0xf0 + wc / 2 ^ 18))))
      ≡ wc
unfolding action_utf8_41
word4 wc h =
    ap
      (λ x.
        or_continuation 0 last (or_continuation 6 third (or_continuation 12 second (x * 2 ^ 18))))
      lead
    ∙ ap (λ x. or_continuation 0 last (or_continuation 6 third x))
        (continuation_high (wc / 2 ^ 18) (wc / 2 ^ 12 % 2 ^ 6) (omega arith) ∙ high)
    ∙ ap (or_continuation 0 last)
        (continuation_mid (wc / 2 ^ 12) (wc / 2 ^ 6 % 2 ^ 6) (omega arith) ∙ mid)
    ∙ continuation_low (wc / 2 ^ 6) (wc % 2 ^ 6) (omega arith)
    ∙ omega arith
  where
    second : ℕ
    second = 0x80 + wc / 2 ^ 12 % 2 ^ 6

    third : ℕ
    third = 0x80 + wc / 2 ^ 6 % 2 ^ 6

    last : ℕ
    last = 0x80 + wc % 2 ^ 6

    lead : bit_and (0xf0 + wc / 2 ^ 18) 0x07 ≡ wc / 2 ^ 18
    lead = omega (arith, bit_and-mask 3 (0xf0 + wc / 2 ^ 18))

    high : wc / 2 ^ 18 * 2 ^ 18 + wc / 2 ^ 12 % 2 ^ 6 * 2 ^ 12 ≡ wc / 2 ^ 12 * 2 ^ 12
    high = omega arith

    mid : wc / 2 ^ 12 * 2 ^ 12 + wc / 2 ^ 6 % 2 ^ 6 * 2 ^ 6 ≡ wc / 2 ^ 6 * 2 ^ 6
    mid = omega arith

-- A Unicode scalar value above the ASCII range.
pub record IsScalar (wc : ℕ) : Type 0 where
  pub above : 0x80 ≤ wc
  pub below : wc ≤ 0x10ffff
  pub no_surrogate : (wc < 0xd800) ⊎ (0xdfff < wc)

-- The state in which the last byte of a character is read.
abbrev pub last_state : ℕ → State
last_state wc = if ltb wc 0x800 then utf8_21 else if ltb wc 0x10000 then utf8_32 else utf8_43

module _ {T : Type 0} (host : Host T) where
  -- `print_non_ascii` called on a character that the parser has put together, in a state of the
  -- decoder; then the parser is in the ground state.
  abbrev pub printed : State → ℕ → Terminal T → Terminal T
  printed s wc t =
      let t' = host.print_non_ascii wc (record t { vt = record (t.vt) { state = s; utf8 = wc } }) in
      record t' { vt = record (t'.vt) { state = State.ground } }

  decode2 :
      (wc : ℕ) (t : Terminal T)
      → t.vt.state ≡ State.ground
      → 0x80 ≤ wc
      → wc < 0x800
      → vt_from_slave host (encode2 wc) t ≡ printed utf8_21 wc t
  unfolding perform_all from_slave_loop
  decode2 wc t g lo hi =
      vt_from_slave-loop host (encode2 wc) State.ground t g
      ∙ loop-goto host State.ground _ (c1 ∷ []) t
          (lead2_row (wc / 2 ^ 6) (omega arith) (omega arith))
      ∙ loop-goto host utf8_21 _ [] _ (row22 (wc % 2 ^ 6) (omega arith))
      ∙ ap (λ w. printed utf8_21 w t) (word2 wc hi)
    where
      c1 : ℕ
      c1 = 0x80 + wc % 2 ^ 6

  decode3 :
      (wc : ℕ) (t : Terminal T)
      → t.vt.state ≡ State.ground
      → wc < 0x10000
      → within 0xd800 0xdfff wc ≡ false
      → vt_from_slave host (encode3 wc) t ≡ printed utf8_32 wc t
  unfolding perform_all from_slave_loop
  decode3 wc t g hi ok =
      vt_from_slave-loop host (encode3 wc) State.ground t g
      ∙ loop-goto host State.ground _ (c1 ∷ c2 ∷ []) t (lead3_row (wc / 2 ^ 12) (omega arith))
      ∙ loop-goto host utf8_31 c1 (c2 ∷ []) t1 (row32 (wc / 2 ^ 6 % 2 ^ 6) (omega arith))
      ∙ loop-goto host utf8_32 _ [] _ (row33 (wc % 2 ^ 6) (omega arith))
      ∙ ap finish (word3 wc hi)
      ∙ rw ok refl
    where
      c1 : ℕ
      c1 = 0x80 + wc / 2 ^ 6 % 2 ^ 6

      c2 : ℕ
      c2 = 0x80 + wc % 2 ^ 6

      t1 : Terminal T
      t1 = set_state host utf8_31 (perform_all host (start_31 ∷ []) (0xe0 + wc / 2 ^ 12) t)

      finish : ℕ → Terminal T
      finish w = set_state host State.ground (
          if within 0xd800 0xdfff w
          then record t { vt = record (t.vt) { state = utf8_32; utf8 = w } }
          else host.print_non_ascii w
              (record t { vt = record (t.vt) { state = utf8_32; utf8 = w } }))

  decode4 :
      (wc : ℕ) (t : Terminal T)
      → t.vt.state ≡ State.ground
      → wc < 0x110000
      → ltb 0x10ffff wc ≡ false
      → vt_from_slave host (encode4 wc) t ≡ printed utf8_43 wc t
  unfolding perform_all from_slave_loop
  decode4 wc t g hi ok =
      vt_from_slave-loop host (encode4 wc) State.ground t g
      ∙ loop-goto host State.ground _ (c1 ∷ c2 ∷ c3 ∷ []) t (lead4_row (wc / 2 ^ 18) (omega arith))
      ∙ loop-goto host utf8_41 c1 (c2 ∷ c3 ∷ []) t1 (row42 (wc / 2 ^ 12 % 2 ^ 6) (omega arith))
      ∙ loop-goto host utf8_42 c2 (c3 ∷ []) t2 (row43 (wc / 2 ^ 6 % 2 ^ 6) (omega arith))
      ∙ loop-goto host utf8_43 _ [] _ (row44 (wc % 2 ^ 6) (omega arith))
      ∙ ap finish (word4 wc hi)
      ∙ rw ok refl
    where
      c1 : ℕ
      c1 = 0x80 + wc / 2 ^ 12 % 2 ^ 6

      c2 : ℕ
      c2 = 0x80 + wc / 2 ^ 6 % 2 ^ 6

      c3 : ℕ
      c3 = 0x80 + wc % 2 ^ 6

      t1 : Terminal T
      t1 = set_state host utf8_41 (perform_all host (start_41 ∷ []) (0xf0 + wc / 2 ^ 18) t)

      t2 : Terminal T
      t2 = set_state host utf8_42 (perform_all host (next_42 ∷ []) c1 t1)

      finish : ℕ → Terminal T
      finish w = set_state host State.ground (
          if ltb 0x10ffff w
          then record t { vt = record (t.vt) { state = utf8_43; utf8 = w } }
          else host.print_non_ascii w
              (record t { vt = record (t.vt) { state = utf8_43; utf8 = w } }))

  -- In the ground state the UTF-8 bytes of a scalar value above U+007F print exactly that value,
  -- once, and lead back to the ground state; nothing else changes but what printing does.
  pub vt_from_slave-encode :
      (wc : ℕ) (t : Terminal T)
      → t.vt.state ≡ State.ground
      → IsScalar wc
      → vt_from_slave host (encode wc) t ≡ printed (last_state wc) wc t
  unfolding encode
  vt_from_slave-encode wc t g s = elim (Bool-cases (ltb wc 0x800)) [
    | inl small ↦ rw small (decode2 wc t g s.above (ltb→lt _ _ small))
    | inr large ↦ elim (Bool-cases (ltb wc 0x10000)) [
      | inl small ↦
          rw (large, small) (decode3 wc t g (ltb→lt _ _ small) (ground (arith, s.no_surrogate)))
      | inr large' ↦
          rw (large, large') (decode4 wc t g (omega (arith, s.below)) (ground (arith, s.below)))
    ]
  ]
