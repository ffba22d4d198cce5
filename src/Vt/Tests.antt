-- ===== src/Vt/Tests.antt =====
-- A terminal that records what the parser of vt.c calls, and the parser run on it.
use foot.Base.{
  ℕ, zero, suc, ◌≤◌, ◌<◌, ◌≡◌, refl, ap, List, [], ◌∷◌, ◌++◌, some, arith, true, false, inl, length,
  take, replicate, get_or, length-take, length-append, length-replicate,
}
use foot.Vt.State.{State, null, Param}
use foot.Vt.Params.{vt_param_get}
use foot.Vt.Params.Bounds.{SubFits}
use foot.Vt.Params.Decimal.{scan_all, meaning}
use foot.Vt.Osc.{Realloc, osc_release}
use foot.Vt.Switch.{state_switch}
use foot.Vt.Params.{action_clear}
use foot.Vt.Params.Decimal.{action_bytes}
use foot.Vt.Machine.{perform_all}
use foot.Vt.Osc.Growth.{ReallocLaws, Holds}
use foot.Vt.Machine.{Terminal, Host, set_state, vt_from_slave}
use foot.Vt.Machine.Chunks.{vt_from_slave-append}
use foot.Vt.Machine.Resync.{escape-resets, cancel-ground, broken_character_stays}
use foot.Vt.Machine.Decode.{encode, vt_from_slave-encode, printed}
use foot.Vt.Machine.Csi.{csi_params, dispatched}
use foot.Vt.Machine.OscString.{osc_string_dispatched, string_dispatched}
use foot.Vt.Machine.Bounds.{IsValid, HostLaws}

-- `realloc` that zeroes what it adds.
abbrev pub plain_realloc : Realloc
plain_realloc d n = some (take n (d ++ replicate n 0))

take-take-append :
    (d e : List ℕ) (n k : ℕ) → k ≤ length d → k ≤ n → take k (take n (d ++ e)) ≡ take k d
take-take-append d e n zero h l = refl
take-take-append [] e n (suc k) h l = absurd (omega arith)
take-take-append (x ∷ d) e zero (suc k) h l = absurd (omega arith)
take-take-append (x ∷ d) e (suc n) (suc k) h l =
    ap (◌∷◌ x) (take-take-append d e n k (omega arith) (omega arith))

plain_realloc_laws : ReallocLaws plain_realloc
plain_realloc_laws = record {
  resizes = λ d e n h. size d e n h;
  copies = λ d e n k h hd hn. rw (← content d e n h) (take-take-append d (replicate n 0) n k hd hn);
}
  where
    content : (d e : List ℕ) (n : ℕ) → plain_realloc d n ≡ some e → take n (d ++ replicate n 0) ≡ e
    content d e n h = cc

    size : (d e : List ℕ) (n : ℕ) → plain_realloc d n ≡ some e → length e ≡ n
    size d e n h = rw (← content d e n h) (
        omega (
          arith,
          length-take n (d ++ replicate n 0),
          length-append d (replicate n 0),
          length-replicate n (let z : ℕ = 0 in z),
        ))

abbrev pub Log : Type 0
Log = List ℕ

abbrev pub note : ℕ → Terminal Log → Terminal Log
note n t = record t { rest = n ∷ t.rest }

abbrev pub recorder : Host Log
recorder = record {
  realloc = plain_realloc;
  execute = note;
  print = note;
  print_non_ascii = note;
  esc_dispatch = note;
  csi_dispatch = note;
  osc_dispatch = note 1;
  dcs_hook = note;
  dcs_put = note;
  dcs_unhook = note 2;
}

pub recorder_laws : HostLaws recorder
recorder_laws = record {
  realloc_laws = plain_realloc_laws;
  execute_keeps = λ c t v. v;
  print_keeps = λ c t v. v;
  print_non_ascii_keeps = λ c t v. v;
  esc_dispatch_keeps = λ c t v. v;
  csi_dispatch_keeps = λ c t v. v;
  osc_dispatch_keeps = λ t v. v;
  dcs_hook_keeps = λ c t v. v;
  dcs_put_keeps = λ c t v. v;
  dcs_unhook_keeps = λ t v. v;
}

abbrev pub empty_param : Param
empty_param = record {
  value = 0;
  sub = record { idx = 0; cur = null; value = replicate 16 0; spare = 0 };
}

abbrev pub fresh : Terminal Log
fresh = record {
  vt = record {
    state = State.ground;
    utf8 = 0;
    params = record { idx = 0; cur = null; v = replicate 16 empty_param; spare = empty_param };
    privates = 0;
    osc = record { bytes = []; size = 0; idx = 0; bel = false; overrun = false };
  };
  rest = [];
}

abbrev in_utf8 : Terminal Log
in_utf8 = set_state recorder State.utf8_21 fresh

get_or-replicate : (n i : ℕ) (p d : Param) → i < n → get_or (replicate n p) i d ≡ p
get_or-replicate zero i p d h = absurd (omega arith)
get_or-replicate (suc n) zero p d h = refl
get_or-replicate (suc n) (suc i) p d h = get_or-replicate n i p d (omega arith)

empty_param_fits : SubFits empty_param.sub
empty_param_fits = omega arith

pub fresh-IsValid : IsValid fresh.vt
fresh-IsValid = record {
  params_fit = record {
    size = refl;
    count = omega arith;
    target = refl;
    each = λ i lt. rw (get_or-replicate 16 i empty_param _ lt) empty_param_fits;
    spare = empty_param_fits;
  };
  osc_fits = record { sized = refl; inside = refl };
}

-- `CSI 1 ; 2 H`
abbrev cursor_position : List ℕ
cursor_position = 0x1b ∷ b'[' ∷ b'1' ∷ b';' ∷ b'2' ∷ b'H' ∷ []

run_csi : (vt_from_slave recorder cursor_position fresh).rest ≡ b'H' ∷ []
unfolding vt_from_slave state_switch perform_all action_clear action_bytes
run_csi = refl

-- A character cut in the middle.
vt_from_slave-append_example :
    vt_from_slave recorder ((0xc3 ∷ []) ++ 0xa9 ∷ []) fresh
    ≡ vt_from_slave recorder (0xa9 ∷ []) (vt_from_slave recorder (0xc3 ∷ []) fresh)
vt_from_slave-append_example = vt_from_slave-append recorder (0xc3 ∷ []) (0xa9 ∷ []) fresh

escape-resets_example :
    let vt = (vt_from_slave recorder (0x1b ∷ []) in_utf8).vt in
    (vt.state ≡ State.escape) × (vt.params.idx ≡ 0) × (vt.privates ≡ 0)
escape-resets_example = escape-resets recorder in_utf8

cancel-ground_example : (vt_from_slave recorder (0x18 ∷ []) in_utf8).vt.state ≡ State.ground
cancel-ground_example = cancel-ground recorder 0x18 in_utf8 (inl refl)

-- DEL in the middle of a two-byte character.
broken_character_stays_example : vt_from_slave recorder (0x7f ∷ []) in_utf8 ≡ note 0xfffd in_utf8
broken_character_stays_example = broken_character_stays recorder 0x7f in_utf8 refl refl refl

abbrev euro : ℕ
euro = 0x20ac

vt_from_slave-encode_example :
    vt_from_slave recorder (encode euro) fresh ≡ printed recorder State.utf8_32 euro fresh
vt_from_slave-encode_example =
    vt_from_slave-encode recorder euro fresh refl
      (record { above = omega arith; below = omega arith; no_surrogate = inl (omega arith) })

abbrev one_two : List ℕ
one_two = b'1' ∷ b';' ∷ b'2' ∷ []

csi_params_example :
    (vt_from_slave recorder cursor_position fresh
      ≡ set_state recorder State.ground (note b'H' (dispatched recorder one_two fresh)))
    × (vt_param_get (dispatched recorder one_two fresh).vt.params 1 1 ≡ 2)
    × ((dispatched recorder one_two fresh).vt.params.idx ≡ 2)
unfolding scan_all meaning
csi_params_example =
    csi_params recorder one_two b'H' 1 1 fresh refl refl (refl, (refl, (refl, tt))) refl

abbrev title : List ℕ
title = b'0' ∷ b';' ∷ b'a' ∷ []

osc_string_dispatched_example :
    let at = string_dispatched recorder title fresh in
    let t' = note 1 at in
    (vt_from_slave recorder (0x1b ∷ 0x5d ∷ title ++ 7 ∷ []) fresh
      ≡ record t' { vt = record (t'.vt) { state = State.ground; osc = osc_release t'.vt.osc } })
    × Holds title at.vt.osc
    × (at.vt.osc.bel ≡ true)
osc_string_dispatched_example =
    osc_string_dispatched recorder plain_realloc_laws (λ d n. λ e. cc) title fresh refl refl
      (omega arith) (omega arith)
