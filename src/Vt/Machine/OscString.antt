-- ===== src/Vt/Machine/OscString.antt =====
-- A whole operating system command, from ESC to its BEL, through the switches of vt.c.
use foot.Base.{
  ℕ, ◌+◌, ◌≤◌, ◌<◌, ◌≡◌, ◌≢◌, refl, ◌∙◌, subst, List, [], ◌∷◌, ◌++◌, arith, true, none, All, length,
  length-append, append_assoc, append-nil,
}
use foot.Vt.State.{State, osc_string, escape, OscBuffer}
use foot.Vt.Params.{action_clear}
use foot.Vt.Osc.{action_osc_start, action_osc_put, osc_terminate, osc_release, pow2_max}
use foot.Vt.Osc.Growth.{ReallocLaws, IsSized, Holds, action_osc_put-Holds, osc_terminate-Holds}
use foot.Vt.Switch.{goto, state_switch, clear, osc_start, osc_put, osc_end}
use foot.Vt.Machine.Steps.{loop-goto, vt_from_slave-loop}
use foot.Vt.Machine.{Terminal, Host, perform_all, action_osc_end, from_slave_loop, vt_from_slave}

-- A byte that is no C0 control character: those above 0x7f included.
abbrev pub IsText : ℕ → Type 0
IsText c = 0x20 ≤ c

text_row : (c : ℕ) → IsText c → state_switch osc_string c ≡ goto (osc_put ∷ []) osc_string
unfolding state_switch
text_row c h = ground arith

bel_row : state_switch osc_string 7 ≡ goto (osc_end ∷ []) State.ground
unfolding state_switch
bel_row = refl

module _ {T : Type 0} (host : Host T) where
  pub put_all : List ℕ → OscBuffer → OscBuffer
  put_all [] b = b
  put_all (c ∷ cs) b = put_all cs (action_osc_put host.realloc c b)

  abbrev with_osc : OscBuffer → Terminal T → Terminal T
  with_osc b t = record t { vt = record (t.vt) { state = osc_string; osc = b } }

  run_text :
      (cs rest : List ℕ) (t : Terminal T)
      → t.vt.state ≡ osc_string
      → All IsText cs
      → from_slave_loop host (cs ++ rest) osc_string t
        ≡ from_slave_loop host rest osc_string (with_osc (put_all cs t.vt.osc) t)
  unfolding put_all perform_all
  run_text [] rest t e h = rw (← e) refl
  run_text (c ∷ cs) rest t e h =
      loop-goto host osc_string c (cs ++ rest) t (text_row c h.0)
      ∙ run_text cs rest (with_osc (action_osc_put host.realloc c t.vt.osc) t) refl h.1

  -- The terminal that a command is dispatched on.
  abbrev pub string_dispatched : List ℕ → Terminal T → Terminal T
  string_dispatched cs t = record t {
    vt = record (t.vt) {
      state = osc_string;
      params = record (t.vt.params) { idx = 0 };
      privates = 0;
      osc = (osc_terminate host.realloc 7 (put_all cs (record (t.vt.osc) { idx = 0 }))).1;
    };
  }

  opened : Terminal T → Terminal T
  opened t = record t {
    vt = record (t.vt) {
      state = osc_string;
      params = record (t.vt.params) { idx = 0 };
      privates = 0;
      osc = record (t.vt.osc) { idx = 0 };
    };
  }

  opener :
      (rest : List ℕ) (t : Terminal T)
      → t.vt.state ≡ State.ground
      → vt_from_slave host (0x1b ∷ 0x5d ∷ rest) t ≡ from_slave_loop host rest osc_string (opened t)
  unfolding perform_all action_clear action_osc_start state_switch opened
  opener rest t e =
      vt_from_slave-loop host (0x1b ∷ 0x5d ∷ rest) State.ground t e
      ∙ loop-goto host {l = clear ∷ []} {s' = escape} State.ground 0x1b (0x5d ∷ rest) t refl
      ∙ loop-goto host {l = osc_start ∷ []} {s' = osc_string} escape 0x5d rest _ refl

  module _ (laws : ReallocLaws host.realloc)
      (succeeds : (d : List ℕ) (n : ℕ) → host.realloc d n ≢ none) where
    put_all-Holds :
        (cs xs : List ℕ) (b : OscBuffer)
        → Holds xs b
        → length xs + length cs < pow2_max
        → Holds (xs ++ cs) (put_all cs b)
    unfolding put_all
    put_all-Holds [] xs b h lt = rw (append-nil xs) h
    put_all-Holds (c ∷ cs) xs b h lt =
        subst (λ l. Holds l (put_all cs (action_osc_put host.realloc c b)))
          (append_assoc xs (c ∷ []) cs)
          (put_all-Holds cs (xs ++ c ∷ []) (action_osc_put host.realloc c b)
            (action_osc_put-Holds host.realloc laws succeeds xs b c h (omega arith))
            (omega (arith, length-append xs (c ∷ []))))

    -- ESC ], text and BEL, read in the ground state, call the OSC dispatcher once, on a buffer that
    -- holds exactly the text, and says that a BEL ended it; then the parser is in the ground state.
    -- This is so for any text shorter than 2^63 bytes, the bytes from 0x80 on included, if memory
    -- does not run out.
    pub osc_string_dispatched :
        (cs : List ℕ) (t : Terminal T)
        → t.vt.state ≡ State.ground
        → IsSized t.vt.osc
        → All IsText cs
        → length cs < pow2_max
        → let at = string_dispatched cs t in
          let t' = host.osc_dispatch at in
          (vt_from_slave host (0x1b ∷ 0x5d ∷ cs ++ 7 ∷ []) t ≡ record t' {
            vt = record (t'.vt) { state = State.ground; osc = osc_release t'.vt.osc };
          })
          × Holds cs at.vt.osc
          × (at.vt.osc.bel ≡ true)
    unfolding perform_all from_slave_loop action_osc_end opened
    osc_string_dispatched cs t e s h lt = (run, last.1, last.2)
      where
        b : OscBuffer
        b = put_all cs (record (t.vt.osc) { idx = 0 })

        held : Holds cs b
        held =
            put_all-Holds cs [] _
              (record { sized = s; idx = refl; room = omega arith; prefix = refl }) (omega arith)

        last :
            ((osc_terminate host.realloc 7 b).0 ≡ true)
            × Holds cs (osc_terminate host.realloc 7 b).1
            × ((osc_terminate host.realloc 7 b).1.bel ≡ true)
        last = osc_terminate-Holds host.realloc laws succeeds cs b 7 held lt

        run : vt_from_slave host (0x1b ∷ 0x5d ∷ cs ++ 7 ∷ []) t ≡ (
            let t' = host.osc_dispatch (string_dispatched cs t) in
            record t' { vt = record (t'.vt) { state = State.ground; osc = osc_release t'.vt.osc } })
        run =
            opener (cs ++ 7 ∷ []) t e
            ∙ run_text cs (7 ∷ []) (opened t) refl h
            ∙ loop-goto host {l = osc_end ∷ []} {s' = State.ground} osc_string 7 []
                (with_osc b (opened t)) bel_row
            ∙ rw last.0 refl
