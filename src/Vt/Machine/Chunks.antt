-- ===== src/Vt/Machine/Chunks.antt =====
-- `vt_from_slave` of vt.c does not depend on how the input is cut into reads.
use foot.Base.{ℕ, ◌≡◌, refl, List, [], ◌∷◌, ◌++◌}
use foot.Vt.State.{State}
use foot.Vt.Machine.{Terminal, Host, from_slave_loop, vt_from_slave}

module _ {T : Type 0} (host : Host T) where
  loop-append :
      (xs ys : List ℕ) (s : State) (t : Terminal T)
      → t.vt.state ≡ s
      → from_slave_loop host (xs ++ ys) s t ≡ vt_from_slave host ys (from_slave_loop host xs s t)
  unfolding vt_from_slave from_slave_loop
  loop-append [] ys s t e = rw e
  loop-append (x ∷ xs) ys s t e = loop-append xs ys _ _ refl

  -- Reading two chunks of input one after the other is reading them at once, from any state of the
  -- parser, in the middle of a sequence or of a UTF-8 character included.
  pub vt_from_slave-append :
      (xs ys : List ℕ) (t : Terminal T)
      → vt_from_slave host (xs ++ ys) t ≡ vt_from_slave host ys (vt_from_slave host xs t)
  unfolding vt_from_slave
  vt_from_slave-append xs ys t = loop-append xs ys t.vt.state t refl
