-- ===== src/Fdm/Dispatch.antt =====
-- The dispatch of events reads no freed memory, whatever the callbacks do with the handlers.
use foot.Base.{
  ℕ, zero, suc, ◌≡◌, refl, ◌∙◌, arith, Bool, true, false, true≢false, Bool-cases, inl, inr, List,
  [], ◌∷◌, Option, none, some, ◌==◌, set, All,
}
use foot.Base.Int.{ℤ}
use mathlib.Core.Option
use foot.Fdm.{FdHandler, Fdm, handler_at, Operation, dispatch_events, free_all, poll_events}
use foot.Fdm.Valid.{Marked, IsValid, All-map}
use foot.Fdm.Update.{IsAllocated, Keeps, differ}
use foot.Fdm.Kept.{perform_all-Keeps}

handler_at-set_ne :
    (heap : List (Option FdHandler)) (ptr q : ℕ) (x : Option FdHandler)
    → (q == ptr) ≡ false
    → handler_at (set heap ptr x) q ≡ handler_at heap q
handler_at-set_ne [] ptr q x h = refl
handler_at-set_ne (y ∷ heap) zero zero x h = absurd (true≢false h)
handler_at-set_ne (y ∷ heap) zero (suc q) x h = refl
handler_at-set_ne (y ∷ heap) (suc ptr) zero x h = refl
handler_at-set_ne (y ∷ heap) (suc ptr) (suc q) x h =
    handler_at-set_ne heap ptr q x (ground (arith, h))

module _ {T : Type 0} (call : ℕ → ℤ → ℕ → T → (List Operation × Bool) × T) where
  free_all-other :
      (ptrs : List ℕ) (heap : List (Option FdHandler)) (q : ℕ)
      → All (λ ptr. (q == ptr) ≡ false) ptrs
      → handler_at (free_all call ptrs heap) q ≡ handler_at heap q
  unfolding free_all
  free_all-other [] heap q a = refl
  free_all-other (ptr ∷ ptrs) heap q a =
      free_all-other ptrs (set heap ptr none) q a.1 ∙ handler_at-set_ne heap ptr q none a.0

  -- What the loop over the events ends with.
  Dispatched : Option (Bool × (Fdm × T)) → Type 0
  Dispatched out =
      (ret : Bool) × (fdm' : Fdm) × (t' : T) × (out ≡ some (ret, (fdm', t'))) × IsValid fdm'

  dispatch_events-Dispatched :
      (events : List (ℕ × ℕ)) (fdm : Fdm) (t : T)
      → IsValid fdm
      → fdm.is_polling ≡ true
      → All (λ e. IsAllocated fdm.heap e.0) events
      → Dispatched (dispatch_events call events fdm t)
  unfolding dispatch_events Dispatched Option.bind
  dispatch_events-Dispatched [] fdm t v p a = (true, fdm, t, refl, v)
  dispatch_events-Dispatched ((ptr, mask) ∷ more) fdm t v p ((h, e), rest) =
      elim (Bool-cases h.deleted) [
        | inl gone ↦
            let (ret, fdm', t', ends, w) = dispatch_events-Dispatched more fdm t v p rest in
            (ret, fdm', t', rw (e, gone) ends, w)
        | inr live ↦
            let out = call h.callback h.fd mask t in
            let (fdm', ends, k) = perform_all-Keeps out.0.0 fdm v in
            elim (Bool-cases out.0.1) [
              | inl ok ↦
                  let (ret, fdm'', t'', ends', w) =
                    dispatch_events-Dispatched more fdm' out.1 k.valid (k.polling ∙ p)
                      (carried k p more rest) in
                  (ret, fdm'', t'', rw (e, live, ends, ok) ends', w)
              | inr stop ↦ (false, fdm', out.1, rw (e, live, ends, stop) refl, k.valid)
            ]
      ]
    where
      carried :
          {fdm' : Fdm}
          → Keeps fdm fdm'
          → fdm.is_polling ≡ true
          → (es : List (ℕ × ℕ)) → All (λ e. IsAllocated fdm.heap e.0) es
          → All (λ e. IsAllocated fdm'.heap e.0) es
      carried k p [] a = tt
      carried k p (e ∷ es) a = (k.allocated p e.0 a.0, carried k p es a.1)

  apart : (a b : ℕ) → (a == b) ≡ false → (b == a) ≡ false
  apart a b h = ground (arith, h)

  -- Freeing what was deferred leaves the registered handlers.
  freed-IsValid :
      (fdm : Fdm)
      → IsValid fdm
      → IsValid (record fdm {
        is_polling = false;
        heap = free_all call fdm.deferred_delete fdm.heap;
        deferred_delete = [];
      })
  freed-IsValid fdm v = record {
    live =
        All-map (Marked false fdm.heap) (Marked false (free_all call fdm.deferred_delete fdm.heap))
          fdm.fds
          (λ q m. (
            m.0,
            free_all-other fdm.deferred_delete fdm.heap q (
                  All-map (Marked true fdm.heap) (λ ptr. (q == ptr) ≡ false) fdm.deferred_delete
                    (λ ptr g. apart ptr q (differ fdm.heap ptr q g m)) v.gone)
                ∙ m.1,
            m.2,
          ))
          v.live;
    distinct = v.distinct;
    gone = tt;
  }

  registered :
      (fdm : Fdm) (events : List (ℕ × ℕ))
      → All (λ e. Marked false fdm.heap e.0) events
      → All (λ e. IsAllocated fdm.heap e.0) events
  registered fdm [] a = tt
  registered fdm (e ∷ es) a = ((a.0.0, a.0.1), registered fdm es a.1)

  -- While the invariant of the lists holds, and every event that epoll reports is for a handler that is
  -- registered, the dispatch ends without reading a handler that has been freed, although any callback
  -- may add, change and delete any handlers, its own and those of later events included. Afterwards the
  -- invariant holds again, no deletion is pending, and no event is being dispatched.
  pub poll_events-safe :
      (events : List (ℕ × ℕ)) (fdm : Fdm) (t : T)
      → IsValid fdm
      → All (λ e. Marked false fdm.heap e.0) events
      → (ret : Bool) × (fdm' : Fdm) × (t' : T) × (poll_events call events fdm t
          ≡ some (ret, (fdm', t')))
        × IsValid fdm'
        × (fdm'.is_polling ≡ false)
        × (fdm'.deferred_delete ≡ [])
  unfolding poll_events Dispatched
  poll_events-safe events fdm t v a =
      let (ret, fdm', t', ends, w) =
        dispatch_events-Dispatched events (record fdm { is_polling = true }) t
          (record { live = v.live; distinct = v.distinct; gone = v.gone }) refl
          (registered fdm events a) in
      (
        ret,
        record fdm' {
          is_polling = false;
          heap = free_all call fdm'.deferred_delete fdm'.heap;
          deferred_delete = [];
        },
        t',
        rw ends refl,
        freed-IsValid fdm' w,
        refl,
        refl,
      )
