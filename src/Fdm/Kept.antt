-- ===== src/Fdm/Kept.antt =====
-- Every operation on the handlers keeps the invariant, and while events are dispatched none of them frees a
-- handler.
use foot.Base.{
  ℕ, zero, suc, ◌-◌, ◌<◌, ◌≡◌, refl, sym, ap, subst, ◌∙◌, arith, Bool, true, false, true≢false,
  Bool-cases, inl, inr, List, [], ◌∷◌, ◌++◌, Option, none, some, ◌==◌, if◌then◌else◌, length, set,
  bit_or, bit_and, All,
}
use foot.Base.Int.{ℤ, pos, negsuc}
use mathlib.Core.Option
use foot.Fdm.{
  FdHandler, Fdm, handler_at, push_back, fdm_add, find_fd, remove, update, mark_deleted,
  delete_handler, delete_found, fdm_del_internal, modify_found, same_events, fdm_event_add,
  fdm_event_del, Operation, add, del, event_add, event_del, perform_operation, perform_all,
}
use foot.Fdm.Valid.{
  Marked, Distinct, IsValid, All-map, All-push, allocated-below, handler_at-grown, handler_at-new,
  Marked-grown, Marked-set, remove-All, remove-Distinct,
}
use foot.Fdm.Update.{
  IsAllocated, Keeps, Registered, find_fd-Registered, differ, All-both, update-here, update-Marked,
  update-IsAllocated,
}

module _ (fdm : Fdm) (v : IsValid fdm) where
  same-Keeps : Keeps fdm fdm
  same-Keeps = record { valid = v; polling = refl; allocated = λ p ptr a. a }

  module _ (ptr : ℕ) (m : Marked false fdm.heap ptr) where
    inside : ptr < length fdm.heap
    inside = allocated-below fdm.heap ptr m.0 m.1

    others : (x : Option FdHandler) → All (Marked false (set fdm.heap ptr x)) (remove ptr fdm.fds)
    others x =
        All-map (λ q. Marked false fdm.heap q × ((q == ptr) ≡ false))
          (Marked false (set fdm.heap ptr x)) (remove ptr fdm.fds)
          (λ q (a, ne). Marked-set false fdm.heap ptr x q inside ne a)
          (All-both (Marked false fdm.heap) (λ q. (q == ptr) ≡ false) (remove ptr fdm.fds)
            (remove-All (Marked false fdm.heap) ptr fdm.fds v.live)
            (remove-Distinct ptr fdm.fds v.distinct).1)

    still_gone : (x : Option FdHandler) → All (Marked true (set fdm.heap ptr x)) fdm.deferred_delete
    still_gone x =
        All-map (Marked true fdm.heap) (Marked true (set fdm.heap ptr x)) fdm.deferred_delete
          (λ q a. Marked-set true fdm.heap ptr x q inside (differ fdm.heap q ptr a m) a) v.gone

    delete-polling : Keeps fdm (record fdm {
      heap = update mark_deleted ptr fdm.heap;
      deferred_delete = push_back fdm.deferred_delete ptr;
      fds = remove ptr fdm.fds;
    })
    delete-polling =
        let x = Option.map mark_deleted (handler_at fdm.heap ptr) in
        record {
          valid = record {
            live = others x;
            distinct = (remove-Distinct ptr fdm.fds v.distinct).0;
            gone =
                All-push (Marked true (set fdm.heap ptr x)) fdm.deferred_delete ptr (still_gone x)
                  (mark_deleted m.0, update-here fdm.heap ptr m.0 m.1 mark_deleted, refl);
          };
          polling = refl;
          allocated = λ p q a. update-IsAllocated fdm.heap ptr m.0 m.1 mark_deleted q a;
        }

    delete_handler-Keeps : Keeps fdm (delete_handler ptr fdm)
    unfolding delete_handler
    delete_handler-Keeps = elim (Bool-cases fdm.is_polling) [
      | inl e ↦ subst (λ b. Keeps fdm (if b then deferred else freed)) (sym e) delete-polling
      | inr e ↦
          subst (λ b. Keeps fdm (if b then deferred else freed)) (sym e)
            (record {
              valid = record {
                live = others none;
                distinct = (remove-Distinct ptr fdm.fds v.distinct).0;
                gone = still_gone none;
              };
              polling = refl;
              allocated = λ p. absurd (true≢false (sym p ∙ e));
            })
    ]
      where
        deferred : Fdm
        deferred = record fdm {
          heap = update mark_deleted ptr fdm.heap;
          deferred_delete = push_back fdm.deferred_delete ptr;
          fds = remove ptr fdm.fds;
        }

        freed : Fdm
        freed = record fdm { heap = set fdm.heap ptr none; fds = remove ptr fdm.fds }

    modify_found-Keeps :
        (epoll_ok : Bool) (f : ℕ → ℕ) → Keeps fdm (modify_found epoll_ok f (some ptr) fdm).0
    modify_found-Keeps epoll_ok f = elim (Bool-cases (same_events f (handler_at fdm.heap ptr))) [
      | inl e ↦ rw e same-Keeps
      | inr e ↦ rw e (changed epoll_ok)
    ]
      where
        g : FdHandler → FdHandler
        g handler = record handler { events = f handler.events }

        kept : (b : Bool) (q : ℕ) → Marked b fdm.heap q → Marked b (update g ptr fdm.heap) q
        kept b q = update-Marked fdm.heap ptr m.0 m.1 g b q (λ x. refl)

        modified : Bool → Fdm × Bool
        modified ok =
            if ok then (record fdm { heap = update g ptr fdm.heap }, true) else (fdm, false)

        changed : (ok : Bool) → Keeps fdm (modified ok).0
        changed false = same-Keeps
        changed true = record {
          valid = record {
            live =
                All-map (Marked false fdm.heap) (Marked false (update g ptr fdm.heap)) fdm.fds
                  (kept false) v.live;
            distinct = v.distinct;
            gone =
                All-map (Marked true fdm.heap) (Marked true (update g ptr fdm.heap))
                  fdm.deferred_delete (kept true) v.gone;
          };
          polling = refl;
          allocated = λ p q a. update-IsAllocated fdm.heap ptr m.0 m.1 g q a;
        }

  grown :
      (b : Bool) (x : Option FdHandler) (ptrs : List ℕ)
      → All (Marked b fdm.heap) ptrs
      → All (Marked b (fdm.heap ++ x ∷ [])) ptrs
  grown b x ptrs a =
      All-map (Marked b fdm.heap) (Marked b (fdm.heap ++ x ∷ [])) ptrs
        (λ q m. Marked-grown b fdm.heap (x ∷ []) q m) a

  grown-IsAllocated :
      (x : Option FdHandler) (q : ℕ) → IsAllocated fdm.heap q → IsAllocated (fdm.heap ++ x ∷ []) q
  grown-IsAllocated x q (h, e) =
      (h, handler_at-grown fdm.heap (x ∷ []) q (allocated-below fdm.heap q h e) ∙ e)

  -- A new pointer is none of the registered ones.
  fresh : (q : ℕ) → Marked false fdm.heap q → (length fdm.heap == q) ≡ false
  fresh q (h, e, d) = ground (arith, allocated-below fdm.heap q h e)

  Distinct-push :
      (ptrs : List ℕ) (ptr : ℕ)
      → Distinct ptrs
      → All (λ q. (ptr == q) ≡ false) ptrs
      → Distinct (push_back ptrs ptr)
  Distinct-push [] ptr d a = (tt, tt)
  Distinct-push (q ∷ qs) ptr d a =
      (All-push (λ r. (r == q) ≡ false) qs ptr d.0 a.0, Distinct-push qs ptr d.1 a.1)

  add-Keeps :
      (malloc_ok epoll_ok : Bool) (fd : ℤ) (events callback : ℕ)
      → Keeps fdm (fdm_add malloc_ok epoll_ok fd events callback fdm).0
  unfolding fdm_add
  add-Keeps false epoll_ok fd events callback = same-Keeps
  add-Keeps true false fd events callback = record {
    valid = record {
      live = grown false none fdm.fds v.live;
      distinct = v.distinct;
      gone = grown true none fdm.deferred_delete v.gone;
    };
    polling = refl;
    allocated = λ p. grown-IsAllocated none;
  }
  add-Keeps true true fd events callback =
      let h : FdHandler = record {
        fd = fd;
        events = events;
        callback = callback;
        deleted = false;
      } in
      record {
        valid = record {
          live =
              All-push (Marked false (fdm.heap ++ some h ∷ [])) fdm.fds (length fdm.heap)
                (grown false (some h) fdm.fds v.live) (h, handler_at-new fdm.heap (some h), refl);
          distinct = Distinct-push fdm.fds (length fdm.heap) v.distinct (
              All-map (Marked false fdm.heap) (λ q. (length fdm.heap == q) ≡ false) fdm.fds fresh
                v.live);
          gone = grown true (some h) fdm.deferred_delete v.gone;
        };
        polling = refl;
        allocated = λ p. grown-IsAllocated (some h);
      }

  -- The operation ends without reading freed memory.
  Ends : Option (Fdm × Bool) → Type 0
  Ends out = (fdm' : Fdm) × (ok : Bool) × (out ≡ some (fdm', ok)) × Keeps fdm fdm'

  found-Ends :
      (fd : ℤ) (then_do : Option ℕ → Fdm × Bool)
      → ((found : Option ℕ) → Registered fdm.heap found → Keeps fdm (then_do found).0)
      → Ends (Option.map then_do (find_fd fdm.heap fd fdm.fds))
  unfolding Ends
  found-Ends fd then_do keeps =
      let (found, finds, r) = find_fd-Registered fdm.heap fd fdm.fds v.live in
      ((then_do found).0, (then_do found).1, ap (Option.map then_do) finds, keeps found r)

  delete_found-Keeps :
      (found : Option ℕ) → Registered fdm.heap found → Keeps fdm (delete_found found fdm).0
  delete_found-Keeps none r = same-Keeps
  delete_found-Keeps (some ptr) r = delete_handler-Keeps ptr r

  modify-Keeps :
      (epoll_ok : Bool) (f : ℕ → ℕ) (found : Option ℕ)
      → Registered fdm.heap found
      → Keeps fdm (modify_found epoll_ok f found fdm).0
  modify-Keeps epoll_ok f none r = same-Keeps
  modify-Keeps epoll_ok f (some ptr) r = modify_found-Keeps ptr r epoll_ok f

  del-Ends : (fd : ℤ) → Ends (fdm_del_internal fd fdm)
  unfolding fdm_del_internal Ends
  del-Ends (negsuc zero) = (fdm, true, refl, same-Keeps)
  del-Ends (negsuc (suc n)) =
      found-Ends (negsuc (suc n)) (λ found. delete_found found fdm) delete_found-Keeps
  del-Ends (pos n) = found-Ends (pos n) (λ found. delete_found found fdm) delete_found-Keeps

  perform_operation-Ends : (op : Operation) → Ends (perform_operation op fdm)
  unfolding perform_operation Ends fdm_event_add fdm_event_del
  perform_operation-Ends (add m e fd events callback) = (
    (fdm_add m e fd events callback fdm).0,
    (fdm_add m e fd events callback fdm).1,
    refl,
    add-Keeps m e fd events callback,
  )
  perform_operation-Ends (del fd) = del-Ends fd
  perform_operation-Ends (event_add e fd events) =
      found-Ends fd (λ found. modify_found e (λ old. bit_or old events) found fdm)
        (modify-Keeps e (λ old. bit_or old events))
  perform_operation-Ends (event_del e fd events) =
      found-Ends fd (λ found. modify_found e (λ old. old - bit_and old events) found fdm)
        (modify-Keeps e (λ old. old - bit_and old events))

Keeps-then : (a b c : Fdm) → Keeps a b → Keeps b c → Keeps a c
Keeps-then a b c k l = record {
  valid = l.valid;
  polling = l.polling ∙ k.polling;
  allocated = λ p q x. l.allocated (k.polling ∙ p) q (k.allocated p q x);
}

pub perform_all-Keeps :
    (ops : List Operation) (fdm : Fdm)
    → IsValid fdm
    → (fdm' : Fdm) × (perform_all ops fdm ≡ some fdm') × Keeps fdm fdm'
unfolding perform_all Ends Option.bind
perform_all-Keeps [] fdm v = (fdm, refl, same-Keeps fdm v)
perform_all-Keeps (op ∷ ops) fdm v =
    let (fdm', ok, ends, k) = perform_operation-Ends fdm v op in
    let (fdm'', ends', k') = perform_all-Keeps ops fdm' k.valid in
    (fdm'', rw ends ends', Keeps-then fdm fdm' fdm'' k k')
