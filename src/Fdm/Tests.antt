-- ===== src/Fdm/Tests.antt =====
-- Two descriptors, where the callback of the first one deletes both.
use foot.Base.{ℕ, ◌+◌, ◌≡◌, refl, Bool, true, false, [], ◌∷◌, some, List}
use foot.Base.Int.{ℤ, pos}
use mathlib.Core.Option
use foot.Fdm.{
  FdHandler, Fdm, Operation, del, poll_events, dispatch_events, perform_all, perform_operation,
  fdm_del_internal, find_fd, delete_handler, remove, free_all,
}
use foot.Fdm.Valid.{IsValid}
use foot.Fdm.Dispatch.{poll_events-safe}

abbrev on_fd : ℕ → FdHandler
on_fd n = record { fd = pos n; events = 1; callback = n; deleted = false }

abbrev two : Fdm
two = record {
  is_polling = false;
  fds = 0 ∷ 1 ∷ [];
  deferred_delete = [];
  heap = some (on_fd 3) ∷ some (on_fd 4) ∷ [];
}

two-IsValid : IsValid two
two-IsValid = record {
  live = ((on_fd 3, refl, refl), ((on_fd 4, refl, refl), tt));
  distinct = ((refl, tt), (tt, tt));
  gone = tt;
}

-- The state counts the calls.
abbrev delete_both : ℕ → ℤ → ℕ → ℕ → (List Operation × Bool) × ℕ
delete_both callback fd events calls = ((del (pos 3) ∷ del (pos 4) ∷ [], true), calls + 1)

poll_events-safe_example :
    (ret : Bool) × (fdm' : Fdm) × (calls : ℕ) × (poll_events delete_both
        ((0, 1) ∷ (1, 1) ∷ [])
        two
        0
      ≡ some (ret, (fdm', calls)))
    × IsValid fdm'
    × (fdm'.is_polling ≡ false)
    × (fdm'.deferred_delete ≡ [])
poll_events-safe_example =
    poll_events-safe delete_both ((0, 1) ∷ (1, 1) ∷ []) two 0 two-IsValid
      ((on_fd 3, refl, refl), ((on_fd 4, refl, refl), tt))

-- The second callback is not called.
called_once :
    Option.map (λ out. out.1.1) (poll_events delete_both ((0, 1) ∷ (1, 1) ∷ []) two 0) ≡ some 1
unfolding poll_events dispatch_events perform_all perform_operation fdm_del_internal find_fd
    delete_handler remove free_all Option.bind
called_once = refl
