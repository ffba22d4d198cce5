-- ===== src/Fdm.antt =====
-- fdm.c: the handlers of file descriptors, and their dispatch. A pointer to a handler is an index of
-- `heap`, which holds `none` where the memory has been freed; `none` as a result means that freed memory
-- was read. What epoll and `malloc` answer is part of an operation.
pub mod Valid
pub mod Update
pub mod Kept
pub mod Dispatch
pub mod Tests
use foot.Base.{
  ℕ, zero, suc, ◌-◌, Bool, true, false, List, [], ◌∷◌, ◌++◌, Option, none, some, ◌==◌,
  if◌then◌else◌, bit_or, bit_and, length, get_or, set, map,
}
use foot.Base.Int.{ℤ, pos, negsuc}
use mathlib.Core.Option

-- `struct fd_handler`; `callback` stands for the function and its data.
pub record FdHandler : Type 0 where
  pub fd : ℤ
  pub events : ℕ
  pub callback : ℕ
  pub deleted : Bool

pub record Fdm : Type 0 where
  pub is_polling : Bool
  pub fds : List ℕ
  pub deferred_delete : List ℕ
  pub heap : List (Option FdHandler)

abbrev pub same_fd : ℤ → ℤ → Bool
same_fd (pos a) (pos b) = a == b
same_fd (negsuc a) (negsuc b) = a == b
same_fd _ _ = false

abbrev pub handler_at : List (Option FdHandler) → ℕ → Option FdHandler
handler_at heap ptr = get_or heap ptr none

abbrev pub push_back : List ℕ → ℕ → List ℕ
push_back list ptr = list ++ ptr ∷ []

-- `malloc`, and the handler put there.
abbrev pub allocate : FdHandler → List (Option FdHandler) → List (Option FdHandler)
allocate handler heap = heap ++ some handler ∷ []

unfoldable pub fdm_add : Bool → Bool → ℤ → ℕ → ℕ → Fdm → Fdm × Bool
fdm_add malloc_ok epoll_ok fd events callback fdm =
    let handler : FdHandler = record {
      fd = fd;
      events = events;
      callback = callback;
      deleted = false;
    } in
    let ptr = length fdm.heap in
    if malloc_ok
    then if epoll_ok
      then (record fdm { heap = allocate handler fdm.heap; fds = push_back fdm.fds ptr }, true)
      else (record fdm { heap = fdm.heap ++ none ∷ [] }, false)
    else (fdm, false)

-- The `tll_foreach` for a descriptor.
unfoldable pub find_fd : List (Option FdHandler) → ℤ → List ℕ → Option (Option ℕ)
find_fd heap fd [] = some none
find_fd heap fd (ptr ∷ ptrs) =
    let rest = find_fd heap fd ptrs in
    Option.bind (handler_at heap ptr)
      (λ handler. if same_fd handler.fd fd then some (some ptr) else rest)

-- `tll_remove`.
unfoldable pub remove : ℕ → List ℕ → List ℕ
remove ptr [] = []
remove ptr (p ∷ ps) = let rest = remove ptr ps in if p == ptr then ps else p ∷ rest

abbrev pub update : (FdHandler → FdHandler) → ℕ → List (Option FdHandler) → List (Option FdHandler)
update f ptr heap = set heap ptr (Option.map f (handler_at heap ptr))

abbrev pub mark_deleted : FdHandler → FdHandler
mark_deleted handler = record handler { deleted = true }

-- Freed at once, or after the events.
unfoldable pub delete_handler : ℕ → Fdm → Fdm
unfolding remove
delete_handler ptr fdm =
    if fdm.is_polling
    then record fdm {
      heap = update mark_deleted ptr fdm.heap;
      deferred_delete = push_back fdm.deferred_delete ptr;
      fds = remove ptr fdm.fds;
    }
    else record fdm { heap = set fdm.heap ptr none; fds = remove ptr fdm.fds }

abbrev pub delete_found : Option ℕ → Fdm → Fdm × Bool
delete_found none fdm = (fdm, false)
delete_found (some ptr) fdm = (delete_handler ptr fdm, true)

unfoldable pub fdm_del_internal : ℤ → Fdm → Option (Fdm × Bool)
unfolding find_fd delete_handler
fdm_del_internal (negsuc zero) fdm = some (fdm, true)
fdm_del_internal fd fdm = Option.map (λ found. delete_found found fdm) (find_fd fdm.heap fd fdm.fds)

abbrev pub same_events : (ℕ → ℕ) → Option FdHandler → Bool
same_events f none = false
same_events f (some handler) = f handler.events == handler.events

-- `event_modify`, for a function on the events.
abbrev pub modify_found : Bool → (ℕ → ℕ) → Option ℕ → Fdm → Fdm × Bool
modify_found epoll_ok f none fdm = (fdm, false)
modify_found epoll_ok f (some ptr) fdm =
    if same_events f (handler_at fdm.heap ptr)
    then (fdm, true)
    else if epoll_ok
    then (
      record fdm {
        heap = update (λ handler. record handler { events = f handler.events }) ptr fdm.heap;
      },
      true,
    )
    else (fdm, false)

unfoldable pub fdm_event_add : Bool → ℤ → ℕ → Fdm → Option (Fdm × Bool)
unfolding find_fd
fdm_event_add epoll_ok fd events fdm =
    Option.map (λ found. modify_found epoll_ok (λ old. bit_or old events) found fdm)
      (find_fd fdm.heap fd fdm.fds)

-- `events & ~mask`.
unfoldable pub fdm_event_del : Bool → ℤ → ℕ → Fdm → Option (Fdm × Bool)
unfolding find_fd
fdm_event_del epoll_ok fd events fdm =
    Option.map (λ found. modify_found epoll_ok (λ old. old - bit_and old events) found fdm)
      (find_fd fdm.heap fd fdm.fds)

-- What a callback may do with the handlers.
pub data Operation : Type 0 where
  add : Bool → Bool → ℤ → ℕ → ℕ → Operation
  del : ℤ → Operation
  event_add event_del : Bool → ℤ → ℕ → Operation

unfoldable pub perform_operation : Operation → Fdm → Option (Fdm × Bool)
unfolding fdm_add fdm_del_internal fdm_event_add fdm_event_del
perform_operation (add m e fd events callback) fdm = some (fdm_add m e fd events callback fdm)
perform_operation (del fd) fdm = fdm_del_internal fd fdm
perform_operation (event_add e fd events) fdm = fdm_event_add e fd events fdm
perform_operation (event_del e fd events) fdm = fdm_event_del e fd events fdm

unfoldable pub perform_all : List Operation → Fdm → Option Fdm
unfolding perform_operation
perform_all [] fdm = some fdm
perform_all (op ∷ ops) fdm =
    Option.bind (perform_operation op fdm) (λ (fdm', ok). perform_all ops fdm')

module _ {T : Type 0} (call : ℕ → ℤ → ℕ → T → (List Operation × Bool) × T) where
  -- The loop over the events that epoll reported, each with its handler.
  unfoldable pub dispatch_events : List (ℕ × ℕ) → Fdm → T → Option (Bool × (Fdm × T))
  unfolding perform_all
  dispatch_events [] fdm t = some (true, (fdm, t))
  dispatch_events ((ptr, events) ∷ more) fdm t =
      let skip = dispatch_events more fdm t in
      Option.bind (handler_at fdm.heap ptr) (λ handler.
        let ((ops, ok), t') = call handler.callback handler.fd events t in
        if handler.deleted
        then skip
        else Option.bind (perform_all ops fdm) (λ fdm'.
          let next = dispatch_events more fdm' t' in if ok then next else some (false, (fdm', t'))))

  unfoldable pub free_all : List ℕ → List (Option FdHandler) → List (Option FdHandler)
  free_all [] heap = heap
  free_all (ptr ∷ ptrs) heap = free_all ptrs (set heap ptr none)

  -- The part of `fdm_poll` behind `epoll_pwait`.
  unfoldable pub poll_events : List (ℕ × ℕ) → Fdm → T → Option (Bool × (Fdm × T))
  unfolding dispatch_events free_all
  poll_events events fdm t =
      Option.map
        (λ (ret, (fdm', t')). (
          ret,
          (
            record fdm' {
              is_polling = false;
              heap = free_all fdm'.deferred_delete fdm'.heap;
              deferred_delete = [];
            },
            t',
          ),
        ))
        (dispatch_events events (record fdm { is_polling = true }) t)
