-- ===== src/Fdm/Update.antt =====
-- What a change of one handler in memory leaves as it was.
use foot.Base.{
  ℕ, ◌<◌, ◌≡◌, refl, sym, ap, ◌∙◌, arith, Bool, true, false, true≢false, Bool-cases, inl, inr, List,
  [], ◌∷◌, Option, none, some, ◌==◌, ==_iff, length, get_or-set, All,
}
use foot.Base.Int.{ℤ}
use mathlib.Core.Option
use foot.Fdm.{FdHandler, Fdm, handler_at, same_fd, find_fd, update}
use foot.Fdm.Valid.{Marked, IsValid, allocated-below}

abbrev pub IsAllocated : List (Option FdHandler) → ℕ → Type 0
IsAllocated heap ptr = (h : FdHandler) × (handler_at heap ptr ≡ some h)

-- What an operation keeps.
pub record Keeps (fdm fdm' : Fdm) : Type 0 where
  pub valid : IsValid fdm'
  pub polling : fdm'.is_polling ≡ fdm.is_polling
  pub allocated :
      fdm.is_polling ≡ true → (ptr : ℕ) → IsAllocated fdm.heap ptr → IsAllocated fdm'.heap ptr

abbrev pub Registered : List (Option FdHandler) → Option ℕ → Type 0
Registered heap none = Unit
Registered heap (some ptr) = Marked false heap ptr

pub find_fd-Registered :
    (heap : List (Option FdHandler)) (fd : ℤ) (ptrs : List ℕ)
    → All (Marked false heap) ptrs
    → (found : Option ℕ) × (find_fd heap fd ptrs ≡ some found) × Registered heap found
unfolding find_fd Option.bind
find_fd-Registered heap fd [] a = (none, refl, tt)
find_fd-Registered heap fd (ptr ∷ ptrs) ((h, e, d), more) = elim (Bool-cases (same_fd h.fd fd)) [
  | inl s ↦ (some ptr, rw (e, s) refl, (h, e, d))
  | inr s ↦
      let (found, finds, v) = find_fd-Registered heap fd ptrs more in (found, rw (e, s) finds, v)
]

abbrev flag_of : Option FdHandler → Bool
flag_of none = false
flag_of (some h) = h.deleted

-- A deleted handler is not one that is registered.
pub differ :
    (heap : List (Option FdHandler)) (q ptr : ℕ)
    → Marked true heap q
    → Marked false heap ptr
    → (q == ptr) ≡ false
differ heap q ptr (h, e, d) (h', e', d') = elim (Bool-cases (q == ptr)) [
  | inl same ↦ absurd (
      true≢false
        (sym d ∙ ap flag_of (sym e ∙ ap (handler_at heap) ((==_iff q ptr).0 same) ∙ e') ∙ d'))
  | inr other ↦ other
]

pub All-both : (P Q : ℕ → Type 0) (xs : List ℕ) → All P xs → All Q xs → All (λ x. P x × Q x) xs
All-both P Q [] a b = tt
All-both P Q (x ∷ xs) a b = ((a.0, b.0), All-both P Q xs a.1 b.1)

module _ (heap : List (Option FdHandler)) (ptr : ℕ) (h : FdHandler)
    (e : handler_at heap ptr ≡ some h) where
  below : ptr < length heap
  below = allocated-below heap ptr h e

  pub update-here : (f : FdHandler → FdHandler) → handler_at (update f ptr heap) ptr ≡ some (f h)
  update-here f =
      let same : (ptr == ptr) ≡ true = ground arith in
      get_or-set heap ptr ptr (Option.map f (handler_at heap ptr)) none below ∙ rw (same, e) refl

  pub update-there :
      (f : FdHandler → FdHandler) (q : ℕ)
      → (q == ptr) ≡ false
      → handler_at (update f ptr heap) q ≡ handler_at heap q
  update-there f q ne =
      get_or-set heap ptr q (Option.map f (handler_at heap ptr)) none below ∙ rw ne refl

  pub update-Marked :
      (f : FdHandler → FdHandler) (b : Bool) (q : ℕ)
      → ((x : FdHandler) → (f x).deleted ≡ x.deleted)
      → Marked b heap q
      → Marked b (update f ptr heap) q
  update-Marked f b q keeps (h', e', d') = elim (Bool-cases (q == ptr)) [
    | inl same ↦
        let at = (==_iff q ptr).0 same in
        (
          f h,
          ap (handler_at (update f ptr heap)) at ∙ update-here f,
          keeps h ∙ ap flag_of (sym e ∙ ap (handler_at heap) (sym at) ∙ e') ∙ d',
        )
    | inr other ↦ (h', update-there f q other ∙ e', d')
  ]

  pub update-IsAllocated :
      (f : FdHandler → FdHandler) (q : ℕ) → IsAllocated heap q → IsAllocated (update f ptr heap) q
  update-IsAllocated f q (h', e') = elim (Bool-cases (q == ptr)) [
    | inl same ↦ (f h, ap (handler_at (update f ptr heap)) ((==_iff q ptr).0 same) ∙ update-here f)
    | inr other ↦ (h', update-there f q other ∙ e')
  ]
