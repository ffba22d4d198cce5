-- ===== src/Fdm/Valid.antt =====
-- The invariant of the handler lists: registered handlers are in memory and not deleted, those whose
-- deletion is deferred are in memory and deleted. Every operation keeps it and reads no freed memory.
use foot.Base.{
  ℕ, zero, suc, ◌<◌, ◌≡◌, inl, inr, refl, sym, ap, ◌∙◌, arith, subst, Bool, true, false, true≢false,
  Bool-cases, List, [], ◌∷◌, ◌++◌, Option, none, some, ◌==◌, ==_iff, length, set, get_or-set, All,
}
use foot.Fdm.{FdHandler, Fdm, handler_at, push_back, remove}

-- In memory, with the given mark.
abbrev pub Marked : Bool → List (Option FdHandler) → ℕ → Type 0
Marked b heap ptr = (h : FdHandler) × (handler_at heap ptr ≡ some h) × (h.deleted ≡ b)

abbrev pub Distinct : List ℕ → Type 0
Distinct [] = Unit
Distinct (p ∷ ps) = All (λ q. (q == p) ≡ false) ps × Distinct ps

pub record IsValid (fdm : Fdm) : Type 0 where
  pub live : All (Marked false fdm.heap) fdm.fds
  pub distinct : Distinct fdm.fds
  pub gone : All (Marked true fdm.heap) fdm.deferred_delete

pub All-map : (P Q : ℕ → Type 0) (xs : List ℕ) → ((x : ℕ) → P x → Q x) → All P xs → All Q xs
All-map P Q [] f a = tt
All-map P Q (x ∷ xs) f a = (f x a.0, All-map P Q xs f a.1)

pub All-push : (P : ℕ → Type 0) (xs : List ℕ) (x : ℕ) → All P xs → P x → All P (push_back xs x)
All-push P [] x a p = (p, tt)
All-push P (y ∷ ys) x a p = (a.0, All-push P ys x a.1 p)

abbrev pub is_some : Option FdHandler → Bool
is_some none = false
is_some (some h) = true

-- Allocated pointers lie in the heap.
pub allocated-below :
    (heap : List (Option FdHandler)) (ptr : ℕ) (h : FdHandler)
    → handler_at heap ptr ≡ some h
    → ptr < length heap
allocated-below [] ptr h e = absurd (true≢false (sym (ap is_some e)))
allocated-below (x ∷ heap) zero h e = omega arith
allocated-below (x ∷ heap) (suc ptr) h e = omega (arith, allocated-below heap ptr h e)

-- A heap that grows keeps what it holds.
pub handler_at-grown :
    (heap more : List (Option FdHandler)) (ptr : ℕ)
    → ptr < length heap
    → handler_at (heap ++ more) ptr ≡ handler_at heap ptr
handler_at-grown [] more ptr h = absurd (omega arith)
handler_at-grown (x ∷ heap) more zero h = refl
handler_at-grown (x ∷ heap) more (suc ptr) h = handler_at-grown heap more ptr (omega arith)

pub handler_at-new :
    (heap : List (Option FdHandler)) (x : Option FdHandler)
    → handler_at (heap ++ x ∷ []) (length heap) ≡ x
handler_at-new [] x = refl
handler_at-new (y ∷ heap) x = handler_at-new heap x

pub Marked-grown :
    (b : Bool) (heap more : List (Option FdHandler)) (ptr : ℕ)
    → Marked b heap ptr
    → Marked b (heap ++ more) ptr
Marked-grown b heap more ptr (h, e, d) =
    (h, handler_at-grown heap more ptr (allocated-below heap ptr h e) ∙ e, d)

pub Marked-set :
    (b : Bool) (heap : List (Option FdHandler)) (ptr : ℕ) (x : Option FdHandler) (q : ℕ)
    → ptr < length heap
    → (q == ptr) ≡ false
    → Marked b heap q
    → Marked b (set heap ptr x) q
Marked-set b heap ptr x q h ne (h', e, d) = (h', get_or-set heap ptr q x none h ∙ rw ne e, d)

pub remove-All : (P : ℕ → Type 0) (ptr : ℕ) (ps : List ℕ) → All P ps → All P (remove ptr ps)
unfolding remove
remove-All P ptr [] a = tt
remove-All P ptr (p ∷ ps) a = elim (Bool-cases (p == ptr)) [
  | inl e ↦ rw e a.1
  | inr e ↦ rw e (a.0, remove-All P ptr ps a.1)
]

pub remove-Distinct :
    (ptr : ℕ) (ps : List ℕ)
    → Distinct ps
    → Distinct (remove ptr ps) × All (λ q. (q == ptr) ≡ false) (remove ptr ps)
unfolding remove
remove-Distinct ptr [] d = (tt, tt)
remove-Distinct ptr (p ∷ ps) d = elim (Bool-cases (p == ptr)) [
  | inl e ↦
      rw e (d.1, let at = (==_iff p ptr).0 e in subst (λ r. All (λ q. (q == r) ≡ false) ps) at d.0)
  | inr e ↦
      let (rest, lacks) = remove-Distinct ptr ps d.1 in
      rw e ((remove-All (λ q. (q == p) ≡ false) ptr ps d.0, rest), (e, lacks))
]
