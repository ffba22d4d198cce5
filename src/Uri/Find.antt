-- ===== src/Uri/Find.antt =====
-- Looking for a byte that a text holds only where it is expected.
use foot.Base.{
  ℕ, ◌+◌, ◌≡◌, refl, ap, ◌∙◌, arith, true, false, List, [], ◌∷◌, ◌++◌, none, some, ◌==◌, length,
  drop, All, drop-append,
}
use foot.Uri.{memchr}

abbrev pub Lacks : ℕ → List ℕ → Type 0
Lacks c = All (λ x. (x == c) ≡ false)

pub memchr-Lacks : (c : ℕ) (xs : List ℕ) → Lacks c xs → memchr c xs ≡ none
unfolding memchr
memchr-Lacks c [] a = refl
memchr-Lacks c (x ∷ xs) a = rw (a.0, memchr-Lacks c xs a.1) refl

pub memchr-found :
    (c : ℕ) (xs ys : List ℕ) → Lacks c xs → memchr c (xs ++ c ∷ ys) ≡ some (length xs)
unfolding memchr
memchr-found c [] ys a = let same : (c == c) ≡ true = ground arith in rw same refl
memchr-found c (x ∷ xs) ys a = rw (a.0, memchr-found c xs ys a.1) (ap some (omega arith))

pub Lacks-append : (c : ℕ) (xs ys : List ℕ) → Lacks c xs → Lacks c ys → Lacks c (xs ++ ys)
Lacks-append c [] ys a b = b
Lacks-append c (x ∷ xs) ys a b = (a.0, Lacks-append c xs ys a.1 b)

pub drop-found : (c : ℕ) (xs ys : List ℕ) → drop (length xs + 1) (xs ++ c ∷ ys) ≡ ys
drop-found c xs ys = drop-append xs (c ∷ ys) 1

pub drop-length : (xs ys : List ℕ) → drop (length xs) (xs ++ ys) ≡ ys
drop-length xs ys =
    ap (λ k. drop k (xs ++ ys)) (let e : length xs ≡ length xs + 0 = omega arith in e)
    ∙ drop-append xs ys 0
