-- ===== src/Csi/Tabs/Stops.antt =====
-- The list of tab stops as a set of columns: what setting and clearing tab stops do to it, and which stop
-- a tab finds.
use foot.Base.{
  ℕ, suc, ◌≤◌, ◌<◌, ◌≡◌, ◌∙◌, refl, ap, fun_ext, ◌≢◌, ℕ_discrete, subst, arith, Bool, true, false,
  true≢false, Bool-cases, inl, inr, List, [], ◌∷◌, ◌++◌, ltb, lt→ltb, dec_lt, ◌==◌, ==_iff, ◌||◌,
  ◌&&◌, not,
}
use foot.Csi.Tabs.{
  is_behind, insert_before, tab_set, tab_clear, TabOperation, horizontal_tab_set, tabulation_clear,
  tabulation_clear_all, perform_tab, perform_tabs,
}

-- Whether a column is one of the tab stops.
unfoldable pub is_tab : ℕ → List ℕ → Bool
is_tab c [] = false
is_tab c (t ∷ ts) = (t == c) || is_tab c ts

-- The list is in strictly ascending order, from `bound` on.
unfoldable pub Above : ℕ → List ℕ → Type 0
Above bound [] = Unit
Above bound (t ∷ ts) = (bound ≤ t) × Above (suc t) ts

-- The second list has the first's tab stops and `col`, in order.
abbrev Adds : ℕ → ℕ → List ℕ → List ℕ → Type 0
Adds bound col ts ts' = Above bound ts' × ((c : ℕ) → is_tab c ts' ≡ ((col == c) || is_tab c ts))

pub outside : (bound c : ℕ) (ts : List ℕ) → Above bound ts → c < bound → is_tab c ts ≡ false
unfolding is_tab Above
outside bound c [] a h = refl
outside bound c (t ∷ ts) (p, q) h = rw (outside (suc t) c ts q (omega arith)) (ground arith)

behind_all :
    (bound col t : ℕ) (ts : List ℕ) → Above bound (t ∷ ts) → is_behind col (t ∷ ts) ≡ true → t < col
unfolding is_behind Above
behind_all bound col t [] a e = ground arith
behind_all bound col t (u ∷ ts) (p, q) e = omega (arith, behind_all (suc t) col u ts q e, q.0)

pub le→ltb : (a b : ℕ) → b ≤ a → ltb a b ≡ false
le→ltb a b h = ground arith

shuffle : (x y z : Bool) → (x || (y || z)) ≡ (y || (x || z))
shuffle true true z = refl
shuffle true false z = refl
shuffle false y z = refl

twice : (x y : Bool) → (x || y) ≡ (x || (x || y))
twice true y = refl
twice false y = refl

behind_tail :
    (col t : ℕ) (ts : List ℕ) → t < col → is_behind col (t ∷ ts) ≡ false → is_behind col ts ≡ false
unfolding is_behind
behind_tail col t [] h e = ground arith
behind_tail col t (u ∷ ts) h e = e

append-Adds :
    (bound col : ℕ) (ts : List ℕ)
    → Above bound ts
    → bound ≤ col
    → is_behind col ts ≡ true
    → Adds bound col ts (ts ++ col ∷ [])
unfolding is_behind is_tab Above
append-Adds bound col [] a h e = ((h, tt), λ c. refl)
append-Adds bound col (t ∷ []) (p, q) h e = ((p, (ground arith, tt)), λ c. ground arith)
append-Adds bound col (t ∷ u ∷ ts) (p, q) h e =
    let rest = append-Adds (suc t) col (u ∷ ts) q (behind_all bound col t (u ∷ ts) (p, q) e) e in
    ((p, rest.0), λ c. rw (rest.1 c) (shuffle (t == c) (col == c) (is_tab c (u ∷ ts))))

insert-Adds :
    (bound col : ℕ) (ts : List ℕ)
    → Above bound ts
    → bound ≤ col
    → is_behind col ts ≡ false
    → Adds bound col ts (insert_before col ts)
unfolding is_behind insert_before is_tab Above
insert-Adds bound col [] a h e = absurd (true≢false e)
insert-Adds bound col (t ∷ ts) (p, q) h e = elim (dec_lt t col) [
  | yes lt ↦ rw (lt→ltb t col lt) (
      let rest = insert-Adds (suc t) col ts q lt (behind_tail col t ts lt e) in
      ((p, rest.0), λ c. rw (rest.1 c) (shuffle (t == c) (col == c) (is_tab c ts))))
  | no ge ↦ elim (dec_lt col t) [
    | yes gt ↦ rw (le→ltb t col (omega arith), lt→ltb col t gt) ((h, (gt, q)), λ c. refl)
    | no le ↦
        rw (le→ltb t col (omega arith), le→ltb col t (omega arith))
          (
            (p, q),
            (let same : t ≡ col = omega arith in λ c. rw same (twice (col == c) (is_tab c ts))),
          )
  ]
]

tab_set-Adds : (col : ℕ) (ts : List ℕ) → Above 0 ts → Adds 0 col ts (tab_set col ts)
unfolding tab_set
tab_set-Adds col ts a = elim (Bool-cases (is_behind col ts)) [
  | inl e ↦ rw e (append-Adds 0 col ts a (omega arith) e)
  | inr e ↦ rw e (insert-Adds 0 col ts a (omega arith) e)
]

Above-weaken : (b b' : ℕ) (ts : List ℕ) → b ≤ b' → Above b' ts → Above b ts
unfolding Above
Above-weaken b b' [] h a = tt
Above-weaken b b' (t ∷ ts) h (p, q) = (omega arith, q)

-- The second list has the first's tab stops but for `col`, in order.
abbrev Removes : ℕ → ℕ → List ℕ → List ℕ → Type 0
Removes bound col ts ts' =
    Above bound ts' × ((c : ℕ) → is_tab c ts' ≡ (not (col == c) && is_tab c ts))

keep_other :
    (t c col : ℕ) (x : Bool)
    → t ≢ col
    → ((t == c) || (not (col == c) && x)) ≡ (not (col == c) && ((t == c) || x))
keep_other t c col x h = ground arith

drop_same : (t c : ℕ) (x : Bool) → (not (t == c) && x) ≡ (not (t == c) && ((t == c) || x))
drop_same t c x = ground arith

not_same : (t col : ℕ) → t ≢ col → (t == col) ≡ false
not_same t col h = ground arith

absent :
    (bound col c : ℕ) (ts : List ℕ)
    → Above bound ts
    → col < bound
    → is_tab c ts ≡ (not (col == c) && is_tab c ts)
absent bound col c ts a h = elim (dec_lt c bound) [
  | yes lt ↦ rw (outside bound c ts a lt) (ground arith)
  | no ge ↦ ground arith
]

tab_clear-Removes :
    (bound col : ℕ) (ts : List ℕ) → Above bound ts → Removes bound col ts (tab_clear col ts)
unfolding tab_clear is_tab Above
tab_clear-Removes bound col [] a = (tt, λ c. ground arith)
tab_clear-Removes bound col (t ∷ ts) (p, q) =
    let rest = tab_clear-Removes (suc t) col ts q in
    elim (ℕ_discrete t col) [
      | yes same ↦ rw ((==_iff t col).1 same) (
        Above-weaken bound (suc t) (tab_clear col ts) (omega arith) rest.0,
        λ c.
            rest.1 c
            ∙ subst
                (λ n. (not (n == c) && is_tab c ts) ≡ (not (n == c) && ((t == c) || is_tab c ts)))
                same (drop_same t c (is_tab c ts)),
      )
      | no differ ↦ elim (dec_lt col t) [
        | yes lt ↦
            rw (not_same t col differ, lt→ltb col t lt)
              ((p, q), λ c. absent t col c (t ∷ ts) (omega arith, q) lt)
        | no ge ↦
            rw (not_same t col differ, le→ltb col t (omega arith))
              ((p, rest.0), λ c. rw (rest.1 c) (keep_other t c col (is_tab c ts) differ))
      ]
    ]

-- The abstract view of the operations, on a set of columns.
unfoldable pub perform_set : TabOperation → (ℕ → Bool) → ℕ → Bool
perform_set (horizontal_tab_set col) tabs c = (col == c) || tabs c
perform_set (tabulation_clear col) tabs c = not (col == c) && tabs c
perform_set tabulation_clear_all tabs c = false

unfoldable pub perform_set_all : List TabOperation → (ℕ → Bool) → ℕ → Bool
unfolding perform_set
perform_set_all [] tabs c = tabs c
perform_set_all (o ∷ os) tabs c = perform_set_all os (perform_set o tabs) c

perform_tab-set :
    (o : TabOperation) (ts : List ℕ)
    → Above 0 ts
    → Above 0 (perform_tab o ts)
      × ((λ c. is_tab c (perform_tab o ts)) ≡ perform_set o (λ c. is_tab c ts))
unfolding perform_tab perform_set is_tab Above
perform_tab-set (horizontal_tab_set col) ts a =
    let adds = tab_set-Adds col ts a in (adds.0, fun_ext adds.1)
perform_tab-set (tabulation_clear col) ts a =
    let removes = tab_clear-Removes 0 col ts a in (removes.0, fun_ext removes.1)
perform_tab-set tabulation_clear_all ts a = (tt, refl)

-- Any sequence of settings and clearings of tab stops keeps the list in strictly ascending order, and a
-- column is a tab stop afterwards exactly if it is in the set of columns that the same operations make of
-- the set of the tab stops before.
pub perform_tabs-set :
    (os : List TabOperation) (ts : List ℕ)
    → Above 0 ts
    → Above 0 (perform_tabs os ts)
      × ((c : ℕ) → is_tab c (perform_tabs os ts) ≡ perform_set_all os (λ c. is_tab c ts) c)
unfolding perform_tabs perform_set_all
perform_tabs-set [] ts a = (a, λ c. refl)
perform_tabs-set (o ∷ os) ts a =
    let step = perform_tab-set o ts a in
    let rest = perform_tabs-set os (perform_tab o ts) step.0 in
    (rest.0, λ c. rest.1 c ∙ ap (λ tabs. perform_set_all os tabs c) step.1)
