-- ===== src/Csi/Tabs/Moves.antt =====
-- Where forward and backward tabs take the cursor.
use foot.Base.{
  ℕ, suc, ◌+◌, ◌-◌, min, ◌≤◌, ◌<◌, ◌≡◌, ◌∙◌, ◌⊎◌, refl, sym, subst, ℕ_discrete, arith, Bool, true,
  false, true≢false, Bool-cases, inl, inr, List, [], ◌∷◌, lt→ltb, dec_lt, dec_le, ◌==◌, ◌||◌,
}
use foot.Screen.State.{Screen}
use foot.Screen.Cursor.{term_cursor_col, term_cursor_left, term_cursor_right}
use foot.Csi.Tabs.{next_stop, previous_stop, tab_forward, tab_back}
use foot.Csi.Tabs.Stops.{is_tab, Above, outside, le→ltb}

-- `n` is the first tab stop behind `col`, or `last` and there is none.
abbrev pub IsNext : ℕ → ℕ → List ℕ → ℕ → Type 0
IsNext last col ts n =
    ((n ≡ last) ⊎ ((is_tab n ts ≡ true) × (col < n)))
    × ((c : ℕ) → is_tab c ts ≡ true → col < c → (n ≤ c) × (is_tab n ts ≡ true))

test_same : (a b : ℕ) (x : Bool) → ((a == b) || x) ≡ true → (a ≡ b) ⊎ (x ≡ true)
test_same a b x e = ground arith

is_tab-head : (c t : ℕ) (ts : List ℕ) → t ≡ c → ((t == c) || is_tab c ts) ≡ true
is_tab-head c t ts h = ground arith

is_tab-tail : (c t : ℕ) (ts : List ℕ) → is_tab c ts ≡ true → ((t == c) || is_tab c ts) ≡ true
is_tab-tail c t ts h = rw h (ground arith)

is_tab-Above : (bound c : ℕ) (ts : List ℕ) → Above bound ts → is_tab c ts ≡ true → bound ≤ c
is_tab-Above bound c ts a e = elim (dec_le bound c) [
  | yes le ↦ le
  | no lt ↦ absurd (true≢false (sym e ∙ outside bound c ts a (omega arith)))
]

module _ (last col t : ℕ) (ts : List ℕ) (q : Above (suc t) ts) where
  IsNext-here : col < t → IsNext last col (t ∷ ts) t
  unfolding is_tab
  IsNext-here lt = (
    inr (is_tab-head t t ts refl, lt),
    λ c e h. elim (test_same t c (is_tab c ts) e) [
      | inl same ↦ (omega arith, is_tab-head t t ts refl)
      | inr e' ↦ (omega (arith, is_tab-Above (suc t) c ts q e'), is_tab-head t t ts refl)
    ],
  )

  IsNext-later : (n : ℕ) → t ≤ col → IsNext last col ts n → IsNext last col (t ∷ ts) n
  unfolding is_tab
  IsNext-later n ge rest = (
    elim rest.0 [ inl e ↦ inl e | inr (e, h) ↦ inr (is_tab-tail n t ts e, h) ],
    λ c e h. elim (test_same t c (is_tab c ts) e) [
      | inl same ↦ absurd (omega arith)
      | inr e' ↦ let found = rest.1 c e' h in (found.0, is_tab-tail n t ts found.1)
    ],
  )

next_stop-IsNext :
    (bound last col : ℕ) (ts : List ℕ) → Above bound ts → IsNext last col ts (next_stop last col ts)
unfolding next_stop is_tab Above
next_stop-IsNext bound last col [] a = (inl refl, λ c e. absurd (true≢false (sym e)))
next_stop-IsNext bound last col (t ∷ ts) (p, q) = elim (dec_lt col t) [
  | yes lt ↦
      subst (IsNext last col (t ∷ ts)) (rw (lt→ltb col t lt) refl) (IsNext-here last col t ts q lt)
  | no ge ↦
      let n = next_stop last col ts in
      subst (IsNext last col (t ∷ ts)) (rw (le→ltb col t (omega arith)) refl)
        (IsNext-later last col t ts q n (omega arith) (next_stop-IsNext (suc t) last col ts q))
]

-- No tab stop is in front of `n`.
previous_stop-found :
    (found n : ℕ) (ts : List ℕ)
    → ((c : ℕ) → is_tab c ts ≡ true → n ≤ c)
    → previous_stop found n ts ≡ found
unfolding previous_stop is_tab
previous_stop-found found n [] far = refl
previous_stop-found found n (t ∷ ts) far =
    rw (le→ltb t n (far t (is_tab-head t t ts refl)))
      (previous_stop-found found n ts (λ c e. far c (is_tab-tail c t ts e)))

previous_stop-between :
    (found col n bound : ℕ) (ts : List ℕ)
    → Above bound ts
    → col < n
    → is_tab col ts ≡ true
    → ((c : ℕ) → is_tab c ts ≡ true → col < c → n ≤ c)
    → previous_stop found n ts ≡ col
unfolding previous_stop is_tab Above
previous_stop-between found col n bound [] a h e far = absurd (true≢false (sym e))
previous_stop-between found col n bound (t ∷ ts) (p, q) h e far =
    let far' : (c : ℕ) → is_tab c ts ≡ true → col < c → n ≤ c =
      λ c e' h'. far c (is_tab-tail c t ts e') h' in
    elim (test_same t col (is_tab col ts) e) [
      | inl same ↦ rw (lt→ltb t n (omega arith)) (
          previous_stop-found t n ts
            (λ c e'. far' c e' (omega (arith, is_tab-Above (suc t) c ts q e')))
          ∙ same)
      | inr e' ↦
          rw (lt→ltb t n (omega (arith, is_tab-Above (suc t) col ts q e')))
            (previous_stop-between t col n (suc t) ts q h e' far')
    ]

back_to :
    (col n : ℕ) (ts : List ℕ)
    → Above 0 ts
    → col < n
    → ((c : ℕ) → is_tab c ts ≡ true → col < c → n ≤ c)
    → (is_tab col ts ≡ true) ⊎ (col ≡ 0)
    → previous_stop 0 n ts ≡ col
back_to col n ts a h far start = elim (Bool-cases (is_tab col ts)) [
  | inl e ↦ previous_stop-between 0 col n 0 ts a h e far
  | inr e ↦ elim start [
    | inl e' ↦ absurd (true≢false (sym e' ∙ e))
    | inr first ↦
        previous_stop-found 0 n ts (λ c e'. elim (ℕ_discrete c col) [
          | yes same ↦ absurd (true≢false (sym e' ∙ subst (λ m. is_tab m ts ≡ false) (sym same) e))
          | no differ ↦ far c e' (omega arith)
        ])
        ∙ sym first
  ]
]

move :
    (col cols n : ℕ)
    → suc col < cols
    → col < n
    → col + min (cols - col - 1) (n - col) ≡ min (cols - 1) n
move col cols n h h' = omega arith

module _ {X T : Type 0} (ts : List ℕ) (s : Screen X T) (a : Above 0 ts)
    (inside : suc s.cursor.col < s.cols) where
  abbrev stop : ℕ
  stop = next_stop (s.cols - 1) s.cursor.col ts

  stop-beyond : s.cursor.col < stop
  stop-beyond = elim (next_stop-IsNext 0 (s.cols - 1) s.cursor.col ts a).0 [
    | inl e ↦ omega (arith, e)
    | inr (e, h) ↦ h
  ]

  forward-col : (tab_forward ts 1 s).cursor.col ≡ min (s.cols - 1) stop
  unfolding tab_forward term_cursor_right term_cursor_col
  forward-col =
      rw (lt→ltb s.cursor.col s.cols (omega arith))
        (move s.cursor.col s.cols stop inside stop-beyond)

  forward : ℕ
  forward = (tab_forward ts 1 s).cursor.col

  forward-beyond : s.cursor.col < forward
  unfolding forward
  forward-beyond = omega (arith, forward-col, stop-beyond)

  forward-far : (c : ℕ) → is_tab c ts ≡ true → s.cursor.col < c → forward ≤ c
  unfolding forward
  forward-far c e h =
      omega (arith, forward-col, ((next_stop-IsNext 0 (s.cols - 1) s.cursor.col ts a).1 c e h).0)

  back-col :
      (s' : Screen X T)
      → previous_stop 0 s'.cursor.col ts ≤ s'.cursor.col
      → (tab_back ts 1 s').cursor.col ≡ previous_stop 0 s'.cursor.col ts
  unfolding tab_back term_cursor_left term_cursor_col
  back-col s' h = omega arith

  -- With the tab stops in ascending order and the cursor in a column in front of the last one that is a
  -- tab stop or the first column, a forward tab followed by a backward tab takes the cursor back to this
  -- column, whether the forward tab found a tab stop, stopped at the last column, or was cut off there.
  pub tab_back-tab_forward :
      (is_tab s.cursor.col ts ≡ true) ⊎ (s.cursor.col ≡ 0)
      → (tab_back ts 1 (tab_forward ts 1 s)).cursor.col ≡ s.cursor.col
  unfolding forward
  tab_back-tab_forward start =
      let back = back_to s.cursor.col forward ts a forward-beyond forward-far start in
      back-col (tab_forward ts 1 s) (omega (arith, back, forward-beyond)) ∙ back
