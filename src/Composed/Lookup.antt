-- ===== src/Composed/Lookup.antt =====
-- The search tree of composed.c as a table.
use native.Mathlib.Nat.{mod-lt}
use foot.Base.{
  ℕ, zero, suc, ◌+◌, ◌-◌, ◌%◌, ◌^◌, ◌<◌, ◌≡◌, ◌⊎◌, refl, sym, ap, ◌∙◌, arith, List, Option, none,
  some, Option-cases, true, false, if◌then◌else◌, ◌==◌, Bool-cases, inl, inr,
}
use foot.Base.Mask.{bit_and-mask}
use foot.Composed.{
  Composed, Tree, leaf, node, composed_lookup, composed_insert, matches, next_key, lookup_from,
  composed_lookup_without_collision,
}

-- Inserting a node with a key that is not in the tree adds it under its key, and changes what is found
-- under no other.
pub composed_lookup-insert :
    (new : Composed) (t : Tree) (key : ℕ)
    → composed_lookup t new.key ≡ none
    → composed_lookup (composed_insert new t) key
      ≡ (if key == new.key then some new else composed_lookup t key)
unfolding composed_lookup composed_insert
composed_lookup-insert new leaf key fresh = ground arith
composed_lookup-insert new (node left c right) key fresh =
    ground (arith, composed_lookup-insert new left key, composed_lookup-insert new right key)

next : (key : ℕ) → next_key key ≡ (key + 1) % 2 ^ 30
unfolding next_key
next key = bit_and-mask 30 (key + 1)

here : (key : ℕ) → key < 2 ^ 30 → (key + 0) % 2 ^ 30 ≡ key
here key h = omega arith

further : (key j : ℕ) → ((key + 1) % 2 ^ 30 + j) % 2 ^ 30 ≡ (key + suc j) % 2 ^ 30
further key j = omega arith

reached :
    (key free_key : ℕ)
    → key < 2 ^ 30
    → free_key < 2 ^ 30
    → (key + (free_key + 2 ^ 30 - key) % 2 ^ 30) % 2 ^ 30 ≡ free_key
reached key free_key hk hf = omega arith

-- How the search ends: at a free key, or at the composition that was looked for.
pub Ended : Tree → List ℕ → ℕ → ℕ → Option Composed → ℕ → Type 0
Ended root prefix_text wc forced_width o key =
    (composed_lookup root key ≡ o)
    × ((o ≡ none)
        ⊎ ((c : Composed) × (o ≡ some c) × (matches c prefix_text wc forced_width ≡ true)))

module _ (root : Tree) (prefix_text : List ℕ) (wc forced_width : ℕ) where
  module _ (fuel key : ℕ) where
    at_free :
        composed_lookup root key ≡ none
        → lookup_from (suc fuel) root key prefix_text wc forced_width ≡ some (none, key)
    unfolding lookup_from
    at_free e = rw (lookup_from, e) refl

    at_match :
        (c : Composed)
        → composed_lookup root key ≡ some c
        → matches c prefix_text wc forced_width ≡ true
        → lookup_from (suc fuel) root key prefix_text wc forced_width ≡ some (some c, key)
    unfolding lookup_from
    at_match c e m = rw (lookup_from, e, m) refl

    at_collision :
        (c : Composed)
        → composed_lookup root key ≡ some c
        → matches c prefix_text wc forced_width ≡ false
        → lookup_from (suc fuel) root key prefix_text wc forced_width
          ≡ lookup_from fuel root (next_key key) prefix_text wc forced_width
    unfolding lookup_from
    at_collision c e m = rw (lookup_from, e, m) refl

  lookup_from-Ended :
      (fuel key j : ℕ)
      → key < 2 ^ 30
      → j < fuel
      → composed_lookup root ((key + j) % 2 ^ 30) ≡ none
      → (o : Option Composed) × (k : ℕ) × (lookup_from fuel root key prefix_text wc forced_width
          ≡ some (o, k))
        × Ended root prefix_text wc forced_width o k
  unfolding Ended
  lookup_from-Ended zero key j hk hj free = absurd (omega arith)
  lookup_from-Ended (suc fuel) key zero hk hj free =
      let e : composed_lookup root key ≡ none =
        ap (composed_lookup root) (sym (here key hk)) ∙ free in
      (none, key, at_free fuel key e, (e, inl refl))
  lookup_from-Ended (suc fuel) key (suc j) hk hj free =
      elim (Option-cases (composed_lookup root key)) [
        | inl e ↦ (none, key, at_free fuel key e, (e, inl refl))
        | inr (c, e) ↦ elim (Bool-cases (matches c prefix_text wc forced_width)) [
          | inl m ↦ (some c, key, at_match fuel key c e m, (e, inr (c, refl, m)))
          | inr m ↦
              let (o, k, answer, ended) =
                lookup_from-Ended fuel ((key + 1) % 2 ^ 30) j (mod-lt (key + 1) (omega arith))
                  (omega arith) (ap (composed_lookup root) (further key j) ∙ free) in
              (
                o,
                k,
                at_collision fuel key c e m
                    ∙ ap (λ n. lookup_from fuel root n prefix_text wc forced_width) (next key)
                    ∙ answer,
                ended,
              )
        ]
      ]

  -- If a key is free in the table, the search for a composition from a key of 30 bits ends: at a free
  -- key, which is where the composition may be inserted, or at a node that holds the composition.
  pub composed_lookup_without_collision-Ended :
      (key free_key : ℕ)
      → key < 2 ^ 30
      → free_key < 2 ^ 30
      → composed_lookup root free_key ≡ none
      → (o : Option Composed) × (k : ℕ) × (composed_lookup_without_collision root key prefix_text wc
            forced_width
          ≡ some (o, k))
        × Ended root prefix_text wc forced_width o k
  unfolding composed_lookup_without_collision
  composed_lookup_without_collision-Ended key free_key hk hf free =
      lookup_from-Ended (2 ^ 30) key ((free_key + 2 ^ 30 - key) % 2 ^ 30) hk
        (mod-lt (free_key + 2 ^ 30 - key) (omega arith))
        (ap (composed_lookup root) (reached key free_key hk hf) ∙ free)
