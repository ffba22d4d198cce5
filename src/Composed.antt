-- ===== src/Composed.antt =====
-- composed.c: the table of composed characters, a binary search tree of their keys.
pub mod Lookup
pub mod Tests
use foot.Base.{
  ℕ, zero, suc, ◌+◌, ◌-◌, ◌*◌, ◌/◌, ◌%◌, ◌^◌, Bool, true, false, List, [], ◌∷◌, Option, none, some,
  ltb, ◌==◌, ◌&&◌, if◌then◌else◌, bit_and, bit_or, bit_xor, length, get_or, max,
}

-- `struct composed` without its children.
pub record Composed : Type 0 where
  pub chars : List ℕ
  pub key : ℕ
  pub count : ℕ
  pub width : ℕ
  pub forced_width : ℕ

-- A node and its children, or NULL.
pub data Tree : Type 0 where
  leaf : Tree
  node : Tree → Composed → Tree → Tree

-- `CELL_COMB_CHARS_HI - CELL_COMB_CHARS_LO`, a mask of 30 bits.
abbrev pub key_mask : ℕ
key_mask = 0x3fffffff

-- On `uint32_t`: `bits` is 30.
unfoldable pub composed_key_from_key : ℕ → ℕ → ℕ
composed_key_from_key prev_key next_char =
    let rotated = bit_or (prev_key * 2 ^ 8 % 2 ^ 32) (prev_key / 2 ^ 22) in
    bit_and (bit_xor rotated next_char * 2654435761 % 2 ^ 32) key_mask

unfoldable pub keys_from : ℕ → List ℕ → ℕ
unfolding composed_key_from_key
keys_from key [] = key
keys_from key (c ∷ cs) = keys_from (composed_key_from_key key c) cs

unfoldable pub composed_key_from_chars : List ℕ → ℕ
unfolding keys_from
composed_key_from_chars [] = 0
composed_key_from_chars (c ∷ cs) = keys_from c cs

unfoldable pub composed_lookup : Tree → ℕ → Option Composed
composed_lookup leaf key = none
composed_lookup (node left c right) key =
    let below = composed_lookup left key in
    let above = composed_lookup right key in
    if key == c.key then some c else if ltb key c.key then below else above

-- The walk down, and the node put where it ends. The code asserts that the key is new.
unfoldable pub composed_insert : Composed → Tree → Tree
composed_insert new leaf = node leaf new leaf
composed_insert new (node left c right) =
    let below = composed_insert new left in
    let above = composed_insert new right in
    if ltb new.key c.key then node below c right else node left c above

unfoldable pub same_chars : List ℕ → List ℕ → Bool
same_chars cs [] = true
same_chars [] (p ∷ ps) = false
same_chars (c ∷ cs) (p ∷ ps) = c == p && same_chars cs ps

-- Whether a node is the composition of `prefix_text` and `wc`.
unfoldable pub matches : Composed → List ℕ → ℕ → ℕ → Bool
unfolding same_chars
matches cc prefix_text wc forced_width =
    cc.count == length prefix_text + 1
    && cc.forced_width == forced_width
    && get_or cc.chars (length prefix_text) 0 == wc
    && same_chars cc.chars prefix_text

unfoldable pub next_key : ℕ → ℕ
next_key key = bit_and (key + 1) key_mask

-- The node and the key at which the search ended. The code has no bound: it would not end where the
-- table is full of other compositions; that is `none`.
unfoldable pub lookup_from : ℕ → Tree → ℕ → List ℕ → ℕ → ℕ → Option (Option Composed × ℕ)
unfolding composed_lookup matches next_key
lookup_from zero root key prefix_text wc forced_width = none
lookup_from (suc fuel) root key prefix_text wc forced_width = elim (composed_lookup root key) [
  | none ↦ some (none, key)
  | some cc ↦ elim (matches cc prefix_text wc forced_width) [
    | true ↦ some (some cc, key)
    | false ↦ lookup_from fuel root (next_key key) prefix_text wc forced_width
  ]
]

-- There are as many keys as the fuel: from there on the search would meet them again.
unfoldable pub composed_lookup_without_collision :
    Tree → ℕ → List ℕ → ℕ → ℕ → Option (Option Composed × ℕ)
unfolding lookup_from
composed_lookup_without_collision root key prefix_text wc forced_width =
    lookup_from (2 ^ 30) root key prefix_text wc forced_width
