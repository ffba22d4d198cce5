-- ===== src/Tokenize/Quoted.antt =====
-- Arguments that are quoted come out of tokenize.c as they went in.
use foot.Base.{
  ℕ, ◌≡◌, refl, sym, ap, ◌∙◌, Bool, true, false, Bool-cases, inl, inr, List, [], ◌∷◌, ◌++◌, some,
  none, ◌==◌, ==_iff, if◌then◌else◌, All, append_assoc, append-nil,
}
use foot.Tokenize.{
  double_quote, backslash, space, in_token, at_delimiters, reverse_onto, push_argv, step, finish,
  end_token, between, tokenize_from, tokenize_cmdline,
}

-- A double quote is written with a backslash in front of it.
abbrev pub escape : List ℕ → List ℕ
escape [] = []
escape (c ∷ cs) = if c == double_quote then backslash ∷ c ∷ escape cs else c ∷ escape cs

-- An argument that does not begin with `%`, and holds no backslash.
abbrev pub IsArgument : List ℕ → Type 0
IsArgument [] = Unit
IsArgument (c ∷ arg) = ((c == b'%') ≡ false) × All (λ x. (x == backslash) ≡ false) (c ∷ arg)

-- The rest of a line, behind an argument: more of them, each in quotes, and what follows.
abbrev pub quote_more : List (List ℕ) → List ℕ → List ℕ
quote_more [] tail = tail
quote_more (arg ∷ args) tail =
    space ∷ double_quote ∷ (escape arg ++ double_quote ∷ quote_more args tail)

abbrev pub quote_all : List ℕ → List (List ℕ) → List ℕ → List ℕ
quote_all arg args tail = double_quote ∷ (escape arg ++ double_quote ∷ quote_more args tail)

-- The last byte of a token, if there is one, is no backslash.
NoBackslash : List ℕ → Type 0
NoBackslash [] = Unit
NoBackslash (c ∷ seen) = (c == backslash) ≡ false

no_seen : NoBackslash []
unfolding NoBackslash
no_seen = tt

step_quote :
    (c : ℕ) (seen : List ℕ) (argv : List (List ℕ))
    → (c == double_quote) ≡ true
    → step (in_token double_quote (backslash ∷ seen)) c argv
      ≡ (in_token double_quote (double_quote ∷ seen), argv)
unfolding step end_token
step_quote c seen argv e = rw e refl

step_other :
    (c : ℕ) (seen : List ℕ) (argv : List (List ℕ))
    → (c == double_quote) ≡ false
    → step (in_token double_quote seen) c argv ≡ (in_token double_quote (c ∷ seen), argv)
unfolding step
step_other c seen argv e = rw e refl

-- Through an escaped text.
escaped :
    (text seen cs : List ℕ) (argv : List (List ℕ))
    → NoBackslash seen
    → All (λ x. (x == backslash) ≡ false) text
    → tokenize_from (in_token double_quote seen) (escape text ++ double_quote ∷ cs) argv
      ≡ tokenize_from (at_delimiters double_quote) cs (push_argv (reverse_onto seen text) argv)
unfolding tokenize_from step end_token NoBackslash
escaped [] [] cs argv n a = refl
escaped [] (s ∷ seen) cs argv n a = rw n refl
escaped (c ∷ text) seen cs argv n a = elim (Bool-cases (c == double_quote)) [
  | inl e ↦ rw e (
      ap (λ p. tokenize_from p.0 (escape text ++ double_quote ∷ cs) p.1) (step_quote c seen argv e)
      ∙ escaped text (double_quote ∷ seen) cs argv refl a.1
      ∙ ap
          (λ q.
            tokenize_from (at_delimiters double_quote) cs
              (push_argv (reverse_onto seen (q ∷ text)) argv))
          (sym ((==_iff c double_quote).0 e)))
  | inr e ↦ rw e (
      ap (λ p. tokenize_from p.0 (escape text ++ double_quote ∷ cs) p.1) (step_other c seen argv e)
      ∙ escaped text (c ∷ seen) cs argv a.0 a.1)
]

push-argument :
    (arg : List ℕ) (argv : List (List ℕ)) → IsArgument arg → push_argv arg argv ≡ argv ++ arg ∷ []
unfolding push_argv
push-argument [] argv a = refl
push-argument (c ∷ arg) argv a = rw a.0 refl

no_backslash : (arg : List ℕ) → IsArgument arg → All (λ x. (x == backslash) ≡ false) arg
no_backslash [] a = tt
no_backslash (c ∷ arg) a = a.1

through_arguments :
    (args argv : List (List ℕ)) (tail : List ℕ)
    → All IsArgument args
    → tokenize_from (at_delimiters double_quote) (quote_more args tail) argv
      ≡ tokenize_from (at_delimiters double_quote) tail (argv ++ args)
unfolding tokenize_from step between
through_arguments [] argv tail a =
    ap (tokenize_from (at_delimiters double_quote) tail) (sym (append-nil argv))
through_arguments (arg ∷ args) argv tail a =
    escaped arg [] (quote_more args tail) argv no_seen (no_backslash arg a.0)
    ∙ ap (tokenize_from (at_delimiters double_quote) (quote_more args tail))
        (push-argument arg argv a.0)
    ∙ through_arguments args (argv ++ arg ∷ []) tail a.1
    ∙ ap (tokenize_from (at_delimiters double_quote) tail) (append_assoc argv (arg ∷ []) args)

quoted-through :
    (arg : List ℕ) (args : List (List ℕ)) (tail : List ℕ)
    → IsArgument arg
    → All IsArgument args
    → tokenize_cmdline (quote_all arg args tail)
      ≡ tokenize_from (at_delimiters double_quote) tail (arg ∷ args)
unfolding tokenize_cmdline
quoted-through arg args tail a b =
    escaped arg [] (quote_more args tail) [] no_seen (no_backslash arg a)
    ∙ ap (tokenize_from (at_delimiters double_quote) (quote_more args tail))
        (push-argument arg [] a)
    ∙ through_arguments args (arg ∷ []) tail b

-- Arguments that hold no backslash and do not begin with `%`, each between double quotes, with a backslash
-- in front of a double quote, and with a space between them, are split into exactly these arguments.
pub tokenize_cmdline-quoted :
    (arg : List ℕ) (args : List (List ℕ))
    → IsArgument arg
    → All IsArgument args
    → tokenize_cmdline (quote_all arg args []) ≡ some (arg ∷ args)
unfolding tokenize_from finish
tokenize_cmdline-quoted arg args a b = quoted-through arg args [] a b

-- In a text without a double quote, no token ends.
open_token :
    (text seen : List ℕ) (argv : List (List ℕ))
    → All (λ x. (x == double_quote) ≡ false) text
    → tokenize_from (in_token double_quote seen) text argv
      ≡ finish (in_token double_quote (reverse_onto text seen)) argv
unfolding tokenize_from step
open_token [] seen argv a = refl
open_token (c ∷ text) seen argv a = rw a.0 (open_token text (c ∷ seen) argv a.1)

abbrev pub is_empty : List ℕ → Bool
is_empty [] = true
is_empty (c ∷ cs) = false

open_end :
    (text seen : List ℕ) (c : ℕ) (argv : List (List ℕ))
    → finish (in_token double_quote (reverse_onto text (c ∷ seen))) argv ≡ none
unfolding finish
open_end [] seen c argv = refl
open_end (x ∷ text) seen c argv = open_end text (c ∷ seen) x argv

-- Where such arguments are followed by a space, a double quote and a text without any more of them, the
-- command line is refused, unless the text is empty: a double quote at the very end goes unnoticed, and
-- the arguments before it are the result.
pub tokenize_cmdline-unterminated :
    (arg : List ℕ) (args : List (List ℕ)) (text : List ℕ)
    → IsArgument arg
    → All IsArgument args
    → All (λ x. (x == double_quote) ≡ false) text
    → tokenize_cmdline (quote_all arg args (space ∷ double_quote ∷ text))
      ≡ (if is_empty text then some (arg ∷ args) else none)
unfolding tokenize_from step between finish
tokenize_cmdline-unterminated arg args [] a b t =
    quoted-through arg args (space ∷ double_quote ∷ []) a b
tokenize_cmdline-unterminated arg args (c ∷ text) a b t =
    quoted-through arg args (space ∷ double_quote ∷ c ∷ text) a b
    ∙ open_token (c ∷ text) [] (arg ∷ args) t
    ∙ open_end text [] c (arg ∷ args)
