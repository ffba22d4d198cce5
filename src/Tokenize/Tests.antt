-- ===== src/Tokenize/Tests.antt =====
-- Command lines, split.
use foot.Base.{ℕ, ◌≡◌, refl, List, [], ◌∷◌, some, none}
use foot.Tokenize.{tokenize_cmdline, tokenize_from, step, between, end_token, push_argv, finish}
use foot.Tokenize.Quoted.{quote_all, tokenize_cmdline-quoted, tokenize_cmdline-unterminated}

-- The arguments `a` and `b"`.
abbrev first : List ℕ
first = b'a' ∷ []

abbrev second : List ℕ
second = b'b' ∷ 34 ∷ []

tokenize_cmdline-quoted_example :
    tokenize_cmdline (quote_all first (second ∷ []) []) ≡ some (first ∷ second ∷ [])
tokenize_cmdline-quoted_example =
    tokenize_cmdline-quoted first (second ∷ []) (refl, (refl, tt)) ((refl, (refl, (refl, tt))), tt)

tokenize_cmdline-unterminated_example :
    tokenize_cmdline (quote_all first [] (32 ∷ 34 ∷ b'x' ∷ [])) ≡ none
tokenize_cmdline-unterminated_example =
    tokenize_cmdline-unterminated first [] (b'x' ∷ []) (refl, (refl, tt)) tt (refl, tt)

-- `foo %u b\ c` has the arguments `foo` and `b c`.
unquoted :
    tokenize_cmdline (b'f' ∷ b'o' ∷ b'o' ∷ 32 ∷ b'%' ∷ b'u' ∷ 32 ∷ b'b' ∷ 92 ∷ 32 ∷ b'c' ∷ [])
    ≡ some ((b'f' ∷ b'o' ∷ b'o' ∷ []) ∷ (b'b' ∷ 32 ∷ b'c' ∷ []) ∷ [])
unfolding tokenize_cmdline tokenize_from step between end_token push_argv finish
unquoted = refl
