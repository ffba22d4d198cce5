-- ===== src/Osc/Clipboard/Tests.antt =====
-- Five bytes in three pieces, as osc.c sends them.
use foot.Base.{ℕ, ◌≡◌, refl, arith, Bool, true, List, [], ◌∷◌, ◌++◌, some, take}
use foot.Base64.{base64_decode}
use foot.Osc.Clipboard.{ClipContext, from_clipboard, from_clipboard_done}
use foot.Osc.Clipboard.Sent.{fresh_context, from_clipboard-decodes}

abbrev unlimited : ℕ → Bool
unlimited n = true

abbrev pieces : List (List ℕ)
pieces = (72 ∷ []) ∷ (101 ∷ 108 ∷ 108 ∷ []) ∷ (111 ∷ []) ∷ []

from_clipboard-decodes_example :
    (ctx : ClipContext) × (answer : List ℕ) × (ret : List ℕ) × (from_clipboard unlimited pieces
        fresh_context
      ≡ some ctx)
    × (from_clipboard_done true ctx ≡ answer ++ 7 ∷ [])
    × (base64_decode unlimited answer ≡ some (ret, 5))
    × (take 5 ret ≡ 72 ∷ 101 ∷ 108 ∷ 108 ∷ 111 ∷ [])
from_clipboard-decodes_example =
    from_clipboard-decodes unlimited (λ n. refl) true pieces
      (omega arith, (omega arith, (omega arith, (omega arith, (omega arith, tt)))))
