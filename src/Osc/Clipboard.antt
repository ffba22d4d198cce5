-- ===== src/Osc/Clipboard.antt =====
-- The answer to OSC 52: `from_clipboard_cb` and `from_clipboard_done` of osc.c send the clipboard in
-- base64, as its text comes in, in pieces of any size.
pub mod Sent
pub mod Tests
use foot.Base.{
  ℕ, zero, suc, ◌+◌, ◌-◌, ◌*◌, ◌/◌, ◌%◌, Bool, true, false, List, [], ◌∷◌, ◌++◌, Option, none, some,
  ltb, ◌==◌, if◌then◌else◌, length, set, take, drop,
}
use mathlib.Core.Option
use foot.Base64.{base64_encode, base64_encode_final}

-- `struct clip_context`, and what has been pasted to the shell.
pub record ClipContext : Type 0 where
  pub buf : List ℕ
  pub idx : ℕ
  pub pasted : List ℕ

-- `ctx->buf[ctx->idx++] = c`.
abbrev pub store : ℕ → ClipContext → ClipContext
store c ctx = record ctx { buf = set ctx.buf ctx.idx c; idx = ctx.idx + 1 }

unfoldable pub store_all : List ℕ → ClipContext → ClipContext
store_all [] ctx = ctx
store_all (c ∷ cs) ctx = store_all cs (store c ctx)

-- `for (size_t i = ctx->idx; i < 3 && left > 0; i++, t++, left--)`: the context, and what is left.
unfoldable pub fill : ℕ → ClipContext → List ℕ → ClipContext × List ℕ
fill i ctx [] = (ctx, [])
fill i ctx (c ∷ t) =
    let rest = fill (i + 1) (store c ctx) t in if ltb i 3 then rest else (ctx, c ∷ t)

-- The bytes before the NUL.
unfoldable pub c_string : List ℕ → List ℕ
c_string [] = []
c_string (c ∷ cs) = let rest = c_string cs in if c == 0 then [] else c ∷ rest

abbrev pub is_empty : List ℕ → Bool
is_empty [] = true
is_empty (c ∷ cs) = false

module _ (malloc : ℕ → Bool) where
  -- Encodes bytes and pastes them. `none` where `xassert(chunk != NULL)` fails.
  unfoldable pub paste_chunk : List ℕ → ClipContext → Option ClipContext
  unfolding c_string
  paste_chunk bytes ctx =
      Option.map (λ chunk. record ctx { pasted = ctx.pasted ++ c_string chunk })
        (base64_encode malloc bytes)

  -- A buffer of three bytes is sent.
  unfoldable pub flush : ClipContext → Option ClipContext
  unfolding paste_chunk
  flush ctx =
      if ctx.idx == 3
      then Option.map (λ (ctx' : ClipContext). record ctx' { idx = 0 })
          (paste_chunk (take 3 ctx.buf) ctx)
      else some ctx

  -- What is left of the text: all but the last bytes are sent, those are buffered.
  unfoldable pub send_rest : List ℕ → List ℕ → ClipContext → Option ClipContext
  unfolding store_all paste_chunk
  send_rest text t ctx =
      let remaining = length t % 3 in
      paste_chunk (take (length t / 3 * 3) t) (store_all (drop (length text - remaining) text) ctx)

  unfoldable pub from_clipboard_cb : List ℕ → ClipContext → Option ClipContext
  unfolding fill flush send_rest
  from_clipboard_cb text ctx =
      let (ctx', t) = fill ctx.idx ctx text in
      if ltb 0 ctx.idx
      then Option.bind (flush ctx')
          (λ ctx''. if is_empty t then some ctx'' else send_rest text t ctx'')
      else if is_empty text
      then some ctx
      else send_rest text text ctx

  -- The receiver of the clipboard calls `from_clipboard_cb` for each piece.
  unfoldable pub from_clipboard : List (List ℕ) → ClipContext → Option ClipContext
  unfolding from_clipboard_cb
  from_clipboard [] ctx = some ctx
  from_clipboard (text ∷ texts) ctx =
      Option.bind (from_clipboard_cb text ctx) (from_clipboard texts)

-- The terminator is the one that the request had: BEL, or ESC and a backslash.
unfoldable pub from_clipboard_done : Bool → ClipContext → List ℕ
from_clipboard_done bel ctx =
    (ctx.pasted ++ (if ltb 0 ctx.idx then base64_encode_final (take ctx.idx ctx.buf) else []))
    ++ (if bel then 7 ∷ [] else 27 ∷ 92 ∷ [])
