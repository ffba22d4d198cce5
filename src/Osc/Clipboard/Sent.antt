-- ===== src/Osc/Clipboard/Sent.antt =====
-- Whatever the pieces in which the clipboard comes in, what osc.c sends is the base64 text of the whole,
-- and base64.c decodes it.
use foot.Base.{
  ℕ, ◌+◌, ◌-◌, ◌*◌, ◌/◌, ◌%◌, ◌<◌, ◌≡◌, refl, sym, ap, subst, ◌∙◌, arith, Bool, true, false, List,
  [], ◌∷◌, ◌++◌, Option, some, ◌==◌, if◌then◌else◌, length, take, drop, ltb, append_assoc,
  append-nil, length-append, length-take, length-drop, take-append-drop, drop-append,
}
use mathlib.Core.Option
use foot.Base64.{
  lookup, base64_decode, base64_encode, base64_encode_final, encode_group, encode_groups,
}
use foot.Base64.RoundTrip.{Bytes, Decodes-all, base64_decode-Decodes, take-length}
use foot.Osc.Clipboard.{
  ClipContext, store_all, fill, c_string, paste_chunk, flush, send_rest, from_clipboard_cb,
  from_clipboard, from_clipboard_done, is_empty,
}

lookup-positive : (a : ℕ) → (lookup a == 0) ≡ false
unfolding lookup
lookup-positive a = ground arith

-- No character of an encoded text is a NUL.
c_string-encode : (d : List ℕ) → c_string (encode_groups d ++ 0 ∷ []) ≡ encode_groups d
unfolding c_string encode_groups encode_group
c_string-encode [] = refl
c_string-encode (x ∷ []) = refl
c_string-encode (x ∷ y ∷ []) = refl
c_string-encode (x ∷ y ∷ z ∷ d) =
    rw
      (
        lookup-positive _,
        lookup-positive _,
        lookup-positive _,
        lookup-positive _,
        c_string-encode d,
      )
      refl

encode_groups-append :
    (d d' : List ℕ)
    → length d % 3 ≡ 0
    → encode_groups (d ++ d') ≡ encode_groups d ++ encode_groups d'
unfolding encode_groups
encode_groups-append [] d' h = refl
encode_groups-append (x ∷ []) d' h = absurd (omega (arith, h))
encode_groups-append (x ∷ y ∷ []) d' h = absurd (omega (arith, h))
encode_groups-append (x ∷ y ∷ z ∷ d) d' h =
    rw (encode_groups-append d d' (omega (arith, h)))
      (sym (append_assoc (encode_group x y z) (encode_groups d) (encode_groups d')))

-- Fewer than three bytes are stored at the start of the buffer.
store_all-buffer :
    (left b p : List ℕ)
    → length left < 3
    → length b ≡ 3
    → (spare : List ℕ) × (length (left ++ spare) ≡ 3)
      × (store_all left (record { buf = b; idx = 0; pasted = p })
          ≡ record { buf = left ++ spare; idx = length left; pasted = p })
unfolding store_all
store_all-buffer [] b p h e = (b, e, refl)
store_all-buffer (x ∷ []) (b0 ∷ b) p h e = (b, omega (arith, e), refl)
store_all-buffer (x ∷ y ∷ []) (b0 ∷ b1 ∷ b) p h e = (b, omega (arith, e), refl)
store_all-buffer (x ∷ y ∷ z ∷ l) b p h e = absurd (omega arith)
store_all-buffer (x ∷ []) [] p h e = absurd (omega (arith, e))
store_all-buffer (x ∷ y ∷ []) [] p h e = absurd (omega (arith, e))
store_all-buffer (x ∷ y ∷ []) (b0 ∷ []) p h e = absurd (omega (arith, e))

-- The context after `sent` bytes: whole groups are pasted, and the rest is in the buffer.
pub record IsSent (sent : List ℕ) (ctx : ClipContext) : Type 0 where
  pub groups : List ℕ
  pub left : List ℕ
  pub spare : List ℕ
  pub whole : sent ≡ groups ++ left
  pub triples : length groups % 3 ≡ 0
  pub sized : length (left ++ spare) ≡ 3
  pub short : length left < 3
  pub state : ctx ≡ record { buf = left ++ spare; idx = length left; pasted = encode_groups groups }

abbrev pub concat : List (List ℕ) → List ℕ
concat [] = []
concat (text ∷ texts) = text ++ concat texts

module _ (malloc : ℕ → Bool) (served : (n : ℕ) → malloc n ≡ true) where
  paste_chunk-encode :
      (bytes : List ℕ) (ctx : ClipContext)
      → length bytes % 3 ≡ 0
      → paste_chunk malloc bytes ctx
        ≡ some (record ctx { pasted = ctx.pasted ++ encode_groups bytes })
  unfolding paste_chunk base64_encode
  paste_chunk-encode bytes ctx h =
      let triples : (length bytes % 3 == 0) ≡ true = ground (arith, h) in
      rw (triples, served (length bytes / 3 * 4 + 1), c_string-encode bytes) refl

  send_rest-IsSent :
      (pre t d b : List ℕ)
      → length d % 3 ≡ 0
      → length b ≡ 3
      → (ctx : ClipContext) × (send_rest malloc
            (pre ++ t)
            t
            (record { buf = b; idx = 0; pasted = encode_groups d })
          ≡ some ctx)
        × IsSent (d ++ t) ctx
  unfolding send_rest
  send_rest-IsSent pre t d b h e =
      let (spare, sized, stored) =
        store_all-buffer (drop m t) b (encode_groups d) (omega (arith, length-drop m t)) e in
      (
        record {
          buf = drop m t ++ spare;
          idx = length (drop m t);
          pasted = encode_groups (d ++ take m t);
        },
        ap
              (λ x.
                paste_chunk malloc (take m t)
                  (store_all x (record { buf = b; idx = 0; pasted = encode_groups d })))
              dropped
            ∙ ap (paste_chunk malloc (take m t)) stored
            ∙ paste_chunk-encode (take m t)
                (record {
                  buf = drop m t ++ spare;
                  idx = length (drop m t);
                  pasted = encode_groups d;
                })
                (omega (arith, length-take m t))
            ∙ ap
                (λ x.
                  some (record { buf = drop m t ++ spare; idx = length (drop m t); pasted = x }))
                (sym (encode_groups-append d (take m t) h)),
        record {
          groups = d ++ take m t;
          left = drop m t;
          spare = spare;
          whole =
              ap (λ x. d ++ x) (sym (take-append-drop m t))
              ∙ sym (append_assoc d (take m t) (drop m t));
          triples = omega (arith, h, length-append d (take m t), length-take m t);
          sized = sized;
          short = omega (arith, length-drop m t);
          state = refl;
        },
      )
    where
      m : ℕ
      m = length t / 3 * 3

      dropped : drop (length (pre ++ t) - length t % 3) (pre ++ t) ≡ drop m t
      dropped =
          ap (λ k. drop k (pre ++ t))
            (let e : length (pre ++ t) - length t % 3 ≡ length pre + m =
                omega (arith, length-append pre t) in
              e)
          ∙ drop-append pre t m

  -- The context in which an operation ends.
  Ends : List ℕ → Option ClipContext → Type 0
  Ends sent out = (ctx : ClipContext) × (out ≡ some ctx) × IsSent sent ctx

  context : List ℕ → ℕ → List ℕ → ClipContext
  context b k d = record { buf = b; idx = k; pasted = encode_groups d }

  -- A context that has only buffered.
  buffered-IsSent :
      (d left spare : List ℕ)
      → length d % 3 ≡ 0
      → length (left ++ spare) ≡ 3
      → length left < 3
      → IsSent (d ++ left) (context (left ++ spare) (length left) d)
  unfolding context
  buffered-IsSent d left spare h e l = record {
    groups = d;
    left = left;
    spare = spare;
    whole = refl;
    triples = h;
    sized = e;
    short = l;
    state = refl;
  }

  flush-context :
      (d : List ℕ) (x y z : ℕ)
      → length d % 3 ≡ 0
      → flush malloc (context (x ∷ y ∷ z ∷ []) 3 d)
        ≡ some (context (x ∷ y ∷ z ∷ []) 0 (d ++ x ∷ y ∷ z ∷ []))
  unfolding flush context
  flush-context d x y z h =
      ap (Option.map (λ (ctx : ClipContext). record ctx { idx = 0 }))
        (paste_chunk-encode (x ∷ y ∷ z ∷ []) (context (x ∷ y ∷ z ∷ []) 3 d) refl)
      ∙ ap (λ p. some (record { buf = x ∷ y ∷ z ∷ []; idx = 0; pasted = p }))
          (sym (encode_groups-append d (x ∷ y ∷ z ∷ []) h))

  -- Behind a full buffer.
  flush-Ends :
      (d : List ℕ) (x y z : ℕ) (pre t : List ℕ)
      → length d % 3 ≡ 0
      → Ends (d ++ x ∷ y ∷ z ∷ t) (
          Option.bind
            (flush malloc (context (x ∷ y ∷ z ∷ []) 3 d))
            (λ ctx. if is_empty t then some ctx else send_rest malloc (pre ++ t) t ctx))
  unfolding Ends context Option.bind
  flush-Ends d x y z pre [] h = (
    context (x ∷ y ∷ z ∷ []) 0 (d ++ x ∷ y ∷ z ∷ []),
    rw (flush-context d x y z h) refl,
    record {
      groups = d ++ x ∷ y ∷ z ∷ [];
      left = [];
      spare = x ∷ y ∷ z ∷ [];
      whole = sym (append-nil (d ++ x ∷ y ∷ z ∷ []));
      triples = omega (arith, h, length-append d (x ∷ y ∷ z ∷ []));
      sized = refl;
      short = omega arith;
      state = refl;
    },
  )
  flush-Ends d x y z pre (c ∷ t) h =
      let (ctx, sends, sent) =
        send_rest-IsSent pre (c ∷ t) (d ++ x ∷ y ∷ z ∷ []) (x ∷ y ∷ z ∷ [])
          (omega (arith, h, length-append d (x ∷ y ∷ z ∷ []))) refl in
      (
        ctx,
        rw (flush-context d x y z h) sends,
        subst (λ s. IsSent s ctx) (append_assoc d (x ∷ y ∷ z ∷ []) (c ∷ t)) sent,
      )

  fill-full : (ctx : ClipContext) (t : List ℕ) → fill 3 ctx t ≡ (ctx, t)
  unfolding fill
  fill-full ctx [] = refl
  fill-full ctx (c ∷ t) = refl

  from_clipboard_cb-Ends :
      (d left spare text : List ℕ)
      → length d % 3 ≡ 0
      → length (left ++ spare) ≡ 3
      → length left < 3
      → Ends
          (d ++ (left ++ text))
          (from_clipboard_cb malloc text (context (left ++ spare) (length left) d))
  unfolding Ends from_clipboard_cb fill context flush Option.bind
  from_clipboard_cb-Ends d [] spare [] h e l =
      (context spare 0 d, refl, buffered-IsSent d [] spare h e l)
  from_clipboard_cb-Ends d [] spare (c ∷ t) h e l = send_rest-IsSent [] (c ∷ t) d spare h e
  from_clipboard_cb-Ends d (x ∷ []) (y ∷ z ∷ []) [] h e l =
      (context (x ∷ y ∷ z ∷ []) 1 d, refl, buffered-IsSent d (x ∷ []) (y ∷ z ∷ []) h e l)
  from_clipboard_cb-Ends d (x ∷ []) (y ∷ z ∷ []) (c ∷ []) h e l = (
    context (x ∷ c ∷ z ∷ []) 2 d,
    refl,
    buffered-IsSent d (x ∷ c ∷ []) (z ∷ []) h refl (omega arith),
  )
  from_clipboard_cb-Ends d (x ∷ []) (y ∷ z ∷ []) (c ∷ c' ∷ t) h e l =
      rw (fill-full (record { buf = x ∷ c ∷ c' ∷ []; idx = 3; pasted = encode_groups d }) t)
        (flush-Ends d x c c' (c ∷ c' ∷ []) t h)
  from_clipboard_cb-Ends d (x ∷ y ∷ []) (z ∷ []) [] h e l =
      (context (x ∷ y ∷ z ∷ []) 2 d, refl, buffered-IsSent d (x ∷ y ∷ []) (z ∷ []) h e l)
  from_clipboard_cb-Ends d (x ∷ y ∷ []) (z ∷ []) (c ∷ t) h e l =
      rw (fill-full (record { buf = x ∷ y ∷ c ∷ []; idx = 3; pasted = encode_groups d }) t)
        (flush-Ends d x y c (c ∷ []) t h)
  from_clipboard_cb-Ends d (x ∷ y ∷ z ∷ left) spare text h e l = absurd (omega arith)
  from_clipboard_cb-Ends d (x ∷ []) [] text h e l = absurd (omega (arith, e))
  from_clipboard_cb-Ends d (x ∷ []) (y ∷ []) text h e l = absurd (omega (arith, e))
  from_clipboard_cb-Ends d (x ∷ []) (y ∷ z ∷ w ∷ spare) text h e l = absurd (omega (arith, e))
  from_clipboard_cb-Ends d (x ∷ y ∷ []) [] text h e l = absurd (omega (arith, e))
  from_clipboard_cb-Ends d (x ∷ y ∷ []) (z ∷ w ∷ spare) text h e l = absurd (omega (arith, e))

  from_clipboard-Ends :
      (texts : List (List ℕ)) (sent : List ℕ) (ctx : ClipContext)
      → IsSent sent ctx
      → Ends (sent ++ concat texts) (from_clipboard malloc texts ctx)
  unfolding Ends from_clipboard Option.bind context
  from_clipboard-Ends [] sent ctx v =
      (ctx, refl, subst (λ s. IsSent s ctx) (sym (append-nil sent)) v)
  from_clipboard-Ends (text ∷ texts) sent ctx v =
      let (ctx', runs, w) =
        from_clipboard_cb-Ends v.groups v.left v.spare text v.triples v.sized v.short in
      let (ctx'', ends, w') = from_clipboard-Ends texts (v.groups ++ (v.left ++ text)) ctx' w in
      (
        ctx'',
        ap (λ c. Option.bind (from_clipboard_cb malloc text c) (from_clipboard malloc texts))
              v.state
            ∙ ap (λ o. Option.bind o (from_clipboard malloc texts)) runs
            ∙ ends,
        subst (λ s. IsSent s ctx'')
            (ap (λ s. s ++ concat texts)
                (sym (append_assoc v.groups v.left text) ∙ ap (λ s. s ++ text) (sym v.whole))
              ∙ append_assoc sent text (concat texts))
            w',
      )

All-append : (xs ys : List ℕ) → Bytes (xs ++ ys) → Bytes xs × Bytes ys
All-append [] ys a = (tt, a)
All-append (x ∷ xs) ys a = let (b, c) = All-append xs ys a.1 in ((a.0, b), c)

-- Where nothing is buffered there is no ending.
ending :
    (left spare : List ℕ)
    → (if ltb 0 (length left) then base64_encode_final (take (length left) (left ++ spare)) else [])
      ≡ base64_encode_final left
unfolding base64_encode_final
ending [] spare = refl
ending (x ∷ left) spare =
    let some_left : ltb 0 (length (x ∷ left)) ≡ true = ground arith in
    rw some_left (ap base64_encode_final (take-length (x ∷ left) spare))

abbrev pub terminator : Bool → List ℕ
terminator bel = if bel then 7 ∷ [] else 27 ∷ 92 ∷ []

abbrev pub fresh_context : ClipContext
fresh_context = record { buf = 0 ∷ 0 ∷ 0 ∷ []; idx = 0; pasted = [] }

-- In whatever pieces the bytes of the clipboard come in, and with a `malloc` that serves every size, the
-- answer is sent: a text in base64, then the terminator. The text decodes, in one go, to exactly the
-- bytes of all the pieces.
pub from_clipboard-decodes :
    (malloc : ℕ → Bool) (served : (n : ℕ) → malloc n ≡ true) (bel : Bool) (texts : List (List ℕ))
    → Bytes (concat texts)
    → (ctx : ClipContext) × (answer : List ℕ) × (ret : List ℕ) × (from_clipboard malloc texts
          fresh_context
        ≡ some ctx)
      × (from_clipboard_done bel ctx ≡ answer ++ terminator bel)
      × (base64_decode malloc answer ≡ some (ret, length (concat texts)))
      × (take (length (concat texts)) ret ≡ concat texts)
unfolding encode_groups Ends from_clipboard_done
from_clipboard-decodes malloc served bel texts bytes =
    let (ctx, ends, sent) = from_clipboard-Ends malloc served texts [] fresh_context start in
    let d = sent.groups in
    let r = sent.left in
    let (bd, br) = All-append d r (subst Bytes sent.whole bytes) in
    let v = Decodes-all d r sent.triples sent.short bd br in
    (
      ctx,
      encode_groups d ++ base64_encode_final r,
      (d ++ r ++ v.zeroes) ++ 0 ∷ [],
      ends,
      rw sent.state (ap (λ x. encode_groups d ++ x ++ terminator bel) (ending r sent.spare)),
      base64_decode-Decodes malloc _ (d ++ r) served v
          ∙ ap (λ x. some ((d ++ r ++ v.zeroes) ++ 0 ∷ [], length x)) (sym sent.whole),
      ap (λ x. take (length x) ((d ++ r ++ v.zeroes) ++ 0 ∷ [])) sent.whole
          ∙ rw (append_assoc (d ++ r) v.zeroes (0 ∷ [])) (take-length (d ++ r) (v.zeroes ++ 0 ∷ []))
          ∙ sym sent.whole,
    )
  where
    start : IsSent [] fresh_context
    start = record {
      groups = [];
      left = [];
      spare = 0 ∷ 0 ∷ 0 ∷ [];
      whole = refl;
      triples = refl;
      sized = refl;
      short = omega arith;
      state = refl;
    }
