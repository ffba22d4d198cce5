-- ===== src/Vt/Osc.antt =====
-- The OSC buffer: `osc_ensure_size` of osc.c, and `action_osc_start`, `action_osc_put` and the
-- buffer's part of `action_osc_end` of vt.c.
pub mod Growth
use foot.Base.{
  ℕ, zero, suc, ◌+◌, ◌*◌, ◌^◌, max, Bool, true, false, List, [], Option, none, some, leb, ltb,
  if◌then◌else◌, set, ◌==◌, length,
}
use foot.Vt.State.{OscBuffer}

-- `realloc` of the C library: the old bytes and the new size, to the new block.
abbrev pub Realloc : Type 0
Realloc = List ℕ → ℕ → Option (List ℕ)

-- `~(SIZE_MAX >> 1)`.
abbrev pub pow2_max : ℕ
pow2_max = 2 ^ 63

-- `while (new_size < required_size) new_size <<= 1;`
unfoldable pub grow : ℕ → ℕ → ℕ → ℕ
grow zero required size = size
grow (suc fuel) required size =
    let more = grow fuel required (size * 2) in if ltb size required then more else size

-- The shifts that lead from 4096 over `pow2_max`.
abbrev pub grow_fuel : ℕ
grow_fuel = 64

unfoldable pub action_osc_start : OscBuffer → OscBuffer
action_osc_start b = record b { idx = 0 }

-- `action_osc_end` behind the dispatch: a large buffer is freed.
unfoldable pub osc_release : OscBuffer → OscBuffer
osc_release b = if leb 4096 b.idx then record b { bytes = []; size = 0 } else b

-- `data[idx] = c`. A write outside the block, which C leaves undefined, is recorded in `overrun`.
unfoldable pub write_byte : ℕ → OscBuffer → OscBuffer
write_byte c b =
    if ltb b.idx (length b.bytes)
    then record b { bytes = set b.bytes b.idx c }
    else record b { overrun = true }

module _ (realloc : Realloc) where
  -- What `realloc` returned, put into the buffer.
  unfoldable pub install : OscBuffer → ℕ → Option (List ℕ) → Bool × OscBuffer
  install b n none = (false, b)
  install b n (some d) = (true, record b { bytes = d; size = n })

  unfoldable pub osc_ensure_size : OscBuffer → ℕ → Bool × OscBuffer
  unfolding install
  osc_ensure_size b required =
      if leb required b.size
      then (true, b)
      else if ltb pow2_max required
      then (false, b)
      else let new_size = grow grow_fuel required (max b.size 4096) in
        install b new_size (realloc b.bytes new_size)

  -- The byte is dropped where the buffer cannot grow.
  unfoldable pub action_osc_put : ℕ → OscBuffer → OscBuffer
  unfolding osc_ensure_size write_byte
  action_osc_put c b =
      let (fits, b') = osc_ensure_size b (b.idx + 1) in
      if fits then record (write_byte c b') { idx = b'.idx + 1 } else b'

  -- `action_osc_end` up to the dispatch: the terminator, and which one it was.
  unfoldable pub osc_terminate : ℕ → OscBuffer → Bool × OscBuffer
  unfolding osc_ensure_size write_byte
  osc_terminate c b =
      let (fits, b') = osc_ensure_size b (b.idx + 1) in
      if fits then (true, record (write_byte 0 b') { bel = c == 7 }) else (false, b')
