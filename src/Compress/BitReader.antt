-- ===== src/Compress/BitReader.antt =====
-- The bit stream of src/compress/bitread.c: `struct br`, and the functions that read from it.
-- A result of -1 is `none`; `br_need`, which returns 0 or -1, is a test.
pub mod Stream
pub mod Refine
use micro_container.Prelude.{
  ℕ, zero, suc, ◌+◌, ◌-◌, ◌*◌, ◌/◌, ◌%◌, ◌^◌, Bool, true, false, Option, none, some, List, bit_and,
  bit_or, get_or, u64, u32, ltb, leb, ◌==◌, if◌then◌else◌,
}

-- `bytes` is what the pointer `data` leads to.
pub record Br : Type 0 where
  pub bytes : List ℕ
  pub len : ℕ
  pub pos : ℕ
  pub buf : ℕ
  pub bits : ℕ

-- `br->buf |= (uint64_t) br->data[br->pos++] << br->bits; br->bits += 8;`
unfoldable pub pull : Br → Br
pull br = record br {
  pos = br.pos + 1;
  buf = bit_or br.buf (u64 (get_or br.bytes br.pos 0 * 2 ^ br.bits));
  bits = br.bits + 8;
}

-- The loop of `br_need`, with the rounds left.
unfoldable pub need_loop : ℕ → Br → ℕ → Bool × Br
unfolding pull
need_loop zero br n = (leb n br.bits, br)
need_loop (suc fuel) br n =
    let more = need_loop fuel (pull br) n in
    if ltb br.bits n then (if leb br.len br.pos then (false, br) else more) else (true, br)

-- A round adds eight bits, so `n` rounds are enough to reach `n` bits.
unfoldable pub br_need : Br → ℕ → Bool × Br
unfolding need_loop
br_need br n = need_loop n br n

-- The conversion of a uint64_t to an int: the low 32 bits, where 2^31 and above stand for a negative
-- number. The callers take every negative number as a failure, so it is `none`.
abbrev pub int_of : ℕ → Option ℕ
int_of v = if ltb (u32 v) (2 ^ 31) then some (u32 v) else none

unfoldable pub br_peek : Br → ℕ → Option ℕ × Br
unfolding br_need
br_peek br n =
    let (enough, br') = br_need br n in
    (if enough then int_of (bit_and br'.buf (2 ^ n - 1)) else none, br')

unfoldable pub br_drop : Br → ℕ → Br
br_drop br n = record br { buf = br.buf / 2 ^ n; bits = br.bits - n }

unfoldable pub drop_read : Option ℕ → Br → ℕ → Option ℕ × Br
unfolding br_drop
drop_read none br n = (none, br)
drop_read (some v) br n = (some v, br_drop br n)

unfoldable pub br_bits : Br → ℕ → Option ℕ × Br
unfolding br_peek drop_read
br_bits br n = let (v, br') = br_peek br n in drop_read v br' n

unfoldable pub br_align : Br → Br
unfolding br_drop
br_align br = let skip = bit_and br.bits 7 in if ltb 0 skip then br_drop br skip else br

-- `data` and `len` of the call.
unfoldable pub br_init : List ℕ → ℕ → Br
br_init bytes len = record { bytes = bytes; len = len; pos = 0; buf = 0; bits = 0 }
