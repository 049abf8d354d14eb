-- ===== src/Mem/Buf.antt =====
-- `buf_t`, its growth and the appends. `bytes` is the written part of the allocation of `cap` bytes.
pub mod Growth
use Prim.Native.Nat.{max}
use micro_container.Prelude.{
  leb, if◌then◌else◌, length, u64, ℕ, ◌+◌, ◌-◌, ◌^◌, bit_and, List, [], ◌∷◌, ◌++◌,
}

pub record Buf : Type 0 where
  pub cap : ℕ
  pub len : ℕ
  pub bytes : List ℕ

abbrev pub buf_init : Buf
buf_init = record { cap = 0; len = 0; bytes = [] }

-- The capacity after growth, with the sums of a 64-bit size_t:
-- `b->cap + MAX(MAX(b->cap, 64), b->len + need - b->cap)`, rounded up to a multiple of 64.
unfoldable pub new_cap : Buf → ℕ → ℕ
new_cap b need =
    let missing = u64 (u64 (b.len + need) + 2 ^ 64 - b.cap) in
    let grown = u64 (b.cap + max (max b.cap 64) missing) in
    bit_and (u64 (grown + 63)) (2 ^ 64 - 1 - 63)

-- Always returns 0.
unfoldable pub buf_grow : Buf → ℕ → Buf
unfolding new_cap
buf_grow b need = if leb (u64 (b.len + need)) b.cap then b else record b { cap = new_cap b need }

unfoldable pub buf_append : Buf → List ℕ → Buf
unfolding buf_grow
buf_append b bytes =
    let b' = buf_grow b (length bytes) in
    record b' { bytes = b'.bytes ++ bytes; len = u64 (b'.len + length bytes) }

unfoldable pub buf_append_c : Buf → ℕ → Buf
unfolding buf_grow
buf_append_c b c =
    let b' = buf_grow b 1 in record b' { bytes = b'.bytes ++ c ∷ []; len = u64 (b'.len + 1) }

-- The buffer given away, and what is left of it.
unfoldable pub buf_done : Buf → List ℕ × Buf
buf_done b = (b.bytes, buf_init)
