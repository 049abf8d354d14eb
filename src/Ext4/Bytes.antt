-- ===== src/Ext4/Bytes.antt =====
-- Little-endian words in a byte array, `rd16` to `wr32` of src/ext4/util.c. A pointer is the array
-- with an offset.
pub mod RoundTrip
use micro_container.Prelude.{get_or, set, u8, ℕ, ◌+◌, ◌*◌, ◌/◌, ◌%◌, ◌^◌, bit_or, List}

unfoldable pub rd32 : List ℕ → ℕ → ℕ
rd32 p o =
    bit_or
      (bit_or (bit_or (get_or p o 0) (get_or p (o + 1) 0 * 2 ^ 8)) (get_or p (o + 2) 0 * 2 ^ 16))
      (get_or p (o + 3) 0 * 2 ^ 24)

unfoldable pub rd16 : List ℕ → ℕ → ℕ
rd16 p o = bit_or (get_or p o 0) (get_or p (o + 1) 0 * 2 ^ 8)

unfoldable pub wr32 : List ℕ → ℕ → ℕ → List ℕ
wr32 p o v =
    set (set (set (set p o (u8 v)) (o + 1) (u8 (v / 2 ^ 8))) (o + 2) (u8 (v / 2 ^ 16))) (o + 3)
      (u8 (v / 2 ^ 24))

unfoldable pub wr16 : List ℕ → ℕ → ℕ → List ℕ
wr16 p o v = set (set p o (u8 v)) (o + 1) (u8 (v / 2 ^ 8))

unfoldable pub wr32be : List ℕ → ℕ → ℕ → List ℕ
wr32be p o v =
    set (set (set (set p o (u8 (v / 2 ^ 24))) (o + 1) (u8 (v / 2 ^ 16))) (o + 2) (u8 (v / 2 ^ 8)))
      (o + 3) (u8 v)

-- `bm[blk / 8] |= (unsigned char)(1u << (blk % 8));`
unfoldable pub mark_bit : List ℕ → ℕ → List ℕ
mark_bit bm blk = set bm (blk / 8) (bit_or (get_or bm (blk / 8) 0) (u8 (2 ^ (blk % 8))))
