-- ===== src/Compress/Gzip.antt =====
-- src/compress/decompress.c: a gzip file is a header, the deflate blocks and a trailer with the
-- checksum and the length. `p` is the list of the file's bytes; the offset that a function moves
-- is its result, `none` for -1.
pub mod Header
pub mod Checked
use micro_container.Prelude.{
  ltb, leb, ◌==◌, if◌then◌else◌, get_or, drop, u32, u64, ℕ, zero, suc, ◌+◌, ◌-◌, ◌*◌, ◌^◌, bit_and,
  bit_or, Bool, true, false, not, ◌&&◌, ◌||◌, Option, none, some, List, ◌>>=◌,
}
use micro_container.Crc.{Tables, crc32_init, crc32_update}
use micro_container.Mem.Buf.{Buf}
use micro_container.Compress.BitReader.{Br, br_init}
use micro_container.Compress.Inflate.Block.{inflate_block, bits_left}

unfoldable pub check_gzip_magic : List ℕ → ℕ → Bool
check_gzip_magic p in_len =
    if ltb in_len 18
    then false
    else if not (get_or p 0 0 == 0x1F) || not (get_or p 1 0 == 0x8B)
    then false
    else get_or p 2 0 == 8

unfoldable pub advance : ℕ → ℕ → ℕ → Option ℕ
advance o n in_len = if ltb in_len (u64 (o + n)) then none else some (u64 (o + n))

unfoldable pub skip_fextra : List ℕ → ℕ → ℕ → Option ℕ
unfolding advance
skip_fextra p in_len o =
    if ltb in_len (u64 (o + 2))
    then none
    else advance o (2 + bit_or (get_or p o 0) (get_or p (o + 1) 0 * 2 ^ 8)) in_len

-- The loop of `skip_string`; the offset never passes `in_len`, so `in_len` rounds are enough.
unfoldable pub string_end : ℕ → List ℕ → ℕ → ℕ → ℕ
string_end zero p in_len o = o
string_end (suc fuel) p in_len o =
    let further = string_end fuel p in_len (o + 1) in
    if ltb o in_len && not (get_or p o 0 == 0) then further else o

unfoldable pub skip_string : List ℕ → ℕ → ℕ → Option ℕ
unfolding string_end
skip_string p in_len o =
    let e = string_end in_len p in_len o in if leb in_len e then none else some (e + 1)

-- `(flg & mask) && skip(…)`.
unfoldable pub skip_if : Bool → Option ℕ → ℕ → Option ℕ
skip_if present skipped o = if present then skipped else some o

abbrev pub has_flag : ℕ → ℕ → Bool
has_flag flg mask = not (bit_and flg mask == 0)

unfoldable pub skip_gzip_tail : List ℕ → ℕ → ℕ → ℕ → Option ℕ
unfolding skip_if skip_string advance
skip_gzip_tail p in_len o flg = do
  o₁ ← skip_if (has_flag flg 0x08) (skip_string p in_len o) o
  o₂ ← skip_if (has_flag flg 0x10) (skip_string p in_len o₁) o₁
  skip_if (has_flag flg 0x02) (advance o₂ 2 in_len) o₂

unfoldable pub skip_gzip_flags : List ℕ → ℕ → ℕ → ℕ → Option ℕ
unfolding skip_fextra skip_gzip_tail
skip_gzip_flags p in_len o flg = do
  o₁ ← skip_if (has_flag flg 0x04) (skip_fextra p in_len o) o
  skip_gzip_tail p in_len o₁ flg

unfoldable pub skip_gzip_header : List ℕ → ℕ → Option ℕ
unfolding check_gzip_magic skip_gzip_flags
skip_gzip_header p in_len =
    if check_gzip_magic p in_len
    then (do o ← skip_gzip_flags p in_len 10 (get_or p 3 0); if leb in_len o then none else some o)
    else none

-- `v |= (uint32_t) p[i] << (i * 8)` for the four `i`.
unfoldable pub read32le : List ℕ → ℕ → ℕ
read32le p o =
    let at = λ (i : ℕ). u32 (get_or p (o + i) 0 * 2 ^ (i * 8)) in
    bit_or (bit_or (bit_or (bit_or 0 (at 0)) (at 1)) (at 2)) (at 3)

-- Whether the trailer fits the output, and the checksum's static tables afterwards.
unfoldable pub check_gzip_trailer : List ℕ → ℕ → ℕ → Buf → Tables → Bool × Tables
unfolding read32le
check_gzip_trailer p in_len data_end out tables =
    let expected_crc = read32le p data_end in
    let expected_len = read32le p (data_end + 4) in
    let tables' = crc32_init tables in
    let actual_crc = crc32_update tables' 0 out.bytes in
    if ltb in_len (data_end + 8)
    then (false, tables)
    else if not (actual_crc == expected_crc)
    then (false, tables')
    else (expected_len == u32 out.len, tables')

-- The loop over the blocks on fuel: whether it met the last block, and the output.
unfoldable pub after_block : Option ℕ × Br × Buf → (Br → Buf → Bool × Buf) → Bool × Buf
after_block (none, br, out) next = (false, out)
after_block (some zero, br, out) next = next br out
after_block (some (suc _), br, out) next = (true, out)

-- Each block takes bits off the stream, so its `bits_left` and one more are enough rounds.
unfoldable pub blocks_loop : ℕ → Br → Buf → Bool × Buf
unfolding after_block inflate_block
blocks_loop zero br out = (false, out)
blocks_loop (suc fuel) br out =
    after_block (inflate_block br out) (λ br' out'. blocks_loop fuel br' out')

unfoldable pub gzip_body : List ℕ → ℕ → ℕ → Buf → Tables → Bool × Buf × Tables
unfolding blocks_loop check_gzip_trailer
gzip_body p in_len off out tables =
    let br = br_init (drop off p) (in_len - off - 8) in
    let (ended, out') = blocks_loop (bits_left br + 1) br out in
    let (fits, tables') = check_gzip_trailer p in_len (in_len - 8) out' tables in
    if ltb in_len (u64 (off + 8))
    then (false, out, tables)
    else if ended
    then (fits, out', tables')
    else (false, out', tables)

unfoldable pub decompress_gzip : List ℕ → ℕ → Buf → Tables → Bool × Buf × Tables
unfolding skip_gzip_header gzip_body
decompress_gzip p in_len out tables = elim (skip_gzip_header p in_len) [
  | none ↦ (false, out, tables)
  | some off ↦ gzip_body p in_len off out tables
]
