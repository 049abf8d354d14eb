-- ===== src/Tests/Gzip.antt =====
-- The theorems on the gzip reader at concrete inputs.
use micro_container.Prelude.{
  get_or, take, All, u32, IsByte, ℕ, ◌+◌, ◌-◌, ◌≤◌, ◌<◌, ◌≡◌, refl, ◌⊎◌, Bool, true, false, none,
  some, List, [], ◌∷◌, arith,
}
use micro_container.Mem.Buf.{buf_append_c, Buf, buf_init, buf_grow}
use micro_container.Mem.Buf.Growth
use micro_container.Crc.{untouched, crc32_init, crc32_update}
use micro_container.Compress.BitReader.{Br, br_bits, br_align, br_init}
use micro_container.Compress.BitReader.Stream.{IsValid}
use micro_container.Compress.BitReader.Refine.{ReadBits, br_bits-ReadBits, br_init-value}
use micro_container.Compress.Huffman.{huff_build, huff_decode, Huff}
use micro_container.Compress.Huffman.Counts.{of_length, amount}
use micro_container.Compress.Huffman.Rows.{continued}
use micro_container.Compress.Huffman.Built.{IsBuilt, huff_build-IsBuilt}
use micro_container.Compress.Huffman.Decode.{Outcome, huff_decode-Outcome}
use micro_container.Compress.Huffman.Complete.{read_code, code_base, huff_decode_complete}
use micro_container.Compress.Inflate.Lengths.{len_loop, decode_len}
use micro_container.Compress.Inflate.Lengths.Fill.{Filled, decode_len-Filled}
use micro_container.Compress.Inflate.Symbols.{copy_dist, do_sym}
use micro_container.Compress.Inflate.Symbols.Copy.{IsCopy, copy_dist-IsCopy, byte}
use micro_container.Compress.Inflate.Block.{run_sym, run_loop, bits_left, inflate_block}
use micro_container.Compress.Inflate.Block.Ends.{TakesIf, run_loop_ends}
use micro_container.Compress.Inflate.Block.Progress.{inflate_block-TakesIf}
use micro_container.Compress.Gzip.{
  skip_gzip_header, read32le, after_block, blocks_loop, decompress_gzip,
}
use micro_container.Compress.Gzip.Checked.{blocks_loop_ends, decompress_gzip-checked}

-- The deflate stream of a stored block that holds "a".
abbrev stored_a : List ℕ
stored_a = 1 ∷ 1 ∷ 0 ∷ 0xFE ∷ 0xFF ∷ 0x61 ∷ []

stored_a-IsByte : All IsByte stored_a
stored_a-IsByte =
    (omega arith, (omega arith, (omega arith, (omega arith, (omega arith, (omega arith, tt))))))

abbrev reader : Br
reader = br_init stored_a 6

reader-IsValid : IsValid reader
reader-IsValid = (br_init-value stored_a 6 (omega arith) stored_a-IsByte).0

br_bits-ReadBits_example : ReadBits reader 3 (br_bits reader 3)
br_bits-ReadBits_example = br_bits-ReadBits reader 3 reader-IsValid (omega arith)

-- Three symbols with the code words 0, 10 and 11.
abbrev three_lengths : List ℕ
three_lengths = 1 ∷ 2 ∷ 2 ∷ []

huff_build-IsBuilt_example : IsBuilt (take 3 three_lengths) (huff_build three_lengths 3)
huff_build-IsBuilt_example = huff_build-IsBuilt three_lengths 3 (omega arith)

huff_decode-Outcome_example :
    Outcome (take 3 three_lengths) 1 reader (huff_decode reader (huff_build three_lengths 3))
    × ((counts codes idxs syms : List ℕ)
        → huff_decode reader (continued (huff_build three_lengths 3) counts codes idxs syms)
          ≡ huff_decode reader (huff_build three_lengths 3))
huff_decode-Outcome_example =
    huff_decode-Outcome three_lengths 3 reader (omega arith) reader-IsValid

abbrev three_codes : Huff
three_codes = huff_build three_lengths 3

-- The reader of a byte with two bits set, and what is left behind them.
abbrev ones : Br
ones = br_init (3 ∷ []) 1

abbrev ones_left : Br
ones_left = record { bytes = 3 ∷ []; len = 1; pos = 1; buf = 0; bits = 6 }

few : 1 < amount 2 (take 3 three_lengths)
unfolding amount
few = omega arith

ones-code : read_code 2 ones 0 ≡ (some (code_base 2 (take 3 three_lengths) + 1), ones_left)
unfolding read_code br_bits br_init code_base amount
ones-code = refl

huff_decode_complete_example :
    huff_decode ones (huff_build three_lengths 3)
    ≡ (some (get_or (of_length 2 0 (take 3 three_lengths)) 1 0), ones_left)
huff_decode_complete_example =
    huff_decode_complete three_lengths 3 2 1 ones ones_left (omega arith) (omega arith, omega arith)
      few ones-code

decode_len-Filled_example :
    Filled
      (huff_build three_lengths 3)
      reader
      0
      2
      (0 ∷ 0 ∷ 7 ∷ [])
      (decode_len reader (huff_build three_lengths 3) (0 ∷ 0 ∷ 7 ∷ []) 2)
    × ((more : ℕ)
        → len_loop (2 + more) (huff_build three_lengths 3) reader (0 ∷ 0 ∷ 7 ∷ []) 0 2
          ≡ decode_len reader (huff_build three_lengths 3) (0 ∷ 0 ∷ 7 ∷ []) 2)
decode_len-Filled_example =
    decode_len-Filled reader (huff_build three_lengths 3) (0 ∷ 0 ∷ 7 ∷ []) 2 (omega arith)

abbrev written : Buf
written = record { cap = 64; len = 2; bytes = 0x61 ∷ 0x62 ∷ [] }

written-IsValid : Growth.IsValid written
written-IsValid = record { counted = refl; inside = omega arith; bounded = omega arith }

abbrev copied : Bool × Buf
copied = copy_dist written 5 2

copy_dist-IsCopy_example :
    (3 ≤ 5)
      × (5 ≤ 258)
      × (1 ≤ 2)
      × (2 ≤ 2)
      × (copied.0 ≡ true)
      × IsCopy (buf_grow written 5) 5 2 copied.1
      × Growth.IsValid copied.1
      × ((i : ℕ) → i < 2 → byte copied.1 i ≡ byte written i)
    ⊎ ¬ ((3 ≤ 5) × (5 ≤ 258) × (1 ≤ 2) × (2 ≤ 2)) × (copied ≡ (false, written))
copy_dist-IsCopy_example = copy_dist-IsCopy written 5 2 written-IsValid (omega arith) (omega arith)

run_loop_ends_example :
    (run_loop (bits_left reader + 1) reader written three_codes three_codes none
      ≡ run_sym
          (huff_decode reader three_codes)
          written
          three_codes
          none
          (λ br' out'. run_loop (bits_left br' + 1) br' out' three_codes three_codes none))
    × ((sym : ℕ)
        → (huff_decode reader three_codes).0 ≡ some sym
        → bits_left (do_sym (huff_decode reader three_codes).1 written three_codes sym).1
          < bits_left reader)
run_loop_ends_example = run_loop_ends reader written three_codes three_codes none reader-IsValid

inflate_block-TakesIf_example :
    TakesIf 2 reader ((inflate_block reader buf_init).0, (inflate_block reader buf_init).1)
inflate_block-TakesIf_example = inflate_block-TakesIf reader buf_init reader-IsValid

blocks_loop_ends_example :
    (blocks_loop (bits_left reader + 1) reader buf_init
      ≡ after_block
          (inflate_block reader buf_init)
          (λ br' out'. blocks_loop (bits_left br' + 1) br' out'))
    × ((r : ℕ)
        → (inflate_block reader buf_init).0 ≡ some r
        → bits_left (inflate_block reader buf_init).1 < bits_left reader)
blocks_loop_ends_example = blocks_loop_ends reader buf_init reader-IsValid

-- The gzip file of "a" in one stored block.
abbrev file_a : List ℕ
file_a =
    0x1F ∷ 0x8B ∷ 8 ∷ 0 ∷ 0 ∷ 0 ∷ 0 ∷ 0 ∷ 0 ∷ 3 ∷ 1 ∷ 1 ∷ 0 ∷ 0xFE ∷ 0xFF ∷ 0x61 ∷ 0x43 ∷ 0xBE
    ∷ 0xB7 ∷ 0xE8 ∷ 1 ∷ 0 ∷ 0 ∷ 0 ∷ []

file_a_accepted : (decompress_gzip file_a 24 buf_init untouched).0 ≡ true
unfolding decompress_gzip crc32_update crc32_init br_init br_bits br_align buf_append_c
file_a_accepted = refl

decompress_gzip-checked_example :
    (off : ℕ) × (skip_gzip_header file_a 24 ≡ some off)
    × (off + 8 ≤ 24)
    × (crc32_update (crc32_init untouched) 0 (decompress_gzip file_a 24 buf_init untouched).1.bytes
        ≡ read32le file_a (24 - 8))
    × (read32le file_a (24 - 4) ≡ u32 (decompress_gzip file_a 24 buf_init untouched).1.len)
decompress_gzip-checked_example =
    decompress_gzip-checked file_a 24 buf_init untouched (omega arith) file_a_accepted
