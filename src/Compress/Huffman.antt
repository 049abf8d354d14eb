-- ===== src/Compress/Huffman.antt =====
-- The canonical Huffman tables of src/compress/bitread.c: `struct huff`, `huff_build` from a list
-- of code lengths, and `huff_decode`. An array is a list of its length.
pub mod Counts
pub mod Place
pub mod Built
pub mod Rows
pub mod Decode
pub mod Complete
use micro_container.Prelude.{
  ltb, leb, if◌then◌else◌, get_or, set, take, replicate, ℕ, zero, suc, ◌+◌, ◌-◌, ◌*◌, bit_or, Bool,
  ◌&&◌, Option, none, some, List, [], ◌∷◌,
}
use micro_container.Compress.BitReader.{Br, br_bits}

pub record Huff : Type 0 where
  pub first_code : List ℕ
  pub first_idx : List ℕ
  pub count : List ℕ
  pub nsym : ℕ
  pub symbols : List ℕ

-- `l > 0 && l <= 15`: the lengths that stand for a code.
abbrev pub is_coded : ℕ → Bool
is_coded l = ltb 0 l && leb l 15

-- The loop of `huff_count`; the list is the rest of `lengths[0..nsym)`.
unfoldable pub huff_count : List ℕ → List ℕ → List ℕ
huff_count [] count = count
huff_count (l ∷ lengths) count =
    huff_count lengths (if is_coded l then set count l (get_or count l 0 + 1) else count)

-- The loop of `huff_codes`, with the rounds left.
unfoldable pub codes_loop : ℕ → ℕ → ℕ → List ℕ → List ℕ → List ℕ
codes_loop zero b code count first_code = first_code
codes_loop (suc left) b code count first_code =
    codes_loop left (b + 1) ((code + get_or count b 0) * 2) count (set first_code b code)

unfoldable pub huff_codes : List ℕ → List ℕ → List ℕ
unfolding codes_loop
huff_codes count first_code = codes_loop 15 1 0 count first_code

-- The first loop of `huff_place`, with the rounds left. `slot` gets the same values as `first_idx`.
unfoldable pub idx_loop : ℕ → ℕ → List ℕ → List ℕ → List ℕ
idx_loop zero b count first_idx = first_idx
idx_loop (suc left) b count first_idx =
    idx_loop left (b + 1) count
      (set first_idx b (get_or first_idx (b - 1) 0 + get_or count (b - 1) 0))

-- The second loop of `huff_place`, from symbol `i` on.
unfoldable pub symbols_loop : List ℕ → ℕ → List ℕ → List ℕ → List ℕ
symbols_loop [] i slot symbols = symbols
symbols_loop (l ∷ lengths) i slot symbols =
    symbols_loop lengths (i + 1) (if is_coded l then set slot l (get_or slot l 0 + 1) else slot)
      (if is_coded l then set symbols (get_or slot l 0) i else symbols)

unfoldable pub huff_place : Huff → List ℕ → Huff
unfolding idx_loop symbols_loop
huff_place h lengths =
    let idx = idx_loop 15 1 h.count (set h.first_idx 0 0) in
    record h { first_idx = idx; symbols = symbols_loop lengths 0 idx h.symbols }

-- After `memset(h, 0, sizeof(*h))`.
abbrev pub cleared : Huff
cleared = record {
  first_code = replicate 16 0;
  first_idx = replicate 16 0;
  count = replicate 16 0;
  nsym = 0;
  symbols = replicate 320 0;
}

unfoldable pub huff_build : List ℕ → ℕ → Huff
unfolding huff_count huff_codes huff_place
huff_build lengths nsym =
    let used = take nsym lengths in
    let count = huff_count used cleared.count in
    huff_place
      (record cleared {
        nsym = nsym;
        count = count;
        first_code = huff_codes count cleared.first_code;
      })
      used

-- The body of the loop of `huff_decode` behind its `br_bits`; `next` is the rest of the loop.
unfoldable pub decode_step : Option ℕ × Br → Huff → ℕ → ℕ → (Br → ℕ → Option ℕ × Br) → Option ℕ × Br
decode_step (none, br) h b code next = (none, br)
decode_step (some bit, br) h b code next =
    let code' = bit_or (code * 2) bit in
    if ltb code' (get_or h.first_code b 0)
    then next br code'
    else if ltb code' (get_or h.first_code b 0 + get_or h.count b 0)
    then (
      some (get_or h.symbols (get_or h.first_idx b 0 + (code' - get_or h.first_code b 0)) 0),
      br,
    )
    else next br code'

-- The loop of `huff_decode`, with the rounds left.
unfoldable pub decode_loop : ℕ → Br → Huff → ℕ → ℕ → Option ℕ × Br
unfolding decode_step
decode_loop zero br h b code = (none, br)
decode_loop (suc left) br h b code =
    decode_step (br_bits br 1) h b code (λ br' code'. decode_loop left br' h (b + 1) code')

unfoldable pub huff_decode : Br → Huff → Option ℕ × Br
unfolding decode_loop
huff_decode br h = decode_loop 15 br h 1 0
