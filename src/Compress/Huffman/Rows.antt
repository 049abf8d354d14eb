-- ===== src/Compress/Huffman/Rows.antt =====
-- `huff_decode`, and the memory that stands behind the arrays of its tables.
use micro_container.Prelude.{
  ltb, ltb→lt, ltb→ge, Bool-cases, length, get_or, take, length-set, length-take, replicate,
  get_or-append_left, ℕ, zero, suc, ◌+◌, ◌-◌, ◌*◌, ◌≤◌, ◌<◌, bit_or, ◌≡◌, refl, ap, ◌∙◌, inl, inr,
  Option, none, some, List, ◌++◌, arith,
}
use micro_container.Compress.BitReader.{Br, br_bits}
use micro_container.Compress.Huffman.{
  huff_count, decode_step, Huff, decode_loop, huff_decode, huff_build, huff_codes, codes_loop,
}
use micro_container.Compress.Huffman.Built.{IsBuilt, huff_build-IsBuilt}
use micro_container.Compress.Huffman.Counts.{IsLength, length-huff_count, length-idx_loop}

-- Every array of the tables is continued by other memory.
abbrev pub continued : Huff → List ℕ → List ℕ → List ℕ → List ℕ → Huff
continued h counts codes idxs syms = record h {
  count = h.count ++ counts;
  first_code = h.first_code ++ codes;
  first_idx = h.first_idx ++ idxs;
  symbols = h.symbols ++ syms;
}

-- The tables are as long as the arrays of `struct huff`.
record IsSized (h : Huff) : Type 0 where
  counts : length h.count ≡ 16
  codes : length h.first_code ≡ 16
  idxs : length h.first_idx ≡ 16

length-codes_loop :
    (left b code : ℕ) (count first_code : List ℕ)
    → length (codes_loop left b code count first_code) ≡ length first_code
unfolding codes_loop
length-codes_loop zero b code count first_code = refl
length-codes_loop (suc left) b code count first_code =
    length-codes_loop left (b + 1) _ count _ ∙ length-set first_code b code

huff_build-IsSized : (lengths : List ℕ) (nsym : ℕ) → IsSized (huff_build lengths nsym)
unfolding huff_build huff_codes
huff_build-IsSized lengths nsym =
    let used : List ℕ = take nsym lengths in
    let count : List ℕ = huff_count used (replicate 16 0) in
    record {
      counts = length-huff_count used (replicate 16 0);
      codes = length-codes_loop 15 1 0 count (replicate 16 0);
      idxs = length-idx_loop 15 1 count (replicate 16 0);
    }

module _ (ls : List ℕ) (h : Huff) (built : IsBuilt ls h) (sized : IsSized h)
    (counts codes idxs syms : List ℕ) where
  step_same :
      (b code : ℕ) (r : Option ℕ × Br) (next next' : Br → ℕ → Option ℕ × Br)
      → IsLength b
      → length ls ≤ 320
      → ((br : Br) (c : ℕ) → next' br c ≡ next br c)
      → decode_step r (continued h counts codes idxs syms) b code next'
        ≡ decode_step r h b code next
  unfolding decode_step
  step_same b code (none, br) next next' hb few ih = refl
  step_same b code (some bit, br) next next' hb few ih =
      let c : ℕ = bit_or (code * 2) bit in
      let fc : ℕ = get_or h.first_code b 0 in
      let fc_same =
        get_or-append_left h.first_code codes b 0 (omega (arith, sized.codes, hb.0, hb.1)) in
      let count_same =
        get_or-append_left h.count counts b 0 (omega (arith, sized.counts, hb.0, hb.1)) in
      let idx_same =
        get_or-append_left h.first_idx idxs b 0 (omega (arith, sized.idxs, hb.0, hb.1)) in
      elim (Bool-cases (ltb c fc)) [
        | inl below ↦ rw (fc_same, below) (ih br c)
        | inr reached ↦ elim (Bool-cases (ltb c (fc + get_or h.count b 0))) [
          | inl found ↦
              let inside : get_or h.first_idx b 0 + (c - fc) < length h.symbols = omega (
                arith,
                ltb→lt c (fc + get_or h.count b 0) found,
                ltb→ge c fc reached,
                built.amounts b hb,
                built.inside b hb,
                built.room,
              ) in
              rw (fc_same, count_same, idx_same, reached, found)
                (ap (λ s. (some s, br)) (get_or-append_left h.symbols syms _ 0 inside))
          | inr above ↦ rw (fc_same, count_same, reached, above) (ih br c)
        ]
      ]

  loop_same :
      (left b code : ℕ) (br : Br)
      → b + left ≡ 16
      → 1 ≤ b
      → length ls ≤ 320
      → decode_loop left br (continued h counts codes idxs syms) b code
        ≡ decode_loop left br h b code
  unfolding decode_loop
  loop_same zero b code br e pos few = refl
  loop_same (suc left) b code br e pos few =
      step_same b code (br_bits br 1) _ _ (pos, omega arith) few
        (λ br' c. loop_same left (b + 1) c br' (omega arith) (omega arith) few)

-- With tables that `huff_build` made from at most 320 code lengths, what `huff_decode` returns does not
-- depend on the memory behind any of their arrays.
pub huff_decode-continued :
    (lengths : List ℕ) (nsym : ℕ) (br : Br) (counts codes idxs syms : List ℕ)
    → nsym ≤ 320
    → huff_decode br (continued (huff_build lengths nsym) counts codes idxs syms)
      ≡ huff_decode br (huff_build lengths nsym)
unfolding huff_decode
huff_decode-continued lengths nsym br counts codes idxs syms h =
    loop_same (take nsym lengths) (huff_build lengths nsym) (huff_build-IsBuilt lengths nsym h)
      (huff_build-IsSized lengths nsym) counts codes idxs syms 15 1 0 br (omega arith) (omega arith)
      (omega (arith, length-take nsym lengths))
