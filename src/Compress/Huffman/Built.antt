-- ===== src/Compress/Huffman/Built.antt =====
-- What a table that `huff_build` made holds, in terms of the code lengths.
use micro_container.Prelude.{
  ltb, if◌then◌else◌, length, get_or, set, take, replicate, length-take, get_or-set_ne, ℕ, zero,
  suc, ◌+◌, ◌-◌, ◌*◌, ◌≤◌, ◌<◌, ◌≡◌, refl, sym, ap, ◌∙◌, ◌&&◌, List, [], ◌∷◌, arith,
  length-replicate,
}
use micro_container.Compress.Huffman.{Huff, is_coded, huff_count, idx_loop, huff_build, huff_codes}
use micro_container.Compress.Huffman.Place.{Regions, symbols_loop-placed, length-symbols_loop}
use micro_container.Compress.Huffman.Counts.{
  of_length, amount, IsLength, huff_count-entry, idx_loop-below, idx_loop-entry, codes_loop-first,
  codes_loop-entry, length-idx_loop,
}

-- How many symbols have a code shorter than `b`.
abbrev shorter : ℕ → List ℕ → ℕ
shorter b [] = 0
shorter b (l ∷ ls) = (if is_coded l && ltb l b then 1 else 0) + shorter b ls

shorter-le : (b : ℕ) (ls : List ℕ) → shorter b ls ≤ length ls
shorter-le b [] = omega arith
shorter-le b (l ∷ ls) = ground (arith, shorter-le b ls)

shorter-zero : (b : ℕ) (ls : List ℕ) → b ≤ 1 → shorter b ls ≡ 0
shorter-zero b [] h = refl
shorter-zero b (l ∷ ls) h = ground (arith, shorter-zero b ls h)

shorter-suc :
    (b i : ℕ) (ls : List ℕ)
    → IsLength b
    → shorter (b + 1) ls ≡ shorter b ls + length (of_length b i ls)
shorter-suc b i [] hb = refl
shorter-suc b i (l ∷ ls) hb = ground (arith, shorter-suc b (i + 1) ls hb)

shorter_mono : (b c : ℕ) (ls : List ℕ) → b ≤ c → shorter b ls ≤ shorter c ls
shorter_mono b c [] h = omega arith
shorter_mono b c (l ∷ ls) h = ground (arith, shorter_mono b c ls h)

count-zero : (ls count : List ℕ) → get_or (huff_count ls count) 0 0 ≡ get_or count 0 0
unfolding huff_count
count-zero [] count = refl
count-zero (l ∷ ls) count =
    count-zero ls (if is_coded l then set count l (get_or count l 0 + 1) else count)
    ∙ ground (arith, get_or-set_ne count l 0 (get_or count l 0 + 1) 0)

get_or-replicate : (n i : ℕ) → get_or {A = ℕ} (replicate n 0) i 0 ≡ 0
get_or-replicate zero i = refl
get_or-replicate (suc n) zero = refl
get_or-replicate (suc n) (suc i) = get_or-replicate n i

-- Every row of the index table is the number of symbols with shorter codes.
idx-shorter :
    (ls count idx : List ℕ)
    → ((b : ℕ) → IsLength b → get_or count b 0 ≡ amount b ls)
    → get_or count 0 0 ≡ 0
    → get_or idx 0 0 ≡ 0
    → length idx ≡ 16
    → (b : ℕ) → b ≤ 15
    → get_or (idx_loop 15 1 count idx) b 0 ≡ shorter b ls
idx-shorter ls count idx amounts zeroth start rows zero h =
    idx_loop-below 15 1 0 count idx (omega arith) ∙ start ∙ sym (shorter-zero 0 ls (omega arith))
idx-shorter ls count idx amounts zeroth start rows (suc zero) h = omega (
  arith,
  idx_loop-entry 15 1 1 count idx (omega arith) (omega arith) (omega arith) (omega arith),
  idx_loop-below 15 1 0 count idx (omega arith),
  start,
  shorter-zero 1 ls (omega arith),
  shorter-zero 0 ls (omega arith),
)
idx-shorter ls count idx amounts zeroth start rows (suc (suc b)) h =
    let up : shorter (suc b + 1) ls ≡ shorter (suc b) ls + amount (suc b) ls =
      unfold amount in shorter-suc (suc b) 0 ls (omega arith, omega arith) in
    let e : suc b + 1 ≡ suc (suc b) = omega arith in
    let e' : suc (suc b) - 1 ≡ suc b = omega arith in
    let row : get_or (idx_loop 15 1 count idx) (suc (suc b)) 0
        ≡ get_or (idx_loop 15 1 count idx) (suc b) 0 + get_or count (suc b) 0 =
      idx_loop-entry 15 1 (suc (suc b)) count idx (omega arith) (omega arith) (omega arith)
        (omega arith)
      ∙ ap (λ (t : ℕ). get_or (idx_loop 15 1 count idx) t 0 + get_or count t 0) e' in
    omega (
      arith,
      row,
      idx-shorter ls count idx amounts zeroth start rows (suc b) (omega arith),
      amounts (suc b) (omega arith, omega arith),
      up,
      ap (λ (t : ℕ). shorter t ls) e,
    )

-- The regions of all lengths, before the first symbol is placed.
all-Regions :
    (ls idx symbols : List ℕ)
    → length idx ≡ 16
    → length ls ≤ length symbols
    → ((b : ℕ) → b ≤ 15 → get_or idx b 0 ≡ shorter b ls)
    → Regions (λ b. shorter (b + 1) ls) ls 0 idx symbols
all-Regions ls idx symbols rows16 fits rows = record {
  rows = rows16;
  full = λ b hb. omega (arith, rows b hb.1, shorter-suc b 0 ls hb);
  apart = λ b c hb hc lt. omega (arith, rows c hc.1, shorter_mono (b + 1) c ls (omega arith));
  room = λ b hb. omega (arith, shorter-le (b + 1) ls);
}

-- The tables of `h` are those of the canonical code with the lengths `ls`.
pub record IsBuilt (ls : List ℕ) (h : Huff) : Type 0 where
  pub amounts : (b : ℕ) → IsLength b → get_or h.count b 0 ≡ amount b ls
  pub first : get_or h.first_code 1 0 ≡ 0
  pub steps :
      (b : ℕ)
      → IsLength b
      → b < 15
      → get_or h.first_code (b + 1) 0 ≡ (get_or h.first_code b 0 + amount b ls) * 2
  pub placed :
      (b k : ℕ)
      → IsLength b
      → k < amount b ls
      → get_or h.symbols (get_or h.first_idx b 0 + k) 0 ≡ get_or (of_length b 0 ls) k 0
  pub inside : (b : ℕ) → IsLength b → get_or h.first_idx b 0 + amount b ls ≤ length ls
  pub room : length h.symbols ≡ 320

-- From at most 320 code lengths, `huff_build` makes the tables of the canonical code: for each
-- length the number of symbols, the first code word, and the symbols of that length in their order,
-- at indices inside the table.
pub huff_build-IsBuilt :
    (lengths : List ℕ) (nsym : ℕ)
    → nsym ≤ 320
    → IsBuilt (take nsym lengths) (huff_build lengths nsym)
unfolding huff_build amount
huff_build-IsBuilt lengths nsym h =
    let ls : List ℕ = take nsym lengths in
    let count : List ℕ = huff_count ls (replicate 16 0) in
    let short : length ls ≤ 320 = omega (arith, length-take nsym lengths) in
    let amounts : (b : ℕ) → IsLength b → get_or count b 0 ≡ length (of_length b 0 ls) = λ b hb.
      huff_count-entry b 0 ls (replicate 16 0) hb refl ∙ omega (arith, get_or-replicate 16 b) in
    let rows : (b : ℕ) → b ≤ 15 → get_or (idx_loop 15 1 count (replicate 16 0)) b 0 ≡ shorter b ls =
      idx-shorter ls count (replicate 16 0) amounts (count-zero ls (replicate 16 0)) refl refl in
    let idx : List ℕ = idx_loop 15 1 count (replicate 16 0) in
    let zeros : List ℕ = replicate 320 0 in
    let regions : Regions (λ b. shorter (b + 1) ls) ls 0 idx zeros =
      all-Regions ls idx zeros (length-idx_loop 15 1 count (replicate 16 0))
        (omega (arith, length-replicate {A = ℕ} 320 0)) rows in
    record {
      amounts = amounts;
      first = codes_loop-first 14 1 0 count (replicate 16 0) (omega arith);
      steps = λ b hb lt.
          codes_loop-entry 15 1 0 b count (replicate 16 0) hb.0 (omega arith) (omega arith)
          ∙ ap (λ (t : ℕ). (get_or (huff_codes count (replicate 16 0)) b 0 + t) * 2) (amounts b hb);
      placed = λ b k hb hk.
          symbols_loop-placed (λ c. shorter (c + 1) ls) ls 0 idx zeros b k regions hb hk;
      inside = λ b hb. omega (arith, rows b hb.1, shorter-suc b 0 ls hb, shorter-le (b + 1) ls);
      room = length-symbols_loop ls 0 idx zeros;
    }
