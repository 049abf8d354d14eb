-- ===== src/Compress/Inflate/Lengths.antt =====
-- Code lengths: the fixed ones, and those that a dynamic block transmits.
pub mod Transmitted
pub mod Written
pub mod Fill
use micro_container.Prelude.{
  ltb, leb, ◌==◌, if◌then◌else◌, get_or, set, take, drop, replicate, ℕ, zero, suc, ◌+◌, ◌-◌, sym,
  Bool, true, false, Option, none, some, List, [], ◌∷◌,
}
use micro_container.Compress.BitReader.{Br, br_bits}
use micro_container.Compress.Huffman.{Huff, huff_build, huff_decode}

abbrev pub cl_ord : List ℕ
cl_ord = 16 ∷ 17 ∷ 18 ∷ 0 ∷ 8 ∷ 7 ∷ 9 ∷ 6 ∷ 10 ∷ 5 ∷ 11 ∷ 4 ∷ 12 ∷ 3 ∷ 13 ∷ 2 ∷ 14 ∷ 1 ∷ 15 ∷ []

-- `br_bits(…) + k`, where a failed read counts as -1.
abbrev pub int_plus : Option ℕ → ℕ → ℕ
int_plus none k = k - 1
int_plus (some v) k = v + k

-- `for (int i = from; i < to; i++) lit[i] = v;`, with the rounds left.
unfoldable pub fill_range : ℕ → ℕ → ℕ → List ℕ → List ℕ
fill_range zero i v lit = lit
fill_range (suc left) i v lit = fill_range left (i + 1) v (set lit i v)

unfoldable pub fixed_huff : List ℕ → List ℕ → List ℕ × List ℕ
unfolding fill_range
fixed_huff lit dst = (
  fill_range 8 280 8 (fill_range 24 256 7 (fill_range 112 144 9 (fill_range 144 0 8 lit))),
  fill_range 32 0 5 dst,
)

-- Returns the array and the index behind the entries written.
unfoldable pub fill_rep : ℕ → List ℕ → ℕ → ℕ → ℕ → List ℕ × ℕ
fill_rep zero lit idx total val = (lit, idx)
fill_rep (suc rep) lit idx total val =
    let more = fill_rep rep (set lit idx val) (idx + 1) total val in
    if leb total idx then (lit, idx) else more

-- An array being filled, the index reached (`none` after a failure), and the reader.
pub record Filling : Type 0 where
  pub lit : List ℕ
  pub idx : Option ℕ
  pub br : Br

unfoldable pub rep_fill : Option ℕ × Br → List ℕ → ℕ → ℕ → ℕ → ℕ → Filling
unfolding fill_rep
rep_fill (none, br) lit idx total base val = record { lit = lit; idx = none; br = br }
rep_fill (some raw, br) lit idx total base val =
    let (lit', idx') = fill_rep (raw + base) lit idx total val in
    record { lit = lit'; idx = some idx'; br = br }

unfoldable pub rep_len : Br → List ℕ → ℕ → ℕ → ℕ → Filling
unfolding rep_fill
rep_len br lit idx total sym =
    if sym == 16
    then (if ltb idx 1
        then record { lit = lit; idx = none; br = (br_bits br 2).1 }
        else rep_fill (br_bits br 2) lit idx total 3 (get_or lit (idx - 1) 0))
    else if sym == 17
    then rep_fill (br_bits br 3) lit idx total 3 0
    else rep_fill (br_bits br 7) lit idx total 11 0

-- One decoded code length symbol.
unfoldable pub len_symbol : Option ℕ × Br → List ℕ → ℕ → ℕ → Filling
unfolding rep_len
len_symbol (none, br) lit idx total = record { lit = lit; idx = none; br = br }
len_symbol (some sym, br) lit idx total =
    if ltb sym 16
    then record { lit = set lit idx sym; idx = some (idx + 1); br = br }
    else rep_len br lit idx total sym

-- The loop of `decode_len`. The index grows in every round, so `total` rounds are enough.
unfoldable pub len_loop : ℕ → Huff → Br → List ℕ → ℕ → ℕ → Bool × Filling
unfolding len_symbol
len_loop zero hc br lit idx total = (leb total idx, record { lit = lit; idx = some idx; br = br })
len_loop (suc fuel) hc br lit idx total =
    let s = len_symbol (huff_decode br hc) lit idx total in
    if leb total idx
    then (true, record { lit = lit; idx = some idx; br = br })
    else elim s.idx [ none ↦ (false, s) | some idx' ↦ len_loop fuel hc s.br s.lit idx' total ]

unfoldable pub decode_len : Br → Huff → List ℕ → ℕ → Bool × Filling
unfolding len_loop
decode_len br hc lit total = len_loop total hc br lit 0 total

-- One length of the code length code, `cl[CL_ORD[i]] = v`; `next` is the rest of the loop.
unfoldable pub cl_entry :
    Option ℕ × Br → ℕ → List ℕ → (Br → List ℕ → Bool × List ℕ × Br) → Bool × List ℕ × Br
cl_entry (none, br) i cl next = (false, cl, br)
cl_entry (some v, br) i cl next = next br (set cl (get_or cl_ord i 0) v)

-- The loop over `nc`, with the rounds left.
unfoldable pub cl_loop : ℕ → ℕ → Br → List ℕ → Bool × List ℕ × Br
unfolding cl_entry
cl_loop zero i br cl = (true, cl, br)
cl_loop (suc left) i br cl = cl_entry (br_bits br 3) i cl (λ br' cl'. cl_loop left (i + 1) br' cl')

-- `lit` has 320 entries, which are cleared first.
unfoldable pub read_code_lengths : Br → ℕ → ℕ → Bool × Filling
unfolding cl_loop decode_len
read_code_lengths br nl nd =
    let (bits, br₁) = br_bits br 4 in
    let (ok, cl, br₂) = cl_loop (int_plus bits 4) 0 br₁ (replicate 19 0) in
    let zeros = replicate 320 0 in
    if ok
    then decode_len br₂ (huff_build cl 19) zeros (nl + nd)
    else (false, record { lit = zeros; idx = none; br = br₂ })

-- Whether it went well, the tables for literals and distances, and the reader.
unfoldable pub read_dynamic : Br → Bool × Huff × Huff × Br
unfolding read_code_lengths
read_dynamic br =
    let (bits_l, br₁) = br_bits br 5 in
    let (bits_d, br₂) = br_bits br₁ 5 in
    let nl = int_plus bits_l 257 in
    let nd = int_plus bits_d 1 in
    let (ok, f) = read_code_lengths br₂ nl nd in
    (ok, huff_build f.lit nl, huff_build (take nd (drop nl f.lit)) nd, f.br)
