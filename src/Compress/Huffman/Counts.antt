-- ===== src/Compress/Huffman/Counts.antt =====
-- The arrays that `huff_build` makes, entry by entry: a counting sort of the symbols by length.
use mathlib.Core.Path.{subst}
use micro_container.Prelude.{
  ◌==◌, if◌then◌else◌, length, get_or, set, length-set, get_or-set_self, get_or-set_ne, ℕ, zero,
  suc, ◌+◌, ◌-◌, ◌≤◌, ◌<◌, ◌≡◌, refl, ◌∙◌, ◌⊎◌, inl, inr, List, [], ◌∷◌, arith, ◌*◌, ap,
}
use micro_container.Compress.Huffman.{is_coded, huff_count, idx_loop, codes_loop}

-- The symbols of code length `b`, in order, where the first length is that of symbol `i`.
abbrev pub of_length : ℕ → ℕ → List ℕ → List ℕ
of_length b i [] = []
of_length b i (l ∷ lengths) =
    if l == b then i ∷ of_length b (i + 1) lengths else of_length b (i + 1) lengths

-- How many symbols have code length `b`.
unfoldable pub amount : ℕ → List ℕ → ℕ
amount b lengths = length (of_length b 0 lengths)

abbrev pub IsLength : ℕ → Type 0
IsLength b = (1 ≤ b) × (b ≤ 15)

pub length-of_length :
    (b i j : ℕ) (ls : List ℕ) → length (of_length b i ls) ≡ length (of_length b j ls)
length-of_length b i j [] = refl
length-of_length b i j (l ∷ ls) = ground (arith, length-of_length b (i + 1) (j + 1) ls)

pub length-huff_count : (ls count : List ℕ) → length (huff_count ls count) ≡ length count
unfolding huff_count
length-huff_count [] count = refl
length-huff_count (l ∷ ls) count =
    length-huff_count ls (if is_coded l then set count l (get_or count l 0 + 1) else count)
    ∙ ground (arith, length-set count l (get_or count l 0 + 1))

-- Each entry is raised by the number of symbols of that length.
pub huff_count-entry :
    (b i : ℕ) (ls count : List ℕ)
    → IsLength b
    → length count ≡ 16
    → get_or (huff_count ls count) b 0 ≡ get_or count b 0 + length (of_length b i ls)
unfolding huff_count
huff_count-entry b i [] count hb h = omega arith
huff_count-entry b i (l ∷ ls) count hb h =
    let count' : List ℕ = if is_coded l then set count l (get_or count l 0 + 1) else count in
    ground (
      arith,
      huff_count-entry b (i + 1) ls count' hb
          (ground (arith, length-set count l (get_or count l 0 + 1))),
      get_or-set_self count l (get_or count l 0 + 1) 0,
      get_or-set_ne count l b (get_or count l 0 + 1) 0,
    )

-- Below the first row that the remaining loop writes, the index table keeps its entries.
pub length-idx_loop :
    (left b : ℕ) (count idx : List ℕ) → length (idx_loop left b count idx) ≡ length idx
unfolding idx_loop
length-idx_loop zero b count idx = refl
length-idx_loop (suc left) b count idx = length-idx_loop left (b + 1) count _ ∙ length-set idx b _

pub idx_loop-below :
    (left b j : ℕ) (count idx : List ℕ)
    → j < b
    → get_or (idx_loop left b count idx) j 0 ≡ get_or idx j 0
unfolding idx_loop
idx_loop-below zero b j count idx h = refl
idx_loop-below (suc left) b j count idx h =
    idx_loop-below left (b + 1) j count _ (omega arith) ∙ get_or-set_ne idx b j _ 0 (omega arith)

-- Each row starts where the row before it ends.
pub idx_loop-entry :
    (left b j : ℕ) (count idx : List ℕ)
    → b ≤ j
    → j < b + left
    → 1 ≤ b
    → b + left ≤ length idx
    → get_or (idx_loop left b count idx) j 0
      ≡ get_or (idx_loop left b count idx) (j - 1) 0 + get_or count (j - 1) 0
unfolding idx_loop
idx_loop-entry zero b j count idx lo hi pos fits = absurd (omega arith)
idx_loop-entry (suc left) b j count idx lo hi pos fits =
    let v : ℕ = get_or idx (b - 1) 0 + get_or count (b - 1) 0 in
    let idx' : List ℕ = set idx b v in
    elim (first_or_later b j lo) [
      | inl e ↦
          subst
            (λ (k : ℕ).
              get_or (idx_loop left (b + 1) count idx') k 0
              ≡ get_or (idx_loop left (b + 1) count idx') (k - 1) 0 + get_or count (k - 1) 0)
            e
            (omega (
              arith,
              idx_loop-below left (b + 1) b count idx' (omega arith),
              idx_loop-below left (b + 1) (b - 1) count idx' (omega arith),
              get_or-set_self idx b v 0 (omega arith),
              get_or-set_ne idx b (b - 1) v 0 (omega arith),
            ))
      | inr l ↦
          idx_loop-entry left (b + 1) j count idx' l (omega arith) (omega arith)
            (omega (arith, length-set idx b v))
    ]
  where
    first_or_later : (b j : ℕ) → b ≤ j → (b ≡ j) ⊎ (b + 1 ≤ j)
    first_or_later b j h = omega arith

-- The same for the code table.
codes_loop-below :
    (left b code j : ℕ) (count codes : List ℕ)
    → j < b
    → get_or (codes_loop left b code count codes) j 0 ≡ get_or codes j 0
unfolding codes_loop
codes_loop-below zero b code j count codes h = refl
codes_loop-below (suc left) b code j count codes h =
    codes_loop-below left (b + 1) _ j count _ (omega arith)
    ∙ get_or-set_ne codes b j code 0 (omega arith)

pub codes_loop-first :
    (left b code : ℕ) (count codes : List ℕ)
    → b < length codes
    → get_or (codes_loop (suc left) b code count codes) b 0 ≡ code
unfolding codes_loop
codes_loop-first left b code count codes h =
    codes_loop-below left (b + 1) _ b count _ (omega arith) ∙ get_or-set_self codes b code 0 h

pub codes_loop-entry :
    (left b code j : ℕ) (count codes : List ℕ)
    → b ≤ j
    → j + 1 < b + left
    → b + left ≤ length codes
    → get_or (codes_loop left b code count codes) (j + 1) 0
      ≡ (get_or (codes_loop left b code count codes) j 0 + get_or count j 0) * 2
codes_loop-entry zero b code j count codes lo hi fits = absurd (omega arith)
codes_loop-entry (suc zero) b code j count codes lo hi fits = absurd (omega arith)
codes_loop-entry (suc (suc left)) b code j count codes lo hi fits =
    let next : ℕ = (code + get_or count b 0) * 2 in
    let codes' : List ℕ = set codes b code in
    let shape : codes_loop (suc (suc left)) b code count codes
        ≡ codes_loop (suc left) (b + 1) next count codes' =
      unfold codes_loop in refl in
    let room : b + 1 < length codes' = omega (arith, length-set codes b code) in
    elim (first_or_later b j lo) [
      | inl e ↦
          subst
            (λ (k : ℕ).
              get_or (codes_loop (suc (suc left)) b code count codes) (k + 1) 0
              ≡ (get_or (codes_loop (suc (suc left)) b code count codes) k 0 + get_or count k 0)
                * 2)
            e
            (omega (
              arith,
              codes_loop-first (suc left) b code count codes (omega arith),
              ap (λ (c : List ℕ). get_or c (b + 1) 0) shape,
              codes_loop-first left (b + 1) next count codes' room,
            ))
      | inr l ↦ rw shape (
          codes_loop-entry (suc left) (b + 1) next j count codes' l (omega arith)
            (omega (arith, length-set codes b code)))
    ]
  where
    first_or_later : (b j : ℕ) → b ≤ j → (b ≡ j) ⊎ (b + 1 ≤ j)
    first_or_later b j h = omega arith
