-- ===== src/Compress/Inflate/Lengths/Transmitted.antt =====
-- How a list of code lengths is transmitted (RFC 1951, 3.2.7), with no array: the lengths are appended.
use Prim.Native.Nat.{min}
use micro_container.Prelude.{
  length, get_or, replicate, ℕ, ◌+◌, ◌-◌, ◌≤◌, ◌<◌, ◌≡◌, Option, none, some, List, [], ◌∷◌, ◌++◌,
}
use micro_container.Compress.BitReader.{Br, br_bits}
use micro_container.Compress.Huffman.{Huff, huff_decode}

-- The symbols of runs: the bits in which the run's length is sent, the shortest run, and the length
-- that is repeated. 16 repeats the last one.
pub data Run (out : List ℕ) : ℕ → ℕ → ℕ → ℕ → Type 0 where
  previous : (v : ℕ) → 1 ≤ length out → v ≡ get_or out (length out - 1) 0 → Run out 16 2 3 v
  few_zeros : Run out 17 3 3 0
  many_zeros : (s : ℕ) → 18 ≤ s → Run out s 7 11 0

-- From the reader `br` and the lengths `out` up to there: the whole list of `total` lengths, or `none`
-- where a symbol or the bits of a run cannot be read or the first length is a repetition, and the
-- reader behind. A run that goes beyond `total` is cut.
pub data Transmitted (hc : Huff) (total : ℕ) : Br → List ℕ → Option (List ℕ) × Br → Type 0 where
  complete :
      (br : Br) (out : List ℕ) → length out ≡ total → Transmitted hc total br out (some out, br)
  literal :
      (br br₁ : Br) (out : List ℕ) (s : ℕ) (r : Option (List ℕ) × Br)
      → length out < total
      → huff_decode br hc ≡ (some s, br₁)
      → s < 16
      → Transmitted hc total br₁ (out ++ s ∷ []) r
      → Transmitted hc total br out r
  run :
      (br br₁ br₂ : Br) (out : List ℕ) (s bits base v n : ℕ) (r : Option (List ℕ) × Br)
      → length out < total
      → huff_decode br hc ≡ (some s, br₁)
      → Run out s bits base v
      → br_bits br₁ bits ≡ (some n, br₂)
      → Transmitted hc total br₂ (out ++ replicate (min (n + base) (total - length out)) v) r
      → Transmitted hc total br out r
  no_symbol :
      (br br₁ : Br) (out : List ℕ)
      → length out < total
      → huff_decode br hc ≡ (none, br₁)
      → Transmitted hc total br out (none, br₁)
  no_previous :
      (br br₁ : Br) (out : List ℕ)
      → length out ≡ 0
      → 0 < total
      → huff_decode br hc ≡ (some 16, br₁)
      → Transmitted hc total br out (none, (br_bits br₁ 2).1)
  no_count :
      (br br₁ br₂ : Br) (out : List ℕ) (s bits base v : ℕ)
      → length out < total
      → huff_decode br hc ≡ (some s, br₁)
      → Run out s bits base v
      → br_bits br₁ bits ≡ (none, br₂)
      → Transmitted hc total br out (none, br₂)
