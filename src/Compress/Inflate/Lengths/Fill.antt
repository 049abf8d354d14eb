-- ===== src/Compress/Inflate/Lengths/Fill.antt =====
-- `decode_len`: which entries of its array it writes, and how many rounds its loop needs.
use micro_container.Prelude.{
  SameBehind, SameBehind-refl, SameBehind-trans, leb, leb→le, le→leb, leb→gt, Bool-cases, length,
  take, ℕ, zero, suc, ◌+◌, ◌≤◌, ◌≡◌, refl, ap, ◌⊎◌, inl, inr, Bool, true, false, Option, none, some,
  List, arith,
}
use micro_container.Compress.BitReader.{Br}
use micro_container.Compress.Huffman.{Huff, huff_decode}
use micro_container.Compress.Inflate.Lengths.{Filling, len_symbol, len_loop, decode_len}
use micro_container.Compress.Inflate.Lengths.Transmitted.{Transmitted, complete}
use micro_container.Compress.Inflate.Lengths.Written.{length-below, Grows, len_symbol-Grows}

-- The lengths that a run leaves in its array, or `none` for a failure.
abbrev pub received : ℕ → Bool × Filling → Option (List ℕ) × Br
received total (true, f) = (some (take total f.lit), f.br)
received total (false, f) = (none, f.br)

-- A finished run from index `idx`: the entries up to there and what the stream holds from `br` on make
-- what is received, and the entries from `total` on are as they were in `lit`.
pub record Filled (hc : Huff) (br : Br) (idx total : ℕ) (lit : List ℕ) (r : Bool × Filling)
    : Type 0 where
  pub frame : SameBehind total lit r.1.lit
  pub transmitted : Transmitted hc total br (take idx lit) (received total r)
  pub index : (r.0 ≡ false) ⊎ (r.1.idx ≡ some total)

finished :
    (hc : Huff) (br : Br) (lit : List ℕ) (idx total : ℕ)
    → idx ≡ total
    → total ≤ length lit
    → Filled hc br idx total lit (true, record { lit = lit; idx = some idx; br = br })
finished hc br lit idx total e fits = record {
  frame = SameBehind-refl total lit;
  transmitted = rw (← e) (complete br (take idx lit) (length-below idx lit (omega arith)));
  index = inr (ap some e);
}

len_loop-Filled :
    (fuel : ℕ) (hc : Huff) (br : Br) (lit : List ℕ) (idx total : ℕ)
    → idx ≤ total
    → total ≤ length lit
    → total ≤ idx + fuel
    → Filled hc br idx total lit (len_loop fuel hc br lit idx total)
unfolding len_loop
len_loop-Filled zero hc br lit idx total lo fits enough =
    let e : idx ≡ total = omega arith in
    rw (le→leb total idx (omega (arith, e))) (finished hc br lit idx total e fits)
len_loop-Filled (suc fuel) hc br lit idx total lo fits enough =
    let s : Filling = len_symbol (huff_decode br hc) lit idx total in
    elim (Bool-cases (leb total idx)) [
      | inl full ↦
          let e : idx ≡ total = omega (arith, leb→le total idx full) in
          rw full (finished hc br lit idx total e fits)
      | inr more ↦
          let g : Grows hc br idx total lit s =
            len_symbol-Grows hc br (huff_decode br hc) lit idx total (leb→gt total idx more) fits
              refl in
          elim (g.1) [
            | inl failed ↦
                rw (more, failed.0)
                  (record { frame = g.0; transmitted = failed.1; index = inl refl })
            | inr (i, e, up, inside, then) ↦
                let r =
                  len_loop-Filled fuel hc s.br s.lit i total inside (omega (arith, g.0.same_length))
                    (omega arith) in
                rw (more, e)
                  (record {
                    frame = SameBehind-trans g.0 r.frame;
                    transmitted = then _ r.transmitted;
                    index = r.index;
                  })
          ]
    ]

len_loop-fuel :
    (m n : ℕ) (hc : Huff) (br : Br) (lit : List ℕ) (idx total : ℕ)
    → idx ≤ total
    → total ≤ length lit
    → total ≤ idx + m
    → total ≤ idx + n
    → len_loop m hc br lit idx total ≡ len_loop n hc br lit idx total
unfolding len_loop
len_loop-fuel zero zero hc br lit idx total lo fits hm hn = refl
len_loop-fuel zero (suc n) hc br lit idx total lo fits hm hn = rw (le→leb total idx (omega arith))
len_loop-fuel (suc m) zero hc br lit idx total lo fits hm hn = rw (le→leb total idx (omega arith))
len_loop-fuel (suc m) (suc n) hc br lit idx total lo fits hm hn =
    let s : Filling = len_symbol (huff_decode br hc) lit idx total in
    elim (Bool-cases (leb total idx)) [
      | inl full ↦ rw full
      | inr more ↦
          let g : Grows hc br idx total lit s =
            len_symbol-Grows hc br (huff_decode br hc) lit idx total (leb→gt total idx more) fits
              refl in
          elim (g.1) [
            | inl failed ↦ rw (more, failed.0)
            | inr (i, e, up, inside, then) ↦
                rw (more, e)
                  (len_loop-fuel m n hc s.br s.lit i total inside (omega (arith, g.0.same_length))
                    (omega arith) (omega arith))
          ]
    ]

-- With an array of at least `total` entries, `decode_len` receives the code lengths that the stream
-- transmits, appended one by one in the description of that: where it succeeds, the first `total`
-- entries are those lengths, and where it fails, the transmission does. The entries from `total` on
-- are as they were, and the loop ends by itself: more rounds would not change the result.
pub decode_len-Filled :
    (br : Br) (hc : Huff) (lit : List ℕ) (total : ℕ)
    → total ≤ length lit
    → Filled hc br 0 total lit (decode_len br hc lit total)
      × ((more : ℕ) → len_loop (total + more) hc br lit 0 total ≡ decode_len br hc lit total)
unfolding decode_len
decode_len-Filled br hc lit total fits = (
  len_loop-Filled total hc br lit 0 total (omega arith) fits (omega arith),
  λ more.
      len_loop-fuel (total + more) total hc br lit 0 total (omega arith) fits (omega arith)
        (omega arith),
)
