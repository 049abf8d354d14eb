-- ===== src/Compress/Inflate/Lengths/Written.antt =====
-- What one symbol writes into the array of code lengths.
use Prim.Native.Nat.{min}
use mathlib.Core.Path.{subst}
use micro_container.Prelude.{
  SameBehind, SameBehind-refl, SameBehind-trans, set-SameBehind, leb, leb→le, leb→gt, Bool-cases,
  length, get_or, set, take, replicate, length-set, length-take, ℕ, zero, suc, ◌+◌, ◌-◌, ◌≤◌, ◌<◌,
  ◌≡◌, refl, sym, ap, ◌∙◌, ◌⊎◌, inl, inr, Option, none, some, List, [], ◌∷◌, ◌++◌, append_assoc,
  append-nil, arith, ltb, ◌==◌, ltb→lt, ltb→ge, ==→eq,
}
use micro_container.Compress.BitReader.{Br, br_bits}
use micro_container.Compress.Huffman.{Huff, huff_decode}
use micro_container.Compress.Inflate.Lengths.{Filling, fill_rep, rep_fill, rep_len, len_symbol}
use micro_container.Compress.Inflate.Lengths.Transmitted.{
  Run, previous, few_zeros, many_zeros, Transmitted, literal, run, no_symbol, no_previous, no_count,
}

take-set :
    (idx v : ℕ) (lit : List ℕ)
    → idx < length lit
    → take (idx + 1) (set lit idx v) ≡ take idx lit ++ v ∷ []
take-set zero v [] h = absurd (omega arith)
take-set zero v (x ∷ lit) h = refl
take-set (suc idx) v [] h = absurd (omega arith)
take-set (suc idx) v (x ∷ lit) h =
    let e : suc idx + 1 ≡ suc (idx + 1) = omega arith in
    rw e (ap (λ t. x ∷ t) (take-set idx v lit (omega arith)))

get_or-take : (idx j : ℕ) (lit : List ℕ) → j < idx → get_or (take idx lit) j 0 ≡ get_or lit j 0
get_or-take zero j lit h = absurd (omega arith)
get_or-take (suc idx) j [] h = refl
get_or-take (suc idx) zero (x ∷ lit) h = refl
get_or-take (suc idx) (suc j) (x ∷ lit) h = get_or-take idx j lit (omega arith)

pub length-below : (idx : ℕ) (lit : List ℕ) → idx ≤ length lit → length (take idx lit) ≡ idx
length-below idx lit h = omega (arith, length-take idx lit)

-- The entries that `fill_rep` writes.
record Filled (rep : ℕ) (lit : List ℕ) (idx total val : ℕ) (r : List ℕ × ℕ) : Type 0 where
  frame : SameBehind total lit r.0
  reached : r.1 ≡ idx + min rep (total - idx)
  written : take r.1 r.0 ≡ take idx lit ++ replicate (min rep (total - idx)) val

fill_rep-Filled :
    (rep : ℕ) (lit : List ℕ) (idx total val : ℕ)
    → idx ≤ total
    → total ≤ length lit
    → Filled rep lit idx total val (fill_rep rep lit idx total val)
unfolding fill_rep
fill_rep-Filled zero lit idx total val h fits =
    let e : min 0 (total - idx) ≡ 0 = omega arith in
    record {
      frame = SameBehind-refl total lit;
      reached = omega arith;
      written = rw e (sym (append-nil (take idx lit)));
    }
fill_rep-Filled (suc rep) lit idx total val h fits = elim (Bool-cases (leb total idx)) [
  | inl full ↦
      let e : min (suc rep) (total - idx) ≡ 0 = omega (arith, leb→le total idx full) in
      rw full (record {
        frame = SameBehind-refl total lit;
        reached = omega (arith, e);
        written = rw e (sym (append-nil (take idx lit)));
      })
  | inr more ↦
      let less : idx < total = leb→gt total idx more in
      let ih =
        fill_rep-Filled rep (set lit idx val) (idx + 1) total val (omega (arith, less))
          (omega (arith, length-set lit idx val, fits)) in
      let e : min (suc rep) (total - idx) ≡ suc (min rep (total - (idx + 1))) =
        omega (arith, less) in
      rw more (record {
        frame = SameBehind-trans (set-SameBehind total idx val lit less) ih.frame;
        reached = omega (arith, ih.reached, e);
        written =
            ih.written
            ∙ ap (λ t. t ++ replicate (min rep (total - (idx + 1))) val)
                (take-set idx val lit (omega (arith, less, fits)))
            ∙ append_assoc (take idx lit) (val ∷ []) (replicate (min rep (total - (idx + 1))) val)
            ∙ ap (λ n. take idx lit ++ replicate n val) (sym e);
      })
]

-- A symbol at index `idx`: a failure, or a larger index, up to which the array holds what was sent.
abbrev pub Grows : Huff → Br → ℕ → ℕ → List ℕ → Filling → Type 0
Grows hc br idx total lit f =
    SameBehind total lit f.lit
    × (((f.idx ≡ none) × Transmitted hc total br (take idx lit) (none, f.br))
        ⊎ ((i : ℕ) × (f.idx ≡ some i)
            × (idx < i)
            × (i ≤ total)
            × ((r : Option (List ℕ) × Br)
                → Transmitted hc total f.br (take i f.lit) r
                → Transmitted hc total br (take idx lit) r)))

rep_fill-Grows :
    (hc : Huff) (br br₁ : Br) (bits s : ℕ) (r : Option ℕ × Br) (lit : List ℕ)
    → (idx total base val : ℕ) → 0 < base
    → idx < total
    → total ≤ length lit
    → huff_decode br hc ≡ (some s, br₁)
    → Run (take idx lit) s bits base val
    → br_bits br₁ bits ≡ r
    → Grows hc br idx total lit (rep_fill r lit idx total base val)
unfolding rep_fill
rep_fill-Grows hc br br₁ bits s (none, br₂) lit idx total base val pos h fits decoded sent e =
    let here = length-below idx lit (omega arith) in
    (
      SameBehind-refl total lit,
      inl (
        refl,
        no_count br br₁ br₂ (take idx lit) s bits base val (omega (arith, here)) decoded sent e,
      ),
    )
rep_fill-Grows hc br br₁ bits s (some raw, br₂) lit idx total base val pos h fits decoded sent e =
    let here = length-below idx lit (omega arith) in
    let f = fill_rep-Filled (raw + base) lit idx total val (omega arith) fits in
    let filled : List ℕ × ℕ = fill_rep (raw + base) lit idx total val in
    (
      f.frame,
      inr (
        filled.1,
        refl,
        omega (arith, f.reached),
        omega (arith, f.reached),
        λ r later.
            run br br₁ br₂ (take idx lit) s bits base val raw r (omega (arith, here)) decoded sent e
              (subst (λ out. Transmitted hc total br₂ out r) (rw here f.written) later),
      ),
    )

pub len_symbol-Grows :
    (hc : Huff) (br : Br) (r : Option ℕ × Br) (lit : List ℕ) (idx total : ℕ)
    → idx < total
    → total ≤ length lit
    → huff_decode br hc ≡ r
    → Grows hc br idx total lit (len_symbol r lit idx total)
unfolding len_symbol rep_len
len_symbol-Grows hc br (none, br₁) lit idx total h fits e =
    let here = length-below idx lit (omega arith) in
    (SameBehind-refl total lit, inl (refl, no_symbol br br₁ (take idx lit) (omega (arith, here)) e))
len_symbol-Grows hc br (some s, br₁) lit idx total h fits e =
    let here = length-below idx lit (omega arith) in
    elim (Bool-cases (ltb s 16)) [
      | inl plain ↦ rw plain (
        set-SameBehind total idx s lit h,
        inr (
          idx + 1,
          refl,
          omega arith,
          omega arith,
          λ r later. literal br br₁ (take idx lit) s r (omega (arith, here)) e (ltb→lt s 16 plain) (
              subst (λ out. Transmitted hc total br₁ out r)
                (take-set idx s lit (omega (arith, fits))) later),
        ),
      )
      | inr rep ↦ elim (Bool-cases (s == 16)) [
        | inl copies ↦
            let is16 : s ≡ 16 = ==→eq s 16 copies in
            let e' : huff_decode br hc ≡ (some 16, br₁) = rw is16 at e in
            elim (Bool-cases (ltb idx 1)) [
              | inl first ↦
                  rw (rep, copies, first)
                    (
                      SameBehind-refl total lit,
                      inl (
                        refl,
                        no_previous br br₁ (take idx lit) (omega (arith, here, ltb→lt idx 1 first))
                            (omega arith) e',
                      ),
                    )
              | inr later ↦
                  let back : 1 ≤ idx = ltb→ge idx 1 later in
                  rw (rep, copies, later)
                    (rep_fill-Grows hc br br₁ 2 16 (br_bits br₁ 2) lit idx total 3 _ (omega arith) h
                      fits e'
                      (previous _ (omega (arith, here, back))
                        (rw here (sym (get_or-take idx (idx - 1) lit (omega (arith, back))))))
                      refl)
            ]
        | inr other ↦ elim (Bool-cases (s == 17)) [
          | inl few ↦
              let is17 : s ≡ 17 = ==→eq s 17 few in
              let e' : huff_decode br hc ≡ (some 17, br₁) = rw is17 at e in
              rw (rep, other, few)
                (rep_fill-Grows hc br br₁ 3 17 (br_bits br₁ 3) lit idx total 3 0 (omega arith) h
                  fits e' few_zeros refl)
          | inr many ↦
              rw (rep, other, many)
                (rep_fill-Grows hc br br₁ 7 s (br_bits br₁ 7) lit idx total 11 0 (omega arith) h
                  fits e (many_zeros s (ground arith)) refl)
        ]
      ]
    ]
