-- ===== src/Compress/Huffman/Place.antt =====
-- The second loop of `huff_place` puts the symbols of each length into a region of their own.
use mathlib.Core.Path.{subst}
use micro_container.Prelude.{
  ◌==◌, if◌then◌else◌, length, get_or, set, length-set, get_or-set_self, get_or-set_ne, ℕ, ◌+◌, ◌≤◌,
  ◌<◌, ◌≡◌, refl, ◌∙◌, ◌⊎◌, List, [], ◌∷◌, arith, ==→eq, Bool-cases, zero, suc, ap, inl, inr, sym,
}
use micro_container.Compress.Huffman.{is_coded, symbols_loop}
use micro_container.Compress.Huffman.Counts.{of_length, IsLength}

-- The region of length `b` that is still to be written runs from `slot[b]` to `top b`.
pub record Regions (top : ℕ → ℕ) (ls : List ℕ) (i : ℕ) (slot symbols : List ℕ) : Type 0 where
  pub rows : length slot ≡ 16
  pub full : (b : ℕ) → IsLength b → get_or slot b 0 + length (of_length b i ls) ≡ top b
  pub apart : (b c : ℕ) → IsLength b → IsLength c → b < c → top b ≤ get_or slot c 0
  pub room : (b : ℕ) → IsLength b → top b ≤ length symbols

abbrev slot_after : ℕ → List ℕ → List ℕ
slot_after l slot = if is_coded l then set slot l (get_or slot l 0 + 1) else slot

abbrev symbols_after : ℕ → ℕ → List ℕ → List ℕ → List ℕ
symbols_after l i slot symbols = if is_coded l then set symbols (get_or slot l 0) i else symbols

slot_after-length : (l : ℕ) (slot : List ℕ) → length (slot_after l slot) ≡ length slot
slot_after-length l slot = ground (arith, length-set slot l (get_or slot l 0 + 1))

slot_after-entry :
    (l b : ℕ) (slot : List ℕ)
    → length slot ≡ 16
    → IsLength b
    → get_or (slot_after l slot) b 0 ≡ get_or slot b 0 + (if l == b then 1 else 0)
slot_after-entry l b slot h hb = ground (
  arith,
  get_or-set_self slot l (get_or slot l 0 + 1) 0,
  get_or-set_ne slot l b (get_or slot l 0 + 1) 0,
)

symbols_after-length :
    (l i : ℕ) (slot symbols : List ℕ) → length (symbols_after l i slot symbols) ≡ length symbols
symbols_after-length l i slot symbols = ground (arith, length-set symbols (get_or slot l 0) i)

Regions-step :
    (top : ℕ → ℕ) (l : ℕ) (ls : List ℕ) (i : ℕ) (slot symbols : List ℕ)
    → Regions top (l ∷ ls) i slot symbols
    → Regions top ls (i + 1) (slot_after l slot) (symbols_after l i slot symbols)
Regions-step top l ls i slot symbols r = record {
  rows = slot_after-length l slot ∙ r.rows;
  full = λ b hb. ground (arith, slot_after-entry l b slot r.rows hb, r.full b hb);
  apart = λ b c hb hc h. ground (arith, slot_after-entry l c slot r.rows hc, r.apart b c hb hc h);
  room = λ b hb. omega (arith, symbols_after-length l i slot symbols, r.room b hb);
}

-- A place in no region keeps its symbol.
symbols_loop-outside :
    (top : ℕ → ℕ) (ls : List ℕ) (i : ℕ) (slot symbols : List ℕ) (p : ℕ)
    → Regions top ls i slot symbols
    → ((b : ℕ) → IsLength b → (p < get_or slot b 0) ⊎ (top b ≤ p))
    → get_or (symbols_loop ls i slot symbols) p 0 ≡ get_or symbols p 0
unfolding symbols_loop
symbols_loop-outside top [] i slot symbols p r out = refl
symbols_loop-outside top (l ∷ ls) i slot symbols p r out =
    symbols_loop-outside top ls (i + 1) (slot_after l slot) (symbols_after l i slot symbols) p
      (Regions-step top l ls i slot symbols r)
      (λ b hb. ground (arith, slot_after-entry l b slot r.rows hb, out b hb))
    ∙ ground (
      arith,
      get_or-set_ne symbols (get_or slot l 0) p i 0,
      λ (hl : IsLength l). out l hl,
      λ (hl : IsLength l). r.full l hl,
    )

-- The round that meets a symbol writes it at the start of its region, and no later round moves it.
placed_now :
    (top : ℕ → ℕ) (l : ℕ) (ls : List ℕ) (i : ℕ) (slot symbols : List ℕ)
    → Regions top (l ∷ ls) i slot symbols
    → IsLength l
    → get_or (symbols_loop (l ∷ ls) i slot symbols) (get_or slot l 0) 0 ≡ i
placed_now top l ls i slot symbols r hl =
    let p : ℕ = get_or slot l 0 in
    let inside : p < top l = ground (arith, r.full l hl) in
    let rest : get_or (symbols_loop ls (i + 1) (slot_after l slot) (symbols_after l i slot symbols))
          p 0
        ≡ get_or (symbols_after l i slot symbols) p 0 =
      symbols_loop-outside top ls (i + 1) (slot_after l slot) (symbols_after l i slot symbols) p
        (Regions-step top l ls i slot symbols r) (λ b hb. outside b hb) in
    unfold symbols_loop in rest ∙ ground (arith, get_or-set_self symbols p i 0, r.room l hl)
  where
    outside :
        (b : ℕ)
        → IsLength b
        → (get_or slot l 0 < get_or (slot_after l slot) b 0) ⊎ (top b ≤ get_or slot l 0)
    outside b hb = ground (
      arith,
      slot_after-entry l b slot r.rows hb,
      r.full l hl,
      r.apart l b hl hb,
      r.apart b l hb hl,
    )

-- One round for length `b`, in terms of the region's start before and after it.
module _ (final xs xs' : List ℕ) (i base base' : ℕ) where
  abbrev Round : Type 0
  Round =
      (xs' ≡ i ∷ xs) × (base' ≡ base + 1) × (get_or final base 0 ≡ i) ⊎ (xs' ≡ xs) × (base' ≡ base)

  abbrev entry_at : ℕ → ℕ
  entry_at p = get_or final p 0

  placed_step :
      (k : ℕ)
      → Round
      → ((m : ℕ) → m < length xs → entry_at (base' + m) ≡ get_or xs m 0)
      → k < length xs'
      → entry_at (base + k) ≡ get_or xs' k 0
  placed_step zero (inl (q, e, now)) ih h =
      ap entry_at (omega arith) ∙ now ∙ ap (λ (t : List ℕ). get_or t 0 0) (sym q)
  placed_step (suc m) (inl (q, e, now)) ih h =
      ap entry_at (omega arith)
      ∙ ih m (omega (arith, ap length q))
      ∙ ap (λ (t : List ℕ). get_or t (suc m) 0) (sym q)
  placed_step k (inr (q, e)) ih h =
      ap entry_at (omega arith)
      ∙ ih k (omega (arith, ap length q))
      ∙ ap (λ (t : List ℕ). get_or t k 0) (sym q)

round_of :
    (top : ℕ → ℕ) (l : ℕ) (ls : List ℕ) (i : ℕ) (slot symbols : List ℕ) (b : ℕ)
    → Regions top (l ∷ ls) i slot symbols
    → IsLength b
    → Round
        (symbols_loop (l ∷ ls) i slot symbols)
        (of_length b (i + 1) ls)
        (of_length b i (l ∷ ls))
        i
        (get_or slot b 0)
        (get_or (slot_after l slot) b 0)
round_of top l ls i slot symbols b r hb = elim (Bool-cases (l == b)) [
  | inl same ↦
      let now : get_or (symbols_loop (l ∷ ls) i slot symbols) (get_or slot b 0) 0 ≡ i =
        let e : l ≡ b = ==→eq l b same in
        subst (λ (c : ℕ). get_or (symbols_loop (l ∷ ls) i slot symbols) (get_or slot c 0) 0 ≡ i) e
          (placed_now top l ls i slot symbols r (subst IsLength (sym e) hb)) in
      inl (rw same, slot_after-entry l b slot r.rows hb ∙ rw same, now)
  | inr other ↦ inr (rw other, slot_after-entry l b slot r.rows hb ∙ rw other (omega arith))
]

pub symbols_loop-placed :
    (top : ℕ → ℕ) (ls : List ℕ) (i : ℕ) (slot symbols : List ℕ) (b k : ℕ)
    → Regions top ls i slot symbols
    → IsLength b
    → k < length (of_length b i ls)
    → get_or (symbols_loop ls i slot symbols) (get_or slot b 0 + k) 0
      ≡ get_or (of_length b i ls) k 0
unfolding symbols_loop
symbols_loop-placed top [] i slot symbols b k r hb h = absurd (omega arith)
symbols_loop-placed top (l ∷ ls) i slot symbols b k r hb h =
    placed_step (symbols_loop (l ∷ ls) i slot symbols) (of_length b (i + 1) ls)
      (of_length b i (l ∷ ls)) i (get_or slot b 0) (get_or (slot_after l slot) b 0) k
      (round_of top l ls i slot symbols b r hb)
      (λ m hm.
        symbols_loop-placed top ls (i + 1) (slot_after l slot) (symbols_after l i slot symbols) b m
          (Regions-step top l ls i slot symbols r) hb hm)
      h

pub length-symbols_loop :
    (ls : List ℕ) (i : ℕ) (slot symbols : List ℕ)
    → length (symbols_loop ls i slot symbols) ≡ length symbols
unfolding symbols_loop
length-symbols_loop [] i slot symbols = refl
length-symbols_loop (l ∷ ls) i slot symbols =
    length-symbols_loop ls (i + 1) (slot_after l slot) (symbols_after l i slot symbols)
    ∙ symbols_after-length l i slot symbols
