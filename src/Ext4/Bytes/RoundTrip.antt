-- ===== src/Ext4/Bytes/RoundTrip.antt =====
-- What was written is read back, and nothing else is changed.
use micro_container.Prelude.{
  length, get_or, set, length-set, get_or-set_self, get_or-set_ne, u8, ℕ, ◌+◌, ◌*◌, ◌/◌, ◌^◌, ◌≤◌,
  ◌<◌, bit_or, ◌≡◌, ◌∙◌, ◌⊎◌, List, arith,
}
use micro_container.Bits.{bit_or-shift}
use micro_container.Ext4.Bytes.{rd32, rd16, wr32, wr16}

-- `|` of the four bytes is their sum by place value.
join32 :
    (a b c d : ℕ)
    → a < 256
    → b < 256
    → c < 256
    → bit_or (bit_or (bit_or a (b * 2 ^ 8)) (c * 2 ^ 16)) (d * 2 ^ 24)
      ≡ a + b * 2 ^ 8 + c * 2 ^ 16 + d * 2 ^ 24
join32 a b c d ha hb hc = rw (bit_or-shift 8 a b ha) (
    rw (bit_or-shift 16 (a + b * 2 ^ 8) c (omega arith))
      (bit_or-shift 24 (a + b * 2 ^ 8 + c * 2 ^ 16) d (omega arith)))

pub length-wr32 : (p : List ℕ) (o v : ℕ) → length (wr32 p o v) ≡ length p
unfolding wr32
length-wr32 p o v = simp length-set

pub length-wr16 : (p : List ℕ) (o v : ℕ) → length (wr16 p o v) ≡ length p
unfolding wr16
length-wr16 p o v = simp length-set

-- A byte outside the word is as it was.
pub get_or-wr32 :
    (p : List ℕ) (o v j : ℕ) → (j < o) ⊎ (o + 4 ≤ j) → get_or (wr32 p o v) j 0 ≡ get_or p j 0
unfolding wr32
get_or-wr32 p o v j h =
    get_or-set_ne _ (o + 3) j _ 0 (omega arith)
    ∙ get_or-set_ne _ (o + 2) j _ 0 (omega arith)
    ∙ get_or-set_ne _ (o + 1) j _ 0 (omega arith)
    ∙ get_or-set_ne p o j _ 0 (omega arith)

pub get_or-wr16 :
    (p : List ℕ) (o v j : ℕ) → (j < o) ⊎ (o + 2 ≤ j) → get_or (wr16 p o v) j 0 ≡ get_or p j 0
unfolding wr16
get_or-wr16 p o v j h =
    get_or-set_ne _ (o + 1) j _ 0 (omega arith) ∙ get_or-set_ne p o j _ 0 (omega arith)

wr16_byte :
    (p : List ℕ) (o v : ℕ)
    → o + 2 ≤ length p
    → (get_or (wr16 p o v) o 0 ≡ u8 v) × (get_or (wr16 p o v) (o + 1) 0 ≡ u8 (v / 2 ^ 8))
unfolding wr16
wr16_byte p o v h =
    let p₁ : List ℕ = set p o (u8 v) in
    (
      get_or-set_ne p₁ (o + 1) o _ 0 (omega arith) ∙ get_or-set_self p o (u8 v) 0 (omega arith),
      get_or-set_self p₁ (o + 1) _ 0 (omega (arith, length-set p o (u8 v))),
    )

-- A half-word below 2^16 that `wr16` writes inside an array is what `rd16` reads there.
pub rd16-wr16 : (p : List ℕ) (o v : ℕ) → o + 2 ≤ length p → v < 2 ^ 16 → rd16 (wr16 p o v) o ≡ v
unfolding rd16
rd16-wr16 p o v h hv =
    let b = wr16_byte p o v h in
    rw (b.0, b.1) (bit_or-shift 8 (u8 v) (u8 (v / 2 ^ 8)) (omega arith) ∙ omega arith)

wr32_byte :
    (p : List ℕ) (o v : ℕ)
    → o + 4 ≤ length p
    → (get_or (wr32 p o v) o 0 ≡ u8 v)
      × (get_or (wr32 p o v) (o + 1) 0 ≡ u8 (v / 2 ^ 8))
      × (get_or (wr32 p o v) (o + 2) 0 ≡ u8 (v / 2 ^ 16))
      × (get_or (wr32 p o v) (o + 3) 0 ≡ u8 (v / 2 ^ 24))
unfolding wr32
wr32_byte p o v h =
    let p₁ : List ℕ = set p o (u8 v) in
    let p₂ : List ℕ = set p₁ (o + 1) (u8 (v / 2 ^ 8)) in
    let p₃ : List ℕ = set p₂ (o + 2) (u8 (v / 2 ^ 16)) in
    let l₁ : length p₁ ≡ length p = length-set p o (u8 v) in
    let l₂ : length p₂ ≡ length p = length-set p₁ (o + 1) _ ∙ l₁ in
    let l₃ : length p₃ ≡ length p = length-set p₂ (o + 2) _ ∙ l₂ in
    (
      get_or-set_ne p₃ (o + 3) o _ 0 (omega arith)
          ∙ get_or-set_ne p₂ (o + 2) o _ 0 (omega arith)
          ∙ get_or-set_ne p₁ (o + 1) o _ 0 (omega arith)
          ∙ get_or-set_self p o (u8 v) 0 (omega arith),
      get_or-set_ne p₃ (o + 3) (o + 1) _ 0 (omega arith)
          ∙ get_or-set_ne p₂ (o + 2) (o + 1) _ 0 (omega arith)
          ∙ get_or-set_self p₁ (o + 1) _ 0 (omega (arith, l₁)),
      get_or-set_ne p₃ (o + 3) (o + 2) _ 0 (omega arith)
          ∙ get_or-set_self p₂ (o + 2) _ 0 (omega (arith, l₂)),
      get_or-set_self p₃ (o + 3) _ 0 (omega (arith, l₃)),
    )

-- A word below 2^32 that `wr32` writes inside an array is what `rd32` reads there.
pub rd32-wr32 : (p : List ℕ) (o v : ℕ) → o + 4 ≤ length p → v < 2 ^ 32 → rd32 (wr32 p o v) o ≡ v
unfolding rd32
rd32-wr32 p o v h hv =
    let b = wr32_byte p o v h in
    rw (b.0, b.1, b.2, b.3)
      (join32 (u8 v) (u8 (v / 2 ^ 8)) (u8 (v / 2 ^ 16)) (u8 (v / 2 ^ 24)) (omega arith)
          (omega arith) (omega arith)
        ∙ omega arith)

-- A word is read as before if its bytes are as before.
pub rd32_same :
    (p q : List ℕ) (o : ℕ)
    → ((j : ℕ) → o ≤ j → j < o + 4 → get_or q j 0 ≡ get_or p j 0)
    → rd32 q o ≡ rd32 p o
unfolding rd32
rd32_same p q o h = cc (
  h o (omega arith) (omega arith),
  h (o + 1) (omega arith) (omega arith),
  h (o + 2) (omega arith) (omega arith),
  h (o + 3) (omega arith) (omega arith),
)

pub rd16_same :
    (p q : List ℕ) (o : ℕ)
    → ((j : ℕ) → o ≤ j → j < o + 2 → get_or q j 0 ≡ get_or p j 0)
    → rd16 q o ≡ rd16 p o
unfolding rd16
rd16_same p q o h = cc (h o (omega arith) (omega arith), h (o + 1) (omega arith) (omega arith))
