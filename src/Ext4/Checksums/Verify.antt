-- ===== src/Ext4/Checksums/Verify.antt =====
-- A stored checksum is the one that a reader computes, who clears the field first.
use micro_container.Prelude.{
  length, set, u8, u16, ℕ, zero, suc, ◌+◌, ◌/◌, ◌%◌, ◌^◌, ◌≤◌, bit_and, ◌≡◌, refl, sym, ap, ◌∙◌,
  ◌≢◌, List, [], ◌∷◌, arith,
}
use micro_container.Bits.{bit_and-mask}
use micro_container.Crc.{Tables}
use micro_container.Ext4.Bytes.{rd16, wr16}
use micro_container.Ext4.Bytes.RoundTrip.{length-wr16, rd16-wr16}
use micro_container.Ext4.Checksums.{desc_csum, gdt_set_csum}

set-set : {A : Type 0} (xs : List A) (i : ℕ) (v w : A) → set (set xs i v) i w ≡ set xs i w
set-set [] i v w = refl
set-set (x ∷ xs) zero v w = refl
set-set (x ∷ xs) (suc i) v w = ap (◌∷◌ x) (set-set xs i v w)

set_comm :
    {A : Type 0} (xs : List A) (i j : ℕ) (v w : A)
    → i ≢ j
    → set (set xs i v) j w ≡ set (set xs j w) i v
set_comm [] i j v w ne = refl
set_comm (x ∷ xs) zero zero v w ne = absurd (ne refl)
set_comm (x ∷ xs) zero (suc j) v w ne = refl
set_comm (x ∷ xs) (suc i) zero v w ne = refl
set_comm (x ∷ xs) (suc i) (suc j) v w ne = ap (◌∷◌ x) (set_comm xs i j v w (λ e. ne (ap suc e)))

wr16_again : (p : List ℕ) (o v w : ℕ) → wr16 (wr16 p o v) o w ≡ wr16 p o w
unfolding wr16
wr16_again p o v w =
    ap (λ x. set x (o + 1) (u8 (w / 2 ^ 8)))
      (set_comm (set p o (u8 v)) (o + 1) o (u8 (v / 2 ^ 8)) (u8 w) (λ e. absurd (omega arith)))
    ∙ set-set (set (set p o (u8 v)) o (u8 w)) (o + 1) (u8 (v / 2 ^ 8)) (u8 (w / 2 ^ 8))
    ∙ ap (λ x. set x (o + 1) (u8 (w / 2 ^ 8))) (set-set p o (u8 v) (u8 w))

-- The checksum field of a descriptor that `gdt_set_csum` wrote is the low half of the checksum of
-- the descriptor with that field cleared.
pub gdt_set_csum_verified :
    (s : Tables) (p : List ℕ) (d g seed : ℕ)
    → d + 64 ≤ length p
    → rd16 (gdt_set_csum s p d g seed).0 (d + 0x1E)
      ≡ (desc_csum s (wr16 (gdt_set_csum s p d g seed).0 (d + 0x1E) 0) d g seed).0 % 2 ^ 16
unfolding gdt_set_csum
gdt_set_csum_verified s p d g seed h =
    let q = wr16 p (d + 0x1E) 0 in
    let c = (desc_csum s q d g seed).0 in
    let long : length q ≡ length p = length-wr16 p (d + 0x1E) 0 in
    let low : bit_and c 0xFFFF ≡ c % 2 ^ 16 = bit_and-mask 16 c in
    let v = u16 (bit_and c 0xFFFF) in
    let cleared : wr16 (wr16 q (d + 0x1E) v) (d + 0x1E) 0 ≡ q =
      wr16_again q (d + 0x1E) v 0 ∙ wr16_again p (d + 0x1E) 0 0 in
    rd16-wr16 q (d + 0x1E) v (omega arith) (omega arith)
    ∙ omega (arith, low)
    ∙ ap (λ x. (desc_csum s x d g seed).0 % 2 ^ 16) (sym cleared)
