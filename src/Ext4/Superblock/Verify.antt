-- ===== src/Ext4/Superblock/Verify.antt =====
-- The superblock's checksum, as a reader verifies it.
use micro_container.Prelude.{
  length, set, take, length-set, ℕ, zero, suc, ◌+◌, ◌-◌, ◌^◌, ◌≤◌, ◌<◌, ◌≡◌, refl, sym, ap, ◌∙◌,
  List, [], ◌∷◌, arith,
}
use micro_container.Crc.{Tables}
use micro_container.Ext4.Bytes.{rd32, wr32, wr16}
use micro_container.Ext4.Bytes.RoundTrip.{length-wr32, rd32-wr32}
use micro_container.Ext4.Checksums.{crc32c_e2fs}
use micro_container.Ext4.Superblock.{
  Mkfs, memcpy, fill_sb_jnl, sb_write_u32s_a, sb_write_u32s_b, sb_write_u16s, sb_set_scalars,
  superblock_body, write_superblock,
}

take-set :
    {A : Type 0} (n : ℕ) (xs : List A) (i : ℕ) (v : A) → n ≤ i → take n (set xs i v) ≡ take n xs
take-set zero xs i v h = refl
take-set (suc n) [] i v h = refl
take-set (suc n) (x ∷ xs) zero v h = absurd (omega arith)
take-set (suc n) (x ∷ xs) (suc i) v h = ap (◌∷◌ x) (take-set n xs i v (omega arith))

take-wr32 : (n : ℕ) (p : List ℕ) (o v : ℕ) → n ≤ o → take n (wr32 p o v) ≡ take n p
unfolding wr32
take-wr32 n p o v h =
    take-set n _ (o + 3) _ (omega arith)
    ∙ take-set n _ (o + 2) _ (omega arith)
    ∙ take-set n _ (o + 1) _ (omega arith)
    ∙ take-set n p o _ h

pub length-memcpy : (p : List ℕ) (o : ℕ) (bytes : List ℕ) → length (memcpy p o bytes) ≡ length p
unfolding memcpy
length-memcpy p o [] = refl
length-memcpy p o (b ∷ bytes) = length-memcpy (set p o b) (o + 1) bytes ∙ length-set p o b

length-superblock_body : (m : Mkfs) (used : ℕ) → length (superblock_body m used) ≡ 1024
unfolding superblock_body sb_write_u32s_a sb_write_u32s_b sb_write_u16s sb_set_scalars fill_sb_jnl
    wr16
length-superblock_body m used = simp (length-memcpy, length-wr32, length-set)

crc-fits : (s : Tables) (crc : ℕ) (bytes : List ℕ) → (crc32c_e2fs s crc bytes).0 < 2 ^ 32
unfolding crc32c_e2fs
crc-fits s crc bytes = omega arith

-- The superblock that is written has 1024 bytes, and its last word is the checksum of the bytes
-- before it, whatever the parameters of the image are.
pub write_superblock_verified :
    (s : Tables) (m : Mkfs) (used_blks : ℕ)
    → (length (write_superblock s m used_blks).0 ≡ 1024)
      × (rd32 (write_superblock s m used_blks).0 0x3FC
          ≡ (crc32c_e2fs s (2 ^ 32 - 1) (take 0x3FC (write_superblock s m used_blks).0)).0)
unfolding write_superblock
write_superblock_verified s m used_blks =
    let sb = superblock_body m used_blks in
    let long : length sb ≡ 1024 = length-superblock_body m used_blks in
    let c = (crc32c_e2fs s (2 ^ 32 - 1) (take 0x3FC sb)).0 in
    (
      length-wr32 sb 0x3FC c ∙ long,
      rd32-wr32 sb 0x3FC c (omega arith) (crc-fits s (2 ^ 32 - 1) (take 0x3FC sb))
          ∙ ap (λ x. (crc32c_e2fs s (2 ^ 32 - 1) x).0)
              (sym (take-wr32 0x3FC sb 0x3FC c (omega arith))),
    )
