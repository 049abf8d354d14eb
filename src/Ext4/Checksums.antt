-- ===== src/Ext4/Checksums.antt =====
-- The checksums of descriptors, inodes and directories, and extents: src/ext4/util.c, with the
-- wrapper of csum.h. Each takes the static table of the checksum and returns it.
pub mod Verify
use micro_container.Prelude.{
  take, drop, replicate, u16, u32, not32, ℕ, ◌+◌, ◌-◌, ◌/◌, ◌^◌, bit_and, List,
}
use micro_container.Crc.{Tables, ext4_crc32c}
use micro_container.Ext4.Bytes.{rd32, wr32, wr16}
use micro_container.Ext4.Groups.{desc_size, inode_size}

unfoldable pub crc32c_e2fs : Tables → ℕ → List ℕ → ℕ × Tables
unfolding ext4_crc32c
crc32c_e2fs s crc bytes = let (v, s') = ext4_crc32c s (not32 crc) bytes in (not32 v, s')

-- `len` bytes from the pointer on.
abbrev pub slice : List ℕ → ℕ → ℕ → List ℕ
slice p o len = take len (drop o p)

-- The four bytes of a word.
abbrev pub word : ℕ → List ℕ
word v = wr32 (replicate 4 0) 0 v

-- The checksum that `gdt_set_csum` computes, and the static table afterwards.
unfoldable pub desc_csum : Tables → List ℕ → ℕ → ℕ → ℕ → ℕ × Tables
unfolding crc32c_e2fs
desc_csum s p d g seed =
    let (c, s') = crc32c_e2fs s seed (word g) in crc32c_e2fs s' c (slice p d desc_size)

unfoldable pub gdt_set_csum : Tables → List ℕ → ℕ → ℕ → ℕ → List ℕ × Tables
unfolding desc_csum
gdt_set_csum s p d g seed =
    let q = wr16 p (d + 0x1E) 0 in
    let (c, s') = desc_csum s q d g seed in (wr16 q (d + 0x1E) (u16 (bit_and c 0xFFFF)), s')

-- The checksum that `inode_set_csum` computes, and the static table afterwards.
unfoldable pub inode_csum : Tables → List ℕ → ℕ → ℕ → ℕ → ℕ × Tables
unfolding crc32c_e2fs
inode_csum s p o ino seed =
    let (c, s₁) = crc32c_e2fs s seed (word ino) in
    let (c', s₂) = crc32c_e2fs s₁ c (word (rd32 p (o + 0x64))) in
    crc32c_e2fs s₂ c' (slice p o inode_size)

unfoldable pub inode_set_csum : Tables → List ℕ → ℕ → ℕ → ℕ → List ℕ × Tables
unfolding inode_csum
inode_set_csum s p o ino seed =
    let q = wr16 (wr16 p (o + 0x7C) 0) (o + 0x82) 0 in
    let (c, s') = inode_csum s q o ino seed in
    (wr16 (wr16 q (o + 0x7C) (u16 (bit_and c 0xFFFF))) (o + 0x82) (u16 (c / 2 ^ 16)), s')

unfoldable pub dir_csum : Tables → ℕ → List ℕ → ℕ → ℕ → ℕ → ℕ × Tables
unfolding crc32c_e2fs
dir_csum s seed blk ino gen blk_size_ =
    let (c, s₁) = crc32c_e2fs s seed (word ino) in
    let (c', s₂) = crc32c_e2fs s₁ c (word gen) in crc32c_e2fs s₂ c' (take (blk_size_ - 12) blk)

unfoldable pub extent_set : List ℕ → ℕ → ℕ → ℕ → ℕ → List ℕ
extent_set p o ee_block ee_len ee_start =
    let a = wr16 (wr16 (wr16 (wr16 p (o + 0x00) 0xF30A) (o + 0x02) 1) (o + 0x04) 4) (o + 0x06) 0 in
    let b = wr16 (wr32 (wr32 a (o + 0x08) 0) (o + 0x0C) ee_block) (o + 0x10) ee_len in
    wr32 (wr16 b (o + 0x12) (u16 (ee_start / 2 ^ 32))) (o + 0x14)
      (u32 (bit_and ee_start 0xFFFFFFFF))
