-- ===== src/Ext4/Superblock.antt =====
-- The superblock of src/ext4/sb.c as an array of 1024 bytes.
pub mod Verify
use micro_container.Prelude.{
  set, take, replicate, u16, u32, ℕ, ◌+◌, ◌-◌, ◌*◌, ◌/◌, ◌^◌, bit_and, bit_or, List, [], ◌∷◌,
}
use micro_container.Crc.{Tables}
use micro_container.Ext4.Bytes.{wr32, wr16}
use micro_container.Ext4.Groups.{
  blk_size, inodes_per_grp, desc_size, blocks, groups, blks_per_grp, inode_size, flex_meta,
  reserved_gdt, grp_flex_first,
}
use micro_container.Ext4.Checksums.{crc32c_e2fs}

-- `struct mkfs` without the file.
pub record Mkfs : Type 0 where
  pub now : ℕ
  pub seed : ℕ
  pub uuid : List ℕ
  pub hash_seed : List ℕ

-- `memcpy(p + o, bytes, …)` of all the bytes.
unfoldable pub memcpy : List ℕ → ℕ → List ℕ → List ℕ
memcpy p o [] = p
memcpy p o (b ∷ bytes) = memcpy (set p o b) (o + 1) bytes

-- The loops over the tables of offsets and values.
unfoldable pub write_u32s : List ℕ → List (ℕ × ℕ) → List ℕ
write_u32s sb [] = sb
write_u32s sb (e ∷ tbl) = write_u32s (wr32 sb e.0 e.1) tbl

unfoldable pub write_u16s : List ℕ → List (ℕ × ℕ) → List ℕ
write_u16s sb [] = sb
write_u16s sb (e ∷ tbl) = write_u16s (wr16 sb e.0 e.1) tbl

unfoldable pub fill_jbd2_extent : List ℕ → ℕ → List ℕ
fill_jbd2_extent j jnl_start =
    let a = wr16 (wr16 (wr16 (wr16 j 0 0xF30A) 2 1) 4 4) 6 0 in
    let b = wr16 (wr32 (wr32 a 8 0) 12 0) 16 16384 in
    let c = wr32 (wr16 b 18 (u16 (jnl_start / 2 ^ 32))) 20 (u32 (bit_and jnl_start 0xFFFFFFFF)) in
    wr32 (wr32 c 60 0) 64 (16384 * blk_size)

unfoldable pub fill_sb_jnl : List ℕ → ℕ → List ℕ
unfolding fill_jbd2_extent memcpy
fill_sb_jnl sb jnl_start = memcpy sb 0x10C (fill_jbd2_extent (replicate 68 0) jnl_start)

unfoldable pub sb_write_u32s_a : List ℕ → ℕ → List ℕ
unfolding write_u32s
sb_write_u32s_a sb used_blks = write_u32s sb (
    (0x000, inodes_per_grp * groups)
    ∷ (0x004, blocks)
    ∷ (0x008, 0)
    ∷ (0x00C, u32 (blocks + 2 ^ 32 - used_blks))
    ∷ (0x010, inodes_per_grp * groups - 11)
    ∷ (0x014, 0)
    ∷ (0x018, 2)
    ∷ (0x01C, 2)
    ∷ (0x020, blks_per_grp)
    ∷ (0x024, blks_per_grp)
    ∷ (0x028, inodes_per_grp)
    ∷ (0x02C, 0)
    ∷ (0x248, used_blks)
    ∷ [])

-- COMPAT, with RESIZE_INODE and ORPHAN_FILE.
abbrev pub compat : ℕ
compat = bit_or (bit_or 0x2C 0x10) 0x1000

unfoldable pub sb_write_u32s_b : List ℕ → ℕ → ℕ → List ℕ
unfolding write_u32s
sb_write_u32s_b sb now seed = write_u32s sb (
    (0x030, now)
    ∷ (0x034, 0)
    ∷ (0x040, now)
    ∷ (0x04C, 1)
    ∷ (0x054, 11)
    ∷ (0x05C, compat)
    ∷ (0x060, 0x22C2)
    ∷ (0x064, 0x46B)
    ∷ (0x0E0, 8)
    ∷ (0x104, 0)
    ∷ (0x108, now)
    ∷ (0x268, 0)
    ∷ (0x270, seed)
    ∷ [])

unfoldable pub sb_write_u16s : List ℕ → List ℕ
unfolding write_u16s
sb_write_u16s sb = write_u16s sb (
    (0x036, 0xFFFF)
    ∷ (0x038, 0xEF53)
    ∷ (0x03A, 1)
    ∷ (0x03C, 1)
    ∷ (0x03E, 0)
    ∷ (0x050, 0)
    ∷ (0x052, 0)
    ∷ (0x058, inode_size)
    ∷ (0x05A, 0)
    ∷ (0x0CE, reserved_gdt)
    ∷ (0x0FE, desc_size)
    ∷ (0x15C, 32)
    ∷ (0x15E, 32)
    ∷ [])

unfoldable pub sb_set_scalars : List ℕ → List ℕ → List ℕ
unfolding memcpy
sb_set_scalars sb hash_seed =
    let a = memcpy sb 0xEC hash_seed in
    let b = set (set (set (set a 0x0FC 1) 0x0FD 1) 0x174 4) 0x175 1 in
    wr32 (wr32 (wr32 b 0x100 0x0C) 0x160 1) 0x280 12

-- `write_superblock` up to its checksum.
unfoldable pub superblock_body : Mkfs → ℕ → List ℕ
unfolding sb_write_u32s_a sb_write_u32s_b sb_write_u16s sb_set_scalars fill_sb_jnl
superblock_body m used_blks =
    let a = sb_write_u32s_b (sb_write_u32s_a (replicate 1024 0) used_blks) m.now m.seed in
    let b = sb_set_scalars (memcpy (sb_write_u16s a) 0x068 m.uuid) m.hash_seed in
    fill_sb_jnl b (u32 (grp_flex_first (groups - 1) * blks_per_grp + flex_meta))

-- The bytes that `write_superblock` writes, and the static table of the checksum.
unfoldable pub write_superblock : Tables → Mkfs → ℕ → List ℕ × Tables
unfolding superblock_body
write_superblock s m used_blks =
    let sb = superblock_body m used_blks in
    let (c, s') = crc32c_e2fs s (2 ^ 32 - 1) (take 0x3FC sb) in (wr32 sb 0x3FC c, s')
