-- ===== src/Ext4/Descriptors.antt =====
-- The group descriptors of src/ext4/sb.c. A pointer to a descriptor is the array of all of them with
-- the offset of the descriptor.
pub mod ReadBack
use micro_container.Prelude.{
  ltb, ◌==◌, if◌then◌else◌, u16, u32, ℕ, ◌+◌, ◌-◌, ◌*◌, ◌^◌, bit_or, not, ◌&&◌, List,
}
use micro_container.Ext4.Bytes.{wr32, wr16}
use micro_container.Ext4.Groups.{
  inodes_per_grp, blocks, groups, blks_per_grp, flex_meta, reserved_gdt, resv_gdt_blks,
  grp_flex_first, grp_flex_base, grp_bb_blk, grp_ib_blk, grp_it_blk, has_super,
}

unfoldable pub gdt_set_addrs : List ℕ → ℕ → ℕ → List ℕ
gdt_set_addrs p d g =
    wr32 (wr32 (wr32 p (d + 0x00) (grp_bb_blk g)) (d + 0x04) (grp_ib_blk g)) (d + 0x08)
      (grp_it_blk g)

unfoldable pub gdt_used_flex : ℕ → ℕ → ℕ → ℕ
gdt_used_flex g fg fb =
    let data_start = if fg == 0 then resv_gdt_blks + flex_meta else u32 (fb + flex_meta) in
    let used = u32 (data_start + 2 ^ 32 - u32 (g * blks_per_grp)) in
    if g == 0 then u32 (used + 2) else used

unfoldable pub gdt_count_used : ℕ → ℕ → ℕ → ℕ
unfolding gdt_used_flex
gdt_count_used g jnl_fg journal_blks =
    let fg = grp_flex_first g in
    let first = if g == fg then gdt_used_flex g fg (grp_flex_base g) else 0 in
    let backed = if has_super g && not (g == fg) then u32 (first + (3 + reserved_gdt)) else first in
    if g == jnl_fg then u32 (backed + journal_blks) else backed

-- The blocks of a group; the last one may be shorter.
unfoldable pub grp_blocks : ℕ → ℕ
grp_blocks g = if ltb g (groups - 1) then blks_per_grp else blocks - g * blks_per_grp

unfoldable pub gdt_set_free_counts : List ℕ → ℕ → ℕ → ℕ → List ℕ
unfolding grp_blocks
gdt_set_free_counts p d g used =
    let free = if ltb used (grp_blocks g) then u16 (grp_blocks g - used) else 0 in
    let free_inodes = if g == 0 then u16 (inodes_per_grp - 11) else u16 inodes_per_grp in
    wr16 (wr16 (wr16 p (d + 0x0C) free) (d + 0x0E) free_inodes) (d + 0x10) (if g == 0 then 1 else 0)

unfoldable pub gdt_set_flags : List ℕ → ℕ → ℕ → ℕ → List ℕ
gdt_set_flags p d g used =
    let flags = if used == 0 && not (g == groups - 1) then bit_or 0 2 else 0 in
    wr16 p (d + 0x12) (if ltb 0 g then bit_or flags 4 else flags)

unfoldable pub gdt_of_group : List ℕ → ℕ → ℕ → ℕ → ℕ → List ℕ
unfolding gdt_set_addrs gdt_count_used gdt_set_free_counts gdt_set_flags
gdt_of_group p d g jnl_fg journal_blks =
    let used = gdt_count_used g jnl_fg journal_blks in
    gdt_set_flags (gdt_set_free_counts (gdt_set_addrs p d g) d g used) d g used
