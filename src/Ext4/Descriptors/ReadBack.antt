-- ===== src/Ext4/Descriptors/ReadBack.antt =====
-- What a descriptor holds after `gdt_of_group`.
use micro_container.Prelude.{
  ltb, if◌then◌else◌, length, u16, ℕ, ◌+◌, ◌-◌, ◌^◌, ◌≤◌, ◌<◌, ◌≡◌, ap, ◌∙◌, ◌⊎◌, List, arith,
}
use micro_container.Ext4.Bytes.{rd32, rd16, wr32, wr16}
use micro_container.Ext4.Bytes.RoundTrip.{
  length-wr32, get_or-wr32, get_or-wr16, rd16-wr16, rd32-wr32, rd32_same, rd16_same,
}
use micro_container.Ext4.Groups.{groups, blks_per_grp, grp_bb_blk, grp_ib_blk, grp_it_blk}
use micro_container.Ext4.Descriptors.{
  gdt_set_addrs, gdt_count_used, grp_blocks, gdt_set_free_counts, gdt_set_flags, gdt_of_group,
}

rd32_past_wr16 :
    (p : List ℕ) (o v r : ℕ) → (r + 4 ≤ o) ⊎ (o + 2 ≤ r) → rd32 (wr16 p o v) r ≡ rd32 p r
rd32_past_wr16 p o v r h = rd32_same p (wr16 p o v) r (λ j a b. get_or-wr16 p o v j (omega arith))

rd32_past_wr32 :
    (p : List ℕ) (o v r : ℕ) → (r + 4 ≤ o) ⊎ (o + 4 ≤ r) → rd32 (wr32 p o v) r ≡ rd32 p r
rd32_past_wr32 p o v r h = rd32_same p (wr32 p o v) r (λ j a b. get_or-wr32 p o v j (omega arith))

rd16_past_wr16 :
    (p : List ℕ) (o v r : ℕ) → (r + 2 ≤ o) ⊎ (o + 2 ≤ r) → rd16 (wr16 p o v) r ≡ rd16 p r
rd16_past_wr16 p o v r h = rd16_same p (wr16 p o v) r (λ j a b. get_or-wr16 p o v j (omega arith))

addresses_fit :
    (g : ℕ) → (grp_bb_blk g < 2 ^ 32) × (grp_ib_blk g < 2 ^ 32) × (grp_it_blk g < 2 ^ 32)
unfolding grp_bb_blk grp_ib_blk grp_it_blk
addresses_fit g = (ground arith, ground arith, ground arith)

addrs_read :
    (p : List ℕ) (d g : ℕ)
    → d + 64 ≤ length p
    → (rd32 (gdt_set_addrs p d g) (d + 0x00) ≡ grp_bb_blk g)
      × (rd32 (gdt_set_addrs p d g) (d + 0x04) ≡ grp_ib_blk g)
      × (rd32 (gdt_set_addrs p d g) (d + 0x08) ≡ grp_it_blk g)
      × (length (gdt_set_addrs p d g) ≡ length p)
unfolding gdt_set_addrs
addrs_read p d g h =
    let fit = addresses_fit g in
    let p₁ = wr32 p (d + 0x00) (grp_bb_blk g) in
    let p₂ = wr32 p₁ (d + 0x04) (grp_ib_blk g) in
    let l₁ : length p₁ ≡ length p = length-wr32 p (d + 0x00) (grp_bb_blk g) in
    let l₂ : length p₂ ≡ length p₁ = length-wr32 p₁ (d + 0x04) (grp_ib_blk g) in
    (
      rd32_past_wr32 p₂ (d + 0x08) (grp_it_blk g) (d + 0x00) (omega arith)
          ∙ rd32_past_wr32 p₁ (d + 0x04) (grp_ib_blk g) (d + 0x00) (omega arith)
          ∙ rd32-wr32 p (d + 0x00) (grp_bb_blk g) (omega arith) fit.0,
      rd32_past_wr32 p₂ (d + 0x08) (grp_it_blk g) (d + 0x04) (omega arith)
          ∙ rd32-wr32 p₁ (d + 0x04) (grp_ib_blk g) (omega arith) fit.1,
      rd32-wr32 p₂ (d + 0x08) (grp_it_blk g) (omega arith) fit.2,
      length-wr32 p₂ (d + 0x08) (grp_it_blk g) ∙ l₂ ∙ l₁,
    )

tail_keeps :
    (p : List ℕ) (d g used r : ℕ)
    → r + 4 ≤ d + 0x0C
    → rd32 (gdt_set_flags (gdt_set_free_counts p d g used) d g used) r ≡ rd32 p r
unfolding gdt_set_flags gdt_set_free_counts
tail_keeps p d g used r h =
    rd32_past_wr16 _ (d + 0x12) _ r (omega arith)
    ∙ rd32_past_wr16 _ (d + 0x10) _ r (omega arith)
    ∙ rd32_past_wr16 _ (d + 0x0E) _ r (omega arith)
    ∙ rd32_past_wr16 p (d + 0x0C) _ r (omega arith)

free_read :
    (p : List ℕ) (d g used : ℕ)
    → d + 64 ≤ length p
    → used ≤ grp_blocks g
    → grp_blocks g ≤ blks_per_grp
    → rd16 (gdt_set_flags (gdt_set_free_counts p d g used) d g used) (d + 0x0C) + used
      ≡ grp_blocks g
unfolding gdt_set_flags gdt_set_free_counts
free_read p d g used h le small =
    let free = if ltb used (grp_blocks g) then u16 (grp_blocks g - used) else 0 in
    let fit : free < 2 ^ 16 = ground arith in
    let e : rd16 (wr16 p (d + 0x0C) free) (d + 0x0C) ≡ free =
      rd16-wr16 p (d + 0x0C) free (omega arith) fit in
    let total : free + used ≡ grp_blocks g = ground arith in
    let past =
      rd16_past_wr16 _ (d + 0x12) _ (d + 0x0C) (omega arith)
      ∙ rd16_past_wr16 _ (d + 0x10) _ (d + 0x0C) (omega arith)
      ∙ rd16_past_wr16 (wr16 p (d + 0x0C) free) (d + 0x0E) _ (d + 0x0C) (omega arith) in
    ap (λ x. x + used) (past ∙ e) ∙ total

grp_blocks-le : (g : ℕ) → g < groups → grp_blocks g ≤ blks_per_grp
unfolding grp_blocks
grp_blocks-le g h = ground arith

-- A descriptor that `gdt_of_group` writes inside the array reads back as the three addresses of its
-- group, and its free blocks and the used ones, where these are no more than the group has, make up
-- the group.
pub gdt_of_group_read :
    (p : List ℕ) (d g jnl_fg journal_blks : ℕ)
    → d + 64 ≤ length p
    → g < groups
    → gdt_count_used g jnl_fg journal_blks ≤ grp_blocks g
    → (rd32 (gdt_of_group p d g jnl_fg journal_blks) (d + 0x00) ≡ grp_bb_blk g)
      × (rd32 (gdt_of_group p d g jnl_fg journal_blks) (d + 0x04) ≡ grp_ib_blk g)
      × (rd32 (gdt_of_group p d g jnl_fg journal_blks) (d + 0x08) ≡ grp_it_blk g)
      × (rd16 (gdt_of_group p d g jnl_fg journal_blks) (d + 0x0C)
            + gdt_count_used g jnl_fg journal_blks
          ≡ grp_blocks g)
unfolding gdt_of_group
gdt_of_group_read p d g jnl_fg journal_blks h hg le =
    let used = gdt_count_used g jnl_fg journal_blks in
    let q = gdt_set_addrs p d g in
    let a = addrs_read p d g h in
    (
      tail_keeps q d g used (d + 0x00) (omega arith) ∙ a.0,
      tail_keeps q d g used (d + 0x04) (omega arith) ∙ a.1,
      tail_keeps q d g used (d + 0x08) (omega arith) ∙ a.2,
      free_read q d g used (omega (arith, a.3)) le (grp_blocks-le g hg),
    )
