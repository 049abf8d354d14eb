-- ===== src/Ext4/Groups/Layout.antt =====
-- The metadata blocks of the groups do not overlap.
use mathlib.Core.Path.{subst}
use micro_container.Prelude.{
  Bool-cases, ==→eq, ◌⊎◌, inl, inr, ◌≤◌, sym, ◌∙◌, refl, ◌==◌, if◌then◌else◌, ℕ, ◌+◌, ◌*◌, ◌/◌, ◌%◌,
  ◌<◌, ◌≡◌, arith,
}
use micro_container.Ext4.Groups.{
  groups, it_blks_per_grp, resv_gdt_blks, grp_bb_blk, grp_ib_blk, grp_it_blk,
}

-- The first block behind the superblock's own area in the flex group of `g`.
meta_base : ℕ → ℕ
meta_base g = if g / 16 == 0 then resv_gdt_blks else g / 16 * 16 * 32768

-- The three addresses, as offsets in the flex group's metadata.
addresses :
    (g : ℕ)
    → g < groups
    → (grp_bb_blk g ≡ meta_base g + g % 16)
      × (grp_ib_blk g ≡ meta_base g + 16 + g % 16)
      × (grp_it_blk g ≡ meta_base g + 32 + g % 16 * 128)
unfolding grp_bb_blk grp_ib_blk grp_it_blk meta_base
addresses g h = (ground arith, ground arith, ground arith)

-- The metadata of group `g`: two bitmap blocks and 128 blocks of inode table.
pub data IsMeta (g : ℕ) : ℕ → Type 0 where
  block_bitmap : IsMeta g (grp_bb_blk g)
  inode_bitmap : IsMeta g (grp_ib_blk g)
  inode_table : (i : ℕ) → i < it_blks_per_grp → IsMeta g (grp_it_blk g + i)

-- Where a block of the metadata of group `g` lies behind the base of its flex group.
IsSlot : ℕ → ℕ → Type 0
IsSlot g k = (k ≡ g % 16) ⊎ (k ≡ 16 + g % 16) ⊎ ((32 + g % 16 * 128 ≤ k) × (k < 160 + g % 16 * 128))

slot : (g b : ℕ) → g < groups → IsMeta g b → (k : ℕ) × (b ≡ meta_base g + k) × IsSlot g k
unfolding IsSlot
slot g _ h block_bitmap = (g % 16, (addresses g h).0, inl refl)
slot g _ h inode_bitmap = (16 + g % 16, (let e = (addresses g h).1 in omega arith), inr (inl refl))
slot g _ h (inode_table i lt) = (
  32 + g % 16 * 128 + i,
  (let e = (addresses g h).2 in omega arith),
  inr (inr (omega arith, omega arith)),
)

slot-bound : (g k : ℕ) → IsSlot g k → k < 2080
unfolding IsSlot
slot-bound g k s = ground arith

slot-injective : (g h k : ℕ) → IsSlot g k → IsSlot h k → g % 16 ≡ h % 16
unfolding IsSlot
slot-injective g h k s t = ground arith

base-cases :
    (g : ℕ)
    → ((g / 16 ≡ 0) × (meta_base g ≡ 1027)) ⊎ ((0 < g / 16) × (meta_base g ≡ g / 16 * 524288))
unfolding meta_base
base-cases g = elim (Bool-cases (g / 16 == 0)) [
  | inl first ↦ let z = ==→eq (g / 16) 0 first in inl (z, simp first refl)
  | inr later ↦ inr (ground arith, simp later (omega arith))
]

base-injective :
    (g h k l : ℕ)
    → k < 2080
    → l < 2080
    → meta_base g + k ≡ meta_base h + l
    → (g / 16 ≡ h / 16) × (k ≡ l)
base-injective g h k l lk ll e =
    let c = base-cases g in
    let d = base-cases h in let q : g / 16 ≡ h / 16 = ground arith in (q, ground arith)

-- No block is metadata of two groups: where a block is a bitmap or a block of the inode table of
-- the groups `g` and `h`, both below 80, `g` and `h` are equal.
pub meta_disjoint : (g h b : ℕ) → g < groups → h < groups → IsMeta g b → IsMeta h b → g ≡ h
meta_disjoint g h b lg lh mg mh =
    let (k, ek, sk) = slot g b lg mg in
    let (l, el, sl) = slot h b lh mh in
    let (q, same) = base-injective g h k l (slot-bound g k sk) (slot-bound h l sl) (sym ek ∙ el) in
    let r = slot-injective g h k sk (subst (IsSlot h) (sym same) sl) in omega arith
