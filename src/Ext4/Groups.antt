-- ===== src/Ext4/Groups.antt =====
-- Where the metadata of a block group lies, and which groups hold a backup of the superblock:
-- src/ext4/util.h and util.c. Sixteen groups make a flex group, whose first group holds the
-- bitmaps and inode tables of all sixteen.
pub mod Layout
pub mod Backups
use micro_container.Prelude.{
  leb, ◌==◌, if◌then◌else◌, u32, ℕ, zero, suc, ◌+◌, ◌-◌, ◌*◌, ◌/◌, ◌%◌, bit_and, Bool, true, false,
  not, ◌&&◌, ◌||◌,
}

abbrev pub blk_size : ℕ
blk_size = 4096

abbrev pub inodes_per_grp : ℕ
inodes_per_grp = 2048

abbrev pub desc_size : ℕ
desc_size = 64

abbrev pub blocks : ℕ
blocks = 2621440

abbrev pub groups : ℕ
groups = 80

abbrev pub blks_per_grp : ℕ
blks_per_grp = 32768

abbrev pub inode_size : ℕ
inode_size = 256

abbrev pub flex_grp_size : ℕ
flex_grp_size = 16

abbrev pub it_blks_per_grp : ℕ
it_blks_per_grp = inodes_per_grp * inode_size / blk_size

abbrev pub flex_meta : ℕ
flex_meta = 2 * flex_grp_size + flex_grp_size * it_blks_per_grp

abbrev pub reserved_gdt : ℕ
reserved_gdt = 1024

abbrev pub resv_gdt_blks : ℕ
resv_gdt_blks = 3 + reserved_gdt

unfoldable pub grp_flex_first : ℕ → ℕ
grp_flex_first g = u32 (g / 16 * 16)

unfoldable pub grp_flex_base : ℕ → ℕ
unfolding grp_flex_first
grp_flex_base g = u32 (grp_flex_first g * 32768)

unfoldable pub grp_bb_blk : ℕ → ℕ
unfolding grp_flex_base
grp_bb_blk g =
    let f = grp_flex_first g in
    if f == 0 then u32 (resv_gdt_blks + g - f) else u32 (grp_flex_base g + g - f)

unfoldable pub grp_ib_blk : ℕ → ℕ
unfolding grp_flex_base
grp_ib_blk g =
    let f = grp_flex_first g in
    if f == 0
    then u32 (resv_gdt_blks + flex_grp_size + g - f)
    else u32 (grp_flex_base g + flex_grp_size + g - f)

unfoldable pub grp_it_blk : ℕ → ℕ
unfolding grp_flex_base
grp_it_blk g =
    let f = grp_flex_first g in
    if f == 0
    then u32 (resv_gdt_blks + 2 * flex_grp_size + (g - f) * it_blks_per_grp)
    else u32 (grp_flex_base g + 2 * flex_grp_size + (g - f) * it_blks_per_grp)

-- `while (n % b == 0) n /= b; return n == 1;` on fuel.
unfoldable pub power_loop : ℕ → ℕ → ℕ → Bool
power_loop zero n b = n == 1
power_loop (suc fuel) n b =
    let divided = power_loop fuel (n / b) b in if n % b == 0 then divided else n == 1

-- Each round divides, so `n` rounds are enough where `b` is at least 2.
unfoldable pub is_power : ℕ → ℕ → Bool
unfolding power_loop
is_power n b = if n == 0 then false else power_loop n n b

unfoldable pub has_super : ℕ → Bool
unfolding is_power
has_super g =
    if leb g 1
    then true
    else not (bit_and g 1 == 0) && (is_power g 3 || is_power g 5 || is_power g 7)

-- The loop of `count_backup_blks`, with the rounds left.
unfoldable pub backup_loop : ℕ → ℕ → ℕ → ℕ
unfolding has_super
backup_loop zero g n = n
backup_loop (suc left) g n = backup_loop left (g + 1) (if has_super g then u32 (n + 3) else n)

unfoldable pub count_backup_blks : ℕ
unfolding backup_loop
count_backup_blks = backup_loop 79 1 0
