-- ===== src/Tests.antt =====
-- The theorems at concrete inputs.
pub mod Gzip
pub mod Users
pub mod Modules
pub mod Environment
pub mod Processes
pub mod Messages
use micro_container.Prelude.{
  length, get_or, replicate, All, not32, IsByte, ℕ, ◌+◌, ◌-◌, ◌*◌, ◌%◌, ◌^◌, ◌≤◌, ◌<◌, ◌≡◌, refl,
  ◌≢◌, ◌↔◌, ◌⊎◌, true, List, [], ◌∷◌, ◌++◌, arith, take,
}
use micro_container.Mem.Buf.{buf_init, buf_grow, buf_append}
use micro_container.Mem.Buf.Growth.{IsValid, buf_grow_room, buf_append-IsValid}
use micro_container.Mem.Paths.{mem_path, mem_path_escapes}
use micro_container.Mem.Paths.Join.{slashes, mem_path_joint, slashes}
use micro_container.Mem.Paths.Escape.{HasDotDot, mem_path_escapes_iff}
use micro_container.Crc.{
  Tables, untouched, untouched-IsTables, crc32_init, crc32_update, ext4_crc32c, crc32_poly,
  crc32c_poly, serial, crc32_update-serial, crc32_update-append, ext4_crc32c-serial, IsTables,
}
use micro_container.Ext4.Bytes.{rd32, rd16, wr32, wr16}
use micro_container.Ext4.Bytes.RoundTrip.{rd16-wr16, rd32-wr32}
use micro_container.Ext4.Groups.{
  grp_flex_first, grp_bb_blk, is_power, has_super, grp_ib_blk, grp_it_blk,
}
use micro_container.Ext4.Descriptors.{gdt_count_used, grp_blocks, gdt_of_group}
use micro_container.Ext4.Descriptors.ReadBack.{gdt_of_group_read}
use micro_container.Ext4.Checksums.{crc32c_e2fs, gdt_set_csum, desc_csum}
use micro_container.Ext4.Checksums.Verify.{gdt_set_csum_verified}
use micro_container.Ext4.Superblock.{Mkfs, write_superblock}
use micro_container.Ext4.Superblock.Verify.{write_superblock_verified}
use micro_container.Ext4.Groups.Layout.{meta_disjoint, block_bitmap}
use micro_container.Ext4.Groups.Backups.{is_power_iff, IsPower, has_super_iff}

-- "abc" and "de".
abbrev abc : List ℕ
abc = 0x61 ∷ 0x62 ∷ 0x63 ∷ []

abbrev de : List ℕ
de = 0x64 ∷ 0x65 ∷ []

abc-IsByte : All IsByte abc
abc-IsByte = (omega arith, (omega arith, (omega arith, tt)))

de-IsByte : All IsByte de
de-IsByte = (omega arith, (omega arith, tt))

crc32_update-serial_example :
    crc32_update (crc32_init untouched) 0 abc ≡ not32 (serial crc32_poly (not32 0) abc)
crc32_update-serial_example =
    crc32_update-serial untouched 0 abc (untouched-IsTables crc32_poly) abc-IsByte

ext4_crc32c-serial_example :
    ((ext4_crc32c untouched 5 abc).0 ≡ not32 (serial crc32c_poly (not32 5) abc))
    × IsTables crc32c_poly (ext4_crc32c untouched 5 abc).1
ext4_crc32c-serial_example =
    ext4_crc32c-serial untouched 5 abc (untouched-IsTables crc32c_poly) abc-IsByte

empty-IsValid : IsValid buf_init
empty-IsValid = record { counted = refl; inside = omega arith; bounded = omega arith }

buf_append-IsValid_example :
    ((buf_append buf_init abc).bytes ≡ [] ++ abc) × IsValid (buf_append buf_init abc)
buf_append-IsValid_example =
    buf_append-IsValid buf_init empty-IsValid (omega arith) abc (omega arith)

-- "a/" and "/b".
mem_path_joint_example :
    (b a : List ℕ) × (n : ℕ) × (m : ℕ) × (0x61 ∷ b'/' ∷ [] ≡ b ++ slashes n)
    × (b'/' ∷ 0x62 ∷ [] ≡ slashes m ++ a)
    × (get_or b (length b - 1) 0 ≢ b'/')
    × (get_or a 0 0 ≢ b'/')
    × (mem_path (0x61 ∷ b'/' ∷ []) (b'/' ∷ 0x62 ∷ []) ≡ b ++ b'/' ∷ a)
mem_path_joint_example = mem_path_joint (0x61 ∷ b'/' ∷ []) (b'/' ∷ 0x62 ∷ [])

-- "a/..".
abbrev up_path : List ℕ
up_path = 0x61 ∷ b'/' ∷ b'.' ∷ b'.' ∷ []

mem_path_escapes_iff_example : (mem_path_escapes up_path ≡ true) ↔ HasDotDot up_path
mem_path_escapes_iff_example = mem_path_escapes_iff up_path

meta_disjoint_example : ◌≡◌ {A = ℕ} 17 17
meta_disjoint_example =
    meta_disjoint 17 17 (grp_bb_blk 17) (omega arith) (omega arith) block_bitmap block_bitmap

has_super_iff_example :
    (has_super 49 ≡ true) ↔ ((49 ≤ 1) ⊎ (IsPower 3 49 ⊎ (IsPower 5 49 ⊎ IsPower 7 49)))
has_super_iff_example = has_super_iff 49

few_used : gdt_count_used 3 64 16384 ≤ grp_blocks 3
unfolding gdt_count_used grp_blocks has_super grp_flex_first
few_used = omega arith

gdt_of_group_read_example :
    (rd32 (gdt_of_group (replicate 256 0) 192 3 64 16384) (192 + 0x00) ≡ grp_bb_blk 3)
    × (rd32 (gdt_of_group (replicate 256 0) 192 3 64 16384) (192 + 0x04) ≡ grp_ib_blk 3)
    × (rd32 (gdt_of_group (replicate 256 0) 192 3 64 16384) (192 + 0x08) ≡ grp_it_blk 3)
    × (rd16 (gdt_of_group (replicate 256 0) 192 3 64 16384) (192 + 0x0C) + gdt_count_used 3 64 16384
        ≡ grp_blocks 3)
gdt_of_group_read_example =
    gdt_of_group_read (replicate 256 0) 192 3 64 16384 (omega arith) (omega arith) few_used

gdt_set_csum_verified_example :
    rd16 (gdt_set_csum untouched (replicate 256 0) 64 1 7).0 (64 + 0x1E)
    ≡ (desc_csum untouched
        (wr16 (gdt_set_csum untouched (replicate 256 0) 64 1 7).0 (64 + 0x1E) 0)
        64
        1
        7).0
      % 2 ^ 16
gdt_set_csum_verified_example =
    gdt_set_csum_verified untouched (replicate 256 0) 64 1 7 (omega arith)

abbrev parameters : Mkfs
parameters = record { now = 1; seed = 2; uuid = replicate 16 3; hash_seed = replicate 16 4 }

write_superblock_verified_example :
    (length (write_superblock untouched parameters 36029).0 ≡ 1024)
    × (rd32 (write_superblock untouched parameters 36029).0 0x3FC
        ≡ (crc32c_e2fs untouched
            (2 ^ 32 - 1)
            (take 0x3FC (write_superblock untouched parameters 36029).0)).0)
write_superblock_verified_example = write_superblock_verified untouched parameters 36029
