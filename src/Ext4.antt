-- ===== src/Ext4.antt =====
-- src/ext4: the writer of an empty ext4 image of 80 block groups. `Bytes` is the little-endian access
-- of util.c, `Groups` the placing of metadata, `Descriptors` and `Superblock` the structures of sb.c,
-- and `Checksums` the checksums and extents of util.c.
pub mod Bytes
pub mod Groups
pub mod Descriptors
pub mod Checksums
pub mod Superblock
