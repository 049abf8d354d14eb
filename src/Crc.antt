-- ===== src/Crc.antt =====
-- The two table-driven checksums, src/compress/crc32.c (CRC-32, for gzip) and src/ext4/csum.c
-- (CRC-32C, for ext4). Their loops are the same up to the polynomial, which is an argument here.
-- The static table and its flag are the record `Tables`; the data of a call is its list of bytes.
mod Round
mod Table
mod Serial
unfoldable pub use Round.{rounds}
pub use Round.{round_linear}
unfoldable pub use Table.{crc32_init, crc32_update, ext4_crc32c}
pub use Table.{Tables, IsTables, untouched, untouched-IsTables, crc32_poly, crc32c_poly}
pub use Serial.*
