-- ===== src/Compress.antt =====
-- src/compress: the gzip reader. `BitReader` is bitread.c's stream, `Huffman` its code tables,
-- `Inflate` is inflate.c and `Gzip` is decompress.c.
pub mod BitReader
pub mod Huffman
pub mod Inflate
pub mod Gzip
