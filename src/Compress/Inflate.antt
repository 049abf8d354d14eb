-- ===== src/Compress/Inflate.antt =====
-- src/compress/inflate.c: the three kinds of deflate blocks. `Lengths` reads the code lengths of a
-- dynamic block, `Symbols` the literals and copies, `Block` a whole block. A result of -1 is `none`,
-- and where a function only answers 0 or -1 its result is a test, `true` for 0.
pub mod Lengths
pub mod Symbols
pub mod Block
