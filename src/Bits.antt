-- ===== src/Bits.antt =====
-- Laws of `&`, `|` and `^` on native numbers, which the libraries give only by digit recursion.
mod Step
mod Field
mod Xor
pub use Field.*
pub use Xor.*
