-- ===== src/Base/Bits.antt =====
-- The binary operations of the source on unsigned words: masks, complements and exclusive or.
mod Digits
mod Masks
mod Xor
pub use Digits.*
pub use Masks.*
pub use Xor.*
