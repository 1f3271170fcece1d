-- ===== src/Bits.antt =====
-- Bitwise operations on `u32` words and `u8` bytes, as arithmetic: a word of adjacent fields, the
-- masks that cut fields out, and Rust's shifts and complements at width 32.
mod Step
mod Fields
mod Count
mod Bounds
pub use Step.{bit_and-halves}
pub use Fields.*
pub use Count.*
pub use Bounds.*
unfoldable pub use Count.{count_ones, count_zeros}
