-- ===== src/Store/Bitfield/Bit.antt =====
-- crates/store/src/format/bitfield.rs: `Bit`. A bit is set by turning it to zero.
use wasefire.Base.{ℕ, Bool, bit_and, ◌==◌}
use wasefire.Store.Bitfield.{Word, shl32, not32}

pub record Bit : Type 0 where
  pub pos : ℕ

unfoldable pub get : Bit → Word → Bool
get b word = bit_and word (shl32 1 b.pos) == 0

unfoldable pub set : Bit → Word → Word
set b word = bit_and word (not32 (shl32 1 b.pos))
