-- ===== src/Store/Bitfield.antt =====
-- crates/store/src/format/bitfield.rs: words of 32 bits, and the fields of a word.
-- A `u32` is a number below 2 ^ 32; its shifts and complement are written out at that width.
pub mod Field
pub mod ConstField
pub mod Bit
pub mod Checksum
pub mod Slots
pub mod Replace
pub mod Sums
pub mod Flags
pub mod Writes
mod Tests
use wasefire.Base.{ℕ, zero, suc, ◌+◌, ◌-◌, ◌*◌, ◌/◌, ◌%◌, ◌^◌, List, [], ◌∷◌, ◌==◌, if◌then◌else◌}
use wasefire.Bits.{count_zeros}

-- `Word(WORD)`: the bits of the word as a number.
abbrev pub Word : Type 0
Word = ℕ

abbrev pub shl32 : ℕ → ℕ → ℕ
shl32 x k = x * 2 ^ k % 2 ^ 32

abbrev pub shr32 : ℕ → ℕ → ℕ
shr32 x k = x / 2 ^ k

-- `!x`
abbrev pub not32 : ℕ → ℕ
not32 x = 2 ^ 32 - 1 - x

-- The bits equal to zero of a slice of bytes.
unfoldable pub count_zeros_slice : List ℕ → ℕ
count_zeros_slice [] = 0
count_zeros_slice (x ∷ xs) = count_zeros 8 x + count_zeros_slice xs

-- `leading_zeros` of an integer of `w` bits.
unfoldable pub leading_zeros : ℕ → ℕ → ℕ
leading_zeros zero x = 0
leading_zeros (suc w) x = if x / 2 ^ w == 0 then suc (leading_zeros w x) else 0

unfoldable pub num_bits : ℕ → ℕ
unfolding leading_zeros
num_bits x = 8 * 4 - leading_zeros 32 x
