-- ===== src/Store/Bitfield/Checksum.antt =====
-- crates/store/src/format/bitfield.rs: `Checksum`.
use wasefire.Base.{ℕ, ◌+◌, ◌-◌, ltb, if◌then◌else◌, ok, err}
use wasefire.Bits.{count_ones, count_zeros}
use wasefire.Store.Types.{StoreResult, invalid_storage}
use wasefire.Store.Bitfield.{Word}
use wasefire.Store.Bitfield.Field
use wasefire.Store.Bitfield.Field.{Field}

pub record Checksum : Type 0 where
  pub field : Field

-- The zeros of the word outside the checksum. The subtractions do not wrap: the zeros of the
-- checksum are among those of the word.
unfoldable pub zeros : Checksum → Word → ℕ
zeros c word = count_zeros 32 word - (c.field.len - count_ones 32 (Field.get c.field word))

-- `checked_sub`
unfoldable pub get : Checksum → Word → StoreResult ℕ
get c word =
    let checksum = Field.get c.field word in
    if ltb checksum (zeros c word) then err invalid_storage else ok (checksum - zeros c word)

-- The addition does not wrap where the value fits a word, as the callers' values do.
unfoldable pub set : Checksum → Word → ℕ → StoreResult Word
set c word v = Field.set c.field word (count_zeros 32 word + v)
