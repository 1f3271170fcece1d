-- ===== src/Interpreter/Parser/Leb128.antt =====
-- crates/interpreter/src/parser.rs: `parse_leb128` and the integers read by it.
pub mod Unsigned
use wasefire.Base.{
  ℕ, zero, suc, ◌+◌, ◌-◌, ◌*◌, ◌/◌, ◌%◌, ◌^◌, min, bit_and, bit_or, Bool, true, false, not, ◌&&◌,
  ◌||◌, Option, none, some, leb, ltb, ◌==◌, if◌then◌else◌,
}
use wasefire.Interpreter.Mode.{Mode, Outcome, out_of_fuel, mode_open}
use wasefire.Interpreter.Parser.Core.{Parser, ◌>>=◌, ◌>>◌, pure, lift, require, parse_byte}

-- `<<` on `u64`
abbrev pub shl64 : ℕ → ℕ → ℕ
shl64 x k = x * 2 ^ k % 2 ^ 64

abbrev pub checked_sub : ℕ → ℕ → Option ℕ
checked_sub a b = if leb b a then some (a - b) else none

-- A negative number at its last byte: 7 bits are left or more, or fewer.
unfoldable pub leb_negative : Mode → Option ℕ → ℕ → ℕ → ℕ → ℕ → Parser ℕ
leb_negative m (some high) bits val len byte =
    pure (bit_or (bit_or val (shl64 (2 ^ high - 1) (bits - high))) (shl64 byte (bits - len)))
leb_negative m none bits val len byte = do
  require m (bit_and (2 ^ 64 - 1 - byte) 0x7f / 2 ^ len == 0)
  pure (bit_or val (shl64 (bit_and byte (2 ^ len - 1)) (bits - len)))

-- The end of the loop, at a byte below 0x80: `len` bits of `bits` are left to fill above `val`.
unfoldable pub leb_last : Mode → Bool → ℕ → ℕ → ℕ → ℕ → Parser ℕ
leb_last m signed bits val len byte =
    if signed && not (bit_and byte (shl64 1 (min (len - 1) 6)) == 0)
    then leb_negative m (checked_sub len 7) bits val len byte
    else (do
      require m (leb 7 len || byte / 2 ^ len == 0)
      pure (bit_or val (shl64 byte (bits - len))))

-- The loop, with fuel for its rounds.
unfoldable pub leb_loop : Mode → Bool → ℕ → ℕ → ℕ → ℕ → Parser ℕ
leb_loop m signed bits zero val len = λ xs. out_of_fuel
leb_loop m signed bits (suc fuel) val len = do
  byte ← parse_byte m
  let again : Parser ℕ = (do
    left ← lift (mode_open m (checked_sub len 8))
    leb_loop m signed bits fuel (bit_or val (shl64 (bit_and byte 0x7f) (bits - len))) (left + 1))
  if bit_and byte 0x80 == 0 then leb_last m signed bits val len byte else again

-- Each round takes 7 of the `bits`.
unfoldable pub parse_leb128 : Mode → Bool → ℕ → Parser ℕ
parse_leb128 m signed bits = leb_loop m signed bits (suc bits) 0 bits

-- The casts of the code keep the low bits: `as u32`, and a signed value as its bit pattern.
unfoldable pub parse_u32 : Mode → Parser ℕ
parse_u32 m = do x ← parse_leb128 m false 32; pure (x % 2 ^ 32)

unfoldable pub parse_i32 : Mode → Parser ℕ
parse_i32 m = do x ← parse_leb128 m true 32; pure (x % 2 ^ 32)

unfoldable pub parse_i64 : Mode → Parser ℕ
parse_i64 m = parse_leb128 m true 64
