-- ===== src/Interpreter/Syntax/Ops.antt =====
-- crates/interpreter/src/syntax.rs: `impl_op!`, the integer operations `n32` and `n64`, at width `w`.
-- The methods `wrapping_add`, `rotate_left` and the like of Rust's integers are written out.
use Prim.Native.Nat.{bit_xor}
use wasefire.Base.{
  ℕ, zero, suc, ◌+◌, ◌-◌, ◌*◌, ◌/◌, ◌%◌, ◌^◌, bit_and, bit_or, Bool, not, Option, none, some, ltb,
  leb, ◌==◌, if◌then◌else◌,
}
use wasefire.Bits.{count_ones}
use wasefire.Interpreter.Syntax.Types.{
  u, s, ITestOp, eqz, IRelOp, eq, ne, lt, gt, le, ge, IUnOp, clz, ctz, pop_cnt, IBinOp, add, sub,
  mul, div, rem, and, or, xor, shl, shr, rotl, rotr,
}
use wasefire.Interpreter.Syntax.Signed.{
  ℤ, ltb_ℤ, signed, unsigned, remainder, checked_div_ℤ, shift_right,
}

-- `leading_zeros` and `trailing_zeros`
unfoldable pub leading_zeros : ℕ → ℕ → ℕ
leading_zeros zero x = 0
leading_zeros (suc w) x = let rest = leading_zeros w x in if ltb x (2 ^ w) then suc rest else 0

unfoldable pub trailing_zeros : ℕ → ℕ → ℕ
trailing_zeros zero x = 0
trailing_zeros (suc w) x = let rest = trailing_zeros w (x / 2) in if x % 2 == 0 then suc rest else 0

unfoldable pub itest : ITestOp → ℕ → Bool
itest eqz x = x == 0

unfoldable pub irel : ℕ → IRelOp → ℕ → ℕ → Bool
irel w eq x y = x == y
irel w ne x y = not (x == y)
irel w (lt u) x y = ltb x y
irel w (lt s) x y = ltb_ℤ (signed w x) (signed w y)
irel w (gt u) x y = ltb y x
irel w (gt s) x y = ltb_ℤ (signed w y) (signed w x)
irel w (le u) x y = leb x y
irel w (le s) x y = not (ltb_ℤ (signed w y) (signed w x))
irel w (ge u) x y = leb y x
irel w (ge s) x y = not (ltb_ℤ (signed w x) (signed w y))

unfoldable pub iun : ℕ → IUnOp → ℕ → Option ℕ
iun w clz x = some (leading_zeros w x)
iun w ctz x = some (trailing_zeros w x)
iun w pop_cnt x = some (count_ones w x)

-- `wrapping_add`, `wrapping_sub` and `wrapping_mul`
unfoldable pub wrapping_add : ℕ → ℕ → ℕ → ℕ
wrapping_add w x y = (x + y) % 2 ^ w

unfoldable pub wrapping_sub : ℕ → ℕ → ℕ → ℕ
wrapping_sub w x y = (x + 2 ^ w - y) % 2 ^ w

unfoldable pub wrapping_mul : ℕ → ℕ → ℕ → ℕ
wrapping_mul w x y = x * y % 2 ^ w

-- `checked_div` and `checked_rem` of unsigned integers
unfoldable pub checked_div : ℕ → ℕ → Option ℕ
checked_div x y = if y == 0 then none else some (x / y)

unfoldable pub checked_rem : ℕ → ℕ → Option ℕ
checked_rem x y = if y == 0 then none else some (x % y)

-- The shifts take the distance modulo the width.
unfoldable pub wrapping_shl : ℕ → ℕ → ℕ → ℕ
wrapping_shl w x y = x * 2 ^ (y % w) % 2 ^ w

unfoldable pub wrapping_shr : ℕ → ℕ → ℕ → ℕ
wrapping_shr w x y = x / 2 ^ (y % w)

-- The high and the low part of a word change places.
unfoldable pub rotate_left : ℕ → ℕ → ℕ → ℕ
rotate_left w x y = x % 2 ^ (w - y % w) * 2 ^ (y % w) + x / 2 ^ (w - y % w)

unfoldable pub rotate_right : ℕ → ℕ → ℕ → ℕ
rotate_right w x y = x % 2 ^ (y % w) * 2 ^ (w - y % w) + x / 2 ^ (y % w)

unfoldable pub map_unsigned : ℕ → Option ℤ → Option ℕ
map_unsigned w none = none
map_unsigned w (some z) = some (unsigned w z)

-- The distance of a shift is cut to a `u32`.
unfoldable pub ibin : ℕ → IBinOp → ℕ → ℕ → Option ℕ
ibin w add x y = some (wrapping_add w x y)
ibin w sub x y = some (wrapping_sub w x y)
ibin w mul x y = some (wrapping_mul w x y)
ibin w (div u) x y = checked_div x y
ibin w (div s) x y = map_unsigned w (checked_div_ℤ w (signed w x) (signed w y))
ibin w (rem u) x y = checked_rem x y
ibin w (rem s) x y =
    if y == 0 then none else some (unsigned w (remainder (signed w x) (signed w y)))
ibin w and x y = some (bit_and x y)
ibin w or x y = some (bit_or x y)
ibin w xor x y = some (bit_xor x y)
ibin w shl x y = some (wrapping_shl w x (y % 2 ^ 32))
ibin w (shr u) x y = some (wrapping_shr w x (y % 2 ^ 32))
ibin w (shr s) x y = some (unsigned w (shift_right (signed w x) (y % 2 ^ 32 % w)))
ibin w rotl x y = some (rotate_left w x (y % 2 ^ 32))
ibin w rotr x y = some (rotate_right w x (y % 2 ^ 32))
