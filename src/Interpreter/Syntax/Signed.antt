-- ===== src/Interpreter/Syntax/Signed.antt =====
-- crates/interpreter/src/syntax.rs: the signed integers that the operations of `impl_op!` convert to.
use wasefire.Base.{
  ℕ, zero, suc, ◌+◌, ◌-◌, ◌/◌, ◌%◌, ◌^◌, Bool, Option, none, some, ltb, ◌==◌, ◌&&◌, if◌then◌else◌,
}

-- `negsuc n` is -(n + 1).
pub data ℤ : Type 0 where
  pos negsuc : ℕ → ℤ

abbrev pub pos_part : ℤ → ℕ
pos_part (pos n) = n
pos_part (negsuc n) = 0

abbrev pub neg_part : ℤ → ℕ
neg_part (pos n) = 0
neg_part (negsuc n) = suc n

abbrev pub ltb_ℤ : ℤ → ℤ → Bool
ltb_ℤ a b = ltb (pos_part a + neg_part b) (pos_part b + neg_part a)

-- `x as i32` of a `u32`, at any width.
unfoldable pub signed : ℕ → ℕ → ℤ
signed w x = if ltb x (2 ^ (w - 1)) then pos x else negsuc (2 ^ w - 1 - x)

-- `x as u32` of any signed integer.
unfoldable pub unsigned : ℕ → ℤ → ℕ
unsigned w (pos n) = n % 2 ^ w
unsigned w (negsuc n) = 2 ^ w - 1 - n % 2 ^ w

-- The integer of a magnitude.
abbrev pub negate_ℕ : ℕ → ℤ
negate_ℕ zero = pos 0
negate_ℕ (suc n) = negsuc n

-- Division rounds towards zero, and the remainder has the sign of the dividend.
unfoldable pub quotient : ℤ → ℤ → ℤ
quotient (pos a) (pos b) = pos (a / b)
quotient (pos a) (negsuc b) = negate_ℕ (a / suc b)
quotient (negsuc a) (pos b) = negate_ℕ (suc a / b)
quotient (negsuc a) (negsuc b) = pos (suc a / suc b)

unfoldable pub remainder : ℤ → ℤ → ℤ
remainder (pos a) b = pos (a % (pos_part b + neg_part b))
remainder (negsuc a) b = negate_ℕ (suc a % (pos_part b + neg_part b))

-- `checked_div` of signed integers: the least one by -1 does not fit.
unfoldable pub checked_div_ℤ : ℕ → ℤ → ℤ → Option ℤ
checked_div_ℤ w a (pos zero) = none
checked_div_ℤ w a (pos (suc b)) = some (quotient a (pos (suc b)))
checked_div_ℤ w a (negsuc b) =
    if b == 0 && neg_part a == 2 ^ (w - 1) then none else some (quotient a (negsuc b))

-- A shift to the right rounds down.
unfoldable pub shift_right : ℤ → ℕ → ℤ
shift_right (pos n) k = pos (n / 2 ^ k)
shift_right (negsuc n) k = negsuc (n / 2 ^ k)

-- `x as i8 as u32`: the low bits `from` of a word, extended by their sign to the width `w`.
unfoldable pub sign_extend : ℕ → ℕ → ℕ → ℕ
sign_extend w from x = unsigned w (signed from (x % 2 ^ from))
