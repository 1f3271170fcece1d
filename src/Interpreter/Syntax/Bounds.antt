-- ===== src/Interpreter/Syntax/Bounds.antt =====
-- crates/interpreter/src/syntax.rs: the results of the operations of `impl_op!` as words.
use native.Mathlib.Nat.{
  mod-lt, one-le-pow, pow-suc, mod-le, div-le_self, mul_comm, mul-le-mul_right, div-lt_iff_lt-mul,
}
use wasefire.Base.{
  ℕ, zero, suc, ◌+◌, ◌-◌, ◌*◌, ◌/◌, ◌%◌, ◌^◌, ◌≤◌, ◌<◌, ◌≡◌, Option, none, some, arith, ap, ◌∙◌,
  two-pow-add,
}
use wasefire.Bits.{bit_or-lt, bit_xor-lt, bit_and-le_left, count_ones-le}
use wasefire.Interpreter.Syntax.Types.{
  u, s, IUnOp, clz, ctz, pop_cnt, IBinOp, add, sub, mul, div, rem, and, or, xor, shl, shr, rotl,
  rotr,
}
use wasefire.Interpreter.Syntax.Signed.{
  ℤ, pos, negsuc, unsigned, sign_extend, signed, shift_right, remainder, checked_div_ℤ,
}
use wasefire.Interpreter.Syntax.Ops.{
  leading_zeros, trailing_zeros, iun, ibin, wrapping_add, wrapping_sub, wrapping_mul, wrapping_shl,
  wrapping_shr, rotate_left, rotate_right, checked_div, checked_rem, map_unsigned,
}

below_pow : (w : ℕ) → w < 2 ^ w
below_pow zero = omega arith
below_pow (suc w) = omega (arith, pow-suc 2 w, below_pow w)

leading_zeros-le : (w x : ℕ) → leading_zeros w x ≤ w
unfolding leading_zeros
leading_zeros-le zero x = omega arith
leading_zeros-le (suc w) x = ground (arith, leading_zeros-le w x)

trailing_zeros-le : (w x : ℕ) → trailing_zeros w x ≤ w
unfolding trailing_zeros
trailing_zeros-le zero x = omega arith
trailing_zeros-le (suc w) x = ground (arith, trailing_zeros-le w (x / 2))

-- A word of `w` bits, where there is one.
abbrev pub Fits : ℕ → Option ℕ → Type 0
Fits w none = Unit
Fits w (some x) = x < 2 ^ w

module _ (w : ℕ) where
  unsigned-lt : (z : ℤ) → unsigned w z < 2 ^ w
  unfolding unsigned
  unsigned-lt (pos n) = mod-lt n (one-le-pow w 2 (omega arith))
  unsigned-lt (negsuc n) = omega (arith, one-le-pow w 2)

  map_unsigned-Fits : (o : Option ℤ) → Fits w (map_unsigned w o)
  unfolding map_unsigned
  map_unsigned-Fits none = tt
  map_unsigned-Fits (some z) = unsigned-lt z

  iun-Fits : (op : IUnOp) (x : ℕ) → Fits w (iun w op x)
  unfolding iun
  iun-Fits clz x = omega (arith, below_pow w, leading_zeros-le w x)
  iun-Fits ctz x = omega (arith, below_pow w, trailing_zeros-le w x)
  iun-Fits pop_cnt x = omega (arith, below_pow w, count_ones-le w x)

module _ (n : ℕ) (x y : ℕ) (hx : x < 2 ^ suc n) (hy : y < 2 ^ suc n) where
  power : 0 < 2 ^ suc n
  power = one-le-pow (suc n) 2 (omega arith)

  rotate-lt : (k h : ℕ) → 2 ^ suc n ≡ 2 ^ h * 2 ^ k → x % 2 ^ h * 2 ^ k + x / 2 ^ h < 2 ^ suc n
  rotate-lt k h parts =
      let high : x / 2 ^ h < 2 ^ k =
        (div-lt_iff_lt-mul (one-le-pow h 2 (omega arith))).1
          (rw (mul_comm (2 ^ k) (2 ^ h), ← parts) hx) in
      let low = mod-lt x (one-le-pow h 2 (omega arith)) in
      let low_mul = mul-le-mul_right (2 ^ k) low in omega (arith, high, low_mul, parts)

  split_width : (k : ℕ) → 2 ^ suc n ≡ 2 ^ (k % suc n) * 2 ^ (suc n - k % suc n)
  split_width k =
      ap (λ (n : ℕ). 2 ^ n) {x = suc n} (omega (arith, mod-lt k {m = suc n} (omega arith)))
      ∙ two-pow-add (k % suc n) (suc n - k % suc n)

  ibin-Fits : (op : IBinOp) → Fits (suc n) (ibin (suc n) op x y)
  unfolding ibin wrapping_add wrapping_sub wrapping_mul wrapping_shl wrapping_shr checked_div
      checked_rem map_unsigned rotate_left rotate_right
  ibin-Fits add = mod-lt (x + y) power
  ibin-Fits sub = mod-lt (x + 2 ^ suc n - y) power
  ibin-Fits mul = mod-lt (x * y) power
  ibin-Fits (div u) = ground (arith, div-le_self x y)
  ibin-Fits (div s) =
      map_unsigned-Fits (suc n) (checked_div_ℤ (suc n) (signed (suc n) x) (signed (suc n) y))
  ibin-Fits (rem u) = ground (arith, mod-le x y)
  ibin-Fits (rem s) =
      ground (arith, unsigned-lt (suc n) (remainder (signed (suc n) x) (signed (suc n) y)))
  ibin-Fits and = omega (arith, bit_and-le_left x y)
  ibin-Fits or = bit_or-lt (suc n) x y hx hy
  ibin-Fits xor = bit_xor-lt (suc n) x y hx hy
  ibin-Fits shl = mod-lt (x * 2 ^ (y % 2 ^ 32 % suc n)) power
  ibin-Fits (shr u) = omega (arith, div-le_self x (2 ^ (y % 2 ^ 32 % suc n)))
  ibin-Fits (shr s) = unsigned-lt (suc n) (shift_right (signed (suc n) x) (y % 2 ^ 32 % suc n))
  ibin-Fits rotl =
      let k = y % 2 ^ 32 % suc n in
      rotate-lt k (suc n - k) (split_width (y % 2 ^ 32) ∙ mul_comm (2 ^ k) (2 ^ (suc n - k)))
  ibin-Fits rotr = let k = y % 2 ^ 32 % suc n in rotate-lt (suc n - k) k (split_width (y % 2 ^ 32))

-- The extended word fits in the width.
sign_extend-lt : (w from x : ℕ) → sign_extend w from x < 2 ^ w
unfolding sign_extend
sign_extend-lt w from x = unsigned-lt w (signed from (x % 2 ^ from))
