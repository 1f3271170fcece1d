-- ===== src/Bits/Step.antt =====
-- `&` and `|` of two numbers from those of their halves and of their lowest digits.
use Prim.Native.Nat.{
  digits, bitwise, differ, bit_xor, bit_and-bitwise, bit_or-bitwise, bit_xor-bitwise,
}
use wasefire.Base.{
  ℕ, zero, suc, ◌+◌, ◌*◌, ◌/◌, ◌%◌, ◌≤◌, ◌<◌, min, max, bit_and, bit_or, ◌≡◌, refl, ap, ◌∙◌, arith,
  le_or_lt, inl, inr,
}

-- What an operation on digits gives for the rest `z` of the second number, and digit by digit `f`.
module _ (z : ℕ → ℕ) (f : ℕ → ℕ → ℕ) where
  -- A number takes no more rounds than it is large: one round more changes nothing.
  spare_round : (rounds a b : ℕ) → a ≤ rounds → digits z f (suc rounds) a b ≡ digits z f rounds a b
  spare_round zero zero b h = refl
  spare_round zero (suc a) b h = absurd (omega arith)
  spare_round (suc rounds) zero b h = refl
  spare_round (suc rounds) (suc a) b h =
      ap (λ halves. halves * 2 + f (suc a % 2) (b % 2))
        (spare_round rounds (suc a / 2) (b / 2) (omega arith))

  enough_rounds : (rounds a b : ℕ) → a ≤ rounds → digits z f rounds a b ≡ bitwise z f a b
  enough_rounds zero zero b h = refl
  enough_rounds zero (suc a) b h = absurd (omega arith)
  enough_rounds (suc rounds) a b h = elim (le_or_lt a rounds) [
    | inl below ↦ spare_round rounds a b below ∙ enough_rounds rounds a b below
    | inr above ↦ let whole : suc rounds ≡ a = omega arith in ap (λ n. digits z f n a b) whole
  ]

  lowest_digit :
      (a b : ℕ) → 0 < a → bitwise z f a b ≡ bitwise z f (a / 2) (b / 2) * 2 + f (a % 2) (b % 2)
  lowest_digit zero b h = absurd (omega arith)
  lowest_digit (suc a) b h =
      ap (λ halves. halves * 2 + f (suc a % 2) (b % 2))
        (enough_rounds a (suc a / 2) (b / 2) (omega arith))

pub bit_and-halves : (x y : ℕ) → bit_and x y ≡ min (x % 2) (y % 2) + 2 * bit_and (x / 2) (y / 2)
bit_and-halves x y = elim (le_or_lt x 0) [
  | inl empty ↦ let nothing : x ≡ 0 = omega arith in rw nothing (simp bit_and-bitwise (omega arith))
  | inr filled ↦ simp bit_and-bitwise (omega (arith, lowest_digit (λ y. 0) min x y filled))
]

pub bit_or-halves : (x y : ℕ) → bit_or x y ≡ max (x % 2) (y % 2) + 2 * bit_or (x / 2) (y / 2)
bit_or-halves x y = elim (le_or_lt x 0) [
  | inl empty ↦ let nothing : x ≡ 0 = omega arith in rw nothing (simp bit_or-bitwise (omega arith))
  | inr filled ↦ simp bit_or-bitwise (omega (arith, lowest_digit (λ y. y) max x y filled))
]

halved : (y : ℕ) → y ≡ y % 2 + 2 * (y / 2)
halved y = omega arith

pub bit_xor-halves : (x y : ℕ) → bit_xor x y ≡ differ (x % 2) (y % 2) + 2 * bit_xor (x / 2) (y / 2)
bit_xor-halves x y = elim (le_or_lt x 0) [
  | inl empty ↦ let nothing : x ≡ 0 = omega arith in rw nothing (simp bit_xor-bitwise (halved y))
  | inr filled ↦ simp bit_xor-bitwise (omega (arith, lowest_digit (λ y. y) differ x y filled))
]
