-- ===== src/Bits/Fields.antt =====
-- `&` and `|` act on adjacent fields one by one, and a mask of ones is a remainder.
use Prim.Native.Nat.{bit_and-bitwise}
use native.Mathlib.Nat.{pow-suc, one-le-pow}
use wasefire.Bits.Step.{bit_and-halves, bit_or-halves}
use wasefire.Base.{
  ℕ, zero, suc, ◌+◌, ◌-◌, ◌*◌, ◌/◌, ◌%◌, ◌^◌, ◌≤◌, ◌<◌, bit_and, bit_or, ◌≡◌, refl, ap, ◌∙◌, arith,
}

-- One place further up is twice as much.
pub shifted_once : (n x : ℕ) → x * 2 ^ suc n ≡ x * 2 ^ n * 2
shifted_once n x =
    let power : 2 ^ suc n ≡ 2 ^ n * 2 = omega (arith, pow-suc 2 n) in
    ap (λ p. x * p) power ∙ omega arith

-- Bounded induction: every pair of numbers below `n`.
bit_and-zero_below : (n a : ℕ) → a ≤ n → bit_and a 0 ≡ 0
bit_and-zero_below n zero h = refl
bit_and-zero_below zero (suc a) h = absurd (omega arith)
bit_and-zero_below (suc n) (suc a) h =
    omega (arith, bit_and-halves (suc a) 0, bit_and-zero_below n (suc a / 2) (omega arith))

pub bit_and-zero : (a : ℕ) → bit_and a 0 ≡ 0
bit_and-zero a = bit_and-zero_below a a (omega arith)

bit_or-zero_below : (n a : ℕ) → a ≤ n → bit_or a 0 ≡ a
bit_or-zero_below n zero h = refl
bit_or-zero_below zero (suc a) h = absurd (omega arith)
bit_or-zero_below (suc n) (suc a) h =
    omega (arith, bit_or-halves (suc a) 0, bit_or-zero_below n (suc a / 2) (omega arith))

pub bit_or-zero : (a : ℕ) → bit_or a 0 ≡ a
bit_or-zero a = bit_or-zero_below a a (omega arith)

zero-bit_or_below : (n a : ℕ) → a ≤ n → bit_or 0 a ≡ a
zero-bit_or_below n zero h = refl
zero-bit_or_below zero (suc a) h = absurd (omega arith)
zero-bit_or_below (suc n) (suc a) h =
    omega (arith, bit_or-halves 0 (suc a), zero-bit_or_below n (suc a / 2) (omega arith))

pub zero-bit_or : (a : ℕ) → bit_or 0 a ≡ a
zero-bit_or a = zero-bit_or_below a a (omega arith)

-- `a & b` is at most `b`.
bit_and-le_below : (n a b : ℕ) → a ≤ n → bit_and a b ≤ b
bit_and-le_below n zero b h = omega (arith, bit_and-bitwise 0 b)
bit_and-le_below zero (suc a) b h = absurd (omega arith)
bit_and-le_below (suc n) (suc a) b h =
    omega (arith, bit_and-halves (suc a) b, bit_and-le_below n (suc a / 2) (b / 2) (omega arith))

pub bit_and-le_right : (a b : ℕ) → bit_and a b ≤ b
bit_and-le_right a b = bit_and-le_below a a b (omega arith)

bit_and-le_left_below : (n a b : ℕ) → a ≤ n → bit_and a b ≤ a
bit_and-le_left_below n zero b h = omega (arith, bit_and-bitwise 0 b)
bit_and-le_left_below zero (suc a) b h = absurd (omega arith)
bit_and-le_left_below (suc n) (suc a) b h =
    omega
      (arith, bit_and-halves (suc a) b, bit_and-le_left_below n (suc a / 2) (b / 2) (omega arith))

pub bit_and-le_left : (a b : ℕ) → bit_and a b ≤ a
bit_and-le_left a b = bit_and-le_left_below a a b (omega arith)

module _ (q q' : ℕ) where
  pub bit_and_fields :
      (k r r' : ℕ)
      → r < 2 ^ k
      → r' < 2 ^ k
      → bit_and (q * 2 ^ k + r) (q' * 2 ^ k + r') ≡ bit_and q q' * 2 ^ k + bit_and r r'
  bit_and_fields zero zero zero h h' = ground arith
  bit_and_fields zero zero (suc r') h h' = absurd (omega arith)
  bit_and_fields zero (suc r) r' h h' = absurd (omega arith)
  bit_and_fields (suc k) r r' h h' = ground (
    arith,
    bit_and-halves (q * 2 ^ suc k + r) (q' * 2 ^ suc k + r'),
    bit_and-halves r r',
    shifted_once k q,
    shifted_once k q',
    shifted_once k (bit_and q q'),
    pow-suc 2 k,
    bit_and_fields k (r / 2) (r' / 2) (omega (arith, pow-suc 2 k)) (omega (arith, pow-suc 2 k)),
  )

  pub bit_or_fields :
      (k r r' : ℕ)
      → r < 2 ^ k
      → r' < 2 ^ k
      → bit_or (q * 2 ^ k + r) (q' * 2 ^ k + r') ≡ bit_or q q' * 2 ^ k + bit_or r r'
  bit_or_fields zero zero zero h h' = ground arith
  bit_or_fields zero zero (suc r') h h' = absurd (omega arith)
  bit_or_fields zero (suc r) r' h h' = absurd (omega arith)
  bit_or_fields (suc k) r r' h h' = ground (
    arith,
    bit_or-halves (q * 2 ^ suc k + r) (q' * 2 ^ suc k + r'),
    bit_or-halves r r',
    shifted_once k q,
    shifted_once k q',
    shifted_once k (bit_or q q'),
    pow-suc 2 k,
    bit_or_fields k (r / 2) (r' / 2) (omega (arith, pow-suc 2 k)) (omega (arith, pow-suc 2 k)),
  )

-- `a & (2 ^ k - 1)` is the remainder by `2 ^ k`.
bit_and_ones_lt : (k r : ℕ) → r < 2 ^ k → bit_and r (2 ^ k - 1) ≡ r
bit_and_ones_lt zero zero h = refl
bit_and_ones_lt zero (suc r) h = absurd (omega arith)
bit_and_ones_lt (suc k) r h = ground (
  arith,
  bit_and-halves r (2 ^ suc k - 1),
  pow-suc 2 k,
  one-le-pow k 2,
  bit_and_ones_lt k (r / 2) (omega (arith, pow-suc 2 k)),
)

pub bit_and_mask : (k a : ℕ) → bit_and a (2 ^ k - 1) ≡ a % 2 ^ k
bit_and_mask k a = ground (
  arith,
  one-le-pow k 2,
  bit_and_fields (a / 2 ^ k) 0 k (a % 2 ^ k) (2 ^ k - 1),
  bit_and-zero (a / 2 ^ k),
  bit_and_ones_lt k (a % 2 ^ k),
)

-- `w` has its ones where `u` has: it can be reached from `u` by turning ones into zeros.
abbrev pub Reachable : ℕ → ℕ → Type 0
Reachable u w = bit_and u w ≡ w

eq_of_mul_pow : (k a b : ℕ) → a * 2 ^ k ≡ b * 2 ^ k → a ≡ b
eq_of_mul_pow zero a b e = omega arith
eq_of_mul_pow (suc k) a b e =
    eq_of_mul_pow k a b (omega (arith, shifted_once k a, shifted_once k b))

pub Reachable-fields :
    (k q q' r r' : ℕ)
    → r < 2 ^ k
    → r' < 2 ^ k
    → Reachable (q * 2 ^ k + r) (q' * 2 ^ k + r')
    → Reachable q q' × Reachable r r'
Reachable-fields k q q' r r' h h' reach =
    let halves = bit_and_fields q q' k r r' h h' in
    let low : bit_and r r' ≤ r' = bit_and-le_right r r' in
    let high : bit_and q q' ≤ q' = bit_and-le_right q q' in
    let high_mul : bit_and q q' * 2 ^ k ≤ q' * 2 ^ k = grind arith in
    (
      eq_of_mul_pow k (bit_and q q') q' (omega (arith, halves, low, high_mul)),
      omega (arith, halves, low, high_mul),
    )

-- `(2 ^ k - 1) & r` for `r` of `k` bits: every `r` is reached from the ones.
pub mask-bit_and : (k r : ℕ) → r < 2 ^ k → Reachable (2 ^ k - 1) r
mask-bit_and zero zero h = refl
mask-bit_and zero (suc r) h = absurd (omega arith)
mask-bit_and (suc k) r h = ground (
  arith,
  bit_and-halves (2 ^ suc k - 1) r,
  pow-suc 2 k,
  one-le-pow k 2,
  mask-bit_and k (r / 2) (omega (arith, pow-suc 2 k)),
)
