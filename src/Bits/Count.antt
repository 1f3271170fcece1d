-- ===== src/Bits/Count.antt =====
-- `count_ones` and `count_zeros` of Rust's unsigned integers, by recursion on the width.
use native.Mathlib.Nat.{pow-suc, one-le-pow}
use wasefire.Bits.Step.{bit_and-halves}
use wasefire.Bits.Fields.{Reachable, shifted_once}
use wasefire.Base.{ℕ, zero, suc, ◌+◌, ◌-◌, ◌*◌, ◌/◌, ◌%◌, ◌^◌, ◌≤◌, ◌<◌, ◌≡◌, refl, arith}

unfoldable pub count_ones : ℕ → ℕ → ℕ
count_ones zero x = 0
count_ones (suc w) x = x % 2 + count_ones w (x / 2)

unfoldable pub count_zeros : ℕ → ℕ → ℕ
count_zeros w x = w - count_ones w x

pub count_ones-le : (w x : ℕ) → count_ones w x ≤ w
unfolding count_ones
count_ones-le zero x = omega arith
count_ones-le (suc w) x = omega (arith, count_ones-le w (x / 2))

field_half : (k q r : ℕ) → (q * 2 ^ suc k + r) / 2 ≡ q * 2 ^ k + r / 2
field_half k q r = omega (arith, shifted_once k q)

-- The ones of two adjacent fields add up.
pub count_ones_fields :
    (k m n q r : ℕ)
    → n ≡ k + m
    → r < 2 ^ k
    → count_ones n (q * 2 ^ k + r) ≡ count_ones m q + count_ones k r
unfolding count_ones
count_ones_fields zero m n q r e h =
    let same_width : n ≡ m = omega arith in
    let all_high : q * 2 ^ zero + r ≡ q = omega arith in rw (same_width, all_high) (omega arith)
count_ones_fields (suc k) m zero q r e h = absurd (omega arith)
count_ones_fields (suc k) m (suc n) q r e h = rw (field_half k q r) (
    omega (
      arith,
      shifted_once k q,
      count_ones_fields k m n q (r / 2) (omega arith) (omega (arith, pow-suc 2 k)),
    ))

-- Turning ones into zeros leaves fewer ones.
pub count_ones-Reachable : (w u x : ℕ) → Reachable u x → count_ones w x ≤ count_ones w u
unfolding count_ones
count_ones-Reachable zero u x h = omega arith
count_ones-Reachable (suc w) u x h = omega (
  arith,
  bit_and-halves u x,
  count_ones-Reachable w (u / 2) (x / 2) (omega (arith, bit_and-halves u x)),
)

-- A word that is reached from another with as many ones is the same word.
pub count_ones_unique :
    (w u x : ℕ) → u < 2 ^ w → x < 2 ^ w → Reachable u x → count_ones w x ≡ count_ones w u → x ≡ u
unfolding count_ones
count_ones_unique zero u x hu hx h e = omega arith
count_ones_unique (suc w) u x hu hx h e =
    let step = bit_and-halves u x in
    let half : Reachable (u / 2) (x / 2) = omega (arith, step) in
    let fewer = count_ones-Reachable w (u / 2) (x / 2) half in
    omega (
      arith,
      step,
      fewer,
      count_ones_unique w (u / 2) (x / 2) (omega (arith, pow-suc 2 w)) (omega (arith, pow-suc 2 w))
          half (omega (arith, step, fewer)),
    )

pub count_ones_mask : (w : ℕ) → count_ones w (2 ^ w - 1) ≡ w
unfolding count_ones
count_ones_mask zero = refl
count_ones_mask (suc w) =
    rw mask_half (omega (arith, count_ones_mask w, pow-suc 2 w, one-le-pow w 2))
  where
    mask_half : (2 ^ suc w - 1) / 2 ≡ 2 ^ w - 1
    mask_half = omega (arith, pow-suc 2 w, one-le-pow w 2)

pub count_ones-zero : (w : ℕ) → count_ones w 0 ≡ 0
unfolding count_ones
count_ones-zero zero = refl
count_ones-zero (suc w) = omega (arith, count_ones-zero w)
