-- ===== src/Bits/Bounds.antt =====
-- `&`, `|` and `^` of two words are words.
use Prim.Native.Nat.{bit_xor, differ}
use native.Mathlib.Nat.{pow-suc}
use wasefire.Base.{ℕ, zero, suc, ◌/◌, ◌^◌, ◌<◌, ◌≤◌, ◌%◌, bit_or, arith}
use wasefire.Bits.Step.{bit_or-halves, bit_xor-halves}

pub bit_or-lt : (w x y : ℕ) → x < 2 ^ w → y < 2 ^ w → bit_or x y < 2 ^ w
bit_or-lt zero zero zero hx hy = omega arith
bit_or-lt zero zero (suc y) hx hy = absurd (omega arith)
bit_or-lt zero (suc x) y hx hy = absurd (omega arith)
bit_or-lt (suc w) x y hx hy =
    let rest =
      bit_or-lt w (x / 2) (y / 2) (omega (arith, pow-suc 2 w)) (omega (arith, pow-suc 2 w)) in
    omega (arith, pow-suc 2 w, bit_or-halves x y, rest)

differ-le : (a b : ℕ) → a ≤ 1 → b ≤ 1 → differ a b ≤ 1
differ-le zero b ha hb = hb
differ-le (suc a) zero ha hb = ha
differ-le (suc a) (suc b) ha hb = differ-le a b (omega arith) (omega arith)

pub bit_xor-lt : (w x y : ℕ) → x < 2 ^ w → y < 2 ^ w → bit_xor x y < 2 ^ w
bit_xor-lt zero zero zero hx hy = omega arith
bit_xor-lt zero zero (suc y) hx hy = absurd (omega arith)
bit_xor-lt zero (suc x) y hx hy = absurd (omega arith)
bit_xor-lt (suc w) x y hx hy =
    let rest =
      bit_xor-lt w (x / 2) (y / 2) (omega (arith, pow-suc 2 w)) (omega (arith, pow-suc 2 w)) in
    omega (
      arith,
      pow-suc 2 w,
      bit_xor-halves x y,
      rest,
      differ-le (x % 2) (y % 2) (omega arith) (omega arith),
    )
