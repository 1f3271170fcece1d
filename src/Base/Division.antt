-- ===== src/Base/Division.antt =====
-- Quotient and remainder of a number that is written as a high and a low part, and powers of two.
use Prim.Native.Nat.{ℕ, zero, suc, ◌^◌, ◌+◌, ◌*◌, ◌/◌, ◌%◌, ◌<◌}
use mathlib.Core.Path.{◌≡◌, ◌∙◌}
use native.Mathlib.Nat.{
  pow-suc, mul-add-div_right, mul-add-mod_self_right, div-eq_of_lt, mod-eq_of_lt,
}
use native.Mathlib.Omega.{arith}

pub div_parts : (q m r : ℕ) → r < m → (q * m + r) / m ≡ q
div_parts q m r h = omega (arith, mul-add-div_right {m = m} (omega arith) q r, div-eq_of_lt h)

pub mod_parts : (q m r : ℕ) → r < m → (q * m + r) % m ≡ r
mod_parts q m r h = mul-add-mod_self_right q m r ∙ mod-eq_of_lt h

pub two-pow-add : (a b : ℕ) → 2 ^ (a + b) ≡ 2 ^ a * 2 ^ b
two-pow-add zero b = let same : 0 + b ≡ b = omega arith in rw same (omega arith)
two-pow-add (suc a) b =
    let next : suc a + b ≡ suc (a + b) = omega arith in
    rw (next, pow-suc 2 (a + b), pow-suc 2 a, two-pow-add a b) (omega arith)
