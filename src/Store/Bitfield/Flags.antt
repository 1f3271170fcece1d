-- ===== src/Store/Bitfield/Flags.antt =====
-- A single bit, as arithmetic.
use native.Mathlib.Nat.{one-le-pow, mod-lt, mod-eq_of_lt, div-add-mod', pow-le-pow_right}
use wasefire.Base.{
  ℕ, zero, suc, ◌+◌, ◌*◌, ◌/◌, ◌%◌, ◌^◌, ◌<◌, bit_and, ◌≡◌, sym, ap, ◌∙◌, ◌==◌, ==_true, arith,
}
use wasefire.Bits.{bit_and_fields, bit_and-zero, bit_and_mask}
use wasefire.Store.Bitfield.{Word}
use wasefire.Store.Bitfield.Bit
use wasefire.Store.Bitfield.Bit.{Bit}

bit_value : (k w : ℕ) → bit_and w (2 ^ k) ≡ w / 2 ^ k % 2 * 2 ^ k
bit_value k w =
    ap (λ n. bit_and n (2 ^ k)) (sym (div-add-mod' w (2 ^ k)))
    ∙ ap (bit_and (w / 2 ^ k * 2 ^ k + w % 2 ^ k)) {y = 1 * 2 ^ k + 0} (omega arith)
    ∙ bit_and_fields (w / 2 ^ k) 1 k (w % 2 ^ k) 0 (mod-lt w power) power
    ∙ rw (bit_and_mask 1 (w / 2 ^ k), bit_and-zero (w % 2 ^ k)) (omega arith)
  where
    power : 0 < 2 ^ k
    power = one-le-pow k 2 (omega arith)

product_is_zero : (k x : ℕ) → x < 2 → (x * 2 ^ k == 0) ≡ (x == 0)
product_is_zero k zero h = ==_true _ _ (omega arith)
product_is_zero k (suc zero) h =
    let power : 0 < 2 ^ k = one-le-pow k 2 (omega arith) in ground arith
product_is_zero k (suc (suc x)) h = absurd (omega arith)

-- `Bit::get` tells whether the digit at the bit's position is zero.
pub get-eq : (b : Bit) (w : Word) → b.pos < 32 → Bit.get b w ≡ (w / 2 ^ b.pos % 2 == 0)
unfolding Bit.get
get-eq b w h =
    let fits : 1 * 2 ^ b.pos < 2 ^ 32 =
      omega (arith, pow-le-pow_right {n = 2} (omega arith) {i = b.pos} {j = 31} (omega arith)) in
    rw (mod-eq_of_lt fits)
      (rw one_mul (rw bit_value (product_is_zero b.pos (w / 2 ^ b.pos % 2) (omega arith))))
  where
    one_mul : 1 * 2 ^ b.pos ≡ 2 ^ b.pos
    one_mul = omega arith
