-- ===== src/Store/Format/Layout/Expansion.antt =====
-- The macro `bitfield!` run on the descriptors of format.rs, and the widths that it chooses.
use native.Mathlib.Nat.{pow-suc, pow-le-pow_right, one-le-pow, div-eq_of_lt, le-div_iff_mul-le}
use native.Mathlib.Decide.{dec_lt}
use wasefire.Base.{==_true, ◌==◌, true, false}
use wasefire.Base.{ℕ, zero, suc, ◌-◌, ◌*◌, ◌/◌, ◌^◌, ◌≤◌, ◌<◌, ◌≡◌, refl, ap, ◌∙◌, [], ◌∷◌, arith}
use wasefire.Store.Bitfield.{num_bits, leading_zeros}
use wasefire.Store.Format.Layout

init_layout :
    Layout.bitfield 0 (Layout.at_most 65535 ∷ Layout.at_most 256 ∷ Layout.length ∷ [])
    ≡ Layout.field_def Layout.init_cycle
      ∷ Layout.field_def Layout.init_prefix
      ∷ Layout.length_def 25
      ∷ []
unfolding Layout.bitfield
init_layout = refl

compact_layout :
    Layout.bitfield 0 (Layout.at_most (1022 * 63) ∷ Layout.length ∷ [])
    ≡ Layout.field_def Layout.compact_tail ∷ Layout.length_def 16 ∷ []
unfolding Layout.bitfield
compact_layout = refl

header_layout :
    Layout.bitfield 0 (
      Layout.bits (1 ∷ 0 ∷ [])
      ∷ Layout.bit
      ∷ Layout.bit
      ∷ Layout.at_most 1023
      ∷ Layout.at_most 4095
      ∷ Layout.checksum 58
      ∷ Layout.length
      ∷ [])
    ≡ Layout.const_def Layout.id_header
      ∷ Layout.bit_def Layout.header_deleted
      ∷ Layout.bit_def Layout.header_flipped
      ∷ Layout.field_def Layout.header_length
      ∷ Layout.field_def Layout.header_key
      ∷ Layout.checksum_def Layout.header_checksum
      ∷ Layout.length_def 32
      ∷ []
unfolding Layout.bitfield
header_layout = refl

clear_layout :
    Layout.bitfield 0
      (Layout.bits (1 ∷ 1 ∷ 0 ∷ 0 ∷ 1 ∷ []) ∷ Layout.at_most 4095 ∷ Layout.length ∷ [])
    ≡ Layout.const_def Layout.id_clear
      ∷ Layout.field_def Layout.clear_min_key
      ∷ Layout.length_def 17
      ∷ []
unfolding Layout.bitfield
clear_layout = refl

top_bit_zero : (w x : ℕ) → x < 2 ^ w → (x / 2 ^ w == 0) ≡ true
top_bit_zero w x h = ==_true _ _ (div-eq_of_lt h)

top_bit_one : (w x : ℕ) → 2 ^ w ≤ x → (x / 2 ^ w == 0) ≡ false
top_bit_one w x h =
    let quotient : 1 ≤ x / 2 ^ w =
      (le-div_iff_mul-le (one-le-pow w 2 (omega arith))).1 (omega arith) in
    ground arith

leading_zeros_bounds :
    (w x : ℕ)
    → x < 2 ^ w
    → (leading_zeros w x ≤ w)
      × (x < 2 ^ (w - leading_zeros w x))
      × (0 < x → 2 ^ (w - leading_zeros w x) ≤ 2 * x)
unfolding leading_zeros
leading_zeros_bounds zero x h = (omega arith, omega arith, λ p. absurd (omega arith))
leading_zeros_bounds (suc w) x h = elim (dec_lt x (2 ^ w)) [
  | yes small ↦
      let b = leading_zeros_bounds w x small in
      let shift : suc w - suc (leading_zeros w x) ≡ w - leading_zeros w x = omega arith in
      rw (top_bit_zero w x small, shift) (omega (arith, b.0), b.1, b.2)
  | no large ↦
      let none_off : suc w - 0 ≡ suc w = omega arith in
      rw (top_bit_one w x (omega arith), none_off) (omega arith, h, λ p. omega (arith, pow-suc 2 w))
]

num_bits-zero : num_bits 0 ≡ 0
unfolding num_bits leading_zeros
num_bits-zero = refl

-- A number below a power of two has a width of at most the exponent.
width_below : (x m n : ℕ) → x < 2 ^ n → (0 < x → 2 ^ m ≤ 2 * x) → (x ≡ 0 → m ≡ 0) → m ≤ n
width_below x zero n h low empty = omega arith
width_below x (suc m) n h low empty = elim (dec_lt n (suc m)) [
  | yes less ↦
      let power : 2 ^ n ≤ 2 ^ m =
        pow-le-pow_right {n = 2} (omega arith) {i = n} {j = m} (omega arith) in
      elim (dec_lt 0 x) [
        | yes some_bit ↦ absurd (omega (arith, power, h, low some_bit, pow-suc 2 m))
        | no none_left ↦ absurd (omega (arith, empty (omega arith)))
      ]
  | no more ↦ omega arith
]

-- `num_bits` of a `u32` is the least width that holds the number, 0 included.
pub num_bits-least :
    (x : ℕ) → x < 2 ^ 32 → (x < 2 ^ num_bits x) × ((n : ℕ) → x < 2 ^ n → num_bits x ≤ n)
unfolding num_bits
num_bits-least x h =
    let b = leading_zeros_bounds 32 x h in
    (
      b.1,
      λ n below.
          width_below x (32 - leading_zeros 32 x) n below b.2
            (λ empty. ap num_bits empty ∙ num_bits-zero),
    )
