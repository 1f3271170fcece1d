-- ===== src/Interpreter/Exec/Values/Pointers.antt =====
-- crates/interpreter/src/exec.rs: the two fields of a `Ptr`.
use native.Mathlib.Nat.{div-add-mod', mod-eq_of_lt}
use wasefire.Base.{
  ℕ, suc, ◌+◌, ◌-◌, ◌*◌, ◌/◌, ◌%◌, ◌^◌, ◌≤◌, ◌<◌, bit_and, bit_or, ◌≡◌, ◌∙◌, ◌⊎◌, inl, inr, refl,
  ap, sym, arith, ◌==◌, ◌&&◌, Bool-cases, div_parts, mod_parts,
}
use wasefire.Bits.{
  bit_and_fields, bit_or_fields, bit_and_mask, bit_and-zero, bit_or-zero, zero-bit_or,
}
use wasefire.Interpreter.Mode.{ok, fault}
use wasefire.Interpreter.Exec.Values.{
  Ptr, Side, into_repr, from_repr, index_mask, inst_mask, complement, ptr_new, ptr_instance,
  ptr_index,
}

-- What the complement of a mask of `k` ones keeps of a word.
bit_and-high :
    (k h q r : ℕ)
    → q < 2 ^ h
    → r < 2 ^ k
    → 0 < 2 ^ k
    → bit_and (q * 2 ^ k + r) ((2 ^ h - 1) * 2 ^ k + 0) ≡ q * 2 ^ k
bit_and-high k h q r hq hr positive =
    bit_and_fields q (2 ^ h - 1) k r 0 hr positive
    ∙ rw (bit_and_mask h q, mod-eq_of_lt hq, bit_and-zero r) (omega arith)

-- The tests of `Ptr::new`.
inst_high : (x : ℕ) → x < 2 ^ 32 → bit_and x (complement inst_mask) ≡ x / 2 ^ 12 * 2 ^ 12
inst_high x h =
    ap (λ n. bit_and n (complement inst_mask)) (sym (div-add-mod' x (2 ^ 12)))
    ∙ bit_and-high 12 20 (x / 2 ^ 12) (x % 2 ^ 12) (omega arith) (omega arith) (omega arith)

index_high : (x : ℕ) → x < 2 ^ 32 → bit_and x (complement index_mask) ≡ x / 2 ^ 20 * 2 ^ 20
index_high x h =
    ap (λ n. bit_and n (complement index_mask)) (sym (div-add-mod' x (2 ^ 20)))
    ∙ bit_and-high 20 12 (x / 2 ^ 20) (x % 2 ^ 20) (omega arith) (omega arith) (omega arith)

joined : (inst idx : ℕ) → idx < 2 ^ 20 → bit_or (inst * 2 ^ 20) idx ≡ inst * 2 ^ 20 + idx
joined inst idx h =
    ap (λ n. bit_or n idx) {x = inst * 2 ^ 20} {y = inst * 2 ^ 20 + 0} (omega arith)
    ∙ ap (λ n. bit_or (inst * 2 ^ 20 + 0) n) {x = idx} {y = 0 * 2 ^ 20 + idx} (omega arith)
    ∙ bit_or_fields inst 0 20 0 idx (omega arith) h
    ∙ rw (bit_or-zero inst, zero-bit_or idx) refl

from_repr-into_repr : (side : Side) → from_repr (into_repr side) ≡ side
unfolding from_repr into_repr
from_repr-into_repr Side.host = refl
from_repr-into_repr (Side.wasm x) = let next : 1 + x ≡ suc x = omega arith in rw next refl

-- `Ptr::new` panics on fields that are too large, and else both fields are read back.
ptr_new-fields :
    (side : Side) (idx : ℕ)
    → into_repr side < 2 ^ 32
    → idx < 2 ^ 32
    → ((into_repr side < 2 ^ 12)
        × (idx < 2 ^ 20)
        × (p : Ptr) × (ptr_new side idx ≡ ok p)
        × (ptr_instance p ≡ side)
        × (ptr_index p ≡ idx))
      ⊎ (((2 ^ 12 ≤ into_repr side) ⊎ (2 ^ 20 ≤ idx)) × (ptr_new side idx ≡ fault))
unfolding ptr_new ptr_instance ptr_index
ptr_new-fields side idx hs hi =
    let inst = into_repr side in
    let word : inst % 2 ^ 32 ≡ inst = mod-eq_of_lt hs in
    elim (Bool-cases (inst / 2 ^ 12 * 2 ^ 12 == 0 && idx / 2 ^ 20 * 2 ^ 20 == 0)) [
      | inl fits ↦
          let inst_fits : inst < 2 ^ 12 = ground arith in
          let idx_fits : idx < 2 ^ 20 = ground arith in
          let shifted : inst * 2 ^ 20 % 2 ^ 32 ≡ inst * 2 ^ 20 = mod-eq_of_lt (omega arith) in
          inl (
            inst_fits,
            idx_fits,
            inst * 2 ^ 20 + idx,
            rw (word, inst_high inst hs, index_high idx hi, fits, shifted, joined inst idx idx_fits)
                refl,
            rw (div_parts inst (2 ^ 20) idx idx_fits) (from_repr-into_repr side),
            bit_and_mask 20 (inst * 2 ^ 20 + idx) ∙ mod_parts inst (2 ^ 20) idx idx_fits,
          )
      | inr beyond ↦
          inr (ground arith, rw (word, inst_high inst hs, index_high idx hi, beyond) refl)
    ]
