-- ===== src/Interpreter/Syntax/Rotation.antt =====
-- crates/interpreter/src/syntax.rs: the rotations and wrapping operations of `impl_op!`.
use native.Mathlib.Nat.{mod-lt, one-le-pow, div-add-mod', div-lt_iff_lt-mul}
use wasefire.Base.{
  ℕ, ◌-◌, ◌*◌, ◌/◌, ◌%◌, ◌^◌, ◌<◌, ◌≡◌, ◌∙◌, ap, arith, div_parts, mod_parts, two-pow-add,
}
use wasefire.Interpreter.Syntax.Ops.{rotate_left, rotate_right, wrapping_add, wrapping_sub}

rotate_right-rotate_left :
    (w x y : ℕ) → 0 < w → x < 2 ^ w → rotate_right w (rotate_left w x y) y ≡ x
unfolding rotate_left rotate_right
rotate_right-rotate_left w x y positive fits =
    let k = y % w in
    let h = w - k in
    let parts : 2 ^ w ≡ 2 ^ k * 2 ^ h =
      ap (λ (n : ℕ). 2 ^ n) {x = w} (omega (arith, mod-lt y positive)) ∙ two-pow-add k h in
    let high : x / 2 ^ h < 2 ^ k =
      (div-lt_iff_lt-mul (one-le-pow h 2 (omega arith))).1 (rw (← parts) fits) in
    rw
      (
        mod_parts (x % 2 ^ h) (2 ^ k) (x / 2 ^ h) high,
        div_parts (x % 2 ^ h) (2 ^ k) (x / 2 ^ h) high,
      )
      (div-add-mod' x (2 ^ h))

wrapping_sub-wrapping_add :
    (w x y : ℕ) → x < 2 ^ w → y < 2 ^ w → wrapping_sub w (wrapping_add w x y) y ≡ x
unfolding wrapping_add wrapping_sub
wrapping_sub-wrapping_add w x y hx hy = grind arith
