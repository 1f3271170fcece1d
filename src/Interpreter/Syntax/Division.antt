-- ===== src/Interpreter/Syntax/Division.antt =====
-- crates/interpreter/src/syntax.rs: division and remainder of `impl_op!`, and signed integers.
use native.Mathlib.Nat.{mod-eq_of_lt, mod-lt, one-le-pow, pow-le-pow_right, div-add-mod'}
use wasefire.Base.{
  ℕ, zero, suc, ◌+◌, ◌-◌, ◌*◌, ◌/◌, ◌%◌, ◌^◌, ◌≤◌, ◌<◌, ◌≡◌, ◌⊎◌, inl, inr, ◌↔◌, none, some, arith,
  sym, Option-cases,
}
use wasefire.Interpreter.Syntax.Types.{s, div, rem}
use wasefire.Interpreter.Syntax.Signed.{
  ℤ, pos, negsuc, pos_part, neg_part, signed, unsigned, quotient, remainder, checked_div_ℤ,
  negate_ℕ, sign_extend,
}
use wasefire.Interpreter.Syntax.Ops.{ibin, map_unsigned}

abbrev pub abs : ℤ → ℕ
abs z = pos_part z + neg_part z

-- The integers of `n` bits and a sign.
abbrev pub IsSigned : ℕ → ℤ → Type 0
IsSigned n z = (pos_part z < 2 ^ n) × (neg_part z ≤ 2 ^ n)

pow_half : (n : ℕ) → 2 ^ suc n ≡ 2 * 2 ^ n
pow_half n = omega arith

module _ (n : ℕ) where
  signed-unsigned : (z : ℤ) → IsSigned n z → signed (suc n) (unsigned (suc n) z) ≡ z
  unfolding signed unsigned
  signed-unsigned (pos k) (h, _) =
      let small : k % 2 ^ suc n ≡ k = mod-eq_of_lt (omega (arith, pow_half n)) in
      rw small (ground arith)
  signed-unsigned (negsuc k) (_, h) =
      let small : k % 2 ^ suc n ≡ k = mod-eq_of_lt (omega (arith, pow_half n)) in
      rw small (ground arith)

  signed-IsSigned : (x : ℕ) → x < 2 ^ suc n → IsSigned n (signed (suc n) x)
  unfolding signed
  signed-IsSigned x h = ground arith

  unsigned-signed : (x : ℕ) → x < 2 ^ suc n → unsigned (suc n) (signed (suc n) x) ≡ x
  unfolding signed unsigned
  unsigned-signed x h =
      let small : x % 2 ^ suc n ≡ x = mod-eq_of_lt h in
      let flip : (2 ^ suc n - 1 - x) % 2 ^ suc n ≡ 2 ^ suc n - 1 - x =
        mod-eq_of_lt (omega (arith, pow_half n)) in
      ground arith

  -- The signed division of integers of `n + 1` bits has no result exactly if the divisor is 0, or if
  -- the dividend is the least integer and the divisor is -1.
  pub ibin-div_s_none :
      (x y : ℕ)
      → x < 2 ^ suc n
      → y < 2 ^ suc n
      → (ibin (suc n) (div s) x y ≡ none) ↔ ((y ≡ 0) ⊎ ((x ≡ 2 ^ n) × (y ≡ 2 ^ suc n - 1)))
  unfolding ibin map_unsigned checked_div_ℤ signed
  ibin-div_s_none x y hx hy = (λ h. ground arith, λ h. ground arith)

module _ (a : ℕ) where
  abs-pos : abs (pos a) ≡ a
  abs-pos = omega arith

  abs-negsuc : abs (negsuc a) ≡ suc a
  abs-negsuc = omega arith

  abs-negate_ℕ : abs (negate_ℕ a) ≡ a
  abs-negate_ℕ = ground arith

abs-quotient : (a b : ℤ) → abs (quotient a b) ≡ abs a / abs b
unfolding quotient
abs-quotient (pos a) (pos b) = rw (abs-pos a, abs-pos b) (abs-pos (a / b))
abs-quotient (pos a) (negsuc b) = rw (abs-pos a, abs-negsuc b) (abs-negate_ℕ (a / suc b))
abs-quotient (negsuc a) (pos b) = rw (abs-pos b, abs-negsuc a) (abs-negate_ℕ (suc a / b))
abs-quotient (negsuc a) (negsuc b) = rw (abs-negsuc a, abs-negsuc b) (abs-pos (suc a / suc b))

abs-remainder : (a b : ℤ) → abs (remainder a b) ≡ abs a % abs b
unfolding remainder
abs-remainder (pos a) b = rw (abs-pos a) (abs-pos (a % abs b))
abs-remainder (negsuc a) b = rw (abs-negsuc a) (abs-negate_ℕ (suc a % abs b))

quotient_by_more : (a b : ℕ) → a / suc (suc b) * 2 ≤ a
quotient_by_more a b = grind (arith, div-add-mod' a (suc (suc b)))

-- What a division that does not trap gives fits, as does what a remainder gives.
module _ (w x y : ℕ) where
  ibin-div_s_some :
      (q : ℕ)
      → ibin w (div s) x y ≡ some q
      → (z : ℤ) × (checked_div_ℤ w (signed w x) (signed w y) ≡ some z) × (unsigned w z ≡ q)
  unfolding ibin map_unsigned
  ibin-div_s_some q e = elim (Option-cases (checked_div_ℤ w (signed w x) (signed w y))) [
    | inl none_ ↦ cc
    | inr (z, some_) ↦ (z, some_, cc)
  ]

  ibin-rem_s_some :
      (r : ℕ) → ibin w (rem s) x y ≡ some r → unsigned w (remainder (signed w x) (signed w y)) ≡ r
  unfolding ibin
  ibin-rem_s_some r e = ground arith

module _ (n : ℕ) where
  checked_div_ℤ-quotient :
      (a b q : ℤ)
      → IsSigned n a
      → checked_div_ℤ (suc n) a b ≡ some q
      → (quotient a b ≡ q) × (0 < abs b) × IsSigned n (quotient a b)
  unfolding checked_div_ℤ quotient
  checked_div_ℤ-quotient a (pos zero) q h e = cc
  checked_div_ℤ-quotient (pos a) (pos (suc b)) q h e = ground arith
  checked_div_ℤ-quotient (negsuc a) (pos (suc b)) q h e = ground arith
  checked_div_ℤ-quotient (pos a) (negsuc b) q h e = ground arith
  checked_div_ℤ-quotient (negsuc a) (negsuc zero) q h e = ground arith
  checked_div_ℤ-quotient (negsuc a) (negsuc (suc b)) q h e =
      ground (arith, quotient_by_more (suc a) b)

  remainder-IsSigned : (a b : ℤ) → 0 < abs b → IsSigned n a → IsSigned n (remainder a b)
  unfolding remainder
  remainder-IsSigned (pos a) b p h = ground arith
  remainder-IsSigned (negsuc a) b p h = ground arith

  -- Signed division and remainder, on magnitudes: the dividend is the sum, and the remainder is
  -- smaller than the divisor.
  ibin-div_s_rem_s :
      (x y q r : ℕ)
      → x < 2 ^ suc n
      → y < 2 ^ suc n
      → ibin (suc n) (div s) x y ≡ some q
      → ibin (suc n) (rem s) x y ≡ some r
      → (abs (signed (suc n) x)
          ≡ abs (signed (suc n) q) * abs (signed (suc n) y) + abs (signed (suc n) r))
        × (abs (signed (suc n) r) < abs (signed (suc n) y))
  ibin-div_s_rem_s x y q r hx hy hq hr =
      let a = signed (suc n) x in
      let b = signed (suc n) y in
      let (z, ez, uz) = ibin-div_s_some (suc n) x y q hq in
      let (same, positive, fits) = checked_div_ℤ-quotient a b z (signed-IsSigned n x hx) ez in
      let q_is : signed (suc n) q ≡ quotient a b =
        rw (← uz, ← same) (signed-unsigned n (quotient a b) fits) in
      let r_is : signed (suc n) r ≡ remainder a b = rw (← ibin-rem_s_some (suc n) x y r hr) (
        signed-unsigned n (remainder a b)
          (remainder-IsSigned a b positive (signed-IsSigned n x hx))) in
      rw (q_is, r_is, abs-quotient a b, abs-remainder a b)
        (sym (div-add-mod' (abs a) (abs b)), mod-lt (abs a) positive)

-- A part of a word that is extended by its sign stands for the same integer.
signed-sign_extend :
    (n m x : ℕ)
    → m ≤ n
    → signed (suc n) (sign_extend (suc n) (suc m) x) ≡ signed (suc m) (x % 2 ^ suc m)
unfolding sign_extend
signed-sign_extend n m x h =
    let part = signed-IsSigned m (x % 2 ^ suc m) (mod-lt x (one-le-pow (suc m) 2 (omega arith))) in
    let wider = pow-le-pow_right {n = 2} (omega arith) {i = m} {j = n} h in
    signed-unsigned n (signed (suc m) (x % 2 ^ suc m)) (omega (arith, wider, part))
