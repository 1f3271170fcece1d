-- ===== src/Store/Bitfield/Slots.antt =====
-- Reading and writing a field, as arithmetic on a word cut at the field: `h` above, `x` in it,
-- `l` below.
use native.Mathlib.Nat.{one-le-pow, pow-le-pow_right, mod-eq_of_lt, mod-lt, mul-le-mul_right}
use wasefire.Base.{
  ℕ, ◌+◌, ◌-◌, ◌*◌, ◌%◌, ◌^◌, ◌≤◌, ◌<◌, bit_and, bit_or, ◌≡◌, refl, ap, ◌∙◌, ◌==◌, if◌then◌else◌,
  ok, err, arith, ==_refl, div_parts, mod_parts,
}
use wasefire.Bits.{
  bit_and_mask, bit_and_fields, bit_or_fields, bit_or-zero, zero-bit_or, bit_and-le_right,
}
use wasefire.Store.Types.{invalid_storage}
use wasefire.Store.Bitfield.{shl32, not32}
use wasefire.Base.{two-pow-add}
use wasefire.Store.Bitfield.Field
use wasefire.Store.Bitfield.Field.{Field}

-- The complement of a mask of ones, as three fields.
module _ (c l p : ℕ) (size : (c + 1) * (l + 1) * (p + 1) ≡ 2 ^ 32) where
  mask_bound : l * (p + 1) < 2 ^ 32
  mask_bound = omega arith

  complement_parts : not32 (l * (p + 1)) ≡ c * (l + 1) * (p + 1) + p
  complement_parts = omega arith

-- With `c` bits above it, a field of `f` fits a word.
module _ (f : Field) (c : ℕ) (fits : f.pos + f.len + c ≡ 32) (narrow : f.len < 32) where
  below_word : 2 ^ f.len ≤ 2 ^ 31
  below_word = pow-le-pow_right (omega arith) {j = 31} (omega arith)

  pub mask-eq : Field.mask f ≡ 2 ^ f.len - 1
  unfolding Field.mask
  mask-eq = omega (arith, below_word)

  pub word_size : 2 ^ c * 2 ^ f.len * 2 ^ f.pos ≡ 2 ^ 32
  word_size =
      rw (← two-pow-add c f.len, ← two-pow-add (c + f.len) f.pos)
        (ap (λ (n : ℕ). 2 ^ n) {y = 32} (omega arith))

  pub get_slot :
      (h x l : ℕ)
      → x < 2 ^ f.len
      → l < 2 ^ f.pos
      → Field.get f ((h * 2 ^ f.len + x) * 2 ^ f.pos + l) ≡ x
  unfolding Field.get
  get_slot h x l hx hl =
      rw
        (
          div_parts (h * 2 ^ f.len + x) (2 ^ f.pos) l hl,
          mask-eq,
          bit_and_mask f.len (h * 2 ^ f.len + x),
        )
        (mod_parts h (2 ^ f.len) x hx)

  -- Everything outside the field is kept.
  masked_slot :
      (h x l v : ℕ)
      → h < 2 ^ c
      → x < 2 ^ f.len
      → l < 2 ^ f.pos
      → v < 2 ^ f.len
      → Field.masked f ((h * 2 ^ f.len + x) * 2 ^ f.pos + l) v
        ≡ (h * 2 ^ f.len + bit_and x v) * 2 ^ f.pos + l
  unfolding Field.masked
  masked_slot h x l v hh hx hl hv =
      rw (keep_parts, value_parts, both_parts)
        (rw
          (bit_and_fields (h * 2 ^ f.len + x) ((2 ^ c - 1) * 2 ^ f.len + v) f.pos l (2 ^ f.pos - 1)
            hl below)
          (rw
            (
              bit_and_fields h (2 ^ c - 1) f.len x v hx hv,
              bit_and_mask c h,
              bit_and_mask f.pos l,
              mod-eq_of_lt hh,
              mod-eq_of_lt hl,
            )
            refl))
    where
      C : 2 ^ c - 1 + 1 ≡ 2 ^ c
      C = omega (arith, one-le-pow c 2)

      L : 2 ^ f.len - 1 + 1 ≡ 2 ^ f.len
      L = omega (arith, one-le-pow f.len 2)

      P : 2 ^ f.pos - 1 + 1 ≡ 2 ^ f.pos
      P = omega (arith, one-le-pow f.pos 2)

      below : 2 ^ f.pos - 1 < 2 ^ f.pos
      below = omega (arith, P)

      size : (2 ^ c - 1 + 1) * (2 ^ f.len - 1 + 1) * (2 ^ f.pos - 1 + 1) ≡ 2 ^ 32
      size = rw (C, L, P) word_size

      bound : (2 ^ f.len - 1) * 2 ^ f.pos < 2 ^ 32
      bound = rw P at (mask_bound (2 ^ c - 1) (2 ^ f.len - 1) (2 ^ f.pos - 1) size)

      keep_parts :
          not32 (shl32 (Field.mask f) f.pos) ≡ (2 ^ c - 1) * 2 ^ f.len * 2 ^ f.pos + (2 ^ f.pos - 1)
      keep_parts =
          rw (mask-eq, mod-eq_of_lt bound)
            (rw (L, P) at (complement_parts (2 ^ c - 1) (2 ^ f.len - 1) (2 ^ f.pos - 1) size))

      value_bound : v * 2 ^ f.pos ≤ (2 ^ f.len - 1) * 2 ^ f.pos
      value_bound = mul-le-mul_right (2 ^ f.pos) (omega arith)

      value_parts : shl32 v f.pos ≡ v * 2 ^ f.pos
      value_parts = mod-eq_of_lt (omega (arith, value_bound, bound))

      both_parts :
          bit_or ((2 ^ c - 1) * 2 ^ f.len * 2 ^ f.pos + (2 ^ f.pos - 1)) (v * 2 ^ f.pos)
          ≡ ((2 ^ c - 1) * 2 ^ f.len + v) * 2 ^ f.pos + (2 ^ f.pos - 1)
      both_parts =
          ap (bit_or ((2 ^ c - 1) * 2 ^ f.len * 2 ^ f.pos + (2 ^ f.pos - 1)))
            {y = v * 2 ^ f.pos + 0} (omega arith)
          ∙ bit_or_fields ((2 ^ c - 1) * 2 ^ f.len) v f.pos (2 ^ f.pos - 1) 0 below
              (omega (arith, P))
          ∙ rw (bit_or-zero (2 ^ f.pos - 1), high) refl
        where
          high : bit_or ((2 ^ c - 1) * 2 ^ f.len) v ≡ (2 ^ c - 1) * 2 ^ f.len + v
          high =
              ap (λ n. bit_or n v) {y = (2 ^ c - 1) * 2 ^ f.len + 0} (omega arith)
              ∙ ap (bit_or ((2 ^ c - 1) * 2 ^ f.len + 0)) {y = 0 * 2 ^ f.len + v} (omega arith)
              ∙ bit_or_fields (2 ^ c - 1) 0 f.len 0 v (omega (arith, L)) hv
              ∙ rw (bit_or-zero (2 ^ c - 1), zero-bit_or v) refl

  -- `Field.set` on a value that fits the field: it succeeds exactly when the value only turns ones
  -- of the field into zeros, and then replaces the field and nothing else.
  pub set_slot :
      (h x l v : ℕ)
      → h < 2 ^ c
      → x < 2 ^ f.len
      → l < 2 ^ f.pos
      → v < 2 ^ f.len
      → Field.set f ((h * 2 ^ f.len + x) * 2 ^ f.pos + l) v ≡ (
          if bit_and x v == v
          then ok ((h * 2 ^ f.len + v) * 2 ^ f.pos + l)
          else err invalid_storage)
  unfolding Field.set
  set_slot h x l v hh hx hl hv =
      rw
        (
          mask-eq,
          bit_and_mask f.len v,
          mod-eq_of_lt hv,
          ==_refl v,
          masked_slot h x l v hh hx hl hv,
          get_slot h (bit_and x v) l (omega (arith, bit_and-le_right x v)) hl,
        )
        (ground arith)

  -- A value that does not fit the field is refused.
  pub set_overflow : (w v : ℕ) → 2 ^ f.len ≤ v → Field.set f w v ≡ err invalid_storage
  unfolding Field.set
  set_overflow w v hv =
      let smaller : v % 2 ^ f.len < 2 ^ f.len = mod-lt v (omega (arith, one-le-pow f.len 2)) in
      rw (mask-eq, bit_and_mask f.len v) (ground (arith, smaller))
