-- ===== src/Store/Bitfield/Replace.antt =====
-- `Field.set` against replacing the digits of the field in the word.
use native.Mathlib.Nat.{one-le-pow, mod-lt, div-lt_iff_lt-mul, div-add-mod'}
use native.Mathlib.Decide.{dec_lt}
use wasefire.Base.{
  ℕ, ◌+◌, ◌-◌, ◌*◌, ◌/◌, ◌%◌, ◌^◌, ◌<◌, bit_and, ◌≡◌, sym, ap, ap₂, ◌∙◌, ◌==◌, ltb, ◌&&◌,
  if◌then◌else◌, ok, err, arith, ltb-true, ltb-false,
}
use wasefire.Bits.{bit_and_mask}
use wasefire.Store.Types.{invalid_storage}
use wasefire.Store.Bitfield.{Word}
use wasefire.Store.Bitfield.Field
use wasefire.Store.Bitfield.Field.{Field}
use wasefire.Store.Bitfield.Slots.{mask-eq, word_size, set_slot, set_overflow}

-- The word with the digits of the field taken out and those of `v` put in.
unfoldable pub replace : Field → Word → ℕ → Word
replace f w v = w - Field.get f w * 2 ^ f.pos + v * 2 ^ f.pos

-- The parts of a word above and below a field, and in it.
abbrev above : Field → Word → ℕ
above f w = w / 2 ^ f.pos / 2 ^ f.len

abbrev inside : Field → Word → ℕ
inside f w = w / 2 ^ f.pos % 2 ^ f.len

abbrev below : Field → Word → ℕ
below f w = w % 2 ^ f.pos

-- A word is its three parts.
parts_of_word :
    (f : Field) (w : Word) → w ≡ (above f w * 2 ^ f.len + inside f w) * 2 ^ f.pos + below f w
parts_of_word f w = rw (div-add-mod' (w / 2 ^ f.pos) (2 ^ f.len)) (sym (div-add-mod' w (2 ^ f.pos)))

module _ (f : Field) (c : ℕ) (fits : f.pos + f.len + c ≡ 32) (narrow : f.len < 32) where
  above-lt : (w : Word) → w < 2 ^ 32 → above f w < 2 ^ c
  above-lt w h =
      (div-lt_iff_lt-mul (one-le-pow f.len 2 (omega arith))).1 (
        (div-lt_iff_lt-mul (one-le-pow f.pos 2 (omega arith))).1 (rw (word_size f c fits narrow) h))

  pub get-eq : (w : Word) → Field.get f w ≡ inside f w
  unfolding Field.get
  get-eq w = rw (mask-eq f c fits narrow) (bit_and_mask f.len (w / 2 ^ f.pos))

  -- For a field of fewer than 32 bits that lies in a word of 32 bits: `Field.set` returns the word
  -- with the field replaced by the value if the value fits the field and only turns ones of the
  -- field into zeros. Else it is InvalidStorage.
  pub set-eq-replace :
      (w : Word) (v : ℕ)
      → w < 2 ^ 32
      → Field.set f w v ≡ (
          if ltb v (2 ^ f.len) && (bit_and (Field.get f w) v == v)
          then ok (replace f w v)
          else err invalid_storage)
  unfolding replace
  set-eq-replace w v h = elim (dec_lt v (2 ^ f.len)) [
    | yes small ↦ rw (ltb-true v (2 ^ f.len) small) (
        ap (λ n. Field.set f n v) (parts_of_word f w)
        ∙ set_slot f c fits narrow (above f w) (inside f w) (below f w) v (above-lt w h) inside-lt
            below-lt small
        ∙ ap₂ (λ (x n : ℕ). if bit_and x v == v then ok n else err invalid_storage) (sym (get-eq w))
            digits)
    | no large ↦
        rw (ltb-false v (2 ^ f.len) (omega arith)) (set_overflow f c fits narrow w v (omega arith))
  ]
    where
      inside-lt : inside f w < 2 ^ f.len
      inside-lt = mod-lt (w / 2 ^ f.pos) (one-le-pow f.len 2 (omega arith))

      below-lt : below f w < 2 ^ f.pos
      below-lt = mod-lt w (one-le-pow f.pos 2 (omega arith))

      digits :
          (above f w * 2 ^ f.len + v) * 2 ^ f.pos + below f w
          ≡ w - Field.get f w * 2 ^ f.pos + v * 2 ^ f.pos
      digits = rw get-eq (omega (arith, parts_of_word f w))
