-- ===== src/Store/Bitfield/Sums.antt =====
-- A checksum that ends its word: what it reads, and what it protects.
use native.Mathlib.Nat.{one-le-pow, mod-lt, div-add-mod', div-lt_iff_lt-mul}
use wasefire.Base.{
  ℕ, ◌+◌, ◌-◌, ◌*◌, ◌/◌, ◌%◌, ◌^◌, ◌≤◌, ◌<◌, bit_and, ◌≡◌, refl, sym, ap, ap₂, ◌∙◌, ltb,
  if◌then◌else◌, ok, err, arith, ==_true,
}
use wasefire.Bits.{
  count_ones, count_zeros, count_ones-le, count_ones_fields, count_ones_mask, count_ones-Reachable,
  count_ones_unique, Reachable, Reachable-fields, count_ones-zero, mask-bit_and, bit_and-le_left,
}
use wasefire.Store.Types.{invalid_storage}
use wasefire.Store.Bitfield.{Word}
use wasefire.Store.Bitfield.Field
use wasefire.Store.Bitfield.Checksum
use wasefire.Store.Bitfield.Checksum.{Checksum}
use wasefire.Base.{two-pow-add}
use wasefire.Store.Bitfield.Slots.{get_slot, set_slot}

-- `c.field` covers the bits from `c.field.pos` to the end of the word.
module _ (c : Checksum) (ends : c.field.pos + c.field.len ≡ 32) (narrow : c.field.len < 32) where
  abbrev size : ℕ
  size = c.field.pos

  fits : c.field.pos + c.field.len + 0 ≡ 32
  fits = omega (arith, ends)

  get_top :
      (x b : ℕ) → x < 2 ^ c.field.len → b < 2 ^ size → Field.get c.field (x * 2 ^ size + b) ≡ x
  get_top x b hx hb =
      ap (λ n. Field.get c.field (n * 2 ^ size + b)) {x = x} {y = 0 * 2 ^ c.field.len + x}
        (omega arith)
      ∙ get_slot c.field 0 fits narrow 0 x b hx hb

  cut : (w : Word) → w ≡ w / 2 ^ size * 2 ^ size + w % 2 ^ size
  cut w = sym (div-add-mod' w (2 ^ size))

  top-lt : (w : Word) → w < 2 ^ 32 → w / 2 ^ size < 2 ^ c.field.len
  top-lt w h = (div-lt_iff_lt-mul (one-le-pow size 2 (omega arith))).1 (rw whole h)
    where
      whole : 2 ^ c.field.len * 2 ^ size ≡ 2 ^ 32
      whole =
          rw (← two-pow-add c.field.len size) (ap (λ (n : ℕ). 2 ^ n) {y = 32} (omega (arith, ends)))

  low-lt : (w : Word) → w % 2 ^ size < 2 ^ size
  low-lt w = mod-lt w (one-le-pow size 2 (omega arith))

  -- The zeros that a checksum counts are those of the bits below it.
  zeros_top :
      (x b : ℕ)
      → x < 2 ^ c.field.len
      → b < 2 ^ size
      → Checksum.zeros c (x * 2 ^ size + b) ≡ count_zeros size b
  unfolding Checksum.zeros count_zeros
  zeros_top x b hx hb = rw (get_top x b hx hb) (
      omega (
        arith,
        ends,
        count_ones_fields size c.field.len 32 x b (omega (arith, ends)) hb,
        count_ones_fields c.field.len size 32 0 x (omega (arith, ends)) hx,
        count_ones-zero size,
        count_ones-le c.field.len x,
        count_ones-le size b,
        ap (count_ones 32) {x = 0 * 2 ^ c.field.len + x} {y = x} (omega arith),
      ))

  pub get_top_lem :
      (x b : ℕ)
      → x < 2 ^ c.field.len
      → b < 2 ^ size
      → Checksum.get c (x * 2 ^ size + b)
        ≡ (if ltb x (count_zeros size b) then err invalid_storage else ok (x - count_zeros size b))
  unfolding Checksum.get
  get_top_lem x b hx hb = rw (get_top x b hx hb, zeros_top x b hx hb) refl

  pub set_top_lem :
      (b v : ℕ)
      → b < 2 ^ size
      → count_zeros size b + v < 2 ^ c.field.len
      → Checksum.set c ((2 ^ c.field.len - 1) * 2 ^ size + b) v
        ≡ ok ((count_zeros size b + v) * 2 ^ size + b)
  unfolding Checksum.set
  set_top_lem b v hb hv =
      rw (zeros_of_word, as_slots)
        (set_slot c.field 0 fits narrow 0 (2 ^ c.field.len - 1) b (count_zeros size b + v)
            (omega arith) (omega (arith, one-le-pow c.field.len 2)) hb hv
          ∙ rw (==_true _ _ (mask-bit_and c.field.len (count_zeros size b + v) hv))
              (ap (λ n. ok n) (omega arith)))
    where
      as_slots :
          (2 ^ c.field.len - 1) * 2 ^ size + b
          ≡ (0 * 2 ^ c.field.len + (2 ^ c.field.len - 1)) * 2 ^ size + b
      as_slots = omega arith

      zeros_of_word : count_zeros 32 ((2 ^ c.field.len - 1) * 2 ^ size + b) ≡ count_zeros size b
      zeros_of_word =
          unfold count_zeros in
          omega (
            arith,
            ends,
            count_ones_fields size c.field.len 32 (2 ^ c.field.len - 1) b (omega (arith, ends)) hb,
            count_ones_mask c.field.len,
            count_ones-le size b,
          )

  -- A word whose checksum reads `v`, cut at the checksum.
  checksum_value :
      (w : Word) (v : ℕ)
      → w < 2 ^ 32
      → Checksum.get c w ≡ ok v
      → w / 2 ^ size ≡ count_zeros size (w % 2 ^ size) + v
  checksum_value w v h e =
      ground (arith, cut w, get_top_lem (w / 2 ^ size) (w % 2 ^ size) (top-lt w h) (low-lt w))

  -- For a checksum in the highest bits of a word of 32 bits, not all of them: two words whose
  -- checksums read the same value are equal if one is reached from the other by turning ones into
  -- zeros.
  pub checksum_unique :
      (u w : Word) (v : ℕ)
      → u < 2 ^ 32
      → w < 2 ^ 32
      → Checksum.get c u ≡ ok v
      → Checksum.get c w ≡ ok v
      → Reachable u w
      → w ≡ u
  checksum_unique u w v hu hw eu ew reach =
      omega (arith, cut u, cut w, same_low, same_top, ap (λ (n : ℕ). n * 2 ^ size) same_top)
    where
      parts : Reachable (u / 2 ^ size) (w / 2 ^ size) × Reachable (u % 2 ^ size) (w % 2 ^ size)
      parts =
          Reachable-fields size (u / 2 ^ size) (w / 2 ^ size) (u % 2 ^ size) (w % 2 ^ size)
            (low-lt u) (low-lt w) (ap₂ bit_and (sym (cut u)) (sym (cut w)) ∙ reach ∙ cut w)

      fewer : count_ones size (w % 2 ^ size) ≤ count_ones size (u % 2 ^ size)
      fewer = count_ones-Reachable size (u % 2 ^ size) (w % 2 ^ size) parts.1

      lower : w / 2 ^ size ≤ u / 2 ^ size
      lower = omega (arith, parts.0, bit_and-le_left (u / 2 ^ size) (w / 2 ^ size))

      sums :
          (count_ones size (w % 2 ^ size) ≡ count_ones size (u % 2 ^ size))
          × (w / 2 ^ size ≡ u / 2 ^ size)
      sums =
          unfold count_zeros in
          omega (
            arith,
            fewer,
            lower,
            checksum_value u v hu eu,
            checksum_value w v hw ew,
            count_ones-le size (u % 2 ^ size),
          )

      same_low : w % 2 ^ size ≡ u % 2 ^ size
      same_low =
          count_ones_unique size (u % 2 ^ size) (w % 2 ^ size) (low-lt u) (low-lt w) parts.1 sums.0

      same_top : w / 2 ^ size ≡ u / 2 ^ size
      same_top = sums.1
