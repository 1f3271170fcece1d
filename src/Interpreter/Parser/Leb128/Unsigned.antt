-- ===== src/Interpreter/Parser/Leb128/Unsigned.antt =====
-- crates/interpreter/src/parser.rs: unsigned LEB128: the encoding of a number, and its reading by
-- `parse_leb128`.
use native.Mathlib.Nat.{pow-suc, one-le-pow, pow-le-pow_right}
use wasefire.Bits.{
  bit_and-zero, bit_and_fields, bit_and_mask, bit_or_fields, bit_or-zero, zero-bit_or,
}
use wasefire.Base.{
  ℕ, zero, suc, ◌+◌, ◌-◌, ◌*◌, ◌/◌, ◌%◌, ◌^◌, ◌≤◌, ◌<◌, ◌≡◌, ◌∙◌, ap, ap₂, List, [], ◌∷◌, ◌++◌,
  bit_and, bit_or, Bool, false, ltb, ◌==◌, arith, if◌then◌else◌, Option, some, le_or_lt, div_parts,
  inl, inr,
}
use wasefire.Interpreter.Mode.{Mode, ok, mode_open}
use wasefire.Interpreter.Parser.Core.{Parser, ◌>>=◌, ◌>>◌, pure, lift, require, parse_byte}
use wasefire.Interpreter.Parser.Parses.{bind-ok}
use wasefire.Interpreter.Parser.Parses.Bytes.{parse_byte-cons}
use wasefire.Interpreter.Parser.Leb128.{shl64, checked_sub, leb_last, leb_loop, parse_leb128}

-- Of `n` groups of 7 bits at most, the lowest is first, and all but the last are marked by 128.
abbrev pub leb_bytes : ℕ → ℕ → List ℕ
leb_bytes zero v = v ∷ []
leb_bytes (suc n) v =
    let later = leb_bytes n (v / 128) in if ltb v 128 then v ∷ [] else (128 + v % 128) ∷ later

leb_bytes-small : (n w : ℕ) → w < 128 → leb_bytes (suc n) w ≡ w ∷ []
leb_bytes-small n w h = ground arith

leb_bytes-large :
    (n w : ℕ) → 128 ≤ w → leb_bytes (suc n) w ≡ (128 + w % 128) ∷ leb_bytes n (w / 128)
leb_bytes-large n w h = ground arith

top_bit : (byte : ℕ) → bit_and byte 0x80 ≡ byte / 128 % 2 * 128
top_bit byte = ground (
  arith,
  bit_and_fields (byte / 128) 1 7 (byte % 128) 0 (omega arith) (omega arith),
  bit_and-zero (byte % 128),
  bit_and_mask 1 (byte / 128),
)

low_bits : (byte : ℕ) → bit_and byte 0x7f ≡ byte % 128
low_bits byte = bit_and_mask 7 byte

-- Bits above those of a number are added to it.
above : (k val x : ℕ) → val < 2 ^ k → bit_or val (x * 2 ^ k) ≡ val + x * 2 ^ k
above k val x h = ground (
  arith,
  bit_or_fields 0 x k val 0 h (one-le-pow k 2 (omega arith)),
  bit_or-zero val,
  zero-bit_or x,
)

pow_sum : (a b : ℕ) → 2 ^ (a + b) ≡ 2 ^ a * 2 ^ b
pow_sum zero b = grind arith
pow_sum (suc a) b = grind (arith, pow-suc 2 (a + b), pow-suc 2 a, pow_sum a b)

mul_lt : (x n p : ℕ) → x < n → x * p + p ≤ n * p
mul_lt x n p h = grind arith

distribute : (q r p : ℕ) → r * p + q * (p * 128) ≡ (r + q * 128) * p
distribute q r p = grind arith

split_group : (w p : ℕ) → w % 128 * p + w / 128 * (p * 128) ≡ w * p
split_group w p = distribute (w / 128) (w % 128) p ∙ ap (λ x. x * p) (omega arith)

shl64_fits : (x len k : ℕ) → x < 2 ^ len → len + k ≤ 64 → shl64 x k ≡ x * 2 ^ k
shl64_fits x len k h fits =
    let power : 2 ^ (len + k) ≤ 2 ^ 64 = pow-le-pow_right (omega arith) fits in
    omega (arith, mul_lt x (2 ^ len) (2 ^ k) h, pow_sum len k, one-le-pow k 2)

-- A group of 7 bits.
shift_group : (k : ℕ) → 2 ^ (k + 7) ≡ 2 ^ k * 128
shift_group k = pow_sum k 7

-- A number of more than one group has more bits than a group.
leb_len : (len w : ℕ) → w < 2 ^ len → 128 ≤ w → 8 ≤ len
leb_len len w fits large = elim (le_or_lt 8 len) [
  | inl h ↦ h
  | inr h ↦
      let power : 2 ^ len ≤ 2 ^ 7 =
        pow-le-pow_right (omega arith) {i = len} {j = 7} (omega arith) in
      absurd (omega arith)
]

-- A marked byte, with a byte's bits left or more.
goes_on :
    (m : Mode) (b : Bool) (o : Option ℕ) (l : ℕ) (p : Parser ℕ) (f : ℕ → Parser ℕ) (xs : List ℕ)
    → b ≡ false
    → o ≡ some l
    → (if b then p else (lift (mode_open m o) >>= f)) xs ≡ f l xs
unfolding ◌>>=◌ lift
goes_on m b o l p f xs h e = ground arith

-- `bits - len` bits are read, and `w` is what is left to read.
module _ (m : Mode) (bits : ℕ) (wide : bits ≤ 64) where
  leb_last-reads :
      (val len w : ℕ) (rest : List ℕ)
      → len ≤ bits
      → w < 2 ^ len
      → val < 2 ^ (bits - len)
      → leb_last m false bits val len w rest ≡ ok (val + w * 2 ^ (bits - len), rest)
  unfolding leb_last ◌>>◌ ◌>>=◌ require lift pure
  leb_last-reads val len w rest h fits low =
      let shifted = shl64_fits w len (bits - len) fits (omega arith) in
      let joined = above (bits - len) val w low in
      let high : w / 2 ^ len ≡ 0 = ground (arith, div_parts 0 (2 ^ len) w fits) in ground arith

  leb_loop-stops :
      (fuel val len w : ℕ) (rest : List ℕ)
      → len ≤ bits
      → w < 2 ^ len
      → w < 128
      → val < 2 ^ (bits - len)
      → leb_loop m false bits (suc fuel) val len (w ∷ rest) ≡ ok (val + w * 2 ^ (bits - len), rest)
  unfolding leb_loop
  leb_loop-stops fuel val len w rest h fits small low =
      let unmarked = top_bit w in
      bind-ok (parse_byte m) _ (w ∷ rest) w rest (parse_byte-cons m w rest)
      ∙ ground (arith, leb_last-reads val len w rest h fits low)

  leb_loop-continues :
      (fuel val len x : ℕ) (rest : List ℕ)
      → len ≤ bits
      → 8 ≤ len
      → x < 128
      → val < 2 ^ (bits - len)
      → leb_loop m false bits (suc fuel) val len ((128 + x) ∷ rest)
        ≡ leb_loop m false bits fuel (val + x * 2 ^ (bits - len)) (len - 7) rest
  unfolding leb_loop
  leb_loop-continues fuel val len x rest h long small low =
      let marked = top_bit (128 + x) in
      let group = low_bits (128 + x) in
      let shifted = shl64_fits x 7 (bits - len) small (omega arith) in
      let joined = above (bits - len) val x low in
      let next : bit_or val (shl64 (bit_and (128 + x) 0x7f) (bits - len))
          ≡ val + x * 2 ^ (bits - len) =
        ap (λ y. bit_or val (shl64 y (bits - len))) (omega arith)
        ∙ ap (bit_or val) shifted
        ∙ joined in
      bind-ok (parse_byte m) _ ((128 + x) ∷ rest) (128 + x) rest (parse_byte-cons m (128 + x) rest)
      ∙ goes_on m (bit_and (128 + x) 0x80 == 0) (checked_sub len 8) (len - 8) _ _ rest
          (ground arith) (ground arith)
      ∙ ap₂ (λ v l. leb_loop m false bits fuel v l rest) next (omega arith)

  leb_loop-reads :
      (n fuel val len w : ℕ) (rest : List ℕ)
      → len ≤ bits
      → len < fuel
      → len ≤ n
      → w < 2 ^ len
      → val < 2 ^ (bits - len)
      → leb_loop m false bits fuel val len (leb_bytes n w ++ rest)
        ≡ ok (val + w * 2 ^ (bits - len), rest)
  leb_loop-reads n zero val len w rest h fuelled enough fits low = absurd (omega arith)
  leb_loop-reads zero (suc fuel) val zero w rest h fuelled enough fits low =
      leb_loop-stops fuel val 0 w rest h fits (omega arith) low
  leb_loop-reads zero (suc fuel) val (suc len) w rest h fuelled enough fits low =
      absurd (omega arith)
  leb_loop-reads (suc n) (suc fuel) val len w rest h fuelled enough fits low =
      elim (le_or_lt 128 w) [
        | inl large ↦
            let long : 8 ≤ len = leb_len len w fits large in
            let power : 2 ^ (bits - (len - 7)) ≡ 2 ^ (bits - len) * 128 =
              ap (λ e. 2 ^ e) (omega arith) ∙ shift_group (bits - len) in
            let whole : 2 ^ len ≡ 2 ^ (len - 7) * 128 =
              ap (λ e. 2 ^ e) (omega arith) ∙ shift_group (len - 7) in
            let parts = split_group w (2 ^ (bits - len)) in
            let field = mul_lt (w % 128) 128 (2 ^ (bits - len)) (omega arith) in
            ap (λ xs. leb_loop m false bits (suc fuel) val len (xs ++ rest))
              (leb_bytes-large n w large)
            ∙ leb_loop-continues fuel val len (w % 128) (leb_bytes n (w / 128) ++ rest) h long
                (omega arith) low
            ∙ leb_loop-reads n fuel (val + w % 128 * 2 ^ (bits - len)) (len - 7) (w / 128) rest
                (omega arith) (omega arith) (omega arith) (omega arith) (omega arith)
            ∙ ap (λ v. ok (v, rest)) (grind arith)
        | inr small ↦
            ap (λ xs. leb_loop m false bits (suc fuel) val len (xs ++ rest))
              (leb_bytes-small n w small)
            ∙ leb_loop-stops fuel val len w rest h fits small low
      ]

-- For at most 64 bits, `parse_leb128` reads the unsigned encoding of a number of that many bits
-- back, in both modes, and leaves the bytes behind it.
pub parse_leb128-leb_bytes :
    (m : Mode) (bits v : ℕ) (rest : List ℕ)
    → bits ≤ 64
    → v < 2 ^ bits
    → parse_leb128 m false bits (leb_bytes bits v ++ rest) ≡ ok (v, rest)
unfolding parse_leb128
parse_leb128-leb_bytes m bits v rest wide fits =
    leb_loop-reads m bits wide bits (suc bits) 0 bits v rest (omega arith) (omega arith)
      (omega arith) fits (ground arith)
    ∙ ap (λ w. ok (w, rest)) (ground arith)
