-- ===== src/Store/Format/Words/Payload.antt =====
-- The bytes of a user entry: the payload, padded to whole words, behind the header.
use wasefire.Base.{
  ℕ, zero, suc, ◌+◌, ◌-◌, ◌*◌, ◌≤◌, ◌<◌, ◌≡◌, refl, ap, ◌∙◌, Bool, true, false, ◌&&◌, List, [], ◌∷◌,
  ◌++◌, arith, ◌==◌, ltb, ltb-true, length, take, drop, set, replicate, length-append, length-take,
  length-drop, length-set, length-replicate, Bool-cases, inl, inr,
}
use wasefire.Store.Bitfield.{count_zeros_slice}
use wasefire.Store.Format.{word_bytes, bytes_to_words}
use wasefire.Store.Format.Words.{is_erased, copy_at, build_payload}
use wasefire.Store.Format.Words.Checked.{count_zeros-le}

pub length-copy_at :
    (off : ℕ) (src dst : List ℕ)
    → off + length src ≤ length dst
    → length (copy_at off src dst) ≡ length dst
unfolding copy_at
length-copy_at off src dst h = omega (
  arith,
  length-append (take off dst) (src ++ drop (off + length src) dst),
  length-append src (drop (off + length src) dst),
  length-take off dst,
  length-drop (off + length src) dst,
)

pub count_zeros_slice-le : (xs : List ℕ) → count_zeros_slice xs ≤ 8 * length xs
unfolding count_zeros_slice
count_zeros_slice-le [] = omega arith
count_zeros_slice-le (x ∷ xs) = omega (arith, count_zeros_slice-le xs, count_zeros-le 8 x)

-- Flipping the last bit of a list of bytes leaves it not erased.
set_last-not_erased :
    (n : ℕ) (xs : List ℕ) → n ≡ length xs - 1 → 0 < length xs → is_erased (set xs n 0x7f) ≡ false
unfolding is_erased
set_last-not_erased n [] e h = absurd (omega arith)
set_last-not_erased zero (x ∷ xs) e h = refl
set_last-not_erased (suc n) (x ∷ xs) e h =
    rw (set_last-not_erased n xs (omega arith) (omega arith)) (and_false (x == 0xff))
  where
    and_false : (b : Bool) → (b && false) ≡ false
    and_false true = refl
    and_false false = refl

drop-set : (m n k : ℕ) (xs : List ℕ) → k ≡ m + n → drop m (set xs k 0x7f) ≡ set (drop m xs) n 0x7f
drop-set zero n k xs e = ap (λ i. set xs i 0x7f) (omega arith)
drop-set (suc m) n k [] e = refl
drop-set (suc m) n zero (x ∷ xs) e = absurd (omega arith)
drop-set (suc m) n (suc k) (x ∷ xs) e = drop-set m n k xs (omega arith)

-- The bytes before the header is written.
abbrev padded : List ℕ → List ℕ
padded value =
    copy_at word_bytes value (replicate ((1 + bytes_to_words (length value)) * word_bytes) 0xff)

length-padded : (value : List ℕ) → length (padded value) ≡ (1 + bytes_to_words (length value)) * 4
length-padded value =
    length-copy_at 4 value (replicate ((1 + bytes_to_words (length value)) * word_bytes) 0xff)
      (rw length-replicate (omega arith))
    ∙ length-replicate ((1 + bytes_to_words (length value)) * word_bytes) 0xff

pub record PayloadFacts (value : List ℕ) (out : Bool × List ℕ) : Type 0 where
  pub size : length out.1 ≡ (1 + bytes_to_words (length value)) * 4
  pub not_erased :
      0 < bytes_to_words (length value)
      → is_erased (drop (bytes_to_words (length value) * 4) out.1) ≡ false

-- The payload has whole words, and its last word is never erased.
pub payload_facts : (value : List ℕ) → PayloadFacts value (build_payload value)
unfolding build_payload
payload_facts value = elim (Bool-cases erased_footer) [
  | inl t ↦ rw t (record {
    size = length-set (padded value) (length (padded value) - 1) 0x7f ∙ bytes;
    not_erased = λ p.
        rw
          (drop-set (words * 4) 3 (length (padded value) - 1) (padded value) (omega (arith, bytes)))
          (set_last-not_erased 3 (drop (words * 4) (padded value))
            (omega (arith, bytes, length-drop (words * 4) (padded value)))
            (omega (arith, bytes, length-drop (words * 4) (padded value))));
  })
  | inr f ↦ rw f (record { size = bytes; not_erased = λ p. last_of_and (ltb-true 0 words p) f })
]
  where
    words : ℕ
    words = bytes_to_words (length value)

    erased_footer : Bool
    erased_footer = ltb 0 words && is_erased (drop (words * word_bytes) (padded value))

    bytes : length (padded value) ≡ (1 + words) * 4
    bytes = length-padded value

    last_of_and : {a b : Bool} → a ≡ true → (a && b) ≡ false → b ≡ false
    last_of_and p q = ground arith
