-- ===== src/Store/Format/Words/Checked.antt =====
-- Words that end in the checksum of a word: 27 bits of content below 5 bits that count its zeros.
use wasefire.Base.{ℕ, ◌+◌, ◌*◌, ◌^◌, ◌≤◌, ◌<◌, ◌≡◌, refl, ap, ◌∙◌, some, false, ok, arith, ◌==◌}
use wasefire.Bits.{count_zeros}
use wasefire.Store.Bitfield.{Word}
use wasefire.Store.Bitfield.Checksum
use wasefire.Store.Bitfield.Writes.{set_sum}
use wasefire.Store.Bitfield.Sums.{get_top_lem}
use wasefire.Store.Format.{erased_word}
use wasefire.Store.Format.Layout.{word_checksum}
use wasefire.Store.Format.Words.{as_slice, from_slice}

-- The bytes of a word read back as the word.
pub from_slice-as_slice : (w : Word) → w < 2 ^ 32 → from_slice (as_slice w) ≡ some w
unfolding from_slice as_slice
from_slice-as_slice w h = ap (λ n. some n) (omega arith)

pub checked : ℕ → Word
checked b = count_zeros 27 b * 2 ^ 27 + b

pub count_zeros-le : (w x : ℕ) → count_zeros w x ≤ w
unfolding count_zeros
count_zeros-le w x = omega arith

module _ (b : ℕ) (small : b < 2 ^ 27) where
  pub checked_shape : (checked b ≡ count_zeros 27 b * 134217728 + b) × (count_zeros 27 b ≤ 27)
  unfolding checked
  checked_shape = (refl, count_zeros-le 27 b)

  pub checked-lt : checked b < 2 ^ 32
  checked-lt = omega (arith, checked_shape)

  pub checked-ne-erased : (checked b == erased_word) ≡ false
  checked-ne-erased = ground (arith, checked_shape)

  -- Writing the checksum of the content into ones, and reading it.
  pub set-checked :
      (w : Word) → w ≡ 31 * 134217728 + b → Checksum.set word_checksum w 0 ≡ ok (checked b)
  unfolding checked
  set-checked w e =
      set_sum word_checksum b 0 w refl (omega arith) e small (omega (arith, count_zeros-le 27 b))
      ∙ ap (λ n. ok n) (omega arith)

  pub get-checked : Checksum.get word_checksum (checked b) ≡ ok 0
  unfolding checked
  get-checked =
      get_top_lem word_checksum refl (omega arith) (count_zeros 27 b) b
        (omega (arith, count_zeros-le 27 b)) small
      ∙ ground arith

  pub checked_slice : from_slice (as_slice (checked b)) ≡ some (checked b)
  checked_slice = from_slice-as_slice (checked b) checked-lt
