-- ===== src/Store/Format/Words/Headers.antt =====
-- The first word of a user entry, written and read back.
use wasefire.Base.{
  ℕ, ◌+◌, ◌*◌, ◌/◌, ◌%◌, ◌^◌, ◌≤◌, ◌<◌, ◌≡◌, refl, ap, ◌∙◌, Bool, true, false, ok, arith, ◌==◌,
  if◌then◌else◌,
}
use wasefire.Bits.{count_zeros}
use wasefire.Store.Bitfield.{Word}
use wasefire.Store.Bitfield.Field
use wasefire.Store.Bitfield.ConstField
use wasefire.Store.Bitfield.Bit
use wasefire.Store.Bitfield.Flags
use wasefire.Store.Bitfield.Checksum
use wasefire.Store.Bitfield.Replace.{get-eq}
use wasefire.Store.Bitfield.Sums.{get_top_lem}
use wasefire.Store.Bitfield.Writes.{set_ones, set_sum}
use wasefire.Store.Format.{Format, erased_word}
use wasefire.Store.Format.Layout.{
  id_header, header_deleted, header_flipped, header_length, header_key, header_checksum,
}
use wasefire.Store.Format.Words.{
  Header, header, valid, build_header, parse_header, parse_word, finish_word,
}
use wasefire.Store.Format.Words.Checked.{count_zeros-le}
use wasefire.Store.Format.Words.Kinds.{parse-header}

-- The bits of the identifier and of the two flags: the entry is not deleted.
abbrev flags : Bool → ℕ
flags true = 5
flags false = 13

abbrev header_body : Header → ℕ
header_body h = h.key * 16384 + h.length * 16 + flags h.flipped

-- The word of a header: the checksum counts the zeros of the content and those of the payload.
pub header_word : Header → Word
header_word h = (count_zeros 26 (header_body h) + h.checksum) * 67108864 + header_body h

-- The values fit their fields.
pub record IsWritable (h : Header) : Type 0 where
  pub length_max : h.length < 1024
  pub key_max : h.key < 4096
  pub checksum_max : h.checksum ≤ 32

flags_facts :
    (b : Bool)
    → (flags b < 16) × (flags b % 4 ≡ 1) × (flags b / 4 % 2 ≡ 1) × ((flags b / 8 % 2 == 0) ≡ b)
flags_facts true = (omega arith, refl, refl, refl)
flags_facts false = (omega arith, refl, refl, refl)

start : (flipped : Bool) → ℕ
start flipped = 268435455 * 16 + flags flipped

build_start :
    (flipped : Bool)
    → (if flipped then Bit.set header_flipped 4294967293 else 4294967293) ≡ start flipped
unfolding Bit.set start
build_start true = refl
build_start false = refl

module _ (h : Header) (writable : IsWritable h) where
  flags-lt : flags h.flipped < 16
  flags-lt = (flags_facts h.flipped).0

  body-lt : header_body h < 2 ^ 26
  body-lt = omega (arith, flags-lt, writable)

  abbrev middle : Word
  middle = (262143 * 1024 + h.length) * 16 + flags h.flipped

  pub build_header-eq : build_header h.flipped h.length h.key h.checksum ≡ ok (header_word h)
  unfolding build_header ConstField.set header_word start
  build_header-eq =
      rw
        (
          set_ones id_header.field 30 refl (omega arith) 1073741823 0 1 erased_word 4294967293 refl
              refl (omega arith) (omega arith) (omega arith),
          build_start h.flipped,
          set_ones header_length 18 refl (omega arith) 262143 (flags h.flipped) h.length
              (start h.flipped) middle (omega arith) refl (omega arith) flags-lt
              writable.length_max,
          set_ones header_key 6 refl (omega arith) 63 (h.length * 16 + flags h.flipped) h.key middle
              (63 * 67108864 + header_body h) (omega arith) (omega arith) (omega arith)
              (omega (arith, flags-lt, writable)) writable.key_max,
        )
        (set_sum header_checksum (header_body h) h.checksum (63 * 67108864 + header_body h) refl
          (omega arith) refl body-lt
          (omega (arith, count_zeros-le 26 (header_body h), writable.checksum_max)))

  shape :
      (header_word h ≡ (count_zeros 26 (header_body h) + h.checksum) * 67108864 + header_body h)
      × (count_zeros 26 (header_body h) + h.checksum < 64)
  unfolding header_word
  shape = (refl, omega (arith, count_zeros-le 26 (header_body h), writable.checksum_max))

  pub header_word-lt : header_word h < 2 ^ 32
  header_word-lt = omega (arith, shape, body-lt)

  sum_read : Checksum.get header_checksum (header_word h) ≡ ok h.checksum
  unfolding header_word
  sum_read =
      get_top_lem header_checksum refl (omega arith) (count_zeros 26 (header_body h) + h.checksum)
        (header_body h) shape.1 body-lt
      ∙ ground arith

  length_read : Field.get header_length (header_word h) ≡ h.length
  length_read =
      omega (
        arith,
        shape,
        flags-lt,
        writable,
        get-eq header_length 18 refl (omega arith) (header_word h),
      )

  key_read : Field.get header_key (header_word h) ≡ h.key
  key_read =
      omega
        (arith, shape, flags-lt, writable, get-eq header_key 6 refl (omega arith) (header_word h))

  deleted_read : Bit.get header_deleted (header_word h) ≡ false
  deleted_read =
      Flags.get-eq header_deleted (header_word h) (omega arith)
      ∙ ap (λ n. n == 0) {y = 1} (omega (arith, shape, flags_facts h.flipped))

  flipped_read : Bit.get header_flipped (header_word h) ≡ h.flipped
  flipped_read =
      Flags.get-eq header_flipped (header_word h) (omega arith)
      ∙ ap (λ n. n == 0) {y = flags h.flipped / 8 % 2} (omega (arith, shape))
      ∙ (flags_facts h.flipped).3

  -- `parse_word` reads the header that `build_header` writes.
  pub parse_word-header_word : (f : Format) → parse_word f (header_word h) ≡ ok (valid (header h))
  unfolding parse_header finish_word
  parse_word-header_word f =
      parse-header f (header_word h) (omega (arith, shape, flags_facts h.flipped))
      ∙ rw (deleted_read, sum_read, length_read, key_read, flipped_read) refl

  -- `build_header` succeeds on every header whose fields are in range, and `parse_word` reads the
  -- header back from its word.
  pub parse_word-build_header :
      (f : Format)
      → (w : Word) × (build_header h.flipped h.length h.key h.checksum ≡ ok w)
        × (parse_word f w ≡ ok (valid (header h)))
  parse_word-build_header f = (header_word h, build_header-eq, parse_word-header_word f)
