-- ===== src/Store/Format/Words.antt =====
-- crates/store/src/format.rs: the words that the store writes and reads.
pub mod Checked
pub mod Pages
pub mod Torn
pub mod Kinds
pub mod Entries
pub mod Headers
pub mod Payload
pub mod Users
use wasefire.Base.{
  ℕ, ◌+◌, ◌-◌, ◌*◌, ◌/◌, ◌%◌, ◌^◌, Bool, true, false, not, ◌&&◌, ◌||◌, ltb, ◌==◌, if◌then◌else◌,
  Option, none, some, List, [], ◌∷◌, ◌++◌, length, take, drop, replicate, set, Result, ok, err,
  ◌>>=◌,
}
use wasefire.Store.Types.{StoreResult, invalid_storage}
use wasefire.Store.Bitfield.{Word, count_zeros_slice}
use wasefire.Store.Bitfield.Field
use wasefire.Store.Bitfield.ConstField
use wasefire.Store.Bitfield.Bit
use wasefire.Store.Bitfield.Checksum
use wasefire.Store.Format.{
  Format, erased_word, word_bytes, max_page, max_key_index, max_transaction_updates, max_value_len,
  max_prefix_len, window_size, bytes_to_words,
}
use wasefire.Store.Format.Layout.{
  word_checksum, init_cycle, init_prefix, compact_tail, id_padding, id_header, id_erase, id_clear,
  id_marker, id_remove, header_deleted, header_flipped, header_length, header_key, header_checksum,
  erase_page, clear_min_key, marker_count, remove_key,
}

pub data WordState (A : Type 0) : Type 0 where
  erased : WordState A
  partial : WordState A
  valid : A → WordState A

pub record InitInfo : Type 0 where
  pub cycle : ℕ
  pub prefix : ℕ

pub record CompactInfo : Type 0 where
  pub tail : ℕ

pub record Padding : Type 0 where
  pub length : ℕ

pub record Header : Type 0 where
  pub flipped : Bool
  pub length : ℕ
  pub key : ℕ
  pub checksum : ℕ

pub data InternalEntry : Type 0 where
  erase : ℕ → InternalEntry
  clear : ℕ → InternalEntry
  marker : ℕ → InternalEntry
  remove : ℕ → InternalEntry

pub data ParsedWord : Type 0 where
  padding : Padding → ParsedWord
  header : Header → ParsedWord
  internal : InternalEntry → ParsedWord

-- `Word::as_slice`: the bytes of a word, the lowest first.
unfoldable pub as_slice : Word → List ℕ
as_slice w = w % 256 ∷ w / 256 % 256 ∷ w / 256 / 256 % 256 ∷ w / 256 / 256 / 256 % 256 ∷ []

-- `Word::from_slice`. `none` is the panic on a slice of another length.
unfoldable pub from_slice : List ℕ → Option Word
from_slice (a ∷ b ∷ c ∷ d ∷ []) = some (a + 256 * (b + 256 * (c + 256 * d)))
from_slice _ = none

unfoldable pub is_erased : List ℕ → Bool
is_erased [] = true
is_erased (x ∷ xs) = x == 0xff && is_erased xs

-- `dst[off ..][.. src.len()].copy_from_slice(src)`
unfoldable pub copy_at : ℕ → List ℕ → List ℕ → List ℕ
copy_at off src dst = take off dst ++ (src ++ drop (off + length src) dst)

-- `Header::check`, with the last word of the entry if the entry has a payload.
unfoldable pub check_header : Header → Option (List ℕ) → Bool
check_header h none = 0 == h.checksum
check_header h (some footer) = count_zeros_slice footer == h.checksum

unfoldable pub set_padding : Word → StoreResult Word
set_padding word = ConstField.set id_padding word

unfoldable pub set_deleted : Word → Word
set_deleted word = Bit.set header_deleted word

module _ (f : Format) where
  unfoldable pub parse_init : Word → StoreResult (WordState InitInfo)
  parse_init word = if word == erased_word then ok erased else (do
    sum ← Checksum.get word_checksum word
    if not (sum == 0)
        then ok partial
        else (let cycle = Field.get init_cycle word in
            let prefix = Field.get init_prefix word in
            if ltb f.max_page_erases cycle || ltb (max_prefix_len f) prefix
            then err invalid_storage
            else ok (valid (record { cycle = cycle; prefix = prefix }))))

  unfoldable pub parse_compact : Word → StoreResult (WordState CompactInfo)
  parse_compact word = if word == erased_word then ok erased else (do
    sum ← Checksum.get word_checksum word
    if not (sum == 0)
        then ok partial
        else (let tail = Field.get compact_tail word in
            if ltb (window_size f) tail
            then err invalid_storage
            else ok (valid (record { tail = tail }))))

  unfoldable pub invalid_internal : InternalEntry → Bool
  invalid_internal (erase page) = ltb (max_page f) page
  invalid_internal (clear min_key) = ltb max_key_index min_key
  invalid_internal (marker count) = ltb max_transaction_updates count
  invalid_internal (remove key) = ltb max_key_index key

  -- The end of `parse_word`, once the kind of the entry is known.
  unfoldable pub finish_word : Word → ParsedWord → StoreResult (WordState ParsedWord)
  finish_word word (internal entry) = do
    sum ← Checksum.get word_checksum word
    if not (sum == 0)
        then ok partial
        else if invalid_internal entry
        then err invalid_storage
        else ok (valid (internal entry))
  finish_word word parsed = ok (valid parsed)

  -- The branch of `parse_word` for user entries.
  unfoldable pub parse_header : Word → StoreResult ParsedWord
  parse_header word =
      if Bit.get header_deleted word
      then (let bytes = Field.get header_length word in
          if ltb (max_value_len f) bytes
          then err invalid_storage
          else ok (padding (record { length = bytes_to_words bytes })))
      else (do
        sum ← Checksum.get header_checksum word
        ok (
            header (record {
              flipped = Bit.get header_flipped word;
              length = Field.get header_length word;
              key = Field.get header_key word;
              checksum = sum;
            })))

  unfoldable pub parse_word : Word → StoreResult (WordState ParsedWord)
  parse_word word =
      if ConstField.check id_padding word
      then finish_word word (padding (record { length = 0 }))
      else if ConstField.check id_header word
      then (do parsed ← parse_header word; finish_word word parsed)
      else if ConstField.check id_erase word
      then finish_word word (internal (erase (Field.get erase_page word)))
      else if ConstField.check id_clear word
      then finish_word word (internal (clear (Field.get clear_min_key word)))
      else if ConstField.check id_marker word
      then finish_word word (internal (marker (Field.get marker_count word)))
      else if ConstField.check id_remove word
      then finish_word word (internal (remove (Field.get remove_key word)))
      else if word == erased_word
      then ok erased
      else ok partial

unfoldable pub build_init : InitInfo → StoreResult (List ℕ)
build_init init = do
  w₁ ← Field.set init_cycle erased_word init.cycle
  w₂ ← Field.set init_prefix w₁ init.prefix
  w₃ ← Checksum.set word_checksum w₂ 0
  ok (as_slice w₃)

unfoldable pub build_compact : CompactInfo → StoreResult (List ℕ)
build_compact compact = do
  w₁ ← Field.set compact_tail erased_word compact.tail
  w₂ ← Checksum.set word_checksum w₁ 0
  ok (as_slice w₂)

-- The identifier and the argument of an internal entry, written into an erased word.
unfoldable pub build_kind : InternalEntry → StoreResult Word
build_kind (erase page) = do w ← ConstField.set id_erase erased_word; Field.set erase_page w page
build_kind (clear min_key) = do
  w ← ConstField.set id_clear erased_word
  Field.set clear_min_key w min_key
build_kind (marker count) = do
  w ← ConstField.set id_marker erased_word
  Field.set marker_count w count
build_kind (remove key) = do w ← ConstField.set id_remove erased_word; Field.set remove_key w key

unfoldable pub build_internal : InternalEntry → StoreResult (List ℕ)
build_internal entry = do
  w₁ ← build_kind entry
  w₂ ← Checksum.set word_checksum w₁ 0
  ok (as_slice w₂)

-- The payload of a user entry behind an erased first word, padded with ones to whole words, and
-- whether its last bit is flipped so that the last word is not erased.
unfoldable pub build_payload : List ℕ → Bool × List ℕ
build_payload value =
    let footer = bytes_to_words (length value) in
    let result = copy_at word_bytes value (replicate ((1 + footer) * word_bytes) 0xff) in
    if ltb 0 footer && is_erased (drop (footer * word_bytes) result)
    then (true, set result (length result - 1) 0x7f)
    else (false, result)

-- The first word of a user entry.
unfoldable pub build_header : Bool → ℕ → ℕ → ℕ → StoreResult Word
build_header flipped bytes key zeros = do
  w₁ ← ConstField.set id_header erased_word
  w₂ ← Field.set header_length (if flipped then Bit.set header_flipped w₁ else w₁) bytes
  w₃ ← Field.set header_key w₂ key
  Checksum.set header_checksum w₃ zeros

unfoldable pub build_user : ℕ → List ℕ → StoreResult (List ℕ)
build_user key value =
    let footer = bytes_to_words (length value) in
    let (flipped, result) = build_payload value in
    do
      w ←
          build_header flipped (length value) key
            (count_zeros_slice (drop (footer * word_bytes) result))
      ok (copy_at 0 (as_slice w) result)
