-- ===== src/Store/Format.antt =====
-- crates/store/src/format.rs: the configuration of a store and the sizes that follow from it.
-- `Nat` is `u32`; `Store.Format.Sizes` shows that no subtraction below goes under zero.
pub mod Sizes
pub mod Position
pub mod Layout
pub mod Words
pub mod Updates
mod Tests
use wasefire.Base.{
  ℕ, ◌+◌, ◌-◌, ◌*◌, ◌/◌, ◌%◌, ◌^◌, min, Bool, ◌&&◌, ltb, leb, ◌==◌, if◌then◌else◌, Option, none,
  some,
}
use wasefire.Store.Storage.{Geometry}
use wasefire.Store.Bitfield.{Word}

abbrev pub word_bytes : ℕ
word_bytes = 4

abbrev pub min_page_size : ℕ
min_page_size = 8

abbrev pub max_page_size : ℕ
max_page_size = 4096

abbrev pub max_erase_cycle : ℕ
max_erase_cycle = 65535

abbrev pub min_num_pages : ℕ
min_num_pages = 3

abbrev pub max_page_index : ℕ
max_page_index = 63

abbrev pub max_key_index : ℕ
max_key_index = 4095

abbrev pub max_value_bytes : ℕ
max_value_bytes = 1023

abbrev pub max_transaction_updates : ℕ
max_transaction_updates = 31

-- The word indices of the init info, the compact info and the content of a page.
abbrev pub init_word : ℕ
init_word = 0

abbrev pub compact_word : ℕ
compact_word = 1

abbrev pub content_word : ℕ
content_word = 2

abbrev pub max_virt_page_size : ℕ
max_virt_page_size = max_page_size / word_bytes - content_word

abbrev pub erased_word : Word
erased_word = 2 ^ 32 - 1

abbrev pub div_ceil : ℕ → ℕ → ℕ
div_ceil x m = (x + m - 1) / m

pub record Format : Type 0 where
  pub page_size : ℕ
  pub num_pages : ℕ
  pub max_page_erases : ℕ

unfoldable pub is_storage_supported : Geometry → Bool
is_storage_supported s =
    s.word_size == word_bytes
    && (s.page_size % s.word_size == 0
        && ((leb (min_page_size * s.word_size) s.page_size && leb s.page_size max_page_size)
            && ((leb min_num_pages s.num_pages && leb s.num_pages (max_page_index + 1))
                && (leb 2 s.max_word_writes && leb s.max_page_erases max_erase_cycle))))

-- `Format::new`
unfoldable pub new : Geometry → Option Format
unfolding is_storage_supported
new s =
    if is_storage_supported s
    then some (record {
      page_size = s.page_size;
      num_pages = s.num_pages;
      max_page_erases = s.max_page_erases;
    })
    else none

-- The constants as methods.
abbrev pub word_size : Format → ℕ
word_size f = word_bytes

abbrev pub max_key : Format → ℕ
max_key f = max_key_index

abbrev pub max_updates : Format → ℕ
max_updates f = max_transaction_updates

abbrev pub max_page : Format → ℕ
max_page f = f.num_pages - 1

abbrev pub virt_page_size : Format → ℕ
virt_page_size f = f.page_size / word_bytes - content_word

abbrev pub bytes_to_words : ℕ → ℕ
bytes_to_words bytes = div_ceil bytes word_bytes

abbrev pub max_value_len : Format → ℕ
max_value_len f = min ((virt_page_size f - 1) * word_bytes) max_value_bytes

abbrev pub max_prefix_len : Format → ℕ
max_prefix_len f = bytes_to_words (max_value_len f)

abbrev pub window_size : Format → ℕ
window_size f = (f.num_pages - 1) * virt_page_size f - max_prefix_len f

abbrev pub virt_size : Format → ℕ
virt_size f = (f.num_pages - 1) * (virt_page_size f - 1) - max_prefix_len f

abbrev pub total_capacity : Format → ℕ
total_capacity f = virt_size f - f.num_pages
