-- ===== src/Store/Format/Position.antt =====
-- crates/store/src/format.rs: `Position`, a word of the virtual storage.
pub mod Coordinates
use wasefire.Base.{ℕ, ◌+◌, ◌-◌, ◌*◌, ◌/◌, ◌%◌}
use wasefire.Store.Storage.{StorageIndex}
use wasefire.Store.Format.{
  Format, word_bytes, init_word, compact_word, content_word, virt_page_size,
}

pub record Position : Type 0 where
  pub get : ℕ

infixl 65 ◌+ₚ◌ ◌-ₚ◌
-- `+` and `+=` of a number of words.
abbrev pub ◌+ₚ◌ : Position → ℕ → Position
p +ₚ delta = record { get = p.get + delta }

-- The distance from an earlier position.
abbrev pub ◌-ₚ◌ : Position → Position → ℕ
p -ₚ base = p.get - base.get

module _ (f : Format) where
  -- The products of the code are `u32`, and wrap or panic from 2 ^ 32 on, as they may for a cycle
  -- over the greatest. Here they do not.
  unfoldable pub new : ℕ → ℕ → ℕ → Position
  new cycle page word = record { get = (cycle * f.num_pages + page) * virt_page_size f + word }

  unfoldable pub cycle : Position → ℕ
  cycle p = p.get / virt_page_size f / f.num_pages

  unfoldable pub page : Position → ℕ
  page p = p.get / virt_page_size f % f.num_pages

  unfoldable pub word : Position → ℕ
  word p = p.get % virt_page_size f

  unfoldable pub index : Position → StorageIndex
  unfolding page word
  index p = record { page = page p; byte = (content_word + word p) * word_bytes }

  unfoldable pub page_begin : Position → Position
  page_begin p = record { get = p.get / virt_page_size f * virt_page_size f }

  unfoldable pub next_page : Position → Position
  next_page p = record { get = (p.get / virt_page_size f + 1) * virt_page_size f }

  -- `Format::total_lifetime`
  unfoldable pub total_lifetime : Position
  unfolding new
  total_lifetime = new f.max_page_erases (f.num_pages - 1) 0

  -- `Format::page_head`, with the fields of the init info.
  unfoldable pub page_head : ℕ → ℕ → ℕ → Position
  unfolding new
  page_head init_cycle init_prefix p = new init_cycle p init_prefix

-- `Format::index_init` and `Format::index_compact`
unfoldable pub index_init : ℕ → StorageIndex
index_init p = record { page = p; byte = init_word * word_bytes }

unfoldable pub index_compact : ℕ → StorageIndex
index_compact p = record { page = p; byte = compact_word * word_bytes }
