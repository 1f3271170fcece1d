-- ===== src/Store/Storage.antt =====
-- crates/store/src/storage.rs: the shape of a flash storage, and byte positions in it.
use wasefire.Base.{ℕ, ◌+◌, ◌-◌, ◌*◌, Bool, ◌&&◌, ltb, leb, if◌then◌else◌, Result, ok, err}

-- The constant methods of the trait `Storage`.
pub record Geometry : Type 0 where
  pub word_size : ℕ
  pub page_size : ℕ
  pub num_pages : ℕ
  pub max_word_writes : ℕ
  pub max_page_erases : ℕ

pub data StorageError : Type 0 where
  not_aligned out_of_bounds custom_error : StorageError

abbrev pub StorageResult : Type 0 → Type 0
StorageResult A = Result StorageError A

pub record StorageIndex : Type 0 where
  pub page : ℕ
  pub byte : ℕ

-- A range `start .. end` of bytes of the storage.
pub record ByteRange : Type 0 where
  pub start : ℕ
  pub end : ℕ

-- `page_size - length` is read only where it does not wrap.
unfoldable pub is_valid : StorageIndex → ℕ → Geometry → Bool
is_valid i length g =
    ltb i.page g.num_pages && (leb length g.page_size && leb i.byte (g.page_size - length))

unfoldable pub range : StorageIndex → ℕ → Geometry → StorageResult ByteRange
unfolding is_valid
range i length g =
    if is_valid i length g
    then (let start = i.page * g.page_size + i.byte in
        ok (record { start = start; end = start + length }))
    else err out_of_bounds
