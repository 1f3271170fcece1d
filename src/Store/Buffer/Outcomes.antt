-- ===== src/Store/Buffer/Outcomes.antt =====
-- What the methods leave when they return.
use wasefire.Base.{ℕ, ◌+◌, ◌*◌, ◌<◌, ◌≤◌, ◌≡◌, List, arith, ok, err, length, replicate}
use wasefire.Store.Storage
use wasefire.Store.Storage.{StorageIndex, StorageResult, StorageError, ByteRange, custom_error}
use wasefire.Store.Buffer.{
  BufferStorage, returns, num_pages, overwrite, operation_range, incr_word_writes, incr_page_erases,
  commit_write, write_slice, commit_erase, erase_page,
}

-- A write that goes through stores the value, and keeps the options and the erase counters.
pub write_slice-ok :
    (b : BufferStorage) (index : StorageIndex) (value : List ℕ) {b' : BufferStorage}
    → write_slice b index value ≡ returns (ok tt) b'
    → (b'.storage ≡ overwrite (index.page * b.options.page_size + index.byte) value b.storage)
      × (b'.options ≡ b.options)
      × (b'.page_erases ≡ b.page_erases)
      × (index.page < num_pages b)
      × (index.byte + length value ≤ b.options.page_size)
unfolding write_slice commit_write incr_word_writes operation_range Storage.range Storage.is_valid
write_slice-ok b index value e =
    (ground arith, ground arith, ground arith, ground arith, ground arith)

-- An erasure that goes through fills the page.
pub erase_page-ok :
    (b : BufferStorage) (page : ℕ) {b' : BufferStorage}
    → erase_page b page ≡ returns (ok tt) b'
    → (b'.storage
        ≡ overwrite (page * b.options.page_size) (replicate b.options.page_size 0xff) b.storage)
      × (b'.options ≡ b.options)
      × (page < num_pages b)
unfolding erase_page commit_erase incr_page_erases operation_range Storage.range Storage.is_valid
erase_page-ok b page e = (ground arith, ground arith, ground arith)

-- A write that returns an error keeps the storage, the options and the counters.
pub write_slice-err :
    (b : BufferStorage) (index : StorageIndex) (value : List ℕ) {x : StorageError}
    {b' : BufferStorage}
    → write_slice b index value ≡ returns (err x) b'
    → (b'.storage ≡ b.storage)
      × (b'.options ≡ b.options)
      × (b'.word_writes ≡ b.word_writes)
      × (b'.page_erases ≡ b.page_erases)
unfolding write_slice commit_write incr_word_writes operation_range
write_slice-err b index value e = (ground arith, ground arith, ground arith, ground arith)

-- An erasure that returns an error keeps the storage, the options and the counters.
pub erase_page-err :
    (b : BufferStorage) (page : ℕ) {x : StorageError} {b' : BufferStorage}
    → erase_page b page ≡ returns (err x) b'
    → (b'.storage ≡ b.storage)
      × (b'.options ≡ b.options)
      × (b'.word_writes ≡ b.word_writes)
      × (b'.page_erases ≡ b.page_erases)
unfolding erase_page commit_erase incr_page_erases operation_range
erase_page-err b page e = (ground arith, ground arith, ground arith, ground arith)
