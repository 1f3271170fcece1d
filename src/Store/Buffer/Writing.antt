-- ===== src/Store/Buffer/Writing.antt =====
-- crates/store/src/buffer.rs: reading what `write_slice` and `erase_page` leave.
use wasefire.Base.{
  ℕ, ◌+◌, ◌*◌, ◌≤◌, ◌<◌, ◌≡◌, refl, sym, ap, ◌∙◌, List, arith, ok, length, get_elem?, replicate,
  length-replicate,
}
use wasefire.Store.Storage
use wasefire.Store.Storage.{StorageIndex}
use wasefire.Store.Buffer.{
  BufferStorage, returns, num_pages, slice, overwrite, read_slice, write_slice, erase_page,
}
use wasefire.Store.Buffer.Slices.{
  length-overwrite, slice-overwrite, in_storage, get_elem?-overwrite,
}
use wasefire.Store.Buffer.Outcomes.{write_slice-ok, erase_page-ok}

-- An access inside a page is read.
read_slice-eq :
    (b : BufferStorage) (index : StorageIndex) (len : ℕ)
    → index.page < num_pages b
    → index.byte + len ≤ b.options.page_size
    → read_slice b index len
      ≡ ok (slice (index.page * b.options.page_size + index.byte) len b.storage)
unfolding read_slice Storage.range Storage.is_valid
read_slice-eq b index len page byte = ground arith

-- After a write that returns success, reading as many bytes at the same index gives the value.
pub read_slice-write_slice :
    (b : BufferStorage) (index : StorageIndex) (value : List ℕ) {b' : BufferStorage}
    → write_slice b index value ≡ returns (ok tt) b'
    → read_slice b' index (length value) ≡ ok value
read_slice-write_slice b index value {b'} e =
    let done = write_slice-ok b index value e in
    let start = index.page * b.options.page_size + index.byte in
    let fits = in_storage b index (length value) done.3 done.4 in
    let size : b'.options.page_size ≡ b.options.page_size = ap (λ o. o.page_size) done.1 in
    let same : length b'.storage ≡ length b.storage =
      ap length done.0 ∙ length-overwrite start value b.storage fits in
    let pages : num_pages b' ≡ num_pages b = rw (same, size) refl in
    let read = read_slice-eq b' index (length value) (rw pages done.3) (rw size done.4) in
    rw (read, size, done.0) (rw (slice-overwrite start value b.storage (omega (arith, fits))) refl)

-- After an erasure that returns success, every byte of the page reads as 0xff.
pub read_slice-erase_page :
    (b : BufferStorage) (page : ℕ) {b' : BufferStorage}
    → erase_page b page ≡ returns (ok tt) b'
    → read_slice b' (record { page = page; byte = 0 }) b.options.page_size
      ≡ ok (replicate b.options.page_size 0xff)
read_slice-erase_page b page {b'} e =
    let done = erase_page-ok b page e in
    let size : ℕ = b.options.page_size in
    let blank : List ℕ = replicate size 0xff in
    let len : length blank ≡ size = length-replicate size 0xff in
    let first : StorageIndex = record { page = page; byte = 0 } in
    let fits : page * size + length blank ≤ length b.storage =
      omega (arith, len, in_storage b first size done.2 (omega arith)) in
    let size' : b'.options.page_size ≡ size = ap (λ o. o.page_size) done.1 in
    let same : length b'.storage ≡ length b.storage =
      ap length done.0 ∙ length-overwrite (page * size) blank b.storage fits in
    let pages : num_pages b' ≡ num_pages b = rw (same, size') refl in
    let start : page * size + 0 ≡ page * size = omega arith in
    let read = read_slice-eq b' first size (rw pages done.2) (rw size' (omega arith)) in
    let back : slice (page * size) size (overwrite (page * size) blank b.storage) ≡ blank =
      ap (λ n. slice (page * size) n (overwrite (page * size) blank b.storage)) (sym len)
      ∙ slice-overwrite (page * size) blank b.storage (omega (arith, fits)) in
    rw (read, size', done.0, start, back) refl

-- A write that returns success changes no byte outside its range.
pub write_slice-frame :
    (b : BufferStorage) (index : StorageIndex) (value : List ℕ) {b' : BufferStorage} (i : ℕ)
    → write_slice b index value ≡ returns (ok tt) b'
    → ¬ (
        (index.page * b.options.page_size + index.byte ≤ i)
        × (i < index.page * b.options.page_size + index.byte + length value))
    → get_elem? b'.storage i ≡ get_elem? b.storage i
write_slice-frame b index value i e out =
    let done = write_slice-ok b index value e in
    rw done.0 (
      get_elem?-overwrite (index.page * b.options.page_size + index.byte) value b.storage i
        (in_storage b index (length value) done.3 done.4) out)
