-- ===== src/Store/Buffer/Success.antt =====
-- crates/store/src/buffer.rs: `write_slice` returns, outside strict mode.
use native.Mathlib.Nat.{div-mul-le_self, add-mul, le-div_iff_mul-le}
use wasefire.Base.{
  ℕ, zero, suc, ◌+◌, ◌*◌, ◌/◌, ◌≤◌, ◌<◌, ◌≡◌, refl, true, false, some, List, [], ◌∷◌, arith, ok,
  length, get_elem?, set, length-set, Bool-cases, inl, inr,
}
use wasefire.Store.Storage
use wasefire.Store.Storage.{StorageIndex}
use wasefire.Store.Buffer.{
  BufferStorage, ready, returns, num_pages, overwrite, count_write, word_counts, incr_words,
  incr_word_writes, is_word_aligned, operation_range, commit_write, write_slice, tick,
}
use wasefire.Store.Buffer.Slices.{in_storage}
use wasefire.Store.Buffer.Reach.{IsValid}

in_range : (xs : List ℕ) (i : ℕ) → i < length xs → (n : ℕ) × (get_elem? xs i ≡ some n)
in_range [] i h = absurd (omega arith)
in_range (x ∷ xs) zero h = (x, refl)
in_range (x ∷ xs) (suc i) h = in_range xs i (omega arith)

-- The loop over the words goes through when it stays in the counters.
incr_words-total :
    (b : BufferStorage) (index : ℕ) (value complete : List ℕ) (rounds i : ℕ) (counts : List ℕ)
    → b.options.strict_mode ≡ false
    → index / b.options.word_size + i + rounds ≤ length counts
    → (counts' : List ℕ) × (incr_words b index value complete rounds i counts ≡ some counts')
unfolding incr_words
incr_words-total b index value complete zero i counts lax fits = (counts, refl)
incr_words-total b index value complete (suc rounds) i counts lax fits =
    elim (Bool-cases (word_counts b index value complete i)) [
      | inr skipped ↦
          let rest =
            incr_words-total b index value complete rounds (i + 1) counts lax (omega arith) in
          (rest.0, ground (arith, rest.1))
      | inl counted ↦
          let word = index / b.options.word_size + i in
          let old = in_range counts word (omega arith) in
          let up : count_write b.options counts word ≡ some (set counts word (old.0 + 1)) =
            unfold count_write in ground (arith, old.1) in
          let rest =
            incr_words-total b index value complete rounds (i + 1) (set counts word (old.0 + 1)) lax
              (omega (arith, length-set counts word (old.0 + 1))) in
          (rest.0, ground (arith, rest.1, up))
    ]

-- Whole words of an access inside the storage have counters.
words_fit :
    (w start len total : ℕ) → 0 < w → start + len ≤ total → start / w + 0 + len / w ≤ total / w
words_fit w start len total pos fits =
    let apart : (start / w + len / w) * w ≡ start / w * w + len / w * w =
      add-mul (start / w) (len / w) w in
    let whole : start / w + len / w ≤ total / w =
      (le-div_iff_mul-le pos).1
        (omega (arith, apart, div-mul-le_self start w, div-mul-le_self len w)) in
    omega (arith, whole)

-- Outside strict mode and with no interruption set, a write inside a page of a valid storage, its
-- byte and its length aligned to words, returns success.
pub write_slice-returns :
    (b : BufferStorage) (index : StorageIndex) (value : List ℕ)
    → IsValid b
    → 0 < b.options.word_size
    → b.options.strict_mode ≡ false
    → b.interruption ≡ ready
    → is_word_aligned b.options index.byte ≡ true
    → is_word_aligned b.options (length value) ≡ true
    → index.page < num_pages b
    → index.byte + length value ≤ b.options.page_size
    → (b' : BufferStorage) × (write_slice b index value ≡ returns (ok tt) b')
unfolding IsValid write_slice operation_range Storage.range Storage.is_valid tick
write_slice-returns b index value valid pos lax free byte_ok len_ok page fits =
    let start = index.page * b.options.page_size + index.byte in
    let inside = in_storage b index (length value) page fits in
    let enough = words_fit b.options.word_size start (length value) (length b.storage) pos inside in
    let rounds = length value / b.options.word_size in
    let counted =
      incr_words-total (record b { interruption = ready }) start value value rounds 0 b.word_writes
        lax (omega (arith, enough, valid.0)) in
    let left : BufferStorage = record b {
      storage = overwrite start value b.storage;
      word_writes = counted.0;
      interruption = ready;
    } in
    let committed : commit_write (record b { interruption = ready }) start value
        ≡ returns (ok tt) left =
      unfold commit_write incr_word_writes in ground (arith, counted.1) in
    (left, ground (arith, committed))
