-- ===== src/Store/Buffer/Tests.antt =====
-- The theorems on the storage in memory at two pages of 8 bytes.
use wasefire.Base.{ℕ, ◌≡◌, refl, true, false, List, [], ◌∷◌, ◌++◌, get_elem?, replicate, ok, arith}
use wasefire.Store.Storage.{StorageIndex, out_of_bounds, custom_error, StorageError}
use wasefire.Store.Buffer.{
  BufferStorage, BufferOptions, ready, armed, saved, write, Interruption, returns, read_slice,
  write_slice, erase_page,
}
use wasefire.Store.Buffer.Outcomes.{write_slice-err, erase_page-err}
use wasefire.Store.Buffer.Writing.{read_slice-write_slice, read_slice-erase_page, write_slice-frame}
use wasefire.Store.Buffer.Success.{write_slice-returns}
use wasefire.Store.Buffer.Reach.{
  IsValid, here, then, wrote, was_armed, was_corrupted, Reach-IsValid,
}

abbrev options : BufferOptions
options = record {
  word_size = 4;
  page_size = 8;
  max_word_writes = 2;
  max_page_erases = 3;
  strict_mode = true;
}

abbrev blank : List ℕ
blank = replicate 16 0xff

abbrev state : List ℕ → List ℕ → List ℕ → Interruption → BufferStorage
state bytes writes erases i = record {
  storage = bytes;
  options = options;
  word_writes = writes;
  page_erases = erases;
  interruption = i;
}

abbrev fresh : BufferStorage
fresh = state blank (0 ∷ 0 ∷ 0 ∷ 0 ∷ []) (0 ∷ 0 ∷ []) ready

abbrev spot : StorageIndex
spot = record { page = 1; byte = 4 }

abbrev bytes : List ℕ
bytes = 0xee ∷ 0xdd ∷ 0xbb ∷ 0x77 ∷ []

abbrev written : BufferStorage
written = state (replicate 12 0xff ++ bytes) (0 ∷ 0 ∷ 0 ∷ 1 ∷ []) (0 ∷ 0 ∷ []) ready

read_slice-write_slice_example : read_slice written spot 4 ≡ ok bytes
unfolding write_slice wasefire.Store.Buffer.is_word_aligned wasefire.Store.Buffer.operation_range
    wasefire.Store.Storage.range wasefire.Store.Buffer.tick wasefire.Store.Buffer.commit_write
    wasefire.Store.Buffer.incr_word_writes wasefire.Store.Buffer.incr_words
    wasefire.Store.Buffer.word_counts wasefire.Store.Buffer.bytes_eq wasefire.Store.Buffer.slice
    wasefire.Store.Buffer.count_write wasefire.Store.Buffer.only_clears
    wasefire.Store.Buffer.overwrite
read_slice-write_slice_example = read_slice-write_slice fresh spot bytes refl

write_slice-frame_example : get_elem? written.storage 11 ≡ get_elem? fresh.storage 11
unfolding write_slice wasefire.Store.Buffer.is_word_aligned wasefire.Store.Buffer.operation_range
    wasefire.Store.Storage.range wasefire.Store.Buffer.tick wasefire.Store.Buffer.commit_write
    wasefire.Store.Buffer.incr_word_writes wasefire.Store.Buffer.incr_words
    wasefire.Store.Buffer.word_counts wasefire.Store.Buffer.bytes_eq wasefire.Store.Buffer.slice
    wasefire.Store.Buffer.count_write wasefire.Store.Buffer.only_clears
    wasefire.Store.Buffer.overwrite
write_slice-frame_example =
    write_slice-frame fresh spot bytes 11 refl (λ h. absurd (omega (arith, h)))

abbrev cleaned : BufferStorage
cleaned = state blank (0 ∷ 0 ∷ 0 ∷ 0 ∷ []) (0 ∷ 1 ∷ []) ready

read_slice-erase_page_example :
    read_slice cleaned (record { page = 1; byte = 0 }) 8 ≡ ok (replicate 8 0xff)
unfolding erase_page wasefire.Store.Buffer.operation_range wasefire.Store.Storage.range
    wasefire.Store.Buffer.tick wasefire.Store.Buffer.commit_erase
    wasefire.Store.Buffer.incr_page_erases wasefire.Store.Buffer.reset_words
    wasefire.Store.Buffer.overwrite
read_slice-erase_page_example = read_slice-erase_page written 1 refl

abbrev waiting : BufferStorage
waiting = state blank (0 ∷ 0 ∷ 0 ∷ 0 ∷ []) (0 ∷ 0 ∷ []) (armed 0)

abbrev stopped : BufferStorage
stopped = state blank (0 ∷ 0 ∷ 0 ∷ 0 ∷ []) (0 ∷ 0 ∷ []) (saved (write spot bytes))

write_slice-err_example :
    (stopped.storage ≡ waiting.storage)
    × (stopped.options ≡ waiting.options)
    × (stopped.word_writes ≡ waiting.word_writes)
    × (stopped.page_erases ≡ waiting.page_erases)
unfolding write_slice wasefire.Store.Buffer.is_word_aligned wasefire.Store.Buffer.operation_range
    wasefire.Store.Storage.range wasefire.Store.Buffer.tick
write_slice-err_example = write_slice-err waiting spot bytes refl

erase_page-err_example :
    (written.storage ≡ written.storage)
    × (written.options ≡ written.options)
    × (written.word_writes ≡ written.word_writes)
    × (written.page_erases ≡ written.page_erases)
unfolding erase_page wasefire.Store.Buffer.operation_range wasefire.Store.Storage.range
erase_page-err_example = erase_page-err written 2 refl

-- The corruption leaves the bytes as they were.
Reach-IsValid_example : IsValid fresh
unfolding wasefire.Store.Buffer.new wasefire.Store.Buffer.is_power_of_two wasefire.Bits.count_ones
    wasefire.Store.Buffer.is_word_aligned wasefire.Store.Buffer.is_page_aligned
    wasefire.Store.Buffer.arm_interruption wasefire.Store.Buffer.arm write_slice
    wasefire.Store.Buffer.operation_range wasefire.Store.Storage.range wasefire.Store.Buffer.tick
    wasefire.Store.Buffer.corrupt_operation wasefire.Store.Buffer.get_interruption
    wasefire.Store.Buffer.corrupt_saved wasefire.Store.Buffer.incr_word_writes
    wasefire.Store.Buffer.incr_words wasefire.Store.Buffer.slice wasefire.Store.Buffer.word_counts
    wasefire.Store.Buffer.bytes_eq wasefire.Store.Buffer.overwrite
Reach-IsValid_example = Reach-IsValid blank options {b = fresh} refl (
    then
      (then (then here (was_armed {b = fresh} {b' = waiting} 0 refl))
        (wrote {b = waiting} {b' = stopped} spot bytes refl))
      (was_corrupted {b = stopped} {b' = fresh} (λ before after. before) (λ before after. refl)
        refl))

abbrev relaxed : BufferStorage
relaxed = record fresh {
  options = record {
    word_size = 4;
    page_size = 8;
    max_word_writes = 2;
    max_page_erases = 3;
    strict_mode = false;
  };
}

write_slice-returns_example :
    (b' : BufferStorage) × (write_slice relaxed spot bytes ≡ returns (ok tt) b')
unfolding IsValid wasefire.Store.Buffer.is_word_aligned
write_slice-returns_example =
    write_slice-returns relaxed spot bytes (refl, refl, λ strict. absurd (ground arith))
      (omega arith) refl refl refl refl (omega arith) (omega arith)
