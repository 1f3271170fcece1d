-- ===== src/Store/Buffer.antt =====
-- crates/store/src/buffer.rs: a flash storage in memory, which counts writes and erasures and can
-- be interrupted. A failed assertion, and an index out of range, is `panic`.
pub mod Kept
pub mod Outcomes
pub mod Reach
pub mod Slices
pub mod Success
pub mod Validity
pub mod Writing
mod Tests
use wasefire.Base.{
  ℕ, zero, suc, ◌+◌, ◌-◌, ◌*◌, ◌/◌, bit_and, Bool, true, false, not, ◌&&◌, ◌||◌, Option, none, some,
  List, [], ◌∷◌, ◌++◌, ltb, ◌==◌, if◌then◌else◌, Result, ok, err, length, get_elem?, set, take,
  drop, replicate,
}
use wasefire.Bits.{count_ones}
use wasefire.Store.Storage
use wasefire.Store.Storage.{
  StorageError, StorageResult, StorageIndex, Geometry, ByteRange, not_aligned, custom_error,
}

pub record BufferOptions : Type 0 where
  pub word_size : ℕ
  pub page_size : ℕ
  pub max_word_writes : ℕ
  pub max_page_erases : ℕ
  pub strict_mode : Bool

pub data BufferOperation : Type 0 where
  write : StorageIndex → List ℕ → BufferOperation
  erase : ℕ → BufferOperation

pub data Interruption : Type 0 where
  ready : Interruption
  armed : ℕ → Interruption
  saved : BufferOperation → Interruption

pub record BufferStorage : Type 0 where
  pub storage : List ℕ
  pub options : BufferOptions
  pub word_writes : List ℕ
  pub page_erases : List ℕ
  pub interruption : Interruption

-- How a method ends: it panics, or it returns, and leaves the storage.
pub data Outcome (A : Type 0) : Type 0 where
  panic : Outcome A
  returns : A → BufferStorage → Outcome A

abbrev pub num_pages : BufferStorage → ℕ
num_pages b = length b.storage / b.options.page_size

-- The constant methods of the trait `Storage`.
abbrev pub geometry : BufferStorage → Geometry
geometry b = record {
  word_size = b.options.word_size;
  page_size = b.options.page_size;
  num_pages = num_pages b;
  max_word_writes = b.options.max_word_writes;
  max_page_erases = b.options.max_page_erases;
}

unfoldable pub is_word_aligned : BufferOptions → ℕ → Bool
is_word_aligned o x = bit_and x (o.word_size - 1) == 0

unfoldable pub is_page_aligned : BufferOptions → ℕ → Bool
is_page_aligned o x = bit_and x (o.page_size - 1) == 0

-- `usize::is_power_of_two`
unfoldable pub is_power_of_two : ℕ → Bool
is_power_of_two x = count_ones 64 x == 1

-- `BufferStorage::new`; `none` is a failed assertion.
unfoldable pub new : List ℕ → BufferOptions → Option BufferStorage
new bytes o =
    if is_power_of_two o.word_size
      && (is_power_of_two o.page_size
          && (is_word_aligned o o.page_size && is_page_aligned o (length bytes)))
    then some (record {
      storage = bytes;
      options = o;
      word_writes = replicate (length bytes / o.word_size) 0;
      page_erases = replicate (length bytes / o.page_size) 0;
      interruption = ready;
    })
    else none

-- `xs[from ..][.. len]`
unfoldable pub slice : ℕ → ℕ → List ℕ → List ℕ
slice from len xs = take len (drop from xs)

-- `xs[from ..][.. bytes.len()].copy_from_slice(bytes)`
unfoldable pub overwrite : ℕ → List ℕ → List ℕ → List ℕ
overwrite from bytes xs = take from xs ++ (bytes ++ drop (from + length bytes) xs)

unfoldable pub bytes_eq : List ℕ → List ℕ → Bool
bytes_eq [] [] = true
bytes_eq [] (y ∷ ys) = false
bytes_eq (x ∷ xs) [] = false
bytes_eq (x ∷ xs) (y ∷ ys) = x == y && bytes_eq xs ys

unfoldable pub operation_range : BufferStorage → BufferOperation → StorageResult ByteRange
operation_range b (write index value) = Storage.range index (length value) (geometry b)
operation_range b (erase page) =
    Storage.range (record { page = page; byte = 0 }) b.options.page_size (geometry b)

-- The mutable methods of `Interruption`.
unfoldable pub arm : Interruption → ℕ → Option Interruption
arm ready delay = some (armed delay)
arm (armed d) delay = none
arm (saved op) delay = none

-- `Interruption::get` leaves the interruption ready.
unfoldable pub get_interruption : Interruption → Option (Result ℕ BufferOperation)
get_interruption ready = none
get_interruption (armed delay) = some (err delay)
get_interruption (saved op) = some (ok op)

unfoldable pub tick :
    Interruption → BufferOperation → Option (StorageResult (Unit {0}) × Interruption)
tick ready op = some (ok tt, ready)
tick (armed zero) op = some (err custom_error, saved op)
tick (armed (suc delay)) op = some (ok tt, armed delay)
tick (saved other) op = none

-- The counter of one word goes up, unless the limit is reached in strict mode.
unfoldable pub count_write : BufferOptions → List ℕ → ℕ → Option (List ℕ)
count_write o counts word = elim (get_elem? counts word) [
  | none ↦ none
  | some n ↦
      if o.strict_mode && not (ltb n o.max_word_writes)
      then none
      else some (set counts word (n + 1))
]

-- Whether word `i` of the write counts: it is written completely, and it changes.
unfoldable pub word_counts : BufferStorage → ℕ → List ℕ → List ℕ → ℕ → Bool
word_counts b index value complete i =
    let size = b.options.word_size in
    bytes_eq (slice (i * size) size value) (slice (i * size) size complete)
    && not (bytes_eq (slice (i * size) size value) (slice (i * size) size (drop index b.storage)))

-- The loop of `incr_word_writes` with `rounds` words left, from word `i` on.
unfoldable pub incr_words : BufferStorage → ℕ → List ℕ → List ℕ → ℕ → ℕ → List ℕ → Option (List ℕ)
incr_words b index value complete zero i counts = some counts
incr_words b index value complete (suc rounds) i counts =
    elim (word_counts b index value complete i) [
      | false ↦ incr_words b index value complete rounds (i + 1) counts
      | true ↦ elim (count_write b.options counts (index / b.options.word_size + i)) [
        | none ↦ none
        | some counts' ↦ incr_words b index value complete rounds (i + 1) counts'
      ]
    ]

unfoldable pub incr_word_writes : BufferStorage → ℕ → List ℕ → List ℕ → Option BufferStorage
incr_word_writes b index value complete =
    elim (incr_words b index value complete (length value / b.options.word_size) 0 b.word_writes) [
      | none ↦ none
      | some counts ↦ some (record b { word_writes = counts })
    ]

-- The loop of `incr_page_erases` over the words of the page.
unfoldable pub reset_words : ℕ → ℕ → List ℕ → Option (List ℕ)
reset_words zero first counts = some counts
reset_words (suc rounds) first counts = elim (get_elem? counts first) [
  | none ↦ none
  | some _ ↦ reset_words rounds (first + 1) (set counts first 0)
]

unfoldable pub incr_page_erases : BufferStorage → ℕ → Option BufferStorage
incr_page_erases b page = elim (get_elem? b.page_erases page) [
  | none ↦ none
  | some n ↦
      if b.options.strict_mode && not (ltb n b.options.max_page_erases)
      then none
      else (let num_words = b.options.page_size / b.options.word_size in
          elim (reset_words num_words (page * num_words) b.word_writes) [
            | none ↦ none
            | some counts ↦
                some
                  (record b { page_erases = set b.page_erases page (n + 1); word_writes = counts })
          ])
]

-- The counters, read. `none` is an index out of range.
unfoldable pub get_word_writes : BufferStorage → ℕ → Option ℕ
get_word_writes b word = get_elem? b.word_writes word

unfoldable pub get_page_erases : BufferStorage → ℕ → Option ℕ
get_page_erases b page = get_elem? b.page_erases page

-- A counter set by hand.
unfoldable pub set_page_erases : BufferStorage → ℕ → ℕ → Option BufferStorage
set_page_erases b page cycle = elim (get_elem? b.page_erases page) [
  | none ↦ none
  | some _ ↦ some (record b { page_erases = set b.page_erases page cycle })
]

-- Each byte of the value only turns ones of the byte before it into zeros.
unfoldable pub only_clears : List ℕ → List ℕ → Bool
only_clears (x ∷ xs) (y ∷ ys) = bit_and x y == y && only_clears xs ys
only_clears [] ys = true
only_clears (x ∷ xs) [] = true

unfoldable pub read_slice : BufferStorage → StorageIndex → ℕ → StorageResult (List ℕ)
read_slice b index len = elim (Storage.range index len (geometry b)) [
  | err e ↦ err e
  | ok r ↦ ok (slice r.start len b.storage)
]

-- `write_slice` once the range is known and the interruption has let the operation through.
unfoldable pub commit_write : BufferStorage → ℕ → List ℕ → Outcome (StorageResult (Unit {0}))
commit_write b start value = elim (incr_word_writes b start value value) [
  | none ↦ panic
  | some b' ↦
      if b.options.strict_mode && not (only_clears (slice start (length value) b.storage) value)
      then panic
      else returns (ok tt) (record b' { storage = overwrite start value b'.storage })
]

unfoldable pub write_slice :
    BufferStorage → StorageIndex → List ℕ → Outcome (StorageResult (Unit {0}))
write_slice b index value =
    if not (is_word_aligned b.options index.byte) || not (is_word_aligned b.options (length value))
    then returns (err not_aligned) b
    else elim (operation_range b (write index value)) [
      | err e ↦ returns (err e) b
      | ok r ↦ elim (tick b.interruption (write index value)) [
        | none ↦ panic
        | some (err e, i) ↦ returns (err e) (record b { interruption = i })
        | some (ok _, i) ↦ commit_write (record b { interruption = i }) r.start value
      ]
    ]

unfoldable pub commit_erase : BufferStorage → ℕ → ℕ → Outcome (StorageResult (Unit {0}))
commit_erase b start page = elim (incr_page_erases b page) [
  | none ↦ panic
  | some b' ↦
      returns (ok tt)
        (record b' { storage = overwrite start (replicate b.options.page_size 0xff) b'.storage })
]

unfoldable pub erase_page : BufferStorage → ℕ → Outcome (StorageResult (Unit {0}))
erase_page b page = elim (operation_range b (erase page)) [
  | err e ↦ returns (err e) b
  | ok r ↦ elim (tick b.interruption (erase page)) [
    | none ↦ panic
    | some (err e, i) ↦ returns (err e) (record b { interruption = i })
    | some (ok _, i) ↦ commit_erase (record b { interruption = i }) r.start page
  ]
]

unfoldable pub arm_interruption : BufferStorage → ℕ → Outcome (Unit {0})
arm_interruption b delay = elim (arm b.interruption delay) [
  | none ↦ panic
  | some i ↦ returns tt (record b { interruption = i })
]

unfoldable pub disarm_interruption : BufferStorage → Outcome ℕ
disarm_interruption b = elim (get_interruption b.interruption) [
  | none ↦ panic
  | some (ok op) ↦ panic
  | some (err delay) ↦ returns delay (record b { interruption = ready })
]

unfoldable pub reset_interruption : BufferStorage → Outcome (Unit {0})
reset_interruption b = elim (get_interruption b.interruption) [
  | none ↦ panic
  | some _ ↦ returns tt (record b { interruption = ready })
]

-- `corrupt_operation` on the saved operation. The corruption function is the caller's: from what the
-- storage holds and what it would hold, it gives what the interrupted operation leaves.
unfoldable pub corrupt_saved :
    (List ℕ → List ℕ → List ℕ) → BufferStorage → BufferOperation → Outcome (Unit {0})
corrupt_saved corrupt b (write index value) = elim (operation_range b (write index value)) [
  | err e ↦ panic
  | ok r ↦
      let before = corrupt (slice r.start (length value) b.storage) value in
      elim (incr_word_writes b r.start before value) [
        | none ↦ panic
        | some b' ↦ returns tt (record b' { storage = overwrite r.start before b'.storage })
      ]
]
corrupt_saved corrupt b (erase page) = elim (operation_range b (erase page)) [
  | err e ↦ panic
  | ok r ↦
      let after = replicate b.options.page_size 0xff in
      let before = corrupt (slice r.start b.options.page_size b.storage) after in
      elim (if bytes_eq before after then incr_page_erases b page else some b) [
        | none ↦ panic
        | some b' ↦ returns tt (record b' { storage = overwrite r.start before b'.storage })
      ]
]

unfoldable pub corrupt_operation : (List ℕ → List ℕ → List ℕ) → BufferStorage → Outcome (Unit {0})
corrupt_operation corrupt b = elim (get_interruption b.interruption) [
  | none ↦ panic
  | some (err delay) ↦ panic
  | some (ok op) ↦ corrupt_saved corrupt (record b { interruption = ready }) op
]
