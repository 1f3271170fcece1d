-- ===== src/Store/Buffer/Reach.antt =====
-- crates/store/src/buffer.rs: the states that the methods reach from `BufferStorage::new`.
use wasefire.Base.{
  ℕ, ◌/◌, ◌≤◌, ◌≡◌, set, get_elem?, length-set, refl, sym, subst, ap, ◌∙◌, true, some, List, arith,
  ok, err, length, replicate, length-replicate, Option-cases, inl, inr,
}
use wasefire.Store.Storage.{StorageIndex, StorageResult}
use wasefire.Store.Buffer
use wasefire.Store.Buffer.{
  BufferStorage, BufferOptions, BufferOperation, write, erase, returns, num_pages, geometry, slice,
  overwrite, bytes_eq, operation_range, incr_words, reset_words, incr_word_writes, incr_page_erases,
  commit_write, commit_erase, corrupt_saved, ready, get_interruption, write_slice, erase_page,
  arm_interruption, disarm_interruption, reset_interruption, corrupt_operation, set_page_erases,
}
use wasefire.Store.Buffer.Kept.{
  Kept, write_slice-Kept, erase_page-Kept, corrupt_saved-Kept, Kept-trans, Kept-interruption,
}
use wasefire.Store.Buffer.Validity.{AllLe, AllLe-replicate, AllLe-set}

-- The counters fit the storage and, in strict mode, are within their limits.
unfoldable pub IsValid : BufferStorage → Type 0
IsValid b =
    (length b.word_writes ≡ length b.storage / b.options.word_size)
    × (length b.page_erases ≡ num_pages b)
    × (b.options.strict_mode ≡ true
        → AllLe b.options.max_word_writes b.word_writes
          × AllLe b.options.max_page_erases b.page_erases)

-- One call of a method, whatever it returns. Each corruption has its own function, which changes
-- bytes in place. `set_page_erases`, which gives a counter any value, keeps to the limit in strict
-- mode.
pub data Step : BufferStorage → BufferStorage → Type 0 where
  wrote :
      {b b' : BufferStorage} (index : StorageIndex) (value : List ℕ) {x : StorageResult (Unit {0})}
      → write_slice b index value ≡ returns x b'
      → Step b b'
  erased :
      {b b' : BufferStorage} (page : ℕ) {x : StorageResult (Unit {0})}
      → erase_page b page ≡ returns x b'
      → Step b b'
  was_armed :
      {b b' : BufferStorage} (delay : ℕ) → arm_interruption b delay ≡ returns tt b' → Step b b'
  was_disarmed :
      {b b' : BufferStorage} {delay : ℕ} → disarm_interruption b ≡ returns delay b' → Step b b'
  was_reset : {b b' : BufferStorage} → reset_interruption b ≡ returns tt b' → Step b b'
  was_corrupted :
      {b b' : BufferStorage} (corrupt : List ℕ → List ℕ → List ℕ)
      → ((xs ys : List ℕ) → length (corrupt xs ys) ≡ length xs)
      → corrupt_operation corrupt b ≡ returns tt b'
      → Step b b'
  was_set :
      {b b' : BufferStorage} (page cycle : ℕ)
      → (b.options.strict_mode ≡ true → cycle ≤ b.options.max_page_erases)
      → set_page_erases b page cycle ≡ some b'
      → Step b b'

pub data Reach : BufferStorage → BufferStorage → Type 0 where
  here : {b : BufferStorage} → Reach b b
  then : {a b c : BufferStorage} → Reach a b → Step b c → Reach a c

IsValid-Kept : (b b' : BufferStorage) → Kept b b' → IsValid b → IsValid b'
unfolding Kept IsValid
IsValid-Kept b b' kept valid = (
  kept.2 ∙ (valid.0 ∙ rw (kept.0, kept.1) refl),
  kept.3 ∙ (valid.1 ∙ rw (kept.0, kept.1) refl),
  λ strict.
      let strict' : b.options.strict_mode ≡ true = sym (ap (λ o. o.strict_mode) kept.0) ∙ strict in
      rw kept.0 (kept.4 strict' (valid.2 strict').0 (valid.2 strict').1),
)

set_page_erases-Kept :
    (b : BufferStorage) (page cycle : ℕ)
    → (b.options.strict_mode ≡ true → cycle ≤ b.options.max_page_erases)
    → {b' : BufferStorage} → set_page_erases b page cycle ≡ some b'
    → Kept b b'
unfolding set_page_erases Kept
set_page_erases-Kept b page cycle within {b'} e =
    elim (Option-cases (get_elem? b.page_erases page)) [
      | inl missing ↦ absurd (ground arith)
      | inr (n, found) ↦
          let same : record b { page_erases = set b.page_erases page cycle } ≡ b' = ground arith in
          subst (Kept b) same (
            refl,
            refl,
            refl,
            length-set b.page_erases page cycle,
            λ strict writes erases. (
              writes,
              AllLe-set b.options.max_page_erases b.page_erases page cycle erases (within strict),
            ),
          )
    ]

-- A call of any method that returns keeps the sizes, the options and the limits.
Step-Kept : {b b' : BufferStorage} → Step b b' → Kept b b'
unfolding arm_interruption disarm_interruption reset_interruption corrupt_operation
Step-Kept (wrote {b} index value e) = write_slice-Kept b index value e
Step-Kept (erased {b} page e) = erase_page-Kept b page e
Step-Kept (was_armed {b} {b'} delay e) =
    let same : record b { interruption = b'.interruption } ≡ b' = ground arith in
    subst (Kept b) same (Kept-interruption b b'.interruption)
Step-Kept (was_disarmed {b} {b'} {delay} e) =
    let same : record b { interruption = b'.interruption } ≡ b' = ground arith in
    subst (Kept b) same (Kept-interruption b b'.interruption)
Step-Kept (was_reset {b} {b'} e) =
    let same : record b { interruption = b'.interruption } ≡ b' = ground arith in
    subst (Kept b) same (Kept-interruption b b'.interruption)
Step-Kept (was_corrupted {b} {b'} corrupt len e) =
    elim (Option-cases (get_interruption b.interruption)) [
      | inl nothing ↦ absurd (ground arith)
      | inr (err delay, found) ↦ absurd (ground arith)
      | inr (ok op, found) ↦
          Kept-trans b (record b { interruption = ready }) b' (Kept-interruption b ready)
            (corrupt_saved-Kept corrupt len (record b { interruption = ready }) op (ground arith))
    ]
Step-Kept (was_set {b} page cycle within e) = set_page_erases-Kept b page cycle within e

new-IsValid :
    (bytes : List ℕ) (o : BufferOptions) {b : BufferStorage}
    → Buffer.new bytes o ≡ some b
    → IsValid b
unfolding Buffer.new IsValid
new-IsValid bytes o {b} e =
    let writes : b.word_writes ≡ replicate (length bytes / o.word_size) 0 = ground arith in
    let erases : b.page_erases ≡ replicate (length bytes / o.page_size) 0 = ground arith in
    let same : b.storage ≡ bytes = ground arith in
    let options : b.options ≡ o = ground arith in
    (
      rw (writes, same, options) (length-replicate {A = ℕ} (length bytes / o.word_size) 0),
      rw (erases, same, options) (length-replicate {A = ℕ} (length bytes / o.page_size) 0),
      λ strict. (
        rw writes (AllLe-replicate b.options.max_word_writes (length bytes / o.word_size)),
        rw erases (AllLe-replicate b.options.max_page_erases (length bytes / o.page_size)),
      ),
    )

-- Whatever methods are called on a new storage, where each corruption function keeps the length of
-- the bytes it changes and, in strict mode, `set_page_erases` is given at most the limit: there is
-- one write counter for each word and one erase counter for each page, and in strict mode no
-- counter is over its limit.
pub Reach-IsValid :
    (bytes : List ℕ) (o : BufferOptions) {b b' : BufferStorage}
    → Buffer.new bytes o ≡ some b
    → Reach b b'
    → IsValid b'
Reach-IsValid bytes o e here = new-IsValid bytes o e
Reach-IsValid bytes o e (then {b = b1} {c = c} path step) =
    IsValid-Kept b1 c (Step-Kept step) (Reach-IsValid bytes o e path)
