-- ===== src/Store/Buffer/Kept.antt =====
-- crates/store/src/buffer.rs: what each method keeps of the sizes, the options and the limits.
use wasefire.Base.{
  ℕ, ◌+◌, ◌/◌, ◌≤◌, ◌≡◌, refl, sym, subst, ap, ◌∙◌, true, ◌&&◌, some, List, arith, ok, err, length,
  replicate, length-replicate, Bool-cases, Option-cases, Result-cases, inl, inr,
}
use wasefire.Store.Storage
use wasefire.Store.Storage.{StorageIndex, StorageResult, StorageError, ByteRange}
use wasefire.Store.Buffer.{
  BufferStorage, BufferOperation, Interruption, write, erase, returns, geometry, slice,
  is_word_aligned, overwrite, bytes_eq, operation_range, incr_words, incr_word_writes,
  incr_page_erases, commit_write, commit_erase, corrupt_saved, slice, write_slice, erase_page, tick,
}
use wasefire.Store.Buffer.Slices.{length-overwrite, length-slice, range-in_storage}
use wasefire.Store.Buffer.Validity.{AllLe, incr_words-keeps, incr_page_erases-keeps}

-- `b'` has the options and the sizes of `b`, and its counters are in the limits if those of `b` are.
unfoldable pub Kept : BufferStorage → BufferStorage → Type 0
Kept b b' =
    (b'.options ≡ b.options)
    × (length b'.storage ≡ length b.storage)
    × (length b'.word_writes ≡ length b.word_writes)
    × (length b'.page_erases ≡ length b.page_erases)
    × (b.options.strict_mode ≡ true
        → AllLe b.options.max_word_writes b.word_writes
        → AllLe b.options.max_page_erases b.page_erases
        → AllLe b.options.max_word_writes b'.word_writes
          × AllLe b.options.max_page_erases b'.page_erases)

Kept-refl : (b : BufferStorage) → Kept b b
unfolding Kept
Kept-refl b = (refl, refl, refl, refl, λ strict writes erases. (writes, erases))

pub Kept-trans : (a b c : BufferStorage) → Kept a b → Kept b c → Kept a c
unfolding Kept
Kept-trans a b c p q = (
  q.0 ∙ p.0,
  q.1 ∙ p.1,
  q.2 ∙ p.2,
  q.3 ∙ p.3,
  λ strict writes erases.
      let at_b = p.4 strict writes erases in
      subst (λ o. AllLe o.max_word_writes c.word_writes × AllLe o.max_page_erases c.page_erases) p.0
        (q.4 (ap (λ o. o.strict_mode) p.0 ∙ strict)
          (subst (λ o. AllLe o.max_word_writes b.word_writes) (sym p.0) at_b.0)
          (subst (λ o. AllLe o.max_page_erases b.page_erases) (sym p.0) at_b.1)),
)

-- The interruption is no part of it.
pub Kept-interruption :
    (b : BufferStorage) (i : Interruption) → Kept b (record b { interruption = i })
unfolding Kept
Kept-interruption b i = (refl, refl, refl, refl, λ strict writes erases. (writes, erases))

overwrite-Kept :
    (b : BufferStorage) (start : ℕ) (bytes : List ℕ)
    → start + length bytes ≤ length b.storage
    → Kept b (record b { storage = overwrite start bytes b.storage })
unfolding Kept
overwrite-Kept b start bytes fits = (
  refl,
  length-overwrite start bytes b.storage fits,
  refl,
  refl,
  λ strict writes erases. (writes, erases),
)

incr_word_writes-Kept :
    (b : BufferStorage) (start : ℕ) (value complete : List ℕ) {b' : BufferStorage}
    → incr_word_writes b start value complete ≡ some b'
    → Kept b b' × (b'.storage ≡ b.storage)
unfolding Kept incr_word_writes
incr_word_writes-Kept b start value complete {b'} e =
    let counted : incr_words b start value complete (length value / b.options.word_size) 0
          b.word_writes
        ≡ some b'.word_writes =
      ground arith in
    let keeps =
      incr_words-keeps b start value complete (length value / b.options.word_size) 0 b.word_writes
        counted in
    let erases_same : b'.page_erases ≡ b.page_erases = ground arith in
    let same : b'.storage ≡ b.storage = ground arith in
    (
      (
        ground arith,
        ap length same,
        keeps.0,
        ap length erases_same,
        λ strict writes erases. (
          keeps.1 strict writes,
          subst (AllLe b.options.max_page_erases) (sym erases_same) erases,
        ),
      ),
      same,
    )

incr_page_erases-Kept :
    (b : BufferStorage) (page : ℕ) {b' : BufferStorage}
    → incr_page_erases b page ≡ some b'
    → Kept b b' × (b'.storage ≡ b.storage)
unfolding Kept
incr_page_erases-Kept b page e =
    let keeps = incr_page_erases-keeps b page e in
    ((keeps.1, ap length keeps.0, keeps.2, keeps.3, keeps.4), keeps.0)

-- Counters go up, then bytes are overwritten.
stored-Kept :
    (b c : BufferStorage) (start : ℕ) (bytes : List ℕ)
    → Kept b c × (c.storage ≡ b.storage)
    → start + length bytes ≤ length b.storage
    → Kept b (record c { storage = overwrite start bytes c.storage })
unfolding Kept
stored-Kept b c start bytes (kept, same) fits =
    Kept-trans b c (record c { storage = overwrite start bytes c.storage }) kept
      (overwrite-Kept c start bytes
        (subst (λ xs. start + length bytes ≤ length xs) (sym same) fits))

commit_write-Kept :
    (b : BufferStorage) (start : ℕ) (value : List ℕ) {x : StorageResult (Unit {0})}
    {b' : BufferStorage}
    → start + length value ≤ length b.storage
    → commit_write b start value ≡ returns x b'
    → Kept b b'
unfolding commit_write
commit_write-Kept b start value {x} {b'} fits e =
    elim (Option-cases (incr_word_writes b start value value)) [
      | inl full ↦ absurd (ground arith)
      | inr (c, counted) ↦
          let stored : record c { storage = overwrite start value c.storage } ≡ b' = ground arith in
          subst (Kept b) stored
            (stored-Kept b c start value (incr_word_writes-Kept b start value value counted) fits)
    ]

commit_erase-Kept :
    (b : BufferStorage) (start page : ℕ) {x : StorageResult (Unit {0})} {b' : BufferStorage}
    → start + b.options.page_size ≤ length b.storage
    → commit_erase b start page ≡ returns x b'
    → Kept b b'
unfolding commit_erase
commit_erase-Kept b start page {x} {b'} fits e = elim (Option-cases (incr_page_erases b page)) [
  | inl full ↦ absurd (ground arith)
  | inr (c, counted) ↦
      let blank = replicate b.options.page_size 0xff in
      let stored : record c { storage = overwrite start blank c.storage } ≡ b' = ground arith in
      subst (Kept b) stored (
        stored-Kept b c start blank (incr_page_erases-Kept b page counted)
          (omega (arith, fits, length-replicate {A = ℕ} b.options.page_size 0xff)))
]

pub write_slice-Kept :
    (b : BufferStorage) (index : StorageIndex) (value : List ℕ) {x : StorageResult (Unit {0})}
    {b' : BufferStorage}
    → write_slice b index value ≡ returns x b'
    → Kept b b'
unfolding write_slice operation_range
write_slice-Kept b index value {x} {b'} e =
    elim (Bool-cases
      (is_word_aligned b.options index.byte && is_word_aligned b.options (length value))) [
        | inr unaligned ↦ let same : b ≡ b' = ground arith in subst (Kept b) same (Kept-refl b)
        | inl aligned ↦ elim (Result-cases (Storage.range index (length value) (geometry b))) [
          | inl (_, outside) ↦ let same : b ≡ b' = ground arith in subst (Kept b) same (Kept-refl b)
          | inr (r, inside) ↦ elim (Option-cases (tick b.interruption (write index value))) [
            | inl stuck ↦ absurd (ground arith)
            | inr ((err _, i), stopped) ↦
                let same : record b { interruption = i } ≡ b' = ground arith in
                subst (Kept b) same (Kept-interruption b i)
            | inr ((ok _, i), goes_on) ↦
                Kept-trans b (record b { interruption = i }) b' (Kept-interruption b i)
                  (commit_write-Kept (record b { interruption = i }) r.start value {x = x}
                    (range-in_storage b index (length value) inside) (ground arith))
          ]
        ]
      ]

pub erase_page-Kept :
    (b : BufferStorage) (page : ℕ) {x : StorageResult (Unit {0})} {b' : BufferStorage}
    → erase_page b page ≡ returns x b'
    → Kept b b'
unfolding erase_page operation_range
erase_page-Kept b page {x} {b'} e =
    let size = b.options.page_size in
    let first : StorageIndex = record { page = page; byte = 0 } in
    elim (Result-cases (Storage.range first size (geometry b))) [
      | inl (_, outside) ↦ let same : b ≡ b' = ground arith in subst (Kept b) same (Kept-refl b)
      | inr (r, inside) ↦ elim (Option-cases (tick b.interruption (erase page))) [
        | inl stuck ↦ absurd (ground arith)
        | inr ((err _, i), stopped) ↦
            let same : record b { interruption = i } ≡ b' = ground arith in
            subst (Kept b) same (Kept-interruption b i)
        | inr ((ok _, i), goes_on) ↦
            Kept-trans b (record b { interruption = i }) b' (Kept-interruption b i)
              (commit_erase-Kept (record b { interruption = i }) r.start page {x = x}
                (range-in_storage b first size inside) (ground arith))
      ]
    ]

-- The corruption function keeps the length of the bytes it changes in place.
pub corrupt_saved-Kept :
    (corrupt : List ℕ → List ℕ → List ℕ)
    → ((xs ys : List ℕ) → length (corrupt xs ys) ≡ length xs)
    → (b : BufferStorage) (op : BufferOperation) {b' : BufferStorage}
    → corrupt_saved corrupt b op ≡ returns tt b'
    → Kept b b'
unfolding corrupt_saved operation_range
corrupt_saved-Kept corrupt len b (write index value) {b'} e =
    elim (Result-cases (Storage.range index (length value) (geometry b))) [
      | inl (_, outside) ↦ absurd (ground arith)
      | inr (r, inside) ↦
          let fits = range-in_storage b index (length value) inside in
          let before = corrupt (slice r.start (length value) b.storage) value in
          elim (Option-cases (incr_word_writes b r.start before value)) [
            | inl full ↦ absurd (ground arith)
            | inr (c, counted) ↦
                let stored : record c { storage = overwrite r.start before c.storage } ≡ b' =
                  ground arith in
                subst (Kept b) stored (
                  stored-Kept b c r.start before
                    (incr_word_writes-Kept b r.start before value counted)
                    (omega (
                      arith,
                      fits,
                      len (slice r.start (length value) b.storage) value,
                      length-slice r.start (length value) b.storage fits,
                    )))
          ]
    ]
corrupt_saved-Kept corrupt len b (erase page) {b'} e =
    let size : ℕ = b.options.page_size in
    let first : StorageIndex = record { page = page; byte = 0 } in
    elim (Result-cases (Storage.range first size (geometry b))) [
      | inl (_, outside) ↦ absurd (ground arith)
      | inr (r, inside) ↦
          let fits = range-in_storage b first size inside in
          let after : List ℕ = replicate size 0xff in
          let before = corrupt (slice r.start size b.storage) after in
          let fits_before : r.start + length before ≤ length b.storage = omega (
            arith,
            fits,
            len (slice r.start size b.storage) after,
            length-slice r.start size b.storage fits,
          ) in
          elim (Bool-cases (bytes_eq before after)) [
            | inr partial ↦
                let stored : record b { storage = overwrite r.start before b.storage } ≡ b' =
                  ground arith in
                subst (Kept b) stored
                  (stored-Kept b b r.start before (Kept-refl b, refl) fits_before)
            | inl complete ↦ elim (Option-cases (incr_page_erases b page)) [
              | inl full ↦ absurd (ground arith)
              | inr (c, counted) ↦
                  let stored : record c { storage = overwrite r.start before c.storage } ≡ b' =
                    ground arith in
                  subst (Kept b) stored (
                    stored-Kept b c r.start before (incr_page_erases-Kept b page counted)
                      fits_before)
            ]
          ]
    ]
