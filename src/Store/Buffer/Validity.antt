-- ===== src/Store/Buffer/Validity.antt =====
-- crates/store/src/buffer.rs: the counters fit the storage and stay within their limits.
use wasefire.Base.{
  ℕ, zero, suc, ◌+◌, ◌*◌, ◌/◌, ◌≤◌, ◌≡◌, sym, subst, ap, ◌∙◌, true, some, List, [], ◌∷◌, arith,
  length, get_elem?, set, replicate, length-set, Bool-cases, Option-cases, inl, inr,
}
use wasefire.Store.Buffer.{
  BufferStorage, BufferOptions, count_write, word_counts, incr_words, reset_words, incr_page_erases,
}

-- Every counter is at most `limit`.
unfoldable pub AllLe : ℕ → List ℕ → Type 0
AllLe limit [] = Unit
AllLe limit (x ∷ xs) = (x ≤ limit) × AllLe limit xs

pub AllLe-set :
    (limit : ℕ) (xs : List ℕ) (i v : ℕ) → AllLe limit xs → v ≤ limit → AllLe limit (set xs i v)
unfolding AllLe
AllLe-set limit [] i v all le = tt
AllLe-set limit (x ∷ xs) zero v all le = (le, all.1)
AllLe-set limit (x ∷ xs) (suc i) v all le = (all.0, AllLe-set limit xs i v all.1 le)

pub AllLe-replicate : (limit n : ℕ) → AllLe limit (replicate n 0)
unfolding AllLe
AllLe-replicate limit zero = tt
AllLe-replicate limit (suc n) = (omega arith, AllLe-replicate limit n)

-- A counter that goes up keeps the number of counters, and the limit in strict mode.
count_write-keeps :
    (o : BufferOptions) (counts : List ℕ) (word : ℕ) {counts' : List ℕ}
    → count_write o counts word ≡ some counts'
    → (length counts' ≡ length counts)
      × (o.strict_mode ≡ true → AllLe o.max_word_writes counts → AllLe o.max_word_writes counts')
unfolding count_write
count_write-keeps o counts word {counts'} e = elim (Option-cases (get_elem? counts word)) [
  | inl missing ↦ absurd (ground arith)
  | inr (n, found) ↦
      let up : set counts word (n + 1) ≡ counts' = ground arith in
      (
        sym (ap length up) ∙ length-set counts word (n + 1),
        λ strict all.
            subst (AllLe o.max_word_writes) up
              (AllLe-set o.max_word_writes counts word (n + 1) all (ground arith)),
      )
]

pub incr_words-keeps :
    (b : BufferStorage) (index : ℕ) (value complete : List ℕ) (rounds i : ℕ) (counts : List ℕ)
    {counts' : List ℕ}
    → incr_words b index value complete rounds i counts ≡ some counts'
    → (length counts' ≡ length counts)
      × (b.options.strict_mode ≡ true
          → AllLe b.options.max_word_writes counts
          → AllLe b.options.max_word_writes counts')
unfolding incr_words
incr_words-keeps b index value complete zero i counts {counts'} e =
    let same : counts ≡ counts' = ground arith in
    (sym (ap length same), λ strict all. subst (AllLe b.options.max_word_writes) same all)
incr_words-keeps b index value complete (suc rounds) i counts e =
    elim (Bool-cases (word_counts b index value complete i)) [
      | inr skipped ↦ incr_words-keeps b index value complete rounds (i + 1) counts (ground arith)
      | inl counted ↦
          elim (Option-cases (count_write b.options counts (index / b.options.word_size + i))) [
            | inl full ↦ absurd (ground arith)
            | inr (counts1, up) ↦
                let one = count_write-keeps b.options counts (index / b.options.word_size + i) up in
                let rest =
                  incr_words-keeps b index value complete rounds (i + 1) counts1 (ground arith) in
                (rest.0 ∙ one.0, λ strict all. rest.1 strict (one.1 strict all))
          ]
    ]

reset_words-keeps :
    (limit rounds first : ℕ) (counts : List ℕ) {counts' : List ℕ}
    → reset_words rounds first counts ≡ some counts'
    → (length counts' ≡ length counts) × (AllLe limit counts → AllLe limit counts')
unfolding reset_words
reset_words-keeps limit zero first counts {counts'} e =
    let same : counts ≡ counts' = ground arith in
    (sym (ap length same), λ all. subst (AllLe limit) same all)
reset_words-keeps limit (suc rounds) first counts {counts'} e =
    elim (Option-cases (get_elem? counts first)) [
      | inl missing ↦ absurd (ground arith)
      | inr (n, found) ↦
          let rest =
            reset_words-keeps limit rounds (first + 1) (set counts first 0) {counts' = counts'}
              (ground arith) in
          (
            rest.0 ∙ length-set counts first 0,
            λ all. rest.1 (AllLe-set limit counts first 0 all (omega arith)),
          )
    ]

-- What an erasure does to the counters.
pub incr_page_erases-keeps :
    (b : BufferStorage) (page : ℕ) {b' : BufferStorage}
    → incr_page_erases b page ≡ some b'
    → (b'.storage ≡ b.storage)
      × (b'.options ≡ b.options)
      × (length b'.word_writes ≡ length b.word_writes)
      × (length b'.page_erases ≡ length b.page_erases)
      × (b.options.strict_mode ≡ true
          → AllLe b.options.max_word_writes b.word_writes
          → AllLe b.options.max_page_erases b.page_erases
          → AllLe b.options.max_word_writes b'.word_writes
            × AllLe b.options.max_page_erases b'.page_erases)
unfolding incr_page_erases
incr_page_erases-keeps b page {b'} e = elim (Option-cases (get_elem? b.page_erases page)) [
  | inl missing ↦ absurd (ground arith)
  | inr (n, found) ↦
      let words = b.options.page_size / b.options.word_size in
      let up : set b.page_erases page (n + 1) ≡ b'.page_erases = ground arith in
      let clear : reset_words words (page * words) b.word_writes ≡ some b'.word_writes =
        ground arith in
      let reset =
        reset_words-keeps b.options.max_word_writes words (page * words) b.word_writes clear in
      (
        ground arith,
        ground arith,
        reset.0,
        sym (ap length up) ∙ length-set b.page_erases page (n + 1),
        λ strict writes erases. (
          reset.1 writes,
          subst (AllLe b.options.max_page_erases) up (
              AllLe-set b.options.max_page_erases b.page_erases page (n + 1) erases (ground arith)),
        ),
      )
]
