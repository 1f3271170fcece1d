-- ===== src/Store/Format/Words/Torn.antt =====
-- Writes of page headers that are cut short: some of the bits to clear are cleared.
use wasefire.Base.{
  ℕ, ◌+◌, ◌*◌, ◌/◌, ◌%◌, bit_and, ap₂, ◌^◌, ◌≤◌, ◌<◌, ◌≡◌, refl, ◌∙◌, some, List, ok, err, arith,
  ◌>>=◌, Bool-cases, inl, inr, ◌==◌, false, not, if◌then◌else◌,
}
use wasefire.Bits.{Reachable, Reachable-fields, bit_and-le_left}
use wasefire.Store.Types.{StoreResult}
use wasefire.Store.Bitfield.{Word}
use wasefire.Store.Bitfield.Checksum
use wasefire.Store.Bitfield.Sums.{checksum_unique}
use wasefire.Store.Format.{Format, max_prefix_len, erased_word}
use wasefire.Store.Format.Sizes.{IsSupported}
use wasefire.Store.Format.Layout.{
  word_checksum, erase_page, clear_min_key, marker_count, remove_key,
}
use wasefire.Store.Format.Words.Kinds.{ids}
use wasefire.Store.Bitfield.Field
use wasefire.Store.Format.Words.Entries.{
  Fits, entry_body, entry_body-lt, build_internal-eq, valid-Fits, parse_internal-checked,
}
use wasefire.Store.Format.Words.{
  InitInfo, WordState, valid, partial, InternalEntry, internal, erase, clear, marker, remove,
  ParsedWord, parse_word, finish_word, build_internal, invalid_internal, build_init, from_slice,
  parse_init,
}
use wasefire.Store.Format.Words.Pages.{init_body, init_body-lt, build_init-eq, parse_init-checked}
use wasefire.Store.Format.Words.Checked.{
  checked, checked_shape, checked-lt, get-checked, checked_slice,
}

-- A value is read only under a checksum of 0.
sum_of_valid :
    {A : Type 0} (m : StoreResult ℕ) (k : StoreResult (WordState A)) {a : A}
    → (m >>= λ sum. if not (sum == 0) then ok partial else k) ≡ ok (valid a)
    → m ≡ ok 0
sum_of_valid (err e) k h = cc
sum_of_valid (ok sum) k h = ground arith

sum_of_init :
    (f : Format) (u : Word) {i : InitInfo}
    → parse_init f u ≡ ok (valid i)
    → Checksum.get word_checksum u ≡ ok 0
unfolding parse_init
sum_of_init f u h = elim (Bool-cases (u == erased_word)) [
  | inl e ↦ cc (rw e at h)
  | inr e ↦ sum_of_valid _ _ (rw e at h)
]

-- In a supported format, a write of the init info `i` over ones that is cut short leaves a word
-- `u` from which the whole word `w` can still be reached. If `u` parses as a valid init info, the
-- write was complete, and the info is `i`.
pub torn_init :
    (f : Format) (i j : InitInfo) (bytes : List ℕ) (u w : Word)
    → IsSupported f
    → i.cycle ≤ f.max_page_erases
    → i.prefix ≤ max_prefix_len f
    → build_init i ≡ ok bytes
    → from_slice bytes ≡ some w
    → u < 2 ^ 32
    → Reachable u w
    → parse_init f u ≡ ok (valid j)
    → (w ≡ u) × (j ≡ i)
torn_init f i j bytes u w s hc hp built read hu reach parsed = (same, info)
  where
    small : init_body i < 2 ^ 27
    small = (init_body-lt f i s hc hp).2

    written : w ≡ checked (init_body i)
    written = cc (
      built,
      read,
      build_init-eq i (init_body-lt f i s hc hp).0 (init_body-lt f i s hc hp).1,
      checked_slice (init_body i) small,
    )

    same : w ≡ u
    same =
        checksum_unique word_checksum refl (omega arith) u w 0 hu
          (rw written (checked-lt (init_body i) small)) (sum_of_init f u parsed)
          (rw written (get-checked (init_body i) small)) reach

    info : j ≡ i
    info = cc (same, written, parsed, parse_init-checked f i s hc hp)

sum_of_entry :
    (f : Format) (u : Word) (e : InternalEntry) {p : ParsedWord}
    → finish_word f u (internal e) ≡ ok (valid p)
    → Checksum.get word_checksum u ≡ ok 0
unfolding finish_word
sum_of_entry f u e h = sum_of_valid _ _ h

-- A word from which an internal entry can be reached is no header and no padding.
low_bits : (u w : Word) → Reachable u w → w % 4 ≡ 3 → u % 4 ≡ 3
low_bits u w reach h =
    let parts = Reachable-fields 2 (u / 4) (w / 4) (u % 4) (w % 4) (omega arith) (omega arith) (
      ap₂ bit_and {x = u / 4 * 2 ^ 2 + u % 4} {y = u} (omega arith) (omega arith)
      ∙ reach
      ∙ omega arith) in
    omega (arith, parts.1, bit_and-le_left (u % 4) (w % 4))

sum_of_word :
    (f : Format) (u : Word) {p : ParsedWord}
    → u % 4 ≡ 3
    → parse_word f u ≡ ok (valid p)
    → Checksum.get word_checksum u ≡ ok 0
unfolding parse_word
sum_of_word f u {p} low h = ground (
  arith,
  ids f u,
  sum_of_entry f u (erase (Field.get erase_page u)) {p = p},
  sum_of_entry f u (clear (Field.get clear_min_key u)) {p = p},
  sum_of_entry f u (marker (Field.get marker_count u)) {p = p},
  sum_of_entry f u (remove (Field.get remove_key u)) {p = p},
)

entry_low : (e : InternalEntry) → entry_body e % 4 ≡ 3
entry_low (erase page) = omega arith
entry_low (clear min_key) = omega arith
entry_low (marker count) = omega arith
entry_low (remove key) = omega arith

-- In a supported format, a write of the internal entry `e`, its argument in range, over ones that
-- is cut short leaves a word `u` from which the whole word `w` can still be reached. If `u` parses
-- as any valid word, the write was complete, and the word is the entry `e`.
pub torn_internal :
    (f : Format) (e : InternalEntry) (p : ParsedWord) (bytes : List ℕ) (u w : Word)
    → IsSupported f
    → invalid_internal f e ≡ false
    → build_internal e ≡ ok bytes
    → from_slice bytes ≡ some w
    → u < 2 ^ 32
    → Reachable u w
    → parse_word f u ≡ ok (valid p)
    → (w ≡ u) × (p ≡ internal e)
torn_internal f e p bytes u w s v built read hu reach parsed = (same, entry)
  where
    fits : Fits e
    fits = valid-Fits f e s v

    small : entry_body e < 2 ^ 27
    small = entry_body-lt e fits

    written : w ≡ checked (entry_body e)
    written = cc (built, read, build_internal-eq e fits, checked_slice (entry_body e) small)

    low : w % 4 ≡ 3
    low = rw written (omega (arith, checked_shape (entry_body e) small, entry_low e))

    same : w ≡ u
    same =
        checksum_unique word_checksum refl (omega arith) u w 0 hu
          (rw written (checked-lt (entry_body e) small))
          (sum_of_word f u (low_bits u w reach low) parsed)
          (rw written (get-checked (entry_body e) small)) reach

    entry : p ≡ internal e
    entry = cc (same, written, parsed, parse_internal-checked f e s v)
