-- ===== src/Store/Format/Words/Entries.antt =====
-- Internal entries, written and read back.
use wasefire.Base.{ℕ, ◌+◌, ◌*◌, ◌^◌, ◌<◌, ◌≡◌, refl, ap, ◌∙◌, some, false, List, ok, arith}
use wasefire.Store.Bitfield.{Word}
use wasefire.Store.Bitfield.ConstField
use wasefire.Store.Bitfield.Replace.{get-eq}
use wasefire.Store.Bitfield.Writes.{set_ones}
use wasefire.Store.Format.{Format, erased_word}
use wasefire.Store.Format.Sizes.{IsSupported}
use wasefire.Store.Format.Layout.{
  id_erase, id_clear, id_marker, id_remove, erase_page, clear_min_key, marker_count, remove_key,
}
use wasefire.Store.Format.Words.{
  InternalEntry, internal, erase, clear, marker, remove, valid, as_slice, from_slice, build_kind,
  build_internal, parse_word, finish_word, invalid_internal,
}
use wasefire.Store.Format.Words.Checked.{
  checked, checked_shape, set-checked, get-checked, checked_slice,
}
use wasefire.Store.Format.Words.Kinds.{parse-erase, parse-clear, parse-marker, parse-remove}

-- The content of the word of an entry: ones, the argument, the identifier.
abbrev pub entry_body : InternalEntry → ℕ
entry_body (erase page) = 65535 * 2048 + page * 32 + 3
entry_body (clear min_key) = 1023 * 131072 + min_key * 32 + 19
entry_body (marker count) = 131071 * 1024 + count * 32 + 11
entry_body (remove key) = 1023 * 131072 + key * 32 + 27

-- The argument fits its field.
abbrev pub Fits : InternalEntry → Type 0
Fits (erase page) = page < 64
Fits (clear min_key) = min_key < 4096
Fits (marker count) = count < 32
Fits (remove key) = key < 4096

pub entry_body-lt : (e : InternalEntry) → Fits e → entry_body e < 2 ^ 27
entry_body-lt (erase page) h = omega arith
entry_body-lt (clear min_key) h = omega arith
entry_body-lt (marker count) h = omega arith
entry_body-lt (remove key) h = omega arith

build_kind-eq : (e : InternalEntry) → Fits e → build_kind e ≡ ok (31 * 134217728 + entry_body e)
unfolding build_kind ConstField.set
build_kind-eq (erase page) h =
    rw
      (set_ones id_erase.field 27 refl (omega arith) 134217727 0 3 erased_word (134217727 * 32 + 3)
        refl (omega arith) (omega arith) (omega arith) (omega arith))
      (set_ones erase_page 21 refl (omega arith) 2097151 3 page (134217727 * 32 + 3)
        (31 * 134217728 + entry_body (erase page)) refl (omega arith) (omega arith) (omega arith) h)
build_kind-eq (clear min_key) h =
    rw
      (set_ones id_clear.field 27 refl (omega arith) 134217727 0 19 erased_word
        (134217727 * 32 + 19) refl (omega arith) (omega arith) (omega arith) (omega arith))
      (set_ones clear_min_key 15 refl (omega arith) 32767 19 min_key (134217727 * 32 + 19)
        (31 * 134217728 + entry_body (clear min_key)) refl (omega arith) (omega arith) (omega arith)
        h)
build_kind-eq (marker count) h =
    rw
      (set_ones id_marker.field 27 refl (omega arith) 134217727 0 11 erased_word
        (134217727 * 32 + 11) refl (omega arith) (omega arith) (omega arith) (omega arith))
      (set_ones marker_count 22 refl (omega arith) 4194303 11 count (134217727 * 32 + 11)
        (31 * 134217728 + entry_body (marker count)) refl (omega arith) (omega arith) (omega arith)
        h)
build_kind-eq (remove key) h =
    rw
      (set_ones id_remove.field 27 refl (omega arith) 134217727 0 27 erased_word
        (134217727 * 32 + 27) refl (omega arith) (omega arith) (omega arith) (omega arith))
      (set_ones remove_key 15 refl (omega arith) 32767 27 key (134217727 * 32 + 27)
        (31 * 134217728 + entry_body (remove key)) refl (omega arith) (omega arith) (omega arith) h)

pub build_internal-eq :
    (e : InternalEntry) → Fits e → build_internal e ≡ ok (as_slice (checked (entry_body e)))
unfolding build_internal
build_internal-eq e h =
    rw
      (
        build_kind-eq e h,
        set-checked (entry_body e) (entry_body-lt e h) (31 * 134217728 + entry_body e) refl,
      )
      refl

-- `parse_word` finds the kind and the argument of the entry in its word.
parse_kind :
    (f : Format) (e : InternalEntry)
    → Fits e
    → parse_word f (checked (entry_body e)) ≡ finish_word f (checked (entry_body e)) (internal e)
parse_kind f (erase page) h =
    let w = checked (entry_body (erase page)) in
    let shape = checked_shape (entry_body (erase page)) (entry_body-lt (erase page) h) in
    parse-erase f w (omega (arith, shape))
    ∙ ap (λ n. finish_word f w (internal (erase n)))
        (omega (arith, shape, get-eq erase_page 21 refl (omega arith) w))
parse_kind f (clear min_key) h =
    let w = checked (entry_body (clear min_key)) in
    let shape = checked_shape (entry_body (clear min_key)) (entry_body-lt (clear min_key) h) in
    parse-clear f w (omega (arith, shape))
    ∙ ap (λ n. finish_word f w (internal (clear n)))
        (omega (arith, shape, get-eq clear_min_key 15 refl (omega arith) w))
parse_kind f (marker count) h =
    let w = checked (entry_body (marker count)) in
    let shape = checked_shape (entry_body (marker count)) (entry_body-lt (marker count) h) in
    parse-marker f w (omega (arith, shape))
    ∙ ap (λ n. finish_word f w (internal (marker n)))
        (omega (arith, shape, get-eq marker_count 22 refl (omega arith) w))
parse_kind f (remove key) h =
    let w = checked (entry_body (remove key)) in
    let shape = checked_shape (entry_body (remove key)) (entry_body-lt (remove key) h) in
    parse-remove f w (omega (arith, shape))
    ∙ ap (λ n. finish_word f w (internal (remove n)))
        (omega (arith, shape, get-eq remove_key 15 refl (omega arith) w))

finish_valid :
    (f : Format) (e : InternalEntry)
    → Fits e
    → invalid_internal f e ≡ false
    → finish_word f (checked (entry_body e)) (internal e) ≡ ok (valid (internal e))
unfolding finish_word
finish_valid f e h v = rw (get-checked (entry_body e) (entry_body-lt e h), v) refl

pub valid-Fits :
    (f : Format) (e : InternalEntry) → IsSupported f → invalid_internal f e ≡ false → Fits e
unfolding invalid_internal
valid-Fits f (erase page) s h = ground (arith, s.pages_max, s.pages_min)
valid-Fits f (clear min_key) s h = ground arith
valid-Fits f (marker count) s h = ground arith
valid-Fits f (remove key) s h = ground arith

pub parse_internal-checked :
    (f : Format) (e : InternalEntry)
    → IsSupported f
    → invalid_internal f e ≡ false
    → parse_word f (checked (entry_body e)) ≡ ok (valid (internal e))
parse_internal-checked f e s h =
    let fits = valid-Fits f e s h in parse_kind f e fits ∙ finish_valid f e fits h

-- In a supported format, what `build_internal` writes, `parse_word` reads back, for every internal
-- entry whose argument is in range.
pub parse_word-build_internal :
    (f : Format) (e : InternalEntry)
    → IsSupported f
    → invalid_internal f e ≡ false
    → (bytes : List ℕ) × (w : Word) × (build_internal e ≡ ok bytes)
      × (from_slice bytes ≡ some w)
      × (parse_word f w ≡ ok (valid (internal e)))
parse_word-build_internal f e s h =
    let fits = valid-Fits f e s h in
    (
      as_slice (checked (entry_body e)),
      checked (entry_body e),
      build_internal-eq e fits,
      checked_slice (entry_body e) (entry_body-lt e fits),
      parse_internal-checked f e s h,
    )
