-- ===== src/Store/Format/Words/Kinds.antt =====
-- The first bits of a word tell its kind: `parse_word` on the low five bits.
use wasefire.Base.{ℕ, ◌+◌, ◌/◌, ◌%◌, ◌^◌, ◌<◌, ◌≡◌, refl, ap, arith, ◌==◌, ◌>>=◌}
use wasefire.Store.Bitfield.{Word}
use wasefire.Store.Bitfield.Field
use wasefire.Store.Bitfield.ConstField
use wasefire.Store.Bitfield.Replace.{get-eq}
use wasefire.Store.Format.{Format}
use wasefire.Store.Format.Layout.{
  id_padding, id_header, id_erase, id_clear, id_marker, id_remove, erase_page, clear_min_key,
  marker_count, remove_key,
}
use wasefire.Store.Format.Words.{
  internal, erase, clear, marker, remove, padding, parse_header, parse_word, finish_word,
}

-- An identifier is compared with the low bits of the word.
check-eq :
    (l c v : ℕ) (w : Word)
    → l + c ≡ 32
    → l < 32
    → ConstField.check (record { field = record { pos = 0; len = l }; value = v }) w
      ≡ (w % 2 ^ l == v)
unfolding ConstField.check
check-eq l c v w e h =
    rw (get-eq (record { pos = 0; len = l }) c (omega (arith, e)) h w)
      (ap (λ n. n % 2 ^ l == v) {x = w / 1} {y = w} (omega arith))

module _ (f : Format) (w : Word) where
  pub ids :
      (ConstField.check id_padding w ≡ (w % 2 == 0))
      × (ConstField.check id_header w ≡ (w % 4 == 1))
      × (ConstField.check id_erase w ≡ (w % 32 == 3))
      × (ConstField.check id_clear w ≡ (w % 32 == 19))
      × (ConstField.check id_marker w ≡ (w % 32 == 11))
      × (ConstField.check id_remove w ≡ (w % 32 == 27))
  ids = (
    check-eq 1 31 0 w refl (omega arith),
    check-eq 2 30 1 w refl (omega arith),
    check-eq 5 27 3 w refl (omega arith),
    check-eq 5 27 19 w refl (omega arith),
    check-eq 5 27 11 w refl (omega arith),
    check-eq 5 27 27 w refl (omega arith),
  )

  parse-padding : w % 2 ≡ 0 → parse_word f w ≡ finish_word f w (padding (record { length = 0 }))
  unfolding parse_word
  parse-padding h = ground (arith, ids)

  pub parse-header :
      w % 4 ≡ 1 → parse_word f w ≡ (parse_header f w >>= λ parsed. finish_word f w parsed)
  unfolding parse_word
  parse-header h = ground (arith, ids)

  pub parse-erase :
      w % 32 ≡ 3 → parse_word f w ≡ finish_word f w (internal (erase (Field.get erase_page w)))
  unfolding parse_word
  parse-erase h = ground (arith, ids)

  pub parse-clear :
      w % 32 ≡ 19 → parse_word f w ≡ finish_word f w (internal (clear (Field.get clear_min_key w)))
  unfolding parse_word
  parse-clear h = ground (arith, ids)

  pub parse-marker :
      w % 32 ≡ 11 → parse_word f w ≡ finish_word f w (internal (marker (Field.get marker_count w)))
  unfolding parse_word
  parse-marker h = ground (arith, ids)

  pub parse-remove :
      w % 32 ≡ 27 → parse_word f w ≡ finish_word f w (internal (remove (Field.get remove_key w)))
  unfolding parse_word
  parse-remove h = ground (arith, ids)
