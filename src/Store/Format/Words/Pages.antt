-- ===== src/Store/Format/Words/Pages.antt =====
-- The init info and the compact info of a page, written and read back.
use native.Mathlib.Nat.{mul-le-mul}
use wasefire.Base.{ℕ, ◌+◌, ◌-◌, ◌*◌, ◌^◌, ◌≤◌, ◌<◌, ◌≡◌, refl, some, List, ok, arith, ltb-false}
use wasefire.Store.Bitfield.{Word}
use wasefire.Store.Bitfield.Field
use wasefire.Store.Bitfield.Replace.{get-eq}
use wasefire.Store.Bitfield.Writes.{set_ones}
use wasefire.Store.Format.{Format, erased_word, virt_page_size, max_prefix_len, window_size}
use wasefire.Store.Format.Sizes.{IsSupported, sizes}
use wasefire.Store.Format.Layout.{init_cycle, init_prefix, compact_tail}
use wasefire.Store.Format.Words.{
  InitInfo, CompactInfo, valid, as_slice, from_slice, build_init, build_compact, parse_init,
  parse_compact,
}
use wasefire.Store.Format.Words.Checked.{
  checked, checked_shape, checked-ne-erased, set-checked, get-checked, checked_slice,
}

-- The content of an init word: the two unused bits are ones.
abbrev pub init_body : InitInfo → ℕ
init_body i = 3 * 33554432 + i.prefix * 65536 + i.cycle

pub build_init-eq :
    (i : InitInfo)
    → i.cycle < 2 ^ 16
    → i.prefix < 2 ^ 9
    → build_init i ≡ ok (as_slice (checked (init_body i)))
unfolding build_init
build_init-eq i hc hp =
    rw
      (
        set_ones init_cycle 16 refl (omega arith) 65535 0 i.cycle erased_word
            (65535 * 65536 + i.cycle) refl (omega arith) (omega arith) (omega arith) hc,
        set_ones init_prefix 7 refl (omega arith) 127 i.cycle i.prefix (65535 * 65536 + i.cycle)
            (31 * 134217728 + init_body i) (omega arith) (omega arith) (omega arith) hc hp,
        set-checked (init_body i) (omega arith) (31 * 134217728 + init_body i) refl,
      )
      refl

module _ (f : Format) (i : InitInfo) (s : IsSupported f) (hc : i.cycle ≤ f.max_page_erases)
    (hp : i.prefix ≤ max_prefix_len f) where
  pub init_body-lt : (i.cycle < 2 ^ 16) × (i.prefix < 2 ^ 9) × (init_body i < 2 ^ 27)
  init_body-lt = let b = sizes f s in omega (arith, s.erases_max, b.prefix_max, b.virt_page_max)

  pub parse_init-checked : parse_init f (checked (init_body i)) ≡ ok (valid i)
  unfolding parse_init
  parse_init-checked =
      let bounds = init_body-lt in
      let shape = checked_shape (init_body i) bounds.2 in
      let cycle_read : Field.get init_cycle (checked (init_body i)) ≡ i.cycle =
        omega
          (arith, get-eq init_cycle 16 refl (omega arith) (checked (init_body i)), shape, bounds) in
      let prefix_read : Field.get init_prefix (checked (init_body i)) ≡ i.prefix =
        omega
          (arith, get-eq init_prefix 7 refl (omega arith) (checked (init_body i)), shape, bounds) in
      rw (checked-ne-erased (init_body i) bounds.2, get-checked (init_body i) bounds.2)
        (rw (cycle_read, prefix_read) (ground arith))

  -- What `build_init` writes, `parse_init` reads back, for every init info of a supported format
  -- whose cycle and prefix are in range.
  pub parse_init-build_init :
      (bytes : List ℕ) × (w : Word) × (build_init i ≡ ok bytes)
      × (from_slice bytes ≡ some w)
      × (parse_init f w ≡ ok (valid i))
  parse_init-build_init =
      let bounds = init_body-lt in
      (
        as_slice (checked (init_body i)),
        checked (init_body i),
        build_init-eq i bounds.0 bounds.1,
        checked_slice (init_body i) bounds.2,
        parse_init-checked,
      )

abbrev pub compact_body : CompactInfo → ℕ
compact_body c = 2047 * 65536 + c.tail

build_compact-eq :
    (c : CompactInfo) → c.tail < 2 ^ 16 → build_compact c ≡ ok (as_slice (checked (compact_body c)))
unfolding build_compact
build_compact-eq c ht =
    rw
      (
        set_ones compact_tail 16 refl (omega arith) 65535 0 c.tail erased_word
            (31 * 134217728 + compact_body c) refl (omega arith) (omega arith) (omega arith) ht,
        set-checked (compact_body c) (omega arith) (31 * 134217728 + compact_body c) refl,
      )
      refl

window-lt : (f : Format) → IsSupported f → window_size f < 2 ^ 16
window-lt f s =
    let product : (f.num_pages - 1) * virt_page_size f ≤ 63 * 1022 =
      mul-le-mul {n₂ = 63} {m₂ = 1022} (omega (arith, s.pages_max)) (sizes f s).virt_page_max in
    omega (arith, product)

-- In a supported format, what `build_compact` writes, `parse_compact` reads back, for every tail
-- in the window.
pub parse_compact-build_compact :
    (f : Format) (c : CompactInfo)
    → IsSupported f
    → c.tail ≤ window_size f
    → (bytes : List ℕ) × (w : Word) × (build_compact c ≡ ok bytes)
      × (from_slice bytes ≡ some w)
      × (parse_compact f w ≡ ok (valid c))
unfolding parse_compact
parse_compact-build_compact f c s ht =
    let bound = window-lt f s in
    let small : compact_body c < 2 ^ 27 = omega (arith, bound) in
    let tail_read : Field.get compact_tail (checked (compact_body c)) ≡ c.tail = omega (
      arith,
      bound,
      get-eq compact_tail 16 refl (omega arith) (checked (compact_body c)),
      checked_shape (compact_body c) small,
    ) in
    (
      as_slice (checked (compact_body c)),
      checked (compact_body c),
      build_compact-eq c (omega (arith, bound)),
      checked_slice (compact_body c) small,
      rw (checked-ne-erased (compact_body c) small, get-checked (compact_body c) small)
          (rw (tail_read, ltb-false (window_size f) c.tail ht) refl),
    )
