-- ===== src/Store/Format/Position/Coordinates.antt =====
-- A position and its coordinates: the cycle, the page and the word.
use native.Mathlib.Nat.{mod-lt, div-add-mod', mul-le-mul, le_trans}
use wasefire.Base.{ℕ, ◌+◌, ◌*◌, ◌/◌, ◌%◌, ◌≤◌, ◌<◌, ◌≡◌, ok, arith, div_parts, mod_parts}
use wasefire.Store.Storage.{Geometry, range}
use wasefire.Store.Format.{Format, virt_page_size}
use wasefire.Store.Format.Sizes.{IsSupported, sizes}
use wasefire.Store.Format.Position.{Position, new, cycle, page, word, index}

module _ (f : Format) (s : IsSupported f) where
  page_pos : 0 < virt_page_size f
  page_pos = omega (arith, (sizes f s).virt_page_min)

  pages_pos : 0 < f.num_pages
  pages_pos = omega (arith, s.pages_min)

  -- In a supported format, `Position::new` on the coordinates of a position gives the position back.
  pub new_of_coordinates : (p : Position) → new f (cycle f p) (page f p) (word f p) ≡ p
  unfolding new cycle page word
  new_of_coordinates p =
      let whole : (p.get / virt_page_size f / f.num_pages * f.num_pages
                + p.get / virt_page_size f % f.num_pages)
              * virt_page_size f
            + p.get % virt_page_size f
          ≡ p.get =
        rw (div-add-mod' (p.get / virt_page_size f) f.num_pages)
          (div-add-mod' p.get (virt_page_size f)) in
      λ i. record { get = whole i }

  -- In a supported format, the coordinates of `Position::new` are its arguments, if the cycle is at
  -- most the greatest and the page and the word are in range.
  pub coordinates_of_new :
      (c g w : ℕ)
      → c ≤ f.max_page_erases
      → g < f.num_pages
      → w < virt_page_size f
      → (cycle f (new f c g w) ≡ c) × (page f (new f c g w) ≡ g) × (word f (new f c g w) ≡ w)
  unfolding new cycle page word
  coordinates_of_new c g w hc hg hw =
      rw (div_parts (c * f.num_pages + g) (virt_page_size f) w hw)
        (div_parts c f.num_pages g hg, mod_parts c f.num_pages g hg, mod_parts _ _ w hw)

  -- In a supported format, a position whose coordinates are in range, its cycle at most the
  -- greatest, is below 0xff800000.
  pub new-lt :
      (c g w : ℕ)
      → c ≤ f.max_page_erases
      → g < f.num_pages
      → w < virt_page_size f
      → (new f c g w).get < 0xff80_0000
  unfolding new
  new-lt c g w hc hg hw =
      let pages : c * f.num_pages ≤ 65535 * 64 =
        mul-le-mul {n₂ = 65535} {m₂ = 64} (le_trans hc s.erases_max) s.pages_max in
      let words : (c * f.num_pages + g + 1) * virt_page_size f ≤ 4194304 * 1022 =
        mul-le-mul {n₂ = 4194304} {m₂ = 1022} (omega (arith, pages, s.pages_max))
          (sizes f s).virt_page_max in
      omega (arith, words, hw)

  -- In a supported format, the storage index of a position is an aligned word of its page, behind
  -- the page header, and in range of a storage with the format's pages.
  pub index_in_range :
      (p : Position) (g : Geometry)
      → g.page_size ≡ f.page_size
      → g.num_pages ≡ f.num_pages
      → (8 ≤ (index f p).byte)
        × ((index f p).byte % 4 ≡ 0)
        × (range (index f p) 4 g
            ≡ ok (record {
              start = page f p * f.page_size + (2 + word f p) * 4;
              end = page f p * f.page_size + (2 + word f p) * 4 + 4;
            }))
  unfolding index range page word
  index_in_range p g e₁ e₂ =
      let word_max : p.get % virt_page_size f < virt_page_size f = mod-lt p.get page_pos in
      let page_max : page f p < f.num_pages = mod-lt (p.get / virt_page_size f) pages_pos in
      (
        omega arith,
        omega arith,
        rw (e₁, e₂) (ground (arith, word_max, page_max, s.page_min, s.page_max, s.aligned)),
      )
