-- ===== src/Store/Bitfield/Tests.antt =====
-- The theorems on bit fields at concrete words.
use wasefire.Base.{◌≡◌, refl, ok, arith}
use wasefire.Store.Bitfield.{Word}
use wasefire.Store.Bitfield.Field
use wasefire.Store.Bitfield.Field.{Field}
use wasefire.Store.Bitfield.Checksum
use wasefire.Store.Bitfield.Checksum.{Checksum}
use wasefire.Store.Bitfield.Replace.{set-eq-replace}
use wasefire.Store.Bitfield.Sums.{checksum_unique}

abbrev middle : Field
middle = record { pos = 3; len = 5 }

abbrev top : Checksum
top = record { field = record { pos = 27; len = 5 } }

-- The field loses three of its five ones.
set-eq-replace_example : Field.set middle 0xffff_ffff 3 ≡ ok 0xffff_ff1f
unfolding Field.get Field.mask wasefire.Store.Bitfield.Replace.replace
set-eq-replace_example = set-eq-replace middle 24 refl (omega arith) 0xffff_ffff 3 (omega arith)

abbrev summed : Word
summed = 0x2fff_fff0

-- Four zeros, and an increment of one.
checksum_unique_example : summed ≡ summed
unfolding Checksum.get Field.get Field.mask Checksum.zeros wasefire.Bits.count_zeros
    wasefire.Bits.count_ones
checksum_unique_example =
    checksum_unique top refl (omega arith) summed summed 1 (omega arith) (omega arith) refl refl
      refl
