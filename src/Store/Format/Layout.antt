-- ===== src/Store/Format/Layout.antt =====
-- crates/store/src/format.rs and format/bitfield.rs: the macro `bitfield!` and the fields that the
-- store declares with it. The constants are what the macro expands to; `Layout.Expansion` runs the
-- macro and compares.
pub mod Expansion
use mathlib.Core.List.{reverse}
use wasefire.Base.{ℕ, ◌+◌, ◌*◌, List, [], ◌∷◌}
use wasefire.Store.Bitfield.{num_bits}
use wasefire.Store.Bitfield.Field.{Field}
use wasefire.Store.Bitfield.ConstField.{ConstField}
use wasefire.Store.Bitfield.Bit.{Bit}
use wasefire.Store.Bitfield.Checksum.{Checksum}

-- What the macro takes: one descriptor for each field, in order.
pub data Descriptor : Type 0 where
  bit : Descriptor
  at_most : ℕ → Descriptor
  checksum : ℕ → Descriptor
  length : Descriptor
  bits : List ℕ → Descriptor

-- What it defines. A `Length` has only a position.
pub data Definition : Type 0 where
  bit_def : Bit → Definition
  field_def : Field → Definition
  checksum_def : Checksum → Definition
  length_def : ℕ → Definition
  const_def : ConstField → Definition

-- The auxiliary rules for constants: the reversed bits give the length and the value.
unfoldable pub const_bits : ℕ → ℕ → ℕ → List ℕ → ConstField
const_bits pos len val [] = record { field = record { pos = pos; len = len }; value = val }
const_bits pos len val (b ∷ rest) = const_bits pos (len + 1) (val * 2 + b) rest

unfoldable pub bitfield : ℕ → List Descriptor → List Definition
unfolding const_bits num_bits
bitfield pos [] = []
bitfield pos (bit ∷ rest) = bit_def (record { pos = pos }) ∷ bitfield (pos + 1) rest
bitfield pos (at_most max ∷ rest) =
    field_def (record { pos = pos; len = num_bits max }) ∷ bitfield (pos + num_bits max) rest
bitfield pos (checksum max ∷ rest) =
    checksum_def (record { field = record { pos = pos; len = num_bits max } })
    ∷ bitfield (pos + num_bits max) rest
bitfield pos (length ∷ rest) = length_def pos ∷ bitfield pos rest
bitfield pos (bits bs ∷ rest) =
    let c = const_bits pos 0 0 (reverse bs) in const_def c ∷ bitfield (pos + c.field.len) rest

abbrev pub word_checksum : Checksum
word_checksum = record { field = record { pos = 27; len = 5 } }

-- The init info and the compact info of a page.
abbrev pub init_cycle : Field
init_cycle = record { pos = 0; len = 16 }

abbrev pub init_prefix : Field
init_prefix = record { pos = 16; len = 9 }

abbrev pub compact_tail : Field
compact_tail = record { pos = 0; len = 16 }

-- The first bits tell the kinds of entries apart.
abbrev pub id_padding : ConstField
id_padding = record { field = record { pos = 0; len = 1 }; value = 0 }

abbrev pub id_header : ConstField
id_header = record { field = record { pos = 0; len = 2 }; value = 1 }

abbrev pub id_erase : ConstField
id_erase = record { field = record { pos = 0; len = 5 }; value = 3 }

abbrev pub id_clear : ConstField
id_clear = record { field = record { pos = 0; len = 5 }; value = 19 }

abbrev pub id_marker : ConstField
id_marker = record { field = record { pos = 0; len = 5 }; value = 11 }

abbrev pub id_remove : ConstField
id_remove = record { field = record { pos = 0; len = 5 }; value = 27 }

-- The fields of the entries.
abbrev pub header_deleted : Bit
header_deleted = record { pos = 2 }

abbrev pub header_flipped : Bit
header_flipped = record { pos = 3 }

abbrev pub header_length : Field
header_length = record { pos = 4; len = 10 }

abbrev pub header_key : Field
header_key = record { pos = 14; len = 12 }

abbrev pub header_checksum : Checksum
header_checksum = record { field = record { pos = 26; len = 6 } }

abbrev pub erase_page : Field
erase_page = record { pos = 5; len = 6 }

abbrev pub clear_min_key : Field
clear_min_key = record { pos = 5; len = 12 }

abbrev pub marker_count : Field
marker_count = record { pos = 5; len = 5 }

abbrev pub remove_key : Field
remove_key = record { pos = 5; len = 12 }
