-- ===== src/Store/Format/Tests.antt =====
-- The theorems on the format at the storage of a Nordic board: 20 pages of 4096 bytes.
use wasefire.Base.{
  ℕ, ◌≤◌, ◌<◌, ◌+◌, ◌*◌, ◌%◌, ◌^◌, ◌≡◌, ◌↔◌, refl, some, false, List, [], ◌∷◌, length, ok, arith,
}
use wasefire.Store.Types.{StoreUpdate, insert, remove}
use wasefire.Store.Storage.{Geometry, range}
use wasefire.Store.Bitfield.{Word}
use wasefire.Store.Format
use wasefire.Store.Format.{Format, virt_page_size, max_prefix_len}
use wasefire.Store.Format.Sizes.{IsSupported, SizeBounds, sizes}
use wasefire.Store.Format.Layout.Expansion.{num_bits-least}
use wasefire.Store.Bitfield.{num_bits}
use wasefire.Store.Format.Position
use wasefire.Store.Format.Position.{Position}
use wasefire.Store.Format.Position.Coordinates.{
  new_of_coordinates, coordinates_of_new, new-lt, index_in_range,
}
use wasefire.Store.Format.Words.{
  InitInfo, CompactInfo, Header, valid, header, internal, InternalEntry, clear, as_slice,
  from_slice, build_init, build_compact, build_internal, build_user, build_header, parse_init,
  parse_compact, parse_word,
}
use wasefire.Store.Format.Words.Pages.{parse_init-build_init, parse_compact-build_compact}
use wasefire.Store.Format.Words.Torn.{torn_init, torn_internal}
use wasefire.Store.Format.Words.Entries.{parse_word-build_internal}
use wasefire.Store.Format.Words.Headers.{parse_word-build_header}
use wasefire.Store.Format.Words.Users.{IsEntry, build_user_lem}
use wasefire.Store.Format.Updates.{transaction_valid}
use wasefire.Store.Format.Updates.Keys.{Above, has}
use wasefire.Store.Format.Updates.Validity.{
  IsValid, touches, transaction_valid_iff, transaction_valid_keys,
}

abbrev board : Format
board = record { page_size = 4096; num_pages = 20; max_page_erases = 10000 }

board-IsSupported : IsSupported board
board-IsSupported = record {
  aligned = refl;
  page_min = omega arith;
  page_max = omega arith;
  pages_min = omega arith;
  pages_max = omega arith;
  erases_max = omega arith;
}

abbrev flash : Geometry
flash = record {
  word_size = 4;
  page_size = 4096;
  num_pages = 20;
  max_word_writes = 2;
  max_page_erases = 10000;
}

sizes_example : SizeBounds board
sizes_example = sizes board board-IsSupported

num_bits-least_example : (4095 < 2 ^ num_bits 4095) × ((n : ℕ) → 4095 < 2 ^ n → num_bits 4095 ≤ n)
num_bits-least_example = num_bits-least 4095 (omega arith)

abbrev place : Position
place = record { get = 123456 }

new_of_coordinates_example :
    Position.new board
      (Position.cycle board place)
      (Position.page board place)
      (Position.word board place)
    ≡ place
new_of_coordinates_example = new_of_coordinates board board-IsSupported place

coordinates_of_new_example :
    (Position.cycle board (Position.new board 7 19 1021) ≡ 7)
    × (Position.page board (Position.new board 7 19 1021) ≡ 19)
    × (Position.word board (Position.new board 7 19 1021) ≡ 1021)
coordinates_of_new_example =
    coordinates_of_new board board-IsSupported 7 19 1021 (omega arith) (omega arith) (omega arith)

new-lt_example : (Position.new board 10000 19 1021).get < 0xff80_0000
new-lt_example =
    new-lt board board-IsSupported 10000 19 1021 (omega arith) (omega arith) (omega arith)

index_in_range_example :
    (8 ≤ (Position.index board place).byte)
    × ((Position.index board place).byte % 4 ≡ 0)
    × (range (Position.index board place) 4 flash
        ≡ ok (record {
          start = Position.page board place * 4096 + (2 + Position.word board place) * 4;
          end = Position.page board place * 4096 + (2 + Position.word board place) * 4 + 4;
        }))
index_in_range_example = index_in_range board board-IsSupported place flash refl refl

abbrev info : InitInfo
info = record { cycle = 9; prefix = 3 }

parse_init-build_init_example :
    (bytes : List ℕ) × (w : Word) × (build_init info ≡ ok bytes)
    × (from_slice bytes ≡ some w)
    × (parse_init board w ≡ ok (valid info))
parse_init-build_init_example =
    parse_init-build_init board info board-IsSupported (omega arith) (omega arith)

abbrev tail : CompactInfo
tail = record { tail = 5 }

parse_compact-build_compact_example :
    (bytes : List ℕ) × (w : Word) × (build_compact tail ≡ ok bytes)
    × (from_slice bytes ≡ some w)
    × (parse_compact board w ≡ ok (valid tail))
parse_compact-build_compact_example =
    parse_compact-build_compact board tail board-IsSupported (omega arith)

parse_word-build_internal_example :
    (bytes : List ℕ) × (w : Word) × (build_internal (clear 12) ≡ ok bytes)
    × (from_slice bytes ≡ some w)
    × (parse_word board w ≡ ok (valid (internal (clear 12))))
unfolding wasefire.Store.Format.Words.invalid_internal
parse_word-build_internal_example =
    parse_word-build_internal board (clear 12) board-IsSupported refl

abbrev head : Header
head = record { flipped = false; length = 6; key = 17; checksum = 2 }

parse_word-build_header_example :
    (w : Word) × (build_header false 6 17 2 ≡ ok w)
    × (parse_word board w ≡ ok (valid (header head)))
parse_word-build_header_example =
    parse_word-build_header head
      (record { length_max = omega arith; key_max = omega arith; checksum_max = omega arith }) board

build_user_lem_example :
    (bytes : List ℕ) × (build_user 17 (1 ∷ 2 ∷ 3 ∷ 4 ∷ 255 ∷ []) ≡ ok bytes)
    × IsEntry board 17 (1 ∷ 2 ∷ 3 ∷ 4 ∷ 255 ∷ []) bytes
build_user_lem_example =
    build_user_lem board 17 (1 ∷ 2 ∷ 3 ∷ 4 ∷ 255 ∷ []) (omega arith) (omega arith)

abbrev updates : List StoreUpdate
updates = insert 9 (1 ∷ []) ∷ remove 2 ∷ insert 5 [] ∷ []

transaction_valid_iff_example :
    ((keys : List ℕ) × (transaction_valid board updates ≡ some keys))
    ↔ ((length updates ≤ 31) × IsValid board updates)
transaction_valid_iff_example = transaction_valid_iff board updates

transaction_valid_keys_example :
    Above 0 (2 ∷ 5 ∷ 9 ∷ []) × ((j : ℕ) → has j (2 ∷ 5 ∷ 9 ∷ []) ≡ touches j updates)
unfolding transaction_valid wasefire.Store.Format.Updates.collect_keys
    wasefire.Store.Format.Updates.binary_search wasefire.Store.Format.Updates.insert_at
transaction_valid_keys_example = transaction_valid_keys board updates (2 ∷ 5 ∷ 9 ∷ []) refl

abbrev clear_word : Word
clear_word = 0x67fe0193

torn_internal_example : (clear_word ≡ clear_word) × (internal (clear 12) ≡ internal (clear 12))
unfolding wasefire.Store.Format.Words.invalid_internal build_internal
    wasefire.Store.Format.Words.build_kind wasefire.Store.Bitfield.ConstField.set
    wasefire.Store.Bitfield.Field.set wasefire.Store.Bitfield.Field.mask
    wasefire.Store.Bitfield.Field.get wasefire.Store.Bitfield.Field.masked
    wasefire.Store.Bitfield.Checksum.set wasefire.Bits.count_zeros wasefire.Bits.count_ones as_slice
    from_slice parse_word wasefire.Store.Bitfield.ConstField.check
    wasefire.Store.Format.Words.finish_word wasefire.Store.Bitfield.Checksum.get
    wasefire.Store.Bitfield.Checksum.zeros
torn_internal_example =
    torn_internal board (clear 12) (internal (clear 12)) (147 ∷ 1 ∷ 254 ∷ 103 ∷ []) clear_word
      clear_word board-IsSupported refl refl refl (omega arith) refl refl

abbrev info_word : Word
info_word = 0xae030009

torn_init_example : (info_word ≡ info_word) × (info ≡ info)
unfolding build_init wasefire.Store.Bitfield.Field.set wasefire.Store.Bitfield.Field.mask
    wasefire.Store.Bitfield.Field.get wasefire.Store.Bitfield.Field.masked
    wasefire.Store.Bitfield.Checksum.set wasefire.Bits.count_zeros wasefire.Bits.count_ones as_slice
    from_slice parse_init wasefire.Store.Bitfield.Checksum.get
    wasefire.Store.Bitfield.Checksum.zeros
torn_init_example =
    torn_init board info info (9 ∷ 0 ∷ 3 ∷ 174 ∷ []) info_word info_word board-IsSupported
      (omega arith) (omega arith) refl refl (omega arith) refl refl
