-- ===== src/Store/Bitfield/Field.antt =====
-- crates/store/src/format/bitfield.rs: `Field`.
-- On an error the source leaves the word half written. Each caller drops it with `?`, so here an
-- error carries no word.
use wasefire.Base.{ℕ, ◌-◌, bit_and, bit_or, not, ◌==◌, if◌then◌else◌, ok, err}
use wasefire.Store.Types.{StoreResult, invalid_storage}
use wasefire.Store.Bitfield.{Word, shl32, shr32, not32}

pub record Field : Type 0 where
  pub pos : ℕ
  pub len : ℕ

unfoldable pub mask : Field → ℕ
mask f = shl32 1 f.len - 1

unfoldable pub get : Field → Word → ℕ
get f word = bit_and (shr32 word f.pos) (mask f)

-- The word after `word.0 &= mask | (value << self.pos)`.
unfoldable pub masked : Field → Word → ℕ → Word
masked f word v =
    let keep = not32 (shl32 (mask f) f.pos) in bit_and word (bit_or keep (shl32 v f.pos))

unfoldable pub set : Field → Word → ℕ → StoreResult Word
set f word v =
    if not (bit_and v (mask f) == v)
    then err invalid_storage
    else if not (get f (masked f word v) == v)
    then err invalid_storage
    else ok (masked f word v)
