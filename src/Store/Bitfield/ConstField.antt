-- ===== src/Store/Bitfield/ConstField.antt =====
-- crates/store/src/format/bitfield.rs: `ConstField`.
use wasefire.Base.{ℕ, Bool, ◌==◌}
use wasefire.Store.Types.{StoreResult}
use wasefire.Store.Bitfield.{Word}
use wasefire.Store.Bitfield.Field
use wasefire.Store.Bitfield.Field.{Field}

pub record ConstField : Type 0 where
  pub field : Field
  pub value : ℕ

unfoldable pub check : ConstField → Word → Bool
check c word = Field.get c.field word == c.value

unfoldable pub set : ConstField → Word → StoreResult Word
set c word = Field.set c.field word c.value
