-- ===== src/Store/Types.antt =====
-- crates/store/src/store.rs: errors, ratios and updates.
use wasefire.Base.{ℕ, ◌-◌, Option, none, some, List, Result, ok_or}
use wasefire.Store.Storage.{StorageError, custom_error, not_aligned, out_of_bounds}

pub data StoreError : Type 0 where
  invalid_argument no_capacity no_lifetime storage_error invalid_storage : StoreError

abbrev pub StoreResult : Type 0 → Type 0
StoreResult A = Result StoreError A

or_invalid : {A : Type 0} → Option A → StoreResult A
or_invalid x = ok_or x invalid_storage

pub record StoreRatio : Type 0 where
  pub used : ℕ
  pub total : ℕ

-- The subtraction does not wrap where `used` is at most `total`, the invariant of a ratio.
abbrev pub remaining : StoreRatio → ℕ
remaining r = r.total - r.used

-- A value is a list of bytes.
pub data StoreUpdate : Type 0 where
  insert : ℕ → List ℕ → StoreUpdate
  remove : ℕ → StoreUpdate

abbrev pub key : StoreUpdate → ℕ
key (insert k v) = k
key (remove k) = k

abbrev pub value : StoreUpdate → Option (List ℕ)
value (insert k v) = some v
value (remove k) = none

-- `From<StorageError>`. `none` is the `unreachable!` on the errors of a call that is not in range.
unfoldable pub from_storage_error : StorageError → Option StoreError
from_storage_error custom_error = some storage_error
from_storage_error not_aligned = none
from_storage_error out_of_bounds = none
