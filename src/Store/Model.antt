-- ===== src/Store/Model.antt =====
-- crates/store/src/model.rs: what a store promises, as a map from keys to values.
pub mod Content
pub mod Capacity
pub mod Effects
mod Tests
use wasefire.Base.{
  ℕ, ◌+◌, Option, none, some, List, [], ◌∷◌, Bool, true, false, ltb, ◌==◌, if◌then◌else◌, Result,
  ok, err,
}
use wasefire.Store.Types.{
  StoreResult, StoreRatio, StoreUpdate, insert, remove, remaining, invalid_argument, no_capacity,
}
use wasefire.Store.Format.{Format, max_key_index, total_capacity}
use wasefire.Store.Format.Updates.{entry_size, transaction_capacity, transaction_valid}

-- `HashMap<usize, Box<[u8]>>` as an association list. The model never depends on its order.
abbrev pub Content : Type 0
Content = List (ℕ × List ℕ)

unfoldable pub lookup : ℕ → Content → Option (List ℕ)
lookup k [] = none
lookup k ((j, v) ∷ m) = if j == k then some v else lookup k m

-- `HashMap::remove`
unfoldable pub remove_key : ℕ → Content → Content
remove_key k [] = []
remove_key k ((j, v) ∷ m) = let rest = remove_key k m in if j == k then rest else (j, v) ∷ rest

-- `HashMap::insert`
unfoldable pub insert_key : ℕ → List ℕ → Content → Content
unfolding remove_key
insert_key k v m = (k, v) ∷ remove_key k m

-- `HashMap::retain` with the test of `clear`.
unfoldable pub retain_below : ℕ → Content → Content
retain_below min_key [] = []
retain_below min_key ((j, v) ∷ m) =
    let rest = retain_below min_key m in if ltb j min_key then (j, v) ∷ rest else rest

pub record StoreModel : Type 0 where
  pub content : Content
  pub format : Format

pub data StoreOperation : Type 0 where
  transaction : List StoreUpdate → StoreOperation
  clear : ℕ → StoreOperation
  prepare : ℕ → StoreOperation

-- `StoreModel::new`
abbrev pub empty_model : Format → StoreModel
empty_model f = record { content = []; format = f }

unfoldable pub used_words : Content → ℕ
used_words [] = 0
used_words ((k, v) ∷ m) = entry_size v + used_words m

unfoldable pub capacity : StoreModel → StoreRatio
unfolding used_words
capacity s = record { used = used_words s.content; total = total_capacity s.format }

unfoldable pub apply_update : StoreUpdate → Content → Content
unfolding insert_key remove_key
apply_update (insert k v) m = insert_key k v m
apply_update (remove k) m = remove_key k m

unfoldable pub apply_updates : List StoreUpdate → Content → Content
unfolding apply_update
apply_updates [] m = m
apply_updates (u ∷ us) m = apply_updates us (apply_update u m)

-- Each operation returns its result and the model after it.
unfoldable pub apply_transaction :
    StoreModel → List StoreUpdate → StoreResult (Unit {0}) × StoreModel
apply_transaction s updates = elim (transaction_valid s.format updates) [
  | none ↦ (err invalid_argument, s)
  | some _ ↦
      if ltb (remaining (capacity s)) (transaction_capacity updates)
      then (err no_capacity, s)
      else (ok tt, record s { content = apply_updates updates s.content })
]

unfoldable pub apply_clear : StoreModel → ℕ → StoreResult (Unit {0}) × StoreModel
apply_clear s min_key =
    if ltb max_key_index min_key
    then (err invalid_argument, s)
    else (ok tt, record s { content = retain_below min_key s.content })

unfoldable pub apply_prepare : StoreModel → ℕ → StoreResult (Unit {0}) × StoreModel
apply_prepare s size =
    if ltb (remaining (capacity s)) size then (err no_capacity, s) else (ok tt, s)

unfoldable pub apply : StoreModel → StoreOperation → StoreResult (Unit {0}) × StoreModel
unfolding apply_transaction apply_clear apply_prepare
apply s (transaction updates) = apply_transaction s updates
apply s (clear min_key) = apply_clear s min_key
apply s (prepare size) = apply_prepare s size
