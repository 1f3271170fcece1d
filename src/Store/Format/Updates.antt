-- ===== src/Store/Format/Updates.antt =====
-- crates/store/src/format.rs: the capacity and the validity of a transaction.
pub mod Keys
pub mod Validity
use wasefire.Base.{
  ℕ, zero, suc, ◌+◌, Bool, true, false, Option, none, some, List, [], ◌∷◌, ltb, ◌==◌, if◌then◌else◌,
  length, Result, ok, err,
}
use wasefire.Store.Types.{StoreUpdate, insert, remove, key, value}
use wasefire.Store.Format.{
  Format, max_key_index, max_transaction_updates, max_value_len, bytes_to_words,
}

abbrev pub entry_size : List ℕ → ℕ
entry_size v = 1 + bytes_to_words (length v)

unfoldable pub update_capacity : StoreUpdate → ℕ
update_capacity (insert k v) = entry_size v
update_capacity (remove k) = 1

unfoldable pub capacity_sum : List StoreUpdate → ℕ
unfolding update_capacity
capacity_sum [] = 0
capacity_sum (u ∷ us) = update_capacity u + capacity_sum us

-- One update needs no marker, and a single removal needs nothing.
unfoldable pub transaction_capacity : List StoreUpdate → ℕ
unfolding capacity_sum
transaction_capacity [] = 0
transaction_capacity (insert k v ∷ []) = entry_size v
transaction_capacity (remove k ∷ []) = 0
transaction_capacity (u ∷ w ∷ us) = 1 + capacity_sum (u ∷ w ∷ us)

-- `binary_search` of the standard library, on a slice in increasing order without repetitions:
-- `ok` with the position of the key, or `err` with the position at which to insert it.
-- The position counts from `pos`.
unfoldable pub binary_search : List ℕ → ℕ → ℕ → Result ℕ ℕ
binary_search [] k pos = err pos
binary_search (x ∷ xs) k pos =
    if x == k then ok pos else if ltb k x then err pos else binary_search xs k (suc pos)

-- `Vec::insert`
unfoldable pub insert_at : ℕ → ℕ → List ℕ → List ℕ
insert_at zero k xs = k ∷ xs
insert_at (suc i) k [] = k ∷ []
insert_at (suc i) k (x ∷ xs) = x ∷ insert_at i k xs

abbrev pub value_length : StoreUpdate → ℕ
value_length (insert k v) = length v
value_length (remove k) = 0

module _ (f : Format) where
  -- The loop of `transaction_valid` over the updates, with the keys so far.
  unfoldable pub collect_keys : List StoreUpdate → List ℕ → Option (List ℕ)
  collect_keys [] sorted = some sorted
  collect_keys (u ∷ us) sorted = elim (ltb max_key_index (key u)) [
    | true ↦ none
    | false ↦ elim (ltb (max_value_len f) (value_length u)) [
      | true ↦ none
      | false ↦ elim (binary_search sorted (key u) 0) [
        | ok _ ↦ none
        | err pos ↦ collect_keys us (insert_at pos (key u) sorted)
      ]
    ]
  ]

  unfoldable pub transaction_valid : List StoreUpdate → Option (List ℕ)
  transaction_valid updates =
      if ltb max_transaction_updates (length updates) then none else collect_keys updates []
