-- ===== src/Store/Model/Tests.antt =====
-- The theorems on the model at concrete stores.
use wasefire.Base.{◌≤◌, ◌≡◌, ◌↔◌, refl, some, List, [], ◌∷◌, length, ok, arith}
use wasefire.Store.Types.{StoreUpdate, insert, remove, invalid_argument, remaining}
use wasefire.Store.Format.{Format}
use wasefire.Store.Format.Updates.{transaction_capacity}
use wasefire.Store.Format.Updates.Validity.{IsValid}
use wasefire.Store.Model.{
  Content, lookup, StoreModel, transaction, clear, prepare, capacity, apply, empty_model,
}
use wasefire.Store.Model.Capacity.{IsWithinCapacity, apply-IsWithinCapacity, apply-unchanged}
use wasefire.Store.Model.Effects.{transaction_ok_iff, lookup-transaction, lookup-clear}

-- Three pages of 64 bytes.
abbrev small : Format
small = record { page_size = 64; num_pages = 3; max_page_erases = 100 }

abbrev store : StoreModel
store = record { content = (3, 1 ∷ 2 ∷ []) ∷ (5, 9 ∷ []) ∷ []; format = small }

abbrev updates : List StoreUpdate
updates = insert 3 (7 ∷ []) ∷ remove 5 ∷ insert 8 [] ∷ []

lookup-transaction_example : lookup 3 (apply store (transaction updates)).1.content ≡ some (7 ∷ [])
unfolding apply wasefire.Store.Format.Updates.transaction_valid
    wasefire.Store.Format.Updates.collect_keys wasefire.Store.Format.Updates.binary_search
    wasefire.Store.Format.Updates.insert_at capacity transaction_capacity
lookup-transaction_example = lookup-transaction store updates 3 refl

transaction_ok_iff_example : ((apply store (transaction updates)).0 ≡ ok tt) ↔ (
    (length updates ≤ 31)
    × IsValid small updates
    × (transaction_capacity updates ≤ remaining (capacity store)))
transaction_ok_iff_example = transaction_ok_iff store updates

lookup-clear_example : lookup 3 (apply store (clear 5)).1.content ≡ some (1 ∷ 2 ∷ [])
unfolding apply lookup
lookup-clear_example = lookup-clear store 5 3 refl

apply-IsWithinCapacity_example : IsWithinCapacity (apply store (transaction updates)).1
unfolding wasefire.Store.Model.used_words
apply-IsWithinCapacity_example =
    apply-IsWithinCapacity store (transaction updates) (record { fits = omega arith })

apply-unchanged_example : (apply store (clear 4096)).1 ≡ store
unfolding apply
apply-unchanged_example = apply-unchanged store (clear 4096) invalid_argument refl
