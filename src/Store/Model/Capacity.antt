-- ===== src/Store/Model/Capacity.antt =====
-- No operation of the model makes it use more words than its capacity.
use wasefire.Base.{◌+◌, ◌≤◌, ◌≡◌, List, [], ◌∷◌, arith, err, Option-cases, inl, inr}
use wasefire.Store.Types.{StoreError, StoreUpdate, insert, remove}
use wasefire.Store.Format.{total_capacity}
use wasefire.Store.Format.Updates.{
  update_capacity, capacity_sum, transaction_capacity, transaction_valid,
}
use wasefire.Store.Model.{
  Content, StoreModel, StoreOperation, transaction, clear, prepare, used_words, capacity,
  apply_update, apply_updates, apply_transaction, apply,
}
use wasefire.Store.Model.Content.{used-remove_key, used-insert_key, used-retain_below}

-- The invariant of `StoreRatio` for the capacity of a model.
pub record IsWithinCapacity (s : StoreModel) : Type 0 where
  pub fits : used_words s.content ≤ total_capacity s.format

used-apply_update :
    (u : StoreUpdate) (m : Content)
    → used_words (apply_update u m) ≤ update_capacity u + used_words m
unfolding update_capacity
used-apply_update (insert k v) m = unfold apply_update in used-insert_key k v m
used-apply_update (remove k) m = unfold apply_update in omega (arith, used-remove_key k m)

used-apply_updates :
    (us : List StoreUpdate) (m : Content)
    → used_words (apply_updates us m) ≤ capacity_sum us + used_words m
unfolding apply_updates capacity_sum
used-apply_updates [] m = omega arith
used-apply_updates (u ∷ us) m =
    omega (arith, used-apply_updates us (apply_update u m), used-apply_update u m)

-- The capacity that a transaction asks for covers the words that it adds.
used-transaction :
    (us : List StoreUpdate) (m : Content)
    → used_words (apply_updates us m) ≤ transaction_capacity us + used_words m
unfolding transaction_capacity
used-transaction [] m = unfold apply_updates in omega arith
used-transaction (insert k v ∷ []) m = unfold apply_updates in used-insert_key k v m
used-transaction (remove k ∷ []) m = unfold apply_updates in omega (arith, used-remove_key k m)
used-transaction (u ∷ w ∷ us) m =
    let sum = used-apply_updates (u ∷ w ∷ us) m in unfold capacity_sum in omega (arith, sum)

-- An operation of the model keeps the used words within the capacity.
pub apply-IsWithinCapacity :
    (s : StoreModel) (op : StoreOperation) → IsWithinCapacity s → IsWithinCapacity (apply s op).1
unfolding apply capacity
apply-IsWithinCapacity s (transaction us) h = elim (Option-cases (transaction_valid s.format us)) [
  | inl e ↦ rw (e, apply_transaction) h
  | inr some_keys ↦ ground (arith, some_keys.1, used-transaction us s.content)
]
apply-IsWithinCapacity s (clear min_key) h = ground (arith, used-retain_below min_key s.content)
apply-IsWithinCapacity s (prepare size) h = ground arith

-- An operation of the model that returns an error leaves it as it was.
pub apply-unchanged :
    (s : StoreModel) (op : StoreOperation) (e : StoreError)
    → (apply s op).0 ≡ err e
    → (apply s op).1 ≡ s
unfolding apply
apply-unchanged s (transaction us) e h = ground arith
apply-unchanged s (clear min_key) e h = ground arith
apply-unchanged s (prepare size) e h = ground arith
