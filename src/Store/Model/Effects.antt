-- ===== src/Store/Model/Effects.antt =====
-- What a client of the model sees after an operation that succeeds.
use mathlib.Core.Path.{subst}
use wasefire.Base.{==_iff, ==_refl, ltb-false}
use wasefire.Base.{
  ℕ, ◌≤◌, ◌≡◌, refl, ap, ◌∙◌, Option, none, some, true, false, List, [], ◌∷◌, ltb, ◌==◌,
  if◌then◌else◌, length, arith, ok, err, Option-cases, Bool-cases, inl, inr, ◌↔◌,
}
use wasefire.Store.Types.{
  StoreUpdate, insert, remove, key, value, remaining, invalid_argument, no_capacity,
}
use wasefire.Store.Format.{Format}
use wasefire.Store.Format.Updates.{transaction_capacity, transaction_valid}
use wasefire.Store.Format.Updates.Validity.{IsValid, touches, transaction_valid_iff}
use wasefire.Store.Model.{
  Content, lookup, StoreModel, StoreOperation, transaction, clear, prepare, capacity, apply_update,
  apply_updates, apply_transaction, apply, retain_below, insert_key, remove_key,
}
use wasefire.Store.Model.Content.{lookup-insert_key, lookup-remove_key, lookup-retain_below}

-- The value of a key after a transaction: that of the update of the key, if there is one.
abbrev pub after : ℕ → List StoreUpdate → Option (List ℕ) → Option (List ℕ)
after k [] old = old
after k (u ∷ us) old = if key u == k then value u else after k us old

lookup-apply_update :
    (k : ℕ) (u : StoreUpdate) (m : Content)
    → lookup k (apply_update u m) ≡ (if key u == k then value u else lookup k m)
unfolding apply_update
lookup-apply_update k (insert j v) m = lookup-insert_key j k v m
lookup-apply_update k (remove j) m = lookup-remove_key j k m

-- A key that no update touches keeps its value.
after-untouched :
    (k : ℕ) (us : List StoreUpdate) (old : Option (List ℕ))
    → touches k us ≡ false
    → after k us old ≡ old
after-untouched k [] old h = refl
after-untouched k (u ∷ us) old h = ground (arith, after-untouched k us old)

-- With one update for each key the order of the updates does not matter.
lookup-apply_updates :
    (f : Format) (k : ℕ) (us : List StoreUpdate) (m : Content)
    → IsValid f us
    → lookup k (apply_updates us m) ≡ after k us (lookup k m)
unfolding apply_updates
lookup-apply_updates f k [] m v = refl
lookup-apply_updates f k (u ∷ us) m v =
    lookup-apply_updates f k us (apply_update u m) v.3 ∙ last_write
  where
    last_write :
        after k us (lookup k (apply_update u m))
        ≡ (if key u == k then value u else after k us (lookup k m))
    last_write = elim (Bool-cases (key u == k)) [
      | inl same ↦
          let u_is_k : key u ≡ k = (==_iff (key u) k).0 same in
          rw (lookup-apply_update k u m, same)
            (after-untouched k us (value u) (subst (λ n. touches n us ≡ false) u_is_k v.2))
      | inr other ↦ rw (lookup-apply_update k u m, other) refl
    ]

module _ (s : StoreModel) (us : List StoreUpdate) where
  transaction_invalid :
      transaction_valid s.format us ≡ none → (apply s (transaction us)).0 ≡ err invalid_argument
  unfolding apply
  transaction_invalid h = rw (h, apply_transaction) refl

  transaction_full :
      (keys : List ℕ)
      → transaction_valid s.format us ≡ some keys
      → ltb (remaining (capacity s)) (transaction_capacity us) ≡ true
      → (apply s (transaction us)).0 ≡ err no_capacity
  unfolding apply
  transaction_full keys h full = ground arith

  transaction_done :
      (keys : List ℕ)
      → transaction_valid s.format us ≡ some keys
      → ltb (remaining (capacity s)) (transaction_capacity us) ≡ false
      → apply s (transaction us) ≡ (ok tt, record s { content = apply_updates us s.content })
  unfolding apply
  transaction_done keys h room = ground arith

  -- A transaction succeeds exactly if it has at most 31 updates, they are valid, and the capacity
  -- that it needs remains.
  pub transaction_ok_iff : ((apply s (transaction us)).0 ≡ ok tt) ↔ (
      (length us ≤ 31) × IsValid s.format us × (transaction_capacity us ≤ remaining (capacity s)))
  transaction_ok_iff = (only_if, λ h. if_valid h)
    where
      only_if :
          (apply s (transaction us)).0 ≡ ok tt
          → (length us ≤ 31)
            × IsValid s.format us
            × (transaction_capacity us ≤ remaining (capacity s))
      only_if h = elim (Option-cases (transaction_valid s.format us)) [
        | inl bad ↦ cc (transaction_invalid bad)
        | inr (keys, good) ↦
            elim (Bool-cases (ltb (remaining (capacity s)) (transaction_capacity us))) [
              | inl full ↦ cc (transaction_full keys good full)
              | inr room ↦
                  let valid = (transaction_valid_iff s.format us).0 (keys, good) in
                  (valid.0, valid.1, ground arith)
            ]
      ]

      if_valid :
          (length us ≤ 31)
            × IsValid s.format us
            × (transaction_capacity us ≤ remaining (capacity s))
          → (apply s (transaction us)).0 ≡ ok tt
      if_valid h =
          let keys = (transaction_valid_iff s.format us).1 (h.0, h.1) in
          ap (λ r. r.0) (transaction_done keys.0 keys.1 (ltb-false _ _ h.2))

  -- After a transaction that succeeds, each key that an update inserts has the value inserted, each
  -- key that one removes has none, and every other key has the value that it had.
  pub lookup-transaction :
      (k : ℕ)
      → (apply s (transaction us)).0 ≡ ok tt
      → lookup k (apply s (transaction us)).1.content ≡ after k us (lookup k s.content)
  lookup-transaction k h =
      let valid = transaction_ok_iff.0 h in
      let keys = (transaction_valid_iff s.format us).1 (valid.0, valid.1) in
      rw (transaction_done keys.0 keys.1 (ltb-false _ _ valid.2))
        (lookup-apply_updates s.format k us s.content valid.1)

-- After a clear that succeeds, the keys below the limit have their values, and no other key has one.
pub lookup-clear :
    (s : StoreModel) (min_key k : ℕ)
    → (apply s (clear min_key)).0 ≡ ok tt
    → lookup k (apply s (clear min_key)).1.content
      ≡ (if ltb k min_key then lookup k s.content else none)
unfolding apply
lookup-clear s min_key k h = ground (arith, lookup-retain_below min_key k s.content)

-- No key stands twice in the content: the list is a map.
abbrev pub IsMap : Content → Type 0
IsMap [] = Unit
IsMap ((k, v) ∷ m) = (lookup k m ≡ none) × IsMap m

IsMap-remove_key : (k : ℕ) (m : Content) → IsMap m → IsMap (remove_key k m)
unfolding remove_key
IsMap-remove_key k [] h = tt
IsMap-remove_key k ((j, v) ∷ m) h =
    ground (arith, IsMap-remove_key k m h.1, lookup-remove_key k j m)

IsMap-retain_below : (min_key : ℕ) (m : Content) → IsMap m → IsMap (retain_below min_key m)
unfolding retain_below
IsMap-retain_below min_key [] h = tt
IsMap-retain_below min_key ((j, v) ∷ m) h =
    ground (arith, IsMap-retain_below min_key m h.1, lookup-retain_below min_key j m)

IsMap-apply_updates : (us : List StoreUpdate) (m : Content) → IsMap m → IsMap (apply_updates us m)
unfolding apply_updates apply_update insert_key
IsMap-apply_updates [] m h = h
IsMap-apply_updates (insert k v ∷ us) m h =
    IsMap-apply_updates us ((k, v) ∷ remove_key k m)
      (rw (lookup-remove_key k k m, ==_refl k) refl, IsMap-remove_key k m h)
IsMap-apply_updates (remove k ∷ us) m h =
    IsMap-apply_updates us (remove_key k m) (IsMap-remove_key k m h)

-- An operation of the model keeps the keys distinct.
apply-IsMap :
    (s : StoreModel) (op : StoreOperation) → IsMap s.content → IsMap (apply s op).1.content
unfolding apply
apply-IsMap s (transaction us) h = ground (arith, IsMap-apply_updates us s.content)
apply-IsMap s (clear min_key) h = ground (arith, IsMap-retain_below min_key s.content)
apply-IsMap s (prepare size) h = ground arith
