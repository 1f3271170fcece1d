-- ===== src/Store/Format/Updates/Validity.antt =====
-- `transaction_valid` accepts exactly the valid transactions, and returns their keys in order.
use mathlib.Core.Path.{subst}
use wasefire.Base.{
  ℕ, ◌≤◌, ◌≡◌, ◌↔◌, refl, sym, ap, ◌∙◌, Bool, true, false, ◌||◌, some, none, List, [], ◌∷◌, ◌==◌,
  ltb, ltb-false, length, ok, err, arith, Bool-cases, inl, inr,
}
use wasefire.Store.Types.{StoreUpdate, key}
use wasefire.Store.Format.{Format, max_value_len}
use wasefire.Store.Format.Updates.{
  binary_search, insert_at, value_length, collect_keys, transaction_valid,
}
use wasefire.Store.Format.Updates.Keys.{
  Above, has, search_found, search_place, or_false, or_left_comm,
}

-- Whether an update of the transaction has the key.
abbrev pub touches : ℕ → List StoreUpdate → Bool
touches k [] = false
touches k (u ∷ us) = (key u == k) || touches k us

-- Each key and value is in range, and no two updates have one key.
abbrev pub IsValid : Format → List StoreUpdate → Type 0
IsValid f [] = Unit
IsValid f (u ∷ us) =
    (key u ≤ 4095)
    × (value_length u ≤ max_value_len f)
    × (touches (key u) us ≡ false)
    × IsValid f us

-- No update has one of the keys.
abbrev Avoids : List StoreUpdate → List ℕ → Type 0
Avoids [] sorted = Unit
Avoids (u ∷ us) sorted = (has (key u) sorted ≡ false) × Avoids us sorted

or_assoc : (a b c : Bool) → (a || (b || c)) ≡ ((a || b) || c)
or_assoc a b c = ground arith

or_nothing : (a : Bool) → (a || false) ≡ a
or_nothing a = ground arith

Avoids-nil : (us : List StoreUpdate) → Avoids us []
Avoids-nil [] = tt
Avoids-nil (u ∷ us) = (refl, Avoids-nil us)

-- One more key, which no later update has.
Avoids-insert :
    (k : ℕ) (us : List StoreUpdate) (old new : List ℕ)
    → ((j : ℕ) → has j new ≡ ((k == j) || has j old))
    → touches k us ≡ false
    → Avoids us old
    → Avoids us new
Avoids-insert k [] old new h t a = tt
Avoids-insert k (u ∷ us) old new h t a =
    let apart = or_false (key u == k) (touches k us) t in
    (h (key u) ∙ ground (arith, apart, a.0), Avoids-insert k us old new h apart.1 a.1)

Avoids-remove :
    (k : ℕ) (us : List StoreUpdate) (old new : List ℕ)
    → ((j : ℕ) → has j new ≡ ((k == j) || has j old))
    → Avoids us new
    → (touches k us ≡ false) × Avoids us old
Avoids-remove k [] old new h a = (refl, tt)
Avoids-remove k (u ∷ us) old new h a =
    let apart = or_false (k == key u) (has (key u) old) (sym (h (key u)) ∙ a.0) in
    let rest = Avoids-remove k us old new h a.1 in
    (ground (arith, apart, rest.0), (apart.1, rest.1))

module _ (f : Format) (u : StoreUpdate) (us : List StoreUpdate) (sorted : List ℕ) where
  step_key : ltb 4095 (key u) ≡ true → collect_keys f (u ∷ us) sorted ≡ none
  unfolding collect_keys
  step_key h = ground arith

  step_value : ltb (max_value_len f) (value_length u) ≡ true → collect_keys f (u ∷ us) sorted ≡ none
  unfolding collect_keys
  step_value h = ground arith

  step_found :
      (i : ℕ) → binary_search sorted (key u) 0 ≡ ok i → collect_keys f (u ∷ us) sorted ≡ none
  unfolding collect_keys
  step_found i h = ground arith

  step_next :
      (i : ℕ)
      → ltb 4095 (key u) ≡ false
      → ltb (max_value_len f) (value_length u) ≡ false
      → binary_search sorted (key u) 0 ≡ err i
      → collect_keys f (u ∷ us) sorted ≡ collect_keys f us (insert_at i (key u) sorted)
  unfolding collect_keys
  step_next i p q r = ground arith

collect_nil : (f : Format) (sorted : List ℕ) → collect_keys f [] sorted ≡ some sorted
unfolding collect_keys
collect_nil f sorted = refl

-- The place of a key that is not there yet.
place :
    (k : ℕ) (sorted : List ℕ)
    → Above 0 sorted
    → has k sorted ≡ false
    → (i : ℕ) × (binary_search sorted k 0 ≡ err i)
      × Above 0 (insert_at i k sorted)
      × ((j : ℕ) → has j (insert_at i k sorted) ≡ ((k == j) || has j sorted))
place k sorted s h =
    let p = search_place k 0 0 sorted s (omega arith) h in
    (p.0, p.1 ∙ ap (λ n. err n) (omega arith), p.2, p.3)

module _ (f : Format) where
  -- The loop succeeds on valid updates that avoid the keys so far.
  collect_complete :
      (us : List StoreUpdate) (sorted : List ℕ)
      → Above 0 sorted
      → IsValid f us
      → Avoids us sorted
      → (keys : List ℕ) × (collect_keys f us sorted ≡ some keys)
  collect_complete [] sorted s v a = (sorted, unfold collect_keys in refl)
  collect_complete (u ∷ us) sorted s v a =
      let p = place (key u) sorted s a.0 in
      let rest =
        collect_complete us (insert_at p.0 (key u) sorted) p.2 v.3
          (Avoids-insert (key u) us sorted (insert_at p.0 (key u) sorted) p.3 v.2 a.1) in
      (rest.0, step_next f u us sorted p.0 (ltb-false _ _ v.0) (ltb-false _ _ v.1) p.1 ∙ rest.1)

  collect_sound :
      (us : List StoreUpdate) (sorted : List ℕ) {keys : List ℕ}
      → Above 0 sorted
      → collect_keys f us sorted ≡ some keys
      → IsValid f us
        × Avoids us sorted
        × Above 0 keys
        × ((j : ℕ) → has j keys ≡ (touches j us || has j sorted))
  collect_sound [] sorted {keys} s e =
      let same : sorted ≡ keys = cc (collect_nil f sorted, e) in
      (tt, tt, subst (Above 0) same s, λ j. ap (has j) (sym same))
  collect_sound (u ∷ us) sorted {keys} s e = elim (Bool-cases (ltb 4095 (key u))) [
    | inl large ↦ cc (step_key f u us sorted large)
    | inr small ↦ elim (Bool-cases (ltb (max_value_len f) (value_length u))) [
      | inl long ↦ cc (step_value f u us sorted long)
      | inr short ↦ elim (Bool-cases (has (key u) sorted)) [
        | inl old ↦
            let found = search_found (key u) 0 0 sorted s old in
            cc (step_found f u us sorted found.0 found.1)
        | inr new ↦
            let p = place (key u) sorted s new in
            let rest =
              collect_sound us (insert_at p.0 (key u) sorted) {keys = keys} p.2
                (sym (step_next f u us sorted p.0 small short p.1) ∙ e) in
            let apart = Avoids-remove (key u) us sorted (insert_at p.0 (key u) sorted) p.3 rest.1 in
            (
              (ground arith, ground arith, apart.0, rest.0),
              (new, apart.1),
              rest.2,
              λ j.
                  rest.3 j
                  ∙ ap (λ b. touches j us || b) (p.3 j)
                  ∙ or_left_comm (touches j us) (key u == j) (has j sorted)
                  ∙ or_assoc (key u == j) (touches j us) (has j sorted),
            )
      ]
    ]
  ]

  -- `transaction_valid` succeeds exactly on the transactions of at most 31 updates, each with its
  -- key at most 4095 and its value at most the longest, no two with one key.
  pub transaction_valid_iff :
      (us : List StoreUpdate)
      → ((keys : List ℕ) × (transaction_valid f us ≡ some keys)) ↔ ((length us ≤ 31) × IsValid f us)
  unfolding transaction_valid
  transaction_valid_iff us = (
    λ r. elim (Bool-cases (ltb 31 (length us))) [
      | inl many ↦ cc (rw many at r.1)
      | inr few ↦ (ground arith, (collect_sound us [] {keys = r.0} tt (rw few at r.1)).0)
    ],
    λ v. rw (ltb-false 31 (length us) v.0) (collect_complete us [] tt v.1 (Avoids-nil us)),
  )

  -- The keys that `transaction_valid` returns are in increasing order without repetitions, and are
  -- exactly the keys of the updates.
  pub transaction_valid_keys :
      (us : List StoreUpdate) (keys : List ℕ)
      → transaction_valid f us ≡ some keys
      → Above 0 keys × ((j : ℕ) → has j keys ≡ touches j us)
  unfolding transaction_valid
  transaction_valid_keys us keys e = elim (Bool-cases (ltb 31 (length us))) [
    | inl many ↦ cc (rw many at e)
    | inr few ↦
        let r = collect_sound us [] {keys = keys} tt (rw few at e) in
        (r.2, λ j. r.3 j ∙ or_nothing (touches j us))
  ]
