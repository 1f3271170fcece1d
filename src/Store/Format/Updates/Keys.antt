-- ===== src/Store/Format/Updates/Keys.antt =====
-- Sorted lists of keys: the search and the insertion.
use wasefire.Base.{
  ℕ, suc, ◌+◌, ◌≤◌, ◌≡◌, refl, ap, ◌∙◌, Bool, true, false, ◌||◌, List, [], ◌∷◌, ◌==◌, ltb,
  ltb-false, ok, err, arith, Bool-cases, inl, inr,
}
use wasefire.Store.Format.Updates.{binary_search, insert_at}

-- In increasing order without repetitions, from `lo` on.
abbrev pub Above : ℕ → List ℕ → Type 0
Above lo [] = Unit
Above lo (x ∷ xs) = (lo ≤ x) × Above (suc x) xs

abbrev pub has : ℕ → List ℕ → Bool
has k [] = false
has k (x ∷ xs) = (x == k) || has k xs

Above-has : (lo k : ℕ) (xs : List ℕ) → Above lo xs → has k xs ≡ true → lo ≤ k
Above-has lo k [] s h = cc
Above-has lo k (x ∷ xs) s h = ground (arith, Above-has (suc x) k xs s.1)

or_right : {a b : Bool} → a ≡ false → (a || b) ≡ true → b ≡ true
or_right p q = ground arith

pub or_false : (a b : Bool) → (a || b) ≡ false → (a ≡ false) × (b ≡ false)
or_false a b h = ground arith

pub or_left_comm : (a b c : Bool) → (a || (b || c)) ≡ (b || (a || c))
or_left_comm a b c = ground arith

pub search_found :
    (k pos lo : ℕ) (xs : List ℕ)
    → Above lo xs
    → has k xs ≡ true
    → (i : ℕ) × (binary_search xs k pos ≡ ok i)
unfolding binary_search
search_found k pos lo [] s h = cc
search_found k pos lo (x ∷ xs) s h = elim (Bool-cases (x == k)) [
  | inl here ↦ (pos, rw here refl)
  | inr there ↦
      let later : has k xs ≡ true = or_right there h in
      let large : ltb k x ≡ false =
        ltb-false k x (omega (arith, Above-has (suc x) k xs s.1 later)) in
      rw (there, large) (search_found k (suc pos) (suc x) xs s.1 later)
]

-- A key that is not found has a place that keeps the order.
pub search_place :
    (k pos lo : ℕ) (xs : List ℕ)
    → Above lo xs
    → lo ≤ k
    → has k xs ≡ false
    → (i : ℕ) × (binary_search xs k pos ≡ err (pos + i))
      × Above lo (insert_at i k xs)
      × ((j : ℕ) → has j (insert_at i k xs) ≡ ((k == j) || has j xs))
unfolding binary_search insert_at
search_place k pos lo [] s b h = (0, ap (λ n. err n) (omega arith), (b, tt), λ j. refl)
search_place k pos lo (x ∷ xs) s b h =
    let parts : ((x == k) ≡ false) × (has k xs ≡ false) = or_false (x == k) (has k xs) h in
    elim (Bool-cases (ltb k x)) [
      | inl before ↦
          let small : suc k ≤ x = ground arith in
          (0, rw parts.0 (rw before (ap (λ n. err n) (omega arith))), (b, (small, s.1)), λ j. refl)
      | inr after ↦
          let large : suc x ≤ k = ground arith in
          let rest = search_place k (suc pos) (suc x) xs s.1 large parts.1 in
          (
            suc rest.0,
            rw parts.0 (rw after (rest.1 ∙ ap (λ n. err n) (omega arith))),
            (s.0, rest.2),
            λ j. rw (rest.3 j) (or_left_comm (x == j) (k == j) (has j xs)),
          )
    ]
