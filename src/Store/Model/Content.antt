-- ===== src/Store/Model/Content.antt =====
-- The laws of the content as a map, and the words that it uses.
use wasefire.Base.{ℕ, ◌+◌, ◌≤◌, ◌≡◌, none, some, List, [], ◌∷◌, ltb, ◌==◌, if◌then◌else◌, arith}
use wasefire.Store.Format.Updates.{entry_size}
use wasefire.Store.Model.{Content, lookup, remove_key, insert_key, retain_below, used_words}

pub lookup-remove_key :
    (k j : ℕ) (m : Content) → lookup j (remove_key k m) ≡ (if k == j then none else lookup j m)
unfolding lookup remove_key
lookup-remove_key k j [] = ground arith
lookup-remove_key k j ((i, v) ∷ m) = ground (arith, lookup-remove_key k j m)

pub lookup-insert_key :
    (k j : ℕ) (v : List ℕ) (m : Content)
    → lookup j (insert_key k v m) ≡ (if k == j then some v else lookup j m)
unfolding lookup insert_key
lookup-insert_key k j v m = ground (arith, lookup-remove_key k j m)

pub lookup-retain_below :
    (min_key j : ℕ) (m : Content)
    → lookup j (retain_below min_key m) ≡ (if ltb j min_key then lookup j m else none)
unfolding lookup retain_below
lookup-retain_below min_key j [] = ground arith
lookup-retain_below min_key j ((i, v) ∷ m) = ground (arith, lookup-retain_below min_key j m)

pub used-remove_key : (k : ℕ) (m : Content) → used_words (remove_key k m) ≤ used_words m
unfolding used_words remove_key
used-remove_key k [] = omega arith
used-remove_key k ((i, v) ∷ m) = ground (arith, used-remove_key k m)

pub used-insert_key :
    (k : ℕ) (v : List ℕ) (m : Content) → used_words (insert_key k v m) ≤ entry_size v + used_words m
unfolding used_words insert_key
used-insert_key k v m = omega (arith, used-remove_key k m)

pub used-retain_below :
    (min_key : ℕ) (m : Content) → used_words (retain_below min_key m) ≤ used_words m
unfolding used_words retain_below
used-retain_below min_key [] = omega arith
used-retain_below min_key ((i, v) ∷ m) = ground (arith, used-retain_below min_key m)
