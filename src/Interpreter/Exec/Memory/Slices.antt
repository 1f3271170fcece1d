-- ===== src/Interpreter/Exec/Memory/Slices.antt =====
-- crates/interpreter/src/exec.rs: the slices that `Memory` and `Table` copy.
use wasefire.Base.{
  ℕ, zero, suc, ◌+◌, ◌-◌, ◌≤◌, ◌<◌, List, [], ◌∷◌, length, take, drop, replicate, ◌≡◌, refl, ap,
  arith, get_elem?, some, if◌then◌else◌, ltb, ◌⊎◌, inl, inr,
}
use wasefire.Interpreter.Exec.Memory.{splice}

module _ {ℓ} {A : Type ℓ} where
  pub length-splice : (d : ℕ) (ys xs : List A) → length (splice d ys xs) ≡ length xs
  unfolding splice
  length-splice zero [] xs = refl
  length-splice zero (y ∷ ys) [] = refl
  length-splice zero (y ∷ ys) (x ∷ xs) = ap suc (length-splice zero ys xs)
  length-splice (suc d) ys [] = refl
  length-splice (suc d) ys (x ∷ xs) = ap suc (length-splice d ys xs)

  take-drop-splice :
      (d : ℕ) (ys xs : List A)
      → d + length ys ≤ length xs
      → take (length ys) (drop d (splice d ys xs)) ≡ ys
  unfolding splice
  take-drop-splice zero [] xs h = refl
  take-drop-splice zero (y ∷ ys) [] h = absurd (omega arith)
  take-drop-splice zero (y ∷ ys) (x ∷ xs) h =
      ap (λ l. y ∷ l) (take-drop-splice zero ys xs (omega arith))
  take-drop-splice (suc d) ys [] h = absurd (omega arith)
  take-drop-splice (suc d) ys (x ∷ xs) h = take-drop-splice d ys xs (omega arith)

  -- What was written is read.
  pub take-drop-splice_written :
      (d n : ℕ) (ys xs : List A)
      → length ys ≡ n
      → d + n ≤ length xs
      → take n (drop d (splice d ys xs)) ≡ ys
  take-drop-splice_written d n ys xs e h = rw (← e) (take-drop-splice d ys xs (rw e h))

  -- What was not written stays.
  take-drop-splice_below :
      (d : ℕ) (ys xs : List A) (a n : ℕ)
      → a + n ≤ d
      → take n (drop a (splice d ys xs)) ≡ take n (drop a xs)
  unfolding splice
  take-drop-splice_below d ys xs a zero h = refl
  take-drop-splice_below zero ys xs a (suc n) h = absurd (omega arith)
  take-drop-splice_below (suc d) ys [] a n h = refl
  take-drop-splice_below (suc d) ys (x ∷ xs) zero (suc n) h =
      ap (λ l. x ∷ l) (take-drop-splice_below d ys xs zero n (omega arith))
  take-drop-splice_below (suc d) ys (x ∷ xs) (suc a) (suc n) h =
      take-drop-splice_below d ys xs a (suc n) (omega arith)

  drop-splice_above :
      (d : ℕ) (ys xs : List A) (a : ℕ) → d + length ys ≤ a → drop a (splice d ys xs) ≡ drop a xs
  unfolding splice
  drop-splice_above zero [] xs a h = refl
  drop-splice_above zero (y ∷ ys) [] a h = refl
  drop-splice_above zero (y ∷ ys) (x ∷ xs) zero h = absurd (omega arith)
  drop-splice_above zero (y ∷ ys) (x ∷ xs) (suc a) h = drop-splice_above zero ys xs a (omega arith)
  drop-splice_above (suc d) ys [] a h = refl
  drop-splice_above (suc d) ys (x ∷ xs) zero h = absurd (omega arith)
  drop-splice_above (suc d) ys (x ∷ xs) (suc a) h = drop-splice_above d ys xs a (omega arith)

  pub take-drop-splice_apart :
      (d : ℕ) (ys xs : List A) (a n : ℕ)
      → (a + n ≤ d) ⊎ (d + length ys ≤ a)
      → take n (drop a (splice d ys xs)) ≡ take n (drop a xs)
  take-drop-splice_apart d ys xs a n (inl h) = take-drop-splice_below d ys xs a n h
  take-drop-splice_apart d ys xs a n (inr h) = ap (take n) (drop-splice_above d ys xs a h)

module _ {A : Type 0} where
  -- The elements after a splice, one by one.
  pub get_elem?-splice :
      (d : ℕ) (ys xs : List A) (i : ℕ)
      → d + length ys ≤ length xs
      → get_elem? (splice d ys xs) i ≡ (
          if ltb i d
          then get_elem? xs i
          else if ltb i (d + length ys)
          then get_elem? ys (i - d)
          else get_elem? xs i)
  unfolding splice
  get_elem?-splice zero [] xs i h = ground arith
  get_elem?-splice zero (y ∷ ys) [] i h = absurd (omega arith)
  get_elem?-splice zero (y ∷ ys) (x ∷ xs) zero h = ground arith
  get_elem?-splice zero (y ∷ ys) (x ∷ xs) (suc i) h = ground (arith, get_elem?-splice zero ys xs i)
  get_elem?-splice (suc d) ys [] i h = absurd (omega arith)
  get_elem?-splice (suc d) ys (x ∷ xs) zero h = ground arith
  get_elem?-splice (suc d) ys (x ∷ xs) (suc i) h = ground (arith, get_elem?-splice d ys xs i)

  -- The elements of a slice, and of copies of one element.
  pub get_elem?-take-drop :
      (d n : ℕ) (xs : List A) (i : ℕ)
      → d + n ≤ length xs
      → i < n
      → get_elem? (take n (drop d xs)) i ≡ get_elem? xs (d + i)
  get_elem?-take-drop d zero xs i h k = absurd (omega arith)
  get_elem?-take-drop zero (suc n) [] i h k = absurd (omega arith)
  get_elem?-take-drop zero (suc n) (x ∷ xs) zero h k = refl
  get_elem?-take-drop zero (suc n) (x ∷ xs) (suc i) h k =
      ground (arith, get_elem?-take-drop zero n xs i)
  get_elem?-take-drop (suc d) (suc n) [] i h k = absurd (omega arith)
  get_elem?-take-drop (suc d) (suc n) (x ∷ xs) i h k =
      ground (arith, get_elem?-take-drop d (suc n) xs i)

  pub get_elem?-replicate : (n : ℕ) (x : A) (i : ℕ) → i < n → get_elem? (replicate n x) i ≡ some x
  get_elem?-replicate zero x i h = absurd (omega arith)
  get_elem?-replicate (suc n) x zero h = refl
  get_elem?-replicate (suc n) x (suc i) h = get_elem?-replicate n x i (omega arith)
