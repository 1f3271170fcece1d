-- ===== src/Store/Buffer/Slices.antt =====
-- Slices of the storage: reading after overwriting, and bounds of ranges.
use native.Mathlib.Nat.{mul-le-mul_right, div-mul-le_self}
use wasefire.Base.{
  ℕ, zero, suc, ◌+◌, ◌-◌, ◌*◌, ◌≤◌, ◌<◌, inl, inr, ◌≡◌, refl, ap, ◌∙◌, List, [], ◌∷◌, ◌++◌, arith,
  ok, length, get_elem?, take, drop, le_or_lt, length-append, length-take, length-drop,
}
use wasefire.Store.Storage
use wasefire.Store.Storage.{StorageIndex, ByteRange}
use wasefire.Store.Buffer.{BufferStorage, num_pages, geometry, slice, overwrite}

pub length-overwrite :
    (from : ℕ) (bytes xs : List ℕ)
    → from + length bytes ≤ length xs
    → length (overwrite from bytes xs) ≡ length xs
unfolding overwrite
length-overwrite from bytes xs h = omega (
  arith,
  length-append (take from xs) (bytes ++ drop (from + length bytes) xs),
  length-append bytes (drop (from + length bytes) xs),
  length-take from xs,
  length-drop (from + length bytes) xs,
)

take-append : (xs ys : List ℕ) → take (length xs) (xs ++ ys) ≡ xs
take-append [] ys = refl
take-append (x ∷ xs) ys = ap (λ l. x ∷ l) (take-append xs ys)

drop-append : (xs ys : List ℕ) (n : ℕ) → n ≡ length xs → drop n (xs ++ ys) ≡ ys
drop-append [] ys zero e = refl
drop-append [] ys (suc n) e = absurd (omega arith)
drop-append (x ∷ xs) ys zero e = absurd (omega arith)
drop-append (x ∷ xs) ys (suc n) e = drop-append xs ys n (omega arith)

-- What was written is read back.
pub slice-overwrite :
    (from : ℕ) (bytes xs : List ℕ)
    → from ≤ length xs
    → slice from (length bytes) (overwrite from bytes xs) ≡ bytes
unfolding slice overwrite
slice-overwrite from bytes xs h =
    rw
      (drop-append (take from xs) (bytes ++ drop (from + length bytes) xs) from
        (omega (arith, length-take from xs)))
      (take-append bytes (drop (from + length bytes) xs))

pub length-slice :
    (from len : ℕ) (xs : List ℕ) → from + len ≤ length xs → length (slice from len xs) ≡ len
unfolding slice
length-slice from len xs h = omega (arith, length-take len (drop from xs), length-drop from xs)

-- An access inside a page lies in the storage.
pub in_storage :
    (b : BufferStorage) (i : StorageIndex) (len : ℕ)
    → i.page < num_pages b
    → i.byte + len ≤ b.options.page_size
    → i.page * b.options.page_size + i.byte + len ≤ length b.storage
in_storage b i len page byte =
    let pages : num_pages b * b.options.page_size ≤ length b.storage =
      div-mul-le_self (length b.storage) b.options.page_size in
    let below : suc i.page * b.options.page_size ≤ num_pages b * b.options.page_size =
      mul-le-mul_right b.options.page_size page in
    omega (arith, below, pages)

-- An accepted range is an access inside a page.
pub range-in_storage :
    (b : BufferStorage) (i : StorageIndex) (len : ℕ) {r : ByteRange}
    → Storage.range i len (geometry b) ≡ ok r
    → r.start + len ≤ length b.storage
unfolding Storage.range Storage.is_valid
range-in_storage b i len {r} e =
    let start : r.start ≡ i.page * b.options.page_size + i.byte = ground arith in
    rw start (in_storage b i len (ground arith) (ground arith))

get_elem?-append_left :
    (xs ys : List ℕ) (i : ℕ) → i < length xs → get_elem? (xs ++ ys) i ≡ get_elem? xs i
get_elem?-append_left [] ys i h = absurd (omega arith)
get_elem?-append_left (x ∷ xs) ys zero h = refl
get_elem?-append_left (x ∷ xs) ys (suc i) h = get_elem?-append_left xs ys i (omega arith)

get_elem?-append_right :
    (xs ys : List ℕ) (i j : ℕ) → i ≡ length xs + j → get_elem? (xs ++ ys) i ≡ get_elem? ys j
get_elem?-append_right [] ys i j e = ap (get_elem? ys) (omega arith)
get_elem?-append_right (x ∷ xs) ys zero j e = absurd (omega arith)
get_elem?-append_right (x ∷ xs) ys (suc i) j e = get_elem?-append_right xs ys i j (omega arith)

get_elem?-take : (n : ℕ) (xs : List ℕ) (i : ℕ) → i < n → get_elem? (take n xs) i ≡ get_elem? xs i
get_elem?-take zero xs i h = absurd (omega arith)
get_elem?-take (suc n) [] i h = refl
get_elem?-take (suc n) (x ∷ xs) zero h = refl
get_elem?-take (suc n) (x ∷ xs) (suc i) h = get_elem?-take n xs i (omega arith)

get_elem?-drop :
    (n : ℕ) (xs : List ℕ) (i j : ℕ) → i ≡ n + j → get_elem? (drop n xs) j ≡ get_elem? xs i
get_elem?-drop zero xs i j e = ap (get_elem? xs) (omega arith)
get_elem?-drop (suc n) [] i j e = refl
get_elem?-drop (suc n) (x ∷ xs) zero j e = absurd (omega arith)
get_elem?-drop (suc n) (x ∷ xs) (suc i) j e = get_elem?-drop n xs i j (omega arith)

-- Overwriting keeps the bytes outside the range.
pub get_elem?-overwrite :
    (from : ℕ) (bytes xs : List ℕ) (i : ℕ)
    → from + length bytes ≤ length xs
    → ¬ ((from ≤ i) × (i < from + length bytes))
    → get_elem? (overwrite from bytes xs) i ≡ get_elem? xs i
unfolding overwrite
get_elem?-overwrite from bytes xs i fits out = elim (le_or_lt from i) [
  | inr before ↦
      get_elem?-append_left (take from xs) (bytes ++ drop (from + length bytes) xs) i
        (omega (arith, length-take from xs))
      ∙ get_elem?-take from xs i before
  | inl after ↦
      get_elem?-append_right (take from xs) (bytes ++ drop (from + length bytes) xs) i (i - from)
        (omega (arith, length-take from xs))
      ∙ (get_elem?-append_right bytes (drop (from + length bytes) xs) (i - from)
            (i - (from + length bytes)) (ground (arith, out))
          ∙ get_elem?-drop (from + length bytes) xs i (i - (from + length bytes))
              (ground (arith, out)))
]
