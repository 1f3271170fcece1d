-- ===== src/Store/Diff.antt =====
-- crates/store/src/store.rs: `is_write_needed`, which decides whether the store writes at all.
mod Tests
use wasefire.Base.{
  ℕ, zero, suc, ◌/◌, ◌^◌, ◌<◌, List, [], ◌∷◌, subst, ==_refl, bit_and, ◌≡◌, ◌≢◌, ◌++◌, ◌∙◌, ◌↔◌,
  refl, ap₂, Bool, true, false, not, ◌==◌, if◌then◌else◌, arith, length, ok, err, ==_iff,
  Bool-cases, inl, inr,
}
use native.Mathlib.Nat.{pow-suc}
use wasefire.Bits.{bit_and-halves, bit_and-le_left}
use wasefire.Store.Types.{StoreResult, invalid_storage}

-- The zip of the source and the target ends with the shorter one.
unfoldable pub is_write_needed : List ℕ → List ℕ → StoreResult Bool
is_write_needed [] target = ok false
is_write_needed (s ∷ source) [] = ok false
is_write_needed (s ∷ source) (t ∷ target) =
    let rest = is_write_needed source target in
    if not (bit_and s t == t) then err invalid_storage else if not (s == t) then ok true else rest

-- Each number is a byte.
unfoldable pub AreBytes : List ℕ → Type 0
AreBytes [] = Unit
AreBytes (x ∷ xs) = (x < 2 ^ 8) × AreBytes xs

bit_and_self : (w x : ℕ) → x < 2 ^ w → bit_and x x ≡ x
bit_and_self zero x h = omega (arith, bit_and-le_left x x)
bit_and_self (suc w) x h =
    omega
      (arith, bit_and-halves x x, bit_and_self w (x / 2) (omega (arith, pow-suc 2 w)), pow-suc 2 w)

write_skipped :
    (source target : List ℕ)
    → length source ≡ length target
    → is_write_needed source target ≡ ok false
    → source ≡ target
unfolding is_write_needed
write_skipped [] [] e h = refl
write_skipped [] (t ∷ target) e h = absurd (omega arith)
write_skipped (s ∷ source) [] e h = absurd (omega arith)
write_skipped (s ∷ source) (t ∷ target) e h =
    let head : s ≡ t = ground arith in
    let tail : source ≡ target = write_skipped source target (omega arith) (ground arith) in
    ap₂ (λ x xs. x ∷ xs) head tail

same_skipped : (source : List ℕ) → AreBytes source → is_write_needed source source ≡ ok false
unfolding is_write_needed AreBytes
same_skipped [] bytes = refl
same_skipped (s ∷ source) bytes =
    rw (bit_and_self 8 s bytes.0, ==_refl s) (same_skipped source bytes.1)

-- On byte slices of one length, no write is needed exactly if they are equal.
is_write_needed_iff :
    (source target : List ℕ)
    → length source ≡ length target
    → AreBytes source
    → (is_write_needed source target ≡ ok false) ↔ (source ≡ target)
is_write_needed_iff source target e bytes = (
  write_skipped source target e,
  λ same. subst (λ t. is_write_needed source t ≡ ok false) same (same_skipped source bytes),
)

same_prefix :
    (same source target : List ℕ)
    → AreBytes same
    → is_write_needed (same ++ source) (same ++ target) ≡ is_write_needed source target
unfolding is_write_needed AreBytes
same_prefix [] source target bytes = refl
same_prefix (s ∷ same) source target bytes =
    rw (bit_and_self 8 s bytes.0, ==_refl s) (same_prefix same source target bytes.1)

difference :
    (s t : ℕ) (source target : List ℕ)
    → s ≢ t
    → is_write_needed (s ∷ source) (t ∷ target)
      ≡ (if bit_and s t == t then ok true else err invalid_storage)
unfolding is_write_needed
difference s t source target differ = ground arith

-- On two slices that agree on some bytes and then differ, `is_write_needed` decides at the first
-- bytes that differ, whatever follows: `Ok(true)` exactly if the target has only ones that the
-- source has, and InvalidStorage exactly if not. On equal bytes it is `Ok(false)`.
is_write_needed_lem :
    (same : List ℕ) (s t : ℕ) (source target : List ℕ)
    → AreBytes same
    → s ≢ t
    → (is_write_needed same same ≡ ok false)
      × ((is_write_needed (same ++ s ∷ source) (same ++ t ∷ target) ≡ ok true) ↔ (bit_and s t ≡ t))
      × ((is_write_needed (same ++ s ∷ source) (same ++ t ∷ target) ≡ err invalid_storage)
          ↔ (bit_and s t ≢ t))
is_write_needed_lem same s t source target bytes differ =
    let found =
      same_prefix same (s ∷ source) (t ∷ target) bytes ∙ difference s t source target differ in
    (
      same_skipped same bytes,
      rw found (λ h. ground arith, λ h. ground arith),
      rw found (λ h. ground arith, λ h. ground arith),
    )
