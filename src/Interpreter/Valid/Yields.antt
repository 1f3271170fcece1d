-- ===== src/Interpreter/Valid/Yields.antt =====
-- crates/interpreter/src/valid.rs: parsers of the validator that give a verdict, and what holds of
-- their values.
use wasefire.Base.{
  ℕ, zero, suc, ◌≡◌, refl, subst, inl, inr, Bool, true, false, List, arith, if◌then◌else◌,
}
use wasefire.Interpreter.Mode.{Outcome, ok, err, fault, out_of_fuel, check}
use wasefire.Interpreter.Parser.Core.{Parser, ◌>>=◌, ◌>>◌, pure, lift, require}
use wasefire.Interpreter.Parser.Segments.{repeat, parse_vec}
use wasefire.Interpreter.Parser.Parses.{Parses, Outcome-cases, bind-inv}
use wasefire.Interpreter.Parser.Parses.Integers.{parse_u32-Parses}
use wasefire.Interpreter.Valid.Module.{whole}
use wasefire.Interpreter.Valid.Steady.{Decides, Decides-ok, Decides-err, Decides-check}

-- On all bytes `p` gives a value or an error, and `P` holds of the values.
pub record Yields {ℓ} {A : Type ℓ} (P : A → Type 0) (p : Parser A) : Type ℓ where
  pub decides : (xs : List ℕ) → Decides (p xs)
  pub yields : (xs : List ℕ) (a : A) (rest : List ℕ) → p xs ≡ ok (a, rest) → P a

-- Nothing is said of the values.
pub Any {ℓ} : {A : Type ℓ} → A → Type 0
Any a = Unit

module _ {ℓ} {A : Type ℓ} where
  pub Yields-Parses : (n : ℕ) (p q : Parser A) → Parses n p q → Yields Any p
  unfolding Any
  Yields-Parses n p q h = record {
    decides = λ xs. record { safe = h.safe xs; ends = h.ends xs };
    yields = λ xs a rest e. tt;
  }

  pub Yields-Any : (P : A → Type 0) (p : Parser A) → Yields P p → Yields Any p
  unfolding Any
  Yields-Any P p h = record { decides = h.decides; yields = λ xs a rest e. tt }

  pub Yields-pure : (P : A → Type 0) (a : A) → P a → Yields P (pure a)
  unfolding pure
  Yields-pure P a h = record {
    decides = λ xs. Decides-ok (a, xs);
    yields = λ xs b rest e. let same : a ≡ b = ground arith in subst P same h;
  }

  pub Yields-lift :
      (P : A → Type 0) (o : Outcome A) → Decides o → ((a : A) → o ≡ ok a → P a) → Yields P (lift o)
  unfolding lift pure
  Yields-lift P (ok a) h k = Yields-pure P a (k a refl)
  Yields-lift P (err x) h k = record {
    decides = λ xs. Decides-err x;
    yields = λ xs b rest e. absurd (ground arith);
  }
  Yields-lift P fault h k = absurd (h.safe refl)
  Yields-lift P out_of_fuel h k = absurd (h.ends refl)

  pub Yields-if :
      (P : A → Type 0) (b : Bool) (p q : Parser A)
      → Yields P p
      → Yields P q
      → Yields P (if b then p else q)
  Yields-if P true p q h k = h
  Yields-if P false p q h k = k

  -- All the bytes of a section.
  pub whole-Decides :
      (P : A → Type 0) (p : Parser A) → Yields P p → (xs : List ℕ) → Decides (whole p xs)
  unfolding whole
  whole-Decides P p h xs =
      let decided = h.decides xs in
      elim (Outcome-cases (p xs)) [
        | inl ((a, rest), done) ↦ record { safe = λ e. ground arith; ends = λ e. ground arith }
        | inr (inl (x, failed)) ↦ record { safe = λ e. ground arith; ends = λ e. ground arith }
        | inr (inr (inl failed)) ↦ absurd (decided.safe failed)
        | inr (inr (inr failed)) ↦ absurd (decided.ends failed)
      ]

  pub whole-yields :
      (P : A → Type 0) (p : Parser A) → Yields P p → (xs : List ℕ) (a : A) → whole p xs ≡ ok a → P a
  unfolding whole
  whole-yields P p h xs a e = elim (Outcome-cases (p xs)) [
    | inl ((b, rest), done) ↦ h.yields xs a rest (ground arith)
    | inr (inl (x, failed)) ↦ absurd (ground arith)
    | inr (inr (inl failed)) ↦ absurd (ground arith)
    | inr (inr (inr failed)) ↦ absurd (ground arith)
  ]

pub any {ℓ} : {A : Type ℓ} (a : A) → Any a
unfolding Any
any a = tt

pub Yields-Decides {ℓ} : {A : Type ℓ} (o : Outcome A) → Decides o → Yields Any (lift o)
Yields-Decides o h = Yields-lift Any o h λ a e. any a

pub Yields-require : (b : Bool) → Yields (λ _. b ≡ true) (require check b)
unfolding require
Yields-require b = Yields-lift _ _ (Decides-check b) λ a e. ground arith

module _ {ℓ κ} {A : Type ℓ} {B : Type κ} where
  pub Yields-bind :
      (P : A → Type 0) (Q : B → Type 0) (p : Parser A) (f : A → Parser B)
      → Yields P p
      → ((a : A) → P a → Yields Q (f a))
      → Yields Q (p >>= f)
  unfolding ◌>>=◌
  Yields-bind P Q p f h k = record {
    decides = λ xs.
        let decided = h.decides xs in
        elim (Outcome-cases (p xs)) [
          | inl ((a, mid), done) ↦
              let later = (k a (h.yields xs a mid done)).decides mid in
              record {
                safe = λ x. later.safe (ground arith);
                ends = λ x. later.ends (ground arith);
              }
          | inr (inl (x, failed)) ↦ record { safe = λ y. ground arith; ends = λ y. ground arith }
          | inr (inr (inl failed)) ↦ absurd (decided.safe failed)
          | inr (inr (inr failed)) ↦ absurd (decided.ends failed)
        ];
    yields = λ xs b rest e.
        let (a, mid, first, after) = bind-inv p f xs b rest e in
        (k a (h.yields xs a mid first)).yields mid b rest after;
  }

  pub Yields-then :
      (P : A → Type 0) (Q : B → Type 0) (p : Parser A) (q : Parser B)
      → Yields P p
      → ((a : A) → P a → Yields Q q)
      → Yields Q (p >> q)
  unfolding ◌>>◌
  Yields-then P Q p q h k = Yields-bind P Q p (λ _. q) h k

module _ {ℓ} {S : Type ℓ} (P : S → Type 0) (step : S → Parser S)
    (keeps : (s : S) → P s → Yields P (step s)) where
  pub Yields-repeat : (n : ℕ) (s : S) → P s → Yields P (repeat n step s)
  unfolding repeat
  Yields-repeat zero s h = Yields-pure P s h
  Yields-repeat (suc n) s h = Yields-bind P P _ _ (keeps s h) λ s' h'. Yields-repeat n s' h'

  pub Yields-vec : (s : S) → P s → Yields P (parse_vec check step s)
  unfolding parse_vec
  Yields-vec s h =
      Yields-bind Any P _ _ (Yields-Parses 1 _ _ parse_u32-Parses) λ n any. Yields-repeat n s h
