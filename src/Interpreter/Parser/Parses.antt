-- ===== src/Interpreter/Parser/Parses.antt =====
-- crates/interpreter/src/parser.rs: what holds of the methods of the parser, with one rule for
-- each way to build one.
pub mod Bytes
pub mod Integers
pub mod Types
pub mod Instr
use wasefire.Base.{
  ℕ, zero, suc, ◌+◌, ◌≤◌, ◌≡◌, ◌≢◌, refl, ◌∙◌, ◌⊎◌, inl, inr, Bool, true, false, List, Option, none,
  some, length, arith, if◌then◌else◌,
}
use wasefire.Interpreter.Mode.{
  Mode, Error, check, use_, Outcome, ok, err, fault, out_of_fuel, mode_check, mode_open,
  mode_invalid, mode_unsupported,
}
use wasefire.Interpreter.Parser.Core.{Parser, ◌>>=◌, ◌>>◌, pure, lift, require, total}

-- Of a method in the mode `Check`, `p`, and in the mode `Use`, `q`: a success takes `n` bytes at
-- least, what `p` accepts, `q` reads in the same way, `p` never panics, and neither diverges.
pub record Parses {ℓ} {A : Type ℓ} (n : ℕ) (p q : Parser A) : Type ℓ where
  pub takes :
      (xs : List ℕ) (a : A) (rest : List ℕ) → p xs ≡ ok (a, rest) → length rest + n ≤ length xs
  pub takes_use :
      (xs : List ℕ) (a : A) (rest : List ℕ) → q xs ≡ ok (a, rest) → length rest + n ≤ length xs
  pub agrees : (xs : List ℕ) (a : A) (rest : List ℕ) → p xs ≡ ok (a, rest) → q xs ≡ ok (a, rest)
  pub safe : (xs : List ℕ) → p xs ≢ fault
  pub ends : (xs : List ℕ) → p xs ≢ out_of_fuel
  pub ends_use : (xs : List ℕ) → q xs ≢ out_of_fuel

module _ {ℓ} {A : Type ℓ} where
  pub Parses-weaken : (n : ℕ) (p q : Parser A) → Parses n p q → Parses 0 p q
  Parses-weaken n p q h = record {
    takes = λ xs a rest e. omega (arith, h.takes xs a rest e);
    takes_use = λ xs a rest e. omega (arith, h.takes_use xs a rest e);
    agrees = h.agrees;
    safe = h.safe;
    ends = h.ends;
    ends_use = h.ends_use;
  }

  pub Parses-pure : (a : A) → Parses 0 (pure a) (pure a)
  unfolding pure
  Parses-pure a = record {
    takes = λ xs b rest e. ground arith;
    takes_use = λ xs b rest e. ground arith;
    agrees = λ xs b rest e. e;
    safe = λ xs e. ground arith;
    ends = λ xs e. ground arith;
    ends_use = λ xs e. ground arith;
  }

  pub Parses-open : (o : Option A) → Parses 0 (lift (mode_open check o)) (lift (mode_open use_ o))
  unfolding lift
  Parses-open o = record {
    takes = λ xs b rest e. ground arith;
    takes_use = λ xs b rest e. ground arith;
    agrees = λ xs b rest e. ground arith;
    safe = λ xs e. ground arith;
    ends = λ xs e. ground arith;
    ends_use = λ xs e. ground arith;
  }

  pub Parses-invalid :
      Parses 0 (lift (mode_invalid {A = A} check)) (lift (mode_invalid {A = A} use_))
  unfolding lift
  Parses-invalid = record {
    takes = λ xs b rest e. ground arith;
    takes_use = λ xs b rest e. ground arith;
    agrees = λ xs b rest e. ground arith;
    safe = λ xs e. ground arith;
    ends = λ xs e. ground arith;
    ends_use = λ xs e. ground arith;
  }

  pub Parses-unsupported :
      Parses 0 (lift (mode_unsupported {A = A} check)) (lift (mode_unsupported {A = A} use_))
  unfolding lift
  Parses-unsupported = record {
    takes = λ xs b rest e. ground arith;
    takes_use = λ xs b rest e. ground arith;
    agrees = λ xs b rest e. ground arith;
    safe = λ xs e. ground arith;
    ends = λ xs e. ground arith;
    ends_use = λ xs e. ground arith;
  }

  -- A conversion that the code takes to be total, where it is.
  Parses-total : (o : Option A) → o ≢ none → Parses 0 (lift (total o)) (lift (total o))
  unfolding lift
  Parses-total none h = absurd (h refl)
  Parses-total (some a) h = unfold pure in Parses-pure a

  -- The first branch may use its test.
  pub Parses-if_true :
      (b : Bool) (p q p' q' : Parser A)
      → (b ≡ true → Parses 0 p q)
      → Parses 0 p' q'
      → Parses 0 (if b then p else p') (if b then q else q')
  Parses-if_true true p q p' q' h h' = h refl
  Parses-if_true false p q p' q' h h' = h'

  pub Parses-if :
      (n : ℕ) (b : Bool) (p q p' q' : Parser A)
      → Parses n p q
      → Parses n p' q'
      → Parses n (if b then p else p') (if b then q else q')
  Parses-if n true p q p' q' h h' = h
  Parses-if n false p q p' q' h h' = h'

pub Parses-require : (b : Bool) → Parses 0 (require check b) (require use_ b)
unfolding require lift
Parses-require b = record {
  takes = λ xs a rest e. ground arith;
  takes_use = λ xs a rest e. ground arith;
  agrees = λ xs a rest e. ground arith;
  safe = λ xs e. ground arith;
  ends = λ xs e. ground arith;
  ends_use = λ xs e. ground arith;
}

pub Outcome-cases {ℓ} :
    {A : Type ℓ} (r : Outcome A)
    → ((a : A) × (r ≡ ok a)) ⊎ (((e : Error) × (r ≡ err e)) ⊎ ((r ≡ fault) ⊎ (r ≡ out_of_fuel)))
Outcome-cases (ok a) = inl (a, refl)
Outcome-cases (err e) = inr (inl (e, refl))
Outcome-cases fault = inr (inr (inl refl))
Outcome-cases out_of_fuel = inr (inr (inr refl))

module _ {ℓ κ} {A : Type ℓ} {B : Type κ} (p : Parser A) (f : A → Parser B) where
  pub bind-ok : (xs : List ℕ) (a : A) (mid : List ℕ) → p xs ≡ ok (a, mid) → (p >>= f) xs ≡ f a mid
  unfolding ◌>>=◌
  bind-ok xs a mid e = rw (e, ◌>>=◌) refl

  -- A success of a chain is one of both parts.
  pub bind-inv :
      (xs : List ℕ) (b : B) (rest : List ℕ)
      → (p >>= f) xs ≡ ok (b, rest)
      → (a : A) × (mid : List ℕ) × (p xs ≡ ok (a, mid)) × (f a mid ≡ ok (b, rest))
  unfolding ◌>>=◌
  bind-inv xs b rest e = elim (Outcome-cases (p xs)) [
    | inl ((a, mid), done) ↦ (a, mid, done, ground arith)
    | inr (inl (x, failed)) ↦ absurd (ground arith)
    | inr (inr (inl failed)) ↦ absurd (ground arith)
    | inr (inr (inr failed)) ↦ absurd (ground arith)
  ]

  bind-ne :
      (bad : Outcome (B × List ℕ)) (bad' : Outcome (A × List ℕ))
      → ((bad ≡ fault) × (bad' ≡ fault)) ⊎ ((bad ≡ out_of_fuel) × (bad' ≡ out_of_fuel))
      → (xs : List ℕ) → p xs ≢ bad'
      → ((a : A) (mid : List ℕ) → f a mid ≢ bad)
      → (p >>= f) xs ≢ bad
  unfolding ◌>>=◌
  bind-ne bad bad' same xs hp hf e = elim (Outcome-cases (p xs)) [
    | inl ((a, mid), done) ↦ hf a mid (ground arith)
    | inr (inl (x, failed)) ↦ ground arith
    | inr (inr (inl failed)) ↦ ground arith
    | inr (inr (inr failed)) ↦ ground arith
  ]

module _ {ℓ κ} {A : Type ℓ} {B : Type κ} where
  pub Parses-bind :
      (n : ℕ) (p q : Parser A) (f g : A → Parser B)
      → Parses n p q
      → ((a : A) → Parses 0 (f a) (g a))
      → Parses n (p >>= f) (q >>= g)
  Parses-bind n p q f g h k = record {
    takes = λ xs b rest e.
        let (a, mid, first, after) = bind-inv p f xs b rest e in
        omega (arith, h.takes xs a mid first, (k a).takes mid b rest after);
    takes_use = λ xs b rest e.
        let (a, mid, first, after) = bind-inv q g xs b rest e in
        omega (arith, h.takes_use xs a mid first, (k a).takes_use mid b rest after);
    agrees = λ xs b rest e.
        let (a, mid, first, after) = bind-inv p f xs b rest e in
        bind-ok q g xs a mid (h.agrees xs a mid first) ∙ (k a).agrees mid b rest after;
    safe = λ xs. bind-ne p f fault fault (inl (refl, refl)) xs (h.safe xs) (λ a. (k a).safe);
    ends = λ xs.
        bind-ne p f out_of_fuel out_of_fuel (inr (refl, refl)) xs (h.ends xs) (λ a. (k a).ends);
    ends_use = λ xs.
        bind-ne q g out_of_fuel out_of_fuel (inr (refl, refl)) xs (h.ends_use xs)
          (λ a. (k a).ends_use);
  }

  pub Parses-then :
      (n : ℕ) (p q : Parser A) (f g : Parser B)
      → Parses n p q
      → Parses 0 f g
      → Parses n (p >> f) (q >> g)
  unfolding ◌>>◌
  Parses-then n p q f g h k = Parses-bind n p q (λ _. f) (λ _. g) h (λ _. k)

  -- A conversion that is total, in front of what uses its value.
  pub Parses-total_bind :
      (o : Option A) (f g : A → Parser B)
      → o ≢ none
      → ((a : A) → Parses 0 (f a) (g a))
      → Parses 0 (lift (total o) >>= f) (lift (total o) >>= g)
  Parses-total_bind o f g h k =
      Parses-bind 0 (lift (total o)) (lift (total o)) f g (Parses-total o h) k

  -- What follows may use the value that was opened.
  pub Parses-open_bind :
      (o : Option A) (f g : A → Parser B)
      → ((a : A) → o ≡ some a → Parses 0 (f a) (g a))
      → Parses 0 (lift (mode_open check o) >>= f) (lift (mode_open use_ o) >>= g)
  Parses-open_bind none f g h = record {
    takes = λ xs a rest e. unfold ◌>>=◌ lift in ground arith;
    takes_use = λ xs a rest e. unfold ◌>>=◌ lift in ground arith;
    agrees = λ xs a rest e. unfold ◌>>=◌ lift in ground arith;
    safe = λ xs e. unfold ◌>>=◌ lift in ground arith;
    ends = λ xs e. unfold ◌>>=◌ lift in ground arith;
    ends_use = λ xs e. unfold ◌>>=◌ lift in ground arith;
  }
  Parses-open_bind (some a) f g h = unfold ◌>>=◌ lift in h a refl

pub ruleset parser_rules = (
  Parses-pure, Parses-open, Parses-invalid, Parses-unsupported, Parses-if, Parses-require,
  Parses-bind, Parses-then,
)
