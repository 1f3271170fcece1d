-- ===== src/Interpreter/Valid/Steady.antt =====
-- crates/interpreter/src/valid.rs: steady methods of the validator: what is asked of each, and the
-- rules to build them.
pub mod Methods
pub mod Labels
pub mod Instr
use wasefire.Base.{
  ℕ, zero, suc, ◌+◌, ◌≤◌, ◌≡◌, ◌≢◌, refl, ◌∙◌, subst, ◌⊎◌, inl, inr, Bool, true, false, List, [],
  ◌∷◌, length, arith, if◌then◌else◌,
}
use wasefire.Interpreter.Mode.{
  Outcome, ok, err, fault, out_of_fuel, Error, invalid, check, mode_check,
}
use wasefire.Interpreter.Parser.Parses.{Outcome-cases}
use wasefire.Interpreter.Valid.Context.{Context}
use wasefire.Interpreter.Valid.Method.{
  Label, Expr, Method, ◌>>=◌, ◌>>◌, pure, lift, require, gets, asks, on_label,
}

-- A label is there, and the indices that are not tested are in range.
pub record Ready (e : Expr) : Type 0 where
  pub labelled : 1 ≤ length e.labels
  pub globals : e.globals_len ≤ length e.context.globals
  pub refs : length e.context.funcs ≤ length e.refs

-- From `e` to `e'` there are `up` labels more and `down` fewer.
pub record Kept (up down : ℕ) (e e' : Expr) : Type 0 where
  pub context : e'.context ≡ e.context
  pub globals_len : e'.globals_len ≡ e.globals_len
  pub refs : length e'.refs ≡ length e.refs
  pub labels : length e'.labels + down ≡ length e.labels + up

pub Kept-refl : (e : Expr) → Kept 0 0 e e
Kept-refl e = record { context = refl; globals_len = refl; refs = refl; labels = refl }

pub Kept-trans :
    (up down : ℕ) (e e' e'' : Expr) → Kept 0 0 e e' → Kept up down e' e'' → Kept up down e e''
Kept-trans up down e e' e'' h k = record {
  context = k.context ∙ h.context;
  globals_len = k.globals_len ∙ h.globals_len;
  refs = k.refs ∙ h.refs;
  labels = omega (arith, h.labels, k.labels);
}

Ready-Kept : (e e' : Expr) → Kept 0 0 e e' → Ready e → Ready e'
Ready-Kept e e' k r = record {
  labelled = omega (arith, k.labels, r.labelled);
  globals = ground (arith, k.context, k.globals_len, r.globals);
  refs = ground (arith, k.context, k.refs, r.refs);
}

-- A result that is a value or an error.
pub record Decides {ℓ} {A : Type ℓ} (r : Outcome A) : Type ℓ where
  pub safe : r ≢ fault
  pub ends : r ≢ out_of_fuel

module _ {ℓ} {A : Type ℓ} where
  pub Decides-ok : (a : A) → Decides (ok a)
  Decides-ok a = record { safe = λ h. ground arith; ends = λ h. ground arith }

  pub Decides-err : (x : Error) → Decides {A = A} (err x)
  Decides-err x = record { safe = λ h. ground arith; ends = λ h. ground arith }

  pub Decides-if :
      (b : Bool) (r s : Outcome A) → Decides r → Decides s → Decides (if b then r else s)
  Decides-if true r s h k = h
  Decides-if false r s h k = k

pub Decides-check : (b : Bool) → Decides (mode_check check b)
Decides-check true = Decides-ok tt
Decides-check false = Decides-err invalid

-- A method of the validator, on a state that is ready for it.
pub record Steady {ℓ} {A : Type ℓ} (up down : ℕ) (p : Method A) : Type ℓ where
  pub decides : (e : Expr) → Ready e → Decides (p e)
  pub keeps : (e : Expr) (a : A) (e' : Expr) → Ready e → p e ≡ ok (a, e') → Kept up down e e'

Kept-same : (e e' : Expr) → e ≡ e' → Kept 0 0 e e'
Kept-same e e' same = subst (Kept 0 0 e) same (Kept-refl e)

pub List-cases {ℓ} :
    {A : Type ℓ} (xs : List A) → (xs ≡ []) ⊎ ((x : A) × (ys : List A) × (xs ≡ x ∷ ys))
List-cases [] = inl refl
List-cases (x ∷ xs) = inr (x, xs, refl)

-- A method that only reads.
reads-Steady {ℓ} :
    {A : Type ℓ} (p : Method A)
    → ((e : Expr) → Ready e → Decides (p e))
    → ((e : Expr) (a : A) (e' : Expr) → p e ≡ ok (a, e') → e ≡ e')
    → Steady 0 0 p
reads-Steady p h same = record {
  decides = h;
  keeps = λ e a e' r done. Kept-same e e' (same e a e' done);
}

module _ {ℓ} {A : Type ℓ} where
  pub Steady-pure : (a : A) → Steady 0 0 (pure a)
  unfolding pure
  Steady-pure a = reads-Steady _ (λ e r. Decides-ok (a, e)) λ e b e' h. ground arith

  pub Steady-gets : (f : Expr → A) → Steady 0 0 (gets f)
  unfolding gets
  Steady-gets f = reads-Steady _ (λ e r. Decides-ok (f e, e)) λ e b e' h. ground arith

  lift-Decides : (o : Outcome A) (e : Expr) → Decides o → Decides (lift o e)
  unfolding lift
  lift-Decides (ok a) e h = Decides-ok (a, e)
  lift-Decides (err x) e h = Decides-err x
  lift-Decides fault e h = absurd (h.safe refl)
  lift-Decides out_of_fuel e h = absurd (h.ends refl)

  lift-reads : (o : Outcome A) (e : Expr) (a : A) (e' : Expr) → lift o e ≡ ok (a, e') → e ≡ e'
  unfolding lift
  lift-reads o e a e' h = ground arith

  pub Steady-lift : (o : Outcome A) → Decides o → Steady 0 0 (lift o)
  Steady-lift o h = reads-Steady _ (λ e r. lift-Decides o e h) (lift-reads o)

  pub Steady-asks :
      (f : Expr → Outcome A) → ((e : Expr) → Ready e → Decides (f e)) → Steady 0 0 (asks f)
  unfolding asks
  Steady-asks f h = reads-Steady _ (λ e r. lift-Decides (f e) e (h e r)) λ e. lift-reads (f e) e

  pub Steady-if :
      (up down : ℕ) (b : Bool) (p q : Method A)
      → Steady up down p
      → Steady up down q
      → Steady up down (if b then p else q)
  Steady-if up down true p q h k = h
  Steady-if up down false p q h k = k

  -- A change of the innermost label.
  on_label-Decides :
      (f : Label → Outcome (A × Label))
      → ((l : Label) → Decides (f l))
      → (e : Expr) → Ready e
      → Decides (on_label f e)
  unfolding on_label
  on_label-Decides f h e r = elim (List-cases e.labels) [
    | inl bare ↦ absurd (ground (arith, r.labelled))
    | inr (l, ls, found) ↦
        let decided = h l in
        elim (Outcome-cases (f l)) [
          | inl ((a, l'), done) ↦ record { safe = λ x. ground arith; ends = λ x. ground arith }
          | inr (inl (x, failed)) ↦ record { safe = λ y. ground arith; ends = λ y. ground arith }
          | inr (inr (inl failed)) ↦ absurd (decided.safe failed)
          | inr (inr (inr failed)) ↦ absurd (decided.ends failed)
        ]
  ]

  on_label-Kept :
      (f : Label → Outcome (A × Label)) (e : Expr) (a : A) (e' : Expr)
      → on_label f e ≡ ok (a, e')
      → Kept 0 0 e e'
  unfolding on_label
  on_label-Kept f e a e' h = elim (List-cases e.labels) [
    | inl bare ↦ absurd (ground arith)
    | inr (l, ls, found) ↦ elim (Outcome-cases (f l)) [
      | inl ((b, l'), done) ↦
          let same : record e { labels = l' ∷ ls } ≡ e' = ground arith in
          let kept : Kept 0 0 e (record e { labels = l' ∷ ls }) = record {
            context = refl;
            globals_len = refl;
            refs = refl;
            labels = ground arith;
          } in
          subst (Kept 0 0 e) same kept
      | inr (inl (x, failed)) ↦ absurd (ground arith)
      | inr (inr (inl failed)) ↦ absurd (ground arith)
      | inr (inr (inr failed)) ↦ absurd (ground arith)
    ]
  ]

  pub Steady-on_label :
      (f : Label → Outcome (A × Label)) → ((l : Label) → Decides (f l)) → Steady 0 0 (on_label f)
  Steady-on_label f h = record {
    decides = on_label-Decides f h;
    keeps = λ e a e' r. on_label-Kept f e a e';
  }

pub Steady-require : (b : Bool) → Steady 0 0 (require b)
unfolding require
Steady-require b = Steady-lift (mode_check check b) (Decides-check b)

module _ {ℓ κ} {A : Type ℓ} {B : Type κ} (p : Method A) (f : A → Method B) where
  -- A success of a chain is one of both parts.
  method-inv :
      (e : Expr) (b : B) (e' : Expr)
      → (p >>= f) e ≡ ok (b, e')
      → (a : A) × (mid : Expr) × (p e ≡ ok (a, mid)) × (f a mid ≡ ok (b, e'))
  unfolding ◌>>=◌
  method-inv e b e' h = elim (Outcome-cases (p e)) [
    | inl ((a, mid), done) ↦ (a, mid, done, ground arith)
    | inr (inl (x, failed)) ↦ absurd (ground arith)
    | inr (inr (inl failed)) ↦ absurd (ground arith)
    | inr (inr (inr failed)) ↦ absurd (ground arith)
  ]

  method-Decides :
      (e : Expr)
      → Decides (p e)
      → ((a : A) (mid : Expr) → p e ≡ ok (a, mid) → Decides (f a mid))
      → Decides ((p >>= f) e)
  unfolding ◌>>=◌
  method-Decides e h k = elim (Outcome-cases (p e)) [
    | inl ((a, mid), done) ↦
        let later = k a mid done in
        record { safe = λ x. later.safe (ground arith); ends = λ x. later.ends (ground arith) }
    | inr (inl (x, failed)) ↦ record { safe = λ y. ground arith; ends = λ y. ground arith }
    | inr (inr (inl failed)) ↦ absurd (h.safe failed)
    | inr (inr (inr failed)) ↦ absurd (h.ends failed)
  ]

  pub Steady-bind :
      (up down : ℕ) → Steady 0 0 p → ((a : A) → Steady up down (f a)) → Steady up down (p >>= f)
  Steady-bind up down h k = record {
    decides = λ e r.
        method-Decides e (h.decides e r)
          λ a mid done. (k a).decides mid (Ready-Kept e mid (h.keeps e a mid r done) r);
    keeps = λ e b e' r done.
        let (a, mid, first, after) = method-inv e b e' done in
        let kept = h.keeps e a mid r first in
        Kept-trans up down e mid e' kept ((k a).keeps mid b e' (Ready-Kept e mid kept r) after);
  }

pub Steady-then {ℓ κ} :
    {A : Type ℓ} {B : Type κ} (up down : ℕ) (p : Method A) (q : Method B)
    → Steady 0 0 p
    → Steady up down q
    → Steady up down (p >> q)
unfolding ◌>>◌
Steady-then up down p q h k = Steady-bind p (λ _. q) up down h (λ _. k)

pub ruleset method_rules =
    (Steady-pure, Steady-gets, Steady-if, Steady-require, Steady-bind, Steady-then)
