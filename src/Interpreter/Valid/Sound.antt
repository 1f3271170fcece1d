-- ===== src/Interpreter/Valid/Sound.antt =====
-- crates/interpreter/src/valid.rs: bodies and constant expressions as a whole.
use wasefire.Base.{ℕ, suc, ◌≤◌, ◌≡◌, ◌≢◌, refl, ◌∙◌, ap, sym, inl, inr, List, length, Bool, arith}
use wasefire.Interpreter.Mode.{ok, fault, out_of_fuel, use_}
use wasefire.Interpreter.Syntax.Types.{ValType, ResultType}
use wasefire.Interpreter.Parser.Core.{◌>>=◌, ◌>>◌, pure}
use wasefire.Interpreter.Parser.Parses.{Outcome-cases, bind-inv}
use wasefire.Interpreter.Parser.Skip.Nesting.{Bodies-agree, skip_to_end-Bodies}
use wasefire.Interpreter.Parser.Skip.{skip_to_end}
use wasefire.Interpreter.Valid.Context.{Context}
use wasefire.Interpreter.Valid.Method.{Expr}
use wasefire.Interpreter.Valid.Check.{check_expr, const_expr, body_expr, check_const, check_body}
use wasefire.Interpreter.Valid.Steady.{Ready, Decides}
use wasefire.Interpreter.Valid.Rounds.{
  Going-Ready, check_loop-Decides, check_loop-Bodies, check_loop-refs,
}

const_expr-Ready :
    (c : Context) (refs : List Bool) (n : ℕ) (expected : ResultType)
    → length c.funcs ≤ length refs
    → n ≤ length c.globals
    → Ready (const_expr c refs n expected)
unfolding const_expr
const_expr-Ready c refs n expected h k = record { labelled = omega arith; globals = k; refs = h }

body_expr-Ready :
    (c : Context) (refs : List Bool) (locals : List ValType) (results : ResultType)
    → length c.funcs ≤ length refs
    → Ready (body_expr c refs locals results)
unfolding body_expr
body_expr-Ready c refs locals results h = record {
  labelled = omega arith;
  globals = omega arith;
  refs = h;
}

check_expr-Decides : (e : Expr) (xs : List ℕ) → Ready e → Decides (check_expr e xs)
unfolding check_expr
check_expr-Decides e xs r =
    check_loop-Decides (suc (length xs)) e xs (omega arith) (Going-Ready e r)

-- Where `refs` has a place for every function of the context: on every list of bytes,
-- `check_body` neither panics nor runs out of fuel.
pub check_body-Decides :
    (c : Context) (refs : List Bool) (locals : List ValType) (results : ResultType) (xs : List ℕ)
    → length c.funcs ≤ length refs
    → (check_body c refs locals results xs ≢ fault)
      × (check_body c refs locals results xs ≢ out_of_fuel)
unfolding check_body ◌>>=◌ ◌>>◌ pure
check_body-Decides c refs locals results xs h =
    let decided = check_expr-Decides _ xs (body_expr-Ready c refs locals results h) in
    elim (Outcome-cases (check_expr (body_expr c refs locals results) xs)) [
      | inl ((e, rest), done) ↦ (λ x. ground arith, λ x. ground arith)
      | inr (inl (x, failed)) ↦ (λ y. ground arith, λ y. ground arith)
      | inr (inr (inl failed)) ↦ absurd (decided.safe failed)
      | inr (inr (inr failed)) ↦ absurd (decided.ends failed)
    ]

pub check_const-Decides :
    (c : Context) (refs : List Bool) (n : ℕ) (expected : ResultType) (xs : List ℕ)
    → length c.funcs ≤ length refs
    → n ≤ length c.globals
    → (check_const c refs n expected xs ≢ fault) × (check_const c refs n expected xs ≢ out_of_fuel)
unfolding check_const ◌>>=◌ pure
check_const-Decides c refs n expected xs h k =
    let decided = check_expr-Decides _ xs (const_expr-Ready c refs n expected h k) in
    elim (Outcome-cases (check_expr (const_expr c refs n expected) xs)) [
      | inl ((e, rest), done) ↦ (λ x. ground arith, λ x. ground arith)
      | inr (inl (x, failed)) ↦ (λ y. ground arith, λ y. ground arith)
      | inr (inr (inl failed)) ↦ absurd (decided.safe failed)
      | inr (inr (inr failed)) ↦ absurd (decided.ends failed)
    ]

-- Where `refs` has a place for every function of the context: if `check_body` accepts a body and
-- leaves `rest`, then `skip_to_end` in the mode `Use`, from the start of the body and for its own
-- label, succeeds and leaves `rest` too.
pub check_body-skip_to_end :
    (c : Context) (refs : List Bool) (locals : List ValType) (results : ResultType)
    (xs rest : List ℕ)
    → length c.funcs ≤ length refs
    → check_body c refs locals results xs ≡ ok (tt, rest)
    → skip_to_end use_ 0 xs ≡ ok (tt, rest)
unfolding check_body check_expr ◌>>◌ pure
check_body-skip_to_end c refs locals results xs rest h done =
    let (e, mid, loop, after) =
      bind-inv (check_expr (body_expr c refs locals results)) _ xs tt rest done in
    let same : mid ≡ rest = ground arith in
    let ready = body_expr-Ready c refs locals results h in
    skip_to_end-Bodies use_ 0 xs rest (
      Bodies-agree 0 xs rest (
        check_loop-Bodies (suc (length xs)) 0 (body_expr c refs locals results) e xs rest ready
          (unfold body_expr in refl) (loop ∙ ap (λ ys. ok (e, ys)) same)))

pub check_const-refs :
    (c : Context) (refs : List Bool) (n : ℕ) (expected : ResultType) (xs : List ℕ)
    (refs' : List Bool) (rest : List ℕ)
    → length c.funcs ≤ length refs
    → n ≤ length c.globals
    → check_const c refs n expected xs ≡ ok (refs', rest)
    → length refs' ≡ length refs
unfolding check_const check_expr pure
check_const-refs c refs n expected xs refs' rest h k done =
    let (e, mid, loop, after) =
      bind-inv (check_expr (const_expr c refs n expected)) _ xs refs' rest done in
    let same : e.refs ≡ refs' = ground arith in
    ap length (sym same)
    ∙ check_loop-refs (suc (length xs)) (const_expr c refs n expected) e xs mid
        (Going-Ready _ (const_expr-Ready c refs n expected h k)) loop
    ∙ unfold const_expr in refl
