-- ===== src/Interpreter/Valid/Steady/Methods.antt =====
-- crates/interpreter/src/valid.rs: stacks, labels and lookups as steady methods.
use wasefire.Base.{ℕ, zero, suc, inl, inr, List, [], ◌∷◌, get_elem?, none, some, ltb, arith}
use wasefire.Interpreter.Mode.{Outcome, err, invalid, check, mode_check}
use wasefire.Interpreter.Syntax.Types.{ValType, ResultType}
use wasefire.Interpreter.Parser.Parses.{Outcome-cases}
use wasefire.Interpreter.Valid.Context.{Context, lookup, type_, functype, data_}
use wasefire.Interpreter.Valid.OpdType.{OpdType, unify}
use wasefire.Interpreter.Valid.Method.{
  Label, lift, label, push_on, push, pushs_on, pushs, pop_from, pop, pop_check, pops, swap,
}
use wasefire.Interpreter.Valid.Labels.{each, polymorphic_on, stack_polymorphic}
use wasefire.Interpreter.Valid.Steady.{
  Ready, Kept, Decides, Decides-ok, Decides-err, Decides-if, Decides-check, Steady, method_rules,
  Steady-asks, Steady-lift, Steady-on_label, List-cases, Steady-bind, Steady-then,
}

pub lookup-Decides {ℓ} : {A : Type ℓ} (xs : List A) (x : ℕ) → Decides (lookup xs x)
unfolding lookup
lookup-Decides [] x = Decides-err invalid
lookup-Decides (a ∷ xs) zero = Decides-ok a
lookup-Decides (a ∷ xs) (suc x) = lookup-Decides xs x

pub functype-Decides : (c : Context) (x : ℕ) → Decides (functype c x)
unfolding functype type_
functype-Decides c x =
    elim (get_elem? c.funcs x)
      as (λ o. Decides (elim o [ none ↦ err invalid | some y ↦ lookup c.types y ])) [
        | none ↦ Decides-err invalid
        | some y ↦ lookup-Decides c.types y
      ]

pub data_-Decides : (c : Context) (x : ℕ) → Decides (data_ c x)
unfolding data_
data_-Decides c x =
    elim c.datas
      as (λ o. Decides (elim o [ none ↦ err invalid | some n ↦ mode_check check (ltb x n) ])) [
        | none ↦ Decides-err invalid
        | some n ↦ Decides-check (ltb x n)
      ]

pub unify-Decides : (t other : OpdType) → Decides (unify t other)
unfolding unify
unify-Decides t other = search (Decides-if, Decides-ok, Decides-err)

pub Steady-unify : (t other : OpdType) → Steady 0 0 (lift (unify t other))
Steady-unify t other = Steady-lift (unify t other) (unify-Decides t other)

pub push-Steady : (t : OpdType) → Steady 0 0 (push t)
unfolding push push_on
push-Steady t = Steady-on_label (push_on t) λ l. Decides-ok _

pub pushs-Steady : (ts : ResultType) → Steady 0 0 (pushs ts)
unfolding pushs pushs_on
pushs-Steady ts = Steady-on_label (pushs_on ts) λ l. Decides-ok _

pop_from-Decides : (l : Label) → Decides (pop_from l)
unfolding pop_from
pop_from-Decides l = record { safe = λ h. ground arith; ends = λ h. ground arith }

pub pop-Steady : Steady 0 0 pop
unfolding pop
pop-Steady = Steady-on_label pop_from pop_from-Decides

pub label-Steady : Steady 0 0 label
unfolding label
label-Steady = Steady-on_label _ λ l. Decides-ok (l, l)

pub stack_polymorphic-Steady : Steady 0 0 stack_polymorphic
unfolding stack_polymorphic polymorphic_on
stack_polymorphic-Steady = Steady-on_label polymorphic_on λ l. Decides-ok _

pub pop_check-Steady : (t : ValType) → Steady 0 0 (pop_check t)
unfolding pop_check
pop_check-Steady t = search (pop-Steady, method_rules)

pub pops-Steady : (ts : ResultType) → Steady 0 0 (pops ts)
unfolding pops
pops-Steady [] = search method_rules
pops-Steady (t ∷ ts) = Steady-then 0 0 _ _ (pops-Steady ts) (pop_check-Steady t)

pub swap-Steady : (t : ValType) → Steady 0 0 (swap t)
unfolding swap
swap-Steady t = search (pop_check-Steady, push-Steady, method_rules)

pub each-Decides :
    (f : OpdType → ValType → Outcome OpdType)
    → ((x : OpdType) (y : ValType) → Decides (f x y))
    → (stack : List OpdType) (ts : List ValType) → Decides (each f stack ts)
unfolding each
each-Decides f h stack [] = Decides-ok stack
each-Decides f h [] (y ∷ ys) = Decides-ok []
each-Decides f h (x ∷ xs) (y ∷ ys) =
    let first = h x y in
    let later = each-Decides f h xs ys in
    elim (Outcome-cases (f x y)) [
      | inl (x', done) ↦ elim (Outcome-cases (each f xs ys)) [
        | inl (xs', done') ↦ record { safe = λ e. ground arith; ends = λ e. ground arith }
        | inr (inl (z, failed)) ↦ record { safe = λ e. ground arith; ends = λ e. ground arith }
        | inr (inr (inl failed)) ↦ absurd (later.safe failed)
        | inr (inr (inr failed)) ↦ absurd (later.ends failed)
      ]
      | inr (inl (z, failed)) ↦ record { safe = λ e. ground arith; ends = λ e. ground arith }
      | inr (inr (inl failed)) ↦ absurd (first.safe failed)
      | inr (inr (inr failed)) ↦ absurd (first.ends failed)
    ]

pub ruleset stack_rules = (
  push-Steady, pushs-Steady, pop-Steady, pop_check-Steady, pops-Steady, swap-Steady,
  stack_polymorphic-Steady, method_rules,
)
