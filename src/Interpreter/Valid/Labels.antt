-- ===== src/Interpreter/Valid/Labels.antt =====
-- crates/interpreter/src/valid.rs: the methods of `Expr` that branch, open and close labels.
use mathlib.Core.List.{reverse}
use wasefire.Base.{
  ℕ, ◌-◌, List, [], ◌∷◌, ◌++◌, length, replicate, get_elem?, none, some, Bool, true, false, ltb,
  ◌==◌, if◌then◌else◌,
}
use wasefire.Interpreter.Mode.{Outcome, ok, err, fault, out_of_fuel, invalid}
use wasefire.Interpreter.Syntax.Types.{BlockType, ValType, ResultType, FuncType}
use wasefire.Interpreter.Valid.Context.{type_}
use wasefire.Interpreter.Valid.OpdType.{OpdType, opd_of_val, opd_matches, unify, result_eq}
use wasefire.Interpreter.Valid.Method.{
  LabelKind, Label, Expr, Method, ◌>>=◌, ◌>>◌, pure, require, gets, asks, on_label, label, pops,
  pushs, extend,
}

-- The types are here from the top, and `f` has one error only, so that the order is not seen.
unfoldable pub each :
    (OpdType → ValType → Outcome OpdType) → List OpdType → List ValType → Outcome (List OpdType)
each f stack [] = ok stack
each f [] (y ∷ ys) = ok []
each f (x ∷ xs) (y ∷ ys) = elim (f x y) [
  | ok x' ↦ elim (each f xs ys) [
    | ok xs' ↦ ok (x' ∷ xs')
    | err e ↦ err e
    | fault ↦ fault
    | out_of_fuel ↦ out_of_fuel
  ]
  | err e ↦ err e
  | fault ↦ fault
  | out_of_fuel ↦ out_of_fuel
]

-- The stack with as many types as are expected, or more: the bottom is extended.
unfoldable pub filled : ResultType → Label → Outcome (List OpdType)
filled expected l =
    if ltb (length l.stack) (length expected)
    then (if l.polymorphic
        then ok (l.stack ++ replicate (length expected - length l.stack) OpdType.bottom)
        else err invalid)
    else ok l.stack

unfoldable pub for_each_on :
    (OpdType → ValType → Outcome OpdType) → ResultType → Label → Outcome (Unit {0} × Label)
for_each_on f expected l = elim (filled expected l) [
  | ok stack ↦ elim (each f stack (reverse expected)) [
    | ok stack' ↦ ok (tt, record l { stack = stack' })
    | err e ↦ err e
    | fault ↦ fault
    | out_of_fuel ↦ out_of_fuel
  ]
  | err e ↦ err e
  | fault ↦ fault
  | out_of_fuel ↦ out_of_fuel
]

unfoldable pub for_each : ResultType → (OpdType → ValType → Outcome OpdType) → Method (Unit {0})
for_each expected f = on_label (for_each_on f expected)

unfoldable pub swap_opd : OpdType → ValType → Outcome OpdType
swap_opd x y = unify x (opd_of_val y)

unfoldable pub swaps : ResultType → Method (Unit {0})
swaps expected = for_each expected swap_opd

unfoldable pub peek_opd : OpdType → ValType → Outcome OpdType
peek_opd x y = if opd_matches x y then ok x else err invalid

unfoldable pub peeks : ResultType → Method (Unit {0})
peeks expected = for_each expected peek_opd

unfoldable pub add_label : Label → Method (Unit {0})
add_label l e = ok (tt, record e { labels = l ∷ e.labels })

unfoldable pub push_label : FuncType → LabelKind → Method (Unit {0})
push_label type kind = do
  pops type.params
  add_label
      (record { type_ = type; kind = kind; polymorphic = false; stack = extend type.params [] })

-- `labels.pop().unwrap()`
unfoldable pub pop_label : Method Label
pop_label e = elim e.labels [ [] ↦ fault | l ∷ ls ↦ ok (l, record e { labels = ls }) ]

unfoldable pub is_empty {ℓ} : {A : Type ℓ} → List A → Bool
is_empty [] = true
is_empty (x ∷ xs) = false

unfoldable pub is_if : LabelKind → Bool
is_if LabelKind.if_ = true
is_if _ = false

-- The last part of `end_label`, after the results are popped.
unfoldable pub close_label : ResultType → Method (Unit {0})
close_label results = do
  popped ← pop_label
  require (is_empty popped.stack)
  last ← gets λ e. is_empty e.labels
  if last then pure tt else pushs results

unfoldable pub end_label : Method (Unit {0})
end_label = do
  l ← label
  if is_if l.kind then require (result_eq l.type_.params l.type_.results) else pure tt
  pops l.type_.results
  close_label l.type_.results

unfoldable pub branch_type : Label → ResultType
branch_type l = elim l.kind [
  | LabelKind.block ↦ l.type_.results
  | LabelKind.if_ ↦ l.type_.results
  | LabelKind.loop ↦ l.type_.params
]

unfoldable pub branch_of : ℕ → Expr → Outcome ResultType
branch_of x e = elim (get_elem? e.labels x) [ none ↦ err invalid | some l ↦ ok (branch_type l) ]

unfoldable pub br_label : ℕ → Method ResultType
br_label x = asks (branch_of x)

unfoldable pub call : FuncType → Method (Unit {0})
call t = do pops t.params; pushs t.results

unfoldable pub polymorphic_on : Label → Outcome (Unit {0} × Label)
polymorphic_on l = ok (tt, record l { polymorphic = true; stack = [] })

unfoldable pub stack_polymorphic : Method (Unit {0})
stack_polymorphic = on_label polymorphic_on

-- The branches of a table, which take as many types as its default.
unfoldable pub peek_labels : ℕ → List ℕ → Method (Unit {0})
peek_labels n [] = pure tt
peek_labels n (l ∷ ls) = do t ← br_label l; require (length t == n); peeks t; peek_labels n ls

-- `self.labels[0]`
unfoldable pub outermost : List Label → Outcome Label
outermost [] = fault
outermost (l ∷ []) = ok l
outermost (l ∷ m ∷ ls) = outermost (m ∷ ls)

unfoldable pub blocktype : BlockType → Expr → Outcome FuncType
blocktype BlockType.none e = ok (record { params = []; results = [] })
blocktype (BlockType.type t) e = ok (record { params = []; results = t ∷ [] })
blocktype (BlockType.index x) e = type_ e.context x

-- `else`: the label is a block from here, and its stack starts again from the parameters.
unfoldable pub take_if_on : Label → Outcome (FuncType × Label)
take_if_on l =
    if is_if l.kind then ok (l.type_, record l { kind = LabelKind.block }) else err invalid

unfoldable pub restart_on : Label → Outcome (Unit {0} × Label)
restart_on l = if is_empty l.stack then ok (tt, record l { polymorphic = false }) else err invalid

unfoldable pub else_label : Method (Unit {0})
else_label = do
  type ← on_label take_if_on
  pops type.results
  on_label restart_on
  pushs type.params
