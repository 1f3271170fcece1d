-- ===== src/Interpreter/Valid/Steady/Instr.antt =====
-- crates/interpreter/src/valid.rs: instructions as steady methods.
use wasefire.Base.{
  ℕ, zero, suc, ◌<◌, ◌≡◌, ◌≢◌, refl, subst, inl, inr, List, [], ◌∷◌, length, set, length-set,
  get_elem?, none, some, Option-cases, true, false, le_or_lt, Bool-cases, arith,
}
use wasefire.Interpreter.Mode.{ok, check, mode_check}
use wasefire.Interpreter.Syntax.Types.{Instr, NumType, MemArg, ResultType}
use wasefire.Interpreter.Valid.Context.{type_, functype, table, global, elem, data_}
use wasefire.Interpreter.Valid.OpdType.{OpdType}
use wasefire.Interpreter.Valid.Method.{
  Label, Expr, ◌>>=◌, ◌>>◌, lift, gets, asks, push, push_on, on_label,
}
use wasefire.Interpreter.Valid.Expr.{
  local, has_memory, load, store, testop, relop, unop, binop, cvtop, const_global, const_instr,
  mark_ref, test_ref, ref_func, select_any, select_typed, return_, three, item_of,
}
use wasefire.Interpreter.Valid.Instr.{instr_body, allowed, instr}
use wasefire.Interpreter.Parser.Skip.Nesting.{opens, plain}
use wasefire.Interpreter.Valid.Steady.{
  Ready, Kept, Decides, Decides-check, Steady, method_rules, Steady-asks, Steady-bind, Steady-then,
  Steady-pure, Steady-require, List-cases,
}
use wasefire.Interpreter.Valid.Steady.Methods.{
  lookup-Decides, functype-Decides, data_-Decides, Steady-unify, stack_rules,
}
use wasefire.Interpreter.Valid.Steady.Labels.{
  peeks-Steady, swaps-Steady, br_label-Steady, call-Steady, peek_labels-Steady, outermost-Steady,
  blocktype-Steady, else_label-Steady, push_label-Steady, end_label-Steady,
}

-- Lookups in the context and in the locals.
local-Steady : (x : ℕ) → Steady 0 0 (local x)
unfolding local
local-Steady x = Steady-asks _ λ e r. lookup-Decides e.locals x

has_memory-Steady : Steady 0 0 has_memory
unfolding has_memory
has_memory-Steady = Steady-asks _ λ e r. Decides-check _

item_of-Steady : (x : ℕ) → Steady 0 0 (item_of x)
unfolding item_of table
item_of-Steady x =
    Steady-bind _ _ 0 0 (Steady-asks _ λ e r. lookup-Decides e.context.tables x) λ t. Steady-pure _

functype-Steady : (x : ℕ) → Steady 0 0 (asks λ e. functype e.context x)
functype-Steady x = Steady-asks _ λ e r. functype-Decides e.context x

type_-Steady : (x : ℕ) → Steady 0 0 (asks λ e. type_ e.context x)
unfolding type_
type_-Steady x = Steady-asks _ λ e r. lookup-Decides e.context.types x

global-Steady : (x : ℕ) → Steady 0 0 (asks λ e. global e.context x)
unfolding global
global-Steady x = Steady-asks _ λ e r. lookup-Decides e.context.globals x

elem-Steady : (x : ℕ) → Steady 0 0 (asks λ e. elem e.context x)
unfolding elem
elem-Steady x = Steady-asks _ λ e r. lookup-Decides e.context.elems x

data_-Steady : (x : ℕ) → Steady 0 0 (asks λ e. data_ e.context x)
data_-Steady x = Steady-asks _ λ e r. data_-Decides e.context x

ruleset lookup_rules = (
  local-Steady, has_memory-Steady, item_of-Steady, functype-Steady, type_-Steady, global-Steady,
  elem-Steady, data_-Steady, blocktype-Steady, outermost-Steady, Steady-unify, stack_rules,
)

load-Steady : (t : NumType) (n : ℕ) (m : MemArg) → Steady 0 0 (load t n m)
unfolding load
load-Steady t n m = search lookup_rules

store-Steady : (t : NumType) (n : ℕ) (m : MemArg) → Steady 0 0 (store t n m)
unfolding store
store-Steady t n m = search lookup_rules

testop-Steady : (t : NumType) → Steady 0 0 (testop t)
unfolding testop
testop-Steady t = search lookup_rules

relop-Steady : (t : NumType) → Steady 0 0 (relop t)
unfolding relop
relop-Steady t = search lookup_rules

unop-Steady : (t : NumType) → Steady 0 0 (unop t)
unfolding unop
unop-Steady t = search lookup_rules

binop-Steady : (t : NumType) → Steady 0 0 (binop t)
unfolding binop
binop-Steady t = search lookup_rules

cvtop-Steady : (dst src : NumType) → Steady 0 0 (cvtop dst src)
unfolding cvtop
cvtop-Steady dst src = search lookup_rules

select_any-Steady : Steady 0 0 select_any
unfolding select_any
select_any-Steady = search lookup_rules depth 30

select_typed-Steady : (t : ResultType) → Steady 0 0 (select_typed t)
unfolding select_typed
select_typed-Steady [] = Steady-require false
select_typed-Steady (t ∷ []) = search lookup_rules
select_typed-Steady (t ∷ u ∷ ts) = Steady-require false

is_body-Steady : Steady 0 0 (asks λ e. mode_check check e.is_body)
is_body-Steady = Steady-asks _ λ e r. Decides-check e.is_body

return_-Steady : Steady 0 0 return_
unfolding return_
return_-Steady = search (is_body-Steady, lookup_rules) depth 30

-- The indices that the code does not test are in range, since the state is ready.
pub some_in_range {ℓ} : {A : Type ℓ} (xs : List A) (x : ℕ) → x < length xs → get_elem? xs x ≢ none
some_in_range [] x h e = omega arith
some_in_range (a ∷ xs) zero h e = ground arith
some_in_range (a ∷ xs) (suc x) h e = some_in_range xs x (omega arith) e

const_global-Decides : (x : ℕ) (e : Expr) → Ready e → Decides (const_global x e)
unfolding const_global
const_global-Decides x e r = elim (le_or_lt e.globals_len x) [
  | inl out ↦ record { safe = λ h. ground arith; ends = λ h. ground arith }
  | inr h ↦ elim (Option-cases (get_elem? e.context.globals x)) [
    | inl missing ↦ absurd (some_in_range e.context.globals x (omega (arith, r.globals)) missing)
    | inr (g, found) ↦ record { safe = λ i. ground arith; ends = λ i. ground arith }
  ]
]

const_instr-Steady : (i : Instr) → Steady 0 0 (const_instr i)
unfolding const_instr
const_instr-Steady (Instr.global_get x) = Steady-asks (const_global x) (const_global-Decides x)
const_instr-Steady (Instr.i32_const _) = Steady-pure tt
const_instr-Steady (Instr.i64_const _) = Steady-pure tt
const_instr-Steady (Instr.ref_null _) = Steady-pure tt
const_instr-Steady (Instr.ref_func _) = Steady-pure tt
const_instr-Steady _ = Steady-require false

allowed-Steady : (i : Instr) → Steady 0 0 (allowed i)
unfolding allowed
allowed-Steady i = search (const_instr-Steady, method_rules)

-- A function that is declared has its place in `refs`.
ref_func-Decides : (x : ℕ) (e : Expr) → Ready e → Decides (ref_func x e)
unfolding ref_func ◌>>=◌ ◌>>◌ asks gets lift mark_ref test_ref push on_label push_on
ref_func-Decides x e r = elim (List-cases e.labels) [
  | inl bare ↦ absurd (ground (arith, r.labelled))
  | inr (l, ls, found) ↦ elim (le_or_lt (length e.context.funcs) x) [
    | inl out ↦ record { safe = λ h. ground arith; ends = λ h. ground arith }
    | inr known ↦
        let fits : x < length e.refs = omega (arith, r.refs) in
        elim (Option-cases (get_elem? e.refs x)) [
          | inl missing ↦ absurd (some_in_range e.refs x fits missing)
          | inr (b, there) ↦ record { safe = λ h. ground arith; ends = λ h. ground arith }
        ]
  ]
]

mark_ref-Kept :
    (x : ℕ) (e : Expr) (a : Unit {0}) (e' : Expr) → mark_ref x e ≡ ok (a, e') → Kept 0 0 e e'
unfolding mark_ref
mark_ref-Kept x e a e' h =
    let same : record e { refs = set e.refs x true } ≡ e' = ground arith in
    subst (Kept 0 0 e) same (record {
      context = refl;
      globals_len = refl;
      refs = length-set e.refs x true;
      labels = refl;
    })

ref_func-Kept :
    (x : ℕ) (e : Expr) (a : Unit {0}) (e' : Expr) → ref_func x e ≡ ok (a, e') → Kept 0 0 e e'
unfolding ref_func ◌>>=◌ ◌>>◌ asks gets lift mark_ref test_ref push on_label push_on
ref_func-Kept x e a e' h = elim (List-cases e.labels) [
  | inl bare ↦ absurd (ground arith)
  | inr (l, ls, found) ↦
      let pushed : List Label = record l { stack = OpdType.func_ref ∷ l.stack } ∷ ls in
      elim (Bool-cases e.is_const) [
        | inl constant ↦
            let same : record e { refs = set e.refs x true; labels = pushed } ≡ e' = ground arith in
            subst (Kept 0 0 e) same (record {
              context = refl;
              globals_len = refl;
              refs = length-set e.refs x true;
              labels = ground arith;
            })
        | inr body ↦
            let same : record e { labels = pushed } ≡ e' = ground arith in
            subst (Kept 0 0 e) same
              (record { context = refl; globals_len = refl; refs = refl; labels = ground arith })
      ]
]

ref_func-Steady : (x : ℕ) → Steady 0 0 (ref_func x)
ref_func-Steady x = record {
  decides = ref_func-Decides x;
  keeps = λ e a e' r. ref_func-Kept x e a e';
}

ruleset instr_rules = (
  load-Steady, store-Steady, testop-Steady, relop-Steady, unop-Steady, binop-Steady, cvtop-Steady,
  select_any-Steady, select_typed-Steady, return_-Steady, ref_func-Steady, else_label-Steady,
  br_label-Steady, peeks-Steady, swaps-Steady, peek_labels-Steady, call-Steady, push_label-Steady,
  lookup_rules,
)

opens-Steady : (i : Instr) → opens i ≡ true → Steady 1 0 (instr_body i)
unfolding instr_body
opens-Steady (Instr.block b) h = search instr_rules depth 30
opens-Steady (Instr.loop b) h = search instr_rules depth 30
opens-Steady (Instr.if_ b) h = search instr_rules depth 30
opens-Steady _ h = absurd (ground arith)

plain-Steady : (i : Instr) → plain i ≡ true → Steady 0 0 (instr_body i)
unfolding instr_body three
plain-Steady (Instr.block b) h = absurd (ground arith)
plain-Steady (Instr.loop b) h = absurd (ground arith)
plain-Steady (Instr.if_ b) h = absurd (ground arith)
plain-Steady Instr.end h = absurd (ground arith)
plain-Steady (Instr.select none) h = search instr_rules depth 30
plain-Steady (Instr.select (some t)) h = search instr_rules depth 30
plain-Steady _ h = search instr_rules depth 30

pub instr-opens : (i : Instr) → opens i ≡ true → Steady 1 0 (instr i)
unfolding instr
instr-opens (Instr.block b) h =
    Steady-then 1 0 _ _ (allowed-Steady _) (opens-Steady (Instr.block b) h)
instr-opens (Instr.loop b) h =
    Steady-then 1 0 _ _ (allowed-Steady _) (opens-Steady (Instr.loop b) h)
instr-opens (Instr.if_ b) h = Steady-then 1 0 _ _ (allowed-Steady _) (opens-Steady (Instr.if_ b) h)
instr-opens _ h = absurd (ground arith)

pub instr-plain : (i : Instr) → plain i ≡ true → Steady 0 0 (instr i)
unfolding instr
instr-plain Instr.end h = absurd (ground arith)
instr-plain i h = Steady-then 0 0 _ _ (allowed-Steady i) (plain-Steady i h)

pub instr-end : Steady 0 1 (instr Instr.end)
unfolding instr
instr-end = end_label-Steady
