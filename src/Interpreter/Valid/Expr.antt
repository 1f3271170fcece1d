-- ===== src/Interpreter/Valid/Expr.antt =====
-- crates/interpreter/src/valid.rs: the validation of instructions and expressions.
use wasefire.Base.{
  ℕ, ◌%◌, ◌/◌, ◌^◌, [], ◌∷◌, length, get_elem?, set, none, some, Bool, true, false, not, ◌||◌, leb,
  ltb, if◌then◌else◌,
}
use wasefire.Interpreter.Mode.{Outcome, ok, err, fault, invalid, check, mode_check}
use wasefire.Interpreter.Syntax.Types.{Instr, NumType, RefType, ValType, ResultType, Mut, MemArg}
use wasefire.Interpreter.Valid.Context.{lookup, table}
use wasefire.Interpreter.Valid.OpdType.{OpdType, opd_of_num, val_of_num, unify, is_num, is_vec}
use wasefire.Interpreter.Valid.Method.{
  Expr, Method, ◌>>=◌, ◌>>◌, pure, lift, require, gets, asks, push, pushs, pop, pop_check, pops,
  swap,
}
use wasefire.Interpreter.Valid.Labels.{is_empty, stack_polymorphic, outermost}

unfoldable pub is_const_mut : Mut → Bool
is_const_mut Mut.const = true
is_const_mut Mut.var = false

unfoldable pub local : ℕ → Method ValType
local x = asks λ e. lookup e.locals x

unfoldable pub has_memory : Method (Unit {0})
has_memory = asks λ e. mode_check check (not (is_empty e.context.mems))

-- `1 << align` on a `usize` of 32 bits, without a check for overflow: the low 5 bits count.
unfoldable pub shl_usize : ℕ → ℕ
shl_usize align = 2 ^ (align % 32)

unfoldable pub load : NumType → ℕ → MemArg → Method (Unit {0})
load t n m = do
  has_memory
  require (leb (shl_usize m.align) (n / 8))
  pop_check ValType.i32
  push (opd_of_num t)

unfoldable pub store : NumType → ℕ → MemArg → Method (Unit {0})
store t n m = do
  has_memory
  require (leb (shl_usize m.align) (n / 8))
  pop_check (val_of_num t)
  pop_check ValType.i32

unfoldable pub testop : NumType → Method (Unit {0})
testop t = do pop_check (val_of_num t); push OpdType.i32

unfoldable pub relop : NumType → Method (Unit {0})
relop t = do pops (val_of_num t ∷ val_of_num t ∷ []); push OpdType.i32

unfoldable pub unop : NumType → Method (Unit {0})
unop t = swap (val_of_num t)

unfoldable pub binop : NumType → Method (Unit {0})
binop t = do pop_check (val_of_num t); swap (val_of_num t)

unfoldable pub cvtop : NumType → NumType → Method (Unit {0})
cvtop dst src = do pop_check (val_of_num src); push (opd_of_num dst)

-- A constant global that is imported. The index into `globals` panics out of range.
unfoldable pub const_global : ℕ → Expr → Outcome (Unit {0})
const_global x e =
    if ltb x e.globals_len
    then elim (get_elem? e.context.globals x) [
      | none ↦ fault
      | some g ↦ mode_check check (is_const_mut g.mutable)
    ]
    else err invalid

unfoldable pub const_instr : Instr → Method (Unit {0})
const_instr (Instr.global_get x) = asks (const_global x)
const_instr (Instr.i32_const _) = pure tt
const_instr (Instr.i64_const _) = pure tt
const_instr (Instr.ref_null _) = pure tt
const_instr (Instr.ref_func _) = pure tt
const_instr _ = require false

-- `refs[x]`: a constant expression sets it, and another tests it. It panics out of range.
unfoldable pub mark_ref : ℕ → Method (Unit {0})
mark_ref x e =
    if ltb x (length e.refs) then ok (tt, record e { refs = set e.refs x true }) else fault

unfoldable pub test_ref : ℕ → Expr → Outcome (Unit {0})
test_ref x e = elim (get_elem? e.refs x) [ none ↦ fault | some b ↦ mode_check check b ]

unfoldable pub ref_func : ℕ → Method (Unit {0})
ref_func x = do
  asks λ e. mode_check check (ltb x (length e.context.funcs))
  constant ← gets λ e. e.is_const
  if constant then mark_ref x else asks (test_ref x)
  push OpdType.func_ref

unfoldable pub select_any : Method (Unit {0})
select_any = do
  pop_check ValType.i32
  t ← pop
  u ← pop
  v ← lift (unify t u)
  require (is_num v || is_vec v)
  push v

unfoldable pub select_typed : ResultType → Method (Unit {0})
select_typed (t ∷ []) = do pops (t ∷ t ∷ ValType.i32 ∷ []); pushs (t ∷ [])
select_typed _ = require false

unfoldable pub return_ : Method (Unit {0})
return_ = do
  asks λ e. mode_check check e.is_body
  l ← asks λ e. outermost e.labels
  pops l.type_.results
  stack_polymorphic

unfoldable pub three : ResultType
three = ValType.i32 ∷ ValType.i32 ∷ ValType.i32 ∷ []

unfoldable pub item_of : ℕ → Method RefType
item_of x = do t ← asks λ e. table e.context x; pure t.item
