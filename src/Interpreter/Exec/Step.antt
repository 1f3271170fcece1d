-- ===== src/Interpreter/Exec/Step.antt =====
-- crates/interpreter/src/exec.rs: `Thread::step`, `const_expr` and `run`.
-- The loops of `const_expr` and `run` need not end on every module, and have fuel for their rounds.
use wasefire.Base.{ℕ, zero, suc, List, [], ◌∷◌, get_elem?}
use wasefire.Interpreter.Mode
use wasefire.Interpreter.Mode.{Outcome, ok, err, fault, out_of_fuel, trap, use_, Error}
use wasefire.Interpreter.Syntax.Types.{Instr, Sx}
use wasefire.Interpreter.Syntax.Bytes.{num_type_i, nx_width, bx_nx, bx_width}
use wasefire.Interpreter.Parser.Core.{total}
use wasefire.Interpreter.Parser.Instr.{parse_instr}
use wasefire.Interpreter.Exec.Values.{Val}
use wasefire.Interpreter.Exec.State.{
  LabelKind, Thread, Store, frame_new, ◌>>=◌, pure, lift, push_value, save, inst_id, read,
}
use wasefire.Interpreter.Exec.Control.{ThreadResult, exit_label, pop_label, exit_frame}
use wasefire.Interpreter.Exec.Lookup.{Machine, Action, in_thread}
use wasefire.Interpreter.Exec.Segments.{ConstExpr}
use wasefire.Interpreter.Exec.Numeric
use wasefire.Interpreter.Exec.Operands
use wasefire.Interpreter.Exec.Items
use wasefire.Interpreter.Exec.Calls.{
  goes_on, ends, enter, enter_if, else_, br_if, br_table, call, call_indirect,
}

-- An instruction of the instance `i`, where `saved` are the bytes from it on.
unfoldable pub exec : ConstExpr → List ℕ → ℕ → Instr → Action ThreadResult
exec const_expr saved i Instr.unreachable = lift (err trap)
exec const_expr saved i Instr.nop = goes_on (pure tt)
exec const_expr saved i (Instr.block b) = goes_on (enter i b LabelKind.block)
exec const_expr saved i (Instr.loop b) = goes_on (enter i b (LabelKind.loop saved))
exec const_expr saved i (Instr.if_ b) = goes_on (enter_if i b)
exec const_expr saved i Instr.else_ = else_
exec const_expr saved i Instr.end = ends exit_label
exec const_expr saved i (Instr.br l) = ends (pop_label l)
exec const_expr saved i (Instr.br_if l) = br_if l
exec const_expr saved i (Instr.br_table ls ln) = br_table ls ln
exec const_expr saved i Instr.return = ends exit_frame
exec const_expr saved i (Instr.call x) = call i x
exec const_expr saved i (Instr.call_indirect x y) = call_indirect i x y
exec const_expr saved i Instr.drop = goes_on (in_thread Operands.drop_value)
exec const_expr saved i (Instr.select t) = goes_on (in_thread Operands.select)
exec const_expr saved i (Instr.local_get x) = goes_on (in_thread (Operands.local_get x))
exec const_expr saved i (Instr.local_set x) = goes_on (in_thread (Operands.local_set x))
exec const_expr saved i (Instr.local_tee x) = goes_on (in_thread (Operands.local_tee x))
exec const_expr saved i (Instr.global_get x) = goes_on (Items.global_get i x)
exec const_expr saved i (Instr.global_set x) = goes_on (Items.global_set i x)
exec const_expr saved i (Instr.table_get x) = goes_on (Items.table_get i x)
exec const_expr saved i (Instr.table_set x) = goes_on (Items.table_set i x)
exec const_expr saved i (Instr.i_load n m) =
    goes_on (Items.load i (num_type_i n) (nx_width n) Sx.u m)
exec const_expr saved i (Instr.i_load_ b sx m) =
    goes_on (Items.load i (num_type_i (bx_nx b)) (bx_width b) sx m)
exec const_expr saved i (Instr.i_store n m) = goes_on (Items.store i (num_type_i n) (nx_width n) m)
exec const_expr saved i (Instr.i_store_ b m) =
    goes_on (Items.store i (num_type_i (bx_nx b)) (bx_width b) m)
exec const_expr saved i Instr.memory_size = goes_on (Items.memory_size i)
exec const_expr saved i Instr.memory_grow = goes_on (Items.memory_grow i)
exec const_expr saved i (Instr.i32_const c) = goes_on (in_thread (push_value (Val.i32 c)))
exec const_expr saved i (Instr.i64_const c) = goes_on (in_thread (push_value (Val.i64 c)))
exec const_expr saved i (Instr.i_test_op n op) = goes_on (in_thread (Numeric.itestop n op))
exec const_expr saved i (Instr.i_rel_op n op) = goes_on (in_thread (Numeric.irelop n op))
exec const_expr saved i (Instr.i_un_op n op) = goes_on (in_thread (Numeric.iunop n op))
exec const_expr saved i (Instr.i_bin_op n op) = goes_on (in_thread (Numeric.ibinop n op))
exec const_expr saved i (Instr.cvt_op op) = goes_on (in_thread (Numeric.cvtop op))
exec const_expr saved i (Instr.i_extend b) = goes_on (in_thread (Numeric.extend_val b))
exec const_expr saved i (Instr.ref_null t) = goes_on (in_thread (push_value (Val.null t)))
exec const_expr saved i Instr.ref_is_null = goes_on (in_thread Operands.ref_is_null)
exec const_expr saved i (Instr.ref_func x) = goes_on (Items.ref_func i x)
exec const_expr saved i (Instr.memory_init x) = goes_on (Items.init_memory const_expr i x)
exec const_expr saved i (Instr.data_drop x) = goes_on (Items.data_drop i x)
exec const_expr saved i Instr.memory_copy = goes_on (Items.copy_memory i)
exec const_expr saved i Instr.memory_fill = goes_on (Items.fill_memory i)
exec const_expr saved i (Instr.table_init x y) = goes_on (Items.init_table const_expr i x y)
exec const_expr saved i (Instr.elem_drop x) = goes_on (Items.elem_drop i x)
exec const_expr saved i (Instr.table_copy x y) = goes_on (Items.copy_table i x y)
exec const_expr saved i (Instr.table_grow x) = goes_on (Items.table_grow i x)
exec const_expr saved i (Instr.table_size x) = goes_on (Items.table_size i x)
exec const_expr saved i (Instr.table_fill x) = goes_on (Items.fill_table i x)

-- `step`, where `const_expr` evaluates the expressions of segments.
unfoldable pub step_with : ConstExpr → Action ThreadResult
step_with const_expr = do
  saved ← in_thread save
  i ← in_thread inst_id
  instr ← in_thread (read (parse_instr use_))
  exec const_expr saved i instr

-- The bytes before the `end` that ends a constant expression, its values, and the store.
abbrev pub ConstLoop : Type 0
ConstLoop = Store → Thread → Outcome (List ℕ × List Val × Store)

-- `const_expr`, from its loop: the parser goes on after the last `end`.
unfoldable pub const_expr_by : ConstLoop → ConstExpr
unfolding Mode.◌>>=◌
const_expr_by loop inst_id store bytes =
    Mode.◌>>=◌ (loop store (record { parser = bytes; frames = frame_new inst_id 1 [] [] ∷ [] }))
      λ result.
        let (before, values, store') = result in
        Mode.◌>>=◌ (parse_instr use_ before) λ read_.
          let (_, rest) = read_ in
          Mode.◌>>=◌ (total (get_elem? values 0)) λ v. ok ((v, store'), rest)

-- A round of the loop of `const_expr`: an error is an `unwrap` that panics, and so is a host call.
unfoldable pub const_round :
    List ℕ → ConstLoop → Outcome (ThreadResult × Machine) → Outcome (List ℕ × List Val × Store)
const_round before loop (ok (ThreadResult.continue_ t, m)) = loop m.store t
const_round before loop (ok (ThreadResult.done values, m)) = ok (before, values, m.store)
const_round before loop (ok (ThreadResult.host, m)) = fault
const_round before loop (err e) = fault
const_round before loop fault = fault
const_round before loop out_of_fuel = out_of_fuel

unfoldable pub const_loop : ℕ → ConstLoop
const_loop zero store t = out_of_fuel
const_loop (suc fuel) store t =
    const_round t.parser (const_loop fuel)
      (step_with (const_expr_by (const_loop fuel)) (record { store = store; thread = t }))

unfoldable pub const_expr : ℕ → ConstExpr
const_expr fuel = const_expr_by (const_loop fuel)

unfoldable pub step : ℕ → Action ThreadResult
step fuel = step_with (const_expr fuel)

-- `RunResult`: the values, or a call of the host, whose continuation the store has.
pub data RunResult : Type 0 where
  done : List Val → RunResult
  host : RunResult

-- What `run` returns, an error included, with the store that it leaves.
abbrev pub RunEnd : Type 0
RunEnd = Outcome RunResult × Store

-- An instruction that traps leaves the store as it was.
unfoldable pub run_round :
    Store → (Machine → Outcome RunEnd) → Outcome (ThreadResult × Machine) → Outcome RunEnd
run_round before go (ok (ThreadResult.continue_ t, m)) = go (record m { thread = t })
run_round before go (ok (ThreadResult.done values, m)) = ok (ok (RunResult.done values), m.store)
run_round before go (ok (ThreadResult.host, m)) = ok (ok RunResult.host, m.store)
run_round before go (err e) = ok (err e, before)
run_round before go fault = fault
run_round before go out_of_fuel = out_of_fuel

unfoldable pub run : ℕ → Machine → Outcome RunEnd
run zero m = out_of_fuel
run (suc fuel) m = run_round m.store (run fuel) (step fuel m)
