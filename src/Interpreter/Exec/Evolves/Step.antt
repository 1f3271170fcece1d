-- ===== src/Interpreter/Exec/Evolves/Step.antt =====
-- crates/interpreter/src/exec.rs: `step`, `const_expr` and `run`, under which the store evolves.
use wasefire.Base.{ℕ, zero, suc, List, [], ◌∷◌, get_elem?, ◌≡◌, refl, arith, subst}
use wasefire.Interpreter.Parser.Core.{total}
use wasefire.Interpreter.Mode.{Outcome, ok, err, fault, out_of_fuel, use_}
use wasefire.Interpreter.Syntax.Types.{Instr, BlockType, FuncType}
use wasefire.Interpreter.Parser.Instr.{parse_instr}
use wasefire.Interpreter.Exec.Values.{Val, Ptr, Side}
use wasefire.Interpreter.Exec.State.{LabelKind, Thread, Continuation, Store}
use wasefire.Interpreter.Exec.Control.{ThreadResult}
use wasefire.Interpreter.Exec.Lookup.{Machine, Action}
use wasefire.Interpreter.Exec.Segments.{ConstExpr}
use wasefire.Interpreter.Exec.Calls.{
  goes_on, ends, enter, enter_if, else_, br_if, br_table, push_thread, invoke_host, invoke_wasm,
  invoke_side, invoke_ptr, invoke, call, callee, call_indirect,
}
use wasefire.Interpreter.Exec.Step.{
  exec, step_with, ConstLoop, const_expr_by, const_round, const_loop, const_expr, step, RunResult,
  RunEnd, run_round, run,
}
use wasefire.Interpreter.Exec.Keeps.{Keeps, InStore, Keeps-then, Keeps-asks, Keeps-same}
use wasefire.Interpreter.Exec.Evolves.{
  Evolves, Evolves-Preorder, TableEvolves, TableEvolves-Preorder, Each-same,
  InstanceEvolves-Preorder,
}
use wasefire.Interpreter.Exec.Evolves.Items.{outcome_bind-inv}
use wasefire.Interpreter.Exec.Evolves.Places.{
  inst-Keeps, func_ptr-Keeps, func_type_of-Keeps, host_func-Keeps, table-Keeps,
}
use wasefire.Interpreter.Exec.Evolves.Segments.{KeepsConst}
use wasefire.Interpreter.Exec.Evolves.Instr.{
  MachineEvolves-Preorder, machine_rules, global_get-Keeps, global_set-Keeps, table_get-Keeps,
  table_set-Keeps, load-Keeps, store-Keeps, memory_size-Keeps, memory_grow-Keeps, ref_func-Keeps,
  copy_memory-Keeps, fill_memory-Keeps, copy_table-Keeps, table_grow-Keeps, table_size-Keeps,
  fill_table-Keeps, data_drop-Keeps, elem_drop-Keeps, init_memory-Keeps, init_table-Keeps,
}

goes_on-Keeps :
    (p : Action (Unit {0})) → Keeps (InStore Evolves) p → Keeps (InStore Evolves) (goes_on p)
unfolding goes_on
goes_on-Keeps p h = Keeps-then _ _ MachineEvolves-Preorder h (Keeps-asks _ MachineEvolves-Preorder)

ends-Keeps : (f : Thread → Outcome ThreadResult) → Keeps (InStore Evolves) (ends f)
unfolding ends
ends-Keeps f = search machine_rules

enter-Keeps : (y : ℕ) (b : BlockType) (kind : LabelKind) → Keeps (InStore Evolves) (enter y b kind)
unfolding enter
enter-Keeps y b kind = search (machine_rules, inst-Keeps) depth 12

ruleset control_rules = (machine_rules, goes_on-Keeps, ends-Keeps, enter-Keeps)

enter_if-Keeps : (y : ℕ) (b : BlockType) → Keeps (InStore Evolves) (enter_if y b)
unfolding enter_if
enter_if-Keeps y b = search control_rules depth 12

else-Keeps : Keeps (InStore Evolves) else_
unfolding else_
else-Keeps = search control_rules depth 12

br_if-Keeps : (l : ℕ) → Keeps (InStore Evolves) (br_if l)
unfolding br_if
br_if-Keeps l = search control_rules depth 12

br_table-Keeps : (ls : List ℕ) (ln : ℕ) → Keeps (InStore Evolves) (br_table ls ln)
unfolding br_table
br_table-Keeps ls ln = search control_rules depth 12

push_thread-Keeps : (c : Continuation) → Keeps Evolves (push_thread c)
unfolding push_thread
push_thread-Keeps c = record {
  keeps = λ s a s' e.
      let same : record s { threads = c ∷ s.threads } ≡ s' = ground arith in
      subst (Evolves s) same (record {
        id = refl;
        funcs = refl;
        insts = Each-same InstanceEvolves-Preorder.same s.insts;
        threads = (c ∷ [], refl);
      });
}

invoke_host-Keeps : (x : ℕ) → Keeps (InStore Evolves) (invoke_host x)
unfolding invoke_host
invoke_host-Keeps x = search (control_rules, host_func-Keeps, push_thread-Keeps) depth 20

invoke_wasm-Keeps : (t : FuncType) (y x : ℕ) → Keeps (InStore Evolves) (invoke_wasm t y x)
unfolding invoke_wasm
invoke_wasm-Keeps t y x = search (control_rules, inst-Keeps) depth 20

invoke_side-Keeps :
    (t : FuncType) (x : ℕ) (side : Side) → Keeps (InStore Evolves) (invoke_side t x side)
unfolding invoke_side
invoke_side-Keeps t x Side.host = invoke_host-Keeps x
invoke_side-Keeps t x (Side.wasm y) = invoke_wasm-Keeps t y x

invoke-Keeps : (ptr : Ptr) → Keeps (InStore Evolves) (invoke ptr)
unfolding invoke invoke_ptr
invoke-Keeps ptr = search (control_rules, func_type_of-Keeps, invoke_side-Keeps) depth 20

callee-Keeps : (i : ℕ) → Keeps TableEvolves (callee i)
unfolding callee
callee-Keeps i = Keeps-same _ TableEvolves-Preorder λ t p t' e. ground arith

call-Keeps : (y x : ℕ) → Keeps (InStore Evolves) (call y x)
unfolding call
call-Keeps y x = search (control_rules, func_ptr-Keeps, invoke-Keeps) depth 20

call_indirect-Keeps : (y x t : ℕ) → Keeps (InStore Evolves) (call_indirect y x t)
unfolding call_indirect
call_indirect-Keeps y x t =
    search (control_rules, inst-Keeps, func_type_of-Keeps, table-Keeps, callee-Keeps, invoke-Keeps)
      depth 24

ruleset exec_rules = (
  control_rules, enter_if-Keeps, else-Keeps, br_if-Keeps, br_table-Keeps, call-Keeps,
  call_indirect-Keeps, global_get-Keeps, global_set-Keeps, table_get-Keeps, table_set-Keeps,
  load-Keeps, store-Keeps, memory_size-Keeps, memory_grow-Keeps, ref_func-Keeps, copy_memory-Keeps,
  fill_memory-Keeps, copy_table-Keeps, table_grow-Keeps, table_size-Keeps, fill_table-Keeps,
  data_drop-Keeps, elem_drop-Keeps, init_memory-Keeps, init_table-Keeps,
)

module _ (const_expr : ConstExpr) (kept : KeepsConst const_expr) where
  exec-Keeps :
      (saved : List ℕ) (i : ℕ) (instr : Instr)
      → Keeps (InStore Evolves) (exec const_expr saved i instr)
  unfolding exec
  exec-Keeps saved i Instr.unreachable = search exec_rules depth 12
  exec-Keeps saved i Instr.nop = search exec_rules depth 12
  exec-Keeps saved i (Instr.block b) = search exec_rules depth 12
  exec-Keeps saved i (Instr.loop b) = search exec_rules depth 12
  exec-Keeps saved i (Instr.if_ b) = search exec_rules depth 12
  exec-Keeps saved i Instr.else_ = search exec_rules depth 12
  exec-Keeps saved i Instr.end = search exec_rules depth 12
  exec-Keeps saved i (Instr.br l) = search exec_rules depth 12
  exec-Keeps saved i (Instr.br_if l) = search exec_rules depth 12
  exec-Keeps saved i (Instr.br_table ls ln) = search exec_rules depth 12
  exec-Keeps saved i Instr.return = search exec_rules depth 12
  exec-Keeps saved i (Instr.call x) = search exec_rules depth 12
  exec-Keeps saved i (Instr.call_indirect x y) = search exec_rules depth 12
  exec-Keeps saved i Instr.drop = search exec_rules depth 12
  exec-Keeps saved i (Instr.select t) = search exec_rules depth 12
  exec-Keeps saved i (Instr.local_get x) = search exec_rules depth 12
  exec-Keeps saved i (Instr.local_set x) = search exec_rules depth 12
  exec-Keeps saved i (Instr.local_tee x) = search exec_rules depth 12
  exec-Keeps saved i (Instr.global_get x) = search exec_rules depth 12
  exec-Keeps saved i (Instr.global_set x) = search exec_rules depth 12
  exec-Keeps saved i (Instr.table_get x) = search exec_rules depth 12
  exec-Keeps saved i (Instr.table_set x) = search exec_rules depth 12
  exec-Keeps saved i (Instr.i_load n m) = search exec_rules depth 12
  exec-Keeps saved i (Instr.i_load_ b sx m) = search exec_rules depth 12
  exec-Keeps saved i (Instr.i_store n m) = search exec_rules depth 12
  exec-Keeps saved i (Instr.i_store_ b m) = search exec_rules depth 12
  exec-Keeps saved i Instr.memory_size = search exec_rules depth 12
  exec-Keeps saved i Instr.memory_grow = search exec_rules depth 12
  exec-Keeps saved i (Instr.i32_const c) = search exec_rules depth 12
  exec-Keeps saved i (Instr.i64_const c) = search exec_rules depth 12
  exec-Keeps saved i (Instr.i_test_op n op) = search exec_rules depth 12
  exec-Keeps saved i (Instr.i_rel_op n op) = search exec_rules depth 12
  exec-Keeps saved i (Instr.i_un_op n op) = search exec_rules depth 12
  exec-Keeps saved i (Instr.i_bin_op n op) = search exec_rules depth 12
  exec-Keeps saved i (Instr.cvt_op op) = search exec_rules depth 12
  exec-Keeps saved i (Instr.i_extend b) = search exec_rules depth 12
  exec-Keeps saved i (Instr.ref_null t) = search exec_rules depth 12
  exec-Keeps saved i Instr.ref_is_null = search exec_rules depth 12
  exec-Keeps saved i (Instr.ref_func x) = search exec_rules depth 12
  exec-Keeps saved i (Instr.memory_init x) = search (exec_rules, kept) depth 12
  exec-Keeps saved i (Instr.data_drop x) = search exec_rules depth 12
  exec-Keeps saved i Instr.memory_copy = search exec_rules depth 12
  exec-Keeps saved i Instr.memory_fill = search exec_rules depth 12
  exec-Keeps saved i (Instr.table_init x y) = search (exec_rules, kept) depth 12
  exec-Keeps saved i (Instr.elem_drop x) = search exec_rules depth 12
  exec-Keeps saved i (Instr.table_copy x y) = search exec_rules depth 12
  exec-Keeps saved i (Instr.table_grow x) = search exec_rules depth 12
  exec-Keeps saved i (Instr.table_size x) = search exec_rules depth 12
  exec-Keeps saved i (Instr.table_fill x) = search exec_rules depth 12

  step_with-Keeps : Keeps (InStore Evolves) (step_with const_expr)
  unfolding step_with
  step_with-Keeps = search (machine_rules, exec-Keeps) depth 20

-- `const_expr`, by induction on its fuel.
abbrev KeepsLoop : ConstLoop → Type 0
KeepsLoop loop =
    (s : Store) (t : Thread) (r : List ℕ × List Val × Store) → loop s t ≡ ok r → Evolves s (r.2)

const_expr_by-Keeps : (loop : ConstLoop) → KeepsLoop loop → KeepsConst (const_expr_by loop)
unfolding const_expr_by
const_expr_by-Keeps loop h y s = record {
  returns = λ bytes a rest e.
      let (r, done, e1) = outcome_bind-inv (loop s _) _ (a, rest) e in
      let (read_, _, e2) = outcome_bind-inv (parse_instr use_ (r.0)) _ (a, rest) e1 in
      let (v, _, e3) = outcome_bind-inv (total (get_elem? (r.1) 0)) _ (a, rest) e2 in
      subst (Evolves s) (ground arith) (h s _ r done);
}

const_round-Keeps :
    (before : List ℕ) (loop : ConstLoop) (s : Store) (o : Outcome (ThreadResult × Machine))
    → KeepsLoop loop
    → ((r : ThreadResult) (m : Machine) → o ≡ ok (r, m) → Evolves s m.store)
    → (r : List ℕ × List Val × Store) → const_round before loop o ≡ ok r
    → Evolves s (r.2)
unfolding const_round
const_round-Keeps before loop s (ok (ThreadResult.continue_ t, m)) h k r e =
    Evolves-Preorder.then_ s m.store (r.2) (k _ m refl) (h m.store t r e)
const_round-Keeps before loop s (ok (ThreadResult.done vs, m)) h k r e =
    subst (Evolves s) (ground arith) (k _ m refl)
const_round-Keeps before loop s (ok (ThreadResult.host, m)) h k r e = cc
const_round-Keeps before loop s (err x) h k r e = cc
const_round-Keeps before loop s fault h k r e = cc
const_round-Keeps before loop s out_of_fuel h k r e = cc

const_loop-Keeps : (fuel : ℕ) → KeepsLoop (const_loop fuel)
unfolding const_loop
const_loop-Keeps zero s t r e = cc
const_loop-Keeps (suc fuel) s t r e =
    let kept = const_expr_by-Keeps (const_loop fuel) (const_loop-Keeps fuel) in
    const_round-Keeps t.parser (const_loop fuel) s _ (const_loop-Keeps fuel)
      (λ a m done.
        ((step_with-Keeps (const_expr_by (const_loop fuel)) kept).keeps _ a m done).store)
      r e

const_expr-Keeps : (fuel : ℕ) → KeepsConst (const_expr fuel)
unfolding const_expr
const_expr-Keeps fuel = const_expr_by-Keeps (const_loop fuel) (const_loop-Keeps fuel)

step-Evolves :
    (fuel : ℕ) (m : Machine) (r : ThreadResult) (m' : Machine)
    → step fuel m ≡ ok (r, m')
    → Evolves m.store m'.store
unfolding step
step-Evolves fuel m r m' e =
    ((step_with-Keeps (const_expr fuel) (const_expr-Keeps fuel)).keeps m r m' e).store

run_round-Keeps :
    (m : Machine) (go : Machine → Outcome RunEnd) (o : Outcome (ThreadResult × Machine))
    → ((n : Machine) (end_ : Outcome RunResult) (s : Store)
        → go n ≡ ok (end_, s)
        → Evolves n.store s)
    → ((r : ThreadResult) (m' : Machine) → o ≡ ok (r, m') → Evolves m.store m'.store)
    → (end_ : Outcome RunResult) (s : Store) → run_round m.store go o ≡ ok (end_, s)
    → Evolves m.store s
unfolding run_round
run_round-Keeps m go (ok (ThreadResult.continue_ t, m')) h k r s e =
    Evolves-Preorder.then_ m.store m'.store s (k _ m' refl) (h _ r s e)
run_round-Keeps m go (ok (ThreadResult.done vs, m')) h k r s e =
    subst (Evolves m.store) (ground arith) (k _ m' refl)
run_round-Keeps m go (ok (ThreadResult.host, m')) h k r s e =
    subst (Evolves m.store) (ground arith) (k _ m' refl)
run_round-Keeps m go (err x) h k r s e =
    subst (Evolves m.store) (ground arith) (Evolves-Preorder.same m.store)
run_round-Keeps m go fault h k r s e = cc
run_round-Keeps m go out_of_fuel h k r s e = cc

-- If a run ends without a fault, in a result, a trap or a call of the host, then the store has the
-- identifier and the host functions that it had, each instance its name, module, imports and
-- functions, and the threads that waited still wait. No memory or table shrinks, or grows over its
-- maximum, and the memories have as many bytes and the instances as many globals as before.
pub run-Evolves :
    (fuel : ℕ) (m : Machine) (r : Outcome RunResult) (s : Store)
    → run fuel m ≡ ok (r, s)
    → Evolves m.store s
unfolding run
run-Evolves zero m r s e = cc
run-Evolves (suc fuel) m r s e =
    run_round-Keeps m (run fuel) (step fuel m) (run-Evolves fuel) (step-Evolves fuel m) r s e
