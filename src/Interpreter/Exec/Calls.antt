-- ===== src/Interpreter/Exec/Calls.antt =====
-- crates/interpreter/src/exec.rs: the instructions of `step` that enter blocks, and `invoke`.
use wasefire.Base.{
  ℕ, List, ◌∷◌, length, get_elem?, get_or, none, some, leb, ◌==◌, ◌&&◌, Bool, if◌then◌else◌,
}
use wasefire.Interpreter.Mode.{Outcome, ok, err, fault, trap}
use wasefire.Interpreter.Syntax.Types.{BlockType, FuncType}
use wasefire.Interpreter.Valid.OpdType.{result_eq}
use wasefire.Interpreter.Module.{nth_type, func}
use wasefire.Interpreter.Exec.Values.{Val, Ptr, Side, ptr_instance, ptr_index, append_locals}
use wasefire.Interpreter.Exec.Memory.{Table}
use wasefire.Interpreter.Exec.State.{
  LabelKind, Thread, Continuation, frame_new, Method, ◌>>=◌, ◌>>◌, pure, lift, asks, pop_values,
}
use wasefire.Interpreter.Exec.Control.{
  ThreadResult, blocktype, push_label, exit_label, pop_label, skip_to_else, skip_to_end,
}
use wasefire.Interpreter.Exec.Lookup.{
  Action, OnStore, in_store, in_thread, inst, func_ptr, host_func, func_type_of, table,
}
use wasefire.Interpreter.Exec.Operands.{pop_i32}

-- `Ok(ThreadResult::Continue(self))` after an instruction, and what a method of the thread returns.
unfoldable pub goes_on : Action (Unit {0}) → Action ThreadResult
goes_on p = do p; asks λ m. ok (ThreadResult.continue_ m.thread)

unfoldable pub ends : (Thread → Outcome ThreadResult) → Action ThreadResult
ends f = asks λ m. f m.thread

unfoldable pub enter : ℕ → BlockType → LabelKind → Action (Unit {0})
enter inst_id b kind = do
  i ← in_store (inst inst_id)
  t ← lift (blocktype i.module_ b)
  in_thread (push_label t kind)

unfoldable pub enter_if : ℕ → BlockType → Action (Unit {0})
enter_if inst_id b = do
  c ← in_thread pop_i32
  if c == 0
      then (do in_thread skip_to_else; enter inst_id b LabelKind.block)
      else enter inst_id b LabelKind.if_

unfoldable pub else_ : Action ThreadResult
else_ = do in_thread (skip_to_end 0); ends exit_label

unfoldable pub br_if : ℕ → Action ThreadResult
br_if l = do c ← in_thread pop_i32; if c == 0 then goes_on (pure tt) else ends (pop_label l)

unfoldable pub br_table : List ℕ → ℕ → Action ThreadResult
br_table ls ln = do i ← in_thread pop_i32; ends (pop_label (get_or ls i ln))

abbrev pub max_frames : ℕ
max_frames = 1000

unfoldable pub push_thread : Continuation → OnStore (Unit {0})
push_thread c store = ok (tt, record store { threads = c ∷ store.threads })

-- A call of the host, with the thread that waits for it. The threads have the last one first.
unfoldable pub invoke_host : ℕ → Action ThreadResult
invoke_host index = do
  (_, t) ← in_store (host_func index)
  args ← in_thread (pop_values (length t.params))
  thread ← asks (λ m. ok m.thread)
  in_store (
      push_thread
        (record { thread = thread; index = index; args = args; arity = length t.results }))
  pure ThreadResult.host

unfoldable pub push_frame : ℕ → ℕ → List Val → List ℕ → Method (Unit {0})
push_frame inst_id arity locals parser t =
    ok (tt, record { parser = parser; frames = frame_new inst_id arity t.parser locals ∷ t.frames })

unfoldable pub invoke_wasm : FuncType → ℕ → ℕ → Action ThreadResult
invoke_wasm t inst_id x = do
  i ← in_store (inst inst_id)
  bytes ← lift (func i.module_ x)
  args ← in_thread (pop_values (length t.params))
  (locals, parser) ← lift (append_locals args bytes)
  goes_on (in_thread (push_frame inst_id (length t.results) locals parser))

-- The function at an index, on either side.
unfoldable pub invoke_side : FuncType → ℕ → Side → Action ThreadResult
invoke_side t index Side.host = invoke_host index
invoke_side t index (Side.wasm inst_id) = invoke_wasm t inst_id index

unfoldable pub invoke_ptr : Ptr → Action ThreadResult
invoke_ptr ptr = do
  t ← in_store (func_type_of ptr)
  invoke_side t (ptr_index ptr) (ptr_instance ptr)

unfoldable pub invoke : Ptr → Action ThreadResult
invoke ptr = do
  frames ← asks (λ m. ok m.thread.frames)
  if leb max_frames (length frames) then lift (err trap) else invoke_ptr ptr

unfoldable pub call : ℕ → ℕ → Action ThreadResult
call inst_id x = do ptr ← in_store (func_ptr inst_id x); invoke ptr

-- The function at an index of a table. Where there is none, it traps.
unfoldable pub callee : ℕ → Table → Outcome (Ptr × Table)
callee i t = elim (get_elem? t.elems i) [
  | none ↦ err trap
  | some v ↦ elim v [
    | Val.null _ ↦ err trap
    | Val.ref p ↦ ok (p, t)
    | Val.i32 _ ↦ fault
    | Val.i64 _ ↦ fault
    | Val.ref_extern _ ↦ fault
  ]
]

unfoldable pub functype_eq : FuncType → FuncType → Bool
functype_eq t t' = result_eq t.params t'.params && result_eq t.results t'.results

unfoldable pub call_indirect : ℕ → ℕ → ℕ → Action ThreadResult
call_indirect inst_id x y = do
  i ← in_thread pop_i32
  ptr ← in_store (table inst_id x (callee i))
  actual ← in_store (func_type_of ptr)
  caller ← in_store (inst inst_id)
  expected ← lift (nth_type caller.module_ y)
  if functype_eq actual expected then invoke ptr else lift (err trap)
