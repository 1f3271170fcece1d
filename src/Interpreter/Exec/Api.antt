-- ===== src/Interpreter/Exec/Api.antt =====
-- crates/interpreter/src/exec.rs: the public methods of `Store`, and those of `Call`.
use wasefire.Base.{ℕ, List, [], ◌∷◌, length, get_elem?, set, Option, none, some, ◌==◌}
use wasefire.Interpreter.Mode.{
  Outcome, ok, err, fault, out_of_fuel, ◌>>=◌, ◌>>◌, not_found, invalid, mode_check, check,
}
use wasefire.Interpreter.Syntax.Types.{ExportDesc}
use wasefire.Interpreter.Parser.Core.{total}
use wasefire.Interpreter.Module.{func_type, func, export}
use wasefire.Interpreter.Exec.Values.{
  Val, Ptr, component_ptr, ptr_instance, ptr_index, unwrap_wasm, check_types, append_locals,
}
use wasefire.Interpreter.Exec.State.{Continuation, Instance, Store, frame_new, push_values}
use wasefire.Interpreter.Exec.Lookup.{Machine, mem}
use wasefire.Interpreter.Exec.Step.{RunEnd, run}

pub record InstId : Type 0 where
  pub store_id : ℕ
  pub inst_id : ℕ

-- `self.inst_id(inst)?` and `&self.insts[inst_id]`
unfoldable pub own_inst : InstId → Store → Outcome Instance
own_inst i store = do
  mode_check check (store.id == i.store_id)
  total (get_elem? store.insts i.inst_id)

-- `export(name).ok_or_else(not_found)?`
unfoldable pub find_export : Instance → List ℕ → Outcome ExportDesc
find_export i name = do
  found ← export i.module_ name
  elim found [ none ↦ err not_found | some desc ↦ ok desc ]

-- The pointer to the function that an instance exports, and to a global.
unfoldable pub exported_func : Instance → ℕ → ExportDesc → Outcome Ptr
exported_func i inst_id (ExportDesc.func x) = component_ptr i.funcs inst_id x
exported_func i inst_id _ = err invalid

unfoldable pub exported_global : Instance → ℕ → ExportDesc → Outcome Ptr
exported_global i inst_id (ExportDesc.global x) = component_ptr i.globals inst_id x
exported_global i inst_id _ = err invalid

-- What `invoke` runs.
unfoldable pub invocation : InstId → List ℕ → List Val → Store → Outcome Machine
invocation id name args store = do
  caller ← own_inst id store
  desc ← find_export caller name
  ptr ← exported_func caller id.inst_id desc
  y ← unwrap_wasm (ptr_instance ptr)
  i ← total (get_elem? store.insts y)
  t ← func_type i.module_ (ptr_index ptr)
  bytes ← func i.module_ (ptr_index ptr)
  check_types t.params args
  (locals, parser) ← append_locals args bytes
  ok (record {
    store = store;
    thread = record { parser = parser; frames = frame_new y (length t.results) [] locals ∷ [] };
  })

-- A machine that is run, where there is one. An error leaves the store as given.
unfoldable pub run_machine : ℕ → Store → Outcome Machine → Outcome RunEnd
run_machine fuel store (ok m) = run fuel m
run_machine fuel store (err e) = ok (err e, store)
run_machine fuel store fault = fault
run_machine fuel store out_of_fuel = out_of_fuel

unfoldable pub invoke : ℕ → InstId → List ℕ → List Val → Store → Outcome RunEnd
invoke fuel id name args store = run_machine fuel store (invocation id name args store)

unfoldable pub get_global : InstId → List ℕ → Store → Outcome Val
get_global id name store = do
  caller ← own_inst id store
  desc ← find_export caller name
  ptr ← exported_global caller id.inst_id desc
  y ← unwrap_wasm (ptr_instance ptr)
  i ← total (get_elem? store.insts y)
  total (get_elem? i.globals.int (ptr_index ptr))

unfoldable pub set_name : InstId → List ℕ → Store → Outcome Store
set_name id name store = do
  i ← own_inst id store
  ok (record store { insts = set store.insts id.inst_id (record i { name = name }) })

-- `last_call`: the thread that waits for the host.
unfoldable pub last_call : Store → Option Continuation
last_call store = elim store.threads [ [] ↦ none | c ∷ _ ↦ some c ]

-- The instance of a call, which panics for a thread without a frame, and its memory.
unfoldable pub call_inst : Continuation → Store → Outcome InstId
call_inst c store = elim c.thread.frames [
  | [] ↦ fault
  | f ∷ _ ↦ ok (record { store_id = store.id; inst_id = f.inst_id })
]

unfoldable pub call_mem : Continuation → Store → Outcome (List ℕ)
call_mem c store = do
  id ← call_inst c store
  (bytes, _) ← mem id.inst_id 0 (λ m. ok (m.bytes, m)) store
  ok bytes

-- `mem_mut`, with the bytes that the host writes there.
unfoldable pub set_call_mem : Continuation → List ℕ → Store → Outcome Store
set_call_mem c bytes store = do
  id ← call_inst c store
  (_, store') ← mem id.inst_id 0 (λ m. ok (tt {0}, record m { bytes = bytes })) store
  ok store'

-- The thread that goes on with the results of the host.
unfoldable pub resumed : Continuation → List Val → Store → Outcome Machine
resumed c results store = do
  mode_check check (length results == c.arity)
  (_, thread) ← push_values results c.thread
  ok (record { store = store; thread = thread })

-- `resume`, whose `unwrap` panics where nothing waits. The thread is gone, even after an error.
unfoldable pub resume : ℕ → List Val → Store → Outcome RunEnd
resume fuel results store = elim store.threads [
  | [] ↦ fault
  | c ∷ threads ↦
      let rest : Store = record store { threads = threads } in
      run_machine fuel rest (resumed c results rest)
]
