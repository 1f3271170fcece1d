-- ===== src/Interpreter/Exec/Instantiate.antt =====
-- crates/interpreter/src/exec.rs: `Store::instantiate`, section by section.
-- The steps change the last instance. The store after an error, which has a part of the instance, is
-- not in the model.
use wasefire.Base.{ℕ, List, [], ◌∷◌, ◌++◌, length, none, some, Bool, ◌==◌, if◌then◌else◌}
use wasefire.Interpreter.Mode
use wasefire.Interpreter.Mode.{Outcome, ok, err, fault, out_of_fuel, Error, use_}
use wasefire.Interpreter.Syntax.Types.{SectionId}
use wasefire.Interpreter.Parser.Leb128.{parse_u32}
use wasefire.Interpreter.Parser.Core.{Parser}
use wasefire.Interpreter.Parser.Segments.{parse_vec}
use wasefire.Interpreter.Module.{Module, Import, imports, section, run, func}
use wasefire.Interpreter.Exec.Values.{ptr_instance, ptr_index, unwrap_wasm, append_locals}
use wasefire.Interpreter.Exec.Memory.{memory_new}
use wasefire.Interpreter.Exec.State.{Store, Thread, frame_new, ◌>>=◌, ◌>>◌, pure, lift, asks}
use wasefire.Interpreter.Exec.Lookup.{OnStore, inst, func_ptr}
use wasefire.Interpreter.Exec.Items.{changing}
use wasefire.Interpreter.Exec.Link.{import_type, resolve}
use wasefire.Interpreter.Exec.Step.{RunResult, const_expr}
use wasefire.Interpreter.Exec.Step.{run as run_thread}
use wasefire.Interpreter.Exec.Sections.{
  instance_new, update, add_ext, parse_one_memory, set_memory, add_table, add_global, add_elem,
  add_data,
}

unfoldable pub link_imports : ℕ → List Import → OnStore (Unit {0})
link_imports inst_id [] = pure tt
link_imports inst_id (import_ ∷ rest) = do
  i ← inst inst_id
  type ← lift (import_type i.module_ import_.desc)
  ptr ← asks (resolve import_ type)
  update inst_id (add_ext import_.desc ptr)
  link_imports inst_id rest

-- A section of the module that is instantiated, if there is one.
unfoldable pub with_section : ℕ → SectionId → (List ℕ → OnStore (Unit {0})) → OnStore (Unit {0})
with_section inst_id id f = do
  i ← inst inst_id
  found ← lift (section i.module_ id)
  elim found [ none ↦ pure tt | some bytes ↦ f bytes ]

-- `for _ in 0 .. parser.parse_vec()`, with a parser that has the store in its state.
unfoldable pub each : (Store → Parser Store) → List ℕ → OnStore (Unit {0})
each step bytes store = changing (λ s. run (parse_vec use_ step s) bytes) store

-- The memory of the module. More than one is `unimplemented!`.
unfoldable pub add_memory : ℕ → Bool → List ℕ → List ℕ → OnStore (Unit {0})
add_memory inst_id aligned bytes section_ = do
  n ← lift (run (parse_u32 use_) section_)
  if n == 0
      then pure tt
      else if n == 1
      then (do
        limits ← lift (run parse_one_memory section_)
        m ← lift (memory_new aligned bytes limits)
        update inst_id (set_memory m))
      else lift fault

-- The thread of the function that starts the module.
unfoldable pub start_thread : ℕ → ℕ → OnStore Thread
start_thread inst_id x = do
  ptr ← func_ptr inst_id x
  y ← lift (unwrap_wasm (ptr_instance ptr))
  i ← inst y
  bytes ← lift (func i.module_ (ptr_index ptr))
  (locals, parser) ← lift (append_locals [] bytes)
  pure (record { parser = parser; frames = frame_new y 0 [] locals ∷ [] })

-- `assert!`: the function ends, without values.
unfoldable pub assert_done : Outcome RunResult × Store → Outcome (Unit {0} × Store)
assert_done (ok (RunResult.done []), store) = ok (tt, store)
assert_done (ok (RunResult.done (v ∷ vs)), store) = fault
assert_done (ok RunResult.host, store) = fault
assert_done (err e, store) = err e
assert_done (fault, store) = fault
assert_done (out_of_fuel, store) = out_of_fuel

unfoldable pub run_start : ℕ → Thread → OnStore (Unit {0})
unfolding Mode.◌>>=◌
run_start fuel thread store =
    Mode.◌>>=◌ (run_thread fuel (record { store = store; thread = thread })) assert_done

unfoldable pub start : ℕ → ℕ → List ℕ → OnStore (Unit {0})
start fuel inst_id section_ = do
  x ← lift (run (parse_u32 use_) section_)
  thread ← start_thread inst_id x
  run_start fuel thread

unfoldable pub push_instance : Module → OnStore (Unit {0})
push_instance m store = ok (tt, record store { insts = store.insts ++ instance_new m ∷ [] })

-- The instance is known by its index. The fuel is that of the expressions and of the start.
unfoldable pub instantiate : ℕ → Module → Bool → List ℕ → OnStore ℕ
instantiate fuel m aligned memory = do
  inst_id ← asks (λ store. ok (length store.insts))
  push_instance m
  imports_ ← lift (imports m)
  link_imports inst_id imports_
  with_section inst_id SectionId.table (each (add_table inst_id))
  with_section inst_id SectionId.memory (add_memory inst_id aligned memory)
  with_section inst_id SectionId.global (each (add_global (const_expr fuel) inst_id))
  with_section inst_id SectionId.element (each (add_elem (const_expr fuel) inst_id))
  with_section inst_id SectionId.data_ (each (add_data (const_expr fuel) inst_id))
  with_section inst_id SectionId.start (start fuel inst_id)
  pure inst_id
