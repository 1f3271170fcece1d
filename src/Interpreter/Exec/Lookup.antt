-- ===== src/Interpreter/Exec/Lookup.antt =====
-- crates/interpreter/src/exec.rs: the methods of `Store` that find an item of an instance.
use wasefire.Base.{ℕ, List, set, get_elem?, none, some, ◌==◌, if◌then◌else◌}
use wasefire.Interpreter.Mode.{Outcome, ok, err, fault, out_of_fuel}
use wasefire.Interpreter.Syntax.Types.{FuncType}
use wasefire.Interpreter.Parser.Core.{total}
use wasefire.Interpreter.Module.{func_type}
use wasefire.Interpreter.Exec.Values.{
  Val, Ptr, Side, unwrap_wasm, ptr_instance, ptr_index, Component, component_ptr,
}
use wasefire.Interpreter.Exec.Memory.{Memory, Table}
use wasefire.Interpreter.Exec.State.{
  Thread, HostName, Instance, Store, Stateful, ◌>>=◌, pure, lift, asks,
}

-- The store and the thread that runs on it.
pub record Machine : Type 0 where
  pub store : Store
  pub thread : Thread

abbrev pub Action {ℓ} : Type ℓ → Type ℓ
Action A = Stateful Machine A

-- A method of the store, and one of the thread.
abbrev pub OnStore {ℓ} : Type ℓ → Type ℓ
OnStore A = Stateful Store A

unfoldable pub in_store {ℓ} : {A : Type ℓ} → OnStore A → Action A
in_store p m = elim (p m.store) [
  | ok (a, store) ↦ ok (a, record m { store = store })
  | err e ↦ err e
  | fault ↦ fault
  | out_of_fuel ↦ out_of_fuel
]

unfoldable pub in_thread {ℓ} : {A : Type ℓ} → Stateful Thread A → Action A
in_thread p m = elim (p m.thread) [
  | ok (a, thread) ↦ ok (a, record m { thread = thread })
  | err e ↦ err e
  | fault ↦ fault
  | out_of_fuel ↦ out_of_fuel
]

-- An element of a list, changed. Out of range it panics.
unfoldable pub on_elem {ℓ κ} :
    {A : Type ℓ} {B : Type κ} → ℕ → (A → Outcome (B × A)) → Stateful (List A) B
on_elem x f xs = elim (get_elem? xs x) [
  | none ↦ fault
  | some a ↦ elim (f a) [
    | ok (b, a') ↦ ok (b, set xs x a')
    | err e ↦ err e
    | fault ↦ fault
    | out_of_fuel ↦ out_of_fuel
  ]
]

unfoldable pub on_inst {ℓ} : {A : Type ℓ} → ℕ → (Instance → Outcome (A × Instance)) → OnStore A
on_inst inst_id f store = elim (on_elem inst_id f store.insts) [
  | ok (a, insts) ↦ ok (a, record store { insts = insts })
  | err e ↦ err e
  | fault ↦ fault
  | out_of_fuel ↦ out_of_fuel
]

-- `self.insts[x]`
unfoldable pub inst : ℕ → OnStore Instance
inst inst_id = asks λ store. total (get_elem? store.insts inst_id)

-- `func_ptr` and the like
unfoldable pub ptr_of {ℓ} : {T : Type ℓ} → (Instance → Component T) → ℕ → ℕ → OnStore Ptr
ptr_of component inst_id x = do i ← inst inst_id; lift (component_ptr (component i) inst_id x)

unfoldable pub func_ptr : ℕ → ℕ → OnStore Ptr
func_ptr inst_id x = ptr_of (λ i. i.funcs) inst_id x

-- The instance and the index where an item is.
unfoldable pub place_of {ℓ} : {T : Type ℓ} → (Instance → Component T) → ℕ → ℕ → OnStore (ℕ × ℕ)
place_of component inst_id x = do
  ptr ← ptr_of component inst_id x
  y ← lift (unwrap_wasm (ptr_instance ptr))
  pure (y, ptr_index ptr)

unfoldable pub host_func : ℕ → OnStore (HostName × FuncType)
host_func x = asks λ store. total (get_elem? store.funcs x)

unfoldable pub func_type_of : Ptr → OnStore FuncType
func_type_of ptr = elim (ptr_instance ptr) [
  | Side.host ↦ do (_, t) ← host_func (ptr_index ptr); pure t
  | Side.wasm y ↦ do i ← inst y; lift (func_type i.module_ (ptr_index ptr))
]

-- What an access to the field of an instance does.
unfoldable pub on_tables {ℓ} :
    {A : Type ℓ} → ℕ → (Table → Outcome (A × Table)) → Instance → Outcome (A × Instance)
on_tables y f i = elim (on_elem y f i.tables.int) [
  | ok (a, tables) ↦ ok (a, record i { tables = record i.tables { int = tables } })
  | err e ↦ err e
  | fault ↦ fault
  | out_of_fuel ↦ out_of_fuel
]

unfoldable pub on_globals {ℓ} :
    {A : Type ℓ} → ℕ → (Val → Outcome (A × Val)) → Instance → Outcome (A × Instance)
on_globals y f i = elim (on_elem y f i.globals.int) [
  | ok (a, globals) ↦ ok (a, record i { globals = record i.globals { int = globals } })
  | err e ↦ err e
  | fault ↦ fault
  | out_of_fuel ↦ out_of_fuel
]

-- An instance has one memory of its own: `assert_eq!(ptr.index(), 0)`.
unfoldable pub on_memory {ℓ} :
    {A : Type ℓ} → ℕ → (Memory → Outcome (A × Memory)) → Instance → Outcome (A × Instance)
on_memory y f i =
    if y == 0
    then (elim (f i.mems.int) [
      | ok (a, mem) ↦ ok (a, record i { mems = record i.mems { int = mem } })
      | err e ↦ err e
      | fault ↦ fault
      | out_of_fuel ↦ out_of_fuel
    ])
    else fault

-- `table`, `mem` and `global`, with what is done there.
unfoldable pub table {ℓ} : {A : Type ℓ} → ℕ → ℕ → (Table → Outcome (A × Table)) → OnStore A
table inst_id x f = do
  (y, index) ← place_of (λ i. i.tables) inst_id x
  on_inst y (on_tables index f)

unfoldable pub mem {ℓ} : {A : Type ℓ} → ℕ → ℕ → (Memory → Outcome (A × Memory)) → OnStore A
mem inst_id x f = do (y, index) ← place_of (λ i. i.mems) inst_id x; on_inst y (on_memory index f)

unfoldable pub global {ℓ} : {A : Type ℓ} → ℕ → ℕ → (Val → Outcome (A × Val)) → OnStore A
global inst_id x f = do
  (y, index) ← place_of (λ i. i.globals) inst_id x
  on_inst y (on_globals index f)
