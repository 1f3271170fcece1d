-- ===== src/Interpreter/Exec/Items.antt =====
-- crates/interpreter/src/exec.rs: the instructions of `step` on globals, tables, memories and segments.
use wasefire.Base.{ℕ, ◌%◌, ◌^◌, List, [], length, set, get_elem?, Bool, true, if◌then◌else◌}
use wasefire.Interpreter.Mode
use wasefire.Interpreter.Mode.{Outcome, ok, err, fault, out_of_fuel}
use wasefire.Interpreter.Syntax.Types.{NumType, MemArg, Sx}
use wasefire.Interpreter.Parser.Core.{total}
use wasefire.Interpreter.Module.{Module, elem, data_at, run}
use wasefire.Interpreter.Exec.Values.{Val}
use wasefire.Interpreter.Exec.Memory.{
  Table, grow, memory_growable, table_growable, memory_init, memory_copy, memory_fill, table_init,
  table_copy, table_fill,
}
use wasefire.Interpreter.Exec.Access.{memory_load, memory_store}
use wasefire.Interpreter.Exec.State.{Store, ◌>>=◌, pure, lift, pop_value, push_value}
use wasefire.Interpreter.Exec.Lookup.{
  Action, OnStore, in_store, in_thread, on_inst, inst, func_ptr, table, mem, global,
}
use wasefire.Interpreter.Exec.Segments.{ConstExpr, compute_elem, compute_data}
use wasefire.Interpreter.Exec.Numeric.{or_trap}
use wasefire.Interpreter.Exec.Operands.{pop_i32, pop_range}

-- What is read and stays, and what is changed.
unfoldable pub reading {ℓ κ} : {S : Type ℓ} {A : Type κ} → (S → Outcome A) → S → Outcome (A × S)
unfolding Mode.◌>>=◌
reading f s = Mode.◌>>=◌ (f s) λ a. ok (a, s)

unfoldable pub changing {ℓ} : {S : Type ℓ} → (S → Outcome S) → S → Outcome (Unit {0} × S)
unfolding Mode.◌>>=◌
changing f s = Mode.◌>>=◌ (f s) λ s'. ok (tt, s')

unfoldable pub global_get : ℕ → ℕ → Action (Unit {0})
global_get inst_id x = do
  v ← in_store (global inst_id x (reading λ v. ok v))
  in_thread (push_value v)

unfoldable pub global_set : ℕ → ℕ → Action (Unit {0})
global_set inst_id x = do v ← in_thread pop_value; in_store (global inst_id x (changing λ _. ok v))

unfoldable pub entry : ℕ → Table → Outcome Val
entry i t = or_trap (get_elem? t.elems i)

unfoldable pub set_entry : ℕ → Val → Table → Outcome Table
unfolding Mode.◌>>=◌
set_entry i v t = Mode.◌>>=◌ (entry i t) λ _. ok (record t { elems = set t.elems i v })

unfoldable pub table_get : ℕ → ℕ → Action (Unit {0})
table_get inst_id x = do
  i ← in_thread pop_i32
  v ← in_store (table inst_id x (reading (entry i)))
  in_thread (push_value v)

unfoldable pub table_set : ℕ → ℕ → Action (Unit {0})
table_set inst_id x = do
  v ← in_thread pop_value
  i ← in_thread pop_i32
  in_store (table inst_id x (changing (set_entry i v)))

unfoldable pub load : ℕ → NumType → ℕ → Sx → MemArg → Action (Unit {0})
load inst_id t n sx m = do
  i ← in_thread pop_i32
  v ← in_store (mem inst_id 0 (reading λ mem'. memory_load mem' t n sx m i))
  in_thread (push_value v)

unfoldable pub store : ℕ → NumType → ℕ → MemArg → Action (Unit {0})
store inst_id t n m = do
  c ← in_thread pop_value
  i ← in_thread pop_i32
  in_store (mem inst_id 0 (changing λ mem'. memory_store mem' t n m i c))

unfoldable pub memory_size : ℕ → Action (Unit {0})
memory_size inst_id = do
  n ← in_store (mem inst_id 0 (reading λ mem'. ok mem'.size))
  in_thread (push_value (Val.i32 n))

unfoldable pub memory_grow : ℕ → Action (Unit {0})
memory_grow inst_id = do
  n ← in_thread pop_i32
  r ← in_store (mem inst_id 0 (λ mem'. ok (grow memory_growable mem' n tt)))
  in_thread (push_value (Val.i32 r))

unfoldable pub ref_func : ℕ → ℕ → Action (Unit {0})
ref_func inst_id x = do ptr ← in_store (func_ptr inst_id x); in_thread (push_value (Val.ref ptr))

-- A parser of a segment, run where the segment is.
unfoldable pub evaluate {ℓ} :
    {A : Type ℓ}
    → (Module → ℕ → Outcome (List ℕ))
    → (Store → List ℕ → Outcome (A × List ℕ))
    → ℕ
    → ℕ
    → OnStore A
evaluate where_ parse inst_id x = do
  i ← inst inst_id
  bytes ← lift (where_ i.module_ x)
  λ s. reading (λ s'. run (parse s') bytes) s

-- The bytes of a data segment, none if it is dropped.
unfoldable pub data_of : ConstExpr → ℕ → ℕ → OnStore (List ℕ)
data_of const_expr inst_id x = do
  i ← inst inst_id
  dropped ← lift (total (get_elem? i.datas x))
  if dropped then pure [] else (do
    d ← evaluate data_at (compute_data const_expr inst_id) inst_id x
    λ s. ok (d.init, d.store))

unfoldable pub elems_of : ConstExpr → ℕ → ℕ → OnStore (List Val)
elems_of const_expr inst_id y = do
  i ← inst inst_id
  dropped ← lift (total (get_elem? i.elems y))
  if dropped then pure [] else (do
    e ← evaluate elem (compute_elem const_expr inst_id) inst_id y
    λ s. ok (e.init, e.store))

unfoldable pub init_memory : ConstExpr → ℕ → ℕ → Action (Unit {0})
init_memory const_expr inst_id x = do
  (n, s, d) ← in_thread pop_range
  bytes ← in_store (data_of const_expr inst_id x)
  in_store (mem inst_id 0 (changing λ mem'. memory_init d s n mem' bytes))

unfoldable pub drop_flag : ℕ → List Bool → Outcome (List Bool)
unfolding Mode.◌>>=◌
drop_flag x flags = Mode.◌>>=◌ (total (get_elem? flags x)) λ _. ok (set flags x true)

unfoldable pub data_drop : ℕ → ℕ → Action (Unit {0})
unfolding Mode.◌>>=◌
data_drop inst_id x = in_store (
    on_inst inst_id
      (changing λ i. Mode.◌>>=◌ (drop_flag x i.datas) λ datas. ok (record i { datas = datas })))

unfoldable pub elem_drop : ℕ → ℕ → Action (Unit {0})
unfolding Mode.◌>>=◌
elem_drop inst_id x = in_store (
    on_inst inst_id
      (changing λ i. Mode.◌>>=◌ (drop_flag x i.elems) λ elems. ok (record i { elems = elems })))

unfoldable pub copy_memory : ℕ → Action (Unit {0})
copy_memory inst_id = do
  (n, s, d) ← in_thread pop_range
  in_store (mem inst_id 0 (changing (memory_copy d s n)))

unfoldable pub fill_memory : ℕ → Action (Unit {0})
fill_memory inst_id = do
  (n, val, d) ← in_thread pop_range
  in_store (mem inst_id 0 (changing (memory_fill d val n)))

unfoldable pub init_table : ConstExpr → ℕ → ℕ → ℕ → Action (Unit {0})
init_table const_expr inst_id x y = do
  (n, s, d) ← in_thread pop_range
  elems ← in_store (elems_of const_expr inst_id y)
  in_store (table inst_id x (changing λ t. table_init d s n t elems))

unfoldable pub copy_table : ℕ → ℕ → ℕ → Action (Unit {0})
copy_table inst_id x y = do
  (n, s, d) ← in_thread pop_range
  source ← in_store (table inst_id y (reading λ t. ok t))
  in_store (table inst_id x (changing (table_copy d s n source)))

unfoldable pub table_grow : ℕ → ℕ → Action (Unit {0})
table_grow inst_id x = do
  n ← in_thread pop_i32
  val ← in_thread pop_value
  r ← in_store (table inst_id x (λ t. ok (grow table_growable t n val)))
  in_thread (push_value (Val.i32 r))

unfoldable pub table_size : ℕ → ℕ → Action (Unit {0})
table_size inst_id x = do
  n ← in_store (table inst_id x (reading λ t. ok (length t.elems % 2 ^ 32)))
  in_thread (push_value (Val.i32 n))

unfoldable pub fill_table : ℕ → ℕ → Action (Unit {0})
fill_table inst_id x = do
  n ← in_thread pop_i32
  val ← in_thread pop_value
  i ← in_thread pop_i32
  in_store (table inst_id x (changing (table_fill i val n)))
