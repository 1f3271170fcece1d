-- ===== src/Interpreter/Exec/Evolves/Instr.antt =====
-- crates/interpreter/src/exec.rs: the instructions on items as methods under which the store evolves.
use wasefire.Base.{ℕ, List, [], ◌≡◌, refl, subst, arith, Bool, inl, inr, get_elem?}
use wasefire.Interpreter.Mode.{Outcome, ok}
use wasefire.Interpreter.Syntax.Types.{NumType, MemArg, Sx}
use wasefire.Interpreter.Parser.Core.{Parser, total}
use wasefire.Interpreter.Parser.Parses.{Outcome-cases}
use wasefire.Interpreter.Module.{Module, elem, data_at, run}
use wasefire.Interpreter.Exec.Values.{Val}
use wasefire.Interpreter.Exec.State.{Instance, Store, Thread, Stateful, lift, asks}
use wasefire.Interpreter.Exec.Lookup.{inst, in_thread}
use wasefire.Interpreter.Exec.Memory.{grow, memory_growable, table_growable}
use wasefire.Interpreter.Exec.Segments.{ConstExpr, compute_elem, compute_data}
use wasefire.Interpreter.Exec.Items
use wasefire.Interpreter.Exec.Items.{reading, changing, evaluate, data_of, elems_of, drop_flag}
use wasefire.Interpreter.Exec.Keeps.{
  Preorder, Keeps, InStore, InStore-Preorder, Keeps-in_store, Keeps-in_thread_store, Keeps-bind,
  Keeps-then, Keeps-lift, Keeps-if, Keeps-pure, Keeps-asks, keep_rules, bind-inv,
}
use wasefire.Interpreter.Exec.Evolves.{
  Evolves, MemoryEvolves, TableEvolves, InstanceEvolves, Evolves-Preorder, MemoryEvolves-Preorder,
  TableEvolves-Preorder, InstanceEvolves-Preorder, Each-same,
}
use wasefire.Interpreter.Exec.Evolves.Items.{
  Keeps-reading, Keeps-changing, outcome_bind-inv, memory_init-Evolves, memory_copy-Evolves,
  memory_fill-Evolves, table_init-Evolves, table_copy-Evolves, table_fill-Evolves,
}
use wasefire.Interpreter.Exec.Evolves.Growth.{
  memory_store-Evolves, set_entry-Evolves, memory_grow-Evolves, table_grow-Evolves,
}
use wasefire.Interpreter.Exec.Evolves.Places.{
  inst-Keeps, on_inst-Keeps, func_ptr-Keeps, table-Keeps, mem-Keeps, global-Keeps,
}
use wasefire.Interpreter.Exec.Evolves.Segments.{
  KeepsConst, compute_elem-Returns, compute_data-Returns,
}

-- A machine whose store evolves.
pub MachineEvolves-Preorder : Preorder (InStore Evolves)
MachineEvolves-Preorder = InStore-Preorder Evolves-Preorder

pub in_thread-Keeps : {A : Type 0} (p : Stateful Thread A) → Keeps (InStore Evolves) (in_thread p)
in_thread-Keeps p = Keeps-in_thread_store p Evolves-Preorder

pub ruleset machine_rules =
    (keep_rules, in_thread-Keeps, Keeps-in_store, MachineEvolves-Preorder, Evolves-Preorder)

-- What a method of an item does, in a machine.
module _ (y x : ℕ) where
  pub global_get-Keeps : Keeps (InStore Evolves) (Items.global_get y x)
  unfolding Items.global_get
  global_get-Keeps = search (machine_rules, global-Keeps) depth 12

  pub global_set-Keeps : Keeps (InStore Evolves) (Items.global_set y x)
  unfolding Items.global_set
  global_set-Keeps = search (machine_rules, global-Keeps) depth 12

  pub table_get-Keeps : Keeps (InStore Evolves) (Items.table_get y x)
  unfolding Items.table_get
  table_get-Keeps =
      search (machine_rules, table-Keeps, Keeps-reading, TableEvolves-Preorder) depth 12

  pub table_set-Keeps : Keeps (InStore Evolves) (Items.table_set y x)
  unfolding Items.table_set
  table_set-Keeps = search (machine_rules, table-Keeps, Keeps-changing, set_entry-Evolves) depth 12

ruleset mem_rules =
    (machine_rules, mem-Keeps, Keeps-reading, Keeps-changing, MemoryEvolves-Preorder)

ruleset table_rules =
    (machine_rules, table-Keeps, Keeps-reading, Keeps-changing, TableEvolves-Preorder)

grow_memory-Keeps : (n : ℕ) → Keeps {A = ℕ} MemoryEvolves (λ m. ok (grow memory_growable m n tt))
grow_memory-Keeps n = record {
  keeps = λ m a m' e. subst (MemoryEvolves m) (ground arith) (memory_grow-Evolves m n);
}

grow_table-Keeps :
    (n : ℕ) (v : Val) → Keeps {A = ℕ} TableEvolves (λ t. ok (grow table_growable t n v))
grow_table-Keeps n v = record {
  keeps = λ t a t' e. subst (TableEvolves t) (ground arith) (table_grow-Evolves t n v);
}

module _ (y : ℕ) where
  pub load-Keeps :
      (t : NumType) (n : ℕ) (sx : Sx) (m : MemArg) → Keeps (InStore Evolves) (Items.load y t n sx m)
  unfolding Items.load
  load-Keeps t n sx m = search mem_rules depth 12

  pub store-Keeps :
      (t : NumType) (n : ℕ) (m : MemArg) → Keeps (InStore Evolves) (Items.store y t n m)
  unfolding Items.store
  store-Keeps t n m = search (mem_rules, memory_store-Evolves) depth 12

  pub memory_size-Keeps : Keeps (InStore Evolves) (Items.memory_size y)
  unfolding Items.memory_size
  memory_size-Keeps = search mem_rules depth 12

  pub memory_grow-Keeps : Keeps (InStore Evolves) (Items.memory_grow y)
  unfolding Items.memory_grow
  memory_grow-Keeps = search (mem_rules, grow_memory-Keeps) depth 12

  pub ref_func-Keeps : (x : ℕ) → Keeps (InStore Evolves) (Items.ref_func y x)
  unfolding Items.ref_func
  ref_func-Keeps x = search (machine_rules, func_ptr-Keeps) depth 12

  pub copy_memory-Keeps : Keeps (InStore Evolves) (Items.copy_memory y)
  unfolding Items.copy_memory
  copy_memory-Keeps = search (mem_rules, memory_copy-Evolves) depth 12

  pub fill_memory-Keeps : Keeps (InStore Evolves) (Items.fill_memory y)
  unfolding Items.fill_memory
  fill_memory-Keeps = search (mem_rules, memory_fill-Evolves) depth 12

  pub copy_table-Keeps : (x x' : ℕ) → Keeps (InStore Evolves) (Items.copy_table y x x')
  unfolding Items.copy_table
  copy_table-Keeps x x' = search (table_rules, table_copy-Evolves) depth 14

  pub table_grow-Keeps : (x : ℕ) → Keeps (InStore Evolves) (Items.table_grow y x)
  unfolding Items.table_grow
  table_grow-Keeps x = search (table_rules, grow_table-Keeps) depth 14

  pub table_size-Keeps : (x : ℕ) → Keeps (InStore Evolves) (Items.table_size y x)
  unfolding Items.table_size
  table_size-Keeps x = search table_rules depth 14

  pub fill_table-Keeps : (x : ℕ) → Keeps (InStore Evolves) (Items.fill_table y x)
  unfolding Items.fill_table
  fill_table-Keeps x = search (table_rules, table_fill-Evolves) depth 14

drop_data-Evolves :
    (i i' : Instance) (flags : List Bool) → record i { datas = flags } ≡ i' → InstanceEvolves i i'
drop_data-Evolves i i' flags same = subst (InstanceEvolves i) same (record {
  name = refl;
  module_ = refl;
  funcs = refl;
  tables_ext = refl;
  tables = Each-same TableEvolves-Preorder.same i.tables.int;
  mems_ext = refl;
  mem = MemoryEvolves-Preorder.same i.mems.int;
  globals_ext = refl;
  globals = refl;
})

drop_elem-Evolves :
    (i i' : Instance) (flags : List Bool) → record i { elems = flags } ≡ i' → InstanceEvolves i i'
drop_elem-Evolves i i' flags same = subst (InstanceEvolves i) same (record {
  name = refl;
  module_ = refl;
  funcs = refl;
  tables_ext = refl;
  tables = Each-same TableEvolves-Preorder.same i.tables.int;
  mems_ext = refl;
  mem = MemoryEvolves-Preorder.same i.mems.int;
  globals_ext = refl;
  globals = refl;
})

module _ (y x : ℕ) where
  pub data_drop-Keeps : Keeps (InStore Evolves) (Items.data_drop y x)
  unfolding Items.data_drop
  data_drop-Keeps = Keeps-in_store _ (
      on_inst-Keeps y _ (
        Keeps-changing _ λ i i' e.
          let (flags, _, made) = outcome_bind-inv (drop_flag x i.datas) _ i' e in
          drop_data-Evolves i i' flags (ground arith)))

  pub elem_drop-Keeps : Keeps (InStore Evolves) (Items.elem_drop y x)
  unfolding Items.elem_drop
  elem_drop-Keeps = Keeps-in_store _ (
      on_inst-Keeps y _ (
        Keeps-changing _ λ i i' e.
          let (flags, _, made) = outcome_bind-inv (drop_flag x i.elems) _ i' e in
          drop_elem-Evolves i i' flags (ground arith)))

lift-same : {S A : Type 0} (r : Outcome A) (s : S) (a : A) (s' : S) → lift r s ≡ ok (a, s') → s ≡ s'
unfolding lift
lift-same r s a s' e = ground arith

run-inv :
    {A : Type 0} (p : Parser A) (bytes : List ℕ) (a : A)
    → run p bytes ≡ ok a
    → (rest : List ℕ) × (p bytes ≡ ok (a, rest))
unfolding run
run-inv p bytes a e = elim (Outcome-cases (p bytes)) [
  | inl ((b, rest), done) ↦ (rest, ground arith)
  | inr (inl (z, failed)) ↦ absurd (ground arith)
  | inr (inr (inl failed)) ↦ absurd (ground arith)
  | inr (inr (inr failed)) ↦ absurd (ground arith)
]

-- What is evaluated in a segment, and the store, which stays until it is put in its place.
module _ {A : Type 0} (where_ : Module → ℕ → Outcome (List ℕ)) (parse : Store → Parser A)
    (y x : ℕ) where
  evaluate-inv :
      (s : Store) (a : A) (s' : Store)
      → evaluate where_ parse y x s ≡ ok (a, s')
      → (bytes rest : List ℕ) × (parse s bytes ≡ ok (a, rest))
  unfolding evaluate inst asks reading
  evaluate-inv s a s' e =
      let (i, s1, found, e1) = bind-inv (inst y) _ s a s' e in
      let (bytes, s2, there, e2) = bind-inv (lift (where_ i.module_ x)) _ s1 a s' e1 in
      let (b, done, k) = outcome_bind-inv (run (parse s2) bytes) _ (a, s') e2 in
      let (rest, read) = run-inv (parse s2) bytes b done in
      let start = lift-same (total (get_elem? s.insts y)) s i s1 found in
      let later = lift-same (where_ i.module_ x) s1 bytes s2 there in (bytes, rest, ground arith)

module _ (const_expr : ConstExpr) (kept : KeepsConst const_expr) (y : ℕ) where
  data_of-Keeps : (x : ℕ) → Keeps Evolves (data_of const_expr y x)
  unfolding data_of
  data_of-Keeps x = Keeps-bind _ _ Evolves-Preorder (inst-Keeps y) λ i.
      Keeps-bind _ _ Evolves-Preorder (Keeps-lift _ Evolves-Preorder) λ dropped.
        Keeps-if dropped _ _ (Keeps-pure [] Evolves-Preorder) (record {
          keeps = λ s a s' e.
              let (d, s1, found, e1) =
                bind-inv (evaluate data_at (compute_data const_expr y) y x) _ s a s' e in
              let (bytes, rest, read) =
                evaluate-inv data_at (compute_data const_expr y) y x s d s1 found in
              subst (Evolves s) (ground arith)
                ((compute_data-Returns const_expr kept y s).returns bytes d rest read);
        })

  elems_of-Keeps : (x : ℕ) → Keeps Evolves (elems_of const_expr y x)
  unfolding elems_of
  elems_of-Keeps x = Keeps-bind _ _ Evolves-Preorder (inst-Keeps y) λ i.
      Keeps-bind _ _ Evolves-Preorder (Keeps-lift _ Evolves-Preorder) λ dropped.
        Keeps-if dropped _ _ (Keeps-pure [] Evolves-Preorder) (record {
          keeps = λ s a s' e.
              let (d, s1, found, e1) =
                bind-inv (evaluate elem (compute_elem const_expr y) y x) _ s a s' e in
              let (bytes, rest, read) =
                evaluate-inv elem (compute_elem const_expr y) y x s d s1 found in
              subst (Evolves s) (ground arith)
                ((compute_elem-Returns const_expr kept y s).returns bytes d rest read);
        })

  pub init_memory-Keeps : (x : ℕ) → Keeps (InStore Evolves) (Items.init_memory const_expr y x)
  unfolding Items.init_memory
  init_memory-Keeps x = search (mem_rules, data_of-Keeps, memory_init-Evolves) depth 14

  pub init_table-Keeps : (x x' : ℕ) → Keeps (InStore Evolves) (Items.init_table const_expr y x x')
  unfolding Items.init_table
  init_table-Keeps x x' = search (table_rules, elems_of-Keeps, table_init-Evolves) depth 14
