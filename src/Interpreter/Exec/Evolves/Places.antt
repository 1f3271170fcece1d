-- ===== src/Interpreter/Exec/Evolves/Places.antt =====
-- crates/interpreter/src/exec.rs: the methods of `Store` that find an item, as methods that keep.
use wasefire.Base.{
  ℕ, List, [], set, get_elem?, length-set, some, ◌≡◌, refl, sym, subst, arith, Option-cases, inl,
  inr,
}
use wasefire.Interpreter.Mode.{Outcome, ok}
use wasefire.Interpreter.Parser.Parses.{Outcome-cases}
use wasefire.Interpreter.Exec.Values.{Val, Component, ptr_instance, ptr_index, Ptr, Side}
use wasefire.Interpreter.Module.{func_type}
use wasefire.Interpreter.Exec.Memory.{Memory, Table}
use wasefire.Interpreter.Exec.State.{Instance, Stateful, ◌>>=◌, pure, lift}
use wasefire.Interpreter.Exec.Lookup.{
  on_elem, on_inst, inst, ptr_of, func_ptr, place_of, host_func, func_type_of, on_tables,
  on_globals, on_memory, table, mem, global,
}
use wasefire.Interpreter.Exec.Keeps.{
  Preorder, Keeps, Keeps-bind, Keeps-asks, Keeps-pure, Keeps-lift, keep_rules,
}
use wasefire.Interpreter.Exec.Evolves.{
  Each, Each-same, Each-set, MemoryEvolves, TableEvolves, InstanceEvolves, Evolves,
  MemoryEvolves-Preorder, TableEvolves-Preorder, InstanceEvolves-Preorder, Evolves-Preorder,
}

-- What a change of one element is.
on_elem-inv :
    {A B : Type 0} (x : ℕ) (f : A → Outcome (B × A)) (xs : List A) (b : B) (xs' : List A)
    → on_elem x f xs ≡ ok (b, xs')
    → (a a' : A) × (get_elem? xs x ≡ some a) × (f a ≡ ok (b, a')) × (xs' ≡ set xs x a')
unfolding on_elem
on_elem-inv x f xs b xs' e = elim (Option-cases (get_elem? xs x)) [
  | inl missing ↦ absurd (ground arith)
  | inr (a, found) ↦ elim (Outcome-cases (f a)) [
    | inl ((c, a'), done) ↦ (a, a', found, ground arith, ground arith)
    | inr (inl (z, failed)) ↦ absurd (ground arith)
    | inr (inr (inl failed)) ↦ absurd (ground arith)
    | inr (inr (inr failed)) ↦ absurd (ground arith)
  ]
]

-- One element that is changed, as part of what has the list.
on_elem-Each :
    {A B : Type 0} {R : A → A → Type 0} (x : ℕ) (f : Stateful A B) (xs xs' : List A) (b : B)
    → Preorder R
    → Keeps R f
    → on_elem x f xs ≡ ok (b, xs')
    → Each R xs xs'
on_elem-Each {R} x f xs xs' b order h e =
    let (a, a', found, done, made) = on_elem-inv x f xs b xs' e in
    subst (Each R xs) (sym made) (Each-set order.same xs x a a' found (h.keeps a b a' done))

module _ {A : Type 0} where
  pub on_inst-Keeps :
      (y : ℕ) (f : Stateful Instance A) → Keeps InstanceEvolves f → Keeps Evolves (on_inst y f)
  unfolding on_inst
  on_inst-Keeps y f h = record {
    keeps = λ s a s' e. elim (Outcome-cases (on_elem y f s.insts)) [
      | inl ((b, insts), done) ↦
          let same : record s { insts = insts } ≡ s' = ground arith in
          subst (Evolves s) same (record {
            id = refl;
            funcs = refl;
            insts = on_elem-Each y f s.insts insts b InstanceEvolves-Preorder h done;
            threads = ([], refl);
          })
      | inr (inl (z, failed)) ↦ absurd (ground arith)
      | inr (inr (inl failed)) ↦ absurd (ground arith)
      | inr (inr (inr failed)) ↦ absurd (ground arith)
    ];
  }

  on_tables-Keeps :
      (y : ℕ) (f : Stateful Table A) → Keeps TableEvolves f → Keeps InstanceEvolves (on_tables y f)
  unfolding on_tables
  on_tables-Keeps y f h = record {
    keeps = λ i a i' e. elim (Outcome-cases (on_elem y f i.tables.int)) [
      | inl ((b, tables), done) ↦
          let same : record i { tables = record i.tables { int = tables } } ≡ i' = ground arith in
          subst (InstanceEvolves i) same (record {
            name = refl;
            module_ = refl;
            funcs = refl;
            tables_ext = refl;
            tables = on_elem-Each y f i.tables.int tables b TableEvolves-Preorder h done;
            mems_ext = refl;
            mem = MemoryEvolves-Preorder.same i.mems.int;
            globals_ext = refl;
            globals = refl;
          })
      | inr (inl (z, failed)) ↦ absurd (ground arith)
      | inr (inr (inl failed)) ↦ absurd (ground arith)
      | inr (inr (inr failed)) ↦ absurd (ground arith)
    ];
  }

  on_globals-Keeps : (y : ℕ) (f : Stateful Val A) → Keeps InstanceEvolves (on_globals y f)
  unfolding on_globals
  on_globals-Keeps y f = record {
    keeps = λ i a i' e. elim (Outcome-cases (on_elem y f i.globals.int)) [
      | inl ((b, globals), done) ↦
          let same : record i { globals = record i.globals { int = globals } } ≡ i' =
            ground arith in
          let (v, v', _, _, made) = on_elem-inv y f i.globals.int b globals done in
          subst (InstanceEvolves i) same (record {
            name = refl;
            module_ = refl;
            funcs = refl;
            tables_ext = refl;
            tables = Each-same TableEvolves-Preorder.same i.tables.int;
            mems_ext = refl;
            mem = MemoryEvolves-Preorder.same i.mems.int;
            globals_ext = refl;
            globals = rw made (length-set i.globals.int y v');
          })
      | inr (inl (z, failed)) ↦ absurd (ground arith)
      | inr (inr (inl failed)) ↦ absurd (ground arith)
      | inr (inr (inr failed)) ↦ absurd (ground arith)
    ];
  }

  on_memory-Keeps :
      (y : ℕ) (f : Stateful Memory A)
      → Keeps MemoryEvolves f
      → Keeps InstanceEvolves (on_memory y f)
  unfolding on_memory
  on_memory-Keeps y f h = record {
    keeps = λ i a i' e. elim (Outcome-cases (f i.mems.int)) [
      | inl ((b, m), done) ↦
          let same : record i { mems = record i.mems { int = m } } ≡ i' = ground arith in
          subst (InstanceEvolves i) same (record {
            name = refl;
            module_ = refl;
            funcs = refl;
            tables_ext = refl;
            tables = Each-same TableEvolves-Preorder.same i.tables.int;
            mems_ext = refl;
            mem = h.keeps i.mems.int b m done;
            globals_ext = refl;
            globals = refl;
          })
      | inr (inl (z, failed)) ↦ absurd (ground arith)
      | inr (inr (inl failed)) ↦ absurd (ground arith)
      | inr (inr (inr failed)) ↦ absurd (ground arith)
    ];
  }

pub inst-Keeps : (y : ℕ) → Keeps Evolves (inst y)
unfolding inst
inst-Keeps y = Keeps-asks _ Evolves-Preorder

pub host_func-Keeps : (x : ℕ) → Keeps Evolves (host_func x)
unfolding host_func
host_func-Keeps x = Keeps-asks _ Evolves-Preorder

module _ {T : Type 0} (component : Instance → Component T) (y x : ℕ) where
  ptr_of-Keeps : Keeps Evolves (ptr_of component y x)
  unfolding ptr_of
  ptr_of-Keeps = search (keep_rules, inst-Keeps, Evolves-Preorder) depth 12

  place_of-Keeps : Keeps Evolves (place_of component y x)
  unfolding place_of
  place_of-Keeps = search (keep_rules, ptr_of-Keeps, Evolves-Preorder) depth 12

pub func_ptr-Keeps : (y x : ℕ) → Keeps Evolves (func_ptr y x)
unfolding func_ptr
func_ptr-Keeps y x = ptr_of-Keeps (λ i. i.funcs) y x

pub func_type_of-Keeps : (ptr : Ptr) → Keeps Evolves (func_type_of ptr)
unfolding func_type_of
func_type_of-Keeps ptr =
    elim (ptr_instance ptr)
      as (λ side. Keeps Evolves (elim side [
        | Side.host ↦ host_func (ptr_index ptr) >>= λ (_, t). pure t
        | Side.wasm y ↦ inst y >>= λ i. lift (func_type i.module_ (ptr_index ptr))
      ])) [
        | Side.host ↦
            Keeps-bind _ _ Evolves-Preorder (host_func-Keeps (ptr_index ptr))
              λ p. Keeps-pure (p.1) Evolves-Preorder
        | Side.wasm y ↦
            Keeps-bind _ _ Evolves-Preorder (inst-Keeps y)
              λ i. Keeps-lift (func_type i.module_ (ptr_index ptr)) Evolves-Preorder
      ]

module _ {A : Type 0} (y x : ℕ) where
  pub table-Keeps : (f : Stateful Table A) → Keeps TableEvolves f → Keeps Evolves (table y x f)
  unfolding table
  table-Keeps f h =
      Keeps-bind _ _ Evolves-Preorder (place_of-Keeps (λ i. i.tables) y x)
        λ p. on_inst-Keeps (p.0) (on_tables (p.1) f) (on_tables-Keeps (p.1) f h)

  pub mem-Keeps : (f : Stateful Memory A) → Keeps MemoryEvolves f → Keeps Evolves (mem y x f)
  unfolding mem
  mem-Keeps f h =
      Keeps-bind _ _ Evolves-Preorder (place_of-Keeps (λ i. i.mems) y x)
        λ p. on_inst-Keeps (p.0) (on_memory (p.1) f) (on_memory-Keeps (p.1) f h)

  pub global-Keeps : (f : Stateful Val A) → Keeps Evolves (global y x f)
  unfolding global
  global-Keeps f =
      Keeps-bind _ _ Evolves-Preorder (place_of-Keeps (λ i. i.globals) y x)
        λ p. on_inst-Keeps (p.0) (on_globals (p.1) f) (on_globals-Keeps (p.1) f)
