-- ===== src/Interpreter/Exec/Link.antt =====
-- crates/interpreter/src/exec.rs: `link_func` and `resolve`, with `ExternType` of syntax.rs.
-- Names are their bytes, which are ordered as strings are.
use wasefire.Base.{
  ℕ, suc, ◌%◌, ◌^◌, List, [], ◌∷◌, ◌++◌, length, replicate, get_elem?, Option, none, some, Bool,
  true, false, ltb, leb, ◌==◌, ◌&&◌, ◌||◌, if◌then◌else◌,
}
use wasefire.Interpreter.Mode.{Outcome, ok, err, fault, ◌>>=◌, ◌>>◌, not_found, mode_check, check}
use wasefire.Interpreter.Syntax.Types.{
  ValType, FuncType, Limits, limits_match, TableType, Mut, const, var, GlobalType, ImportDesc,
  ExportDesc,
}
use wasefire.Interpreter.Parser.Core.{total}
use wasefire.Interpreter.Valid.OpdType.{ref_eq, val_eq}
use wasefire.Interpreter.Valid.Module.{bytes_eq}
use wasefire.Interpreter.Module.{
  Module, nth_type, table_type, mem_type, global_type, export_or, Import,
}
use wasefire.Interpreter.Exec.Values.{Ptr, Side, ptr_new, ptr_instance, ptr_index, unwrap_wasm}
use wasefire.Interpreter.Exec.State.{HostName, Instance, Store}
use wasefire.Interpreter.Exec.Lookup.{ptr_of, func_ptr, func_type_of}
use wasefire.Interpreter.Exec.Calls.{functype_eq}

pub data ExternType : Type 0 where
  func : FuncType → ExternType
  table : TableType → ExternType
  mem : Limits → ExternType
  global : GlobalType → ExternType

unfoldable pub mut_eq : Mut → Mut → Bool
mut_eq const const = true
mut_eq var var = true
mut_eq _ _ = false

-- `ExternType::matches`
unfoldable pub extern_matches : ExternType → ExternType → Bool
extern_matches (ExternType.func x) (ExternType.func y) = functype_eq x y
extern_matches (ExternType.table x) (ExternType.table y) =
    limits_match x.limits y.limits && ref_eq x.item y.item
extern_matches (ExternType.mem x) (ExternType.mem y) = limits_match x y
extern_matches (ExternType.global x) (ExternType.global y) =
    mut_eq x.mutable y.mutable && val_eq x.value y.value
extern_matches _ _ = false

-- `ImportDesc::type_`
unfoldable pub import_type : Module → ImportDesc → Outcome ExternType
import_type m (ImportDesc.func x) = do t ← nth_type m x; ok (ExternType.func t)
import_type m (ImportDesc.table t) = ok (ExternType.table t)
import_type m (ImportDesc.mem t) = ok (ExternType.mem t)
import_type m (ImportDesc.global t) = ok (ExternType.global t)

unfoldable pub bytes_lt : List ℕ → List ℕ → Bool
bytes_lt [] [] = false
bytes_lt [] (y ∷ ys) = true
bytes_lt (x ∷ xs) [] = false
bytes_lt (x ∷ xs) (y ∷ ys) = ltb x y || x == y && bytes_lt xs ys

-- The order and the equality that `HostName` derives.
unfoldable pub host_name_lt : HostName → HostName → Bool
host_name_lt a b =
    bytes_lt a.module_ b.module_ || bytes_eq a.module_ b.module_ && bytes_lt a.name b.name

unfoldable pub host_name_eq : HostName → HostName → Bool
host_name_eq a b = bytes_eq a.module_ b.module_ && bytes_eq a.name b.name

-- `self.funcs.last().map_or(true, |x| x.0 < name)`
unfoldable pub above_last : List (HostName × FuncType) → HostName → Bool
above_last [] name = true
above_last ((last, _) ∷ []) name = host_name_lt last name
above_last (f ∷ g ∷ funcs) name = above_last (g ∷ funcs) name

unfoldable pub is_none {ℓ} : {A : Type ℓ} → List A → Bool
is_none [] = true
is_none (x ∷ xs) = false

unfoldable pub link_func : List ℕ → List ℕ → ℕ → ℕ → Store → Outcome Store
link_func module_ name params results store = do
  let host_name : HostName = record { module_ = module_; name = name }
  mode_check check (is_none store.insts)
  mode_check check (above_last store.funcs host_name)
  mode_check check (leb params 8 && leb results 8)
  let type : FuncType = record {
    params = replicate params ValType.i32;
    results = replicate results ValType.i32;
  }
  ok (record store { funcs = store.funcs ++ (host_name, type) ∷ [] })

-- `binary_search_by` on the names, of which one at most is the name.
unfoldable pub find_host : ℕ → List (HostName × FuncType) → HostName → Option (ℕ × FuncType)
find_host i [] name = none
find_host i ((n, t) ∷ funcs) name =
    let rest = find_host (suc i) funcs name in if host_name_eq n name then some (i, t) else rest

-- `resolve_inst`: the first instance of a name.
unfoldable pub find_inst : ℕ → List Instance → List ℕ → Outcome ℕ
find_inst i [] name = err not_found
find_inst i (x ∷ insts) name =
    let rest = find_inst (suc i) insts name in if bytes_eq x.name name then ok i else rest

-- The limits of an item that may have grown.
unfoldable pub table_now : TableType → ℕ → TableType
table_now t size = record t { limits = record t.limits { min = size } }

-- The instance of an item, and the item's index there.
unfoldable pub owner : Ptr → Store → Outcome (Instance × ℕ)
owner ptr store = do
  y ← unwrap_wasm (ptr_instance ptr)
  i ← total (get_elem? store.insts y)
  ok (i, ptr_index ptr)

-- `assert_eq!`
unfoldable pub assert : Bool → Outcome (Unit {0})
assert true = ok tt
assert false = fault

-- What an export is, with its type as it is now.
unfoldable pub exported : ℕ → ExportDesc → Store → Outcome (Ptr × ExternType)
exported inst_id (ExportDesc.func x) store = do
  (ptr, _) ← func_ptr inst_id x store
  (t, _) ← func_type_of ptr store
  ok (ptr, ExternType.func t)
exported inst_id (ExportDesc.table x) store = do
  (ptr, _) ← ptr_of (λ i. i.tables) inst_id x store
  (i, index) ← owner ptr store
  t ← table_type i.module_ index
  now ← total (get_elem? i.tables.int index)
  ok (ptr, ExternType.table (table_now t (length now.elems % 2 ^ 32)))
exported inst_id (ExportDesc.mem x) store = do
  (ptr, _) ← ptr_of (λ i. i.mems) inst_id x store
  (i, index) ← owner ptr store
  t ← mem_type i.module_ index
  assert (index == 0)
  ok (ptr, ExternType.mem (record t { min = i.mems.int.size }))
exported inst_id (ExportDesc.global x) store = do
  (ptr, _) ← ptr_of (λ i. i.globals) inst_id x store
  (i, index) ← owner ptr store
  t ← global_type i.module_ index
  ok (ptr, ExternType.global t)

-- The item of a name: one of the host, or one that an instance exports.
unfoldable pub find_item : Import → Store → Outcome (Option (Ptr × ExternType))
find_item import_ store =
    elim (find_host 0 store.funcs (record { module_ = import_.module_; name = import_.name })) [
      | some (x, t) ↦ do ptr ← ptr_new Side.host x; ok (some (ptr, ExternType.func t))
      | none ↦ do
        inst_id ← find_inst 0 store.insts import_.module_
        i ← total (get_elem? store.insts inst_id)
        found ← export_or i.module_ import_.name
        elim found [
          | none ↦ ok none
          | some desc ↦ do item ← exported inst_id desc store; ok (some item)
        ]
    ]

unfoldable pub resolve : Import → ExternType → Store → Outcome Ptr
resolve import_ imp_type store = do
  found ← find_item import_ store
  elim found [
    | none ↦ err not_found
    | some (ptr, ext_type) ↦ if extern_matches ext_type imp_type then ok ptr else err not_found
  ]
