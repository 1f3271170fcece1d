-- ===== src/Interpreter/Exec/Sections.antt =====
-- crates/interpreter/src/exec.rs: what `Store::instantiate` reads of the sections into an instance.
use wasefire.Base.{ℕ, List, [], ◌∷◌, ◌++◌, length, Bool, true, false}
use wasefire.Interpreter.Mode.{ok, use_}
use wasefire.Interpreter.Syntax.Types.{Limits, ImportDesc}
use wasefire.Interpreter.Parser.Leb128.{parse_u32}
use wasefire.Interpreter.Parser.Core.{Parser, ◌>>=◌, ◌>>◌, pure, lift}
use wasefire.Interpreter.Parser.Types.{parse_tabletype, parse_memtype, parse_globaltype}
use wasefire.Interpreter.Module.{Module}
use wasefire.Interpreter.Exec.Values.{Val, Ptr, Component}
use wasefire.Interpreter.Exec.Memory.{Memory, Table, table_new, memory_init, table_init}
use wasefire.Interpreter.Exec.State.{Instance, Store}
use wasefire.Interpreter.Exec.Lookup.{OnStore, on_inst, table, mem}
use wasefire.Interpreter.Exec.Segments.{ConstExpr, ElemMode, compute_elem, DataMode, compute_data}
use wasefire.Interpreter.Exec.Items.{changing}

-- `Instance::default()` of a module, whose memory has no bytes.
unfoldable pub instance_new : Module → Instance
instance_new m = record {
  name = [];
  module_ = m;
  funcs = record { ext = []; int = tt };
  tables = record { ext = []; int = [] };
  mems = record { ext = []; int = record { bytes = []; size = 0; max = 0 } };
  globals = record { ext = []; int = [] };
  elems = [];
  datas = [];
}

-- `last_inst`, with what is done to it.
unfoldable pub update : ℕ → (Instance → Instance) → OnStore (Unit {0})
update inst_id f = on_inst inst_id (changing λ i. ok (f i))

unfoldable pub push_ext {ℓ} : {T : Type ℓ} → Ptr → Component T → Component T
push_ext p c = record c { ext = c.ext ++ p ∷ [] }

-- An import that is resolved goes to the items of its kind.
unfoldable pub add_ext : ImportDesc → Ptr → Instance → Instance
add_ext (ImportDesc.func _) p i = record i { funcs = push_ext p i.funcs }
add_ext (ImportDesc.table _) p i = record i { tables = push_ext p i.tables }
add_ext (ImportDesc.mem _) p i = record i { mems = push_ext p i.mems }
add_ext (ImportDesc.global _) p i = record i { globals = push_ext p i.globals }

unfoldable pub push_table : Table → Instance → Instance
push_table t i = record i { tables = record i.tables { int = i.tables.int ++ t ∷ [] } }

unfoldable pub push_global : Val → Instance → Instance
push_global v i = record i { globals = record i.globals { int = i.globals.int ++ v ∷ [] } }

unfoldable pub set_memory : Memory → Instance → Instance
set_memory m i = record i { mems = record i.mems { int = m } }

unfoldable pub push_elem : Bool → Instance → Instance
push_elem dropped i = record i { elems = i.elems ++ dropped ∷ [] }

unfoldable pub push_data : Bool → Instance → Instance
push_data dropped i = record i { datas = i.datas ++ dropped ∷ [] }

-- What a method of the store does in the midst of a parser.
unfoldable pub in_parser : OnStore (Unit {0}) → Store → Parser Store
in_parser p store = do (_, store') ← lift (p store); pure store'

unfoldable pub add_table : ℕ → Store → Parser Store
add_table inst_id store = do
  t ← parse_tabletype use_
  in_parser (update inst_id (push_table (table_new t))) store

-- The type of the memory, after their number.
unfoldable pub parse_one_memory : Parser Limits
parse_one_memory = do parse_u32 use_; parse_memtype use_

unfoldable pub add_global : ConstExpr → ℕ → Store → Parser Store
add_global const_expr inst_id store = do
  parse_globaltype use_
  (v, store') ← const_expr inst_id store
  in_parser (update inst_id (push_global v)) store'

-- An active segment is copied into its table, and is dropped, as is a declarative one.
unfoldable pub place_elem : ℕ → ElemMode → List Val → Store → Parser Store
place_elem inst_id ElemMode.passive init store = in_parser (update inst_id (push_elem false)) store
place_elem inst_id (ElemMode.active x offset) init store = do
  store' ←
      in_parser (table inst_id x (changing λ t. table_init offset 0 (length init) t init)) store
  in_parser (update inst_id (push_elem true)) store'
place_elem inst_id ElemMode.declarative init store =
    in_parser (update inst_id (push_elem true)) store

unfoldable pub add_elem : ConstExpr → ℕ → Store → Parser Store
add_elem const_expr inst_id store = do
  e ← compute_elem const_expr inst_id store
  place_elem inst_id e.mode e.init e.store

unfoldable pub place_data : ℕ → DataMode → List ℕ → Store → Parser Store
place_data inst_id DataMode.passive init store = in_parser (update inst_id (push_data false)) store
place_data inst_id (DataMode.active x offset) init store = do
  store' ← in_parser (mem inst_id x (changing λ m. memory_init offset 0 (length init) m init)) store
  in_parser (update inst_id (push_data true)) store'

unfoldable pub add_data : ConstExpr → ℕ → Store → Parser Store
add_data const_expr inst_id store = do
  d ← compute_data const_expr inst_id store
  place_data inst_id d.mode d.init d.store
