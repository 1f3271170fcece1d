-- ===== src/Interpreter/Valid/Segments.antt =====
-- crates/interpreter/src/valid.rs: `ParseElem` and `ParseData`, which check the segments.
use wasefire.Base.{ℕ, [], ◌∷◌, ◌++◌, length, ltb, if◌then◌else◌}
use wasefire.Interpreter.Mode.{Outcome, ok, err, invalid, check}
use wasefire.Interpreter.Syntax.Types.{ValType, RefType}
use wasefire.Interpreter.Parser.Core.{Parser, ◌>>=◌, ◌>>◌, pure, lift, require}
use wasefire.Interpreter.Parser.Segments.{
  ElemMode, ParseElem, parse_elem, DataMode, ParseData, parse_data,
}
use wasefire.Interpreter.Valid.Context.{table, mem}
use wasefire.Interpreter.Valid.OpdType.{OpdType, opd_of_ref, val_of_ref, opd_matches}
use wasefire.Interpreter.Valid.Check.{check_const}
use wasefire.Interpreter.Valid.Module.{Module, mark}

-- The state of `ParseElem`.
pub record ElemState : Type 0 where
  pub module_ : Module
  pub table_type : OpdType
  pub elem_type : RefType

-- `Expr::check_const` on the state of a module.
unfoldable pub module_const : ℕ → ValType → Module → Parser Module
module_const globals_len expected s = do
  refs ← check_const s.context s.refs globals_len (expected ∷ [])
  pure (record s { refs = refs })

unfoldable pub check_elem_mode : ℕ → ElemMode → ElemState → Parser ElemState
check_elem_mode globals_len ElemMode.passive s = pure s
check_elem_mode globals_len ElemMode.declarative s = pure s
check_elem_mode globals_len (ElemMode.active x) s = do
  m ← module_const globals_len ValType.i32 s.module_
  t ← lift (table m.context x)
  pure (record s { module_ = m; table_type = opd_of_ref t.item })

unfoldable pub check_elem_type : RefType → ElemState → Outcome ElemState
check_elem_type type s =
    if opd_matches s.table_type (val_of_ref type)
    then ok (record {
      module_ = record {
        context = record s.module_.context { elems = s.module_.context.elems ++ type ∷ [] };
        refs = s.module_.refs;
      };
      table_type = s.table_type;
      elem_type = type;
    })
    else err invalid

unfoldable pub check_init_funcidx : ℕ → ElemState → Parser ElemState
check_init_funcidx x s = do
  require check (ltb x (length s.module_.context.funcs))
  m ← lift (mark x s.module_)
  pure (record s { module_ = m })

unfoldable pub check_init_expr : ℕ → ElemState → Parser ElemState
check_init_expr globals_len s = do
  m ← module_const globals_len (val_of_ref s.elem_type) s.module_
  pure (record s { module_ = m })

-- `ParseElem::new`
unfoldable pub first_elem : Module → ElemState
first_elem s = record { module_ = s; table_type = OpdType.bottom; elem_type = RefType.func_ref }

unfoldable pub elem_user : ℕ → ParseElem ElemState
elem_user globals_len = record {
  mode = check_elem_mode globals_len;
  type_ = check_elem_type;
  init_funcidx = check_init_funcidx;
  init_expr = check_init_expr globals_len;
}

unfoldable pub add_elem : ℕ → Module → Parser Module
add_elem globals_len s = do
  e ← parse_elem check (elem_user globals_len) (first_elem s)
  pure e.module_

unfoldable pub check_data_mode : ℕ → DataMode → Module → Parser Module
check_data_mode globals_len DataMode.passive s = pure s
check_data_mode globals_len (DataMode.active memory) s = do
  lift (mem s.context memory)
  module_const globals_len ValType.i32 s

unfoldable pub data_user : ℕ → ParseData Module
data_user globals_len = record { mode = check_data_mode globals_len; init = λ _ s. ok s }

unfoldable pub add_data : ℕ → Module → Parser Module
add_data globals_len s = parse_data check (data_user globals_len) s
