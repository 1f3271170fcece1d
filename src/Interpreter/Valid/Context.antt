-- ===== src/Interpreter/Valid/Context.antt =====
-- crates/interpreter/src/valid.rs: what a module declares, and the checks of what it adds.
use wasefire.Base.{
  ℕ, ◌∷◌, List, [], ◌++◌, length, Option, none, some, ltb, if◌then◌else◌, get_elem?,
}
use wasefire.Interpreter.Mode.{Outcome, ok, err, mode_check, check, invalid}
use wasefire.Interpreter.Parser.Core.{Parser, ◌>>=◌, ◌>>◌, lift}
use wasefire.Interpreter.Parser.Types.{parse_name, parse_importdesc}
use wasefire.Interpreter.Syntax.Types.{
  FuncType, TableType, Limits, GlobalType, RefType, ImportDesc, ExportDesc, limits_valid, table_max,
  mem_max,
}

pub record Context : Type 0 where
  pub types : List FuncType
  pub funcs : List ℕ
  pub tables : List TableType
  pub mems : List Limits
  pub globals : List GlobalType
  pub elems : List RefType
  pub datas : Option ℕ

-- `Context::default()`
unfoldable pub empty_context : Context
empty_context = record {
  types = [];
  funcs = [];
  tables = [];
  mems = [];
  globals = [];
  elems = [];
  datas = none;
}

-- A lookup with `ok_or_else(invalid)`.
unfoldable pub lookup {ℓ} : {A : Type ℓ} → List A → ℕ → Outcome A
lookup xs x = elim (get_elem? xs x) [ none ↦ err invalid | some a ↦ ok a ]

unfoldable pub type_ : Context → ℕ → Outcome FuncType
type_ c x = lookup c.types x

unfoldable pub functype : Context → ℕ → Outcome FuncType
functype c x = elim (get_elem? c.funcs x) [ none ↦ err invalid | some y ↦ type_ c y ]

unfoldable pub table : Context → ℕ → Outcome TableType
table c x = lookup c.tables x

unfoldable pub mem : Context → ℕ → Outcome Limits
mem c x = lookup c.mems x

unfoldable pub global : Context → ℕ → Outcome GlobalType
global c x = lookup c.globals x

unfoldable pub elem : Context → ℕ → Outcome RefType
elem c x = lookup c.elems x

unfoldable pub data_ : Context → ℕ → Outcome (Unit {0})
data_ c x = elim c.datas [ none ↦ err invalid | some n ↦ mode_check check (ltb x n) ]

unfoldable pub add_functype : Context → ℕ → Outcome Context
add_functype c x =
    if ltb x (length c.types) then ok (record c { funcs = c.funcs ++ x ∷ [] }) else err invalid

unfoldable pub add_tabletype : Context → TableType → Outcome Context
add_tabletype c t =
    if limits_valid t.limits table_max
    then ok (record c { tables = c.tables ++ t ∷ [] })
    else err invalid

unfoldable pub add_memtype : Context → Limits → Outcome Context
add_memtype c m =
    if limits_valid m mem_max then ok (record c { mems = c.mems ++ m ∷ [] }) else err invalid

unfoldable pub add_globaltype : Context → GlobalType → Outcome Context
add_globaltype c g = ok (record c { globals = c.globals ++ g ∷ [] })

unfoldable pub add_importdesc : Context → ImportDesc → Outcome Context
add_importdesc c (ImportDesc.func x) = add_functype c x
add_importdesc c (ImportDesc.table t) = add_tabletype c t
add_importdesc c (ImportDesc.mem m) = add_memtype c m
add_importdesc c (ImportDesc.global g) = add_globaltype c g

unfoldable pub add_import : Context → Parser Context
add_import c = do
  parse_name check
  parse_name check
  desc ← parse_importdesc check
  lift (add_importdesc c desc)

unfoldable pub check_exportdesc : Context → ExportDesc → Outcome (Unit {0})
check_exportdesc c (ExportDesc.func x) = mode_check check (ltb x (length c.funcs))
check_exportdesc c (ExportDesc.table x) = mode_check check (ltb x (length c.tables))
check_exportdesc c (ExportDesc.mem x) = mode_check check (ltb x (length c.mems))
check_exportdesc c (ExportDesc.global x) = mode_check check (ltb x (length c.globals))
