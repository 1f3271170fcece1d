-- ===== src/Interpreter/Exec/Segments.antt =====
-- crates/interpreter/src/exec.rs: `ComputeElem` and `ComputeData`, which evaluate a segment.
use wasefire.Base.{ℕ, List, [], ◌∷◌, ◌++◌}
use wasefire.Interpreter.Mode.{ok, err, fault, out_of_fuel, use_}
use wasefire.Interpreter.Parser.Core.{Parser, ◌>>=◌, pure, lift}
use wasefire.Interpreter.Parser.Segments
use wasefire.Interpreter.Parser.Segments.{ParseElem, parse_elem, ParseData, parse_data}
use wasefire.Interpreter.Exec.Values.{Val, unwrap_i32}
use wasefire.Interpreter.Exec.State.{Store}
use wasefire.Interpreter.Exec.Lookup.{func_ptr}

-- `Thread::const_expr` of an instance: its value, and the bytes after the expression.
abbrev pub ConstExpr : Type 0
ConstExpr = ℕ → Store → Parser (Val × Store)

pub data ElemMode : Type 0 where
  passive declarative : ElemMode
  active : ℕ → ℕ → ElemMode

pub record ComputeElem : Type 0 where
  pub store : Store
  pub mode : ElemMode
  pub init : List Val

pub data DataMode : Type 0 where
  passive : DataMode
  active : ℕ → ℕ → DataMode

pub record ComputeData : Type 0 where
  pub store : Store
  pub mode : DataMode
  pub init : List ℕ

module _ (const_expr : ConstExpr) (inst_id : ℕ) where
  -- The value of an expression of the type `I32`.
  unfoldable pub const_i32 : Store → Parser (ℕ × Store)
  const_i32 store = do
    (v, store') ← const_expr inst_id store
    x ← lift (unwrap_i32 v)
    pure (x, store')

  unfoldable pub compute_elem_mode : Segments.ElemMode → ComputeElem → Parser ComputeElem
  compute_elem_mode Segments.ElemMode.passive s = pure (record s { mode = ElemMode.passive })
  compute_elem_mode Segments.ElemMode.declarative s =
      pure (record s { mode = ElemMode.declarative })
  compute_elem_mode (Segments.ElemMode.active table) s = do
    (offset, store) ← const_i32 s.store
    pure (record { store = store; mode = ElemMode.active table offset; init = s.init })

  unfoldable pub push_funcidx : ℕ → ComputeElem → Parser ComputeElem
  push_funcidx x s = lift (elim (func_ptr inst_id x s.store) [
    | ok (ptr, store) ↦ ok (record s { init = s.init ++ Val.ref ptr ∷ [] })
    | err e ↦ err e
    | fault ↦ fault
    | out_of_fuel ↦ out_of_fuel
  ])

  unfoldable pub push_expr : ComputeElem → Parser ComputeElem
  push_expr s = do
    (v, store) ← const_expr inst_id s.store
    pure (record { store = store; mode = s.mode; init = s.init ++ v ∷ [] })

  unfoldable pub elem_user : ParseElem ComputeElem
  elem_user = record {
    mode = compute_elem_mode;
    type_ = λ t s. ok s;
    init_funcidx = push_funcidx;
    init_expr = push_expr;
  }

  unfoldable pub compute_elem : Store → Parser ComputeElem
  compute_elem store =
      parse_elem use_ elem_user (record { store = store; mode = ElemMode.passive; init = [] })

  unfoldable pub compute_data_mode : Segments.DataMode → ComputeData → Parser ComputeData
  compute_data_mode Segments.DataMode.passive s = pure (record s { mode = DataMode.passive })
  compute_data_mode (Segments.DataMode.active memory) s = do
    (offset, store) ← const_i32 s.store
    pure (record { store = store; mode = DataMode.active memory offset; init = s.init })

  unfoldable pub data_user : ParseData ComputeData
  data_user = record { mode = compute_data_mode; init = λ bytes s. ok (record s { init = bytes }) }

  unfoldable pub compute_data : Store → Parser ComputeData
  compute_data store =
      parse_data use_ data_user (record { store = store; mode = DataMode.passive; init = [] })
