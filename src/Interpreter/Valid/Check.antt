-- ===== src/Interpreter/Valid/Check.antt =====
-- crates/interpreter/src/valid.rs: `Expr::check`, and the two kinds of expressions.
use wasefire.Base.{ℕ, zero, suc, List, [], ◌∷◌, length, Bool, true, false}
use wasefire.Interpreter.Mode.{out_of_fuel, check}
use wasefire.Interpreter.Syntax.Types.{ValType, ResultType}
use wasefire.Interpreter.Parser.Core.{Parser, ◌>>=◌, ◌>>◌, pure, lift}
use wasefire.Interpreter.Parser.Instr.{parse_instr}
use wasefire.Interpreter.Valid.Context.{Context}
use wasefire.Interpreter.Valid.Method.{LabelKind, Label, Expr}
use wasefire.Interpreter.Valid.Instr.{instr}

-- `Label::default()` with the results that are expected.
unfoldable pub first_label : ResultType → Label
first_label results = record {
  type_ = record { params = []; results = results };
  kind = LabelKind.block;
  polymorphic = false;
  stack = [];
}

-- One instruction: it is read and checked.
unfoldable pub check_step : Expr → Parser Expr
check_step e = do i ← parse_instr check; r ← lift (instr i e); pure r.1

-- Rounds, with fuel for them, until no label is left.
unfoldable pub check_loop : ℕ → Expr → Parser Expr
check_loop zero e = λ xs. out_of_fuel
check_loop (suc fuel) e = elim e.labels [
  | [] ↦ pure e
  | _ ∷ _ ↦ do e' ← check_step e; check_loop fuel e'
]

-- A round takes a byte at least.
unfoldable pub check_expr : Expr → Parser Expr
check_expr e xs = check_loop (suc (length xs)) e xs

unfoldable pub const_expr : Context → List Bool → ℕ → ResultType → Expr
const_expr context refs num_global_imports expected = record {
  context = context;
  globals_len = num_global_imports;
  is_const = true;
  refs = refs;
  is_body = false;
  locals = [];
  labels = first_label expected ∷ [];
}

unfoldable pub body_expr : Context → List Bool → List ValType → ResultType → Expr
body_expr context refs locals results = record {
  context = context;
  globals_len = length context.globals;
  is_const = false;
  refs = refs;
  is_body = true;
  locals = locals;
  labels = first_label results ∷ [];
}

-- What a constant expression marks in `refs` is kept.
unfoldable pub check_const : Context → List Bool → ℕ → ResultType → Parser (List Bool)
check_const context refs num_global_imports expected = do
  e ← check_expr (const_expr context refs num_global_imports expected)
  pure e.refs

unfoldable pub check_body : Context → List Bool → List ValType → ResultType → Parser (Unit {0})
check_body context refs locals results = do
  check_expr (body_expr context refs locals results)
  pure tt
