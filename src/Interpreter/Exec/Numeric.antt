-- ===== src/Interpreter/Exec/Numeric.antt =====
-- crates/interpreter/src/exec.rs: the numeric instructions of `Thread`.
use wasefire.Base.{ℕ, ◌%◌, ◌^◌, Bool, true, false, Option, none, some}
use wasefire.Interpreter.Mode.{Outcome, ok, err, trap}
use wasefire.Interpreter.Syntax.Types.{
  Nx, n32, n64, Bx, n32b8, n32b16, n64b8, n64b16, n64b32, ITestOp, IRelOp, IUnOp, IBinOp, CvtOp,
  wrap, extend, u, s,
}
use wasefire.Interpreter.Syntax.Signed.{sign_extend}
use wasefire.Interpreter.Syntax.Bytes.{nx_width, bx_nx}
use wasefire.Interpreter.Syntax.Ops.{itest, irel, iun, ibin}
use wasefire.Interpreter.Exec.Values.{Val, unwrap_i32, unwrap_i64}
use wasefire.Interpreter.Exec.State.{Method, ◌>>=◌, lift, pop_value, push_value}

unfoldable pub bit : Bool → ℕ
bit true = 1
bit false = 0

-- The operand of a width, and the value of one.
unfoldable pub unwrap_nx : Nx → Val → Outcome ℕ
unwrap_nx n32 v = unwrap_i32 v
unwrap_nx n64 v = unwrap_i64 v

unfoldable pub val_nx : Nx → ℕ → Val
val_nx n32 x = Val.i32 x
val_nx n64 x = Val.i64 x

-- `ok_or_else(trap)`
unfoldable pub or_trap {ℓ} : {A : Type ℓ} → Option A → Outcome A
or_trap none = err trap
or_trap (some a) = ok a

unfoldable pub itestop : Nx → ITestOp → Method (Unit {0})
itestop n op = do v ← pop_value; x ← lift (unwrap_nx n v); push_value (Val.i32 (bit (itest op x)))

unfoldable pub irelop : Nx → IRelOp → Method (Unit {0})
irelop n op = do
  vy ← pop_value
  vx ← pop_value
  x ← lift (unwrap_nx n vx)
  y ← lift (unwrap_nx n vy)
  push_value (Val.i32 (bit (irel (nx_width n) op x y)))

-- `push_value_or_trap`
unfoldable pub push_or_trap : Nx → Option ℕ → Method (Unit {0})
push_or_trap n z = do x ← lift (or_trap z); push_value (val_nx n x)

unfoldable pub iunop : Nx → IUnOp → Method (Unit {0})
iunop n op = do v ← pop_value; x ← lift (unwrap_nx n v); push_or_trap n (iun (nx_width n) op x)

unfoldable pub ibinop : Nx → IBinOp → Method (Unit {0})
ibinop n op = do
  vy ← pop_value
  vx ← pop_value
  x ← lift (unwrap_nx n vx)
  y ← lift (unwrap_nx n vy)
  push_or_trap n (ibin (nx_width n) op x y)

unfoldable pub cvtop : CvtOp → Method (Unit {0})
cvtop wrap = do v ← pop_value; x ← lift (unwrap_i64 v); push_value (Val.i32 (x % 2 ^ 32))
cvtop (extend u) = do v ← pop_value; x ← lift (unwrap_i32 v); push_value (Val.i64 x)
cvtop (extend s) = do
  v ← pop_value
  x ← lift (unwrap_i32 v)
  push_value (Val.i64 (sign_extend 64 32 x))

unfoldable pub extend_nx : Bx → ℕ → Val
extend_nx n32b8 x = Val.i32 (sign_extend 32 8 x)
extend_nx n32b16 x = Val.i32 (sign_extend 32 16 x)
extend_nx n64b8 x = Val.i64 (sign_extend 64 8 x)
extend_nx n64b16 x = Val.i64 (sign_extend 64 16 x)
extend_nx n64b32 x = Val.i64 (sign_extend 64 32 x)

unfoldable pub extend_val : Bx → Method (Unit {0})
extend_val b = do v ← pop_value; x ← lift (unwrap_nx (bx_nx b) v); push_value (extend_nx b x)
