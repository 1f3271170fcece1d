-- ===== src/Interpreter/Exec/Operands.antt =====
-- crates/interpreter/src/exec.rs: the instructions of `step` on operands and locals.
use wasefire.Base.{ℕ, length, set, get_elem?, ltb, ◌==◌, Bool, true, false, if◌then◌else◌}
use wasefire.Interpreter.Mode.{Outcome, ok, fault}
use wasefire.Interpreter.Parser.Core.{total}
use wasefire.Interpreter.Exec.Values.{Val, unwrap_i32}
use wasefire.Interpreter.Exec.State.{
  Frame, Method, ◌>>=◌, ◌>>◌, pure, lift, on_frame, frame, peek_value, pop_value, push_value,
}
use wasefire.Interpreter.Exec.Numeric.{bit}

unfoldable pub pop_i32 : Method ℕ
pop_i32 = do v ← pop_value; lift (unwrap_i32 v)

-- Three operands, from the top.
unfoldable pub pop_range : Method (ℕ × ℕ × ℕ)
pop_range = do n ← pop_i32; s ← pop_i32; d ← pop_i32; pure (n, s, d)

unfoldable pub drop_value : Method (Unit {0})
drop_value = do pop_value; pure tt

unfoldable pub select : Method (Unit {0})
select = do c ← pop_i32; v2 ← pop_value; v1 ← pop_value; push_value (if c == 0 then v2 else v1)

-- `self.frame().locals[x]`, read and written.
unfoldable pub local : ℕ → Method Val
local x = do f ← frame; lift (total (get_elem? f.locals x))

unfoldable pub with_local : ℕ → Val → Frame → Outcome (Unit {0} × Frame)
with_local x v f =
    if ltb x (length f.locals) then ok (tt, record f { locals = set f.locals x v }) else fault

unfoldable pub set_local : ℕ → Val → Method (Unit {0})
set_local x v = on_frame (with_local x v)

unfoldable pub local_get : ℕ → Method (Unit {0})
local_get x = do v ← local x; push_value v

unfoldable pub local_set : ℕ → Method (Unit {0})
local_set x = do v ← pop_value; set_local x v

unfoldable pub local_tee : ℕ → Method (Unit {0})
local_tee x = do v ← peek_value; set_local x v

unfoldable pub is_null : Val → Bool
is_null (Val.null _) = true
is_null _ = false

unfoldable pub ref_is_null : Method (Unit {0})
ref_is_null = do v ← pop_value; push_value (Val.i32 (bit (is_null v)))
