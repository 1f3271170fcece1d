-- ===== src/Interpreter/Valid/OpdType.antt =====
-- crates/interpreter/src/valid.rs: the types of operands, with one that matches any other.
use wasefire.Base.{ℕ, ◌==◌, Bool, true, false, ◌||◌, ◌&&◌, [], ◌∷◌, if◌then◌else◌}
use wasefire.Interpreter.Mode.{Outcome, ok, err, invalid}
use wasefire.Interpreter.Syntax.Types.{NumType, RefType, ValType, ResultType}

pub data OpdType : Type 0 where
  bottom i32 i64 f32 f64 v128 func_ref extern_ref : OpdType

-- The value of `repr(u8)`, by which types are equal.
unfoldable pub opd_byte : OpdType → ℕ
opd_byte OpdType.bottom = 0x80
opd_byte OpdType.i32 = 0x7f
opd_byte OpdType.i64 = 0x7e
opd_byte OpdType.f32 = 0x7d
opd_byte OpdType.f64 = 0x7c
opd_byte OpdType.v128 = 0x7b
opd_byte OpdType.func_ref = 0x70
opd_byte OpdType.extern_ref = 0x6f

-- `impl_type_conv!`
unfoldable pub opd_of_val : ValType → OpdType
opd_of_val ValType.i32 = OpdType.i32
opd_of_val ValType.i64 = OpdType.i64
opd_of_val ValType.f32 = OpdType.f32
opd_of_val ValType.f64 = OpdType.f64
opd_of_val ValType.v128 = OpdType.v128
opd_of_val ValType.func_ref = OpdType.func_ref
opd_of_val ValType.extern_ref = OpdType.extern_ref

unfoldable pub val_of_num : NumType → ValType
val_of_num NumType.i32 = ValType.i32
val_of_num NumType.i64 = ValType.i64
val_of_num NumType.f32 = ValType.f32
val_of_num NumType.f64 = ValType.f64

unfoldable pub val_of_ref : RefType → ValType
val_of_ref RefType.func_ref = ValType.func_ref
val_of_ref RefType.extern_ref = ValType.extern_ref

unfoldable pub opd_of_num : NumType → OpdType
opd_of_num NumType.i32 = OpdType.i32
opd_of_num NumType.i64 = OpdType.i64
opd_of_num NumType.f32 = OpdType.f32
opd_of_num NumType.f64 = OpdType.f64

unfoldable pub opd_of_ref : RefType → OpdType
opd_of_ref RefType.func_ref = OpdType.func_ref
opd_of_ref RefType.extern_ref = OpdType.extern_ref

-- `==`, derived
unfoldable pub opd_eq : OpdType → OpdType → Bool
opd_eq t other = opd_byte t == opd_byte other

unfoldable pub val_eq : ValType → ValType → Bool
val_eq t other = opd_eq (opd_of_val t) (opd_of_val other)

unfoldable pub ref_eq : RefType → RefType → Bool
ref_eq t other = opd_eq (opd_of_ref t) (opd_of_ref other)

unfoldable pub result_eq : ResultType → ResultType → Bool
result_eq [] [] = true
result_eq [] (u ∷ us) = false
result_eq (t ∷ ts) [] = false
result_eq (t ∷ ts) (u ∷ us) = val_eq t u && result_eq ts us

unfoldable pub opd_matches : OpdType → ValType → Bool
opd_matches t other = opd_eq t OpdType.bottom || opd_eq t (opd_of_val other)

unfoldable pub unify : OpdType → OpdType → Outcome OpdType
unify t other =
    if opd_eq t OpdType.bottom
    then ok other
    else if opd_eq other OpdType.bottom
    then ok t
    else if opd_eq t other
    then ok t
    else err invalid

unfoldable pub is_num : OpdType → Bool
is_num OpdType.bottom = true
is_num OpdType.i32 = true
is_num OpdType.i64 = true
is_num OpdType.f32 = true
is_num OpdType.f64 = true
is_num _ = false

unfoldable pub is_vec : OpdType → Bool
is_vec OpdType.bottom = true
is_vec OpdType.v128 = true
is_vec _ = false

unfoldable pub is_ref : OpdType → Bool
is_ref OpdType.bottom = true
is_ref OpdType.func_ref = true
is_ref OpdType.extern_ref = true
is_ref _ = false
