-- ===== src/Interpreter/Exec/Values.antt =====
-- crates/interpreter/src/exec.rs: `Val`, `Ptr`, `Side` and `Component`.
pub mod Pointers
use Prim.Native.Nat.{bit_and, bit_or}
use wasefire.Base.{
  ℕ, zero, suc, ◌+◌, ◌-◌, ◌*◌, ◌/◌, ◌%◌, ◌^◌, List, [], ◌∷◌, ◌++◌, length, replicate, get_elem?,
  Bool, true, false, ◌&&◌, Option, none, some, ltb, ◌==◌, if◌then◌else◌,
}
use wasefire.Interpreter.Mode.{Outcome, ok, err, fault, out_of_fuel, mode_check, check, use_}
use wasefire.Interpreter.Syntax.Types.{RefType, ValType}
use wasefire.Interpreter.Valid.OpdType.{val_of_ref}
use wasefire.Interpreter.Parser.Core.{Parser, ◌>>=◌, pure, lift, total}
use wasefire.Interpreter.Parser.Leb128.{parse_u32}
use wasefire.Interpreter.Parser.Types.{parse_valtype}
use wasefire.Interpreter.Parser.Segments.{parse_vec}

-- A pointer is its `u32`.
abbrev pub Ptr : Type 0
Ptr = ℕ

pub data Val : Type 0 where
  i32 i64 : ℕ → Val
  null : RefType → Val
  ref : Ptr → Val
  ref_extern : ℕ → Val

pub data Side : Type 0 where
  host : Side
  wasm : ℕ → Side

unfoldable pub into_repr : Side → ℕ
into_repr Side.host = 0
into_repr (Side.wasm x) = 1 + x

unfoldable pub from_repr : ℕ → Side
from_repr zero = Side.host
from_repr (suc x) = Side.wasm x

unfoldable pub unwrap_wasm : Side → Outcome ℕ
unwrap_wasm Side.host = fault
unwrap_wasm (Side.wasm x) = ok x

abbrev pub index_bits : ℕ
index_bits = 20

abbrev pub index_mask : ℕ
index_mask = 2 ^ index_bits - 1

abbrev pub inst_mask : ℕ
inst_mask = 2 ^ (32 - index_bits) - 1

-- `!mask` of a `u32`
abbrev pub complement : ℕ → ℕ
complement mask = 2 ^ 32 - 1 - mask

-- `Ptr::new`, whose assertions panic.
unfoldable pub ptr_new : Side → ℕ → Outcome Ptr
ptr_new side idx =
    let inst = into_repr side % 2 ^ 32 in
    if bit_and inst (complement inst_mask) == 0 && bit_and idx (complement index_mask) == 0
    then ok (bit_or (inst * 2 ^ index_bits % 2 ^ 32) idx)
    else fault

unfoldable pub ptr_instance : Ptr → Side
ptr_instance p = from_repr (p / 2 ^ index_bits)

unfoldable pub ptr_index : Ptr → ℕ
ptr_index p = bit_and p index_mask

-- `Val::type_`
unfoldable pub val_type : Val → ValType
val_type (Val.i32 _) = ValType.i32
val_type (Val.i64 _) = ValType.i64
val_type (Val.null t) = val_of_ref t
val_type (Val.ref _) = ValType.func_ref
val_type (Val.ref_extern _) = ValType.extern_ref

unfoldable pub unwrap_i32 : Val → Outcome ℕ
unwrap_i32 (Val.i32 x) = ok x
unwrap_i32 _ = fault

unfoldable pub unwrap_i64 : Val → Outcome ℕ
unwrap_i64 (Val.i64 x) = ok x
unwrap_i64 _ = fault

unfoldable pub unwrap_ref : Val → Outcome Ptr
unwrap_ref (Val.ref p) = ok p
unwrap_ref _ = fault

-- `ValType::default`, where `none` is `unreachable!`.
unfoldable pub default : ValType → Option Val
default ValType.i32 = some (Val.i32 0)
default ValType.i64 = some (Val.i64 0)
default ValType.f32 = none
default ValType.f64 = none
default ValType.v128 = none
default ValType.func_ref = some (Val.null RefType.func_ref)
default ValType.extern_ref = some (Val.null RefType.extern_ref)

unfoldable pub contains : ValType → Val → Bool
contains ValType.i32 (Val.i32 _) = true
contains ValType.i64 (Val.i64 _) = true
contains ValType.func_ref (Val.null RefType.func_ref) = true
contains ValType.func_ref (Val.ref _) = true
contains ValType.extern_ref (Val.null RefType.extern_ref) = true
contains ValType.extern_ref (Val.ref_extern _) = true
contains _ _ = false

unfoldable pub all_contain : List ValType → List Val → Bool
all_contain (t ∷ ts) (x ∷ xs) = contains t x && all_contain ts xs
all_contain _ _ = true

unfoldable pub check_types : List ValType → List Val → Outcome (Unit {0})
check_types types values = elim (mode_check check (length types == length values)) [
  | ok _ ↦ mode_check check (all_contain types values)
  | err e ↦ err e
  | fault ↦ fault
  | out_of_fuel ↦ out_of_fuel
]

-- A round of the loop of `append_locals`.
unfoldable pub append_local : List Val → Parser (List Val)
append_local locals = do
  len ← parse_u32 use_
  t ← parse_valtype use_
  val ← lift (total (default t))
  pure (locals ++ replicate len val)

unfoldable pub append_locals : List Val → Parser (List Val)
append_locals locals = parse_vec use_ append_local locals

-- The imported items of an instance, and its own.
pub record Component {ℓ} (T : Type ℓ) : Type ℓ where
  pub ext : List Ptr
  pub int : T

-- The pointer to the item `x` of an instance.
unfoldable pub component_ptr {ℓ} : {T : Type ℓ} → Component T → ℕ → ℕ → Outcome Ptr
component_ptr c inst_id x =
    if ltb x (length c.ext)
    then total (get_elem? c.ext x)
    else ptr_new (Side.wasm inst_id) (x - length c.ext)
