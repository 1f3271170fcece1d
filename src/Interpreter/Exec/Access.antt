-- ===== src/Interpreter/Exec/Access.antt =====
-- crates/interpreter/src/exec.rs: `mem_slice`, `load` and `store` of `Thread`, on a memory.
pub mod RoundTrip
use wasefire.Base.{
  ℕ, zero, suc, ◌+◌, ◌-◌, ◌*◌, ◌/◌, ◌%◌, ◌^◌, List, [], ◌∷◌, length, Bool, false, ◌&&◌, ◌||◌,
  Option, none, some, leb, ◌==◌, if◌then◌else◌,
}
use wasefire.Interpreter.Mode.{Outcome, ok, err, fault, out_of_fuel, ◌>>=◌, trap}
use wasefire.Interpreter.Syntax.Types.{NumType, MemArg, Sx, u, s}
use wasefire.Interpreter.Syntax.Signed.{sign_extend}
use wasefire.Interpreter.Parser.Core.{total}
use wasefire.Interpreter.Exec.Values.{Val, unwrap_i32, unwrap_i64}
use wasefire.Interpreter.Exec.Memory.{Memory, memory_len, u32_max, slice, write, with_bytes}

-- The address of `len` bytes, from the operand and the offset of the instruction.
unfoldable pub mem_slice : Memory → MemArg → ℕ → ℕ → Outcome ℕ
mem_slice mem m i len =
    let ea = i + m.offset in
    if leb ea u32_max && leb (ea + len) u32_max && leb (ea + len) (memory_len mem)
    then ok ea
    else err trap

-- `from_le_bytes` and `to_le_bytes`
unfoldable pub from_le_bytes : List ℕ → ℕ
from_le_bytes [] = 0
from_le_bytes (x ∷ xs) = x + 256 * from_le_bytes xs

unfoldable pub to_le_bytes : ℕ → ℕ → List ℕ
to_le_bytes zero x = []
to_le_bytes (suc n) x = x % 256 ∷ to_le_bytes n (x / 256)

-- The widths below that of the type, and that of the type.
unfoldable pub is_width : NumType → ℕ → Bool
is_width NumType.i32 n = n == 8 || n == 16 || n == 32
is_width NumType.i64 n = n == 8 || n == 16 || n == 32 || n == 64
is_width _ n = false

unfoldable pub is_part : NumType → ℕ → Bool
is_part NumType.i32 n = n == 8 || n == 16
is_part NumType.i64 n = n == 8 || n == 16 || n == 32
is_part _ n = false

-- The conversion of `load`, where another width is `unreachable!`.
unfoldable pub load_value : NumType → ℕ → Sx → List ℕ → Outcome Val
load_value NumType.i32 n u bytes =
    if is_width NumType.i32 n then ok (Val.i32 (from_le_bytes bytes)) else fault
load_value NumType.i32 n s bytes =
    if is_part NumType.i32 n then ok (Val.i32 (sign_extend 32 n (from_le_bytes bytes))) else fault
load_value NumType.i64 n u bytes =
    if is_width NumType.i64 n then ok (Val.i64 (from_le_bytes bytes)) else fault
load_value NumType.i64 n s bytes =
    if is_part NumType.i64 n then ok (Val.i64 (sign_extend 64 n (from_le_bytes bytes))) else fault
load_value _ n sx bytes = fault

-- The conversion of `store`.
unfoldable pub store_bytes : NumType → ℕ → Val → Outcome (List ℕ)
store_bytes NumType.i32 n c =
    if is_width NumType.i32 n
    then (do x ← unwrap_i32 c; ok (to_le_bytes (n / 8) (x % 2 ^ n)))
    else fault
store_bytes NumType.i64 n c =
    if is_width NumType.i64 n
    then (do x ← unwrap_i64 c; ok (to_le_bytes (n / 8) (x % 2 ^ n)))
    else fault
store_bytes _ n c = fault

-- `load` of the address `i`
unfoldable pub memory_load : Memory → NumType → ℕ → Sx → MemArg → ℕ → Outcome Val
memory_load mem t n sx m i = do
  ea ← mem_slice mem m i (n / 8)
  bytes ← slice ea (n / 8) mem.bytes
  load_value t n sx bytes

-- `store` of the value `c` at the address `i`
unfoldable pub memory_store : Memory → NumType → ℕ → MemArg → ℕ → Val → Outcome Memory
memory_store mem t n m i c = do
  ea ← mem_slice mem m i (n / 8)
  part ← store_bytes t n c
  with_bytes mem (write ea part mem.bytes)
