-- ===== src/Interpreter/Syntax/Bytes.antt =====
-- crates/interpreter/src/syntax.rs: the conversions from bytes and between types.
-- `none` is the `unreachable!` of a conversion from `u8`, and the failure of `try_from_byte`.
use wasefire.Base.{ℕ, Bool, true, false, Option, some, if◌then◌else◌, ◌==◌}
use wasefire.Base.{none}
use wasefire.Interpreter.Syntax.Types.{
  NumType, RefType, ValType, Mut, const, var, Sx, u, s, Nx, n32, n64, Bx, n32b8, n32b16, n64b8,
  n64b16, n64b32, IRelOp, eq, ne, lt, gt, le, ge, IUnOp, clz, ctz, pop_cnt, IBinOp, add, sub, mul,
  div, rem, and, or, xor, shl, shr, rotl, rotr, CvtOp, wrap, extend, SectionId,
}

unfoldable pub num_type_i : Nx → NumType
num_type_i n32 = NumType.i32
num_type_i n64 = NumType.i64

-- `usize::from` of an `Nx` and of a `Bx`, and `Nx::from` of a `Bx`.
unfoldable pub nx_width : Nx → ℕ
nx_width n32 = 32
nx_width n64 = 64

unfoldable pub bx_nx : Bx → Nx
bx_nx n32b8 = n32
bx_nx n32b16 = n32
bx_nx n64b8 = n64
bx_nx n64b16 = n64
bx_nx n64b32 = n64

unfoldable pub bx_width : Bx → ℕ
bx_width n32b8 = 8
bx_width n64b8 = 8
bx_width n32b16 = 16
bx_width n64b16 = 16
bx_width n64b32 = 32

unfoldable pub cvt_dst : CvtOp → NumType
cvt_dst wrap = NumType.i32
cvt_dst (extend _) = NumType.i64

unfoldable pub cvt_src : CvtOp → NumType
cvt_src wrap = NumType.i64
cvt_src (extend _) = NumType.i32

unfoldable pub sx_of : ℕ → Option Sx
sx_of x = if x == 0 then some s else if x == 1 then some u else none

unfoldable pub nx_of : ℕ → Option Nx
nx_of x = if x == 0 then some n32 else if x == 1 then some n64 else none

unfoldable pub bx_of : ℕ → Option Bx
bx_of x =
    if x == 0
    then some n32b8
    else if x == 1
    then some n32b16
    else if x == 2
    then some n64b8
    else if x == 3
    then some n64b16
    else if x == 4
    then some n64b32
    else none

unfoldable pub irel_of : ℕ → Option IRelOp
irel_of x =
    if x == 0
    then some eq
    else if x == 1
    then some ne
    else if x == 2
    then some (lt s)
    else if x == 3
    then some (lt u)
    else if x == 4
    then some (gt s)
    else if x == 5
    then some (gt u)
    else if x == 6
    then some (le s)
    else if x == 7
    then some (le u)
    else if x == 8
    then some (ge s)
    else if x == 9
    then some (ge u)
    else none

unfoldable pub iun_of : ℕ → Option IUnOp
iun_of x =
    if x == 0 then some clz else if x == 1 then some ctz else if x == 2 then some pop_cnt else none

unfoldable pub ibin_of : ℕ → Option IBinOp
ibin_of x =
    if x == 0
    then some add
    else if x == 1
    then some sub
    else if x == 2
    then some mul
    else if x == 3
    then some (div s)
    else if x == 4
    then some (div u)
    else if x == 5
    then some (rem s)
    else if x == 6
    then some (rem u)
    else if x == 7
    then some and
    else if x == 8
    then some or
    else if x == 9
    then some xor
    else if x == 10
    then some shl
    else if x == 11
    then some (shr s)
    else if x == 12
    then some (shr u)
    else if x == 13
    then some rotl
    else if x == 14
    then some rotr
    else none

unfoldable pub val_type_of : ℕ → Option ValType
val_type_of x =
    if x == 0x7f
    then some ValType.i32
    else if x == 0x7e
    then some ValType.i64
    else if x == 0x7d
    then some ValType.f32
    else if x == 0x7c
    then some ValType.f64
    else if x == 0x7b
    then some ValType.v128
    else if x == 0x70
    then some ValType.func_ref
    else if x == 0x6f
    then some ValType.extern_ref
    else none

unfoldable pub ref_type_of : ℕ → Option RefType
ref_type_of x =
    if x == 0x70 then some RefType.func_ref else if x == 0x6f then some RefType.extern_ref else none

unfoldable pub mut_of : ℕ → Option Mut
mut_of x = if x == 0 then some const else if x == 1 then some var else none

unfoldable pub bool_of : ℕ → Option Bool
bool_of x = if x == 0 then some false else if x == 1 then some true else none

unfoldable pub section_id_of : ℕ → Option SectionId
section_id_of x =
    if x == 0
    then some SectionId.custom
    else if x == 1
    then some SectionId.type
    else if x == 2
    then some SectionId.import
    else if x == 3
    then some SectionId.function
    else if x == 4
    then some SectionId.table
    else if x == 5
    then some SectionId.memory
    else if x == 6
    then some SectionId.global
    else if x == 7
    then some SectionId.export
    else if x == 8
    then some SectionId.start
    else if x == 9
    then some SectionId.element
    else if x == 10
    then some SectionId.code
    else if x == 11
    then some SectionId.data_
    else if x == 12
    then some SectionId.data_count
    else none

-- The count of data segments stands between elements and code.
unfoldable pub section_order : SectionId → ℕ
section_order SectionId.custom = 0
section_order SectionId.type = 1
section_order SectionId.import = 2
section_order SectionId.function = 3
section_order SectionId.table = 4
section_order SectionId.memory = 5
section_order SectionId.global = 6
section_order SectionId.export = 7
section_order SectionId.start = 8
section_order SectionId.element = 9
section_order SectionId.data_count = 10
section_order SectionId.code = 11
section_order SectionId.data_ = 12
