-- ===== src/Interpreter/Syntax/Types.antt =====
-- crates/interpreter/src/syntax.rs: types and instructions.
use wasefire.Base.{ℕ, ◌-◌, ◌^◌, List, Option, Bool, leb, ◌&&◌}

pub data NumType : Type 0 where
  i32 i64 f32 f64 : NumType

pub data RefType : Type 0 where
  func_ref extern_ref : RefType

pub data ValType : Type 0 where
  i32 i64 f32 f64 v128 func_ref extern_ref : ValType

abbrev pub ResultType : Type 0
ResultType = List ValType

pub record FuncType : Type 0 where
  pub params : ResultType
  pub results : ResultType

pub record Limits : Type 0 where
  pub min : ℕ
  pub max : ℕ

abbrev pub table_max : ℕ
table_max = 2 ^ 32 - 1

abbrev pub mem_max : ℕ
mem_max = 0x10000

unfoldable pub limits_valid : Limits → ℕ → Bool
limits_valid l k = leb l.min l.max && leb l.max k

unfoldable pub limits_match : Limits → Limits → Bool
limits_match l other = leb other.min l.min && leb l.max other.max

pub record TableType : Type 0 where
  pub limits : Limits
  pub item : RefType

pub data Mut : Type 0 where
  const var : Mut

pub record GlobalType : Type 0 where
  pub mutable : Mut
  pub value : ValType

pub data Sx : Type 0 where
  u s : Sx

pub data Nx : Type 0 where
  n32 n64 : Nx

pub data Bx : Type 0 where
  n32b8 n32b16 n64b8 n64b16 n64b32 : Bx

pub data ITestOp : Type 0 where
  eqz : ITestOp

pub data IRelOp : Type 0 where
  eq ne : IRelOp
  lt gt le ge : Sx → IRelOp

pub data IUnOp : Type 0 where
  clz ctz pop_cnt : IUnOp

pub data IBinOp : Type 0 where
  add sub mul and or xor shl rotl rotr : IBinOp
  div rem shr : Sx → IBinOp

pub data CvtOp : Type 0 where
  wrap : CvtOp
  extend : Sx → CvtOp

pub data BlockType : Type 0 where
  none : BlockType
  type : ValType → BlockType
  index : ℕ → BlockType

pub record MemArg : Type 0 where
  pub align : ℕ
  pub offset : ℕ

-- The indices are numbers.
pub data Instr : Type 0 where
  unreachable nop else_ end return drop : Instr
  block loop if_ : BlockType → Instr
  br br_if : ℕ → Instr
  br_table : List ℕ → ℕ → Instr
  call : ℕ → Instr
  call_indirect : ℕ → ℕ → Instr
  select : Option ResultType → Instr
  local_get local_set local_tee global_get global_set table_get table_set : ℕ → Instr
  i_load : Nx → MemArg → Instr
  i_load_ : Bx → Sx → MemArg → Instr
  i_store : Nx → MemArg → Instr
  i_store_ : Bx → MemArg → Instr
  memory_size memory_grow memory_copy memory_fill ref_is_null : Instr
  i32_const i64_const : ℕ → Instr
  i_test_op : Nx → ITestOp → Instr
  i_rel_op : Nx → IRelOp → Instr
  i_un_op : Nx → IUnOp → Instr
  i_bin_op : Nx → IBinOp → Instr
  cvt_op : CvtOp → Instr
  i_extend : Bx → Instr
  ref_null : RefType → Instr
  ref_func memory_init data_drop elem_drop table_grow table_size table_fill : ℕ → Instr
  table_init table_copy : ℕ → ℕ → Instr

pub data ImportDesc : Type 0 where
  func : ℕ → ImportDesc
  table : TableType → ImportDesc
  mem : Limits → ImportDesc
  global : GlobalType → ImportDesc

pub data ExportDesc : Type 0 where
  func table mem global : ℕ → ExportDesc

pub data SectionId : Type 0 where
  custom type import function table memory global export start element code data_ data_count :
      SectionId
