-- ===== src/Interpreter/Parser/Instr.antt =====
-- crates/interpreter/src/parser.rs: `parse_instr`, with the opcodes in groups.
-- With the features `float-types` and `vector-types` off, their opcodes are not supported.
use wasefire.Base.{
  ℕ, zero, suc, ◌-◌, ◌/◌, ◌%◌, none, some, List, [], ◌∷◌, leb, ◌==◌, Bool, true, ◌&&◌,
  if◌then◌else◌,
}
use wasefire.Interpreter.Mode.{Mode, mode_invalid, mode_unsupported}
use wasefire.Interpreter.Syntax.Types.{Instr, ITestOp, CvtOp}
use wasefire.Interpreter.Syntax.Bytes.{sx_of, nx_of, bx_of, irel_of, iun_of, ibin_of}
use wasefire.Interpreter.Parser.Core.{
  Parser, ◌>>=◌, ◌>>◌, pure, lift, require, total, parse_bytes, parse_byte,
}
use wasefire.Interpreter.Parser.Leb128.{parse_u32, parse_i32, parse_i64}
use wasefire.Interpreter.Parser.Types.{
  parse_memarg, parse_blocktype, parse_resulttype, parse_reftype,
}

-- `check_eq` of the next byte with 0, and of the next two bytes.
unfoldable pub parse_zero : Mode → Parser (Unit {0})
parse_zero m = do x ← parse_byte m; require m (x == 0)

unfoldable pub are_zero : List ℕ → Bool
are_zero [] = true
are_zero (x ∷ xs) = x == 0 && are_zero xs

unfoldable pub parse_two_zeros : Mode → Parser (Unit {0})
parse_two_zeros m = do xs ← parse_bytes m 2; require m (are_zero xs)

-- An instruction with an index, and one with two in the order in which they are read.
unfoldable pub with_index : Mode → (ℕ → Instr) → Parser Instr
with_index m make = do x ← parse_u32 m; pure (make x)

unfoldable pub with_indices : Mode → (ℕ → ℕ → Instr) → Parser Instr
with_indices m make = do x ← parse_u32 m; y ← parse_u32 m; pure (make x y)

unfoldable pub parse_labels : Mode → ℕ → Parser (List ℕ)
parse_labels m zero = pure []
parse_labels m (suc n) = do l ← parse_u32 m; ls ← parse_labels m n; pure (l ∷ ls)

unfoldable pub parse_br_table : Mode → Parser Instr
parse_br_table m = do
  n ← parse_u32 m
  labels ← parse_labels m n
  l ← parse_u32 m
  pure (Instr.br_table labels l)

-- 0x00 to 0x11
unfoldable pub parse_control : Mode → ℕ → Parser Instr
parse_control m x =
    if x == 0x00
    then pure Instr.unreachable
    else if x == 0x01
    then pure Instr.nop
    else if x == 0x02
    then (do b ← parse_blocktype m; pure (Instr.block b))
    else if x == 0x03
    then (do b ← parse_blocktype m; pure (Instr.loop b))
    else if x == 0x04
    then (do b ← parse_blocktype m; pure (Instr.if_ b))
    else if x == 0x05
    then pure Instr.else_
    else if x == 0x0b
    then pure Instr.end
    else if x == 0x0c
    then with_index m Instr.br
    else if x == 0x0d
    then with_index m Instr.br_if
    else if x == 0x0e
    then parse_br_table m
    else if x == 0x0f
    then pure Instr.return
    else if x == 0x10
    then with_index m Instr.call
    else if x == 0x11
    then with_indices m (λ y x. Instr.call_indirect x y)
    else lift (mode_invalid m)

-- 0x1a to 0x26
unfoldable pub parse_variable : Mode → ℕ → Parser Instr
parse_variable m x =
    if x == 0x1a
    then pure Instr.drop
    else if x == 0x1b
    then pure (Instr.select none)
    else if x == 0x1c
    then (do t ← parse_resulttype m; pure (Instr.select (some t)))
    else if x == 0x20
    then with_index m Instr.local_get
    else if x == 0x21
    then with_index m Instr.local_set
    else if x == 0x22
    then with_index m Instr.local_tee
    else if x == 0x23
    then with_index m Instr.global_get
    else if x == 0x24
    then with_index m Instr.global_set
    else if x == 0x25
    then with_index m Instr.table_get
    else if x == 0x26
    then with_index m Instr.table_set
    else lift (mode_invalid m)

-- 0x28 to 0x40
unfoldable pub parse_memory : Mode → ℕ → Parser Instr
parse_memory m x =
    if leb 0x28 x && leb x 0x29
    then (do n ← lift (total (nx_of (x - 0x28))); a ← parse_memarg m; pure (Instr.i_load n a))
    else if leb 0x2a x && leb x 0x2b
    then lift (mode_unsupported m)
    else if leb 0x2c x && leb x 0x35
    then (do
      b ← lift (total (bx_of ((x - 0x2c) / 2)))
      s ← lift (total (sx_of ((x - 0x2c) % 2)))
      a ← parse_memarg m
      pure (Instr.i_load_ b s a))
    else if leb 0x36 x && leb x 0x37
    then (do n ← lift (total (nx_of (x - 0x36))); a ← parse_memarg m; pure (Instr.i_store n a))
    else if leb 0x38 x && leb x 0x39
    then lift (mode_unsupported m)
    else if leb 0x3a x && leb x 0x3e
    then (do b ← lift (total (bx_of (x - 0x3a))); a ← parse_memarg m; pure (Instr.i_store_ b a))
    else if x == 0x3f
    then (do parse_zero m; pure Instr.memory_size)
    else if x == 0x40
    then (do parse_zero m; pure Instr.memory_grow)
    else lift (mode_invalid m)

-- Of 11 opcodes on integers of one width, the first tests and the others compare.
unfoldable pub parse_comparison : ℕ → Parser Instr
parse_comparison y = do
  n ← lift (total (nx_of (y / 11)))
  if y % 11 == 0
      then pure (Instr.i_test_op n ITestOp.eqz)
      else (do op ← lift (total (irel_of (y % 11 - 1))); pure (Instr.i_rel_op n op))

-- Of 18, the first three are unary and the others binary.
unfoldable pub parse_arithmetic : ℕ → Parser Instr
parse_arithmetic y = do
  n ← lift (total (nx_of (y / 18)))
  if leb (y % 18) 2
      then (do op ← lift (total (iun_of (y % 18))); pure (Instr.i_un_op n op))
      else (do op ← lift (total (ibin_of (y % 18 - 3))); pure (Instr.i_bin_op n op))

-- 0x41 to 0xc4
unfoldable pub parse_numeric : Mode → ℕ → Parser Instr
parse_numeric m x =
    if x == 0x41
    then (do c ← parse_i32 m; pure (Instr.i32_const c))
    else if x == 0x42
    then (do c ← parse_i64 m; pure (Instr.i64_const c))
    else if leb 0x43 x && leb x 0x44
    then lift (mode_unsupported m)
    else if leb 0x45 x && leb x 0x5a
    then parse_comparison (x - 0x45)
    else if leb 0x5b x && leb x 0x66
    then lift (mode_unsupported m)
    else if leb 0x67 x && leb x 0x8a
    then parse_arithmetic (x - 0x67)
    else if leb 0x8b x && leb x 0xa6
    then lift (mode_unsupported m)
    else if x == 0xa7
    then pure (Instr.cvt_op CvtOp.wrap)
    else if leb 0xa8 x && leb x 0xab
    then lift (mode_unsupported m)
    else if leb 0xac x && leb x 0xad
    then (do s ← lift (total (sx_of (x - 0xac))); pure (Instr.cvt_op (CvtOp.extend s)))
    else if leb 0xae x && leb x 0xbf
    then lift (mode_unsupported m)
    else if leb 0xc0 x && leb x 0xc4
    then (do b ← lift (total (bx_of (x - 0xc0))); pure (Instr.i_extend b))
    else lift (mode_invalid m)

-- The opcodes behind 0xfc
unfoldable pub parse_bulk : Mode → ℕ → Parser Instr
parse_bulk m x =
    if leb x 7
    then lift (mode_unsupported m)
    else if x == 8
    then (do i ← parse_u32 m; parse_zero m; pure (Instr.memory_init i))
    else if x == 9
    then with_index m Instr.data_drop
    else if x == 10
    then (do parse_two_zeros m; pure Instr.memory_copy)
    else if x == 11
    then (do parse_zero m; pure Instr.memory_fill)
    else if x == 12
    then with_indices m (λ y x. Instr.table_init x y)
    else if x == 13
    then with_index m Instr.elem_drop
    else if x == 14
    then with_indices m Instr.table_copy
    else if x == 15
    then with_index m Instr.table_grow
    else if x == 16
    then with_index m Instr.table_size
    else if x == 17
    then with_index m Instr.table_fill
    else lift (mode_invalid m)

-- 0xd0 to 0xfd
unfoldable pub parse_reference : Mode → ℕ → Parser Instr
parse_reference m x =
    if x == 0xd0
    then (do t ← parse_reftype m; pure (Instr.ref_null t))
    else if x == 0xd1
    then pure Instr.ref_is_null
    else if x == 0xd2
    then with_index m Instr.ref_func
    else if x == 0xfc
    then (do y ← parse_u32 m; parse_bulk m y)
    else if x == 0xfd
    then lift (mode_unsupported m)
    else lift (mode_invalid m)

unfoldable pub parse_opcode : Mode → ℕ → Parser Instr
parse_opcode m x =
    if leb x 0x11
    then parse_control m x
    else if leb x 0x26
    then parse_variable m x
    else if leb x 0x40
    then parse_memory m x
    else if leb x 0xc4
    then parse_numeric m x
    else parse_reference m x

unfoldable pub parse_instr : Mode → Parser Instr
parse_instr m = do x ← parse_byte m; parse_opcode m x
