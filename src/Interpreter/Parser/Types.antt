-- ===== src/Interpreter/Parser/Types.antt =====
-- crates/interpreter/src/parser.rs: indices, names, types and descriptions.
-- The methods for indices (`parse_typeidx` and so on) all are `parse_u32`.
use wasefire.Base.{
  ℕ, zero, suc, ◌%◌, ◌^◌, bit_and, Bool, true, false, ◌&&◌, Option, none, some, List, [], ◌∷◌, leb,
  ltb, ◌==◌, if◌then◌else◌,
}
use wasefire.Interpreter.Mode.{Mode, mode_choose, mode_invalid}
use wasefire.Interpreter.Syntax.Types.{
  ValType, RefType, ResultType, FuncType, Limits, TableType, Mut, GlobalType, MemArg, BlockType,
  ImportDesc, ExportDesc, SectionId, table_max, mem_max,
}
use wasefire.Interpreter.Syntax.Bytes.{val_type_of, ref_type_of, mut_of, bool_of, section_id_of}
use wasefire.Interpreter.Parser.Core.{
  Parser, ◌>>=◌, ◌>>◌, pure, lift, require, parse_bytes, parse_byte, byte_enum,
}
use wasefire.Interpreter.Parser.Leb128.{parse_leb128, parse_u32}

-- `core::str::from_utf8`: the leading byte gives how many bytes follow, and the range of the first.
unfoldable pub utf8_lead : ℕ → Option (ℕ × ℕ × ℕ)
utf8_lead x =
    if ltb x 0x80
    then some (0, 0x80, 0xbf)
    else if leb 0xc2 x && leb x 0xdf
    then some (1, 0x80, 0xbf)
    else if x == 0xe0
    then some (2, 0xa0, 0xbf)
    else if x == 0xed
    then some (2, 0x80, 0x9f)
    else if leb 0xe1 x && leb x 0xef
    then some (2, 0x80, 0xbf)
    else if x == 0xf0
    then some (3, 0x90, 0xbf)
    else if leb 0xf1 x && leb x 0xf3
    then some (3, 0x80, 0xbf)
    else if x == 0xf4
    then some (3, 0x80, 0x8f)
    else none

unfoldable pub is_utf8_from : ℕ → ℕ → ℕ → List ℕ → Bool
is_utf8_from zero lo hi [] = true
is_utf8_from (suc n) lo hi [] = false
is_utf8_from zero lo hi (x ∷ xs) = elim (utf8_lead x) [
  | none ↦ false
  | some (n, lo', hi') ↦ is_utf8_from n lo' hi' xs
]
is_utf8_from (suc n) lo hi (x ∷ xs) = (leb lo x && leb x hi) && is_utf8_from n 0x80 0xbf xs

-- A name is its bytes.
unfoldable pub name_of : List ℕ → Option (List ℕ)
name_of xs = if is_utf8_from 0 0x80 0xbf xs then some xs else none

unfoldable pub parse_section_id : Mode → Parser SectionId
parse_section_id m = byte_enum section_id_of m

-- `split_at` and `split_section`: the bytes of the parser of a section.
unfoldable pub split_section : Mode → Parser (List ℕ)
split_section m = do n ← parse_u32 m; parse_bytes m n

unfoldable pub parse_name : Mode → Parser (List ℕ)
parse_name m = do n ← parse_u32 m; xs ← parse_bytes m n; lift (mode_choose m (name_of xs))

unfoldable pub parse_valtype : Mode → Parser ValType
parse_valtype m = byte_enum val_type_of m

-- The bytes read as value types, where all are.
unfoldable pub val_types_of : List ℕ → Option ResultType
val_types_of [] = some []
val_types_of (x ∷ xs) = elim (val_type_of x) [
  | none ↦ none
  | some t ↦ elim (val_types_of xs) [ none ↦ none | some ts ↦ some (t ∷ ts) ]
]

-- The check that all bytes are value types, and then reading them as such.
unfoldable pub parse_resulttype : Mode → Parser ResultType
parse_resulttype m = do
  n ← parse_u32 m
  xs ← parse_bytes m n
  lift (mode_choose m (val_types_of xs))

unfoldable pub parse_functype : Mode → Parser FuncType
parse_functype m = do
  byte ← parse_byte m
  require m (byte == 0x60)
  params ← parse_resulttype m
  results ← parse_resulttype m
  pure (record { params = params; results = results })

unfoldable pub parse_reftype : Mode → Parser RefType
parse_reftype m = byte_enum ref_type_of m

unfoldable pub parse_max : Mode → Bool → ℕ → Parser ℕ
parse_max m true max = parse_u32 m
parse_max m false max = pure max

unfoldable pub parse_limits : Mode → ℕ → Parser Limits
parse_limits m max = do
  has_max ← byte_enum bool_of m
  min ← parse_u32 m
  max' ← parse_max m has_max max
  pure (record { min = min; max = max' })

unfoldable pub parse_tabletype : Mode → Parser TableType
parse_tabletype m = do
  item ← parse_reftype m
  limits ← parse_limits m table_max
  pure (record { limits = limits; item = item })

unfoldable pub parse_memtype : Mode → Parser Limits
parse_memtype m = parse_limits m mem_max

unfoldable pub parse_mut : Mode → Parser Mut
parse_mut m = byte_enum mut_of m

unfoldable pub parse_globaltype : Mode → Parser GlobalType
parse_globaltype m = do
  value ← parse_valtype m
  mutable ← parse_mut m
  pure (record { mutable = mutable; value = value })

unfoldable pub parse_importdesc : Mode → Parser ImportDesc
parse_importdesc m = do
  byte ← parse_byte m
  if byte == 0
      then (do x ← parse_u32 m; pure (ImportDesc.func x))
      else if byte == 1
      then (do t ← parse_tabletype m; pure (ImportDesc.table t))
      else if byte == 2
      then (do l ← parse_memtype m; pure (ImportDesc.mem l))
      else if byte == 3
      then (do g ← parse_globaltype m; pure (ImportDesc.global g))
      else lift (mode_invalid m)

unfoldable pub parse_exportdesc : Mode → Parser ExportDesc
parse_exportdesc m = do
  byte ← parse_byte m
  if byte == 0
      then (do x ← parse_u32 m; pure (ExportDesc.func x))
      else if byte == 1
      then (do x ← parse_u32 m; pure (ExportDesc.table x))
      else if byte == 2
      then (do x ← parse_u32 m; pure (ExportDesc.mem x))
      else if byte == 3
      then (do x ← parse_u32 m; pure (ExportDesc.global x))
      else lift (mode_invalid m)

unfoldable pub parse_memarg : Mode → Parser MemArg
parse_memarg m = do
  align ← parse_u32 m
  offset ← parse_u32 m
  pure (record { align = align; offset = offset })

-- The type of a block that is no index, from the low byte of the number read.
unfoldable pub parse_valtype_block : Mode → ℕ → Parser BlockType
parse_valtype_block m x =
    if x == 0x40
    then pure BlockType.none
    else (do t ← lift (mode_choose m (val_type_of x)); pure (BlockType.type t))

unfoldable pub parse_blocktype : Mode → Parser BlockType
parse_blocktype m = do
  x ← parse_leb128 m true 33
  if bit_and x 0x1_0000_0000 == 0 then pure (BlockType.index (x % 2 ^ 32)) else (do
    require m (bit_and x 0xffff_ff80 == 0xffff_ff80)
    parse_valtype_block m (bit_and (x % 2 ^ 8) 0x7f))
