-- ===== src/Interpreter/Tests.antt =====
-- Tests of the interpreter's model, and the theorems at concrete bytes.
use wasefire.Base.{
  ◌⊎◌, ℕ, ◌≤◌, ◌≡◌, ◌≢◌, ◌<◌, ◌↔◌, refl, List, [], ◌∷◌, ◌++◌, length, arith, Bool, false,
}
use wasefire.Interpreter.Mode.{check, use_, ok, err, fault, out_of_fuel, unsupported, invalid}
use wasefire.Interpreter.Syntax.Types.{Instr, ValType, FuncType}
use wasefire.Interpreter.Parser.Leb128.{parse_leb128}
use wasefire.Interpreter.Parser.Leb128.Unsigned.{leb_bytes, parse_leb128-leb_bytes}
use wasefire.Interpreter.Parser.Instr.{parse_instr}
use wasefire.Interpreter.Parser.Parses.Instr.{parse_instr-agrees, parse_instr_total}
use wasefire.Interpreter.Parser.Skip.{skip_to_end}
use wasefire.Interpreter.Parser.Skip.Nesting.{Bodies, skip_to_end_iff}
use wasefire.Interpreter.Valid.Context.{empty_context}
use wasefire.Interpreter.Valid.OpdType.{OpdType}
use wasefire.Interpreter.Valid.Method.{LabelKind, Label, Expr, extend}
use wasefire.Interpreter.Valid.Labels.{call}
use wasefire.Interpreter.Valid.Check.{check_body, body_expr}
use wasefire.Interpreter.Valid.Sound.{check_body-skip_to_end}
use wasefire.Interpreter.Valid.Sections.{magic, validate}
use wasefire.Interpreter.Valid.Verdict.{validate-Decides}
use wasefire.Interpreter.Valid.Typed.{with_stack, Operands, call_typed}

-- `i32.const 42`, and a byte behind it.
abbrev constant : List ℕ
constant = 0x41 ∷ 0x2a ∷ 0x0b ∷ []

constant_read : parse_instr check constant ≡ ok (Instr.i32_const 42, 0x0b ∷ [])
unfolding wasefire.Interpreter.Parser.Core.◌>>◌ wasefire.Interpreter.Parser.Core.pure
    wasefire.Interpreter.Parser.Core.require wasefire.Interpreter.Parser.Core.split_bytes
    wasefire.Interpreter.Parser.Core.parse_bytes wasefire.Interpreter.Parser.Core.first_byte
    wasefire.Interpreter.Parser.Core.parse_byte wasefire.Interpreter.Parser.Leb128.leb_last
    wasefire.Interpreter.Parser.Leb128.leb_loop wasefire.Interpreter.Parser.Leb128.parse_i32
    parse_leb128 parse_instr wasefire.Interpreter.Parser.Instr.parse_opcode
    wasefire.Interpreter.Parser.Instr.parse_numeric
constant_read = refl

-- A float instruction is not supported.
float_read : parse_instr check (0x43 ∷ []) ≡ err unsupported
unfolding wasefire.Interpreter.Parser.Core.◌>>◌ wasefire.Interpreter.Parser.Core.require
    wasefire.Interpreter.Parser.Core.split_bytes wasefire.Interpreter.Parser.Core.parse_bytes
    wasefire.Interpreter.Parser.Core.first_byte wasefire.Interpreter.Parser.Core.parse_byte
    parse_instr wasefire.Interpreter.Parser.Instr.parse_opcode
    wasefire.Interpreter.Parser.Instr.parse_numeric
float_read = refl

parse_instr-agrees_example : parse_instr use_ constant ≡ ok (Instr.i32_const 42, 0x0b ∷ [])
parse_instr-agrees_example =
    parse_instr-agrees constant (Instr.i32_const 42) (0x0b ∷ []) constant_read

parse_instr_total_example :
    (parse_instr check constant ≢ fault)
    × (parse_instr check constant ≢ out_of_fuel)
    × (parse_instr use_ constant ≢ out_of_fuel)
    × ((i : Instr) (rest : List ℕ)
        → parse_instr check constant ≡ ok (i, rest)
        → length rest < length constant)
parse_instr_total_example = parse_instr_total constant

-- The example of the format's description: 624485 in three bytes.
leb_bytes_read : leb_bytes 32 624485 ≡ 0xe5 ∷ 0x8e ∷ 0x26 ∷ []
leb_bytes_read = refl

parse_leb128-leb_bytes_example :
    parse_leb128 check false 32 (leb_bytes 32 624485 ++ 7 ∷ []) ≡ ok (624485, 7 ∷ [])
parse_leb128-leb_bytes_example =
    parse_leb128-leb_bytes check 32 624485 (7 ∷ []) (omega arith) (omega arith)

-- A block with a `nop`, then `i32.const 5` and the `end` of the body, then a byte more.
abbrev body : List ℕ
body = 0x02 ∷ 0x40 ∷ 0x01 ∷ 0x0b ∷ 0x41 ∷ 0x05 ∷ 0x0b ∷ 9 ∷ []

skip_to_end_iff_example : (skip_to_end use_ 0 body ≡ ok (tt, 9 ∷ [])) ↔ Bodies use_ 0 body (9 ∷ [])
skip_to_end_iff_example = skip_to_end_iff use_ 0 body (9 ∷ [])

body_checked : check_body empty_context [] [] (ValType.i32 ∷ []) body ≡ ok (tt, 9 ∷ [])
unfolding wasefire.Interpreter.Parser.Core.◌>>◌ wasefire.Interpreter.Parser.Core.pure
    wasefire.Interpreter.Parser.Core.require wasefire.Interpreter.Parser.Core.split_bytes
    wasefire.Interpreter.Parser.Core.parse_bytes wasefire.Interpreter.Parser.Core.first_byte
    wasefire.Interpreter.Parser.Core.parse_byte wasefire.Interpreter.Parser.Leb128.leb_negative
    wasefire.Interpreter.Parser.Leb128.leb_last wasefire.Interpreter.Parser.Leb128.leb_loop
    wasefire.Interpreter.Parser.Leb128.parse_i32 parse_leb128 parse_instr
    wasefire.Interpreter.Parser.Types.parse_blocktype
    wasefire.Interpreter.Parser.Types.parse_valtype_block
    wasefire.Interpreter.Parser.Instr.parse_opcode wasefire.Interpreter.Parser.Instr.parse_control
    wasefire.Interpreter.Parser.Instr.parse_numeric wasefire.Interpreter.Valid.Method.◌>>◌
    wasefire.Interpreter.Valid.Method.pure wasefire.Interpreter.Valid.Method.require
    wasefire.Interpreter.Valid.Method.gets wasefire.Interpreter.Valid.Method.asks
    wasefire.Interpreter.Valid.Method.on_label wasefire.Interpreter.Valid.Method.label
    wasefire.Interpreter.Valid.Method.push_on wasefire.Interpreter.Valid.Method.push
    wasefire.Interpreter.Valid.Method.pushs_on wasefire.Interpreter.Valid.Method.pushs
    wasefire.Interpreter.Valid.Method.pop_from wasefire.Interpreter.Valid.Method.pop
    wasefire.Interpreter.Valid.Method.pop_check wasefire.Interpreter.Valid.Method.pops extend
    body_expr check_body wasefire.Interpreter.Valid.Labels.add_label
    wasefire.Interpreter.Valid.Labels.push_label wasefire.Interpreter.Valid.Labels.pop_label
    wasefire.Interpreter.Valid.Labels.is_empty wasefire.Interpreter.Valid.Labels.is_if
    wasefire.Interpreter.Valid.Labels.close_label wasefire.Interpreter.Valid.Labels.end_label
    wasefire.Interpreter.Valid.Labels.blocktype wasefire.Interpreter.Valid.Instr.instr_body
    wasefire.Interpreter.Valid.Instr.allowed wasefire.Interpreter.Valid.Instr.instr
    wasefire.Interpreter.Valid.Check.first_label wasefire.Interpreter.Valid.Check.check_step
    wasefire.Interpreter.Valid.Check.check_loop wasefire.Interpreter.Valid.Check.check_expr
    wasefire.Interpreter.Valid.OpdType.opd_byte wasefire.Interpreter.Valid.OpdType.opd_of_val
    wasefire.Interpreter.Valid.OpdType.opd_eq wasefire.Interpreter.Valid.OpdType.opd_matches
body_checked = refl

-- A body with another result than the one that is expected is refused.
body_refused : check_body empty_context [] [] (ValType.i64 ∷ []) body ≡ err invalid
unfolding wasefire.Interpreter.Parser.Core.◌>>◌ wasefire.Interpreter.Parser.Core.pure
    wasefire.Interpreter.Parser.Core.require wasefire.Interpreter.Parser.Core.split_bytes
    wasefire.Interpreter.Parser.Core.parse_bytes wasefire.Interpreter.Parser.Core.first_byte
    wasefire.Interpreter.Parser.Core.parse_byte wasefire.Interpreter.Parser.Leb128.leb_negative
    wasefire.Interpreter.Parser.Leb128.leb_last wasefire.Interpreter.Parser.Leb128.leb_loop
    wasefire.Interpreter.Parser.Leb128.parse_i32 parse_leb128 parse_instr
    wasefire.Interpreter.Parser.Types.parse_blocktype
    wasefire.Interpreter.Parser.Types.parse_valtype_block
    wasefire.Interpreter.Parser.Instr.parse_opcode wasefire.Interpreter.Parser.Instr.parse_control
    wasefire.Interpreter.Parser.Instr.parse_numeric wasefire.Interpreter.Valid.Method.◌>>◌
    wasefire.Interpreter.Valid.Method.pure wasefire.Interpreter.Valid.Method.require
    wasefire.Interpreter.Valid.Method.gets wasefire.Interpreter.Valid.Method.asks
    wasefire.Interpreter.Valid.Method.on_label wasefire.Interpreter.Valid.Method.label
    wasefire.Interpreter.Valid.Method.push_on wasefire.Interpreter.Valid.Method.push
    wasefire.Interpreter.Valid.Method.pushs_on wasefire.Interpreter.Valid.Method.pushs
    wasefire.Interpreter.Valid.Method.pop_from wasefire.Interpreter.Valid.Method.pop
    wasefire.Interpreter.Valid.Method.pop_check wasefire.Interpreter.Valid.Method.pops extend
    body_expr check_body wasefire.Interpreter.Valid.Labels.add_label
    wasefire.Interpreter.Valid.Labels.push_label wasefire.Interpreter.Valid.Labels.pop_label
    wasefire.Interpreter.Valid.Labels.is_empty wasefire.Interpreter.Valid.Labels.is_if
    wasefire.Interpreter.Valid.Labels.close_label wasefire.Interpreter.Valid.Labels.end_label
    wasefire.Interpreter.Valid.Labels.blocktype wasefire.Interpreter.Valid.Instr.instr_body
    wasefire.Interpreter.Valid.Instr.allowed wasefire.Interpreter.Valid.Instr.instr
    wasefire.Interpreter.Valid.Check.first_label wasefire.Interpreter.Valid.Check.check_step
    wasefire.Interpreter.Valid.Check.check_loop wasefire.Interpreter.Valid.Check.check_expr
    wasefire.Interpreter.Valid.OpdType.opd_byte wasefire.Interpreter.Valid.OpdType.opd_of_val
    wasefire.Interpreter.Valid.OpdType.opd_eq wasefire.Interpreter.Valid.OpdType.opd_matches
body_refused = refl

no_funcs : length empty_context.funcs ≤ length {A = Bool} []
unfolding empty_context
no_funcs = omega arith

-- A module without sections.
validate-Decides_example : (validate magic ≢ fault) × (validate magic ≢ out_of_fuel)
validate-Decides_example = validate-Decides magic

check_body-skip_to_end_example : skip_to_end use_ 0 body ≡ ok (tt, 9 ∷ [])
check_body-skip_to_end_example =
    check_body-skip_to_end empty_context [] [] (ValType.i32 ∷ []) body (9 ∷ []) no_funcs
      body_checked

-- A function from an `i32` and an `i64` to an `i32`, called above an `i64`.
abbrev two_to_one : FuncType
two_to_one = record { params = ValType.i32 ∷ ValType.i64 ∷ []; results = ValType.i32 ∷ [] }

abbrev plain_label : Label
plain_label = record {
  type_ = record { params = []; results = [] };
  kind = LabelKind.block;
  polymorphic = false;
  stack = [];
}

abbrev caller : Expr
caller = body_expr empty_context [] [] []

abbrev taken : List OpdType
taken = OpdType.i64 ∷ OpdType.i32 ∷ OpdType.f32 ∷ []

abbrev given : Expr
given = with_stack caller plain_label [] (OpdType.i32 ∷ OpdType.f32 ∷ [])

call_typed_example :
    ((call two_to_one (with_stack caller plain_label [] taken) ≡ ok (tt, given)) ↔ (
      (below : List OpdType) × Operands false two_to_one.params taken below
      × (given ≡ with_stack caller plain_label [] (extend two_to_one.results below))))
    × (((below : List OpdType) × Operands false two_to_one.params taken below)
        ⊎ (call two_to_one (with_stack caller plain_label [] taken) ≡ err invalid))
call_typed_example = call_typed caller plain_label [] two_to_one taken given
