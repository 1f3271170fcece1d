-- ===== src/Interpreter/Valid/Sections.antt =====
-- crates/interpreter/src/valid.rs: `check_module`, all of its sections in their order, and `validate`.
use wasefire.Base.{
  ℕ, zero, suc, ◌+◌, ◌-◌, ◌%◌, ◌^◌, List, [], ◌∷◌, length, replicate, Option, none, some, Bool,
  true, false, leb, ◌==◌, if◌then◌else◌,
}
use wasefire.Interpreter.Mode.{Outcome, ok, err, fault, out_of_fuel, invalid, check}
use wasefire.Interpreter.Syntax.Types.{FuncType, SectionId}
use wasefire.Interpreter.Parser.Core.{Parser, ◌>>=◌, ◌>>◌, pure, lift, require, parse_bytes}
use wasefire.Interpreter.Parser.Leb128.{parse_u32}
use wasefire.Interpreter.Parser.Types.{split_section}
use wasefire.Interpreter.Parser.Segments.{repeat, parse_vec, parse_locals}
use wasefire.Interpreter.Valid.Context.{Context, empty_context, functype, add_import}
use wasefire.Interpreter.Valid.Labels.{is_empty}
use wasefire.Interpreter.Valid.Check.{check_body}
use wasefire.Interpreter.Valid.Module.{
  bytes_eq, whole, check_section, section, Module, add_type, add_function, add_table, add_memory,
  add_global, check_exports, check_start,
}
use wasefire.Interpreter.Valid.Segments.{add_elem, add_data}

-- `self.functype(x).unwrap()`
unfoldable pub defined_type : Context → ℕ → Outcome FuncType
defined_type c x = elim (functype c x) [
  | ok t ↦ ok t
  | err _ ↦ fault
  | fault ↦ fault
  | out_of_fuel ↦ out_of_fuel
]

-- The body of the function `x`, whose bytes are read to their end.
unfoldable pub check_locals_body : Module → FuncType → Parser (Unit {0})
check_locals_body s t = do
  locals ← parse_locals check t.params
  check_body s.context s.refs locals t.results

unfoldable pub check_func : Module → ℕ → Parser (Unit {0})
check_func s x = do
  bytes ← split_section check
  t ← lift (defined_type s.context x)
  lift (whole (check_locals_body s t) bytes)

-- `for x in imported_funcs .. self.funcs.len()`
unfoldable pub check_funcs : Module → ℕ → ℕ → Parser (Unit {0})
check_funcs s x zero = pure tt
check_funcs s x (suc n) = do check_func s x; check_funcs s (suc x) n

unfoldable pub check_code : ℕ → Module → Parser (Unit {0})
check_code imported s = do
  n ← parse_u32 check
  require check (length s.context.funcs == (imported + n) % 2 ^ 32)
  check_funcs s imported (length s.context.funcs - imported)

-- With the code section, or without it.
unfoldable pub check_codes : ℕ → Module → Parser (Unit {0})
check_codes imported s = do
  found ← check_section SectionId.code
  elim found [
    | none ↦ require check (length s.context.funcs == imported)
    | some bytes ↦ lift (whole (check_code imported s) bytes)
  ]

unfoldable pub same_count : Option ℕ → ℕ → Bool
same_count none n = true
same_count (some m) n = m == n

unfoldable pub check_datas : ℕ → Module → Parser Module
check_datas globals_len s = do
  n ← parse_u32 check
  require check (same_count s.context.datas n)
  repeat n (add_data globals_len) s

unfoldable pub count_datas : Module → Parser Module
count_datas s = do
  n ← parse_u32 check
  pure (record { context = record s.context { datas = some n }; refs = s.refs })

-- `b"\0asm\x01\0\0\0"`
abbrev pub magic : List ℕ
magic = 0 ∷ 0x61 ∷ 0x73 ∷ 0x6d ∷ 1 ∷ 0 ∷ 0 ∷ 0 ∷ []

-- The sections before the functions are known, and those after.
unfoldable pub check_declarations : Parser (ℕ × Context)
check_declarations = do
  types ← section SectionId.type (parse_vec check add_type) empty_context
  imports ← section SectionId.import (parse_vec check add_import) types
  funcs ← section SectionId.function (parse_vec check add_function) imports
  pure (length imports.funcs, funcs)

unfoldable pub check_definitions : ℕ → Module → Parser Module
check_definitions globals_len s = do
  s1 ← section SectionId.global (parse_vec check (add_global globals_len)) s
  s2 ← section SectionId.export check_exports s1
  s3 ← section SectionId.start check_start s2
  s4 ← section SectionId.element (parse_vec check (add_elem globals_len)) s3
  section SectionId.data_count count_datas s4

-- `check(parser.is_empty())`
unfoldable pub at_end : Parser (Unit {0})
at_end xs = if is_empty xs then ok (tt, xs) else err invalid

unfoldable pub check_module : Parser (Unit {0})
check_module = do
  header ← parse_bytes check 8
  require check (bytes_eq header magic)
  (imported, funcs) ← check_declarations
  let refs = replicate (length funcs.funcs) false
  tables ←
      section SectionId.table (parse_vec check add_table) (record { context = funcs; refs = refs })
  mems ← section SectionId.memory (parse_vec check add_memory) tables
  require check (leb (length mems.context.mems) 1)
  let globals_len = length mems.context.globals
  s ← check_definitions globals_len mems
  check_codes imported s
  section SectionId.data_ (check_datas globals_len) s
  check_section SectionId.custom
  at_end

unfoldable pub validate : List ℕ → Outcome (Unit {0})
validate binary = elim (check_module binary) [
  | ok _ ↦ ok tt
  | err e ↦ err e
  | fault ↦ fault
  | out_of_fuel ↦ out_of_fuel
]
