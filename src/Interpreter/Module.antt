-- ===== src/Interpreter/Module.antt =====
-- crates/interpreter/src/module.rs: `Module`, whose items are read from its bytes with the mode `Use`.
-- Without the feature `cache`, which is off by default: `skip` computes anew each time.
use wasefire.Base.{
  ℕ, zero, suc, List, [], ◌∷◌, ◌++◌, length, drop, Option, none, some, ltb, ◌==◌, leb,
  if◌then◌else◌, get_elem?,
}
use wasefire.Interpreter.Mode.{Outcome, ok, err, fault, out_of_fuel, use_}
use wasefire.Interpreter.Syntax.Types.{
  FuncType, Limits, TableType, GlobalType, ImportDesc, ExportDesc, SectionId,
}
use wasefire.Interpreter.Syntax.Bytes.{section_order}
use wasefire.Interpreter.Parser.Core.{Parser, ◌>>=◌, ◌>>◌, pure, lift, total}
use wasefire.Interpreter.Parser.Leb128.{parse_u32}
use wasefire.Interpreter.Parser.Types.{
  parse_section_id, split_section, parse_name, parse_functype, parse_tabletype, parse_memtype,
  parse_globaltype, parse_importdesc, parse_exportdesc,
}
use wasefire.Interpreter.Parser.Segments.{
  ElemMode, ParseElem, parse_elem, DataMode, ParseData, parse_data, parse_vec,
}
use wasefire.Interpreter.Parser.Skip.{skip_to_end}
use wasefire.Interpreter.Valid.Module.{is_custom, bytes_eq}
use wasefire.Interpreter.Valid.Sections.{validate}

-- The sections without the header.
pub record Module : Type 0 where
  pub binary : List ℕ
  pub types : List FuncType

-- What a parser of its own returns.
unfoldable pub run {ℓ} : {A : Type ℓ} → Parser A → List ℕ → Outcome A
run p xs = elim (p xs) [
  | ok (a, rest) ↦ ok a
  | err e ↦ err e
  | fault ↦ fault
  | out_of_fuel ↦ out_of_fuel
]

-- What follows a section that is read: it is found, it is passed over, or it is too far.
unfoldable pub found_section :
    SectionId → SectionId → List ℕ → Outcome (Option (List ℕ)) → Outcome (Option (List ℕ))
found_section expected actual bytes rest =
    if is_custom actual
    then rest
    else if ltb (section_order actual) (section_order expected)
    then rest
    else if section_order actual == section_order expected
    then ok (some bytes)
    else ok none

unfoldable pub read_section : Parser (SectionId × List ℕ)
read_section = do id ← parse_section_id use_; bytes ← split_section use_; pure (id, bytes)

-- The loop of `section`, with fuel for its rounds.
unfoldable pub section_loop : ℕ → SectionId → List ℕ → Outcome (Option (List ℕ))
section_loop zero expected xs = out_of_fuel
section_loop (suc fuel) expected [] = ok none
section_loop (suc fuel) expected (x ∷ xs) = elim (read_section (x ∷ xs)) [
  | ok ((id, bytes), rest) ↦ found_section expected id bytes (section_loop fuel expected rest)
  | err e ↦ err e
  | fault ↦ fault
  | out_of_fuel ↦ out_of_fuel
]

-- A section takes a byte at least, so there are no more sections than bytes.
unfoldable pub section : Module → SectionId → Outcome (Option (List ℕ))
section m expected = section_loop (suc (length m.binary)) expected m.binary

-- `section(id).unwrap()` and then a parser of its own.
unfoldable pub in_section {ℓ} : {A : Type ℓ} → Module → SectionId → Parser A → Outcome A
in_section m id p = elim (section m id) [
  | ok (some bytes) ↦ run p bytes
  | ok none ↦ fault
  | err e ↦ err e
  | fault ↦ fault
  | out_of_fuel ↦ out_of_fuel
]

-- The same for a section that may be missing.
unfoldable pub in_section_or {ℓ} : {A : Type ℓ} → Module → SectionId → A → Parser A → Outcome A
in_section_or m id default p = elim (section m id) [
  | ok (some bytes) ↦ run p bytes
  | ok none ↦ ok default
  | err e ↦ err e
  | fault ↦ fault
  | out_of_fuel ↦ out_of_fuel
]

-- The item `x` of `n`, where `skip` passes over those before it. Beyond the last it is `unreachable!`.
unfoldable pub nth {ℓ} : {A : Type ℓ} → Parser (Unit {0}) → Parser A → ℕ → ℕ → Parser A
nth skip item zero x = lift fault
nth skip item (suc n) zero = item
nth skip item (suc n) (suc x) = do skip; nth skip item n x

unfoldable pub item_of {ℓ} :
    {A : Type ℓ} → SectionId → Parser (Unit {0}) → Parser A → Module → ℕ → Outcome A
item_of id skip item m x = in_section m id (do n ← parse_u32 use_; nth skip item n x)

-- A parser whose result is dropped.
unfoldable pub ignore {ℓ} : {A : Type ℓ} → Parser A → Parser (Unit {0})
ignore p = do p; pure tt

unfoldable pub nth_type : Module → ℕ → Outcome FuncType
nth_type m y = total (get_elem? m.types y)

unfoldable pub func_type : Module → ℕ → Outcome FuncType
func_type m x =
    item_of SectionId.function (ignore (parse_u32 use_))
      (do y ← parse_u32 use_; lift (nth_type m y)) m x

unfoldable pub table_type : Module → ℕ → Outcome TableType
table_type = item_of SectionId.table (ignore (parse_tabletype use_)) (parse_tabletype use_)

unfoldable pub mem_type : Module → ℕ → Outcome Limits
mem_type = item_of SectionId.memory (ignore (parse_memtype use_)) (parse_memtype use_)

-- The type of a global and its initial value, which is passed over.
unfoldable pub parse_global : Parser GlobalType
parse_global = do t ← parse_globaltype use_; skip_to_end use_ 0; pure t

unfoldable pub global_type : Module → ℕ → Outcome GlobalType
global_type = item_of SectionId.global (ignore parse_global) parse_global

-- The bytes from where a parser stands.
unfoldable pub position : Parser (List ℕ)
position xs = ok (xs, xs)

-- `SkipElem` and `SkipData`, the methods that the traits provide.
unfoldable pub skip_elem : ParseElem (Unit {0})
skip_elem = record {
  mode = λ mode s. elim mode [
    | ElemMode.passive ↦ pure tt
    | ElemMode.declarative ↦ pure tt
    | ElemMode.active x ↦ skip_to_end use_ 0
  ];
  type_ = λ t s. ok tt;
  init_funcidx = λ x s. pure tt;
  init_expr = λ s. skip_to_end use_ 0;
}

unfoldable pub skip_data : ParseData (Unit {0})
skip_data = record {
  mode =
      λ mode s. elim mode [ DataMode.passive ↦ pure tt | DataMode.active x ↦ skip_to_end use_ 0 ];
  init = λ bytes s. ok tt;
}

unfoldable pub elem : Module → ℕ → Outcome (List ℕ)
elem = item_of SectionId.element (parse_elem use_ skip_elem tt) position

-- The locals and the body of a function.
unfoldable pub func : Module → ℕ → Outcome (List ℕ)
func = item_of SectionId.code (ignore (split_section use_)) (split_section use_)

unfoldable pub data_at : Module → ℕ → Outcome (List ℕ)
data_at = item_of SectionId.data_ (parse_data use_ skip_data tt) position

-- The loop of `export`.
unfoldable pub find_export : List ℕ → ℕ → Parser (Option ExportDesc)
find_export expected zero = pure none
find_export expected (suc n) = do
  name ← parse_name use_
  desc ← parse_exportdesc use_
  if bytes_eq name expected then pure (some desc) else find_export expected n

unfoldable pub export : Module → List ℕ → Outcome (Option ExportDesc)
export m expected = in_section m SectionId.export (do n ← parse_u32 use_; find_export expected n)

-- The same where a module without exports has none.
unfoldable pub export_or : Module → List ℕ → Outcome (Option ExportDesc)
export_or m expected =
    in_section_or m SectionId.export none (do n ← parse_u32 use_; find_export expected n)

pub record Import : Type 0 where
  pub module_ : List ℕ
  pub name : List ℕ
  pub desc : ImportDesc

unfoldable pub add_import : List Import → Parser (List Import)
add_import imports = do
  module_ ← parse_name use_
  name ← parse_name use_
  desc ← parse_importdesc use_
  pure (imports ++ record { module_ = module_; name = name; desc = desc } ∷ [])

-- The items of the iterator `imports`, in their order.
unfoldable pub imports : Module → Outcome (List Import)
imports m = in_section_or m SectionId.import [] (parse_vec use_ add_import [])

unfoldable pub add_type : List FuncType → Parser (List FuncType)
add_type types = do t ← parse_functype use_; pure (types ++ t ∷ [])

-- `new_unchecked`, which panics on fewer than 8 bytes, and `new`.
unfoldable pub new_unchecked : List ℕ → Outcome Module
new_unchecked binary =
    let sections = drop 8 binary in
    let empty : Module = record { binary = sections; types = [] } in
    if leb 8 (length binary)
    then (elim (in_section_or empty SectionId.type [] (parse_vec use_ add_type [])) [
      | ok types ↦ ok (record { binary = sections; types = types })
      | err e ↦ err e
      | fault ↦ fault
      | out_of_fuel ↦ out_of_fuel
    ])
    else fault

unfoldable pub new : List ℕ → Outcome Module
new binary = elim (validate binary) [
  | ok _ ↦ new_unchecked binary
  | err e ↦ err e
  | fault ↦ fault
  | out_of_fuel ↦ out_of_fuel
]
