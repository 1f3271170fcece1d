-- ===== src/Interpreter/Valid/Module.antt =====
-- crates/interpreter/src/valid.rs: `check_module`, section by section.
use wasefire.Base.{
  ℕ, zero, suc, List, [], ◌∷◌, ◌++◌, length, set, Option, none, some, Bool, true, false, ◌&&◌, ◌||◌,
  not, ltb, ◌==◌, if◌then◌else◌,
}
use wasefire.Interpreter.Mode.{Outcome, ok, err, fault, out_of_fuel, invalid, check}
use wasefire.Interpreter.Syntax.Types.{SectionId, ExportDesc}
use wasefire.Interpreter.Syntax.Bytes.{section_order}
use wasefire.Interpreter.Parser.Core.{Parser, ◌>>=◌, ◌>>◌, pure, lift, require}
use wasefire.Interpreter.Parser.Leb128.{parse_u32}
use wasefire.Interpreter.Parser.Types.{
  parse_section_id, split_section, parse_name, parse_functype, parse_tabletype, parse_memtype,
  parse_globaltype, parse_exportdesc,
}
use wasefire.Interpreter.Parser.Segments.{parse_vec}
use wasefire.Interpreter.Valid.Context.{
  Context, functype, add_functype, add_tabletype, add_memtype, add_globaltype, check_exportdesc,
}
use wasefire.Interpreter.Valid.Labels.{is_empty}
use wasefire.Interpreter.Valid.Check.{check_const}

unfoldable pub bytes_eq : List ℕ → List ℕ → Bool
bytes_eq [] [] = true
bytes_eq [] (y ∷ ys) = false
bytes_eq (x ∷ xs) [] = false
bytes_eq (x ∷ xs) (y ∷ ys) = x == y && bytes_eq xs ys

-- What a parser of its own reads from the bytes of a section, all of them.
unfoldable pub whole {ℓ} : {A : Type ℓ} → Parser A → List ℕ → Outcome A
whole p bytes = elim (p bytes) [
  | ok (a, rest) ↦ if is_empty rest then ok a else err invalid
  | err e ↦ err e
  | fault ↦ fault
  | out_of_fuel ↦ out_of_fuel
]

-- The name of a custom section is checked, and the rest of it is ignored.
unfoldable pub custom_section : List ℕ → Outcome (Unit {0})
custom_section bytes = elim (parse_name check bytes) [
  | ok _ ↦ ok tt
  | err e ↦ err e
  | fault ↦ fault
  | out_of_fuel ↦ out_of_fuel
]

unfoldable pub is_custom : SectionId → Bool
is_custom SectionId.custom = true
is_custom _ = false

-- The section of the identifier that is read, or none, before which the parser then stands.
unfoldable pub expect_section : SectionId → SectionId → List ℕ → Parser (Option (List ℕ))
expect_section expected actual before =
    if ltb (section_order expected) (section_order actual)
    then (λ _. ok (none, before))
    else if section_order expected == section_order actual
    then (do bytes ← split_section check; pure (some bytes))
    else lift (err invalid)

-- The loop over the custom sections, with fuel for its rounds.
unfoldable pub sections_loop : ℕ → SectionId → Parser (Option (List ℕ))
sections_loop zero expected xs = out_of_fuel
sections_loop (suc fuel) expected [] = ok (none, [])
sections_loop (suc fuel) expected (x ∷ xs) =
    (parse_section_id check >>= λ id.
    if is_custom id
    then (do bytes ← split_section check; lift (custom_section bytes); sections_loop fuel expected)
    else expect_section expected id (x ∷ xs))
      (x ∷ xs)

unfoldable pub check_section : SectionId → Parser (Option (List ℕ))
check_section expected xs = sections_loop (suc (length xs)) expected xs

-- What a section changes, if it is there.
unfoldable pub section {ℓ} : {S : Type ℓ} → SectionId → (S → Parser S) → S → Parser S
section id step s = do
  found ← check_section id
  elim found [ none ↦ pure s | some bytes ↦ lift (whole (step s) bytes) ]

-- `Context` with `refs`.
pub record Module : Type 0 where
  pub context : Context
  pub refs : List Bool

unfoldable pub add_type : Context → Parser Context
add_type c = do t ← parse_functype check; pure (record c { types = c.types ++ t ∷ [] })

unfoldable pub add_function : Context → Parser Context
add_function c = do x ← parse_u32 check; lift (add_functype c x)

unfoldable pub add_table : Module → Parser Module
add_table s = do
  t ← parse_tabletype check
  c ← lift (add_tabletype s.context t)
  pure (record s { context = c })

unfoldable pub add_memory : Module → Parser Module
add_memory s = do
  t ← parse_memtype check
  c ← lift (add_memtype s.context t)
  pure (record s { context = c })

unfoldable pub add_global : ℕ → Module → Parser Module
add_global globals_len s = do
  g ← parse_globaltype check
  c ← lift (add_globaltype s.context g)
  refs ← check_const c s.refs globals_len (g.value ∷ [])
  pure (record { context = c; refs = refs })

-- `refs[x as usize] = true`
unfoldable pub mark : ℕ → Module → Outcome Module
mark x s = if ltb x (length s.refs) then ok (record s { refs = set s.refs x true }) else fault

unfoldable pub mark_export : ExportDesc → Module → Outcome Module
mark_export (ExportDesc.func x) s = mark x s
mark_export _ s = ok s

-- `BTreeSet::insert`, on names that are their bytes.
unfoldable pub has_name : List ℕ → List (List ℕ) → Bool
has_name name [] = false
has_name name (n ∷ names) = bytes_eq name n || has_name name names

unfoldable pub add_export : List (List ℕ) × Module → Parser (List (List ℕ) × Module)
add_export (names, s) = do
  name ← parse_name check
  require check (not (has_name name names))
  desc ← parse_exportdesc check
  lift (check_exportdesc s.context desc)
  s' ← lift (mark_export desc s)
  pure (name ∷ names, s')

unfoldable pub check_exports : Module → Parser Module
check_exports s = do r ← parse_vec check add_export ([], s); pure r.1

unfoldable pub check_start : Module → Parser Module
check_start s = do
  x ← parse_u32 check
  t ← lift (functype s.context x)
  require check (is_empty t.params && is_empty t.results)
  pure s
