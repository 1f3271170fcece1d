-- ===== src/Interpreter/Parser/Segments.antt =====
-- crates/interpreter/src/parser.rs: locals, and the element and data segments of a module.
use wasefire.Base.{
  ℕ, zero, suc, ◌+◌, ◌/◌, ◌%◌, List, ◌++◌, length, replicate, Bool, ltb, ◌==◌, if◌then◌else◌,
}
use wasefire.Interpreter.Mode.{Mode, Outcome, mode_unsupported}
use wasefire.Interpreter.Syntax.Types.{RefType, ValType}
use wasefire.Interpreter.Parser.Core.{
  Parser, ◌>>=◌, ◌>>◌, pure, lift, require, parse_bytes, parse_byte,
}
use wasefire.Interpreter.Parser.Leb128.{parse_u32}
use wasefire.Interpreter.Parser.Types.{parse_valtype, parse_reftype}

-- `for _ in 0 .. n`, with the state that a round changes.
unfoldable pub repeat {ℓ} : {S : Type ℓ} → ℕ → (S → Parser S) → S → Parser S
repeat zero step s = pure s
repeat (suc n) step s = do s' ← step s; repeat n step s'

-- The same after the number is read.
unfoldable pub parse_vec {ℓ} : {S : Type ℓ} → Mode → (S → Parser S) → S → Parser S
parse_vec m step s = do n ← parse_u32 m; repeat n step s

abbrev pub max_locals : ℕ
max_locals = 100

unfoldable pub parse_local : Mode → List ValType → Parser (List ValType)
parse_local m locals = do
  len ← parse_u32 m
  if ltb max_locals (length locals + len)
      then lift (mode_unsupported m)
      else (do val ← parse_valtype m; pure (locals ++ replicate len val))

unfoldable pub parse_locals : Mode → List ValType → Parser (List ValType)
parse_locals m locals = parse_vec m (parse_local m) locals

-- The offset of an active segment is read by the user of the parser.
pub data ElemMode : Type 0 where
  passive declarative : ElemMode
  active : ℕ → ElemMode

-- The user of `parse_elem`, with a state `S`.
pub record ParseElem {ℓ} (S : Type ℓ) : Type ℓ where
  pub mode : ElemMode → S → Parser S
  pub type_ : RefType → S → Outcome S
  pub init_funcidx : ℕ → S → Parser S
  pub init_expr : S → Parser S

-- The bits of the flags.
unfoldable pub has_bit : ℕ → ℕ → Bool
has_bit flags bit = flags / bit % 2 == 1

unfoldable pub elem_mode : Mode → ℕ → Parser ElemMode
elem_mode m flags =
    if has_bit flags 1
    then (if has_bit flags 2 then pure ElemMode.declarative else pure ElemMode.passive)
    else if has_bit flags 2
    then (do table ← parse_u32 m; pure (ElemMode.active table))
    else pure (ElemMode.active 0)

unfoldable pub elem_type : Mode → ℕ → Parser RefType
elem_type m flags =
    if flags % 4 == 0
    then pure RefType.func_ref
    else if has_bit flags 4
    then parse_reftype m
    else (do kind ← parse_byte m; require m (kind == 0); pure RefType.func_ref)

unfoldable pub elem_init {ℓ} : {S : Type ℓ} → Mode → ParseElem S → ℕ → S → Parser S
elem_init m user flags s =
    if has_bit flags 4
    then parse_vec m user.init_expr s
    else parse_vec m (λ s'. parse_u32 m >>= λ x. user.init_funcidx x s') s

unfoldable pub parse_elem {ℓ} : {S : Type ℓ} → Mode → ParseElem S → S → Parser S
parse_elem m user s = do
  flags ← parse_u32 m
  require m (ltb flags 8)
  mode ← elem_mode m flags
  s1 ← user.mode mode s
  type ← elem_type m flags
  s2 ← lift (user.type_ type s1)
  elem_init m user flags s2

pub data DataMode : Type 0 where
  passive : DataMode
  active : ℕ → DataMode

pub record ParseData {ℓ} (S : Type ℓ) : Type ℓ where
  pub mode : DataMode → S → Parser S
  pub init : List ℕ → S → Outcome S

unfoldable pub data_mode : ℕ → ℕ → DataMode
data_mode flags memory = if has_bit flags 1 then DataMode.passive else DataMode.active memory

unfoldable pub parse_data {ℓ} : {S : Type ℓ} → Mode → ParseData S → S → Parser S
parse_data m user s = do
  flags ← parse_u32 m
  require m (ltb flags 3)
  memory ← if has_bit flags 2 then parse_u32 m else pure 0
  s' ← user.mode (data_mode flags memory) s
  len ← parse_u32 m
  bytes ← parse_bytes m len
  lift (user.init bytes s')
