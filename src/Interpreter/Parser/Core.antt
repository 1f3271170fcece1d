-- ===== src/Interpreter/Parser/Core.antt =====
-- crates/interpreter/src/parser.rs: the state of a parser, and reading bytes.
use wasefire.Base.{
  ℕ, Bool, Option, none, some, List, [], ◌∷◌, leb, length, take, drop, if◌then◌else◌,
}
use wasefire.Interpreter.Mode.{Mode, Outcome, ok, err, fault, out_of_fuel, mode_check, mode_choose}

-- A method that moves the parser: what it returns, and the bytes left.
abbrev pub Parser {ℓ} : Type ℓ → Type ℓ
Parser A = List ℕ → Outcome (A × List ℕ)

infixl 5 ◌>>=◌ ◌>>◌
unfoldable pub ◌>>=◌ {ℓ κ} : {A : Type ℓ} {B : Type κ} → Parser A → (A → Parser B) → Parser B
◌>>=◌ p f xs = elim (p xs) [
  | ok (a, rest) ↦ f a rest
  | err e ↦ err e
  | fault ↦ fault
  | out_of_fuel ↦ out_of_fuel
]

unfoldable pub ◌>>◌ {ℓ κ} : {A : Type ℓ} {B : Type κ} → Parser A → Parser B → Parser B
unfolding ◌>>=◌
p >> q = p >>= λ _. q

unfoldable pub pure {ℓ} : {A : Type ℓ} → A → Parser A
pure a xs = ok (a, xs)

-- A test or a conversion that reads nothing.
unfoldable pub lift {ℓ} : {A : Type ℓ} → Outcome A → Parser A
lift r xs = elim r [ ok a ↦ ok (a, xs) | err e ↦ err e | fault ↦ fault | out_of_fuel ↦ out_of_fuel ]

unfoldable pub require : Mode → Bool → Parser (Unit {0})
unfolding lift
require m cond = lift (mode_check m cond)

-- A conversion that the code proves cannot fail: a failure is a panic.
abbrev pub total {ℓ} : {A : Type ℓ} → Option A → Outcome A
total none = fault
total (some a) = ok a

-- `split_at`: on an index out of range it panics with `toctou`, and is undefined without.
unfoldable pub split_bytes : ℕ → Parser (List ℕ)
split_bytes len xs = if leb len (length xs) then ok (take len xs, drop len xs) else fault

unfoldable pub parse_bytes : Mode → ℕ → Parser (List ℕ)
parse_bytes m len xs = elim (mode_check m (leb len (length xs))) [
  | ok _ ↦ split_bytes len xs
  | err e ↦ err e
  | fault ↦ fault
  | out_of_fuel ↦ out_of_fuel
]

-- `get(xs, 0)`
unfoldable pub first_byte : List ℕ → Outcome ℕ
first_byte [] = fault
first_byte (x ∷ xs) = ok x

unfoldable pub parse_byte : Mode → Parser ℕ
parse_byte m = do xs ← parse_bytes m 1; lift (first_byte xs)

-- `byte_enum`
unfoldable pub byte_enum {ℓ} : {A : Type ℓ} → (ℕ → Option A) → Mode → Parser A
byte_enum of_byte m = do x ← parse_byte m; lift (mode_choose m (of_byte x))
