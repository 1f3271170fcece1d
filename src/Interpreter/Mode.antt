-- ===== src/Interpreter/Mode.antt =====
-- crates/interpreter/src/error.rs and toctou.rs: errors, and the two modes of the parser.
-- `check` is the mode `Check`, which tests all that it reads. `use_` is the mode `Use`, which trusts
-- it: where its trust is wrong, the code panics with the feature `toctou`, and is undefined without.
use wasefire.Base.{Bool, true, false, Option, none, some}

pub data Error : Type 0 where
  invalid not_found unsupported trap : Error

pub data Mode : Type 0 where
  check use_ : Mode

-- `fault` is a panic or undefined behaviour, and `out_of_fuel` a loop that the fuel cuts off.
pub data Outcome {ℓ} (A : Type ℓ) : Type ℓ where
  ok : A → Outcome A
  err : Error → Outcome A
  fault : Outcome A
  out_of_fuel : Outcome A

-- `M::invalid` and `M::unsupported`
abbrev pub mode_invalid {ℓ} : {A : Type ℓ} → Mode → Outcome A
mode_invalid check = err invalid
mode_invalid use_ = fault

abbrev pub mode_unsupported {ℓ} : {A : Type ℓ} → Mode → Outcome A
mode_unsupported check = err unsupported
mode_unsupported use_ = fault

-- `M::check`
abbrev pub mode_check : Mode → Bool → Outcome (Unit {0})
mode_check check true = ok tt
mode_check check false = err invalid
mode_check use_ cond = ok tt

-- `M::open`
abbrev pub mode_open {ℓ} : {A : Type ℓ} → Mode → Option A → Outcome A
mode_open m (some a) = ok a
mode_open check none = err invalid
mode_open use_ none = fault

-- `M::choose`, on a value that has an unchecked form exactly if it has a checked one.
abbrev pub mode_choose {ℓ} : {A : Type ℓ} → Mode → Option A → Outcome A
mode_choose = mode_open

-- `?` on a result.
infixl 5 ◌>>=◌
unfoldable pub ◌>>=◌ {ℓ κ} : {A : Type ℓ} {B : Type κ} → Outcome A → (A → Outcome B) → Outcome B
ok a >>= f = f a
err e >>= f = err e
fault >>= f = fault
out_of_fuel >>= f = out_of_fuel

infixl 5 ◌>>◌
unfoldable pub ◌>>◌ {ℓ κ} : {A : Type ℓ} {B : Type κ} → Outcome A → Outcome B → Outcome B
unfolding ◌>>=◌
p >> q = p >>= λ _. q
