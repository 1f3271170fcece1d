-- ===== src/Interpreter/Valid/Method.antt =====
-- crates/interpreter/src/valid.rs: the state of `Expr`, and its methods on labels and stacks.
use wasefire.Base.{ℕ, List, [], ◌∷◌, Bool, if◌then◌else◌}
use wasefire.Interpreter.Mode.{Outcome, ok, err, fault, out_of_fuel, invalid, check, mode_check}
use wasefire.Interpreter.Syntax.Types.{ValType, ResultType, FuncType}
use wasefire.Interpreter.Valid.Context.{Context}
use wasefire.Interpreter.Valid.OpdType.{OpdType, opd_of_val, opd_matches}

pub data LabelKind : Type 0 where
  block loop if_ : LabelKind

-- The stack has its top first.
pub record Label : Type 0 where
  pub type_ : FuncType
  pub kind : LabelKind
  pub polymorphic : Bool
  pub stack : List OpdType

-- Without the parser. The innermost label is first. `is_const` tells which of the two `refs` is.
pub record Expr : Type 0 where
  pub context : Context
  pub globals_len : ℕ
  pub is_const : Bool
  pub refs : List Bool
  pub is_body : Bool
  pub locals : List ValType
  pub labels : List Label

abbrev pub Method {ℓ} : Type ℓ → Type ℓ
Method A = Expr → Outcome (A × Expr)

infixl 5 ◌>>=◌ ◌>>◌
unfoldable pub ◌>>=◌ {ℓ κ} : {A : Type ℓ} {B : Type κ} → Method A → (A → Method B) → Method B
◌>>=◌ p f e = elim (p e) [
  | ok (a, e') ↦ f a e'
  | err x ↦ err x
  | fault ↦ fault
  | out_of_fuel ↦ out_of_fuel
]

unfoldable pub ◌>>◌ {ℓ κ} : {A : Type ℓ} {B : Type κ} → Method A → Method B → Method B
unfolding ◌>>=◌
p >> q = p >>= λ _. q

unfoldable pub pure {ℓ} : {A : Type ℓ} → A → Method A
pure a e = ok (a, e)

unfoldable pub lift {ℓ} : {A : Type ℓ} → Outcome A → Method A
lift r e = elim r [ ok a ↦ ok (a, e) | err x ↦ err x | fault ↦ fault | out_of_fuel ↦ out_of_fuel ]

unfoldable pub require : Bool → Method (Unit {0})
unfolding lift
require cond = lift (mode_check check cond)

unfoldable pub gets {ℓ} : {A : Type ℓ} → (Expr → A) → Method A
gets f e = ok (f e, e)

-- A test or a lookup that reads the state.
unfoldable pub asks {ℓ} : {A : Type ℓ} → (Expr → Outcome A) → Method A
unfolding lift
asks f e = lift (f e) e

-- A change of the label that `label` returns, which panics if there is none.
unfoldable pub on_label {ℓ} : {A : Type ℓ} → (Label → Outcome (A × Label)) → Method A
on_label f e = elim e.labels [
  | [] ↦ fault
  | l ∷ ls ↦ elim (f l) [
    | ok (a, l') ↦ ok (a, record e { labels = l' ∷ ls })
    | err x ↦ err x
    | fault ↦ fault
    | out_of_fuel ↦ out_of_fuel
  ]
]

unfoldable pub label : Method Label
label = on_label λ l. ok (l, l)

unfoldable pub push_on : OpdType → Label → Outcome (Unit {0} × Label)
push_on t l = ok (tt, record l { stack = t ∷ l.stack })

unfoldable pub push : OpdType → Method (Unit {0})
push t = on_label (push_on t)

unfoldable pub extend : ResultType → List OpdType → List OpdType
extend [] stack = stack
extend (t ∷ ts) stack = extend ts (opd_of_val t ∷ stack)

unfoldable pub pushs_on : ResultType → Label → Outcome (Unit {0} × Label)
pushs_on values l = ok (tt, record l { stack = extend values l.stack })

unfoldable pub pushs : ResultType → Method (Unit {0})
pushs values = on_label (pushs_on values)

unfoldable pub pop_from : Label → Outcome (OpdType × Label)
pop_from l = elim l.stack [
  | [] ↦ if l.polymorphic then ok (OpdType.bottom, l) else err invalid
  | t ∷ ts ↦ ok (t, record l { stack = ts })
]

unfoldable pub pop : Method OpdType
pop = on_label pop_from

unfoldable pub pop_check : ValType → Method (Unit {0})
pop_check expected = do t ← pop; require (opd_matches t expected)

-- The last type that is expected is popped first.
unfoldable pub pops : ResultType → Method (Unit {0})
pops [] = pure tt
pops (t ∷ ts) = do pops ts; pop_check t

unfoldable pub swap : ValType → Method (Unit {0})
swap t = do pop_check t; push (opd_of_val t)
