-- ===== src/Interpreter/Exec/State.antt =====
-- crates/interpreter/src/exec.rs: `Store`, `Instance`, `Thread`, `Frame` and `Label`, and the
-- methods of `Thread` on its stacks. Each stack has its top first.
use wasefire.Base.{ℕ, List, [], ◌∷◌, length, take, drop, leb, Bool, if◌then◌else◌}
use wasefire.Interpreter.Mode.{Outcome, ok, err, fault, out_of_fuel}
use wasefire.Interpreter.Syntax.Types.{FuncType}
use wasefire.Interpreter.Module.{Module}
use wasefire.Interpreter.Exec.Values.{Val, Component}
use wasefire.Interpreter.Exec.Memory.{Memory, Table}

-- `Loop` has the bytes of its body.
pub data LabelKind : Type 0 where
  block if_ : LabelKind
  loop : List ℕ → LabelKind

pub record Label : Type 0 where
  pub arity : ℕ
  pub kind : LabelKind
  pub values : List Val

-- `ret` is where the caller goes on.
pub record Frame : Type 0 where
  pub inst_id : ℕ
  pub arity : ℕ
  pub ret : List ℕ
  pub locals : List Val
  pub labels : List Label

-- The parser is the bytes that are left.
pub record Thread : Type 0 where
  pub parser : List ℕ
  pub frames : List Frame

pub record Continuation : Type 0 where
  pub thread : Thread
  pub index : ℕ
  pub args : List Val
  pub arity : ℕ

pub record HostName : Type 0 where
  pub module_ : List ℕ
  pub name : List ℕ

pub record Instance : Type 0 where
  pub name : List ℕ
  pub module_ : Module
  pub funcs : Component (Unit {0})
  pub tables : Component (List Table)
  pub mems : Component Memory
  pub globals : Component (List Val)
  pub elems : List Bool
  pub datas : List Bool

pub record Store : Type 0 where
  pub id : ℕ
  pub insts : List Instance
  pub funcs : List (HostName × FuncType)
  pub threads : List Continuation

unfoldable pub frame_new : ℕ → ℕ → List ℕ → List Val → Frame
frame_new inst_id arity ret locals = record {
  inst_id = inst_id;
  arity = arity;
  ret = ret;
  locals = locals;
  labels = record { arity = arity; kind = LabelKind.block; values = [] } ∷ [];
}

unfoldable pub reverse_onto {ℓ} : {A : Type ℓ} → List A → List A → List A
reverse_onto [] ys = ys
reverse_onto (x ∷ xs) ys = reverse_onto xs (x ∷ ys)

-- A stack from its bottom to its top, and back.
unfoldable pub reversed {ℓ} : {A : Type ℓ} → List A → List A
reversed xs = reverse_onto xs []

-- A method with a state `S`: what it returns, and the state after it.
abbrev pub Stateful {ℓ κ} : Type ℓ → Type κ → Type (ℓ ⊔ κ)
Stateful S A = S → Outcome (A × S)

infixl 5 ◌>>=◌ ◌>>◌
unfoldable pub ◌>>=◌ {ℓ κ μ} :
    {S : Type ℓ} {A : Type κ} {B : Type μ} → Stateful S A → (A → Stateful S B) → Stateful S B
◌>>=◌ p f s = elim (p s) [
  | ok (a, s') ↦ f a s'
  | err e ↦ err e
  | fault ↦ fault
  | out_of_fuel ↦ out_of_fuel
]

unfoldable pub ◌>>◌ {ℓ κ μ} :
    {S : Type ℓ} {A : Type κ} {B : Type μ} → Stateful S A → Stateful S B → Stateful S B
unfolding ◌>>=◌
p >> q = p >>= λ _. q

unfoldable pub pure {ℓ κ} : {S : Type ℓ} {A : Type κ} → A → Stateful S A
pure a s = ok (a, s)

unfoldable pub lift {ℓ κ} : {S : Type ℓ} {A : Type κ} → Outcome A → Stateful S A
lift r s = elim r [ ok a ↦ ok (a, s) | err e ↦ err e | fault ↦ fault | out_of_fuel ↦ out_of_fuel ]

-- A lookup that reads the state.
unfoldable pub asks {ℓ κ} : {S : Type ℓ} {A : Type κ} → (S → Outcome A) → Stateful S A
unfolding lift
asks f s = lift (f s) s

-- A method of a thread.
abbrev pub Method {ℓ} : Type ℓ → Type ℓ
Method A = Stateful Thread A

-- A change of the last frame, which panics if there is none.
unfoldable pub on_frame {ℓ} : {A : Type ℓ} → (Frame → Outcome (A × Frame)) → Method A
on_frame f t = elim t.frames [
  | [] ↦ fault
  | frame ∷ frames ↦ elim (f frame) [
    | ok (a, frame') ↦ ok (a, record t { frames = frame' ∷ frames })
    | err e ↦ err e
    | fault ↦ fault
    | out_of_fuel ↦ out_of_fuel
  ]
]

unfoldable pub on_labels {ℓ} : {A : Type ℓ} → (List Label → Outcome (A × List Label)) → Method A
unfolding on_frame
on_labels f = on_frame λ frame. elim (f frame.labels) [
  | ok (a, labels) ↦ ok (a, record frame { labels = labels })
  | err e ↦ err e
  | fault ↦ fault
  | out_of_fuel ↦ out_of_fuel
]

-- A change of the values of the last label.
unfoldable pub on_values {ℓ} : {A : Type ℓ} → (List Val → Outcome (A × List Val)) → Method A
unfolding on_labels
on_values f = on_labels λ labels. elim labels [
  | [] ↦ fault
  | label ∷ rest ↦ elim (f label.values) [
    | ok (a, values) ↦ ok (a, record label { values = values } ∷ rest)
    | err e ↦ err e
    | fault ↦ fault
    | out_of_fuel ↦ out_of_fuel
  ]
]

unfoldable pub frame : Method Frame
frame = on_frame λ f. ok (f, f)

unfoldable pub inst_id : Method ℕ
inst_id = on_frame λ f. ok (f.inst_id, f)

unfoldable pub peek_top : List Val → Outcome (Val × List Val)
peek_top [] = fault
peek_top (v ∷ vs) = ok (v, v ∷ vs)

unfoldable pub pop_top : List Val → Outcome (Val × List Val)
pop_top [] = fault
pop_top (v ∷ vs) = ok (v, vs)

unfoldable pub peek_value : Method Val
peek_value = on_values peek_top

unfoldable pub pop_value : Method Val
pop_value = on_values pop_top

unfoldable pub push_value : Val → Method (Unit {0})
push_value v = on_values λ vs. ok (tt, v ∷ vs)

-- `extend_from_slice`, with the last value on top.
unfoldable pub push_values : List Val → Method (Unit {0})
push_values values = on_values λ vs. ok (tt, reverse_onto values vs)

-- The values from the lowest to the top.
unfoldable pub pop_values : ℕ → Method (List Val)
pop_values n =
    on_values λ vs. if leb n (length vs) then ok (reversed (take n vs), drop n vs) else fault

-- The reading of the parser, and its restoration.
unfoldable pub save : Method (List ℕ)
save t = ok (t.parser, t)

unfoldable pub restore : List ℕ → Method (Unit {0})
restore bytes t = ok (tt, record t { parser = bytes })

-- A method of the parser.
unfoldable pub read {ℓ} : {A : Type ℓ} → (List ℕ → Outcome (A × List ℕ)) → Method A
read p t = elim (p t.parser) [
  | ok (a, rest) ↦ ok (a, record t { parser = rest })
  | err e ↦ err e
  | fault ↦ fault
  | out_of_fuel ↦ out_of_fuel
]
