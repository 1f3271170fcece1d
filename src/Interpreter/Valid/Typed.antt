-- ===== src/Interpreter/Valid/Typed.antt =====
-- crates/interpreter/src/valid.rs: what calls do to the types on the stack.
use wasefire.Base.{
  ℕ, ==_true, ==_iff, ◌==◌, Bool, true, false, Bool-cases, ◌⊎◌, inl, inr, ◌↔◌, if◌then◌else◌, List,
  [], ◌∷◌, ◌≡◌, refl, sym, ap, ◌∙◌, arith,
}
use wasefire.Interpreter.Mode.{ok, err, invalid}
use wasefire.Interpreter.Syntax.Types.{ValType, ResultType, FuncType}
use wasefire.Interpreter.Valid.OpdType.{OpdType, opd_of_val, opd_byte, opd_eq, opd_matches}
use wasefire.Interpreter.Valid.Method.{
  Label, Expr, Method, ◌>>=◌, ◌>>◌, pure, lift, require, on_label, extend, pushs_on, pushs,
  pop_from, pop, pop_check, pops,
}
use wasefire.Interpreter.Valid.Labels.{call}

-- The state with this stack on its innermost label.
abbrev pub with_stack : Expr → Label → List Label → List OpdType → Expr
with_stack e l ls stack = record e { labels = record l { stack = stack } ∷ ls }

opd_of_byte : ℕ → OpdType
opd_of_byte n =
    if n == 0x7f
    then OpdType.i32
    else if n == 0x7e
    then OpdType.i64
    else if n == 0x7d
    then OpdType.f32
    else if n == 0x7c
    then OpdType.f64
    else if n == 0x7b
    then OpdType.v128
    else if n == 0x70
    then OpdType.func_ref
    else if n == 0x6f
    then OpdType.extern_ref
    else OpdType.bottom

opd_of_byte-opd_byte : (o : OpdType) → opd_of_byte (opd_byte o) ≡ o
unfolding opd_of_byte opd_byte
opd_of_byte-opd_byte OpdType.bottom = refl
opd_of_byte-opd_byte OpdType.i32 = refl
opd_of_byte-opd_byte OpdType.i64 = refl
opd_of_byte-opd_byte OpdType.f32 = refl
opd_of_byte-opd_byte OpdType.f64 = refl
opd_of_byte-opd_byte OpdType.v128 = refl
opd_of_byte-opd_byte OpdType.func_ref = refl
opd_of_byte-opd_byte OpdType.extern_ref = refl

opd_eq_iff : (o p : OpdType) → (opd_eq o p ≡ true) ↔ (o ≡ p)
unfolding opd_eq
opd_eq_iff o p = (
  λ same.
      sym (opd_of_byte-opd_byte o)
      ∙ (ap opd_of_byte ((==_iff (opd_byte o) (opd_byte p)).0 same) ∙ opd_of_byte-opd_byte p),
  λ same. ==_true (opd_byte o) (opd_byte p) (ap opd_byte same),
)

-- An operand stands for a type if it has the type, or any type.
unfoldable pub Matches : OpdType → ValType → Type 0
Matches o t = (o ≡ OpdType.bottom) ⊎ (o ≡ opd_of_val t)

opd_matches_iff : (o : OpdType) (t : ValType) → (opd_matches o t ≡ true) ↔ Matches o t
unfolding opd_matches Matches
opd_matches_iff o t =
    let any = opd_eq_iff o OpdType.bottom in
    let same = opd_eq_iff o (opd_of_val t) in
    (
      λ h. elim (Bool-cases (opd_eq o OpdType.bottom)) [
        | inl holds ↦ inl (any.0 holds)
        | inr fails ↦ inr (same.0 (ground arith))
      ],
      λ h. elim h [ inl b ↦ ground (arith, any.1 b) | inr s ↦ ground (arith, same.1 s) ],
    )

-- The operands of these types, the last on top, and what stands below them. In a polymorphic block
-- an empty stack has as many operands as are asked for.
pub data Operands (polymorphic : Bool) : ResultType → List OpdType → List OpdType → Type 0 where
  none : {stack : List OpdType} → Operands polymorphic [] stack stack
  top :
      {t : ValType} {ts : ResultType} {stack below : List OpdType} {o : OpdType}
      → Operands polymorphic ts stack (o ∷ below)
      → Matches o t
      → Operands polymorphic (t ∷ ts) stack below
  any :
      {t : ValType} {ts : ResultType} {stack : List OpdType}
      → Operands polymorphic ts stack []
      → polymorphic ≡ true
      → Operands polymorphic (t ∷ ts) stack []

then-ok {ℓ} :
    {A : Type ℓ} (p : Method (Unit {0})) (q : Method A) (e e' : Expr)
    → p e ≡ ok (tt, e')
    → (p >> q) e ≡ q e'
unfolding ◌>>◌ ◌>>=◌
then-ok p q e e' h = ground arith

then-err {ℓ} :
    {A : Type ℓ} (p : Method (Unit {0})) (q : Method A) (e : Expr)
    → p e ≡ err invalid
    → (p >> q) e ≡ err invalid
unfolding ◌>>◌ ◌>>=◌
then-err p q e h = ground arith

module _ (e : Expr) (l : Label) (ls : List Label) where
  pop_check_top :
      (t : ValType) (o : OpdType) (stack : List OpdType)
      → opd_matches o t ≡ true
      → pop_check t (with_stack e l ls (o ∷ stack)) ≡ ok (tt, with_stack e l ls stack)
  unfolding pop_check pop pop_from on_label ◌>>=◌ require lift
  pop_check_top t o stack h = ground arith

  pop_check_bad :
      (t : ValType) (o : OpdType) (stack : List OpdType)
      → opd_matches o t ≡ false
      → pop_check t (with_stack e l ls (o ∷ stack)) ≡ err invalid
  unfolding pop_check pop pop_from on_label ◌>>=◌ require lift
  pop_check_bad t o stack h = ground arith

  pop_check_any :
      (t : ValType)
      → l.polymorphic ≡ true
      → pop_check t (with_stack e l ls []) ≡ ok (tt, with_stack e l ls [])
  unfolding pop_check pop pop_from on_label ◌>>=◌ require lift opd_matches opd_eq opd_byte
  pop_check_any t h = ground arith

  pop_check_empty :
      (t : ValType) → l.polymorphic ≡ false → pop_check t (with_stack e l ls []) ≡ err invalid
  unfolding pop_check pop pop_from on_label ◌>>=◌ require lift
  pop_check_empty t h = ground arith

  pops_of :
      {ts : ResultType} {stack below : List OpdType}
      → Operands l.polymorphic ts stack below
      → pops ts (with_stack e l ls stack) ≡ ok (tt, with_stack e l ls below)
  unfolding pops pure
  pops_of none = refl
  pops_of (top {t} {ts} {below = below} {o = o} rest m) =
      then-ok (pops ts) (pop_check t) _ _ (pops_of rest)
      ∙ pop_check_top t o below ((opd_matches_iff o t).1 m)
  pops_of (any {t} {ts} rest p) =
      then-ok (pops ts) (pop_check t) _ _ (pops_of rest) ∙ pop_check_any t p

  pops-cases :
      (ts : ResultType) (stack : List OpdType)
      → ((below : List OpdType) × Operands l.polymorphic ts stack below)
        ⊎ (pops ts (with_stack e l ls stack) ≡ err invalid)
  unfolding pops
  pops-cases [] stack = inl (stack, none)
  pops-cases (t ∷ ts) stack = elim (pops-cases ts stack) [
    | inr bad ↦ inr (then-err (pops ts) (pop_check t) _ bad)
    | inl ([], rest) ↦ elim (Bool-cases l.polymorphic) [
      | inl holds ↦ inl ([], any rest holds)
      | inr fails ↦
          inr (then-ok (pops ts) (pop_check t) _ _ (pops_of rest) ∙ pop_check_empty t fails)
    ]
    | inl (o ∷ below, rest) ↦ elim (Bool-cases (opd_matches o t)) [
      | inl holds ↦ inl (below, top rest ((opd_matches_iff o t).0 holds))
      | inr fails ↦
          inr (then-ok (pops ts) (pop_check t) _ _ (pops_of rest) ∙ pop_check_bad t o below fails)
    ]
  ]

  call_of :
      (t : FuncType) {stack below : List OpdType}
      → Operands l.polymorphic t.params stack below
      → call t (with_stack e l ls stack) ≡ ok (tt, with_stack e l ls (extend t.results below))
  unfolding call pushs pushs_on on_label
  call_of t operands = then-ok (pops t.params) (pushs t.results) _ _ (pops_of operands) ∙ refl

  call-cases :
      (t : FuncType) (stack : List OpdType)
      → ((below : List OpdType) × Operands l.polymorphic t.params stack below)
        ⊎ (call t (with_stack e l ls stack) ≡ err invalid)
  unfolding call
  call-cases t stack = elim (pops-cases t.params stack) [
    | inl found ↦ inl found
    | inr bad ↦ inr (then-err (pops t.params) (pushs t.results) _ bad)
  ]

  -- On any stack, the call of a function succeeds with the state `e'` exactly if the stack has
  -- operands for its parameters, and `e'` is the state with the results in their place: the types
  -- below, the other labels and the rest of the state are kept. Without such operands it is invalid.
  pub call_typed :
      (t : FuncType) (stack : List OpdType) (e' : Expr)
      → ((call t (with_stack e l ls stack) ≡ ok (tt, e')) ↔ (
          (below : List OpdType) × Operands l.polymorphic t.params stack below
          × (e' ≡ with_stack e l ls (extend t.results below))))
        × (((below : List OpdType) × Operands l.polymorphic t.params stack below)
            ⊎ (call t (with_stack e l ls stack) ≡ err invalid))
  call_typed t stack e' = (
    (
      λ success. elim (call-cases t stack) [
        | inl (below, operands) ↦ (below, operands, ground (arith, call_of t operands))
        | inr bad ↦ absurd (ground arith)
      ],
      λ (below, operands, same). call_of t operands ∙ ap (λ x. ok (tt, x)) (sym same),
    ),
    call-cases t stack,
  )
