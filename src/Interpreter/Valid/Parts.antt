-- ===== src/Interpreter/Valid/Parts.antt =====
-- crates/interpreter/src/valid.rs: exports, the start function and segments, with what they keep
-- of a module.
use wasefire.Base.{ℕ, ◌<◌, ◌≡◌, subst, inl, inr, List, [], ◌∷◌, length, Bool-cases, arith}
use wasefire.Interpreter.Mode.{ok, err, invalid, check}
use wasefire.Interpreter.Syntax.Types.{ValType, RefType, ExportDesc}
use wasefire.Interpreter.Parser.Core.{pure, lift}
use wasefire.Interpreter.Parser.Segments.{
  ElemMode, elem_mode, elem_type, elem_init, parse_elem, DataMode, data_mode, parse_data,
}
use wasefire.Interpreter.Parser.Parses.Bytes.{parse_byte-Parses, parse_bytes-Parses}
use wasefire.Interpreter.Parser.Parses.Integers.{parse_u32-Parses}
use wasefire.Interpreter.Parser.Parses.Types.{
  parse_name-Parses, parse_reftype-Parses, parse_exportdesc-Parses,
}
use wasefire.Interpreter.Valid.Context.{Context, table, mem, check_exportdesc}
use wasefire.Interpreter.Valid.OpdType.{opd_matches, val_of_ref}
use wasefire.Interpreter.Valid.Module.{
  Module, mark, mark_export, add_export, check_exports, check_start,
}
use wasefire.Interpreter.Valid.Segments.{
  ElemState, module_const, check_elem_mode, check_elem_type, check_init_funcidx, check_init_expr,
  first_elem, elem_user, add_elem, check_data_mode, data_user, add_data,
}
use wasefire.Interpreter.Valid.Steady.{Decides, Decides-ok, Decides-err, Decides-check}
use wasefire.Interpreter.Valid.Steady.Methods.{lookup-Decides, functype-Decides}
use wasefire.Interpreter.Valid.Yields.{
  Yields, Any, Yields-Parses, Yields-pure, Yields-lift, Yields-Decides, any, Yields-if,
  Yields-require, Yields-bind, Yields-then, Yields-vec,
}
use wasefire.Interpreter.Valid.Linked.{
  Linked, check_const-Yields, Linked-refs, mark-Decides, mark-Linked,
}

-- An export that is checked can be marked.
check_exportdesc-Decides : (c : Context) (d : ExportDesc) → Decides (check_exportdesc c d)
unfolding check_exportdesc
check_exportdesc-Decides c (ExportDesc.func x) = Decides-check _
check_exportdesc-Decides c (ExportDesc.table x) = Decides-check _
check_exportdesc-Decides c (ExportDesc.mem x) = Decides-check _
check_exportdesc-Decides c (ExportDesc.global x) = Decides-check _

module _ (n : ℕ) (s : Module) (h : Linked n s) where
  mark_export-Yields :
      (d : ExportDesc) (u : Unit {0})
      → check_exportdesc s.context d ≡ ok u
      → Yields (Linked n) (lift (mark_export d s))
  unfolding mark_export check_exportdesc lift pure
  mark_export-Yields (ExportDesc.func x) u e =
      let known : x < length s.context.funcs = ground arith in
      Yields-lift (Linked n) (mark x s) (mark-Decides x s (omega (arith, h.refs)))
        λ s'. mark-Linked n x s s' h
  mark_export-Yields (ExportDesc.table x) u e = Yields-pure (Linked n) s h
  mark_export-Yields (ExportDesc.mem x) u e = Yields-pure (Linked n) s h
  mark_export-Yields (ExportDesc.global x) u e = Yields-pure (Linked n) s h

  pub check_start-Yields : Yields (Linked n) (check_start s)
  unfolding check_start
  check_start-Yields = Yields-bind Any (Linked n) _ _ (Yields-Parses 1 _ _ parse_u32-Parses) λ x _.
      Yields-bind Any (Linked n) _ _ (Yields-Decides _ (functype-Decides s.context x))
        λ t _. Yields-then _ (Linked n) _ _ (Yields-require _) λ u e. Yields-pure (Linked n) s h

add_export-Yields :
    (n : ℕ) (r : List (List ℕ) × Module)
    → Linked n r.1
    → Yields (λ r'. Linked n r'.1) (add_export r)
unfolding add_export
add_export-Yields n (names, s) h =
    Yields-bind Any _ _ _ (Yields-Parses 1 _ _ parse_name-Parses) λ name _.
      Yields-then _ _ _ _ (Yields-require _) λ u fresh.
        Yields-bind Any _ _ _ (Yields-Parses 1 _ _ parse_exportdesc-Parses) λ d _.
          Yields-then (λ v. check_exportdesc s.context d ≡ ok v) _ _ _
            (Yields-lift _ _ (check_exportdesc-Decides s.context d) (λ v e. e))
            λ v known.
              Yields-bind (Linked n) _ _ _ (mark_export-Yields n s h d v known)
                λ s' linked. Yields-pure _ _ linked

pub check_exports-Yields : (n : ℕ) (s : Module) → Linked n s → Yields (Linked n) (check_exports s)
unfolding check_exports
check_exports-Yields n s h =
    Yields-bind (λ r. Linked n r.1) (Linked n) _ _
      (Yields-vec (λ r. Linked n r.1) add_export (add_export-Yields n) ([], s) h)
      λ r linked. Yields-pure (Linked n) _ linked

-- The segments.
module_const-Yields :
    (n : ℕ) (expected : ValType) (s : Module)
    → Linked n s
    → Yields (Linked n) (module_const n expected s)
unfolding module_const
module_const-Yields n expected s h =
    Yields-bind _ (Linked n) _ _ (check_const-Yields n s (expected ∷ []) h)
      λ refs kept. Yields-pure (Linked n) _ (Linked-refs n s refs h kept)

LinkedElem : ℕ → ElemState → Type 0
LinkedElem n e = Linked n e.module_

module _ (n : ℕ) (s : ElemState) (h : LinkedElem n s) where
  elem_mode-Yields : (m : ElemMode) → Yields (LinkedElem n) (check_elem_mode n m s)
  unfolding check_elem_mode LinkedElem table
  elem_mode-Yields ElemMode.passive = Yields-pure _ s h
  elem_mode-Yields ElemMode.declarative = Yields-pure _ s h
  elem_mode-Yields (ElemMode.active x) =
      Yields-bind (Linked n) _ _ _ (module_const-Yields n ValType.i32 s.module_ h) λ m linked.
        Yields-bind Any _ _ _ (Yields-Decides _ (lookup-Decides m.context.tables x))
          λ t _. Yields-pure _ _ linked

  elem_type-Yields : (t : RefType) → Yields (LinkedElem n) (lift (check_elem_type t s))
  unfolding check_elem_type LinkedElem lift pure
  elem_type-Yields t = elim (Bool-cases (opd_matches s.table_type (val_of_ref t))) [
    | inl fits ↦ rw (fits) (
        Yields-pure _ _ (record {
          declared = record { typed = h.declared.typed };
          globals = h.globals;
          refs = h.refs;
        }))
    | inr wrong ↦
        rw (wrong) (Yields-lift _ (err invalid) (Decides-err invalid) λ a e. absurd (ground arith))
  ]

  init_funcidx-Yields : (x : ℕ) → Yields (LinkedElem n) (check_init_funcidx x s)
  unfolding check_init_funcidx LinkedElem
  init_funcidx-Yields x = Yields-then _ _ _ _ (Yields-require _) λ u known.
      Yields-bind (Linked n) _ _ _
        (Yields-lift (Linked n) _ (mark-Decides x s.module_ (ground (arith, h.refs)))
          λ m. mark-Linked n x s.module_ m h)
        λ m linked. Yields-pure _ _ linked

  init_expr-Yields : Yields (LinkedElem n) (check_init_expr n s)
  unfolding check_init_expr LinkedElem
  init_expr-Yields =
      Yields-bind (Linked n) _ _ _ (module_const-Yields n _ s.module_ h)
        λ m linked. Yields-pure _ _ linked

mode_of-Yields : (flags : ℕ) → Yields Any (elem_mode check flags)
unfolding elem_mode
mode_of-Yields flags =
    Yields-if Any _ _ _
      (Yields-if Any _ _ _ (Yields-pure Any _ (any _)) (Yields-pure Any _ (any _)))
      (Yields-if Any _ _ _
        (Yields-bind Any Any _ _ (Yields-Parses 1 _ _ parse_u32-Parses)
          λ x _. Yields-pure Any _ (any _))
        (Yields-pure Any _ (any _)))

type_of-Yields : (flags : ℕ) → Yields Any (elem_type check flags)
unfolding elem_type
type_of-Yields flags = Yields-if Any _ _ _ (Yields-pure Any _ (any _)) (
    Yields-if Any _ _ _ (Yields-Parses 1 _ _ parse_reftype-Parses) (
      Yields-bind Any Any _ _ (Yields-Parses 1 _ _ parse_byte-Parses)
        λ kind _. Yields-then _ Any _ _ (Yields-require _) λ u _. Yields-pure Any _ (any _)))

elem_init-Yields :
    (n flags : ℕ) (s : ElemState)
    → LinkedElem n s
    → Yields (LinkedElem n) (elem_init check (elem_user n) flags s)
unfolding elem_init elem_user
elem_init-Yields n flags s h =
    Yields-if _ _ _ _ (Yields-vec (LinkedElem n) (check_init_expr n) (init_expr-Yields n) s h) (
      Yields-vec (LinkedElem n) _
        (λ s' h'.
          Yields-bind Any _ _ _ (Yields-Parses 1 _ _ parse_u32-Parses)
            λ x _. init_funcidx-Yields n s' h' x)
        s h)

pub add_elem-Yields : (n : ℕ) (s : Module) → Linked n s → Yields (Linked n) (add_elem n s)
unfolding add_elem parse_elem elem_user first_elem LinkedElem
add_elem-Yields n s h =
    Yields-bind (LinkedElem n) (Linked n) _ _
      (Yields-bind Any _ _ _ (Yields-Parses 1 _ _ parse_u32-Parses) λ flags _.
        Yields-then _ _ _ _ (Yields-require _) λ u _.
          Yields-bind Any _ _ _ (mode_of-Yields flags) λ m _.
            Yields-bind (LinkedElem n) _ _ _ (elem_mode-Yields n (first_elem s) h m) λ s1 h1.
              Yields-bind Any _ _ _ (type_of-Yields flags) λ t _.
                Yields-bind (LinkedElem n) _ _ _ (elem_type-Yields n s1 h1 t)
                  λ s2 h2. elem_init-Yields n flags s2 h2)
      λ e linked. Yields-pure _ _ linked

data_mode-Yields :
    (n : ℕ) (m : DataMode) (s : Module) → Linked n s → Yields (Linked n) (check_data_mode n m s)
unfolding check_data_mode mem
data_mode-Yields n DataMode.passive s h = Yields-pure _ s h
data_mode-Yields n (DataMode.active x) s h =
    Yields-then Any _ _ _ (Yields-Decides _ (lookup-Decides s.context.mems x))
      λ t _. module_const-Yields n ValType.i32 s h

pub add_data-Yields : (n : ℕ) (s : Module) → Linked n s → Yields (Linked n) (add_data n s)
unfolding add_data parse_data data_user
add_data-Yields n s h = Yields-bind Any _ _ _ (Yields-Parses 1 _ _ parse_u32-Parses) λ flags _.
    Yields-then _ _ _ _ (Yields-require _) λ u _.
      Yields-bind Any _ _ _
        (Yields-if Any _ _ _ (Yields-Parses 1 _ _ parse_u32-Parses) (Yields-pure Any _ (any _)))
        λ x _. Yields-bind (Linked n) _ _ _ (data_mode-Yields n (data_mode flags x) s h) λ s' h'.
          Yields-bind Any _ _ _ (Yields-Parses 1 _ _ parse_u32-Parses) λ len _.
            Yields-bind Any _ _ _ (Yields-Parses len _ _ (parse_bytes-Parses len))
              λ bytes _. Yields-lift _ _ (Decides-ok s') λ a e. subst (Linked n) (ground arith) h'
