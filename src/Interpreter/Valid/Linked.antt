-- ===== src/Interpreter/Valid/Linked.antt =====
-- crates/interpreter/src/valid.rs: the declarations of a module while it is checked: the indices
-- that must be in range.
use wasefire.Base.{
  ℕ, zero, suc, ◌≤◌, ◌<◌, ◌≡◌, subst, ◌⊎◌, inl, inr, List, [], ◌∷◌, ◌++◌, length, length-append,
  length-set, set, get_elem?, some, Bool, true, le_or_lt, arith,
}
use wasefire.Interpreter.Mode.{ok}
use wasefire.Interpreter.Syntax.Types.{TableType, Limits, GlobalType, ImportDesc, ResultType}
use wasefire.Interpreter.Parser.Core.{lift}
use wasefire.Interpreter.Parser.Parses.Integers.{parse_u32-Parses}
use wasefire.Interpreter.Parser.Parses.Types.{
  parse_functype-Parses, parse_importdesc-Parses, parse_name-Parses, parse_tabletype-Parses,
  parse_memtype-Parses, parse_globaltype-Parses,
}
use wasefire.Interpreter.Valid.Context.{
  Context, empty_context, add_functype, add_tabletype, add_memtype, add_globaltype, add_importdesc,
  add_import,
}
use wasefire.Interpreter.Valid.Check.{check_const}
use wasefire.Interpreter.Valid.Sound.{check_const-Decides, check_const-refs}
use wasefire.Interpreter.Valid.Module.{
  Module, add_type, add_function, add_table, add_memory, add_global, mark,
}
use wasefire.Interpreter.Valid.Steady.{Decides, Decides-ok, Decides-err, Decides-if}
use wasefire.Interpreter.Valid.Yields.{
  Yields, Any, Yields-Parses, Yields-pure, Yields-lift, Yields-bind, Yields-then,
}

-- Every function has a type that is declared.
pub record Declared (c : Context) : Type 0 where
  pub typed : (x f : ℕ) → get_elem? c.funcs x ≡ some f → f < length c.types

-- The globals before `n` are declared, and `refs` has a place for every function.
pub record Linked (n : ℕ) (s : Module) : Type 0 where
  pub declared : Declared s.context
  pub globals : n ≤ length s.context.globals
  pub refs : length s.context.funcs ≤ length s.refs

pub empty-Declared : Declared empty_context
unfolding empty_context
empty-Declared = record { typed = λ x f e. absurd (ground arith) }

get_elem?-last :
    (xs : List ℕ) (y i f : ℕ)
    → get_elem? (xs ++ y ∷ []) i ≡ some f
    → (get_elem? xs i ≡ some f) ⊎ (f ≡ y)
get_elem?-last [] y zero f e = inr (ground arith)
get_elem?-last [] y (suc i) f e = absurd (ground arith)
get_elem?-last (x ∷ xs) y zero f e = inl e
get_elem?-last (x ∷ xs) y (suc i) f e = get_elem?-last xs y i f e

pub add_type-Yields : (c : Context) → Declared c → Yields Declared (add_type c)
unfolding add_type
add_type-Yields c h =
    Yields-bind Any Declared _ _ (Yields-Parses 1 _ _ parse_functype-Parses) λ t any.
      Yields-pure Declared _
        (record { typed = λ x f e. omega (arith, h.typed x f e, length-append c.types (t ∷ [])) })

add_functype-Declared :
    (c : Context) (x : ℕ) → Declared c → (c' : Context) → add_functype c x ≡ ok c' → Declared c'
unfolding add_functype
add_functype-Declared c x h c' e = elim (le_or_lt (length c.types) x) [
  | inl out ↦ absurd (ground arith)
  | inr known ↦
      let same : record c { funcs = c.funcs ++ x ∷ [] } ≡ c' = ground arith in
      subst Declared same (record {
        typed = λ i f found. elim (get_elem?-last c.funcs x i f found) [
          | inl old ↦ h.typed i f old
          | inr new ↦ omega (arith, new)
        ];
      })
]

add_functype-Decides : (c : Context) (x : ℕ) → Decides (add_functype c x)
unfolding add_functype
add_functype-Decides c x = search (Decides-if, Decides-ok, Decides-err)

add_functype-Yields : (c : Context) (x : ℕ) → Declared c → Yields Declared (lift (add_functype c x))
add_functype-Yields c x h =
    Yields-lift Declared _ (add_functype-Decides c x) (add_functype-Declared c x h)

pub add_function-Yields : (c : Context) → Declared c → Yields Declared (add_function c)
unfolding add_function
add_function-Yields c h =
    Yields-bind Any Declared _ _ (Yields-Parses 1 _ _ parse_u32-Parses)
      λ x any. add_functype-Yields c x h

-- The declarations but functions change nothing else.
add_tabletype-eq :
    (c : Context) (t : TableType) (c' : Context)
    → add_tabletype c t ≡ ok c'
    → record c { tables = c.tables ++ t ∷ [] } ≡ c'
unfolding add_tabletype
add_tabletype-eq c t c' e = ground arith

add_memtype-eq :
    (c : Context) (t : Limits) (c' : Context)
    → add_memtype c t ≡ ok c'
    → record c { mems = c.mems ++ t ∷ [] } ≡ c'
unfolding add_memtype
add_memtype-eq c t c' e = ground arith

add_globaltype-eq :
    (c : Context) (g : GlobalType) (c' : Context)
    → add_globaltype c g ≡ ok c'
    → record c { globals = c.globals ++ g ∷ [] } ≡ c'
unfolding add_globaltype
add_globaltype-eq c g c' e = ground arith

add_tabletype-Decides : (c : Context) (t : TableType) → Decides (add_tabletype c t)
unfolding add_tabletype
add_tabletype-Decides c t = search (Decides-if, Decides-ok, Decides-err)

add_memtype-Decides : (c : Context) (t : Limits) → Decides (add_memtype c t)
unfolding add_memtype
add_memtype-Decides c t = search (Decides-if, Decides-ok, Decides-err)

add_globaltype-Decides : (c : Context) (g : GlobalType) → Decides (add_globaltype c g)
unfolding add_globaltype
add_globaltype-Decides c g = Decides-ok _

module _ (c : Context) (h : Declared c) where
  add_importdesc-Decides : (d : ImportDesc) → Decides (add_importdesc c d)
  unfolding add_importdesc
  add_importdesc-Decides (ImportDesc.func x) = add_functype-Decides c x
  add_importdesc-Decides (ImportDesc.table t) = add_tabletype-Decides c t
  add_importdesc-Decides (ImportDesc.mem m) = add_memtype-Decides c m
  add_importdesc-Decides (ImportDesc.global g) = add_globaltype-Decides c g

  add_importdesc-Declared :
      (d : ImportDesc) (c' : Context) → add_importdesc c d ≡ ok c' → Declared c'
  unfolding add_importdesc
  add_importdesc-Declared (ImportDesc.func x) c' e = add_functype-Declared c x h c' e
  add_importdesc-Declared (ImportDesc.table t) c' e =
      subst Declared (add_tabletype-eq c t c' e) (record { typed = h.typed })
  add_importdesc-Declared (ImportDesc.mem m) c' e =
      subst Declared (add_memtype-eq c m c' e) (record { typed = h.typed })
  add_importdesc-Declared (ImportDesc.global g) c' e =
      subst Declared (add_globaltype-eq c g c' e) (record { typed = h.typed })

  pub add_import-Yields : Yields Declared (add_import c)
  unfolding add_import
  add_import-Yields = Yields-then Any Declared _ _ (Yields-Parses 1 _ _ parse_name-Parses) λ a any.
      Yields-then Any Declared _ _ (Yields-Parses 1 _ _ parse_name-Parses) λ b any'.
        Yields-bind Any Declared _ _ (Yields-Parses 1 _ _ parse_importdesc-Parses)
          λ d any''. Yields-lift Declared _ (add_importdesc-Decides d) (add_importdesc-Declared d)

-- The declarations with `refs`.
module _ (n : ℕ) (s : Module) (h : Linked n s) where
  pub add_table-Yields : Yields (Linked n) (add_table s)
  unfolding add_table
  add_table-Yields =
      Yields-bind Any (Linked n) _ _ (Yields-Parses 1 _ _ parse_tabletype-Parses) λ t any.
        Yields-bind _ (Linked n) _ _
          (Yields-lift _ _ (add_tabletype-Decides s.context t) (add_tabletype-eq s.context t))
          λ c same. Yields-pure (Linked n) _ (
            subst (λ d. Linked n (record s { context = d })) same
              (record {
                declared = record { typed = h.declared.typed };
                globals = h.globals;
                refs = h.refs;
              }))

  pub add_memory-Yields : Yields (Linked n) (add_memory s)
  unfolding add_memory
  add_memory-Yields =
      Yields-bind Any (Linked n) _ _ (Yields-Parses 1 _ _ parse_memtype-Parses) λ t any.
        Yields-bind _ (Linked n) _ _
          (Yields-lift _ _ (add_memtype-Decides s.context t) (add_memtype-eq s.context t))
          λ c same. Yields-pure (Linked n) _ (
            subst (λ d. Linked n (record s { context = d })) same
              (record {
                declared = record { typed = h.declared.typed };
                globals = h.globals;
                refs = h.refs;
              }))

pub check_const-Yields :
    (n : ℕ) (s : Module) (expected : ResultType)
    → Linked n s
    → Yields (λ refs. length refs ≡ length s.refs) (check_const s.context s.refs n expected)
check_const-Yields n s expected h = record {
  decides = λ xs.
      let decided = check_const-Decides s.context s.refs n expected xs h.refs h.globals in
      record { safe = decided.0; ends = decided.1 };
  yields =
      λ xs refs rest. check_const-refs s.context s.refs n expected xs refs rest h.refs h.globals;
}

pub Linked-refs :
    (n : ℕ) (s : Module) (refs : List Bool)
    → Linked n s
    → length refs ≡ length s.refs
    → Linked n (record { context = s.context; refs = refs })
Linked-refs n s refs h same = record {
  declared = h.declared;
  globals = h.globals;
  refs = omega (arith, h.refs);
}

pub add_global-Yields : (n : ℕ) (s : Module) → Linked n s → Yields (Linked n) (add_global n s)
unfolding add_global
add_global-Yields n s h =
    Yields-bind Any (Linked n) _ _ (Yields-Parses 1 _ _ parse_globaltype-Parses) λ g any.
      Yields-bind _ (Linked n) _ _
        (Yields-lift _ _ (add_globaltype-Decides s.context g) (add_globaltype-eq s.context g))
        λ c same.
          let linked : Linked n (record s { context = c }) =
            subst (λ d. Linked n (record s { context = d })) same
              (record {
                declared = record { typed = h.declared.typed };
                globals = omega (arith, h.globals, length-append s.context.globals (g ∷ []));
                refs = h.refs;
              }) in
          Yields-bind _ (Linked n) _ _ (check_const-Yields n (record s { context = c }) _ linked)
            λ refs kept.
              Yields-pure (Linked n) _ (Linked-refs n (record s { context = c }) refs linked kept)

pub mark-Decides : (x : ℕ) (s : Module) → x < length s.refs → Decides (mark x s)
unfolding mark
mark-Decides x s h = record { safe = λ e. ground arith; ends = λ e. ground arith }

pub mark-Linked : (n x : ℕ) (s s' : Module) → Linked n s → mark x s ≡ ok s' → Linked n s'
unfolding mark
mark-Linked n x s s' h e =
    let same : record s { refs = set s.refs x true } ≡ s' = ground arith in
    subst (Linked n) same (Linked-refs n s (set s.refs x true) h (length-set s.refs x true))
