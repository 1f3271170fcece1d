-- ===== src/Interpreter/Valid/Verdict.antt =====
-- crates/interpreter/src/valid.rs: the verdict of `validate`, section by section.
use wasefire.Base.{
  ℕ, ◌≢◌, inl, inr, List, length, length-replicate, replicate, Option, none, some, false, ◌==◌,
  arith,
}
use wasefire.Interpreter.Mode.{fault, out_of_fuel, invalid, check}
use wasefire.Interpreter.Syntax.Types.{SectionId}
use wasefire.Interpreter.Parser.Core.{lift, require}
use wasefire.Interpreter.Parser.Parses.{Outcome-cases}
use wasefire.Interpreter.Parser.Parses.Bytes.{parse_bytes-Parses}
use wasefire.Interpreter.Parser.Parses.Integers.{parse_u32-Parses}
use wasefire.Interpreter.Valid.Context.{Context, empty_context, add_import}
use wasefire.Interpreter.Valid.Module.{
  Module, whole, add_type, add_function, add_table, add_memory, add_global, check_exports,
  check_start,
}
use wasefire.Interpreter.Valid.Segments.{add_elem, add_data}
use wasefire.Interpreter.Valid.Sections.{
  check_code, check_codes, check_datas, count_datas, check_declarations, check_definitions, at_end,
  check_module, validate,
}
use wasefire.Interpreter.Valid.Steady.{Decides-ok, Decides-err, Decides-if}
use wasefire.Interpreter.Valid.Yields.{
  Yields, Any, any, Yields-Parses, Yields-Any, Yields-pure, Yields-Decides, Yields-require,
  Yields-bind, Yields-then, Yields-repeat, Yields-vec, whole-Decides,
}
use wasefire.Interpreter.Valid.Linked.{
  Declared, Linked, empty-Declared, add_type-Yields, add_import-Yields, add_function-Yields,
  add_table-Yields, add_memory-Yields, add_global-Yields,
}
use wasefire.Interpreter.Valid.Parts.{
  check_exports-Yields, check_start-Yields, add_elem-Yields, add_data-Yields,
}
use wasefire.Interpreter.Valid.Bodies.{code-Yields, check_section-Yields, section-Yields}

count_datas-Yields : (n : ℕ) (s : Module) → Linked n s → Yields (Linked n) (count_datas s)
unfolding count_datas
count_datas-Yields n s h = Yields-bind Any _ _ _ (Yields-Parses 1 _ _ parse_u32-Parses) λ k _.
    Yields-pure _ _ (record {
      declared = record { typed = h.declared.typed };
      globals = h.globals;
      refs = h.refs;
    })

module _ (n : ℕ) (s : Module) (h : Linked n s) where
  check_datas-Yields : Yields (Linked n) (check_datas n s)
  unfolding check_datas
  check_datas-Yields = Yields-bind Any _ _ _ (Yields-Parses 1 _ _ parse_u32-Parses) λ k _.
      Yields-then _ _ _ _ (Yields-require _)
        λ u _. Yields-repeat (Linked n) (add_data n) (add_data-Yields n) k s h

  check_codes-Yields : (imported : ℕ) → Yields Any (check_codes imported s)
  unfolding check_codes
  check_codes-Yields imported =
      Yields-bind Any Any _ _ (check_section-Yields SectionId.code) λ found _. found_Yields found
    where
      found_Yields :
          (found : Option (List ℕ))
          → Yields Any (elim found [
            | none ↦ require check (length s.context.funcs == imported)
            | some bytes ↦ lift (whole (check_code imported s) bytes)
          ])
      found_Yields none = Yields-Any _ _ (Yields-require _)
      found_Yields (some bytes) =
          Yields-Decides _ (whole-Decides Any _ (code-Yields n s h imported) bytes)

  check_definitions-Yields : Yields (Linked n) (check_definitions n s)
  unfolding check_definitions
  check_definitions-Yields =
      Yields-bind (Linked n) _ _ _
        (section-Yields (Linked n) SectionId.global _
          (Yields-vec (Linked n) (add_global n) (add_global-Yields n)) s h)
        λ s1 h1.
          Yields-bind (Linked n) _ _ _
            (section-Yields (Linked n) SectionId.export check_exports (check_exports-Yields n) s1
              h1)
            λ s2 h2.
              Yields-bind (Linked n) _ _ _
                (section-Yields (Linked n) SectionId.start check_start (check_start-Yields n) s2 h2)
                λ s3 h3.
                  Yields-bind (Linked n) _ _ _
                    (section-Yields (Linked n) SectionId.element _
                      (Yields-vec (Linked n) (add_elem n) (add_elem-Yields n)) s3 h3)
                    λ s4 h4.
                      section-Yields (Linked n) SectionId.data_count count_datas
                        (count_datas-Yields n) s4 h4

declarations-Yields : Yields (λ r. Declared r.1) check_declarations
unfolding check_declarations
declarations-Yields =
    Yields-bind Declared _ _ _
      (section-Yields Declared SectionId.type _ (Yields-vec Declared add_type add_type-Yields)
        empty_context empty-Declared)
      λ types h1.
        Yields-bind Declared _ _ _
          (section-Yields Declared SectionId.import _
            (Yields-vec Declared add_import add_import-Yields) types h1)
          λ imports h2.
            Yields-bind Declared _ _ _
              (section-Yields Declared SectionId.function _
                (Yields-vec Declared add_function add_function-Yields) imports h2)
              λ funcs h3. Yields-pure _ _ h3

-- `refs` starts with a place for every function.
start-Linked :
    (c : Context)
    → Declared c
    → Linked 0 (record { context = c; refs = replicate (length c.funcs) false })
start-Linked c h = record {
  declared = h;
  globals = omega arith;
  refs = omega (arith, length-replicate (length c.funcs) false);
}

Linked-globals : (s : Module) → Linked 0 s → Linked (length s.context.globals) s
Linked-globals s h = record { declared = h.declared; globals = omega arith; refs = h.refs }

at_end-Yields : Yields Any at_end
unfolding at_end
at_end-Yields = record {
  decides = λ xs. Decides-if _ _ _ (Decides-ok _) (Decides-err invalid);
  yields = λ xs a rest e. any a;
}

check_module-Yields : Yields Any check_module
unfolding check_module
check_module-Yields =
    Yields-bind Any Any _ _ (Yields-Parses 8 _ _ (parse_bytes-Parses 8)) λ header _.
      Yields-then _ Any _ _ (Yields-require _) λ u _.
        Yields-bind (λ r. Declared r.1) Any _ _ declarations-Yields
          λ r declared.
            Yields-bind (Linked 0) Any _ _
              (section-Yields (Linked 0) SectionId.table _
                (Yields-vec (Linked 0) add_table (add_table-Yields 0)) _
                (start-Linked r.1 declared))
              λ tables h1.
                Yields-bind (Linked 0) Any _ _
                  (section-Yields (Linked 0) SectionId.memory _
                    (Yields-vec (Linked 0) add_memory (add_memory-Yields 0)) tables h1)
                  λ mems h2. Yields-then _ Any _ _ (Yields-require _) λ v _.
                    let n : ℕ = length mems.context.globals in
                    Yields-bind (Linked n) Any _ _
                      (check_definitions-Yields n mems (Linked-globals mems h2))
                      λ s h3. Yields-then Any Any _ _ (check_codes-Yields n s h3 r.0) λ w _.
                        Yields-then (Linked n) Any _ _
                          (section-Yields (Linked n) SectionId.data_ (check_datas n)
                            (check_datas-Yields n) s h3)
                          λ s' _.
                            Yields-then Any Any _ _ (check_section-Yields SectionId.custom)
                              λ last _. at_end-Yields

-- On every list of bytes, `validate` gives a verdict: it neither panics nor runs out of fuel.
pub validate-Decides :
    (binary : List ℕ) → (validate binary ≢ fault) × (validate binary ≢ out_of_fuel)
unfolding validate
validate-Decides binary =
    let decided = check_module-Yields.decides binary in
    elim (Outcome-cases (check_module binary)) [
      | inl (a, done) ↦ (λ e. ground arith, λ e. ground arith)
      | inr (inl (x, failed)) ↦ (λ e. ground arith, λ e. ground arith)
      | inr (inr (inl failed)) ↦ absurd (decided.safe failed)
      | inr (inr (inr failed)) ↦ absurd (decided.ends failed)
    ]
