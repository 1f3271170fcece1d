-- ===== src/Interpreter/Valid/Bodies.antt =====
-- crates/interpreter/src/valid.rs: verdicts on the bodies of functions and on sections.
use wasefire.Base.{
  ℕ, zero, suc, ◌+◌, ◌-◌, ◌≤◌, ◌<◌, ◌≡◌, refl, inl, inr, List, [], ◌∷◌, length, get_elem?, Option,
  none, some, Option-cases, le_or_lt, Bool-cases, arith,
}
use wasefire.Interpreter.Mode.{Outcome, ok, err, fault, out_of_fuel, invalid, unsupported, check}
use wasefire.Interpreter.Syntax.Types.{ValType, FuncType, SectionId}
use wasefire.Interpreter.Parser.Core.{Parser, ◌>>=◌, ◌>>◌, pure, lift}
use wasefire.Interpreter.Parser.Types.{parse_name}
use wasefire.Interpreter.Parser.Segments.{parse_local, parse_locals}
use wasefire.Interpreter.Parser.Parses.{Parses, Outcome-cases}
use wasefire.Interpreter.Parser.Parses.Integers.{parse_u32-Parses}
use wasefire.Interpreter.Parser.Parses.Types.{
  parse_section_id-Parses, split_section-Parses, parse_name-Parses, parse_valtype-Parses,
}
use wasefire.Interpreter.Valid.Context.{Context, lookup, functype, type_}
use wasefire.Interpreter.Valid.Sound.{check_body-Decides}
use wasefire.Interpreter.Valid.Module.{
  whole, custom_section, is_custom, expect_section, sections_loop, check_section, section, Module,
}
use wasefire.Interpreter.Valid.Sections.{
  defined_type, check_locals_body, check_func, check_funcs, check_code,
}
use wasefire.Interpreter.Valid.Steady.{Decides, Decides-ok, Decides-err}
use wasefire.Interpreter.Valid.Steady.Instr.{some_in_range}
use wasefire.Interpreter.Valid.Yields.{
  Yields, Any, any, Yields-Parses, Yields-pure, Yields-lift, Yields-Decides, Yields-if,
  Yields-require, Yields-bind, Yields-then, Yields-vec, whole-Decides, whole-yields,
}
use wasefire.Interpreter.Valid.Linked.{Declared, Linked}

-- The bodies: the type of each function is there.
defined_type-Decides :
    (c : Context) (x : ℕ) → Declared c → x < length c.funcs → Decides (defined_type c x)
unfolding defined_type functype type_ lookup
defined_type-Decides c x h known = elim (Option-cases (get_elem? c.funcs x)) [
  | inl missing ↦ absurd (some_in_range c.funcs x known missing)
  | inr (f, found) ↦ elim (Option-cases (get_elem? c.types f)) [
    | inl missing ↦ absurd (some_in_range c.types f (h.typed x f found) missing)
    | inr (t, there) ↦ record { safe = λ e. ground arith; ends = λ e. ground arith }
  ]
]

local-Yields : (locals : List ValType) → Any locals → Yields Any (parse_local check locals)
unfolding parse_local
local-Yields locals _ = Yields-bind Any Any _ _ (Yields-Parses 1 _ _ parse_u32-Parses) λ len _.
    Yields-if Any _ _ _ (Yields-Decides _ (Decides-err unsupported)) (
      Yields-bind Any Any _ _ (Yields-Parses 1 _ _ parse_valtype-Parses)
        λ t _. Yields-pure Any _ (any _))

module _ (n : ℕ) (s : Module) (h : Linked n s) where
  body-Yields : (t : FuncType) → Yields Any (check_locals_body s t)
  unfolding check_locals_body parse_locals
  body-Yields t =
      Yields-bind Any Any _ _
        (Yields-vec Any (parse_local check) local-Yields t.params (any t.params))
        λ locals _. record {
          decides = λ xs.
              let verdict = check_body-Decides s.context s.refs locals t.results xs h.refs in
              record { safe = verdict.0; ends = verdict.1 };
          yields = λ xs a rest e. any a;
        }

  func-Yields : (x : ℕ) → x < length s.context.funcs → Yields Any (check_func s x)
  unfolding check_func
  func-Yields x known =
      Yields-bind Any Any _ _ (Yields-Parses 1 _ _ split_section-Parses) λ bytes _.
        Yields-bind Any Any _ _
          (Yields-Decides _ (defined_type-Decides s.context x h.declared known))
          λ t _. Yields-Decides _ (whole-Decides Any _ (body-Yields t) bytes)

  funcs-Yields : (k x : ℕ) → x + k ≤ length s.context.funcs → Yields Any (check_funcs s x k)
  unfolding check_funcs
  funcs-Yields zero x known = Yields-pure Any tt (any tt)
  funcs-Yields (suc k) x known =
      Yields-then Any Any _ _ (func-Yields x (omega arith))
        λ u _. funcs-Yields k (suc x) (omega arith)

  range-Yields : (x : ℕ) → Yields Any (check_funcs s x (length s.context.funcs - x))
  range-Yields x = elim (le_or_lt x (length s.context.funcs)) [
    | inl fits ↦ funcs-Yields (length s.context.funcs - x) x (omega arith)
    | inr above ↦
        let empty : length s.context.funcs - x ≡ 0 = omega arith in
        rw (empty) (unfold check_funcs in Yields-pure Any tt (any tt))
  ]

  pub code-Yields : (imported : ℕ) → Yields Any (check_code imported s)
  unfolding check_code
  code-Yields imported =
      Yields-bind Any Any _ _ (Yields-Parses 1 _ _ parse_u32-Parses)
        λ k _. Yields-then _ Any _ _ (Yields-require _) λ u _. range-Yields imported

-- Sections.
custom_section-Decides : (bytes : List ℕ) → Decides (custom_section bytes)
unfolding custom_section
custom_section-Decides bytes = elim (Outcome-cases (parse_name check bytes)) [
  | inl (a, done) ↦ record { safe = λ e. ground arith; ends = λ e. ground arith }
  | inr (inl (x, failed)) ↦ record { safe = λ e. ground arith; ends = λ e. ground arith }
  | inr (inr (inl failed)) ↦ absurd (parse_name-Parses.safe bytes failed)
  | inr (inr (inr failed)) ↦ absurd (parse_name-Parses.ends bytes failed)
]

expect_section-Decides :
    (expected actual : SectionId) (before xs : List ℕ)
    → Decides (expect_section expected actual before xs)
unfolding expect_section
expect_section-Decides expected actual before =
    (Yields-if Any _ _ _ (record { decides = λ xs. Decides-ok _; yields = λ xs a rest e. any a })
      (Yields-if Any _ _ _
        (Yields-bind Any Any _ _ (Yields-Parses 1 _ _ split_section-Parses)
          λ bytes _. Yields-pure Any _ (any _))
        (Yields-Decides _ (Decides-err invalid)))).decides

-- What is read in front takes a byte, so that the fuel lasts.
chain-Decides {ℓ κ} :
    {A : Type ℓ} {B : Type κ} (p q : Parser A) (f : A → Parser B) (xs : List ℕ) (n : ℕ)
    → Parses n p q
    → ((a : A) (mid : List ℕ) → length mid + n ≤ length xs → Decides (f a mid))
    → Decides ((p >>= f) xs)
unfolding ◌>>=◌
chain-Decides p q f xs n h k = elim (Outcome-cases (p xs)) [
  | inl ((a, mid), done) ↦
      let later = k a mid (h.takes xs a mid done) in
      record { safe = λ e. later.safe (ground arith); ends = λ e. later.ends (ground arith) }
  | inr (inl (x, failed)) ↦ record { safe = λ e. ground arith; ends = λ e. ground arith }
  | inr (inr (inl failed)) ↦ absurd (h.safe xs failed)
  | inr (inr (inr failed)) ↦ absurd (h.ends xs failed)
]

after_custom :
    (o : Outcome (Unit {0})) (p : Parser (Option (List ℕ))) (xs : List ℕ)
    → Decides o
    → Decides (p xs)
    → Decides ((lift o >> p) xs)
unfolding ◌>>◌ ◌>>=◌ lift
after_custom (ok u) p xs h k = k
after_custom (err x) p xs h k = Decides-err x
after_custom fault p xs h k = absurd (h.safe refl)
after_custom out_of_fuel p xs h k = absurd (h.ends refl)

sections_loop-Decides :
    (fuel : ℕ) (expected : SectionId) (xs : List ℕ)
    → length xs < fuel
    → Decides (sections_loop fuel expected xs)
unfolding sections_loop
sections_loop-Decides zero expected xs h = absurd (omega arith)
sections_loop-Decides (suc fuel) expected [] h = Decides-ok _
sections_loop-Decides (suc fuel) expected (x ∷ xs) h =
    chain-Decides _ _ _ (x ∷ xs) 1 parse_section_id-Parses λ id mid less.
      elim (Bool-cases (is_custom id)) [
        | inl custom ↦ rw (custom) (
            chain-Decides _ _ _ mid 1 split_section-Parses λ bytes ys fewer.
              after_custom _ _ ys (custom_section-Decides bytes)
                (sections_loop-Decides fuel expected ys (omega arith)))
        | inr other ↦ rw (other) (expect_section-Decides expected id (x ∷ xs) mid)
      ]

pub check_section-Yields : (expected : SectionId) → Yields Any (check_section expected)
unfolding check_section
check_section-Yields expected = record {
  decides = λ xs. sections_loop-Decides (suc (length xs)) expected xs (omega arith);
  yields = λ xs a rest e. any a;
}

pub section-Yields {ℓ} :
    {S : Type ℓ} (P : S → Type 0) (id : SectionId) (step : S → Parser S)
    → ((s : S) → P s → Yields P (step s))
    → (s : S) → P s
    → Yields P (section id step s)
unfolding section
section-Yields P id step keeps s h =
    Yields-bind Any P _ _ (check_section-Yields id) λ found _. found_Yields found
  where
    found_Yields :
        (found : Option (List ℕ))
        → Yields P (elim found [ none ↦ pure s | some bytes ↦ lift (whole (step s) bytes) ])
    found_Yields none = Yields-pure P s h
    found_Yields (some bytes) =
        Yields-lift P _ (whole-Decides P _ (keeps s h) bytes) (whole-yields P _ (keeps s h) bytes)
