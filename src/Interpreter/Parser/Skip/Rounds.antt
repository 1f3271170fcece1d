-- ===== src/Interpreter/Parser/Skip/Rounds.antt =====
-- crates/interpreter/src/parser.rs: the rounds of `skip_to_end` and `skip_to_else`.
use wasefire.Base.{
  ℕ, zero, suc, ◌<◌, ◌≡◌, ◌≢◌, ◌∙◌, inl, inr, List, length, none, some, Option-cases, arith,
}
use wasefire.Interpreter.Mode.{Mode, check, use_, ok, out_of_fuel}
use wasefire.Interpreter.Syntax.Types.{Instr}
use wasefire.Interpreter.Parser.Core.{◌>>=◌, pure}
use wasefire.Interpreter.Parser.Instr.{parse_instr}
use wasefire.Interpreter.Parser.Parses.{Outcome-cases}
use wasefire.Interpreter.Parser.Parses.Instr.{parse_instr-Parses}
use wasefire.Interpreter.Parser.Skip.{
  next_depth, is_else, skip_end_loop, skip_to_end, skip_else_loop, skip_to_else,
}

pub instr_takes :
    (m : Mode) (xs : List ℕ) (i : Instr) (rest : List ℕ)
    → parse_instr m xs ≡ ok (i, rest)
    → length rest < length xs
instr_takes check xs i rest e = omega (arith, parse_instr-Parses.takes xs i rest e)
instr_takes use_ xs i rest e = omega (arith, parse_instr-Parses.takes_use xs i rest e)

instr_ends : (m : Mode) (xs : List ℕ) → parse_instr m xs ≢ out_of_fuel
instr_ends check = parse_instr-Parses.ends
instr_ends use_ = parse_instr-Parses.ends_use

-- Two amounts of fuel above the number of bytes give one result.
skip_end_loop-fuel :
    (m : Mode) (f g depth : ℕ) (xs : List ℕ)
    → length xs < f
    → length xs < g
    → skip_end_loop m f depth xs ≡ skip_end_loop m g depth xs
unfolding skip_end_loop ◌>>=◌
skip_end_loop-fuel m zero g depth xs h k = absurd (omega arith)
skip_end_loop-fuel m (suc f) zero depth xs h k = absurd (omega arith)
skip_end_loop-fuel m (suc f) (suc g) depth xs h k = elim (Outcome-cases (parse_instr m xs)) [
  | inl ((i, rest), read) ↦ elim (Option-cases (next_depth i depth)) [
    | inl stop ↦ ground arith
    | inr (next, more) ↦
        let fewer = instr_takes m xs i rest read in
        rw (skip_end_loop, ◌>>=◌, read, more)
          (skip_end_loop-fuel m f g next rest (omega arith) (omega arith))
  ]
  | inr (inl (x, failed)) ↦ ground arith
  | inr (inr (inl failed)) ↦ ground arith
  | inr (inr (inr failed)) ↦ ground arith
]

module _ (m : Mode) (depth : ℕ) (xs : List ℕ) (i : Instr) (rest : List ℕ)
    (read : parse_instr m xs ≡ ok (i, rest)) where
  pub skip_to_end-stops : next_depth i depth ≡ none → skip_to_end m depth xs ≡ ok (tt, rest)
  unfolding skip_to_end skip_end_loop ◌>>=◌ pure
  skip_to_end-stops stop = ground arith

  pub skip_to_end-continues :
      (next : ℕ) → next_depth i depth ≡ some next → skip_to_end m depth xs ≡ skip_to_end m next rest
  unfolding skip_to_end skip_end_loop ◌>>=◌
  skip_to_end-continues next more =
      let fewer = instr_takes m xs i rest read in
      once
      ∙ skip_end_loop-fuel m (length xs) (suc (length rest)) next rest (omega arith) (omega arith)
    where
      once : skip_end_loop m (suc (length xs)) depth xs ≡ skip_end_loop m (length xs) next rest
      once = ground arith

skip_end_loop-ends :
    (m : Mode) (f depth : ℕ) (xs : List ℕ)
    → length xs < f
    → skip_end_loop m f depth xs ≢ out_of_fuel
unfolding skip_end_loop ◌>>=◌ pure
skip_end_loop-ends m zero depth xs h e = omega arith
skip_end_loop-ends m (suc f) depth xs h e = elim (Outcome-cases (parse_instr m xs)) [
  | inl ((i, rest), read) ↦ elim (Option-cases (next_depth i depth)) [
    | inl stop ↦ ground arith
    | inr (next, more) ↦
        let fewer = instr_takes m xs i rest read in
        skip_end_loop-ends m f next rest (omega arith) (ground arith)
  ]
  | inr (inl (x, failed)) ↦ ground arith
  | inr (inr (inl failed)) ↦ ground arith
  | inr (inr (inr failed)) ↦ instr_ends m xs failed
]

skip_to_end-ends : (m : Mode) (l : ℕ) (xs : List ℕ) → skip_to_end m l xs ≢ out_of_fuel
unfolding skip_to_end
skip_to_end-ends m l xs = skip_end_loop-ends m (suc (length xs)) l xs (omega arith)

skip_else_loop-ends :
    (m : Mode) (f depth : ℕ) (xs : List ℕ)
    → length xs < f
    → skip_else_loop m f depth xs ≢ out_of_fuel
unfolding skip_else_loop
skip_else_loop-ends m zero depth xs h e = omega arith
skip_else_loop-ends m (suc f) depth xs h e = elim (Outcome-cases (parse_instr m xs)) [
  | inl ((i, rest), read) ↦ elim (Option-cases (is_else i depth)) [
    | inl inside ↦ elim (Option-cases (next_depth i depth)) [
      | inl stop ↦ ground arith
      | inr (next, more) ↦
          let fewer = instr_takes m xs i rest read in
          skip_else_loop-ends m f next rest (omega arith) (ground arith)
    ]
    | inr (u, found) ↦ ground arith
  ]
  | inr (inl (x, failed)) ↦ ground arith
  | inr (inr (inl failed)) ↦ ground arith
  | inr (inr (inr failed)) ↦ instr_ends m xs failed
]

-- In both modes, `skip_to_else` does not run out of fuel.
skip_to_else-ends : (m : Mode) (xs : List ℕ) → skip_to_else m xs ≢ out_of_fuel
unfolding skip_to_else
skip_to_else-ends m xs = skip_else_loop-ends m (suc (length xs)) 0 xs (omega arith)
