-- ===== src/Interpreter/Valid/Rounds.antt =====
-- crates/interpreter/src/valid.rs: the rounds of `check_loop`.
use wasefire.Base.{
  ℕ, zero, suc, ◌≤◌, ◌<◌, ◌≡◌, refl, ◌∙◌, ap, sym, subst, ◌⊎◌, inl, inr, List, length, true,
  le_or_lt, arith,
}
use wasefire.Interpreter.Mode.{ok, check}
use wasefire.Interpreter.Syntax.Types.{Instr}
use wasefire.Interpreter.Parser.Core.{◌>>=◌, pure, lift}
use wasefire.Interpreter.Parser.Instr.{parse_instr}
use wasefire.Interpreter.Parser.Parses.{Outcome-cases, bind-inv}
use wasefire.Interpreter.Parser.Parses.Instr.{parse_instr-Parses}
use wasefire.Interpreter.Parser.Skip.Nesting.{
  opens, plain, Bodies, close, last, outer, Moves, stays, enters, leaves, moves, step-Bodies,
  nest-Bodies,
}
use wasefire.Interpreter.Parser.Skip.Rounds.{instr_takes}
use wasefire.Interpreter.Valid.Method.{Expr}
use wasefire.Interpreter.Valid.Instr.{instr}
use wasefire.Interpreter.Valid.Check.{check_step, check_loop}
use wasefire.Interpreter.Valid.Steady.{Ready, Kept, Decides, List-cases}
use wasefire.Interpreter.Valid.Steady.Instr.{instr-opens, instr-plain, instr-end}

Ready-moved :
    (up down : ℕ) (e e' : Expr) → Kept up down e e' → Ready e → 1 ≤ length e'.labels → Ready e'
Ready-moved up down e e' k r more = record {
  labelled = more;
  globals = ground (arith, k.context, k.globals_len, r.globals);
  refs = ground (arith, k.context, k.refs, r.refs);
}

instr-Decides : (i : Instr) (e : Expr) → Ready e → Moves i → Decides (instr i e)
instr-Decides i e r (stays h) = (instr-plain i h).decides e r
instr-Decides i e r (enters h) = (instr-opens i h).decides e r
instr-Decides i e r (leaves h) = subst (λ j. Decides (instr j e)) (sym h) (instr-end.decides e r)

-- What one instruction does to the labels.
data Moved (i : Instr) (e e' : Expr) : Type 0 where
  stayed : plain i ≡ true → Kept 0 0 e e' → Moved i e e'
  entered : opens i ≡ true → Kept 1 0 e e' → Moved i e e'
  left : i ≡ Instr.end → Kept 0 1 e e' → Moved i e e'

Moved-refs : (i : Instr) (e e' : Expr) → Moved i e e' → length e'.refs ≡ length e.refs
Moved-refs i e e' (stayed h k) = k.refs
Moved-refs i e e' (entered h k) = k.refs
Moved-refs i e e' (left h k) = k.refs

instr-Moved :
    (i : Instr) (e : Expr) (u : Unit {0}) (e' : Expr)
    → Ready e
    → instr i e ≡ ok (u, e')
    → Moves i
    → Moved i e e'
instr-Moved i e u e' r done (stays h) = stayed h ((instr-plain i h).keeps e u e' r done)
instr-Moved i e u e' r done (enters h) = entered h ((instr-opens i h).keeps e u e' r done)
instr-Moved i e u e' r done (leaves h) =
    left h (instr-end.keeps e u e' r (subst (λ j. instr j e ≡ ok (u, e')) h done))

check_step-Decides : (e : Expr) (xs : List ℕ) → Ready e → Decides (check_step e xs)
unfolding check_step ◌>>=◌ lift pure
check_step-Decides e xs r = elim (Outcome-cases (parse_instr check xs)) [
  | inl ((i, mid), read) ↦
      let decided = instr-Decides i e r (moves i) in
      elim (Outcome-cases (instr i e)) [
        | inl ((u, e'), done) ↦ record { safe = λ h. ground arith; ends = λ h. ground arith }
        | inr (inl (x, failed)) ↦ record { safe = λ h. ground arith; ends = λ h. ground arith }
        | inr (inr (inl failed)) ↦ absurd (decided.safe failed)
        | inr (inr (inr failed)) ↦ absurd (decided.ends failed)
      ]
  | inr (inl (x, failed)) ↦ record { safe = λ h. ground arith; ends = λ h. ground arith }
  | inr (inr (inl failed)) ↦ absurd (parse_instr-Parses.safe xs failed)
  | inr (inr (inr failed)) ↦ absurd (parse_instr-Parses.ends xs failed)
]

check_step-inv :
    (e : Expr) (xs : List ℕ) (e' : Expr) (mid : List ℕ)
    → check_step e xs ≡ ok (e', mid)
    → (i : Instr) × (parse_instr check xs ≡ ok (i, mid)) × (instr i e ≡ ok (tt, e'))
unfolding check_step ◌>>=◌ lift pure
check_step-inv e xs e' mid h = elim (Outcome-cases (parse_instr check xs)) [
  | inl ((i, now), read) ↦ elim (Outcome-cases (instr i e)) [
    | inl ((tt, e''), done) ↦ (i, ground arith, ground arith)
    | inr (inl (x, failed)) ↦ absurd (ground arith)
    | inr (inr (inl failed)) ↦ absurd (ground arith)
    | inr (inr (inr failed)) ↦ absurd (ground arith)
  ]
  | inr (inl (x, failed)) ↦ absurd (ground arith)
  | inr (inr (inl failed)) ↦ absurd (ground arith)
  | inr (inr (inr failed)) ↦ absurd (ground arith)
]

-- Either no label is left, or the state is ready for an instruction.
pub Going : Expr → Type 0
Going e = (length e.labels ≡ 0) ⊎ Ready e

pub Going-Ready : (e : Expr) → Ready e → Going e
unfolding Going
Going-Ready e r = inr r

Going-check_step :
    (e e' : Expr) (xs mid : List ℕ) → Ready e → check_step e xs ≡ ok (e', mid) → Going e'
unfolding Going
Going-check_step e e' xs mid r h =
    let (i, read, done) = check_step-inv e xs e' mid h in
    elim (instr-Moved i e tt e' r done (moves i)) [
      | stayed p k ↦ inr (Ready-moved 0 0 e e' k r (omega (arith, k.labels, r.labelled)))
      | entered p k ↦ inr (Ready-moved 1 0 e e' k r (omega (arith, k.labels, r.labelled)))
      | left p k ↦ elim (le_or_lt 1 (length e'.labels)) [
        | inl more ↦ inr (Ready-moved 0 1 e e' k r more)
        | inr empty ↦ inl (omega arith)
      ]
    ]

step_takes :
    (e e' : Expr) (xs mid : List ℕ) → check_step e xs ≡ ok (e', mid) → length mid < length xs
step_takes e e' xs mid h =
    let (i, read, done) = check_step-inv e xs e' mid h in instr_takes check xs i mid read

-- A loop with more fuel than bytes.
pub check_loop-Decides :
    (fuel : ℕ) (e : Expr) (xs : List ℕ)
    → length xs < fuel
    → Going e
    → Decides (check_loop fuel e xs)
unfolding check_loop ◌>>=◌ pure Going
check_loop-Decides zero e xs h going = absurd (omega arith)
check_loop-Decides (suc fuel) e xs h going = elim (List-cases e.labels) [
  | inl bare ↦ record { safe = λ x. ground arith; ends = λ x. ground arith }
  | inr (l, ls, found) ↦
      let r : Ready e = elim going [ inl ended ↦ absurd (ground arith) | inr r ↦ r ] in
      let first = check_step-Decides e xs r in
      elim (Outcome-cases (check_step e xs)) [
        | inl ((e', mid), done) ↦
            let fewer = step_takes e e' xs mid done in
            let later =
              check_loop-Decides fuel e' mid (omega arith) (Going-check_step e e' xs mid r done) in
            record { safe = λ x. later.safe (ground arith); ends = λ x. later.ends (ground arith) }
        | inr (inl (x, failed)) ↦ record { safe = λ y. ground arith; ends = λ y. ground arith }
        | inr (inr (inl failed)) ↦ absurd (first.safe failed)
        | inr (inr (inr failed)) ↦ absurd (first.ends failed)
      ]
]

-- Once no label is left, nothing more is read.
loop_done :
    (fuel : ℕ) (e e' : Expr) (xs rest : List ℕ)
    → length e.labels ≡ 0
    → check_loop fuel e xs ≡ ok (e', rest)
    → xs ≡ rest
unfolding check_loop pure
loop_done zero e e' xs rest h done = absurd (ground arith)
loop_done (suc fuel) e e' xs rest h done = elim (List-cases e.labels) [
  | inl bare ↦ ground arith
  | inr (l, ls, found) ↦ absurd (ground arith)
]

-- A round of the loop, as its first instruction and the rounds after it.
loop-inv :
    (fuel : ℕ) (e e' : Expr) (xs rest : List ℕ)
    → 1 ≤ length e.labels
    → check_loop (suc fuel) e xs ≡ ok (e', rest)
    → (mid : Expr) × (ys : List ℕ) × (check_step e xs ≡ ok (mid, ys))
      × (check_loop fuel mid ys ≡ ok (e', rest))
loop-inv fuel e e' xs rest h done = elim (List-cases e.labels) [
  | inl bare ↦ absurd (ground arith)
  | inr (l, ls, found) ↦
      bind-inv (check_step e) (check_loop fuel) xs e' rest (unfold check_loop in ground arith)
]

-- An `end` closes the first of the blocks.
close-Bodies :
    (l : ℕ) (xs ys rest : List ℕ)
    → parse_instr check xs ≡ ok (Instr.end, ys)
    → (l ≡ 0 → ys ≡ rest)
    → ((k : ℕ) → l ≡ suc k → Bodies check k ys rest)
    → Bodies check l xs rest
close-Bodies zero xs ys rest read h later =
    last (close (read ∙ ap (λ zs. ok (Instr.end, zs)) (h refl)))
close-Bodies (suc l) xs ys rest read h later = outer (close read) (later l refl)

pub check_loop-Bodies :
    (fuel l : ℕ) (e e' : Expr) (xs rest : List ℕ)
    → Ready e
    → length e.labels ≡ suc l
    → check_loop fuel e xs ≡ ok (e', rest)
    → Bodies check l xs rest
check_loop-Bodies zero l e e' xs rest r count done = absurd (unfold check_loop in ground arith)
check_loop-Bodies (suc fuel) l e e' xs rest r count done =
    let (mid, ys, first, after) = loop-inv fuel e e' xs rest r.labelled done in
    let (i, read, step) = check_step-inv e xs mid ys first in
    elim (instr-Moved i e tt mid r step (moves i)) [
      | stayed p k ↦ step-Bodies check l i read p (
          check_loop-Bodies fuel l mid e' ys rest
            (Ready-moved 0 0 e mid k r (omega (arith, k.labels))) (omega (arith, k.labels)) after)
      | entered p k ↦ nest-Bodies check l i read p (
          check_loop-Bodies fuel (suc l) mid e' ys rest
            (Ready-moved 1 0 e mid k r (omega (arith, k.labels))) (omega (arith, k.labels)) after)
      | left p k ↦
          close-Bodies l xs ys rest (read ∙ ap (λ j. ok (j, ys)) p)
            (λ none_left. loop_done fuel mid e' ys rest (omega (arith, k.labels)) after)
            (λ more some_left.
              check_loop-Bodies fuel more mid e' ys rest
                (Ready-moved 0 1 e mid k r (omega (arith, k.labels))) (omega (arith, k.labels))
                after)
    ]

-- The length of `refs` is kept.
pub check_loop-refs :
    (fuel : ℕ) (e e' : Expr) (xs rest : List ℕ)
    → Going e
    → check_loop fuel e xs ≡ ok (e', rest)
    → length e'.refs ≡ length e.refs
unfolding Going check_loop pure
check_loop-refs zero e e' xs rest going done = absurd (ground arith)
check_loop-refs (suc fuel) e e' xs rest going done = elim (List-cases e.labels) [
  | inl bare ↦ let same : e ≡ e' = ground arith in ap (λ x. length x.refs) (sym same)
  | inr (l, ls, found) ↦
      let r : Ready e = elim going [ inl ended ↦ absurd (ground arith) | inr r ↦ r ] in
      let (mid, ys, first, after) = loop-inv fuel e e' xs rest r.labelled done in
      let (i, read, step) = check_step-inv e xs mid ys first in
      check_loop-refs fuel mid e' ys rest (Going-check_step e mid xs ys r first) after
      ∙ Moved-refs i e mid (instr-Moved i e tt mid r step (moves i))
]
