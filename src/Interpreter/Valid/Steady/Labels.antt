-- ===== src/Interpreter/Valid/Steady/Labels.antt =====
-- crates/interpreter/src/valid.rs: the methods that branch, open and close labels.
use wasefire.Base.{ℕ, ◌≤◌, ◌≡◌, refl, subst, inl, inr, List, [], ◌∷◌, length, arith}
use wasefire.Interpreter.Mode.{Outcome}
use wasefire.Interpreter.Syntax.Types.{BlockType, ValType, ResultType, FuncType}
use wasefire.Interpreter.Parser.Parses.{Outcome-cases}
use wasefire.Interpreter.Valid.Context.{type_}
use wasefire.Interpreter.Valid.OpdType.{OpdType}
use wasefire.Interpreter.Valid.Method.{
  LabelKind, Label, Expr, ◌>>=◌, ◌>>◌, pure, require, gets, asks, on_label, pushs, pushs_on, extend,
  lift,
}
use wasefire.Interpreter.Valid.Labels.{
  filled, for_each_on, for_each, swap_opd, swaps, peek_opd, peeks, add_label, push_label, pop_label,
  is_empty, close_label, end_label, branch_of, br_label, call, peek_labels, outermost, blocktype,
  take_if_on, restart_on, else_label,
}
use mathlib.Core.List.{reverse}
use wasefire.Interpreter.Valid.Steady.{
  Kept, Decides, Decides-ok, Decides-err, Decides-if, Steady, Steady-asks, Steady-on_label,
  Steady-bind, Steady-then, Steady-if, Steady-pure, Steady-require, List-cases,
}
use wasefire.Interpreter.Valid.Steady.Methods.{
  lookup-Decides, unify-Decides, each-Decides, label-Steady, pops-Steady, stack_rules,
}

filled-Decides : (ts : ResultType) (l : Label) → Decides (filled ts l)
unfolding filled
filled-Decides ts l = search (Decides-if, Decides-ok, Decides-err)

for_each_on-Decides :
    (f : OpdType → ValType → Outcome OpdType)
    → ((x : OpdType) (y : ValType) → Decides (f x y))
    → (ts : ResultType) (l : Label) → Decides (for_each_on f ts l)
unfolding for_each_on
for_each_on-Decides f h ts l =
    let full = filled-Decides ts l in
    elim (Outcome-cases (filled ts l)) [
      | inl (stack, done) ↦
          let later = each-Decides f h stack (reverse ts) in
          record { safe = λ e. later.safe (ground arith); ends = λ e. later.ends (ground arith) }
      | inr (inl (z, failed)) ↦ record { safe = λ e. ground arith; ends = λ e. ground arith }
      | inr (inr (inl failed)) ↦ absurd (full.safe failed)
      | inr (inr (inr failed)) ↦ absurd (full.ends failed)
    ]

peek_opd-Decides : (x : OpdType) (y : ValType) → Decides (peek_opd x y)
unfolding peek_opd
peek_opd-Decides x y = search (Decides-if, Decides-ok, Decides-err)

swap_opd-Decides : (x : OpdType) (y : ValType) → Decides (swap_opd x y)
unfolding swap_opd
swap_opd-Decides x y = unify-Decides x _

pub peeks-Steady : (ts : ResultType) → Steady 0 0 (peeks ts)
unfolding peeks for_each
peeks-Steady ts = Steady-on_label _ (for_each_on-Decides peek_opd peek_opd-Decides ts)

pub swaps-Steady : (ts : ResultType) → Steady 0 0 (swaps ts)
unfolding swaps for_each
swaps-Steady ts = Steady-on_label _ (for_each_on-Decides swap_opd swap_opd-Decides ts)

branch_of-Decides : (x : ℕ) (e : Expr) → Decides (branch_of x e)
unfolding branch_of
branch_of-Decides x e = record { safe = λ h. ground arith; ends = λ h. ground arith }

pub br_label-Steady : (x : ℕ) → Steady 0 0 (br_label x)
unfolding br_label
br_label-Steady x = Steady-asks (branch_of x) λ e r. branch_of-Decides x e

pub call-Steady : (t : FuncType) → Steady 0 0 (call t)
unfolding call
call-Steady t = search stack_rules

pub peek_labels-Steady : (n : ℕ) (ls : List ℕ) → Steady 0 0 (peek_labels n ls)
unfolding peek_labels
peek_labels-Steady n [] = Steady-pure tt
peek_labels-Steady n (l ∷ ls) = Steady-bind _ _ 0 0 (br_label-Steady l) λ t.
    Steady-then 0 0 _ _ (Steady-require _)
      (Steady-then 0 0 _ _ (peeks-Steady t) (peek_labels-Steady n ls))

outermost-Decides : (ls : List Label) → 1 ≤ length ls → Decides (outermost ls)
unfolding outermost
outermost-Decides [] h = absurd (omega arith)
outermost-Decides (l ∷ []) h = Decides-ok l
outermost-Decides (l ∷ m ∷ ls) h = outermost-Decides (m ∷ ls) (omega arith)

pub outermost-Steady : Steady 0 0 (asks λ e. outermost e.labels)
outermost-Steady = Steady-asks _ λ e r. outermost-Decides e.labels r.labelled

blocktype-Decides : (b : BlockType) (e : Expr) → Decides (blocktype b e)
unfolding blocktype type_
blocktype-Decides BlockType.none e = Decides-ok _
blocktype-Decides (BlockType.type t) e = Decides-ok _
blocktype-Decides (BlockType.index x) e = lookup-Decides e.context.types x

pub blocktype-Steady : (b : BlockType) → Steady 0 0 (asks (blocktype b))
blocktype-Steady b = Steady-asks (blocktype b) λ e r. blocktype-Decides b e

take_if-Steady : Steady 0 0 (on_label take_if_on)
unfolding take_if_on
take_if-Steady = Steady-on_label take_if_on λ l. search (Decides-if, Decides-ok, Decides-err)

restart-Steady : Steady 0 0 (on_label restart_on)
unfolding restart_on
restart-Steady = Steady-on_label restart_on λ l. search (Decides-if, Decides-ok, Decides-err)

pub else_label-Steady : Steady 0 0 else_label
unfolding else_label
else_label-Steady = search (take_if-Steady, restart-Steady, stack_rules)

add_label-Steady : (l : Label) → Steady 1 0 (add_label l)
unfolding add_label
add_label-Steady l = record {
  decides = λ e r. Decides-ok _;
  keeps = λ e a e' r h.
      let same : record e { labels = l ∷ e.labels } ≡ e' = ground arith in
      subst (Kept 1 0 e) same
        (record { context = refl; globals_len = refl; refs = refl; labels = ground arith });
}

pub push_label-Steady : (t : FuncType) (kind : LabelKind) → Steady 1 0 (push_label t kind)
unfolding push_label
push_label-Steady t kind = Steady-then 1 0 _ _ (pops-Steady t.params) (add_label-Steady _)

-- The label is taken away, and the results are pushed if another is below it.
close_label-Steady : (results : ResultType) → Steady 0 1 (close_label results)
unfolding close_label pop_label ◌>>=◌ ◌>>◌ require lift gets pure pushs on_label pushs_on is_empty
close_label-Steady results = record {
  decides = λ e r. elim (List-cases e.labels) [
    | inl bare ↦ absurd (ground (arith, r.labelled))
    | inr (l, [], found) ↦ record { safe = λ h. ground arith; ends = λ h. ground arith }
    | inr (l, m ∷ ls, found) ↦ record { safe = λ h. ground arith; ends = λ h. ground arith }
  ];
  keeps = λ e a e' r h. elim (List-cases e.labels) [
    | inl bare ↦ absurd (ground arith)
    | inr (l, [], found) ↦
        let same : record e { labels = [] } ≡ e' = ground arith in
        subst (Kept 0 1 e) same
          (record { context = refl; globals_len = refl; refs = refl; labels = ground arith })
    | inr (l, m ∷ ls, found) ↦
        let below : Label = record m { stack = extend results m.stack } in
        let same : record e { labels = below ∷ ls } ≡ e' = ground arith in
        subst (Kept 0 1 e) same
          (record { context = refl; globals_len = refl; refs = refl; labels = ground arith })
  ];
}

pub end_label-Steady : Steady 0 1 end_label
unfolding end_label
end_label-Steady = Steady-bind _ _ 0 1 label-Steady λ l.
    Steady-then 0 1 _ _ (Steady-if 0 0 _ _ _ (Steady-require _) (Steady-pure tt))
      (Steady-then 0 1 _ _ (pops-Steady l.type_.results) (close_label-Steady l.type_.results))
