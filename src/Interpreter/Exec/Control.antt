-- ===== src/Interpreter/Exec/Control.antt =====
-- crates/interpreter/src/exec.rs: the methods of `Thread` on labels and frames.
use wasefire.Base.{
  ℕ, suc, List, [], ◌∷◌, ◌++◌, length, take, drop, get_elem?, none, some, leb, ltb, ◌==◌,
  if◌then◌else◌,
}
use wasefire.Interpreter.Mode.{Outcome, ok, err, fault, out_of_fuel, use_}
use wasefire.Interpreter.Syntax.Types.{FuncType, BlockType}
use wasefire.Interpreter.Parser.Skip
use wasefire.Interpreter.Module.{Module, nth_type}
use wasefire.Interpreter.Exec.Values.{Val}
use wasefire.Interpreter.Exec.State.{
  LabelKind, Label, Frame, Thread, reversed, Method, ◌>>=◌, on_labels, pop_values, restore, read,
}

pub data ThreadResult : Type 0 where
  continue_ : Thread → ThreadResult
  done : List Val → ThreadResult
  host : ThreadResult

unfoldable pub blocktype : Module → BlockType → Outcome FuncType
blocktype m BlockType.none = ok (record { params = []; results = [] })
blocktype m (BlockType.type t) = ok (record { params = []; results = t ∷ [] })
blocktype m (BlockType.index x) = nth_type m x

unfoldable pub label_arity : FuncType → LabelKind → ℕ
label_arity t LabelKind.block = length t.results
label_arity t LabelKind.if_ = length t.results
label_arity t (LabelKind.loop _) = length t.params

-- The parameters of the block move to its label.
unfoldable pub push_label : FuncType → LabelKind → Method (Unit {0})
push_label t kind = do
  values ← pop_values (length t.params)
  on_labels λ labels.
      ok (tt, record { arity = label_arity t kind; kind = kind; values = reversed values } ∷ labels)

-- The results of a frame, which go to the frame below it.
unfoldable pub return_values : List Val → List Frame → List ℕ → Outcome ThreadResult
return_values values [] ret = ok (ThreadResult.done (reversed values))
return_values values (f ∷ frames) ret = elim f.labels [
  | [] ↦ fault
  | l ∷ labels ↦ ok (
      ThreadResult.continue_ (record {
        parser = ret;
        frames = record f { labels = record l { values = values ++ l.values } ∷ labels } ∷ frames;
      }))
]

unfoldable pub exit_frame : Thread → Outcome ThreadResult
exit_frame t = elim t.frames [
  | [] ↦ fault
  | f ∷ frames ↦ elim f.labels [
    | [] ↦ fault
    | l ∷ labels ↦
        if leb f.arity (length l.values)
        then return_values (take f.arity l.values) frames f.ret
        else fault
  ]
]

-- The values of a label that ends go to the one below it.
unfoldable pub exit_label : Thread → Outcome ThreadResult
exit_label t = elim t.frames [
  | [] ↦ fault
  | f ∷ frames ↦ elim f.labels [
    | [] ↦ fault
    | l ∷ labels ↦ elim labels [
      | [] ↦ return_values l.values frames f.ret
      | below ∷ rest ↦ ok (
          ThreadResult.continue_ (record t {
            frames =
                record f { labels = record below { values = l.values ++ below.values } ∷ rest }
                ∷ frames;
          }))
    ]
  ]
]

unfoldable pub skip_to_else : Method (Unit {0})
skip_to_else = read (Skip.skip_to_else use_)

unfoldable pub skip_to_end : ℕ → Method (Unit {0})
skip_to_end l = read (Skip.skip_to_end use_ l)

-- Where a branch goes on: a loop before its instruction, and a block after its end.
unfoldable pub follow : LabelKind → ℕ → Method (Unit {0})
follow (LabelKind.loop pos) l = restore pos
follow LabelKind.block l = skip_to_end l
follow LabelKind.if_ l = skip_to_end l

unfoldable pub continue_with : Method (Unit {0}) → Thread → Outcome ThreadResult
continue_with p t = elim (p t) [
  | ok (_, t') ↦ ok (ThreadResult.continue_ t')
  | err e ↦ err e
  | fault ↦ fault
  | out_of_fuel ↦ out_of_fuel
]

-- The values of the last label that a branch to `target` keeps, on the label below `target`.
unfoldable pub drop_labels : ℕ → List Label → Outcome (LabelKind × List Label)
drop_labels l [] = fault
drop_labels l (last ∷ labels) = elim (get_elem? (last ∷ labels) l) [
  | none ↦ fault
  | some target ↦ elim (drop l labels) [
    | [] ↦ fault
    | below ∷ rest ↦
        if leb target.arity (length last.values)
        then ok (
          target.kind,
          record below { values = take target.arity last.values ++ below.values } ∷ rest,
        )
        else fault
  ]
]

-- `pop_label`, a branch. The first label of a frame is the frame.
unfoldable pub pop_label : ℕ → Thread → Outcome ThreadResult
pop_label l t = elim t.frames [
  | [] ↦ fault
  | f ∷ frames ↦
      if suc l == length f.labels
      then exit_frame t
      else if ltb l (length f.labels)
      then continue_with (do kind ← on_labels (drop_labels l); follow kind l) t
      else fault
]
