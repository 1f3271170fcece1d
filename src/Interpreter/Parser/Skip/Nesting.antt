-- ===== src/Interpreter/Parser/Skip/Nesting.antt =====
-- crates/interpreter/src/parser.rs: what `skip_to_end` passes over: blocks that are closed, one in
-- another.
use wasefire.Base.{ℕ, zero, suc, ◌≡◌, ◌↔◌, refl, ◌∙◌, List, length, some, arith, Bool, true, false}
use wasefire.Interpreter.Mode.{Mode, check, use_, ok}
use wasefire.Interpreter.Syntax.Types.{Instr, block, loop, if_, end}
use wasefire.Interpreter.Parser.Core.{◌>>=◌, pure}
use wasefire.Interpreter.Parser.Instr.{parse_instr}
use wasefire.Interpreter.Parser.Parses.{bind-inv}
use wasefire.Interpreter.Parser.Parses.Instr.{parse_instr-Parses}
use wasefire.Interpreter.Parser.Skip.{next_depth, skip_end_loop, skip_to_end}
use wasefire.Interpreter.Parser.Skip.Rounds.{skip_to_end-stops, skip_to_end-continues}

-- The instructions that open a block. Those that neither open nor close one are plain.
abbrev pub opens : Instr → Bool
opens (block _) = true
opens (loop _) = true
opens (if_ _) = true
opens _ = false

abbrev pub plain : Instr → Bool
plain (block _) = false
plain (loop _) = false
plain (if_ _) = false
plain end = false
plain _ = true

-- The bytes `xs` hold the rest of a block with its `end`, before `rest`.
pub data Body (m : Mode) : List ℕ → List ℕ → Type 0 where
  close : {xs rest : List ℕ} → parse_instr m xs ≡ ok (end, rest) → Body m xs rest
  step :
      {xs mid rest : List ℕ} (i : Instr)
      → parse_instr m xs ≡ ok (i, mid)
      → plain i ≡ true
      → Body m mid rest
      → Body m xs rest
  nest :
      {xs mid mid' rest : List ℕ} (i : Instr)
      → parse_instr m xs ≡ ok (i, mid)
      → opens i ≡ true
      → Body m mid mid'
      → Body m mid' rest
      → Body m xs rest

-- The same for a block and `l` blocks around it.
pub data Bodies (m : Mode) : ℕ → List ℕ → List ℕ → Type 0 where
  last : {xs rest : List ℕ} → Body m xs rest → Bodies m 0 xs rest
  outer :
      {l : ℕ} {xs mid rest : List ℕ}
      → Body m xs mid
      → Bodies m l mid rest
      → Bodies m (suc l) xs rest

plain_depth : (i : Instr) (depth : ℕ) → plain i ≡ true → next_depth i depth ≡ some depth
unfolding next_depth
plain_depth i depth h = ground arith

opens_depth : (i : Instr) (depth : ℕ) → opens i ≡ true → next_depth i depth ≡ some (suc depth)
unfolding next_depth
opens_depth i depth h = ground arith

-- A block is passed over, whatever follows it.
pass-Body :
    (m : Mode) (xs rest : List ℕ) (l : ℕ)
    → Body m xs rest
    → skip_to_end m (suc l) xs ≡ skip_to_end m l rest
pass-Body m xs rest l (close read) =
    skip_to_end-continues m (suc l) xs end rest read l (unfold next_depth in refl)
pass-Body m xs rest l (step {mid} i read h body) =
    skip_to_end-continues m (suc l) xs i mid read (suc l) (plain_depth i (suc l) h)
    ∙ pass-Body m mid rest l body
pass-Body m xs rest l (nest {mid} {mid'} i read h inner body) =
    skip_to_end-continues m (suc l) xs i mid read (suc (suc l)) (opens_depth i (suc l) h)
    ∙ pass-Body m mid mid' (suc l) inner
    ∙ pass-Body m mid' rest l body

pass_last : (m : Mode) (xs rest : List ℕ) → Body m xs rest → skip_to_end m 0 xs ≡ ok (tt, rest)
pass_last m xs rest (close read) =
    skip_to_end-stops m 0 xs end rest read (unfold next_depth in refl)
pass_last m xs rest (step {mid} i read h body) =
    skip_to_end-continues m 0 xs i mid read 0 (plain_depth i 0 h) ∙ pass_last m mid rest body
pass_last m xs rest (nest {mid} {mid'} i read h inner body) =
    skip_to_end-continues m 0 xs i mid read 1 (opens_depth i 0 h)
    ∙ pass-Body m mid mid' 0 inner
    ∙ pass_last m mid' rest body

pub skip_to_end-Bodies :
    (m : Mode) (l : ℕ) (xs rest : List ℕ) → Bodies m l xs rest → skip_to_end m l xs ≡ ok (tt, rest)
skip_to_end-Bodies m zero xs rest (last body) = pass_last m xs rest body
skip_to_end-Bodies m (suc l) xs rest (outer {mid} body bodies) =
    pass-Body m xs mid l body ∙ skip_to_end-Bodies m l mid rest bodies

-- How an instruction moves the depth.
pub data Moves (i : Instr) : Type 0 where
  stays : plain i ≡ true → Moves i
  enters : opens i ≡ true → Moves i
  leaves : i ≡ end → Moves i

pub moves : (i : Instr) → Moves i
moves (block b) = enters refl
moves (loop b) = enters refl
moves (if_ b) = enters refl
moves end = leaves refl
moves _ = stays refl

pub step-Bodies :
    (m : Mode) (l : ℕ) {xs mid rest : List ℕ} (i : Instr)
    → parse_instr m xs ≡ ok (i, mid)
    → plain i ≡ true
    → Bodies m l mid rest
    → Bodies m l xs rest
step-Bodies m zero i read h (last body) = last (step i read h body)
step-Bodies m (suc l) i read h (outer body bodies) = outer (step i read h body) bodies

pub nest-Bodies :
    (m : Mode) (l : ℕ) {xs mid rest : List ℕ} (i : Instr)
    → parse_instr m xs ≡ ok (i, mid)
    → opens i ≡ true
    → Bodies m (suc l) mid rest
    → Bodies m l xs rest
nest-Bodies m zero i read h (outer inner (last body)) = last (nest i read h inner body)
nest-Bodies m (suc l) i read h (outer inner (outer body bodies)) =
    outer (nest i read h inner body) bodies

-- What is read first decides what a round passes over.
passed_first :
    (m : Mode) (f l : ℕ) (xs mid rest : List ℕ) (i : Instr)
    → parse_instr m xs ≡ ok (i, mid)
    → skip_end_loop m (suc f) l xs ≡ ok (tt, rest)
    → Moves i
    → ((depth : ℕ) → skip_end_loop m f depth mid ≡ ok (tt, rest) → Bodies m depth mid rest)
    → Bodies m l xs rest
unfolding skip_end_loop ◌>>=◌ next_depth pure
passed_first m f l xs mid rest i read e (stays h) later =
    let same = plain_depth i l h in step-Bodies m l i read h (later l (ground arith))
passed_first m f l xs mid rest i read e (enters h) later =
    let deeper = opens_depth i l h in nest-Bodies m l i read h (later (suc l) (ground arith))
passed_first m f zero xs mid rest i read e (leaves h) later = last (close (ground arith))
passed_first m f (suc l) xs mid rest i read e (leaves h) later =
    outer (close (ground arith)) (later l (ground arith))

-- A run of the loop that succeeds passed over blocks.
passed :
    (m : Mode) (f l : ℕ) (xs rest : List ℕ)
    → skip_end_loop m f l xs ≡ ok (tt, rest)
    → Bodies m l xs rest
unfolding skip_end_loop
passed m zero l xs rest e = absurd (ground arith)
passed m (suc f) l xs rest e =
    let (i, mid, read, after) = bind-inv (parse_instr m) _ xs tt rest e in
    passed_first m f l xs mid rest i read e (moves i) λ depth. passed m f depth mid rest

-- In both modes, `skip_to_end` for the label `l` succeeds and leaves `rest` exactly if the bytes
-- hold the rest of a block and of `l` blocks around it, each closed by its `end`, and then `rest`.
pub skip_to_end_iff :
    (m : Mode) (l : ℕ) (xs rest : List ℕ)
    → (skip_to_end m l xs ≡ ok (tt, rest)) ↔ Bodies m l xs rest
unfolding skip_to_end
skip_to_end_iff m l xs rest = (passed m (suc (length xs)) l xs rest, skip_to_end-Bodies m l xs rest)

-- What the mode `Check` reads as blocks, the mode `Use` does too.
Body-agrees : (xs rest : List ℕ) → Body check xs rest → Body use_ xs rest
Body-agrees xs rest (close read) = close (parse_instr-Parses.agrees xs end rest read)
Body-agrees xs rest (step {mid} i read h body) =
    step i (parse_instr-Parses.agrees xs i mid read) h (Body-agrees mid rest body)
Body-agrees xs rest (nest {mid} {mid'} i read h inner body) =
    nest i (parse_instr-Parses.agrees xs i mid read) h (Body-agrees mid mid' inner)
      (Body-agrees mid' rest body)

pub Bodies-agree : (l : ℕ) (xs rest : List ℕ) → Bodies check l xs rest → Bodies use_ l xs rest
Bodies-agree zero xs rest (last body) = last (Body-agrees xs rest body)
Bodies-agree (suc l) xs rest (outer {mid} body bodies) =
    outer (Body-agrees xs mid body) (Bodies-agree l mid rest bodies)
