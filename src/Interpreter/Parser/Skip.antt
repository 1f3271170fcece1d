-- ===== src/Interpreter/Parser/Skip.antt =====
-- crates/interpreter/src/parser.rs: `skip_to_else` and `skip_to_end`, with fuel for their rounds.
pub mod Rounds
pub mod Nesting
use wasefire.Base.{ℕ, zero, suc, ◌+◌, List, length, Option, none, some}
use wasefire.Interpreter.Mode.{Mode, Outcome, ok, err, fault, out_of_fuel}
use wasefire.Interpreter.Syntax.Types.{Instr, block, loop, if_, else_, end}
use wasefire.Interpreter.Parser.Core.{Parser, ◌>>=◌, pure}
use wasefire.Interpreter.Parser.Instr.{parse_instr}

-- What one instruction does to the depth: `none` closes the block of depth 0.
unfoldable pub next_depth : Instr → ℕ → Option ℕ
next_depth (block _) depth = some (suc depth)
next_depth (loop _) depth = some (suc depth)
next_depth (if_ _) depth = some (suc depth)
next_depth end zero = none
next_depth end (suc depth) = some depth
next_depth _ depth = some depth

-- The loop of `skip_to_end`, whose depth is one more than here.
unfoldable pub skip_end_loop : Mode → ℕ → ℕ → Parser (Unit {0})
skip_end_loop m zero depth = λ xs. out_of_fuel
skip_end_loop m (suc fuel) depth = do
  instr ← parse_instr m
  elim (next_depth instr depth) [ none ↦ pure tt | some depth' ↦ skip_end_loop m fuel depth' ]

-- A round takes a byte at least, so there are no more rounds than bytes.
unfoldable pub skip_to_end : Mode → ℕ → Parser (Unit {0})
skip_to_end m l xs = skip_end_loop m (suc (length xs)) l xs

unfoldable pub is_else : Instr → ℕ → Option (Unit {0})
is_else else_ zero = some tt
is_else _ _ = none

-- The loop of `skip_to_else`. Before an `end` it restores the bytes.
unfoldable pub skip_else_loop : Mode → ℕ → ℕ → Parser (Unit {0})
skip_else_loop m zero depth xs = out_of_fuel
skip_else_loop m (suc fuel) depth xs = elim (parse_instr m xs) [
  | ok (instr, rest) ↦ elim (is_else instr depth) [
    | some _ ↦ ok (tt, rest)
    | none ↦ elim (next_depth instr depth) [
      | none ↦ ok (tt, xs)
      | some depth' ↦ skip_else_loop m fuel depth' rest
    ]
  ]
  | err e ↦ err e
  | fault ↦ fault
  | out_of_fuel ↦ out_of_fuel
]

unfoldable pub skip_to_else : Mode → Parser (Unit {0})
skip_to_else m xs = skip_else_loop m (suc (length xs)) 0 xs
