-- ===== src/Interpreter/Parser/Parses/Instr.antt =====
-- crates/interpreter/src/parser.rs: the rules for instructions.
use wasefire.Base.{
  ◌∷◌, length, ℕ, zero, suc, ◌-◌, ◌/◌, ◌%◌, ◌≤◌, ◌<◌, ◌≡◌, ◌≢◌, ◌&&◌, true, leb, none, List, arith,
}
use wasefire.Interpreter.Mode.{check, use_, ok, fault, out_of_fuel}
use wasefire.Interpreter.Syntax.Types.{Instr}
use wasefire.Interpreter.Syntax.Bytes.{sx_of, nx_of, bx_of, irel_of, iun_of, ibin_of}
use wasefire.Interpreter.Parser.Instr.{
  parse_zero, parse_two_zeros, with_index, with_indices, parse_labels, parse_br_table,
  parse_control, parse_variable, parse_memory, parse_comparison, parse_arithmetic, parse_numeric,
  parse_bulk, parse_reference, parse_opcode, parse_instr,
}
use wasefire.Interpreter.Parser.Parses.{
  Parses, Parses-bind, Parses-if, Parses-weaken, Parses-total_bind, Parses-if_true, Parses-pure,
}
use wasefire.Interpreter.Parser.Parses.Bytes.{parse_byte-Parses}
use wasefire.Interpreter.Parser.Parses.Integers.{i32_later, i64_later}
use wasefire.Interpreter.Parser.Parses.Types.{
  integer_rules, u32_later, memarg_later, blocktype_later, resulttype_later, reftype_later,
}

zero_later : Parses 0 (parse_zero check) (parse_zero use_)
unfolding parse_zero
zero_later = Parses-weaken 1 _ _ (search integer_rules)

two_zeros_later : Parses 0 (parse_two_zeros check) (parse_two_zeros use_)
unfolding parse_two_zeros
two_zeros_later = search integer_rules

with_index-Parses : (make : ℕ → Instr) → Parses 0 (with_index check make) (with_index use_ make)
unfolding with_index
with_index-Parses make = search integer_rules

with_indices-Parses :
    (make : ℕ → ℕ → Instr) → Parses 0 (with_indices check make) (with_indices use_ make)
unfolding with_indices
with_indices-Parses make = search integer_rules

parse_labels-Parses : (n : ℕ) → Parses 0 (parse_labels check n) (parse_labels use_ n)
unfolding parse_labels
parse_labels-Parses zero = search integer_rules
parse_labels-Parses (suc n) =
    Parses-bind 0 _ _ _ _ u32_later
      λ l. Parses-bind 0 _ _ _ _ (parse_labels-Parses n) λ ls. Parses-pure (l ∷ ls)

parse_br_table-Parses : Parses 0 (parse_br_table check) (parse_br_table use_)
unfolding parse_br_table
parse_br_table-Parses = search (parse_labels-Parses, integer_rules)

ruleset operand_rules = (
  zero_later, two_zeros_later, with_index-Parses, with_indices-Parses, parse_br_table-Parses,
  memarg_later, blocktype_later, resulttype_later, reftype_later, i32_later, i64_later,
  integer_rules,
)

parse_control-Parses : (x : ℕ) → Parses 0 (parse_control check x) (parse_control use_ x)
unfolding parse_control
parse_control-Parses x = search operand_rules depth 30

parse_variable-Parses : (x : ℕ) → Parses 0 (parse_variable check x) (parse_variable use_ x)
unfolding parse_variable
parse_variable-Parses x = search operand_rules depth 30

parse_bulk-Parses : (x : ℕ) → Parses 0 (parse_bulk check x) (parse_bulk use_ x)
unfolding parse_bulk
parse_bulk-Parses x = search operand_rules depth 30

parse_reference-Parses : (x : ℕ) → Parses 0 (parse_reference check x) (parse_reference use_ x)
unfolding parse_reference
parse_reference-Parses x = search (parse_bulk-Parses, operand_rules) depth 30

-- The conversions of parts of an opcode are total where the code uses them.
nx_total : (x : ℕ) → x ≤ 1 → nx_of x ≢ none
unfolding nx_of
nx_total x h e = ground arith

-- A test that an opcode is in a range.
in_range : (a b x : ℕ) → (leb a x && leb x b) ≡ true → x - a ≤ b - a
in_range a b x h = ground arith

sx_total : (x : ℕ) → x ≤ 1 → sx_of x ≢ none
unfolding sx_of
sx_total x h e = ground arith

bx_total : (x : ℕ) → x ≤ 4 → bx_of x ≢ none
unfolding bx_of
bx_total x h e = ground arith

irel_total : (x : ℕ) → x ≤ 9 → irel_of x ≢ none
unfolding irel_of
irel_total x h e = ground arith

iun_total : (x : ℕ) → x ≤ 2 → iun_of x ≢ none
unfolding iun_of
iun_total x h e = ground arith

ibin_total : (x : ℕ) → x ≤ 14 → ibin_of x ≢ none
unfolding ibin_of
ibin_total x h e = ground arith

-- What the tests on the opcode say of the parts that are converted.
i_load_nx : (x : ℕ) → (leb 0x28 x && leb x 0x29) ≡ true → nx_of (x - 0x28) ≢ none
i_load_nx x h = nx_total (x - 0x28) (in_range 0x28 0x29 x h)

i_load_bx : (x : ℕ) → (leb 0x2c x && leb x 0x35) ≡ true → bx_of ((x - 0x2c) / 2) ≢ none
i_load_bx x h = bx_total ((x - 0x2c) / 2) (omega (arith, in_range 0x2c 0x35 x h))

i_load_sx : (x : ℕ) → sx_of ((x - 0x2c) % 2) ≢ none
i_load_sx x = sx_total ((x - 0x2c) % 2) (omega arith)

i_store_nx : (x : ℕ) → (leb 0x36 x && leb x 0x37) ≡ true → nx_of (x - 0x36) ≢ none
i_store_nx x h = nx_total (x - 0x36) (in_range 0x36 0x37 x h)

i_store_bx : (x : ℕ) → (leb 0x3a x && leb x 0x3e) ≡ true → bx_of (x - 0x3a) ≢ none
i_store_bx x h = bx_total (x - 0x3a) (in_range 0x3a 0x3e x h)

extend_sx : (x : ℕ) → (leb 0xac x && leb x 0xad) ≡ true → sx_of (x - 0xac) ≢ none
extend_sx x h = sx_total (x - 0xac) (in_range 0xac 0xad x h)

i_extend_bx : (x : ℕ) → (leb 0xc0 x && leb x 0xc4) ≡ true → bx_of (x - 0xc0) ≢ none
i_extend_bx x h = bx_total (x - 0xc0) (in_range 0xc0 0xc4 x h)

parse_comparison-Parses : (y : ℕ) → y ≤ 21 → Parses 0 (parse_comparison y) (parse_comparison y)
unfolding parse_comparison
parse_comparison-Parses y h = Parses-total_bind _ _ _ (nx_total _ (omega arith)) λ n.
    Parses-if 0 _ _ _ _ _ (Parses-pure _)
      (Parses-total_bind _ _ _ (irel_total _ (omega arith)) λ op. Parses-pure _)

parse_arithmetic-Parses : (y : ℕ) → y ≤ 35 → Parses 0 (parse_arithmetic y) (parse_arithmetic y)
unfolding parse_arithmetic
parse_arithmetic-Parses y h = Parses-total_bind _ _ _ (nx_total _ (omega arith)) λ n.
    Parses-if_true (leb (y % 18) 2) _ _ _ _
      (λ e. Parses-total_bind _ _ _ (iun_total _ (ground arith)) λ op. Parses-pure _)
      (Parses-total_bind _ _ _ (ibin_total _ (omega arith)) λ op. Parses-pure _)

compared :
    (x : ℕ)
    → (leb 0x45 x && leb x 0x5a) ≡ true
    → Parses 0 (parse_comparison (x - 0x45)) (parse_comparison (x - 0x45))
compared x h = parse_comparison-Parses (x - 0x45) (in_range 0x45 0x5a x h)

computed :
    (x : ℕ)
    → (leb 0x67 x && leb x 0x8a) ≡ true
    → Parses 0 (parse_arithmetic (x - 0x67)) (parse_arithmetic (x - 0x67))
computed x h = parse_arithmetic-Parses (x - 0x67) (in_range 0x67 0x8a x h)

ruleset opcode_rules = (
  i_load_nx, i_load_bx, i_load_sx, i_store_nx, i_store_bx, extend_sx, i_extend_bx, compared,
  computed, Parses-if_true, Parses-total_bind, operand_rules,
)

parse_memory-Parses : (x : ℕ) → Parses 0 (parse_memory check x) (parse_memory use_ x)
unfolding parse_memory
parse_memory-Parses x = search opcode_rules depth 40

parse_numeric-Parses : (x : ℕ) → Parses 0 (parse_numeric check x) (parse_numeric use_ x)
unfolding parse_numeric
parse_numeric-Parses x = search opcode_rules depth 60 fits 20000

parse_opcode-Parses : (x : ℕ) → Parses 0 (parse_opcode check x) (parse_opcode use_ x)
unfolding parse_opcode
parse_opcode-Parses x = search (
  parse_control-Parses, parse_variable-Parses, parse_memory-Parses, parse_numeric-Parses,
  parse_reference-Parses, Parses-if,
)

pub parse_instr-Parses : Parses 1 (parse_instr check) (parse_instr use_)
unfolding parse_instr
parse_instr-Parses = Parses-bind 1 _ _ _ _ parse_byte-Parses parse_opcode-Parses

-- An instruction that `parse_instr` accepts in the mode `Check`, it reads in the mode `Use` in the
-- same way, with the same bytes left.
pub parse_instr-agrees :
    (xs : List ℕ) (i : Instr) (rest : List ℕ)
    → parse_instr check xs ≡ ok (i, rest)
    → parse_instr use_ xs ≡ ok (i, rest)
parse_instr-agrees = parse_instr-Parses.agrees

-- On every list of bytes, `parse_instr` in the mode `Check` does not panic, in both modes it does
-- not run out of fuel, and in the mode `Check` a success takes a byte at least.
pub parse_instr_total :
    (xs : List ℕ)
    → (parse_instr check xs ≢ fault)
      × (parse_instr check xs ≢ out_of_fuel)
      × (parse_instr use_ xs ≢ out_of_fuel)
      × ((i : Instr) (rest : List ℕ)
          → parse_instr check xs ≡ ok (i, rest)
          → length rest < length xs)
parse_instr_total xs = (
  parse_instr-Parses.safe xs,
  parse_instr-Parses.ends xs,
  parse_instr-Parses.ends_use xs,
  λ i rest e. omega (arith, parse_instr-Parses.takes xs i rest e),
)
