-- ===== src/Lib.antt =====
-- A verification library for Wasefire: its key-value store over flash storage, crates/store, and
-- its WebAssembly interpreter, crates/interpreter: parser, validator and execution.
--
-- The parts, and the files that model them. Paths start at the root of the repository.
-- - Base, Bits: shared names, tests on numbers, lists, results, and the bitwise operations of
--   `u32` and `u8` as arithmetic.
-- - Store/Types: errors, ratios and updates of crates/store/src/store.rs. Store/Diff: its
--   `is_write_needed`. Store/Fragment: the range of keys of crates/store/src/fragment.rs.
-- - Store/Bitfield: crates/store/src/format/bitfield.rs. `Field`, `ConstField`, `Bit` and
--   `Checksum` have a file each. `Field.masked` is the word after the `&=` of `Field::set`.
-- - Store/Storage: crates/store/src/storage.rs. The constant methods of the trait are `Geometry`.
-- - Store/Format: crates/store/src/format.rs. The file itself has the constants and the sizes,
--   Format/Layout the bit fields and the expansion of their macro, Format/Position the positions,
--   Format/Words the words and entries (`parse_init`, `build_user` and so on under their names),
--   Format/Updates the capacity and the validity of transactions.
-- - Store/Model: crates/store/src/model.rs, the store as a map. `apply` runs one operation.
-- - Store/Buffer: crates/store/src/buffer.rs, the flash storage in memory, with its counters, its
--   strict mode and its interruptions. `commit_write`, `commit_erase` and `corrupt_saved` are the
--   ends of `write_slice`, `erase_page` and `corrupt_operation`.
-- - Interpreter/Mode: crates/interpreter/src/error.rs and toctou.rs, the two modes of the parser.
--   Interpreter/Syntax: crates/interpreter/src/syntax.rs, the types and their conversions;
--   Syntax/Signed and Syntax/Ops have the arithmetic of `impl_op!`.
-- - Interpreter/Parser: crates/interpreter/src/parser.rs. Parser/Core has the state and the bytes,
--   Parser/Leb128 the integers, Parser/Types the types, Parser/Instr `parse_instr` in groups of
--   opcodes, Parser/Skip `skip_to_else` and `skip_to_end`, Parser/Segments the locals, elements
--   and data. Parser/Parses has what holds of every method: a rule for each way to build one, and
--   `search` composes them.
-- - Interpreter/Valid: crates/interpreter/src/valid.rs. Valid/Context is what a module declares,
--   Valid/OpdType the types of operands, Valid/Method and Valid/Labels the methods on stacks and
--   labels, Valid/Expr and Valid/Instr the instructions, Valid/Check the loop, `check_const` and
--   `check_body`, Valid/Module, Valid/Segments and Valid/Sections the sections of `check_module`.
--   Valid/Steady has what holds of every method, and Valid/Yields the rules for the sections.
-- - Interpreter/Module: crates/interpreter/src/module.rs, the lookups in the bytes of a module.
-- - Interpreter/Exec: crates/interpreter/src/exec.rs. Exec/Values has values and pointers,
--   Exec/Memory memories and tables, Exec/Access `load` and `store`, Exec/State the store, threads,
--   frames and labels with the methods on them, Exec/Lookup the items behind indices. The arms of
--   `Thread::step` are in Exec/Control, Exec/Numeric, Exec/Operands, Exec/Calls and Exec/Items, and
--   Exec/Step puts them together with `run` and `const_expr`. Exec/Segments, Exec/Sections,
--   Exec/Link and Exec/Instantiate are `instantiate`, and Exec/Api is `invoke`, `get_global` and
--   `Call`. Exec/Keeps and Exec/Evolves have what holds of every method of a machine.
-- How they interact: the format cuts the words that the store writes into fields; positions are
-- the words of all pages in the order in which they are written, and `index` places them in the
-- storage; the model checks a transaction by the format before it applies it; the storage gives
-- bytes back as they were written, and counts what wears it out. The validator reads each
-- instruction with the parser in the mode `Check`, and what it accepts is read again in the mode
-- `Use`, which tests nothing. Execution reads the module in the mode `Use`, a step at a time, on a
-- store and a thread that each step gives to the next.
--
-- Numbers. `Nat` and `usize` are natural numbers. The places where the code subtracts are stated
-- not to wrap, by the bounds of the sizes or where the definition stands. A word is a number below
-- 2 ^ 32, with shifts and complements written out at that width. Loops are structural recursions
-- on the list or on the number of rounds left, but for four loops of the interpreter that have
-- fuel: in LEB128 a round takes 7 of the bits that are left, so that one more than the bits is
-- enough, and in `skip_to_end`, `skip_to_else` and the validator a round reads an instruction, so
-- that one more than the bytes is enough. So it is for the custom sections of a module. A thread
-- need not end, and neither does the model of `run`, `const_expr` and what calls them, where fuel
-- counts the steps: with too little of it they are `out_of_fuel`, which is no result.
--
-- Errors are results. A failed assertion or an index out of range is `none` or `panic`, except
-- where a range that was checked before excludes it. On an error `Field::set` leaves a changed
-- word, which each caller drops, and here the error carries no word. In the interpreter, `fault`
-- is a panic or undefined behaviour. There the features `float-types` and `vector-types` are off,
-- as by default, a `usize` has 32 bits, and shifts are not checked for overflow. A stack and the
-- labels have their top first.
--
-- Not modelled: the operations of `Store` on a storage (crates/store/src/store.rs), the chunks of
-- fragments, the driver and the file storage of crates/store; in crates/interpreter the store
-- that a failed instantiation leaves and the feature `cache`; crates/scheduler, crates/prelude and
-- crates/board; and what is glue: the runners, the macros of the interface, the tools, the
-- examples. Allocation does not fail. The `debug_assert` lines of the store and its
-- implementations of `Display` are left out. From the standard library, `binary_search` is taken
-- by its result on a sorted slice without repetitions, and `HashMap` as a list that no operation
-- depends on the order of.
pub mod Base
pub mod Bits
pub mod Store
pub mod Interpreter
