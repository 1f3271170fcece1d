-- ===== src/Interpreter/Parser.antt =====
-- crates/interpreter/src/parser.rs: `Parser`, whose state is the bytes that are left.
pub mod Core
pub mod Leb128
pub mod Types
pub mod Instr
pub mod Skip
pub mod Segments
pub mod Parses
