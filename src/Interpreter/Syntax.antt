-- ===== src/Interpreter/Syntax.antt =====
-- crates/interpreter/src/syntax.rs: the abstract syntax, without the features `float-types` and
-- `vector-types`, which are off by default.
pub mod Types
pub mod Bytes
pub mod Signed
pub mod Ops
pub mod Bounds
pub mod Division
pub mod Rotation
