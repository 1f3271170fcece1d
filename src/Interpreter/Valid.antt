-- ===== src/Interpreter/Valid.antt =====
-- crates/interpreter/src/valid.rs: the validation of what runs.
pub mod Context
pub mod OpdType
pub mod Method
pub mod Labels
pub mod Expr
pub mod Instr
pub mod Check
pub mod Steady
pub mod Rounds
pub mod Sound
pub mod Typed
pub mod Module
pub mod Segments
pub mod Sections
pub mod Yields
pub mod Linked
pub mod Parts
pub mod Bodies
pub mod Verdict
