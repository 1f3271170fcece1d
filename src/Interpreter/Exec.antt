-- ===== src/Interpreter/Exec.antt =====
-- crates/interpreter/src/exec.rs: the execution of valid modules, without the features `float-types`
-- and `vector-types`. A panic, and undefined behaviour, is the outcome `fault`.
pub mod Values
pub mod Memory
pub mod Access
pub mod State
pub mod Control
pub mod Lookup
pub mod Segments
pub mod Numeric
pub mod Operands
pub mod Calls
pub mod Items
pub mod Step
pub mod Link
pub mod Sections
pub mod Instantiate
pub mod Api
mod Tests
pub mod Keeps
pub mod Evolves
