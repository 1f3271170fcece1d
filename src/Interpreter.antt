-- ===== src/Interpreter.antt =====
-- crates/interpreter: a WebAssembly interpreter, from the bytes of a module on.
pub mod Mode
pub mod Syntax
pub mod Parser
pub mod Valid
pub mod Module
pub mod Exec
mod Tests
