-- ===== src/Store.antt =====
-- crates/store: a key-value store over flash storage.
pub mod Types
pub mod Bitfield
pub mod Storage
pub mod Format
pub mod Model
pub mod Buffer
pub mod Diff
pub mod Fragment
