-- ===== src/ArrayStorage.antt =====
-- The resizable vector of values behind arrays and property slots:
-- crates/starlight/src/vm/array_storage.rs.
-- `none` is a failed assertion or an access outside the allocated words. What an allocation holds
-- before it is written is a parameter, `fresh`.
pub mod Memory
pub mod Defs
pub mod Loops
pub mod Valid
pub mod Shift
pub mod Elements
mod Tests
