-- ===== src/Structure.antt =====
-- Hidden classes: crates/starlight/src/vm/structure.rs.
pub mod Tables
pub mod Defs
pub mod Transitions
pub mod Shared
pub mod Lookup
pub mod Reuse
pub mod Shape
pub mod Refine
pub mod Capacity
pub mod Chain
mod Tests
