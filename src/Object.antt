-- ===== src/Object.antt =====
-- Objects: crates/starlight/src/vm/object.rs and crates/starlight/src/vm/indexed_elements.rs.
pub mod Elements
pub mod Defs
pub mod Index
pub mod Element
pub mod Sparse
pub mod Dense
pub mod Filled
pub mod InMap
pub mod Define
pub mod Direct
pub mod Lookup
pub mod Delete
pub mod Closed
pub mod Named
pub mod World
pub mod Inherit
pub mod Put
pub mod Fast
pub mod Grow
mod Tests
