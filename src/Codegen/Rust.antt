-- ===== src/Codegen/Rust.antt =====
-- crates/refix-codegen/src/rust: the names that the generated Rust uses.
pub mod Naming
pub mod Reserved
pub mod Names
pub mod Accessors
pub mod Keeps
pub mod Methods
pub mod Root
pub mod Items
pub mod Variants
