-- ===== src/Codegen/Python.antt =====
-- crates/refix-codegen/src/python: the names that the generated Python uses.
pub mod Naming
pub mod Reserved
pub mod Names
pub mod Properties
pub mod Classes
pub mod Tests
