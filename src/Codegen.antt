-- ===== src/Codegen.antt =====
-- crates/refix-codegen: the plans of the generated code, and its names.
pub mod CaseConverter
pub mod Adds
pub mod Groups
pub mod Conversion
pub mod Envelope
pub mod Tables
pub mod Naming
pub mod Numbers
pub mod Rust
pub mod Python
pub mod Namespace
pub mod Tests
