-- ===== src/Dictionary.antt =====
-- crates/refix-dictionary: data dictionaries, as they are declared and as they are resolved.
pub mod Tests
pub mod Views
pub mod Quickfix
pub mod Spec
pub mod Checks
pub mod Tags
pub mod Resolver
