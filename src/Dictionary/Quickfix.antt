-- ===== src/Dictionary/Quickfix.antt =====
-- crates/refix-dictionary/src/quickfix.rs: a dictionary in the XML format of QuickFIX.
pub mod Xml
pub mod Fields
pub mod Members
pub mod Lengths
pub mod Parse
pub mod Gives
pub mod Known
pub mod Pairs
pub mod Linked
pub mod Sound
pub mod Codes
pub mod Tests
