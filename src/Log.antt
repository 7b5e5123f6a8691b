-- ===== src/Log.antt =====
-- crates/refix-message/src/log.rs and log/: reading messages out of FIX logs.
pub mod Tests
pub mod Start
pub mod End
pub mod CaretA
pub mod Diagnose
pub mod Reader
