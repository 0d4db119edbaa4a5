-- ===== src/Config/Parse.antt =====
-- Reading the configuration out of a KDL document: core/src/config.rs, `Config::parse` and what it
-- calls.
pub mod Key
pub mod Names
pub mod Binding
pub mod Axis
pub mod Haptics
pub mod Mode
pub mod Document
