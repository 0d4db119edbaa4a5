-- ===== src/Protocol.antt =====
-- core/src/protocol.rs: the reports that the receiver sends and takes.
pub mod Buttons
pub mod State
pub mod Bytes
pub mod Haptic
pub mod Report
