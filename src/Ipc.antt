-- ===== src/Ipc.antt =====
-- What the daemon publishes about the on-screen keyboard: core/src/ipc.rs.
pub mod State
pub mod Clicks
pub mod Pad
pub mod Calls
