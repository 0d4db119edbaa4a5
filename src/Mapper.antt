-- ===== src/Mapper.antt =====
-- daemon/src/mapper.rs: controller states to outputs.
pub mod Types
pub mod Held
pub mod Switch
pub mod Globals
pub mod Osk
pub mod Routes
pub mod Haptics
pub mod Axes
pub mod Process
pub mod Invariant
pub mod Session
