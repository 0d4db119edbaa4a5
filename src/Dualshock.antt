-- ===== src/Dualshock.antt =====
-- The emulated DualShock 4: daemon/src/gamepad/dualshock.
pub mod Descriptors
pub mod Control
pub mod Usbip
