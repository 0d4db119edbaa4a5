-- ===== src/Tests.antt =====
-- Examples: the theorems at concrete inputs, and runs that follow the unit tests of the source.
mod Sample
mod Runs
mod Buttons
mod Protocol
mod Mapper
mod Ipc
mod Daemon
mod Config
mod Loop
mod Dualshock
