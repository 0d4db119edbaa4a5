-- ===== src/Lib.antt =====
-- The verification library of steam-controller-daemon: the wire protocol of the controller, the
-- parser of its configuration, the mapper that turns controller reports into keyboard, mouse and
-- gamepad outputs, the loop of the daemon around them, and the USB/IP device of the emulated
-- gamepad.
--
-- The program. The daemon (daemon/src/main.rs) reads input reports from the controller, parses
-- them (core/src/protocol.rs), hands every state to the mapper (daemon/src/mapper.rs), and sends
-- the outputs that the mapper returns to virtual input devices; haptics go back to the controller
-- as encoded reports. The mapper runs under a configuration (core/src/config.rs): modes with
-- bindings, global chords, axes, gestures and trackpads. Clients change the mode, reload the
-- configuration, and open the on-screen keyboard over a socket (core/src/ipc.rs).
--
-- The files.
--   Prelude, Bits: lists, options and tests over native numbers, the laws of single bits.
--   Platform: what the code takes from Rust and from other packages, as records that a proof
--     takes as arguments: `Platform` for `f32` and evdev's key codes, `IndexMap` for the insertion
--     ordered maps of the indexmap crate with the laws that its documentation states.
--     Platform/Assoc implements `IndexMap` by a list, so the laws can hold.
--   Protocol/Buttons, Protocol/State, Protocol/Bytes, Protocol/Report: core/src/protocol.rs, the
--     button set, the state, and `parse_report` with everything below it.
--   Protocol/Haptic: `Haptic::encode` and the reports it sends; Protocol/Haptic/Decode reads them.
--   Config, Config/Keys: the types of core/src/config.rs that the mapper runs on, and key names.
--   Kdl: core/src/kdl.rs, the readers of arguments, properties and nodes, over the documents of the kdl
--     crate, which are the parameter `Kdl`.
--   Config/Parse/*: the parser of core/src/config.rs. Key and Names hold the names of keys and buttons,
--     Binding, Axis, Haptics and Mode the functions parse_binding, parse_axis, parse_haptic and
--     parse_mode, Document `from_document` and `Config::parse`. Its files Safe, Targets, Valid, Layers
--     and Names below them say what these return.
--   Ipc/State, Ipc/Clicks, Ipc/Pad: `OskState` of core/src/ipc.rs, the click history and the pads of
--     the on-screen keyboard; Ipc/Calls: the daemon's calls on them.
--   Daemon, Daemon/Requests: daemon/src/main.rs, `emit`, which hands on what the mapper returns and
--     opens or closes the keyboard, and the requests `OskHide` and `Key`.
--   Daemon/Loop: `main` of daemon/src/main.rs, its start and the handlers of requests and events.
--     Daemon/Loop/Holds is the invariant of the loop, which Steps and Runs keep. Receiver is what the
--     devices receive: the mapper's outputs, and the keys that `Outputs::key` of daemon/src/output.rs
--     types between them on the same keyboard. Main speaks of whole runs, Disconnect and Answers of
--     the end of a controller and of the answers to clients.
--   Mapper/Types: the data and the state of daemon/src/mapper.rs. Mapper/Held is `set_held` and
--     `release_outputs`, Mapper/Switch the calls that change mode or configuration, Mapper/Globals
--     the global chords, Mapper/Osk the keyboard's buttons, Mapper/Routes the routes of buttons,
--     Mapper/Axes sticks, triggers, gyro and gestures, Mapper/Haptics the ticks of the trackpads,
--     and Mapper/Process is `process`, which calls these in the order of the source.
--   Mapper/Held/Observer, Sync, Count and Appends: what a receiver of the outputs has down, and that
--     releases are pushed after the outputs before.
--   Mapper/Invariant: what a configuration and a mapper must satisfy. Mapper/Process/* and
--     Mapper/Switch/* keep it, one file for each stage of the update.
--   Mapper/Session: the daemon's calls on the mapper, and sequences of them.
--   Dualshock: the USB/IP device of the emulated gamepad, daemon/src/gamepad/dualshock/usbip.rs: Control
--     is `control` and the replies, Usbip the loop `serve`, Descriptors has the
--     constants of it and of mod.rs; Usbip/Ends speaks of the loop.
--   Tests: concrete controllers and configurations, run.
--
-- The model. A method on `&mut self` takes the record and returns it with its result; the vector
-- of outputs that the source passes by reference is passed on explicitly. Code that can panic (an
-- index out of range, an `expect`) returns an Option whose `none` is the panic, and `Ensures P r`
-- says that `r` is no panic and its value satisfies P. The parser, which can also return errors,
-- has the result `Outcome` with its own `panics`, and `Yields P r` allows an error. A message of
-- the parser is its fixed text, without what is formatted into it, and the place it points at.
-- Integers are numbers that wrap at the width of the source's type, `usize` at 64 bits, as in a
-- release build. Loops run over the lists the source iterates over; the reader of the clicks runs
-- on fuel 17, one more than the history holds, and `serve` on more fuel than there are bytes to
-- read, which a theorem shows to be enough. `f32` is a parameter: no theorem depends on rounding.
--
-- Not modelled. The documents of the kdl crate and evdev's table of key names are parameters. Of
-- the daemon: the timers of the lizard mode and the rumble, the sockets and threads of its server,
-- USB transfers, the virtual devices but for the keys that they type, the packing of the emulated gamepads' reports and what
-- attaches them; and the programs of the on-screen keyboard and of the command line. They are for
-- the most part calls of the operating system and of other packages, whose source is not here. The
-- daemon ends when a call on its output devices fails, and no theorem speaks of that end.
pub mod Prelude
pub mod Bits
pub mod Platform
pub mod Protocol
pub mod Kdl
pub mod Config
pub mod Ipc
pub mod Mapper
pub mod Daemon
pub mod Dualshock
mod Tests
