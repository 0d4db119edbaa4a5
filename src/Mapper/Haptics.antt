-- ===== src/Mapper/Haptics.antt =====
-- Clicks and ticks of the trackpads: daemon/src/mapper.rs, `trackpad_haptic` and
-- `process_trackpad_haptics`.
pub mod Due
pub mod Ticks
use steam_controller_daemon.Platform.{Platform, IndexMap}
use steam_controller_daemon.Protocol.Buttons.{
  Button, Buttons, button_eq, left_pad_click, right_pad_click,
}
use steam_controller_daemon.Protocol.State.{
  Trackpad, StateFormat, timestamp32_us, format_eq, TouchpadState, ControllerState,
}
use steam_controller_daemon.Config.{ConfigMaps}
use steam_controller_daemon.Mapper.Types.{
  axis_eq, Output, HeldOutput, held_eq, TrackpadHapticState, Mapper,
}
use steam_controller_daemon.Mapper.Switch.{idle_haptic}
use steam_controller_daemon.Mapper.Routes.{button_pressed}
use steam_controller_daemon.Prelude.Int.{pos}
use steam_controller_daemon.Prelude.Panic.{unwrap_or}
use steam_controller_daemon.Prelude.{
  ℕ, ◌+◌, ◌-◌, ◌*◌, ◌/◌, ◌%◌, ◌^◌, Bool, true, false, not, none, some, List, [], ◌∷◌, ◌++◌, ltb,
  if◌then◌else◌, ◌==◌,
}

-- `u32::wrapping_sub` and `u16::wrapping_sub`.
abbrev pub wrapping_sub : ℕ → ℕ → ℕ → ℕ
wrapping_sub w a b = (a + 2 ^ w - b) % 2 ^ w

unfoldable pub timestamp_delta_us : StateFormat → ℕ → ℕ → ℕ
unfolding format_eq
timestamp_delta_us format current previous =
    if format == timestamp32_us
    then wrapping_sub 16 (current / 32 % 2 ^ 16) (previous / 32 % 2 ^ 16) * 32
    else wrapping_sub 32 current previous

abbrev pub min_interval_us : ℕ
min_interval_us = 25000

module _ ⦃p : Platform⦄ where
  open p use {F32, from_int, add, sub, div, rem, hypot, float_lt}

  -- A constant of the source that is a multiple of 1 / 32767.
  abbrev pub travel_units : ℕ → F32
  travel_units n = div (from_int (pos n)) (from_int (pos 32767))

  abbrev pub min_travel : F32
  min_travel = travel_units 45

  abbrev pub max_travel : F32
  max_travel = travel_units 4000

  abbrev pub tick_travel : F32
  tick_travel = travel_units 3200

  unfoldable pub distance : F32 × F32 → F32 × F32 → F32
  distance a b = hypot (sub a.0 b.0) (sub a.1 b.1)

  -- The format differs from that of the last tick.
  unfoldable pub format_changed : TrackpadHapticState → StateFormat → Bool
  unfolding format_eq
  format_changed haptic format = elim haptic.last_tick [
    | none ↦ false
    | some (previous_format, _) ↦ not (previous_format == format)
  ]

  unfoldable pub too_soon : TrackpadHapticState → StateFormat → ℕ → Bool
  too_soon haptic format timestamp_us = elim haptic.last_tick [
    | none ↦ false
    | some (_, previous_us) ↦
        ltb (timestamp_delta_us format timestamp_us previous_us) min_interval_us
  ]

  -- From `haptic.progress += travel` on.
  unfoldable pub haptic_progress :
      TrackpadHapticState → F32 → StateFormat → ℕ → TrackpadHapticState × Bool
  unfolding too_soon
  haptic_progress haptic travel format timestamp_us =
      let progress = add haptic.progress travel in
      if float_lt progress tick_travel
      then (record haptic { progress = progress }, false)
      else (if too_soon haptic format timestamp_us
          then (record haptic { progress = tick_travel }, false)
          else (
            record haptic {
              progress = rem progress tick_travel;
              last_tick = some (format, timestamp_us);
            },
            true,
          ))

  -- With the position of the last report that counted.
  unfoldable pub haptic_travel :
      TrackpadHapticState → F32 × F32 → F32 × F32 → StateFormat → ℕ → TrackpadHapticState × Bool
  unfolding haptic_progress
  haptic_travel haptic position previous_position format timestamp_us =
      let travel = distance position previous_position in
      let moved = record haptic { previous_position = some position } in
      if float_lt travel min_travel
      then (haptic, false)
      else (if float_lt max_travel travel
          then (record moved { progress = from_int (pos 0) }, false)
          else haptic_progress moved travel format timestamp_us)

  unfoldable pub trackpad_haptic :
      TrackpadHapticState → TouchpadState → StateFormat → ℕ → TrackpadHapticState × Bool
  unfolding format_changed haptic_travel
  trackpad_haptic haptic pad format timestamp_us =
      let start = some pad.position in
      if not pad.touched
      then (idle_haptic, false)
      else (if format_changed haptic format
          then (record idle_haptic { previous_position = start }, false)
          else (elim haptic.previous_position [
            | none ↦ (record haptic { previous_position = start }, false)
            | some previous_position ↦
                haptic_travel haptic pad.position previous_position format timestamp_us
          ]))

-- `pad as usize` as an index.
unfoldable pub same_pad : Trackpad → Trackpad → Bool
same_pad Trackpad.left Trackpad.left = true
same_pad Trackpad.right Trackpad.right = true
same_pad _ _ = false

module _ ⦃p : Platform⦄ ⦃maps : ConfigMaps⦄ ⦃held_map : IndexMap HeldOutput ℕ⦄ where
  -- One pad: a click leaves the ticks alone.
  unfoldable pub process_pad :
      ControllerState
      → Buttons
      → Trackpad
      → TouchpadState
      → Button
      → Mapper
      → List Output
      → Mapper × List Output
  unfolding button_pressed same_pad
  process_pad state previous pad pad_state click m outputs =
      let timestamp_us = unwrap_or state.trackpad_timestamp_us state.imu_timestamp_us in
      let (haptic, tick) =
        trackpad_haptic (m.trackpad_haptics pad) pad_state state.format timestamp_us in
      let ticked = record m {
        trackpad_haptics = λ q. if same_pad q pad then haptic else m.trackpad_haptics q;
      } in
      let sent = outputs ++ Output.trackpad_haptic pad ∷ [] in
      if button_pressed click state.buttons previous
      then (m, sent)
      else (ticked, if tick then sent else outputs)

  unfoldable pub process_trackpad_haptics :
      ControllerState → Buttons → Mapper → List Output → Mapper × List Output
  process_trackpad_haptics state previous m outputs =
      let (m', outputs') =
        process_pad state previous Trackpad.left state.left_pad left_pad_click m outputs in
      process_pad state previous Trackpad.right state.right_pad right_pad_click m' outputs'
