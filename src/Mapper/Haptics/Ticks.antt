-- ===== src/Mapper/Haptics/Ticks.antt =====
-- When a trackpad ticks, and what a difference of timestamps means.
use steam_controller_daemon.Platform.{Platform}
use steam_controller_daemon.Protocol.State.{
  StateFormat, standard, ble, timestamp32_us, TouchpadState,
}
use steam_controller_daemon.Mapper.Types.{TrackpadHapticState}
use steam_controller_daemon.Mapper.Haptics.{
  timestamp_delta_us, min_interval_us, too_soon, haptic_progress,
}
use steam_controller_daemon.Mapper.Haptics.Due.{same_format, is_due}
use steam_controller_daemon.Prelude.{
  ℕ, ◌+◌, ◌*◌, ◌%◌, ◌^◌, ◌<◌, ◌≤◌, ◌≡◌, Bool, true, false, ◌&&◌, ◌⊎◌, if◌then◌else◌, none, some,
  arith,
}

-- The difference is the time that has passed, across a wrap of the counter too: for a 32-bit counter
-- of microseconds in two formats, and for a 16-bit counter of units of 32 microseconds in the third.
pub timestamp_delta_us-elapsed :
    (before elapsed ticks_before ticks : ℕ)
    → before < 2 ^ 32
    → elapsed < 2 ^ 32
    → ticks_before < 2 ^ 16
    → ticks < 2 ^ 16
    → (timestamp_delta_us standard ((before + elapsed) % 2 ^ 32) before ≡ elapsed)
      × (timestamp_delta_us ble ((before + elapsed) % 2 ^ 32) before ≡ elapsed)
      × (timestamp_delta_us timestamp32_us
            ((ticks_before + ticks) % 2 ^ 16 * 32)
            (ticks_before * 32)
          ≡ ticks * 32)
unfolding timestamp_delta_us
timestamp_delta_us-elapsed before elapsed ticks_before ticks h k i j =
    (omega arith, omega arith, omega arith)

module _ ⦃p : Platform⦄ where
  open p use {F32}

  -- The tick that the state remembers, if any, was in this format and long enough ago.
  abbrev Spaced : TrackpadHapticState → StateFormat → ℕ → Type 0
  Spaced haptic format timestamp_us =
      (before : StateFormat) (t : ℕ)
      → haptic.last_tick ≡ some (before, t)
      → (before ≡ format) × (min_interval_us ≤ timestamp_delta_us format timestamp_us t)

  -- What a tick requires and leaves.
  abbrev Ticks :
      TrackpadHapticState → TouchpadState → StateFormat → ℕ → TrackpadHapticState → Type 0
  Ticks haptic pad format timestamp_us after =
      (pad.touched ≡ true)
      × Spaced haptic format timestamp_us
      × (after.last_tick ≡ some (format, timestamp_us))
      × (after.previous_position ≡ some pad.position)

  -- The last step, over any earlier state with the same last tick.
  haptic_progress-fires :
      (haptic : TrackpadHapticState) (travel : F32) (format : StateFormat) (timestamp_us : ℕ)
      → (haptic_progress haptic travel format timestamp_us).1 ≡ true
      → (too_soon haptic format timestamp_us ≡ false)
        × ((haptic_progress haptic travel format timestamp_us).0.last_tick
            ≡ some (format, timestamp_us))
        × ((haptic_progress haptic travel format timestamp_us).0.previous_position
            ≡ haptic.previous_position)
  unfolding haptic_progress
  haptic_progress-fires haptic travel format timestamp_us fires = ground arith

  haptic_progress-rests :
      (haptic : TrackpadHapticState) (travel : F32) (format : StateFormat) (timestamp_us : ℕ)
      → (haptic_progress haptic travel format timestamp_us).1 ≡ false
      → (haptic_progress haptic travel format timestamp_us).0.last_tick ≡ haptic.last_tick
  unfolding haptic_progress
  haptic_progress-rests haptic travel format timestamp_us rests = ground arith

  -- What a state that does not tick leaves: it still remembers the tick, unless the finger is
  -- lifted or the format has changed, when it remembers none.
  abbrev Rests : TrackpadHapticState → TouchpadState → StateFormat → TrackpadHapticState → Type 0
  Rests haptic pad format after =
      if pad.touched && same_format haptic.last_tick format
      then after.last_tick ≡ haptic.last_tick
      else after.last_tick ≡ none

  abbrev pub TicksOrRests :
      TrackpadHapticState → TouchpadState → StateFormat → ℕ → TrackpadHapticState × Bool → Type 0
  TicksOrRests haptic pad format timestamp_us (after, fires) =
      ((fires ≡ true)
        × (is_due haptic pad format timestamp_us ≡ true)
        × Ticks haptic pad format timestamp_us after)
      ⊎ ((fires ≡ false)
          × (is_due haptic pad format timestamp_us ≡ false)
          × Rests haptic pad format after)
