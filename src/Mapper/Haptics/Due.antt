-- ===== src/Mapper/Haptics/Due.antt =====
-- When a tick of a trackpad is due: the tests of `trackpad_haptic` in daemon/src/mapper.rs together.
use steam_controller_daemon.Platform.{Platform}
use steam_controller_daemon.Protocol.State.{StateFormat, format_eq, TouchpadState}
use steam_controller_daemon.Mapper.Types.{TrackpadHapticState}
use steam_controller_daemon.Mapper.Haptics.{
  timestamp_delta_us, min_interval_us, format_changed, too_soon, haptic_progress, haptic_travel,
  distance, min_travel, max_travel, tick_travel,
}
use steam_controller_daemon.Prelude.{
  ℕ, ◌≡◌, refl, sym, ap, ◌∙◌, leb, ◌==◌, Option, Bool, true, false, not, ◌&&◌, none, some, arith,
  Option-cases, inl, inr,
}

module _ ⦃p : Platform⦄ where
  open p use {F32, add, float_lt}

  -- The remembered tick, if any, was in this format.
  abbrev pub same_format : Option (StateFormat × ℕ) → StateFormat → Bool
  same_format none format = true
  same_format (some (before, t)) format = before == format

  -- It was at least 25 ms before.
  abbrev rested : Option (StateFormat × ℕ) → StateFormat → ℕ → Bool
  rested none format timestamp_us = true
  rested (some (before, t)) format timestamp_us =
      leb min_interval_us (timestamp_delta_us format timestamp_us t)

  -- From the remembered position, if any, the finger has moved by an amount that counts, and with the
  -- progress before by enough for a tick.
  abbrev travelled : Option (F32 × F32) → F32 → F32 × F32 → Bool
  travelled none progress position = false
  travelled (some before) progress position =
      let travel = distance position before in
      not (float_lt travel min_travel)
      && not (float_lt max_travel travel)
      && not (float_lt (add progress travel) tick_travel)

  abbrev pub is_due : TrackpadHapticState → TouchpadState → StateFormat → ℕ → Bool
  is_due haptic pad format timestamp_us =
      (pad.touched && same_format haptic.last_tick format)
      && (travelled haptic.previous_position haptic.progress pad.position
          && rested haptic.last_tick format timestamp_us)

  pub format_changed-same_format :
      (haptic : TrackpadHapticState) (format : StateFormat)
      → same_format haptic.last_tick format ≡ not (format_changed haptic format)
  unfolding format_changed
  format_changed-same_format haptic format = elim (Option-cases haptic.last_tick) [
    | inl e ↦ rw e refl
    | inr ((before, t), e) ↦ rw e (ground arith)
  ]

  too_soon-rested :
      (haptic : TrackpadHapticState) (format : StateFormat) (timestamp_us : ℕ)
      → too_soon haptic format timestamp_us ≡ not (rested haptic.last_tick format timestamp_us)
  unfolding too_soon
  too_soon-rested haptic format timestamp_us = elim (Option-cases haptic.last_tick) [
    | inl e ↦ rw e refl
    | inr ((before, t), e) ↦ rw e (ground arith)
  ]

  haptic_travel-travelled :
      (haptic : TrackpadHapticState) (position before : F32 × F32) (format : StateFormat)
      (timestamp_us : ℕ)
      → (haptic_travel haptic position before format timestamp_us).1 ≡ (
          travelled (some before) haptic.progress position
          && not (too_soon haptic format timestamp_us))
  unfolding haptic_travel haptic_progress too_soon
  haptic_travel-travelled haptic position before format timestamp_us = ground arith

  pub haptic_travel-is_due :
      (haptic : TrackpadHapticState) (pad : TouchpadState) (before : F32 × F32)
      (format : StateFormat) (timestamp_us : ℕ)
      → pad.touched ≡ true
      → format_changed haptic format ≡ false
      → haptic.previous_position ≡ some before
      → is_due haptic pad format timestamp_us
        ≡ (haptic_travel haptic pad.position before format timestamp_us).1
  haptic_travel-is_due haptic pad before format timestamp_us touch same at =
      let kept : same_format haptic.last_tick format ≡ true =
        format_changed-same_format haptic format ∙ ap not same in
      let moved = λ (o : Option (F32 × F32)).
        travelled o haptic.progress pad.position && rested haptic.last_tick format timestamp_us in
      let soon : rested haptic.last_tick format timestamp_us
          ≡ not (too_soon haptic format timestamp_us) =
        ground (arith, too_soon-rested haptic format timestamp_us) in
      ap (λ b. (b && same_format haptic.last_tick format) && moved haptic.previous_position) touch
      ∙ ap (λ b. b && moved haptic.previous_position) kept
      ∙ ap moved at
      ∙ ap (λ b. travelled (some before) haptic.progress pad.position && b) soon
      ∙ sym (haptic_travel-travelled haptic pad.position before format timestamp_us)
