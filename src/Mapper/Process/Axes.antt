-- ===== src/Mapper/Process/Axes.antt =====
-- The axes and the trackpads under the invariant of the mapper.
use steam_controller_daemon.Platform.{Platform, IndexMap}
use steam_controller_daemon.Config.{
  ConfigMaps, Config, AxisMapping, VectorTarget, gamepad_left_stick, gamepad_right_stick,
  mouse_motion, scroll,
}
use steam_controller_daemon.Protocol.Buttons.{
  Button, Buttons, button_eq, left_pad_click, right_pad_click,
}
use steam_controller_daemon.Protocol.State.{Trackpad, TouchpadState, ControllerState, format_eq}
use steam_controller_daemon.Mapper.Types.{GamepadAxis, axis_eq, Output, HeldOutput, held_eq, Mapper}
use steam_controller_daemon.Mapper.Held.Observer.{Synced, observe}
use steam_controller_daemon.Mapper.Held.Sync.{quiet-Synced, set_gamepad_axis-Synced}
use steam_controller_daemon.Mapper.Invariant.{Good}
use steam_controller_daemon.Mapper.Switch.Good.{set_gamepad_axis-Keeps, Keeps-Fits}
use steam_controller_daemon.Mapper.Routes.{button_pressed}
use steam_controller_daemon.Mapper.Haptics.{trackpad_haptic, process_pad, process_trackpad_haptics}
use steam_controller_daemon.Mapper.Axes.{
  Axes, source_of, transform, send_vector, map_axis, activated, options_of, axis_loop, send_axes,
  clamp_axis, zero_f,
}
use steam_controller_daemon.Mapper.Process.Globals.{Good-of_held}
use steam_controller_daemon.Prelude.Panic.{Ensures, unwrap_or}
use steam_controller_daemon.Prelude.{
  ℕ, suc, ◌+◌, ◌≡◌, refl, Bool, true, false, not, ◌||◌, Option, List, [], ◌∷◌, length, length-set,
  get_elem?-lt, set, Bool-cases, Option-cases, inl, inr, arith, if◌then◌else◌,
}

module _ ⦃p : Platform⦄ ⦃maps : ConfigMaps⦄ ⦃held_map : IndexMap HeldOutput ℕ⦄
    (start : HeldOutput → Bool) where
  open p use {F32, float_eq}

  send_vector-Synced :
      (target : VectorTarget) (value : F32 × F32) (axes : Axes) (held : held_map.Map)
      (outputs : List Output)
      → Synced start held outputs
      → Synced start held (send_vector target value axes outputs).1
  unfolding send_vector observe
  send_vector-Synced gamepad_left_stick value axes held outputs sync = sync
  send_vector-Synced gamepad_right_stick value axes held outputs sync = sync
  send_vector-Synced mouse_motion (x, y) axes held outputs sync =
      elim (Bool-cases (not (float_eq x zero_f) || not (float_eq y zero_f))) [
        | inl e ↦
            rw e (quiet-Synced start held outputs (Output.mouse_motion x y) (λ h b. refl) sync)
        | inr e ↦ rw e sync
      ]
  send_vector-Synced scroll (x, y) axes held outputs sync =
      elim (Bool-cases (not (float_eq x zero_f) || not (float_eq y zero_f))) [
        | inl e ↦ rw e (quiet-Synced start held outputs (Output.scroll x y) (λ h b. refl) sync)
        | inr e ↦ rw e sync
      ]

  map_axis-Synced :
      (mapping : AxisMapping) (state : ControllerState) (previous : Option ControllerState)
      (axes : Axes) (held : held_map.Map) (outputs : List Output)
      → Synced start held outputs
      → Synced start held (map_axis mapping state previous axes outputs).1
  unfolding map_axis
  map_axis-Synced (AxisMapping.trigger _ _ _) state previous axes held outputs sync = sync
  map_axis-Synced mapping state previous axes held outputs sync =
      elim (Option-cases (source_of mapping state previous)) [
        | inl e ↦ rw (e, map_axis) sync
        | inr (s, e) ↦
            rw (e, map_axis)
              (send_vector-Synced s.target (transform s state previous) axes held outputs sync)
      ]

  module _ (c : Config) where
    axis_step-Synced :
        (active : Bool) (mapping : AxisMapping) (state : ControllerState)
        (previous : Option ControllerState) (axes : Axes) (held : held_map.Map)
        (outputs : List Output)
        → Synced start held outputs
        → Synced start held
            (if active then (map_axis mapping state previous axes outputs).1 else outputs)
    axis_step-Synced true mapping state previous axes held outputs sync =
        map_axis-Synced mapping state previous axes held outputs sync
    axis_step-Synced false mapping state previous axes held outputs sync = sync

    pub axis_loop-Good :
        (index : ℕ) (mappings : List AxisMapping) (state : ControllerState)
        (previous : Option ControllerState) (m : Mapper) (axes : Axes) (outputs : List Output)
        → index + length mappings ≡ length m.axis_active
        → Good start c (m, outputs)
        → Ensures
            (λ r. Good start c (r.0, r.2))
            (axis_loop index mappings state previous m axes outputs)
    unfolding axis_loop
    axis_loop-Good index [] state previous m axes outputs n good = good
    axis_loop-Good index (mapping ∷ rest) state previous m axes outputs n good =
        let (was_active, e) = get_elem?-lt m.axis_active index (omega arith) in
        let active = activated (options_of mapping).activation was_active state in
        let stored = record m { axis_active = set m.axis_active index active } in
        let moved = map_axis mapping state previous axes outputs in
        let len : length (set m.axis_active index active) ≡ length m.axis_active =
          length-set m.axis_active index active in
        rw e (
          axis_loop-Good (suc index) rest state previous stored (if active then moved.0 else axes)
            (if active then moved.1 else outputs) (omega arith)
            (Good-of_held start c m outputs stored _ good refl refl refl len
              (axis_step-Synced active mapping state previous axes m.held outputs good.synced)))

    pub send_axes-Good :
        (list : List GamepadAxis) (axes : Axes) (m : Mapper) (outputs : List Output)
        → Good start c (m, outputs)
        → Good start c (send_axes list axes m outputs)
    unfolding send_axes
    send_axes-Good [] axes m outputs good = good
    send_axes-Good (axis ∷ rest) axes m outputs good =
        let value = clamp_axis axis (axes axis) in
        send_axes-Good rest axes _ _ (record {
          fits = Keeps-Fits c m _ (set_gamepad_axis-Keeps m axis value outputs) good.fits;
          synced = set_gamepad_axis-Synced start m axis value outputs good.synced;
        })

    process_pad-Good :
        (state : ControllerState) (previous : Buttons) (pad : Trackpad) (pad_state : TouchpadState)
        (click : Button) (m : Mapper) (outputs : List Output)
        → Good start c (m, outputs)
        → Good start c (process_pad state previous pad pad_state click m outputs)
    unfolding process_pad observe
    process_pad-Good state previous pad pad_state click m outputs good =
        let sent =
          quiet-Synced start m.held outputs (Output.trackpad_haptic pad) (λ h b. refl)
            good.synced in
        let timestamp_us = unwrap_or state.trackpad_timestamp_us state.imu_timestamp_us in
        let r = trackpad_haptic (m.trackpad_haptics pad) pad_state state.format timestamp_us in
        elim (Bool-cases (button_pressed click state.buttons previous)) [
          | inl e ↦
              rw (e, process_pad) (Good-of_held start c m outputs m _ good refl refl refl refl sent)
          | inr e ↦ elim (Bool-cases r.1) [
            | inl tick ↦
                rw (e, tick, process_pad)
                  (Good-of_held start c m outputs _ _ good refl refl refl refl sent)
            | inr still ↦
                rw (e, still, process_pad)
                  (Good-of_held start c m outputs _ _ good refl refl refl refl good.synced)
          ]
        ]

    pub process_trackpad_haptics-Good :
        (state : ControllerState) (previous : Buttons) (m : Mapper) (outputs : List Output)
        → Good start c (m, outputs)
        → Good start c (process_trackpad_haptics state previous m outputs)
    unfolding process_trackpad_haptics
    process_trackpad_haptics-Good state previous m outputs good =
        process_pad-Good state previous Trackpad.right state.right_pad right_pad_click _ _ (
          process_pad-Good state previous Trackpad.left state.left_pad left_pad_click m outputs
            good)
