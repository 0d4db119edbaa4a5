-- ===== src/Tests/Runs.antt =====
-- A session with all of the model open, so that examples compute.
use mathlib.Core.Bool.{xor}
use steam_controller_daemon.Platform.Assoc
use steam_controller_daemon.Config.{string_eq, mode_id, mode_name, mode_of, next_mode}
use steam_controller_daemon.Config.Keys.{mouse_eq, gamepad_eq}
use steam_controller_daemon.Protocol.Buttons.{
  mask, index, button_eq, from_bits, contains, contains_all, insert, remove, remove_inactive,
  is_empty,
}
use steam_controller_daemon.Protocol.State.{format_eq}
use steam_controller_daemon.Mapper.Types.{axis_eq, held_eq, from_action, output}
use steam_controller_daemon.Mapper.Held.{
  press, unpress, set_held, releases, set_gamepad_axis, reset_axes, release_outputs,
}
use steam_controller_daemon.Mapper.Switch.{
  resize, mode, new, reset_runtime, mode_changed_output, enter_mode, switch_mode, target_mode,
  apply_mode, apply_action, set_mode, next_mode_of, reload, release_all, suspend,
}
use steam_controller_daemon.Mapper.Globals.{
  prerequisites_of, all_active, global_pressed, next_global, mark_input, mark_inputs, holds_output,
  apply_global, global_round, global_loop,
}
use steam_controller_daemon.Mapper.Osk.{
  set_osk_active, osk_step, osk_loop, keyboard_shifted, active_of, active_osk_bindings,
}
use steam_controller_daemon.Mapper.Routes.{
  prerequisites, is_chord, button_pressed, route_ends, reserve_pressed, reserve_chord_inputs,
  layer_active, insert_triggers, overridden_by, reserve_mode_chords, reserve_bindings,
  reserve_layer_chords, end_route, release_routes, starts, begin_route, route_binding,
  route_bindings, route_layers,
}
use steam_controller_daemon.Mapper.Haptics.{
  timestamp_delta_us, distance, format_changed, too_soon, haptic_progress, haptic_travel,
  trackpad_haptic, same_pad, process_pad, process_trackpad_haptics,
}
use steam_controller_daemon.Mapper.Axes.{
  trigger_value, touchpad, scale_axis, frame_timestamps, frame_seconds, options_of, activated,
  pad_delta, pad_angle, gyro_component, gyro_scale, stick_target, stick_value, source_of, orient,
  acceleration_gain, transform, write_axis, trigger_axis, send_vector, map_axis, clamp_axis,
  axis_loop, send_axes,
}
use steam_controller_daemon.Mapper.Process.{
  process_keyboard, end_routes, route_pass, route_passes, process_axes, process_mode, process_rest,
  buttons_of, process,
}
use steam_controller_daemon.Mapper.Session.{call, run, session}
use steam_controller_daemon.Mapper.Types.{Output, Mapper}
use steam_controller_daemon.Config.{Config}
use steam_controller_daemon.Mapper.Session.{Call}
use steam_controller_daemon.Prelude.{List, Option}
use steam_controller_daemon.Tests.Sample.{sample, sample_maps, sample_held}

unfoldable pub run_session : Config → List Call → Option (Mapper × List Output)
unfolding xor Assoc.get Assoc.insert Assoc.shift_remove string_eq mode_id mode_name mode_of
    next_mode mouse_eq gamepad_eq mask index button_eq from_bits contains contains_all insert remove
    remove_inactive is_empty format_eq axis_eq held_eq from_action output press unpress set_held
    releases set_gamepad_axis reset_axes release_outputs resize mode new reset_runtime
    mode_changed_output enter_mode switch_mode target_mode apply_mode apply_action set_mode
    next_mode_of reload release_all suspend prerequisites_of all_active global_pressed next_global
    mark_input mark_inputs holds_output apply_global global_round global_loop set_osk_active
    osk_step osk_loop keyboard_shifted active_of active_osk_bindings prerequisites is_chord
    button_pressed route_ends reserve_pressed reserve_chord_inputs layer_active insert_triggers
    overridden_by reserve_mode_chords reserve_bindings reserve_layer_chords end_route release_routes
    starts begin_route route_binding route_bindings route_layers timestamp_delta_us distance
    format_changed too_soon haptic_progress haptic_travel trackpad_haptic same_pad process_pad
    process_trackpad_haptics trigger_value touchpad scale_axis frame_timestamps frame_seconds
    options_of activated pad_delta pad_angle gyro_component gyro_scale stick_target stick_value
    source_of orient acceleration_gain transform write_axis trigger_axis send_vector map_axis
    clamp_axis axis_loop send_axes process_keyboard end_routes route_pass route_passes process_axes
    process_mode process_rest buttons_of process call run session
run_session c calls = session c calls
