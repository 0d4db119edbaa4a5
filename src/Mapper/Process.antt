-- ===== src/Mapper/Process.antt =====
-- One report: daemon/src/mapper.rs, `Mapper::process`.
pub mod Globals
pub mod Routes
pub mod Axes
pub mod Good
use steam_controller_daemon.Platform.{Platform, IndexMap}
use steam_controller_daemon.Protocol.Buttons.{Buttons, button_eq, no_buttons, remove_inactive}
use steam_controller_daemon.Protocol.State.{format_eq, ControllerState}
use steam_controller_daemon.Config.{ConfigMaps, Mode}
use steam_controller_daemon.Mapper.Types.{
  axis_eq, gamepad_axes_all, Output, HeldOutput, held_eq, Mapper,
}
use steam_controller_daemon.Mapper.Switch.{mode}
use steam_controller_daemon.Mapper.Globals.{Round, returns, continues, global_loop}
use steam_controller_daemon.Mapper.Osk.{osk_loop}
use steam_controller_daemon.Mapper.Routes.{
  release_routes, Routed, overridden_by, reserve_mode_chords, reserve_layer_chords, route_bindings,
  route_layers,
}
use steam_controller_daemon.Mapper.Haptics.{process_trackpad_haptics}
use steam_controller_daemon.Mapper.Axes.{zero_f, axis_loop, send_axes}
use steam_controller_daemon.Prelude.Panic.{◌>>=◌}
use steam_controller_daemon.Prelude.{
  ℕ, Bool, true, false, Option, none, some, List, [], if◌then◌else◌,
}

module _ ⦃p : Platform⦄ ⦃maps : ConfigMaps⦄ ⦃held_map : IndexMap HeldOutput ℕ⦄ where
  open maps use {osk_map}

  -- While the keyboard is visible.
  unfoldable pub process_keyboard :
      ControllerState → Buttons → Buttons → Mapper → List Output → Mapper × List Output
  process_keyboard state previous reserved m outputs =
      let (m', outputs') =
        osk_loop state.buttons reserved (osk_map.entries m.config.osk_bindings) m outputs in
      process_trackpad_haptics state previous m' outputs'

  -- The loop that ends routes, from the end of the list.
  unfoldable pub end_routes :
      Buttons → Buttons → Buttons → Mapper → List Output → Mapper × List Output
  end_routes buttons reserved captured m outputs =
      let r = release_routes buttons reserved captured m.routes (record {
        kept = [];
        quarantined = remove_inactive m.quarantined buttons;
        held = m.held;
        outputs = outputs;
      }) in
      (record m { routes = r.kept; quarantined = r.quarantined; held = r.held }, r.outputs)

  -- One pass over the mode's bindings and those of its active layers: the chords, or the others.
  unfoldable pub route_pass :
      Mode → Bool → Buttons → Buttons → Buttons → Buttons → Mapper → List Output → Option Routed
  route_pass current chord reserved unavailable buttons previous m outputs =
      let overridden = overridden_by buttons reserved current.layers no_buttons in
      do
        (m', outputs', interrupted) ←
            route_bindings chord overridden none buttons previous unavailable current.bindings m
              outputs
        if interrupted
            then some (m', outputs', true)
            else route_layers chord reserved buttons previous unavailable current.layers m' outputs'

  -- Chords come first, and reserve their inputs for the second pass.
  unfoldable pub route_passes :
      Mode → Buttons → Buttons → Buttons → Mapper → List Output → Option Routed
  route_passes current reserved buttons previous m outputs =
      let overridden = overridden_by buttons reserved current.layers no_buttons in
      let chord_reserved =
        reserve_layer_chords buttons reserved current.layers
          (reserve_mode_chords buttons overridden current.bindings reserved) in
      do
        (m', outputs', interrupted) ←
            route_pass current true reserved reserved buttons previous m outputs
        if interrupted
            then some (m', outputs', true)
            else route_pass current false reserved chord_reserved buttons previous m' outputs'

  -- The axes and the trackpads.
  unfoldable pub process_axes :
      Mode
      → ControllerState
      → Option ControllerState
      → Buttons
      → Mapper
      → List Output
      → Option (Mapper × List Output)
  process_axes current state previous previous_buttons m outputs = do
    (m', axes, outputs') ← axis_loop 0 current.axes state previous m (λ a. zero_f) outputs
    let (m'', outputs'') = send_axes gamepad_axes_all axes m' outputs'
    some (process_trackpad_haptics state previous_buttons m'' outputs'')

  -- From the route releases to the end. The mode is read once: nothing before a return changes it.
  unfoldable pub process_mode :
      ControllerState
      → Option ControllerState
      → Buttons
      → Buttons
      → Buttons
      → Mapper
      → List Output
      → Option (Mapper × List Output)
  process_mode state previous previous_buttons reserved captured m outputs =
      let (ended, outputs') = end_routes state.buttons reserved captured m outputs in
      do
        current ← mode ended
        (m', outputs'', interrupted) ←
            route_passes current reserved state.buttons previous_buttons ended outputs'
        if interrupted
            then some (m', outputs'')
            else process_axes current state previous previous_buttons m' outputs''

  -- What follows the global bindings.
  unfoldable pub process_rest :
      ControllerState
      → Option ControllerState
      → Buttons
      → Bool
      → Round
      → Option (Mapper × List Output)
  process_rest state previous previous_buttons keyboard_visible (returns m outputs) =
      some (m, outputs)
  process_rest state previous previous_buttons keyboard_visible
        (continues m outputs reserved captured) =
      if keyboard_visible
      then some (process_keyboard state previous_buttons reserved m outputs)
      else process_mode state previous previous_buttons reserved captured m outputs

  unfoldable pub buttons_of : Option ControllerState → Buttons
  buttons_of none = no_buttons
  buttons_of (some state) = state.buttons

  unfoldable pub process :
      Mapper → ControllerState → Bool → List Output → Option (Mapper × List Output)
  process m state keyboard_visible outputs =
      let previous_buttons = buttons_of m.previous in
      let seen = record m { previous = some state } in
      do
        round ←
            global_loop 0 m.config.global_bindings state.buttons previous_buttons
              (continues seen outputs no_buttons no_buttons)
        process_rest state m.previous previous_buttons keyboard_visible round
