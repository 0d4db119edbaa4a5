-- ===== src/Mapper/Process/Good.antt =====
-- `process` and the invariant of the mapper.
use steam_controller_daemon.Platform.{Platform, IndexMap}
use steam_controller_daemon.Config.{ConfigMaps, Config, Mode, mode_of}
use steam_controller_daemon.Protocol.Buttons.{Buttons, button_eq, no_buttons}
use steam_controller_daemon.Protocol.State.{ControllerState, format_eq}
use steam_controller_daemon.Mapper.Types.{
  GamepadAxis, axis_eq, gamepad_axes_all, Output, HeldOutput, held_eq, Mapper,
}
use steam_controller_daemon.Mapper.Invariant.{
  IsConfig, Good, GlobalTargets, ModeTargets, mode_of-lt, axes_count, axes_count-mode_of,
}
use steam_controller_daemon.Mapper.Switch.{mode}
use steam_controller_daemon.Mapper.Globals.{Round, returns, continues}
use steam_controller_daemon.Mapper.Axes.{zero_f}
use steam_controller_daemon.Mapper.Process.{
  process_keyboard, end_routes, route_pass, route_passes, process_axes, process_mode, process_rest,
  buttons_of, process,
}
use steam_controller_daemon.Mapper.Process.Globals.{
  Good-of_held, RoundGood, global_loop-Good, osk_loop-Good,
}
use steam_controller_daemon.Mapper.Process.Routes.{
  RoutesWell, RoutesWell-next, release_routes-Synced, route_bindings-Good, route_layers-Good,
}
use steam_controller_daemon.Mapper.Process.Axes.{
  axis_loop-Good, send_axes-Good, process_trackpad_haptics-Good,
}
use steam_controller_daemon.Prelude.Panic.{Ensures, Ensures-bind}
use steam_controller_daemon.Prelude.{
  ℕ, ◌≡◌, refl, sym, ap, ◌∙◌, subst, Bool, true, false, Option, none, some, List, length, All,
  All-get_elem?, Bool-cases, inl, inr, arith,
}

module _ ⦃p : Platform⦄ ⦃maps : ConfigMaps⦄ ⦃held_map : IndexMap HeldOutput ℕ⦄
    (start : HeldOutput → Bool) (c : Config) (valid : IsConfig c) where
  end_routes-Good :
      (buttons reserved captured : Buttons) (m : Mapper) (outputs : List Output)
      → Good start c (m, outputs)
      → Good start c (end_routes buttons reserved captured m outputs)
  unfolding end_routes
  end_routes-Good buttons reserved captured m outputs good =
      Good-of_held start c m outputs _ _ good refl refl refl refl
        (release_routes-Synced start buttons reserved captured m.routes _ good.synced)

  route_pass-Good :
      (current : Mode) (chord : Bool) (reserved unavailable buttons previous : Buttons) (m : Mapper)
      (outputs : List Output)
      → ModeTargets (length c.modes) current
      → Good start c (m, outputs)
      → Ensures
          (RoutesWell start c valid m)
          (route_pass current chord reserved unavailable buttons previous m outputs)
  unfolding route_pass
  route_pass-Good current chord reserved unavailable buttons previous m outputs t good =
      RoutesWell-next start c valid m _ _
        (route_bindings-Good start c valid chord _ none buttons previous unavailable
          current.bindings m outputs t.0 good)
        (λ m' outputs' g.
          route_layers-Good start c valid chord reserved buttons previous unavailable current.layers
            m' outputs' t.1 g)

  route_passes-Good :
      (current : Mode) (reserved buttons previous : Buttons) (m : Mapper) (outputs : List Output)
      → ModeTargets (length c.modes) current
      → Good start c (m, outputs)
      → Ensures
          (RoutesWell start c valid m)
          (route_passes current reserved buttons previous m outputs)
  unfolding route_passes
  route_passes-Good current reserved buttons previous m outputs t good =
      RoutesWell-next start c valid m _ _
        (route_pass-Good current true reserved reserved buttons previous m outputs t good)
        (λ m' outputs' g. route_pass-Good current false reserved _ buttons previous m' outputs' t g)

  process_axes-Good :
      (current : Mode) (state : ControllerState) (previous : Option ControllerState)
      (previous_buttons : Buttons) (m : Mapper) (outputs : List Output)
      → length current.axes ≡ length m.axis_active
      → Good start c (m, outputs)
      → Ensures (Good start c) (process_axes current state previous previous_buttons m outputs)
  unfolding process_axes
  process_axes-Good current state previous previous_buttons m outputs n good =
      Ensures-bind (λ (r : Mapper × (GamepadAxis → p.F32) × List Output). Good start c (r.0, r.2))
        (Good start c) _ _
        (axis_loop-Good start c 0 current.axes state previous m (λ a. zero_f) outputs (omega arith)
          good)
        (λ (m', axes, outputs') g.
          process_trackpad_haptics-Good start c state previous_buttons _ _
            (send_axes-Good start c gamepad_axes_all axes m' outputs' g))

  process_mode-Good :
      (state : ControllerState) (previous : Option ControllerState)
      (previous_buttons reserved captured : Buttons) (m : Mapper) (outputs : List Output)
      → Good start c (m, outputs)
      → Ensures
          (Good start c)
          (process_mode state previous previous_buttons reserved captured m outputs)
  unfolding process_mode mode mode_of
  process_mode-Good state previous previous_buttons reserved captured m outputs good =
      let (ended, outputs') = end_routes state.buttons reserved captured m outputs in
      let g = end_routes-Good state.buttons reserved captured m outputs good in
      let (current, e) = mode_of-lt c ended.active_mode g.fits.active_lt in
      let e' : mode_of ended.config ended.active_mode ≡ some current =
        ap (λ d. mode_of d ended.active_mode) g.fits.config_eq ∙ e in
      let t = All-get_elem? (ModeTargets (length c.modes)) c.modes _ current valid.mode_targets e in
      rw e' (
        Ensures-bind (RoutesWell start c valid ended) (Good start c)
          (route_passes current reserved state.buttons previous_buttons ended outputs') _
          (route_passes-Good current reserved state.buttons previous_buttons ended outputs' t g)
          (λ (m', outputs'', interrupted) w. elim (Bool-cases interrupted) [
            | inl q ↦ rw q w.0
            | inr q ↦ rw q (
                process_axes-Good current state previous previous_buttons m' outputs''
                  (axes_count-mode_of c ended.active_mode e
                    ∙ ap (axes_count c) (sym (w.1 q))
                    ∙ sym w.0.fits.axes_len)
                  w.0)
          ]))

  process_rest-Good :
      (state : ControllerState) (previous : Option ControllerState) (previous_buttons : Buttons)
      (keyboard_visible : Bool) (round : Round)
      → RoundGood start c round
      → Ensures (Good start c) (process_rest state previous previous_buttons keyboard_visible round)
  unfolding process_rest process_keyboard
  process_rest-Good state previous previous_buttons keyboard_visible (returns m outputs) good = good
  process_rest-Good state previous previous_buttons true (continues m outputs r k) good =
      process_trackpad_haptics-Good start c state previous_buttons _ _
        (osk_loop-Good start c state.buttons r _ m outputs good)
  process_rest-Good state previous previous_buttons false (continues m outputs r k) good =
      process_mode-Good state previous previous_buttons r k m outputs good

  pub process-Good :
      (m : Mapper) (state : ControllerState) (keyboard_visible : Bool) (outputs : List Output)
      → Good start c (m, outputs)
      → Ensures (Good start c) (process m state keyboard_visible outputs)
  unfolding process
  process-Good m state keyboard_visible outputs good =
      let seen = record m { previous = some state } in
      let config_eq : m.config ≡ c = good.fits.config_eq in
      let bindings_eq : length m.config.global_bindings ≡ length c.global_bindings =
        ap (λ (d : Config). length d.global_bindings) config_eq in
      Ensures-bind (RoundGood start c) (Good start c) _ _
        (global_loop-Good start c valid 0 m.config.global_bindings state.buttons
          (buttons_of m.previous) (continues seen outputs no_buttons no_buttons) (omega arith)
          (subst (λ (d : Config). All (GlobalTargets (length c.modes)) d.global_bindings)
            (sym config_eq) valid.global_targets)
          (Good-of_held start c m outputs seen outputs good refl refl refl refl good.synced))
        (λ round g.
          process_rest-Good state m.previous (buttons_of m.previous) keyboard_visible round g)
