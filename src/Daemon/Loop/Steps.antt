-- ===== src/Daemon/Loop/Steps.antt =====
-- The handlers of requests and events, and whole runs of the daemon.
use steam_controller_daemon.Platform.{Platform, IndexMap}
use steam_controller_daemon.Protocol.Buttons.{button_eq}
use steam_controller_daemon.Protocol.State.{ControllerState}
use steam_controller_daemon.Config.{ConfigMaps, Config, absent, mode_of, string_eq}
use steam_controller_daemon.Ipc.State.{set_visible}
use steam_controller_daemon.Mapper.Types.{HeldOutput, held_eq, Mapper}
use steam_controller_daemon.Mapper.Held.Observer.{down}
use steam_controller_daemon.Mapper.Invariant.{IsConfig, Good, Fits, mode_of-lt}
use steam_controller_daemon.Mapper.Switch.Calls.{
  reload-Good, release_all-Good, suspend-Good, NothingDown,
}
use steam_controller_daemon.Mapper.Process.Good.{process-Good}
use steam_controller_daemon.Daemon.{sets_gamepad, gamepad}
use steam_controller_daemon.Daemon.Requests.{sync_keyboard, hide_refused}
use steam_controller_daemon.Daemon.Loop.{
  DeviceEvent, state, battery, disconnected, done, error, effect, updates_source, publishes, Daemon,
  gamepad_touchpad, respond, apply, closed, without_battery, hide, shown_pads, handle_state,
  handle_disconnected, handle_event,
}
use steam_controller_daemon.Daemon.Loop.Acts.{emitted_acts}
use steam_controller_daemon.Daemon.Loop.Holds.{
  KeyboardSound, set_visible-KeyboardSound, set_bindings-KeyboardSound, update_pads-KeyboardSound,
  sync_keyboard-KeyboardSound, Holds, Next, Next-quiet, publish_keyboard-Next, respond-Next,
  emit_mapped-Next, emit_done-Next,
}
use steam_controller_daemon.Prelude.Panic.{Ensures, Ensures-bind}
use steam_controller_daemon.Prelude.{on_test, ℕ, ◌≡◌, refl, ap, ◌∙◌, Bool, false, some, [], ◌∷◌}

module _ ⦃p : Platform⦄ ⦃maps : ConfigMaps⦄ ⦃held_map : IndexMap HeldOutput ℕ⦄ where
  open p use {KeyCode}
  open maps use {osk_map}

  module _ (start : HeldOutput → Bool) where
    -- A good mapper's calls under its own configuration.
    pub gamepad-some : (c : Config) (m : Mapper) → Fits c m → Ensures (λ kind. Unit {0}) (gamepad m)
    unfolding gamepad
    gamepad-some c m fits =
        let (current, e) = mode_of-lt c m.active_mode fits.active_lt in
        let at : mode_of m.config m.active_mode ≡ some current =
          ap (λ d. mode_of d m.active_mode) fits.config_eq ∙ e in
        rw at tt

    gamepad_touchpad-some :
        (c : Config) (m : Mapper) → Fits c m → Ensures (λ pad. Unit {0}) (gamepad_touchpad m)
    unfolding gamepad_touchpad
    gamepad_touchpad-some c m fits =
        let (current, e) = mode_of-lt c m.active_mode fits.active_lt in
        let at : mode_of m.config m.active_mode ≡ some current =
          ap (λ d. mode_of d m.active_mode) fits.config_eq ∙ e in
        rw at tt

    shown_pads-KeyboardSound :
        (d : Daemon) (s : ControllerState) (was_visible : Bool)
        → KeyboardSound d.keyboard
        → Ensures KeyboardSound (shown_pads d s was_visible)
    unfolding shown_pads
    shown_pads-KeyboardSound d s was_visible sound =
        on_test (Ensures KeyboardSound) d.keyboard.visible _ (some d.keyboard)
          (update_pads-KeyboardSound (sync_keyboard d.mapper d.keyboard) s was_visible
            (sync_keyboard-KeyboardSound d.mapper d.keyboard sound))
          sound

    handle_state-Next :
        (d : Daemon) (s : ControllerState) (now : ℕ)
        → Holds start d
        → Ensures (Next start) (handle_state d s now)
    unfolding handle_state emitted_acts
    handle_state-Next d s now holds =
        let c = holds.config in
        Ensures-bind (Good start c) (Next start) _ _
          (process-Good start c holds.valid d.mapper s d.keyboard.visible [] holds.good)
          (λ (m, mapped) good.
            Ensures-bind (λ pad. Unit {0}) (Next start) _ _ (gamepad_touchpad-some c m good.fits)
              (λ pad u.
                Ensures-bind (Next start) (Next start) _ _
                  (emit_mapped-Next start c holds.valid d m mapped good holds.keyboard_sound)
                  (λ (next, acts) holds'.
                    Ensures-bind KeyboardSound (Next start) _ _
                      (shown_pads-KeyboardSound next s d.keyboard.visible holds'.keyboard_sound)
                      (λ keyboard sound.
                        Next-quiet start next _ (updates_source s pad ∷ acts)
                          (publishes keyboard ∷ []) refl refl sound holds'))))

    pub handle_disconnected-Next :
        (d : Daemon) → Holds start d → Ensures (λ r. Next start r) (handle_disconnected d)
    unfolding handle_disconnected emitted_acts set_visible
    handle_disconnected-Next d holds =
        let c = holds.config in
        Ensures-bind (λ kind. Unit {0}) (Next start) _ _ (gamepad-some c d.mapper holds.good.fits)
          (λ kind u.
            Ensures-bind (λ r. Good start c r × NothingDown start r.1) (Next start) _ _
              (release_all-Good start c holds.valid d.mapper [] holds.good)
              (λ (m, mapped) (good, nothing).
                Ensures-bind (Next start) (Next start) _ _
                  (emit_mapped-Next start c holds.valid d m mapped good holds.keyboard_sound)
                  (λ (next, acts) holds'.
                    publish_keyboard-Next start
                      (
                        without_battery (closed next),
                        effect (sets_gamepad absent) ∷ effect (sets_gamepad kind) ∷ acts,
                      )
                      (record {
                        config = holds'.config;
                        valid = holds'.valid;
                        good = holds'.good;
                        keyboard_sound =
                            set_visible-KeyboardSound next.keyboard false holds'.keyboard_sound;
                      }))))

    -- No act at all.
    pub Next-nothing : (d : Daemon) → Holds start d → Next start (d, [])
    unfolding emitted_acts down
    Next-nothing d holds = record {
      config = holds.config;
      valid = holds.valid;
      good = holds.good;
      keyboard_sound = holds.keyboard_sound;
    }

    pub handle_event-Next :
        (e : DeviceEvent) (now : ℕ) (d : Daemon)
        → Holds start d
        → Ensures (Next start) (handle_event e now d)
    unfolding handle_event emitted_acts down
    handle_event-Next (state s) now d holds = handle_state-Next d s now holds
    handle_event-Next (battery percent charging) now d holds = record {
      config = holds.config;
      valid = holds.valid;
      good = holds.good;
      keyboard_sound = holds.keyboard_sound;
    }
    handle_event-Next disconnected now d holds = handle_disconnected-Next d holds

    pub apply-Next :
        (d : Daemon) (config : Config)
        → IsConfig config
        → Holds start d
        → Ensures (Next start) (apply d config)
    unfolding apply emitted_acts
    apply-Next d config valid holds =
        Ensures-bind (Good start config) (Next start) _ _
          (reload-Good start holds.config holds.valid config d.mapper [] valid holds.good)
          (λ (m, mapped) good.
            Ensures-bind KeyboardSound (Next start) _ _
              (set_bindings-KeyboardSound d.keyboard (osk_map.entries m.config.osk_bindings)
                holds.keyboard_sound)
              (λ keyboard sound.
                Ensures-bind (Next start) (Next start) _ _
                  (emit_done-Next start config valid (record d { keyboard = keyboard }) m mapped
                    good sound)
                  (λ (d', acts) holds'. holds')))

    pub hide-Next :
        (d : Daemon) (session : ℕ) → Holds start d → Ensures (Next start) (hide d session)
    unfolding hide
    hide-Next d session holds =
        let c = holds.config in
        on_test (Ensures (Next start)) (hide_refused d.keyboard session)
          (some (respond error (d, []))) _ (respond-Next start error (d, []) (Next-nothing d holds))
          (Ensures-bind (Next start) (Next start) _ _
            (emit_mapped-Next start c holds.valid d _ _
              (suspend-Good start c holds.valid d.mapper [] holds.good).0 holds.keyboard_sound)
            (λ (next, acts) holds'. respond-Next start done _ (
              publish_keyboard-Next start (closed next, acts)
                (record {
                  config = holds'.config;
                  valid = holds'.valid;
                  good = holds'.good;
                  keyboard_sound =
                      set_visible-KeyboardSound next.keyboard false holds'.keyboard_sound;
                }))))
