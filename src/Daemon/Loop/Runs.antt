-- ===== src/Daemon/Loop/Runs.antt =====
-- Requests, and runs of the loop from its start.
use Prim.Native.String.{String}
use steam_controller_daemon.Platform.{Platform, IndexMap}
use steam_controller_daemon.Protocol.Buttons.{button_eq}
use steam_controller_daemon.Config.{ConfigMaps, Config, mode_name, string_eq}
use steam_controller_daemon.Kdl.{Kdl}
use steam_controller_daemon.Config.Parse.Key.{KeyText}
use steam_controller_daemon.Config.Parse.Document.{parse}
use steam_controller_daemon.Config.Parse.Document.Valid.{parse-IsConfig}
use steam_controller_daemon.Ipc.State.{default_state}
use steam_controller_daemon.Mapper.Types.{HeldOutput, held_eq}
use steam_controller_daemon.Mapper.Held.Observer.{down, down-append}
use steam_controller_daemon.Mapper.Invariant.{IsConfig, Good, mode_name-lt}
use steam_controller_daemon.Mapper.Switch.Calls.{
  new-Good, set_mode-Good, SetMode, next_mode_of-Good,
}
use steam_controller_daemon.Daemon.{sets_gamepad, plays}
use steam_controller_daemon.Daemon.Requests.{key_request}
use steam_controller_daemon.Daemon.Loop.{
  Request, status, mode_set, mode_next, haptic, config_apply, osk, osk_hide, key, Step, request,
  event, status_of, done, error, Act, effect, sets_click_pressure, response_of, Daemon, typed_act,
  handle_request, step, steps, start_daemon, run_from,
}
use steam_controller_daemon.Daemon.Loop.Acts.{emitted_acts, emitted_acts-append}
use steam_controller_daemon.Daemon.Loop.Holds.{
  KeyboardSound, set_bindings-KeyboardSound, KeyboardSound-default, after, Holds, Next,
  nothing_down, Holds-of_same, Next-quiet, publish_keyboard-Next, respond-Next, emit_done-Next,
}
use steam_controller_daemon.Daemon.Loop.Steps.{
  gamepad-some, handle_event-Next, apply-Next, hide-Next, Next-nothing,
}
use steam_controller_daemon.Prelude.Outcome.{Yields-cases}
use steam_controller_daemon.Prelude.Panic.{Ensures, Ensures-bind}
use steam_controller_daemon.Prelude.{
  ℕ, ◌≡◌, refl, ap, ◌∙◌, Bool, Option, none, some, List, [], ◌∷◌, ◌++◌, All, inl, inr,
}

-- Subscriptions to the keyboard are answered by the control server, before the loop.
module _ ⦃p : Platform⦄ where
  abbrev pub Served : Step → Type 0
  Served (request osk now) = ⊥
  Served _ = Unit {0}

  emitted_acts-typed : (typed : Option (p.KeyCode × Bool)) → emitted_acts (typed_act typed) ≡ []
  unfolding emitted_acts
  emitted_acts-typed none = refl
  emitted_acts-typed (some pressed) = refl

module _ ⦃p : Platform⦄ ⦃maps : ConfigMaps⦄ ⦃held_map : IndexMap HeldOutput ℕ⦄ ⦃text : KeyText⦄
    ⦃k : Kdl⦄ where
  open p use {KeyCode}
  open maps use {osk_map}

  module _ (start : HeldOutput → Bool) where
    set_mode-Next :
        (name : String) (now : ℕ) (d : Daemon)
        → Holds start d
        → Ensures (Next start) (handle_request (mode_set name) now d)
    unfolding handle_request
    set_mode-Next name now d holds =
        let c = holds.config in
        Ensures-bind (SetMode start c holds.valid name) (Next start) _ _
          (set_mode-Good start c holds.valid d.mapper name [] holds.good)
          (λ result w. elim w [
            | inl (unknown, e) ↦
                rw e (respond-Next start error (d, []) (Next-nothing start d holds))
            | inr (target, (m, mapped), known, e, active, good) ↦
                rw e (emit_done-Next start c holds.valid d m mapped good holds.keyboard_sound)
          ])

    config_apply-Next :
        (source : String) (now : ℕ) (d : Daemon)
        → Holds start d
        → Ensures (Next start) (handle_request (config_apply source) now d)
    unfolding handle_request
    config_apply-Next source now d holds =
        elim (Yields-cases IsConfig (parse source) (parse-IsConfig source)) [
          | inl (config, e, valid) ↦ rw (e, handle_request) (apply-Next start d config valid holds)
          | inr (issues, e) ↦
              rw (e, handle_request) (respond-Next start error (d, []) (Next-nothing start d holds))
        ]

    pub handle_request-Next :
        (r : Request) (now : ℕ) (d : Daemon)
        → Served (request r now)
        → Holds start d
        → Ensures (Next start) (handle_request r now d)
    unfolding handle_request emitted_acts
    handle_request-Next (status connected device) now d served holds =
        let (name, e) =
          mode_name-lt holds.config d.mapper.active_mode holds.valid holds.good.fits.active_lt in
        let e' : mode_name d.mapper.config d.mapper.active_mode ≡ some name =
          ap (λ c. mode_name c d.mapper.active_mode) holds.good.fits.config_eq ∙ e in
        rw e' (
          respond-Next start (status_of connected name d.battery_percent d.charging device) (d, [])
            (Next-nothing start d holds))
    handle_request-Next (mode_set name) now d served holds = set_mode-Next name now d holds
    handle_request-Next mode_next now d served holds =
        Ensures-bind (Good start holds.config) (Next start) _ _
          (next_mode_of-Good start holds.config holds.valid d.mapper [] holds.good)
          (λ (m, mapped) good.
            emit_done-Next start holds.config holds.valid d m mapped good holds.keyboard_sound)
    handle_request-Next (haptic h) now d served holds =
        respond-Next start done (d, effect (plays h) ∷ [])
          (Next-quiet start d d [] (effect (plays h) ∷ []) refl refl holds.keyboard_sound
            (Next-nothing start d holds))
    handle_request-Next (config_apply source) now d served holds =
        config_apply-Next source now d holds
    handle_request-Next osk now d served holds = absurd served
    handle_request-Next (osk_hide session) now d served holds = hide-Next start d session holds
    handle_request-Next (key code shift session) now d served holds =
        let (answer, typed) = key_request d.keyboard d.keyboard_closed_at now code shift session in
        respond-Next start (response_of answer) (d, typed_act typed)
          (Next-quiet start d d [] (typed_act typed) refl (emitted_acts-typed typed)
            holds.keyboard_sound (Next-nothing start d holds))

    pub step-Next :
        (x : Step) (d : Daemon) → Served x → Holds start d → Ensures (Next start) (step x d)
    unfolding step
    step-Next (request r now) d served holds = handle_request-Next r now d served holds
    step-Next (event e now) d served holds = handle_event-Next start e now d holds

  -- The acts of two parts of a run.
  pub Next-append :
      (start : HeldOutput → Bool) (d : Daemon) (acts later : List Act)
      → Next (after start acts) (d, later)
      → Next start (d, acts ++ later)
  Next-append start d acts later holds =
      Holds-of_same (after (after start acts) later) (after start (acts ++ later)) d
        (λ h.
          ap (λ os. down h os (start h)) (emitted_acts-append acts later)
          ∙ down-append h (emitted_acts acts) (emitted_acts later) (start h))
        holds

  steps-Next :
      (start : HeldOutput → Bool) (xs : List Step) (d : Daemon)
      → All Served xs
      → Holds start d
      → Ensures (Next start) (steps xs d)
  unfolding steps
  steps-Next start [] d served holds = Next-nothing start d holds
  steps-Next start (x ∷ xs) d (first, others) holds =
      Ensures-bind (Next start) (Next start) _ _ (step-Next start x d first holds)
        (λ (d', acts) holds'.
          Ensures-bind (Next (after start acts)) (Next start) _ _
            (steps-Next (after start acts) xs d' others holds')
            (λ (d'', later) holds''. Next-append start d'' acts later holds''))

  pub start_daemon-Next :
      (config : Config) → IsConfig config → Ensures (Next nothing_down) (start_daemon config)
  unfolding start_daemon emitted_acts down
  start_daemon-Next config valid =
      Ensures-bind (λ m. Good nothing_down config (m, [])) (Next nothing_down) _ _
        (new-Good config valid)
        (λ m good.
          Ensures-bind (λ kind. Unit {0}) (Next nothing_down) _ _
            (gamepad-some nothing_down config m good.fits)
            (λ kind u.
              Ensures-bind KeyboardSound (Next nothing_down) _ _
                (set_bindings-KeyboardSound default_state (osk_map.entries m.config.osk_bindings)
                  KeyboardSound-default)
                (λ keyboard sound.
                  publish_keyboard-Next nothing_down
                    (
                      record {
                        mapper = m;
                        keyboard = keyboard;
                        keyboard_closed_at = none;
                        battery_percent = none;
                        charging = none;
                      },
                      sets_click_pressure config.click_pressure ∷ effect (sets_gamepad kind) ∷ [],
                    )
                    (record {
                      config = config;
                      valid = valid;
                      good = good;
                      keyboard_sound = sound;
                    }))))

  -- A whole run.
  pub run_from-Holds :
      (config : Config) (xs : List Step)
      → IsConfig config
      → All Served xs
      → Ensures (Next nothing_down) (run_from config xs)
  unfolding run_from
  run_from-Holds config xs valid served =
      Ensures-bind (Next nothing_down) (Next nothing_down) _ _ (start_daemon-Next config valid)
        (λ (d, acts) holds.
          Ensures-bind (Next (after nothing_down acts)) (Next nothing_down) _ _
            (steps-Next (after nothing_down acts) xs d served holds)
            (λ (d', later) holds'. Next-append nothing_down d' acts later holds'))
