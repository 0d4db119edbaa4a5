-- ===== src/Daemon/Loop.antt =====
-- The daemon from its start: daemon/src/main.rs, `main`. A step is a request of a client or an event
-- of the controller, with the time in milliseconds at which it is handled. `Act` is a call on the
-- devices or the sockets. What the devices say of themselves is a part of the step; the timers of
-- the lizard mode and of the rumble, which touch none of this, are left out.
pub mod Acts
pub mod Receiver
pub mod Holds
pub mod Steps
pub mod Runs
pub mod Main
pub mod Disconnect
pub mod Answers
use Prim.Native.String.{String}
use steam_controller_daemon.Platform.{Platform, IndexMap}
use steam_controller_daemon.Protocol.Buttons.{button_eq}
use steam_controller_daemon.Protocol.State.{ControllerState, TouchpadState, Trackpad}
use steam_controller_daemon.Protocol.Haptic.{Haptic}
use steam_controller_daemon.Config.{
  ConfigMaps, Config, Gamepad, absent, mode_of, mode_name, string_eq,
}
use steam_controller_daemon.Kdl.{Kdl, Issue, Parsed}
use steam_controller_daemon.Config.Parse.Key.{KeyText}
use steam_controller_daemon.Config.Parse.Document.{parse}
use steam_controller_daemon.Ipc.State.{
  OskPadSide, OskPad, OskState, default_state, set_visible, set_bindings,
}
use steam_controller_daemon.Ipc.Pad.{update_pad}
use steam_controller_daemon.Mapper.Types.{Output, HeldOutput, held_eq, Mapper}
use steam_controller_daemon.Mapper.Switch.{
  new, set_mode, next_mode_of, reload, release_all, suspend,
}
use steam_controller_daemon.Mapper.Process.{process}
use steam_controller_daemon.Daemon.{Effect, sets_gamepad, plays, gamepad, emit}
use steam_controller_daemon.Daemon.Requests.{Answer, sync_keyboard, key_request, hide_refused}
use steam_controller_daemon.Prelude.Outcome as Results
use steam_controller_daemon.Prelude.Outcome.{ok, err, panics}
use steam_controller_daemon.Prelude.Panic.{◌>>=◌}
use steam_controller_daemon.Prelude.{
  ℕ, Bool, true, false, not, ◌&&◌, Option, none, some, List, [], ◌∷◌, ◌++◌, map, if◌then◌else◌,
}

-- The match on `(was_visible, keyboard.visible)`.
unfoldable pub closed_at : Option ℕ → Bool → Bool → ℕ → Option ℕ
closed_at before true false now = some now
closed_at before false true now = none
closed_at before _ _ now = before

module _ ⦃p : Platform⦄ where
  open p use {KeyCode}

  pub data Request : Type 0 where
    -- With what the device says of its connection and its name.
    status : (connected : Bool) (device : Option String) → Request
    mode_set : String → Request
    mode_next : Request
    haptic : Haptic → Request
    config_apply : String → Request
    osk : Request
    osk_hide : (session : ℕ) → Request
    key : (code : ℕ) (shift : Bool) (session : ℕ) → Request

  pub data DeviceEvent : Type 0 where
    state : ControllerState → DeviceEvent
    battery : (percent : ℕ) (charging : Bool) → DeviceEvent
    disconnected : DeviceEvent

  pub data Step : Type 0 where
    request : Request → (now : ℕ) → Step
    event : DeviceEvent → (now : ℕ) → Step

  -- The text of an error is not kept.
  pub data Response : Type 0 where
    status_of :
        (connected : Bool) (mode : String) (percent : Option ℕ) (charging : Option Bool)
        (device : Option String)
        → Response
    done error : Response

  pub data Act : Type 0 where
    effect : Effect → Act
    sets_click_pressure : ℕ → Act
    updates_source : ControllerState → Option Trackpad → Act
    sets_gamepad_battery : ℕ → Act
    types : KeyCode → Bool → Act
    publishes : OskState → Act
    responds : Response → Act

  -- `outputs.key(key, *shift)?`.
  abbrev pub typed_act : Option (KeyCode × Bool) → List Act
  typed_act none = []
  typed_act (some (k, shift)) = types k shift ∷ []

  abbrev pub response_of : Answer → Response
  response_of Answer.done = done
  response_of _ = error

module _ ⦃p : Platform⦄ ⦃maps : ConfigMaps⦄ ⦃held_map : IndexMap HeldOutput ℕ⦄ where
  open p use {KeyCode}
  open maps use {osk_map}

  -- The local variables of `main`; `mapped` is empty between steps.
  pub record Daemon : Type 0 where
    pub mapper : Mapper
    pub keyboard : OskState
    pub keyboard_closed_at : Option ℕ
    pub battery_percent : Option ℕ
    pub charging : Option Bool

  -- `Mapper::gamepad_touchpad`.
  unfoldable pub gamepad_touchpad : Mapper → Option (Option Trackpad)
  unfolding mode_of
  gamepad_touchpad m = do current ← mode_of m.config m.active_mode; some current.gamepad_touchpad

  -- `emit`, on the daemon.
  unfoldable pub emit_mapped : Daemon → Mapper × List Output → Option (Daemon × List Act)
  unfolding emit
  emit_mapped d (m, mapped) = do
    e ← emit m d.keyboard mapped
    some (record d { mapper = e.mapper; keyboard = e.keyboard }, map effect e.effects)

  -- `publish_keyboard`.
  unfoldable pub publish_keyboard : Daemon × List Act → Daemon × List Act
  unfolding sync_keyboard
  publish_keyboard (d, acts) =
      let keyboard = sync_keyboard d.mapper d.keyboard in
      (record d { keyboard = keyboard }, acts ++ publishes keyboard ∷ [])

  abbrev pub respond : Response → Daemon × List Act → Daemon × List Act
  respond response (d, acts) = (d, acts ++ responds response ∷ [])

  -- `set_visible(false)`, with the time of the closing forgotten.
  abbrev pub closed : Daemon → Daemon
  closed d = record d { keyboard = set_visible d.keyboard false; keyboard_closed_at = none }

  abbrev pub without_battery : Daemon → Daemon
  without_battery d = record d { battery_percent = none; charging = none }

  -- What follows a call on the mapper: `emit`, `publish_keyboard` and the response.
  unfoldable pub emit_done : Daemon → Mapper × List Output → Option (Daemon × List Act)
  unfolding emit_mapped publish_keyboard
  emit_done d mapped = do after ← emit_mapped d mapped; some (respond done (publish_keyboard after))

  unfoldable pub apply : Daemon → Config → Option (Daemon × List Act)
  unfolding reload set_bindings emit_done
  apply d config = do
    (m, mapped) ← reload d.mapper config []
    keyboard ← set_bindings d.keyboard (osk_map.entries m.config.osk_bindings)
    (d', acts) ← emit_done (record d { keyboard = keyboard }) (m, mapped)
    some (d', sets_click_pressure config.click_pressure ∷ acts)

  -- `Request::OskHide` on the daemon.
  unfoldable pub hide : Daemon → ℕ → Option (Daemon × List Act)
  unfolding hide_refused suspend emit_mapped set_visible publish_keyboard
  hide d session = if hide_refused d.keyboard session then some (respond error (d, [])) else (do
    (next, acts) ← emit_mapped d (suspend d.mapper [])
    some (respond done (publish_keyboard (closed next, acts))))

  abbrev pub osk_pad : TouchpadState → OskPad
  osk_pad source = record {
    touched = source.touched;
    pressed = source.clicked;
    position = source.position;
  }

  -- The loop over the two pads.
  unfoldable pub update_pads : OskState → ControllerState → Bool → Option OskState
  unfolding update_pad
  update_pads keyboard s was_visible = do
    after ← update_pad keyboard OskPadSide.left (osk_pad s.left_pad) was_visible
    update_pad after OskPadSide.right (osk_pad s.right_pad) was_visible

  unfoldable pub shown_pads : Daemon → ControllerState → Bool → Option OskState
  unfolding sync_keyboard update_pads
  shown_pads d s was_visible =
      if d.keyboard.visible
      then update_pads (sync_keyboard d.mapper d.keyboard) s was_visible
      else some d.keyboard

  unfoldable pub handle_state : Daemon → ControllerState → ℕ → Option (Daemon × List Act)
  unfolding process gamepad_touchpad emit_mapped closed_at shown_pads
  handle_state d s now = do
    let was_visible = d.keyboard.visible
    (m, mapped) ← process d.mapper s was_visible []
    pad ← gamepad_touchpad m
    (after, acts) ← emit_mapped d (m, mapped)
    keyboard ← shown_pads after s was_visible
    some (
      record after {
        keyboard = keyboard;
        keyboard_closed_at = closed_at d.keyboard_closed_at was_visible after.keyboard.visible now;
      },
      updates_source s pad ∷ acts ++ publishes keyboard ∷ [],
    )

  unfoldable pub handle_disconnected : Daemon → Option (Daemon × List Act)
  unfolding gamepad release_all emit_mapped set_visible publish_keyboard
  handle_disconnected d = do
    kind ← gamepad d.mapper
    mapped ← release_all d.mapper []
    (after, acts) ← emit_mapped d mapped
    let gone = effect (sets_gamepad absent) ∷ effect (sets_gamepad kind) ∷ acts
    some (publish_keyboard (without_battery (closed after), gone))

  unfoldable pub handle_event : DeviceEvent → ℕ → Daemon → Option (Daemon × List Act)
  unfolding handle_state handle_disconnected
  handle_event (state s) now d = handle_state d s now
  handle_event (battery percent is_charging) now d = some (
    record d { battery_percent = some percent; charging = some is_charging },
    sets_gamepad_battery percent ∷ [],
  )
  handle_event disconnected now d = handle_disconnected d

module _ ⦃p : Platform⦄ ⦃maps : ConfigMaps⦄ ⦃held_map : IndexMap HeldOutput ℕ⦄ ⦃text : KeyText⦄
    ⦃k : Kdl⦄ where
  open maps use {osk_map}

  unfoldable pub handle_request : Request → ℕ → Daemon → Option (Daemon × List Act)
  unfolding mode_name set_mode next_mode_of emit_done parse apply hide key_request
  handle_request (status connected device) now d = do
    name ← mode_name d.mapper.config d.mapper.active_mode
    some (respond (status_of connected name d.battery_percent d.charging device) (d, []))
  handle_request (mode_set name) now d = do
    result ← set_mode d.mapper name []
    elim result [ none ↦ some (respond error (d, [])) | some mapped ↦ emit_done d mapped ]
  handle_request mode_next now d = do mapped ← next_mode_of d.mapper []; emit_done d mapped
  handle_request (haptic h) now d = some (respond done (d, effect (plays h) ∷ []))
  handle_request (config_apply source) now d = elim (parse source) [
    | ok config ↦ apply d config
    | err issues ↦ some (respond error (d, []))
    | panics ↦ none
  ]
  handle_request osk now d = none
  handle_request (osk_hide session) now d = hide d session
  handle_request (key code shift session) now d =
      let (answer, typed) = key_request d.keyboard d.keyboard_closed_at now code shift session in
      some (respond (response_of answer) (d, typed_act typed))

  unfoldable pub step : Step → Daemon → Option (Daemon × List Act)
  unfolding handle_request handle_event
  step (request r now) d = handle_request r now d
  step (event e now) d = handle_event e now d

  unfoldable pub steps : List Step → Daemon → Option (Daemon × List Act)
  unfolding step
  steps [] d = some (d, [])
  steps (x ∷ xs) d = do (d', acts) ← step x d; (d'', later) ← steps xs d'; some (d'', acts ++ later)

  -- `main` before its loop, on the configuration that it parsed.
  unfoldable pub start_daemon : Config → Option (Daemon × List Act)
  unfolding new gamepad set_bindings publish_keyboard
  start_daemon config = do
    m ← new config
    kind ← gamepad m
    keyboard ← set_bindings default_state (osk_map.entries m.config.osk_bindings)
    some (
        publish_keyboard (
          record {
            mapper = m;
            keyboard = keyboard;
            keyboard_closed_at = none;
            battery_percent = none;
            charging = none;
          },
          sets_click_pressure config.click_pressure ∷ effect (sets_gamepad kind) ∷ [],
        ))

  abbrev pub or_panics : Option (Daemon × List Act) → Parsed (Daemon × List Act)
  or_panics none = panics
  or_panics (some r) = ok r

  unfoldable pub run_from : Config → List Step → Option (Daemon × List Act)
  unfolding start_daemon steps
  run_from config xs = do
    (d, acts) ← start_daemon config
    (d', later) ← steps xs d
    some (d', acts ++ later)

  -- `main` on the text of its configuration, and the steps of its loop.
  unfoldable pub main : String → List Step → Parsed (Daemon × List Act)
  unfolding parse run_from
  main source xs = elim (parse source) [
    | ok config ↦ or_panics (run_from config xs)
    | err issues ↦ err issues
    | panics ↦ panics
  ]
