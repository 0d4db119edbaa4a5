-- ===== src/Tests/Mapper.antt =====
-- The mapper on a configuration of the source's tests.
use steam_controller_daemon.Protocol.Buttons.{Button, button_x, steam, lb, button_eq, no_buttons}
use steam_controller_daemon.Config.{Config, Mode, keyboard_toggle, key, absent, string_eq, mode_id}
use steam_controller_daemon.Mapper.Types.{
  Output, key_output, HeldOutput, key_held, idle_global, held_eq, Mapper,
}
use steam_controller_daemon.Mapper.Held.{set_held}
use steam_controller_daemon.Mapper.Held.Observer.{down, observe}
use steam_controller_daemon.Mapper.Held.Count.{counted, pressing, releasing, set_held-counted}
use steam_controller_daemon.Mapper.Invariant.{IsConfig, Good}
use steam_controller_daemon.Mapper.Switch.{suspend, set_mode, idle_haptic}
use steam_controller_daemon.Mapper.Switch.Calls.{NothingDown, suspend-Good, SetMode, set_mode-Good}
use steam_controller_daemon.Mapper.Session.{
  Call, processes, releases_all, call, session, Sound, session-Sound, session-NothingDown,
}
use steam_controller_daemon.Platform.Assoc
use steam_controller_daemon.Tests.Runs.{run_session}
use steam_controller_daemon.Prelude.Panic.{◌>>=◌, Ensures}
use steam_controller_daemon.Prelude.{
  ◌≡◌, refl, true, false, none, some, List, [], ◌∷◌, ◌++◌, ◌+◌, ◌-◌, ◌≢◌, Bool, Option, arith,
}
use steam_controller_daemon.Tests.Sample.{
  sample, sample_maps, sample_held, buttons_with, state_with,
}

-- `global_chord_is_ordered_consuming_and_edge_triggered`.
abbrev pub desktop : Mode
desktop = record {
  gamepad_kind = absent;
  gamepad_touchpad = none;
  bindings =
      record { inputs = buttons_with (steam ∷ []); trigger = steam; bound = key 125 }
      ∷ record { inputs = buttons_with (button_x ∷ []); trigger = button_x; bound = key 45 }
      ∷ [];
  axes = [];
  layers =
      record {
        hold = lb;
        bindings =
            record { inputs = buttons_with (button_x ∷ []); trigger = button_x; bound = key 20 }
            ∷ [];
      }
      ∷ [];
}

abbrev pub chord_config : Config
chord_config = record {
  default_mode = 0;
  mode_switch_haptic = none;
  click_pressure = 25;
  osk_bindings = [];
  global_bindings =
      record {
        inputs = buttons_with (steam ∷ button_x ∷ []);
        trigger = button_x;
        bound = keyboard_toggle;
      }
      ∷ [];
  mode_names = ("desktop", 0) ∷ [];
  modes = desktop ∷ [];
}

abbrev outputs_of : Option (Mapper × List Output) → List Output
outputs_of none = []
outputs_of (some r) = r.1

abbrev reports : List (List Button) → List Call
reports [] = []
reports (r ∷ rs) = processes (state_with r) false ∷ reports rs

-- The chord toggles the keyboard once, and a later press of the trigger alone types its key.
abbrev chord_calls : List Call
chord_calls = reports (
    (steam ∷ lb ∷ [])
    ∷ (steam ∷ lb ∷ button_x ∷ [])
    ∷ (steam ∷ lb ∷ button_x ∷ [])
    ∷ (button_x ∷ [])
    ∷ []
    ∷ (button_x ∷ [])
    ∷ [])

-- The chord toggles the keyboard once, and a later press of the trigger alone types its key.
chord_run :
    outputs_of (run_session chord_config chord_calls)
    ≡ Output.keyboard_toggle ∷ key_output 45 true ∷ []
unfolding run_session
chord_run = refl

pub chord_config-IsConfig : IsConfig chord_config
unfolding mode_id Assoc.get string_eq
chord_config-IsConfig = record {
  named = refl;
  default_lt = omega arith;
  mode_id_lt = λ name id h. ground arith;
  global_targets = omega arith;
  mode_targets = omega arith;
}

session-Sound_example : Ensures (Sound (λ h. false)) (session chord_config chord_calls)
session-Sound_example = session-Sound chord_config chord_calls chord_config-IsConfig (omega arith)

session-NothingDown_example :
    Ensures
      (λ r. NothingDown (λ h. false) r.1)
      (session chord_config chord_calls >>= λ r. call releases_all r)
session-NothingDown_example =
    session-NothingDown chord_config chord_calls chord_config-IsConfig (omega arith)

-- A mapper that holds one key, and its outputs so far.
abbrev pub holding : Mapper
holding = record {
  config = chord_config;
  active_mode = 0;
  global = idle_global ∷ [];
  routes = [];
  quarantined = no_buttons;
  osk_active = no_buttons;
  held = (key_held 45, 1) ∷ [];
  gamepad_axes = λ a. 0;
  axis_active = [];
  trackpad_haptics = λ pad. idle_haptic;
  previous = none;
}

abbrev key_outputs : List Output
key_outputs = key_output 45 true ∷ []

holding-Good : Good (λ h. false) chord_config (holding, key_outputs)
unfolding down observe Assoc.get held_eq
holding-Good = record {
  fits = record { config_eq = refl; active_lt = omega arith; global_len = refl; axes_len = refl };
  synced = λ h. ground arith;
}

suspend-Good_example :
    Good (λ h. false) chord_config (suspend holding key_outputs)
    × NothingDown (λ h. false) (suspend holding key_outputs).1
suspend-Good_example =
    suspend-Good (λ h. false) chord_config chord_config-IsConfig holding key_outputs holding-Good

set_mode-Good_example :
    Ensures
      (SetMode (λ h. false) chord_config chord_config-IsConfig "games")
      (set_mode holding "games" key_outputs)
set_mode-Good_example =
    set_mode-Good (λ h. false) chord_config chord_config-IsConfig holding "games" key_outputs
      holding-Good

set_held-counted_example :
    (Assoc.get (set_held holding.held (key_held 45) true []).0 (key_held 45) ≡ counted (1 + 1))
    × ((set_held holding.held (key_held 45) true []).1 ≡ [] ++ pressing (key_held 45) 1)
    × (Assoc.get (set_held holding.held (key_held 45) false []).0 (key_held 45) ≡ counted (1 - 1))
    × ((set_held holding.held (key_held 45) false []).1 ≡ [] ++ releasing (key_held 45) 1)
    × ((g : HeldOutput) (active : Bool)
        → g ≢ key_held 45
        → Assoc.get (set_held holding.held (key_held 45) active []).0 g ≡ Assoc.get holding.held g)
unfolding Assoc.get held_eq
set_held-counted_example = set_held-counted holding.held (key_held 45) [] 1 (omega arith) refl
