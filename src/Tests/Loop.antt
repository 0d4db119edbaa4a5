-- ===== src/Tests/Loop.antt =====
-- The daemon on the document of the examples: requests and events, from its start.
use steam_controller_daemon.Platform.Assoc
use steam_controller_daemon.Protocol.Buttons.{button_a, steam, button_eq}
use steam_controller_daemon.Config.{string_eq}
use steam_controller_daemon.Config.Parse.Document.Valid.{parse-IsConfig}
use steam_controller_daemon.Mapper.Types.{held_eq, key_output, key_held}
use steam_controller_daemon.Mapper.Held.Observer.{down, observe}
use steam_controller_daemon.Mapper.Invariant.{IsConfig}
use steam_controller_daemon.Daemon.Loop.{
  Step, request, event, status, mode_set, config_apply, key, osk_hide, state, battery, disconnected,
  Daemon, Act, Response, responds, effect, types, handle_request, run_from, main,
}
use steam_controller_daemon.Daemon.Loop.Holds.{Holds, KeyboardSound-default}
use steam_controller_daemon.Daemon.{emits}
use steam_controller_daemon.Daemon.Loop.Receiver.{received}
use steam_controller_daemon.Daemon.Loop.Main.{Run, run_from-Next, RunsOrRefuses, main-Next}
use steam_controller_daemon.Daemon.Loop.Disconnect.{Gone, disconnected-Gone}
use steam_controller_daemon.Daemon.Loop.Answers.{Answered, handle_request-Answered}
use steam_controller_daemon.Ipc.State.{default_state}
use steam_controller_daemon.Kdl.{Issue}
use steam_controller_daemon.Prelude.Outcome.{Outcome, ok, Yields}
use steam_controller_daemon.Prelude.Panic.{Ensures}
use steam_controller_daemon.Prelude.{
  ℕ, Option, ◌≡◌, refl, subst, arith, true, false, none, some, List, [], ◌∷◌, ◌++◌,
}
use steam_controller_daemon.Tests.Sample.{sample, sample_maps, sample_held, state_with}
use steam_controller_daemon.Tests.Config.{sample_text, sample_kdl, desk_config, parse_run}
use steam_controller_daemon.Tests.Daemon.{key_down, holding-Good}
use steam_controller_daemon.Tests.Mapper.{chord_config, chord_config-IsConfig, holding}

abbrev day : List Step
day =
    event (state (state_with (button_a ∷ []))) 10
    ∷ request (mode_set "game") 20
    ∷ request (mode_set "sofa") 25
    ∷ request (config_apply "desk.kdl") 30
    ∷ event (state (state_with (steam ∷ []))) 40
    ∷ request (key 30 false 1) 50
    ∷ event (battery 80 false) 60
    ∷ request (osk_hide 1) 70
    ∷ request (status true (some "pad")) 80
    ∷ []

desk_config-IsConfig : IsConfig desk_config
desk_config-IsConfig = subst (Yields IsConfig) parse_run (parse-IsConfig "desk.kdl")

run_from-Next_example : Ensures Run (run_from desk_config day)
run_from-Next_example = run_from-Next desk_config day desk_config-IsConfig (omega arith)

main-Next_example : RunsOrRefuses "desk.kdl" (main "desk.kdl" day)
main-Next_example = main-Next "desk.kdl" day (omega arith)

disconnected-Gone_example : Yields Gone (main "desk.kdl" (day ++ event disconnected 90 ∷ []))
disconnected-Gone_example = disconnected-Gone "desk.kdl" day 90 (omega arith)

-- A daemon whose keyboard is hidden.
abbrev at_rest : Daemon
at_rest = record {
  mapper = holding;
  keyboard = default_state;
  keyboard_closed_at = none;
  battery_percent = none;
  charging = none;
}

at_rest-Holds : Holds key_down at_rest
at_rest-Holds = record {
  config = chord_config;
  valid = chord_config-IsConfig;
  good = holding-Good;
  keyboard_sound = KeyboardSound-default;
}

handle_request-Answered_example :
    Ensures (Answered at_rest) (handle_request (config_apply "desk.kdl") 5 at_rest)
handle_request-Answered_example =
    handle_request-Answered key_down (config_apply "desk.kdl") 5 at_rest tt at_rest-Holds

-- A key is refused while the keyboard is hidden; the daemon starts on the document.
refused_run :
    handle_request (key 30 false 1) 5 at_rest ≡ some (at_rest, responds Response.error ∷ [])
unfolding handle_request
refused_run = refl

abbrev battery_after : Outcome (List Issue) (Daemon × List Act) → Option ℕ
battery_after (ok (d, acts)) = d.battery_percent
battery_after _ = none

main_run : battery_after (main "desk.kdl" (event (battery 80 false) 60 ∷ [])) ≡ some 80
unfolding main Assoc.get Assoc.insert string_eq
main_run = refl

-- A key that the mapper holds is typed: it is up after that, and the mapper's shift stays down.
typed_run :
    (received (effect (emits (key_output 45 true)) ∷ types 45 false ∷ []) (key_held 45) ≡ false)
    × (received (effect (emits (key_output 42 true)) ∷ types 45 true ∷ []) (key_held 42) ≡ true)
    × (received (types 45 true ∷ effect (emits (key_output 45 true)) ∷ []) (key_held 45) ≡ true)
unfolding received down observe held_eq
typed_run = (refl, refl, refl)
