-- ===== src/Tests/Daemon.antt =====
-- The daemon's handling of outputs and requests at a concrete mapper and keyboard.
use steam_controller_daemon.Config.{string_eq}
use steam_controller_daemon.Protocol.Buttons.{button_eq}
use steam_controller_daemon.Ipc.State.{OskState, default_state}
use steam_controller_daemon.Mapper.Types.{Output, key_output, HeldOutput, key_held, held_eq}
use steam_controller_daemon.Mapper.Held.Observer.{down, observe}
use steam_controller_daemon.Mapper.Invariant.{Good}
use steam_controller_daemon.Daemon.{emit}
use steam_controller_daemon.Daemon.Emit.{Emits, emit-Good}
use steam_controller_daemon.Daemon.Requests.{done, key_request, hide_request}
use steam_controller_daemon.Daemon.Requests.Guards.{
  Open, IsKeyCode, key_request-typed, Hides, hide_request-Hides,
}
use steam_controller_daemon.Platform.Assoc
use steam_controller_daemon.Prelude.Panic.{Ensures}
use steam_controller_daemon.Prelude.{
  ◌≡◌, ◌≢◌, ◌↔◌, ◌⊎◌, refl, true, false, none, some, List, [], ◌∷◌, arith, ◌==◌, Bool,
}
use steam_controller_daemon.Tests.Sample.{sample, sample_maps, sample_held}
use steam_controller_daemon.Tests.Mapper.{chord_config, chord_config-IsConfig, holding}

-- A toggle of the keyboard after a key.
abbrev toggling_outputs : List Output
toggling_outputs = key_output 45 true ∷ Output.keyboard_toggle ∷ []

toggling-Good : Good (λ h. false) chord_config (holding, toggling_outputs)
unfolding down observe Assoc.get held_eq
toggling-Good = record {
  fits = record { config_eq = refl; active_lt = omega arith; global_len = refl; axes_len = refl };
  synced = λ h. ground arith;
}

emit-Good_example :
    Ensures
      (Emits (λ h. false) chord_config chord_config-IsConfig default_state toggling_outputs)
      (emit holding default_state toggling_outputs)
emit-Good_example =
    emit-Good (λ h. false) chord_config chord_config-IsConfig holding default_state toggling_outputs
      toggling-Good

abbrev shown : OskState
shown = record default_state { visible = true; session = 3 }

key_request-typed_example :
    ((key_request shown none 5 30 true 3).1 ≡ some (30, true)
      ↔ ((shown.session ≢ 0) × (shown.session ≡ shown.session) × Open shown none 5 × IsKeyCode 30))
    × (((key_request shown none 5 30 true 3).1 ≡ none)
        ⊎ (key_request shown none 5 30 true 3 ≡ (done, some (30, true))))
key_request-typed_example = key_request-typed shown none 5 30 true 3 (omega arith)

-- What is down before: the key that the mapper holds.
abbrev pub key_down : HeldOutput → Bool
key_down h = key_held 45 == h

pub holding-Good : Good key_down chord_config (holding, [])
unfolding down Assoc.get held_eq
holding-Good = record {
  fits = record { config_eq = refl; active_lt = omega arith; global_len = refl; axes_len = refl };
  synced = λ h. ground arith;
}

hide_request-Hides_example :
    Ensures (Hides key_down chord_config chord_config-IsConfig) (hide_request holding shown none 3)
hide_request-Hides_example =
    hide_request-Hides key_down chord_config chord_config-IsConfig holding shown none 3 holding-Good
      (λ e. omega arith) refl refl
