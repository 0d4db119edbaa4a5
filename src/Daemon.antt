-- ===== src/Daemon.antt =====
-- How the daemon hands on what the mapper returns: daemon/src/main.rs, `emit`. `Effect` is a call
-- on the output devices or on the controller; a call on the output devices that fails ends the
-- daemon, and that end is not modelled.
pub mod Emit
pub mod Requests
pub mod Loop
use steam_controller_daemon.Platform.{Platform, IndexMap}
use steam_controller_daemon.Protocol.Haptic.{Haptic, trackpad_click}
use steam_controller_daemon.Config.{ConfigMaps, Gamepad, mode_of}
use steam_controller_daemon.Ipc.State.{OskState, set_visible}
use steam_controller_daemon.Mapper.Types.{
  Output, keyboard_toggle, mode_changed, trackpad_haptic, HeldOutput, held_eq, Mapper,
}
use steam_controller_daemon.Mapper.Switch.{suspend}
use steam_controller_daemon.Prelude.Int.{negsuc}
use steam_controller_daemon.Prelude.Panic.{◌>>=◌}
use steam_controller_daemon.Prelude.{
  ℕ, Bool, true, false, not, Option, none, some, List, [], ◌∷◌, ◌++◌, any, if◌then◌else◌,
}

module _ ⦃p : Platform⦄ where
  pub data Effect : Type 0 where
    emits : Output → Effect
    sets_gamepad : Gamepad → Effect
    plays : Haptic → Effect

  -- `matches!(output, Output::KeyboardToggle)`.
  unfoldable pub is_toggle : Output → Bool
  is_toggle keyboard_toggle = true
  is_toggle _ = false

  -- `mapped.retain(..)`.
  unfoldable pub retain_others : List Output → List Output
  unfolding is_toggle
  retain_others [] = []
  retain_others (o ∷ os) = let rest = retain_others os in if is_toggle o then rest else o ∷ rest

module _ ⦃p : Platform⦄ ⦃maps : ConfigMaps⦄ ⦃held_map : IndexMap HeldOutput ℕ⦄ where
  -- `Mapper::gamepad`.
  unfoldable pub gamepad : Mapper → Option Gamepad
  unfolding mode_of
  gamepad m = do current ← mode_of m.config m.active_mode; some current.gamepad_kind

  -- The match of `emit` on one output.
  unfoldable pub dispatch : Mapper → Output → Option (List Effect)
  unfolding gamepad
  dispatch m (mode_changed name haptic) = do
    kind ← gamepad m
    some (sets_gamepad kind ∷ (elim haptic [ none ↦ [] | some h ↦ plays h ∷ [] ]))
  dispatch m (trackpad_haptic pad) = some (plays (trackpad_click pad (negsuc 14)) ∷ [])
  dispatch m o = some (emits o ∷ [])

  unfoldable pub dispatch_all : Mapper → List Output → Option (List Effect)
  unfolding dispatch
  dispatch_all m [] = some []
  dispatch_all m (o ∷ os) = do
    effects ← dispatch m o
    rest ← dispatch_all m os
    some (effects ++ rest)

  -- What `emit` leaves: the mapper, the keyboard, the outputs that it drained, and its calls.
  pub record Emitted : Type 0 where
    pub mapper : Mapper
    pub keyboard : OskState
    pub drained : List Output
    pub effects : List Effect

  -- `emit` up to the loop over the outputs.
  unfoldable pub toggled : Mapper → OskState → List Output → (Mapper × List Output) × OskState
  unfolding is_toggle retain_others suspend set_visible
  toggled m keyboard mapped =
      if any is_toggle mapped
      then (suspend m (retain_others mapped), set_visible keyboard (not keyboard.visible))
      else ((m, mapped), keyboard)

  unfoldable pub emit : Mapper → OskState → List Output → Option Emitted
  unfolding toggled dispatch_all
  emit m keyboard mapped =
      let after = toggled m keyboard mapped in
      (do
        effects ← dispatch_all after.0.0 after.0.1
        some (record {
          mapper = after.0.0;
          keyboard = after.1;
          drained = after.0.1;
          effects = effects;
        }))
