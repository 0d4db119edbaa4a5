-- ===== src/Mapper/Switch.antt =====
-- Modes: daemon/src/mapper.rs, `switch_mode`, `apply_action` and the calls that the daemon makes on
-- the mapper besides `process`. `none` is a panic.
pub mod Good
pub mod Active
pub mod Calls
use Prim.Native.String.{String}
use steam_controller_daemon.Platform.{Platform, IndexMap}
use steam_controller_daemon.Protocol.Buttons.{no_buttons}
use steam_controller_daemon.Config.{
  ConfigMaps, Config, ModeId, Mode, Action, mode_set, mode_next, mode_id, mode_name, mode_of,
  next_mode,
}
use steam_controller_daemon.Mapper.Types.{
  Output, mode_changed, HeldOutput, held_eq, from_action, idle_global, TrackpadHapticState, Mapper,
}
use steam_controller_daemon.Mapper.Held.{set_held, release_outputs}
use steam_controller_daemon.Prelude.Int.{pos}
use steam_controller_daemon.Prelude.Panic.{◌>>=◌, unwrap_or}
use steam_controller_daemon.Prelude.{
  ℕ, zero, suc, Bool, true, false, not, Option, none, some, List, [], ◌∷◌, ◌++◌, fill, length,
  replicate, nat_beq, if◌then◌else◌,
}

-- `Vec::resize`.
unfoldable pub resize {ℓ} : {A : Type ℓ} → List A → ℕ → A → List A
resize xs zero d = []
resize [] (suc n) d = d ∷ resize [] n d
resize (x ∷ xs) (suc n) d = x ∷ resize xs n d

module _ ⦃p : Platform⦄ where
  open p use {from_int}

  -- `TrackpadHapticState::default()`.
  abbrev pub idle_haptic : TrackpadHapticState
  idle_haptic = record { previous_position = none; progress = from_int (pos 0); last_tick = none }

module _ ⦃p : Platform⦄ ⦃maps : ConfigMaps⦄ ⦃held_map : IndexMap HeldOutput ℕ⦄ where
  open p use {F32, from_int, KeyCode}
  open maps use {osk_map}

  -- `Mapper::mode`.
  unfoldable pub mode : Mapper → Option Mode
  mode m = mode_of m.config m.active_mode

  -- `Mapper::new`.
  unfoldable pub new : Config → Option Mapper
  new config = do
    first ← mode_of config config.default_mode
    some (record {
      config = config;
      active_mode = config.default_mode;
      global = replicate (length config.global_bindings) idle_global;
      routes = [];
      quarantined = no_buttons;
      osk_active = no_buttons;
      held = held_map.new;
      gamepad_axes = λ a. from_int (pos 0);
      axis_active = replicate (length first.axes) false;
      trackpad_haptics = λ pad. idle_haptic;
      previous = none;
    })

  unfoldable pub reset_runtime : Mapper → Option Mapper
  reset_runtime m = do
    current ← mode m
    some (record m {
      global = fill (resize m.global (length m.config.global_bindings) idle_global) idle_global;
      axis_active = fill (resize m.axis_active (length current.axes) false) false;
      trackpad_haptics = λ pad. idle_haptic;
    })

  unfoldable pub mode_changed_output : Mapper → Option Output
  mode_changed_output m = do
    name ← mode_name m.config m.active_mode
    some (mode_changed name m.config.mode_switch_haptic)

  -- The end of `switch_mode` and `reload`.
  unfoldable pub enter_mode : Mapper → List Output → Option (Mapper × List Output)
  enter_mode m outputs = do
    fresh ← reset_runtime m
    change ← mode_changed_output fresh
    some (fresh, outputs ++ change ∷ [])

  unfoldable pub switch_mode : Mapper → ModeId → List Output → Option (Mapper × List Output)
  switch_mode m target outputs =
      if nat_beq m.active_mode target
      then some (m, outputs)
      else (let (released, outputs') = release_outputs m outputs in
          enter_mode (record released { active_mode = target }) outputs')

  -- The mode that an action which holds no output asks for; `unreachable!` for the others.
  unfoldable pub target_mode : Mapper → Action → Option ModeId
  target_mode m (mode_set target) = some target
  target_mode m mode_next = next_mode m.config m.active_mode
  target_mode m _ = none

  -- What `apply_action` returns: the mapper, the outputs, whether it interrupts, the held output.
  abbrev pub Applied : Type 0
  Applied = Mapper × List Output × Bool × Option HeldOutput

  interrupting : Mapper → ModeId → List Output → Option Applied
  interrupting m target outputs = do
    (switched, outputs') ← switch_mode m target outputs
    some (switched, outputs', true, none)

  unfoldable pub apply_mode : Mapper → Action → List Output → Option Applied
  unfolding interrupting
  apply_mode m act outputs = do
    target ← target_mode m act
    if nat_beq target m.active_mode
        then some (m, outputs, false, none)
        else interrupting m target outputs

  unfoldable pub apply_action : Mapper → Action → Bool → List Output → Option Applied
  apply_action m act active outputs = elim (from_action act) [
    | some h ↦
        let (held, outputs') = set_held m.held h active outputs in
        some (record m { held = held }, outputs', false, some h)
    | none ↦ if not active then some (m, outputs, false, none) else apply_mode m act outputs
  ]

  -- `Mapper::set_mode`: the outer `none` is a panic, the inner one the error of an unknown mode.
  unfoldable pub set_mode : Mapper → String → List Output → Option (Option (Mapper × List Output))
  set_mode m name outputs = elim (mode_id m.config name) [
    | none ↦ some none
    | some target ↦ do result ← switch_mode m target outputs; some (some result)
  ]

  unfoldable pub next_mode_of : Mapper → List Output → Option (Mapper × List Output)
  next_mode_of m outputs = do
    target ← next_mode m.config m.active_mode
    switch_mode m target outputs

  unfoldable pub reload : Mapper → Config → List Output → Option (Mapper × List Output)
  reload m config outputs = do
    name ← mode_name m.config m.active_mode
    let active = unwrap_or (mode_id config name) config.default_mode
    let (released, outputs') = release_outputs m outputs
    enter_mode (record released { active_mode = active; config = config }) outputs'

  unfoldable pub release_all : Mapper → List Output → Option (Mapper × List Output)
  release_all m outputs = do
    let (released, outputs') = release_outputs m outputs
    fresh ← reset_runtime released
    some (record fresh { previous = none }, outputs')

  unfoldable pub suspend : Mapper → List Output → Mapper × List Output
  suspend m outputs = release_outputs m outputs
