-- ===== src/Mapper/Types.antt =====
-- The mapper's state and outputs: daemon/src/mapper.rs, the types.
use Prim.Native.String.{String}
use steam_controller_daemon.Platform.{Platform, IndexMap}
use steam_controller_daemon.Protocol.Buttons.{Button, Buttons}
use steam_controller_daemon.Protocol.Haptic.{Haptic}
use steam_controller_daemon.Protocol.State.{Trackpad, StateFormat, ControllerState}
use steam_controller_daemon.Config.Keys.{MouseButton, GamepadButton, mouse_eq, gamepad_eq}
use steam_controller_daemon.Config.{
  ConfigMaps, Config, ModeId, Action, key, mouse, gamepad, mode_set, mode_next,
}
use steam_controller_daemon.Prelude.Eq.{Eq, number_beq_iff}
use steam_controller_daemon.Prelude.{
  ℕ, ◌≡◌, refl, ◌↔◌, Bool, true, false, Option, none, some, List, [], ◌∷◌, nat_beq, get_or, arith,
  ◌==◌,
}

pub data GamepadAxis : Type 0 where
  left_x left_y right_x right_y left_trigger right_trigger : GamepadAxis

-- `const GAMEPAD_AXES`.
abbrev pub gamepad_axes_all : List GamepadAxis
gamepad_axes_all = left_x ∷ left_y ∷ right_x ∷ right_y ∷ left_trigger ∷ right_trigger ∷ []

axis_number : GamepadAxis → ℕ
axis_number left_x = 0
axis_number left_y = 1
axis_number right_x = 2
axis_number right_y = 3
axis_number left_trigger = 4
axis_number right_trigger = 5

axis_at-number : (a : GamepadAxis) → get_or gamepad_axes_all (axis_number a) left_x ≡ a
unfolding axis_number
axis_at-number left_x = refl
axis_at-number _ = refl

unfoldable pub axis_beq : GamepadAxis → GamepadAxis → Bool
unfolding axis_number
axis_beq a b = nat_beq (axis_number a) (axis_number b)

pub axis_beq_iff : (a b : GamepadAxis) → (axis_beq a b ≡ true) ↔ (a ≡ b)
unfolding axis_beq
axis_beq_iff = number_beq_iff axis_number (λ i. get_or gamepad_axes_all i left_x) axis_at-number

instance unfoldable pub axis_eq : Eq GamepadAxis
unfolding axis_beq
axis_eq = record { beq = axis_beq; beq_iff = axis_beq_iff }

module _ ⦃p : Platform⦄ where
  open p use {F32, KeyCode, code, new_key, new_key-code}

  pub data Output : Type 0 where
    key_output : (k : KeyCode) (pressed : Bool) → Output
    mouse_button : (button : MouseButton) (pressed : Bool) → Output
    gamepad_button : (button : GamepadButton) (pressed : Bool) → Output
    gamepad_axis : (axis : GamepadAxis) (value : F32) → Output
    mouse_motion : (dx dy : F32) → Output
    scroll : (dx dy : F32) → Output
    trackpad_haptic : (pad : Trackpad) → Output
    keyboard_toggle : Output
    mode_changed : (name : String) (haptic : Option Haptic) → Output

  pub data HeldOutput : Type 0 where
    key_held : KeyCode → HeldOutput
    mouse_held : MouseButton → HeldOutput
    gamepad_held : GamepadButton → HeldOutput

  -- `derive(PartialEq)`; a `KeyCode` is compared by its code.
  unfoldable pub held_beq : HeldOutput → HeldOutput → Bool
  unfolding mouse_eq gamepad_eq
  held_beq (key_held a) (key_held b) = nat_beq (code a) (code b)
  held_beq (mouse_held a) (mouse_held b) = a == b
  held_beq (gamepad_held a) (gamepad_held b) = a == b
  held_beq _ _ = false

  pub held_beq_iff : (a b : HeldOutput) → (held_beq a b ≡ true) ↔ (a ≡ b)
  unfolding held_beq
  held_beq_iff (key_held a) (key_held b) =
      ground (arith, number_beq_iff code new_key new_key-code a b)
  held_beq_iff (mouse_held a) (mouse_held b) = ground (arith, mouse_eq.beq_iff a b)
  held_beq_iff (gamepad_held a) (gamepad_held b) = ground (arith, gamepad_eq.beq_iff a b)
  held_beq_iff _ _ = ground arith

  instance unfoldable pub held_eq : Eq HeldOutput
  unfolding held_beq
  held_eq = record { beq = held_beq; beq_iff = held_beq_iff }

  -- `HeldOutput::from_action`.
  unfoldable pub from_action : Action → Option HeldOutput
  from_action (key k) = some (key_held k)
  from_action (mouse b) = some (mouse_held b)
  from_action (gamepad b) = some (gamepad_held b)
  from_action (mode_set _) = none
  from_action mode_next = none

  -- `HeldOutput::output`.
  unfoldable pub output : HeldOutput → Bool → Output
  output (key_held k) pressed = key_output k pressed
  output (mouse_held b) pressed = mouse_button b pressed
  output (gamepad_held b) pressed = gamepad_button b pressed

  pub record GlobalState : Type 0 where
    pub active : Bool
    pub captured : Bool

  -- `GlobalState::default()`.
  abbrev pub idle_global : GlobalState
  idle_global = record { active = false; captured = false }

  pub record ActiveRoute : Type 0 where
    pub inputs : Buttons
    pub trigger : Button
    pub hold : Option Button
    pub held : Option HeldOutput

  pub record TrackpadHapticState : Type 0 where
    pub previous_position : Option (F32 × F32)
    pub progress : F32
    pub last_tick : Option (StateFormat × ℕ)

module _ ⦃p : Platform⦄ ⦃maps : ConfigMaps⦄ ⦃held_map : IndexMap HeldOutput ℕ⦄ where
  open p use {F32}

  -- `gamepad_axes : [f32; 6]` and `trackpad_haptics : [_; 2]` are indexed by the numbers of enums,
  -- so that they are functions.
  pub record Mapper : Type 0 where
    pub config : Config
    pub active_mode : ModeId
    pub global : List GlobalState
    pub routes : List ActiveRoute
    pub quarantined : Buttons
    pub osk_active : Buttons
    pub held : held_map.Map
    pub gamepad_axes : GamepadAxis → F32
    pub axis_active : List Bool
    pub trackpad_haptics : Trackpad → TrackpadHapticState
    pub previous : Option ControllerState
