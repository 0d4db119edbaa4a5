-- ===== src/Config.antt =====
-- The configuration that the mapper runs on: core/src/config.rs, the types and `impl Config`.
pub mod Keys
pub mod Parse
use Prim.Native.String.{String}
use text.Mathlib.Text.{◌==◌ as str_eq}
use text.Mathlib.TextEquality.{eq_iff}
use steam_controller_daemon.Platform.{Platform, IndexMap}
use steam_controller_daemon.Protocol.Buttons.{Button, Buttons, button_eq}
use steam_controller_daemon.Protocol.Haptic.{Haptic}
use steam_controller_daemon.Protocol.State.{Trackpad}
use steam_controller_daemon.Prelude.Eq.{Eq}
use steam_controller_daemon.Prelude.{
  ℕ, ◌+◌, ◌%◌, Bool, Option, none, some, List, get_elem?, length, nat_beq, if◌then◌else◌,
}
use Keys.{MouseButton, GamepadButton}

instance unfoldable pub string_eq : Eq String
string_eq = record { beq = str_eq; beq_iff = eq_iff }

-- `ModeId(usize)`: a place in `modes`.
abbrev pub ModeId : Type 0
ModeId = ℕ

pub data Gamepad : Type 0 where
  absent xbox dual_shock4 : Gamepad

pub data Trigger : Type 0 where
  left right : Trigger

pub data Stick : Type 0 where
  left right : Stick

pub data VectorTarget : Type 0 where
  gamepad_left_stick gamepad_right_stick mouse_motion scroll : VectorTarget

pub data AxisComponent : Type 0 where
  x_component y_component z_component : AxisComponent

module _ ⦃p : Platform⦄ where
  open p use {F32, KeyCode}

  pub data Action : Type 0 where
    key : KeyCode → Action
    mouse : MouseButton → Action
    gamepad : GamepadButton → Action
    mode_set : ModeId → Action
    mode_next : Action

  pub data GlobalAction : Type 0 where
    action : Action → GlobalAction
    keyboard_toggle : GlobalAction

  pub record Binding : Type 0 where
    pub inputs : Buttons
    pub trigger : Button
    pub bound : Action

  pub record GlobalBinding : Type 0 where
    pub inputs : Buttons
    pub trigger : Button
    pub bound : GlobalAction

  pub record Layer : Type 0 where
    pub hold : Button
    pub bindings : List Binding

  pub data AxisActivation : Type 0 where
    trigger : (source : Trigger) (engage release : F32) → AxisActivation
    buttons : Buttons → AxisActivation

  pub record AxisOptions : Type 0 where
    pub activation : Option AxisActivation
    pub deadzone : F32
    pub sensitivity : F32
    pub exponent : F32

  pub record VectorOptions : Type 0 where
    pub axis : AxisOptions
    pub invert_x : Bool
    pub invert_y : Bool
    pub swap_xy : Bool

  pub data AxisMapping : Type 0 where
    trigger : (source target : Trigger) (options : AxisOptions) → AxisMapping
    stick : (source : Stick) (target : VectorTarget) (options : VectorOptions) → AxisMapping
    pad_position : (pad : Trackpad) (target : Stick) (options : VectorOptions) → AxisMapping
    pad_motion : (pad : Trackpad) (options : VectorOptions) (acceleration : F32) → AxisMapping
    circular_scroll : (pad : Trackpad) (options : VectorOptions) → AxisMapping
    gyro :
        (components : AxisComponent × AxisComponent) (target : VectorTarget)
        (options : VectorOptions)
        → AxisMapping

  pub record Mode : Type 0 where
    pub gamepad_kind : Gamepad
    pub gamepad_touchpad : Option Trackpad
    pub bindings : List Binding
    pub axes : List AxisMapping
    pub layers : List Layer

  -- The two maps of a configuration.
  pub record ConfigMaps : Type 1 where
    pub osk_map : IndexMap Button KeyCode
    pub name_map : IndexMap String ModeId

module _ ⦃p : Platform⦄ ⦃maps : ConfigMaps⦄ where
  open p use {KeyCode}
  open maps use {osk_map, name_map}

  pub record Config : Type 0 where
    pub default_mode : ModeId
    pub mode_switch_haptic : Option Haptic
    pub click_pressure : ℕ
    pub osk_bindings : osk_map.Map
    pub global_bindings : List GlobalBinding
    pub mode_names : name_map.Map
    pub modes : List Mode

  unfoldable pub mode_id : Config → String → Option ModeId
  mode_id c name = name_map.get c.mode_names name

  -- `none` is a panic here and below: `get_index` out of range and `expect`.
  unfoldable pub mode_name : Config → ModeId → Option String
  mode_name c mode = elim (get_elem? (name_map.entries c.mode_names) mode) [
    | none ↦ none
    | some (name, _) ↦ some name
  ]

  -- `&self.modes[mode.0]`.
  unfoldable pub mode_of : Config → ModeId → Option Mode
  mode_of c mode = get_elem? c.modes mode

  -- The remainder by 0 panics.
  unfoldable pub next_mode : Config → ModeId → Option ModeId
  next_mode c mode = let n = length c.modes in if nat_beq n 0 then none else some ((mode + 1) % n)
