-- ===== src/Config/Parse/Axis.antt =====
-- An axis mapping: core/src/config.rs, `parse_axis` and `duplicate_axis_target`.
pub mod Safe
use Prim.Native.String.{String}
use steam_controller_daemon.Platform.{Platform}
use steam_controller_daemon.Protocol.Buttons.{Buttons, no_buttons, button_eq, insert}
use steam_controller_daemon.Protocol.State.{Trackpad}
use steam_controller_daemon.Config.{
  Trigger, Stick, VectorTarget, gamepad_left_stick, gamepad_right_stick, mouse_motion, scroll,
  AxisComponent, x_component, y_component, AxisActivation, AxisOptions, VectorOptions, AxisMapping,
  pad_position, pad_motion, circular_scroll, gyro, string_eq,
}
use steam_controller_daemon.Kdl.{
  Kdl, at_node, Parsed, fails, one_of, read_str, read_bool, read_f32, argument, property,
  property_or, optional_property, properties, children, arguments, or_default,
}
use steam_controller_daemon.Config.Parse.Names.{parse_button, parse_axis_component}
use steam_controller_daemon.Prelude.Int.{pos}
use steam_controller_daemon.Prelude.Outcome.{ok, ◌>>=◌, ◌>>◌}
use steam_controller_daemon.Prelude.{
  ℕ, suc, Bool, true, false, not, ◌&&◌, ◌||◌, xor, Option, none, some, List, [], ◌∷◌, nat_beq, ◌==◌,
  if◌then◌else◌,
}

pub data AxisChild : Type 0 where
  trigger_child buttons_child components_child : AxisChild

unfoldable pub axis_children : List (String × AxisChild)
axis_children =
    ("trigger", trigger_child) ∷ ("buttons", buttons_child) ∷ ("components", components_child) ∷ []

unfoldable pub trigger_names : List (String × Trigger)
trigger_names = ("left-trigger", Trigger.left) ∷ ("right-trigger", Trigger.right) ∷ []

unfoldable pub target_names : List (String × VectorTarget)
target_names =
    ("gamepad-left-stick", gamepad_left_stick)
    ∷ ("gamepad-right-stick", gamepad_right_stick)
    ∷ ("mouse-motion", mouse_motion)
    ∷ ("scroll", scroll)
    ∷ []

pub data AxisSource : Type 0 where
  stick_source : Stick → AxisSource
  pad_source : Trackpad → AxisSource
  gyro_source : AxisSource

unfoldable pub source_names : List (String × AxisSource)
source_names =
    ("left-stick", stick_source Stick.left)
    ∷ ("right-stick", stick_source Stick.right)
    ∷ ("left-pad", pad_source Trackpad.left)
    ∷ ("right-pad", pad_source Trackpad.right)
    ∷ ("gyro", gyro_source)
    ∷ []

-- The properties that `props!` allows on an axis node.
unfoldable pub axis_properties : List String
axis_properties =
    "deadzone" ∷ "sensitivity" ∷ "acceleration" ∷ "curve" ∷ "exponent" ∷ "invert-x" ∷ "invert-y"
    ∷ "swap-xy" ∷ []

module _ ⦃p : Platform⦄ where
  -- What the children of an axis node set.
  pub record AxisParts : Type 0 where
    pub activation : Option AxisActivation
    pub components : Option (AxisComponent × AxisComponent)

  abbrev pub is_some_activation : Option AxisActivation → Bool
  is_some_activation none = false
  is_some_activation (some a) = true

  abbrev pub is_some_components : Option (AxisComponent × AxisComponent) → Bool
  is_some_components none = false
  is_some_components (some a) = true

module _ ⦃p : Platform⦄ ⦃k : Kdl⦄ where
  open p use {F32, from_int, is_finite, float_lt, float_le}
  open k use {KdlNode, KdlEntry, name_of}

  unfoldable pub check_thresholds : KdlNode → F32 → F32 → Parsed (Unit {0})
  check_thresholds child engage release =
      if not (is_finite engage)
        || not (is_finite release)
        || float_lt release (from_int (pos 0))
        || float_le engage release
        || float_lt (from_int (pos 1)) engage
      then fails (at_node child)
          "axis mapping activation thresholds must satisfy 0 <= release < engage <= 1"
      else ok tt

  unfoldable pub parse_activation : KdlNode → AxisParts → Parsed AxisParts
  unfolding argument read_str one_of trigger_names property read_f32 properties check_thresholds
  parse_activation child parts = do
    name ← argument read_str child 0
    source ← one_of (at_node child) name trigger_names
    properties child ("engage" ∷ "release" ∷ [])
    engage ← property read_f32 child "engage"
    release ← property read_f32 child "release"
    check_thresholds child engage release
    ok (record parts { activation = some (AxisActivation.trigger source engage release) })

  unfoldable pub insert_arguments : KdlNode → List KdlEntry → ℕ → Buttons → Parsed Buttons
  unfolding argument read_str parse_button insert
  insert_arguments child [] position found = ok found
  insert_arguments child (entry ∷ entries) position found = do
    name ← argument read_str child position
    button ← parse_button name child
    insert_arguments child entries (suc position) (insert found button)

  abbrev pub is_nil : List KdlEntry → Bool
  is_nil [] = true
  is_nil _ = false

  unfoldable pub parse_axis_child : KdlNode → AxisChild → AxisParts → Parsed AxisParts
  unfolding parse_activation properties insert_arguments arguments argument parse_axis_component
      read_str
  parse_axis_child child trigger_child parts =
      if is_some_activation parts.activation
      then fails (at_node child) "axis mapping must contain at most one activation"
      else parse_activation child parts
  parse_axis_child child buttons_child parts =
      if is_some_activation parts.activation
      then fails (at_node child) "axis mapping must contain at most one activation"
      else (do
        properties child []
        found ← insert_arguments child (arguments child) 0 no_buttons
        (if is_nil (arguments child)
            then fails (at_node child) "axis mapping activation must contain at least one button"
            else ok (record parts { activation = some (AxisActivation.buttons found) })))
  parse_axis_child child components_child parts =
      if is_some_components parts.components
      then fails (at_node child) "axis mapping must contain at most one components node"
      else (do
        properties child []
        first_name ← argument read_str child 0
        first ← parse_axis_component first_name child
        second_name ← argument read_str child 1
        second ← parse_axis_component second_name child
        ok (record parts { components = some (first, second) }))

  unfoldable pub parse_axis_children : List KdlNode → AxisParts → Parsed AxisParts
  unfolding one_of axis_children parse_axis_child
  parse_axis_children [] parts = ok parts
  parse_axis_children (child ∷ nodes) parts = do
    kind ← one_of (at_node child) (name_of child) axis_children
    parts' ← parse_axis_child child kind parts
    parse_axis_children nodes parts'

  -- The properties of an axis node, as they are read.
  pub record AxisProps : Type 0 where
    pub deadzone : F32
    pub sensitivity : F32
    pub acceleration : Option F32
    pub curve : String
    pub exponent : F32
    pub invert_x : Bool
    pub invert_y : Bool
    pub swap_xy : Bool

  unfoldable pub read_axis_props : KdlNode → Parsed AxisProps
  unfolding properties axis_properties property_or optional_property read_f32 read_bool read_str
  read_axis_props node = do
    properties node axis_properties
    deadzone ← property_or read_f32 node "deadzone" (from_int (pos 0))
    sensitivity ← property_or read_f32 node "sensitivity" (from_int (pos 1))
    acceleration ← optional_property read_f32 node "acceleration"
    curve ← property_or read_str node "curve" "linear"
    exponent ← property_or read_f32 node "exponent" (from_int (pos 2))
    invert_x ← property_or read_bool node "invert-x" false
    invert_y ← property_or read_bool node "invert-y" false
    swap_xy ← property_or read_bool node "swap-xy" false
    ok (record {
      deadzone = deadzone;
      sensitivity = sensitivity;
      acceleration = acceleration;
      curve = curve;
      exponent = exponent;
      invert_x = invert_x;
      invert_y = invert_y;
      swap_xy = swap_xy;
    })

  unfoldable pub check_acceleration : KdlNode → String → String → Option F32 → Parsed (Unit {0})
  unfolding string_eq
  check_acceleration node source target none = ok tt
  check_acceleration node source target (some value) =
      if not (is_finite value) || float_lt value (from_int (pos 0))
      then fails (at_node node) "axis mapping acceleration must be finite and non-negative"
      else if not (source == "left-pad" || source == "right-pad") || not (target == "mouse-motion")
      then fails (at_node node)
          "axis mapping acceleration is only valid for a trackpad source and mouse-motion target"
      else ok tt

  -- `curve` decides whether the exponent counts.
  unfoldable pub exponent_of : KdlNode → AxisProps → Parsed F32
  unfolding one_of
  exponent_of node props =
      one_of (at_node node) props.curve
        (("linear", from_int (pos 1)) ∷ ("exponential", props.exponent) ∷ [])

  abbrev pub bad_deadzone : AxisProps → Bool
  bad_deadzone props =
      not (is_finite props.deadzone)
      || not
          (float_le (from_int (pos 0)) props.deadzone && float_lt props.deadzone (from_int (pos 1)))

  abbrev pub bad_sensitivity : AxisProps → Bool
  bad_sensitivity props =
      not (is_finite props.sensitivity) || float_lt props.sensitivity (from_int (pos 0))

  abbrev pub bad_exponent : AxisProps → Bool
  bad_exponent props = not (is_finite props.exponent) || float_le props.exponent (from_int (pos 0))

  -- The checks of the numbers, in their order, and the exponent that counts.
  unfoldable pub check_axis_props : KdlNode → String → String → AxisProps → Parsed F32
  unfolding check_acceleration exponent_of
  check_axis_props node source target props =
      if bad_deadzone props
      then fails (at_node node) "axis mapping deadzone must be finite and in [0, 1)"
      else if bad_sensitivity props
      then fails (at_node node) "axis mapping sensitivity must be finite and non-negative"
      else (do
        check_acceleration node source target props.acceleration
        (if bad_exponent props
            then fails (at_node node) "axis mapping exponent must be finite and greater than zero"
            else exponent_of node props))

  abbrev pub as_trigger : Bool → Trigger
  as_trigger true = Trigger.left
  as_trigger false = Trigger.right

  -- The mapping of a pad, by its target.
  unfoldable pub pad_mapping : Trackpad → VectorTarget → VectorOptions → Option F32 → AxisMapping
  pad_mapping pad gamepad_left_stick options acceleration = pad_position pad Stick.left options
  pad_mapping pad gamepad_right_stick options acceleration = pad_position pad Stick.right options
  pad_mapping pad mouse_motion options acceleration =
      pad_motion pad options (or_default acceleration (from_int (pos 0)))
  pad_mapping pad scroll options acceleration = circular_scroll pad options

  unfoldable pub vector_mapping :
      AxisSource → VectorTarget → VectorOptions → AxisParts → Option F32 → AxisMapping
  unfolding pad_mapping
  vector_mapping (stick_source source) target options parts acceleration =
      AxisMapping.stick source target options
  vector_mapping (pad_source pad) target options parts acceleration =
      pad_mapping pad target options acceleration
  vector_mapping gyro_source target options parts acceleration =
      gyro (or_default parts.components (y_component, x_component)) target options

  abbrev pub is_scalar_source : String → Bool
  is_scalar_source source = source == "left-trigger" || source == "right-trigger"

  abbrev pub is_scalar_target : String → Bool
  is_scalar_target target = target == "gamepad-left-trigger" || target == "gamepad-right-trigger"

  -- What `parse_axis` does once its properties are checked.
  unfoldable pub finish_axis :
      KdlNode → String → String → AxisParts → AxisProps → F32 → Parsed AxisMapping
  unfolding one_of target_names source_names vector_mapping string_eq
  finish_axis node source target parts props exponent =
      let options : AxisOptions = record {
        activation = parts.activation;
        deadzone = props.deadzone;
        sensitivity = props.sensitivity;
        exponent = exponent;
      } in
      let vector : VectorOptions = record {
        axis = options;
        invert_x = props.invert_x;
        invert_y = props.invert_y;
        swap_xy = props.swap_xy;
      } in
      if is_scalar_source source
      then ok (
          AxisMapping.trigger (as_trigger (source == "left-trigger"))
            (as_trigger (target == "gamepad-left-trigger")) options)
      else (do
        onto ← one_of (at_node node) target target_names
        from ← one_of (at_node node) source source_names
        ok (vector_mapping from onto vector parts props.acceleration))

  unfoldable pub parse_axis : KdlNode → Parsed AxisMapping
  unfolding argument read_str parse_axis_children children read_axis_props check_axis_props
      finish_axis string_eq
  parse_axis node = do
    source ← argument read_str node 0
    target ← argument read_str node 1
    (if xor (is_scalar_source source) (is_scalar_target target)
        then fails (at_node node)
            "axis mapping must connect a scalar source to a trigger or a vector source to a stick, mouse, or scroll target"
        else (do
          parts ←
              parse_axis_children (children node) (record { activation = none; components = none })
          (if is_some_components parts.components && not (source == "gyro")
              then fails (at_node node) "axis mapping components is only valid for a gyro source"
              else (do
                props ← read_axis_props node
                exponent ← check_axis_props node source target props
                finish_axis node source target parts props exponent))))

module _ ⦃p : Platform⦄ where
  -- The inner `target` of `duplicate_axis_target`.
  unfoldable pub exclusive_target : AxisMapping → Option ℕ
  exclusive_target (AxisMapping.trigger source Trigger.left options) = some 0
  exclusive_target (AxisMapping.trigger source Trigger.right options) = some 1
  exclusive_target (circular_scroll pad options) = some 2
  exclusive_target (AxisMapping.stick source scroll options) = some 2
  exclusive_target (gyro components scroll options) = some 2
  exclusive_target _ = none

  abbrev pub same_target : Option ℕ → Option ℕ → Bool
  same_target (some a) (some b) = nat_beq a b
  same_target _ _ = false

  unfoldable pub duplicate_axis_target : AxisMapping → AxisMapping → Bool
  unfolding exclusive_target
  duplicate_axis_target left right = same_target (exclusive_target left) (exclusive_target right)
