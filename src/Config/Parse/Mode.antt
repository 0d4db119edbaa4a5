-- ===== src/Config/Parse/Mode.antt =====
-- A mode with its bindings, axes and layers: core/src/config.rs, `parse_mode`. The issues that
-- `error` collects are passed on and returned.
pub mod Valid
pub mod Layers
use Prim.Native.String.{String}
use steam_controller_daemon.Platform.{Platform, IndexMap}
use steam_controller_daemon.Protocol.Buttons.{
  Button, Buttons, no_buttons, button_eq, contains, insert,
}
use steam_controller_daemon.Protocol.State.{Trackpad}
use steam_controller_daemon.Config.{
  ConfigMaps, ModeId, Action, GlobalAction, action, keyboard_toggle, Binding, Layer, Gamepad,
  absent, xbox, dual_shock4, AxisMapping, Mode, string_eq,
}
use steam_controller_daemon.Kdl.{
  Kdl, Place, at_node, Issue, issue, Parsed, one_of, read_str, argument, property, property_or,
  optional_property, properties, children, with_name,
}
use steam_controller_daemon.Config.Parse.Key.{KeyText}
use steam_controller_daemon.Config.Parse.Names.{parse_button, parse_trackpad}
use steam_controller_daemon.Config.Parse.Binding.{parse_binding}
use steam_controller_daemon.Config.Parse.Axis.{parse_axis, duplicate_axis_target}
use steam_controller_daemon.Prelude.Outcome.{Outcome, ok, err, panics, ◌>>=◌, ◌>>◌}
use steam_controller_daemon.Prelude.{
  ℕ, Bool, true, false, not, ◌&&◌, ◌||◌, Option, none, some, List, [], ◌∷◌, ◌++◌, any, nat_beq,
  ◌==◌, if◌then◌else◌,
}

pub data ModeChild : Type 0 where
  bind_child axis_child layer_child : ModeChild

unfoldable pub mode_children : List (String × ModeChild)
mode_children = ("bind", bind_child) ∷ ("axis", axis_child) ∷ ("layer", layer_child) ∷ []

unfoldable pub gamepad_kinds : List (String × Gamepad)
gamepad_kinds = ("none", absent) ∷ ("xbox", xbox) ∷ ("dualshock4", dual_shock4) ∷ []

module _ ⦃p : Platform⦄ ⦃k : Kdl⦄ where
  -- `ConfigError::append`.
  abbrev pub append : {A : Type 0} → List Issue → Parsed A → Parsed (List Issue × Option A)
  append issues (ok a) = ok (issues, some a)
  append issues (err more) = ok (issues ++ more, none)
  append issues panics = panics

  abbrev pub push_if : Bool → List Issue → Place → String → List Issue
  push_if wrong issues place message = if wrong then issues ++ issue place message ∷ [] else issues

  -- The `unreachable!` of a toggle in a mode.
  abbrev pub plain_action : GlobalAction → Parsed Action
  plain_action (action act) = ok act
  plain_action keyboard_toggle = panics

  unfoldable pub same_input : Buttons → Button → Binding → Bool
  unfolding button_eq
  same_input inputs trigger other =
      nat_beq other.inputs.bits inputs.bits && other.trigger == trigger

module _ ⦃p : Platform⦄ ⦃maps : ConfigMaps⦄ ⦃text : KeyText⦄ ⦃k : Kdl⦄ where
  open maps use {name_map}
  open k use {KdlNode, name_of, argument_at, as_string}
  open text use {trim}

  -- The local variables of `parse_mode`.
  pub record Building : Type 0 where
    pub bindings : List Binding
    pub axes : List AxisMapping
    pub layers : List Layer
    pub layer_holds : Buttons
    pub issues : List Issue

  -- What the loop does with a binding that was read, and with one that was not.
  unfoldable pub push_binding :
      KdlNode → Building → List Issue → Option (Buttons × Button × GlobalAction) → Parsed Building
  unfolding same_input
  push_binding child b issues none = ok (record b { issues = issues })
  push_binding child b issues (some (inputs, trigger, bound)) = do
    act ← plain_action bound
    ok (record b {
      bindings = b.bindings ++ record { inputs = inputs; trigger = trigger; bound = act } ∷ [];
      issues =
          push_if (any (same_input inputs trigger) b.bindings) issues (at_node child)
            "binding duplicates an earlier input";
    })

  unfoldable pub parse_bind_child : KdlNode → name_map.Map → Building → Parsed Building
  unfolding parse_binding push_binding
  parse_bind_child child mode_names b = do
    (issues, parsed) ← append b.issues (parse_binding child mode_names false)
    push_binding child b issues parsed

  unfoldable pub push_axis : KdlNode → Building → List Issue → Option AxisMapping → Building
  unfolding duplicate_axis_target
  push_axis child b issues none = record b { issues = issues }
  push_axis child b issues (some axis) = record b {
    axes = b.axes ++ axis ∷ [];
    issues =
        push_if (any (λ earlier. duplicate_axis_target earlier axis) b.axes) issues (at_node child)
          "axis mapping duplicates target";
  }

  unfoldable pub parse_axis_node : KdlNode → Building → Parsed Building
  unfolding parse_axis push_axis
  parse_axis_node child b = do
    (issues, parsed) ← append b.issues (parse_axis child)
    ok (push_axis child b issues parsed)

  -- The bindings of a layer and the issues, after one node of it.
  unfoldable pub push_layer_binding :
      KdlNode
      → Button
      → List Binding
      → List Issue
      → Option (Buttons × Button × GlobalAction)
      → Parsed (List Binding × List Issue)
  unfolding same_input contains
  push_layer_binding node hold bindings issues none = ok (bindings, issues)
  push_layer_binding node hold bindings issues (some (inputs, trigger, bound)) = do
    act ← plain_action bound
    ok (
      bindings ++ record { inputs = inputs; trigger = trigger; bound = act } ∷ [],
      push_if (any (same_input inputs trigger) bindings)
          (push_if (contains inputs hold) issues (at_node node)
            "binding must not use its hold button")
          (at_node node) "binding duplicates an earlier input",
    )

  -- The loop over the bindings of a layer.
  unfoldable pub parse_layer_bindings :
      List KdlNode
      → name_map.Map
      → Button
      → List Binding
      → List Issue
      → Parsed (List Binding × List Issue)
  unfolding parse_binding push_layer_binding
  parse_layer_bindings [] mode_names hold bindings issues = ok (bindings, issues)
  parse_layer_bindings (node ∷ nodes) mode_names hold bindings issues = do
    (issues', parsed) ← append issues (parse_binding node mode_names false)
    (bindings', checked) ← push_layer_binding node hold bindings issues' parsed
    parse_layer_bindings nodes mode_names hold bindings' checked

  -- A layer among the children before: `entry(0).and_then(as_string) == Some(layer_name)`.
  unfoldable pub is_layer_named : String → KdlNode → Bool
  unfolding string_eq
  is_layer_named layer_name node = name_of node == "layer" && (elim (argument_at node 0) [
    | none ↦ false
    | some entry ↦ (elim (as_string entry) [ none ↦ false | some name ↦ name == layer_name ])
  ])

  -- The checks of a layer before its bindings.
  unfoldable pub layer_issues : KdlNode → String → Button → List KdlNode → Building → List Issue
  unfolding is_layer_named contains string_eq
  layer_issues child layer_name hold earlier b =
      push_if (contains b.layer_holds hold)
        (push_if (any (is_layer_named layer_name) earlier)
          (push_if (trim layer_name == "") b.issues (at_node child) "layer names must not be empty")
          (at_node child) "layer duplicates an earlier layer")
        (at_node child) "hold conflicts with an earlier layer"

  unfoldable pub parse_layer : KdlNode → List KdlNode → name_map.Map → Building → Parsed Building
  unfolding argument read_str properties property parse_button layer_issues insert
      parse_layer_bindings children
  parse_layer child earlier mode_names b = do
    layer_name ← argument read_str child 0
    properties child ("hold" ∷ [])
    hold_name ← property read_str child "hold"
    hold ← parse_button hold_name child
    (bindings, issues) ←
        parse_layer_bindings (children child) mode_names hold []
          (layer_issues child layer_name hold earlier b)
    ok (record b {
      layers = b.layers ++ record { hold = hold; bindings = bindings } ∷ [];
      layer_holds = insert b.layer_holds hold;
      issues = issues;
    })

  unfoldable pub parse_mode_child :
      ModeChild → KdlNode → List KdlNode → name_map.Map → Building → Parsed Building
  unfolding parse_bind_child parse_axis_node parse_layer
  parse_mode_child bind_child child earlier mode_names b = parse_bind_child child mode_names b
  parse_mode_child axis_child child earlier mode_names b = parse_axis_node child b
  parse_mode_child layer_child child earlier mode_names b = parse_layer child earlier mode_names b

  -- The loop over the children, with those before.
  unfoldable pub parse_mode_children :
      List KdlNode → List KdlNode → name_map.Map → Building → Parsed Building
  unfolding one_of mode_children parse_mode_child
  parse_mode_children [] earlier mode_names b = ok b
  parse_mode_children (child ∷ nodes) earlier mode_names b = do
    kind ← one_of (at_node child) (name_of child) mode_children
    b' ← parse_mode_child kind child earlier mode_names b
    parse_mode_children nodes (earlier ++ child ∷ []) mode_names b'

  -- The loop over the layer nodes, zipped with the layers.
  unfoldable pub check_holds :
      List KdlNode → List Layer → List Binding → List Issue → Parsed (List Issue)
  unfolding contains argument read_str
  check_holds (node ∷ nodes) (layer ∷ layers) bindings issues =
      if any (λ (b : Binding). contains b.inputs layer.hold) bindings
      then (do
        layer_name ← argument read_str node 0
        check_holds nodes layers bindings
            (issues ++ issue (at_node node) "hold must not also be a mode binding" ∷ []))
      else check_holds nodes layers bindings issues
  check_holds _ _ bindings issues = ok issues

  -- `touchpad.map(..).transpose()`.
  unfoldable pub parse_touchpad : Option String → KdlNode → Parsed (Option Trackpad)
  unfolding parse_trackpad
  parse_touchpad none node = ok none
  parse_touchpad (some value) node = do pad ← parse_trackpad value node; ok (some pad)

  unfoldable pub parse_mode : KdlNode → name_map.Map → List Issue → Parsed (Mode × List Issue)
  unfolding argument read_str properties property_or optional_property one_of gamepad_kinds
      parse_touchpad parse_mode_children children check_holds with_name
  parse_mode node mode_names issues = do
    name ← argument read_str node 0
    properties node ("gamepad" ∷ "touchpad" ∷ [])
    gamepad_name ← property_or read_str node "gamepad" "none"
    touchpad ← optional_property read_str node "touchpad"
    kind ← one_of (at_node node) gamepad_name gamepad_kinds
    pad ← parse_touchpad touchpad node
    b ← parse_mode_children (children node) [] mode_names (record {
      bindings = [];
      axes = [];
      layers = [];
      layer_holds = no_buttons;
      issues = issues;
    })
    issues' ← check_holds (with_name "layer" (children node)) b.layers b.bindings b.issues
    ok (
      record {
        gamepad_kind = kind;
        gamepad_touchpad = pad;
        bindings = b.bindings;
        axes = b.axes;
        layers = b.layers;
      },
      issues',
    )
