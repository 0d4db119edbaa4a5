-- ===== src/Config/Parse/Names.antt =====
-- The names in a configuration of buttons, trackpads and axis components: core/src/config.rs.
use Prim.Native.String.{String}
use steam_controller_daemon.Platform.{Platform}
use steam_controller_daemon.Protocol.Buttons.{
  Button, button_a, button_b, button_x, button_y, qam, r3, menu, r4, r5, rb, dpad_down, dpad_right,
  dpad_left, dpad_up, view, l3, steam, l4, l5, lb, right_stick_touch, right_pad_touch,
  right_pad_click, right_trigger_click, left_stick_touch, left_pad_touch, left_pad_click,
  left_trigger_click, right_grip_touch, left_grip_touch,
}
use steam_controller_daemon.Protocol.State.{Trackpad}
use steam_controller_daemon.Config.{AxisComponent, x_component, y_component, z_component}
use steam_controller_daemon.Config.Keys.{MouseButton, GamepadButton}
use steam_controller_daemon.Kdl.{Kdl, at_node, Parsed, one_of}
use steam_controller_daemon.Prelude.{List, [], ◌∷◌}

unfoldable pub button_names : List (String × Button)
button_names =
    ("a", button_a)
    ∷ ("b", button_b)
    ∷ ("x", button_x)
    ∷ ("y", button_y)
    ∷ ("quick-access", qam)
    ∷ ("right-stick-click", r3)
    ∷ ("r3", r3)
    ∷ ("menu", menu)
    ∷ ("r4", r4)
    ∷ ("r5", r5)
    ∷ ("right-bumper", rb)
    ∷ ("rb", rb)
    ∷ ("dpad-down", dpad_down)
    ∷ ("dpad-right", dpad_right)
    ∷ ("dpad-left", dpad_left)
    ∷ ("dpad-up", dpad_up)
    ∷ ("view", view)
    ∷ ("left-stick-click", l3)
    ∷ ("l3", l3)
    ∷ ("steam", steam)
    ∷ ("l4", l4)
    ∷ ("l5", l5)
    ∷ ("left-bumper", lb)
    ∷ ("lb", lb)
    ∷ ("right-stick-touch", right_stick_touch)
    ∷ ("right-pad-touch", right_pad_touch)
    ∷ ("right-pad-click", right_pad_click)
    ∷ ("right-trigger-click", right_trigger_click)
    ∷ ("left-stick-touch", left_stick_touch)
    ∷ ("left-pad-touch", left_pad_touch)
    ∷ ("left-pad-click", left_pad_click)
    ∷ ("left-trigger-click", left_trigger_click)
    ∷ ("right-grip-touch", right_grip_touch)
    ∷ ("left-grip-touch", left_grip_touch)
    ∷ []

unfoldable pub mouse_names : List (String × MouseButton)
mouse_names =
    ("left", MouseButton.left)
    ∷ ("right", MouseButton.right)
    ∷ ("middle", MouseButton.middle)
    ∷ ("side", MouseButton.side)
    ∷ ("extra", MouseButton.extra)
    ∷ ("forward", MouseButton.forward)
    ∷ ("back", MouseButton.back)
    ∷ ("task", MouseButton.task)
    ∷ []

unfoldable pub gamepad_names : List (String × GamepadButton)
gamepad_names =
    ("south", GamepadButton.south)
    ∷ ("east", GamepadButton.east)
    ∷ ("north", GamepadButton.north)
    ∷ ("west", GamepadButton.west)
    ∷ ("left-bumper", GamepadButton.left_bumper)
    ∷ ("right-bumper", GamepadButton.right_bumper)
    ∷ ("left-trigger", GamepadButton.left_trigger)
    ∷ ("right-trigger", GamepadButton.right_trigger)
    ∷ ("select", GamepadButton.select)
    ∷ ("start", GamepadButton.start)
    ∷ ("guide", GamepadButton.guide)
    ∷ ("left-stick", GamepadButton.left_stick)
    ∷ ("right-stick", GamepadButton.right_stick)
    ∷ ("dpad-up", GamepadButton.dpad_up)
    ∷ ("dpad-down", GamepadButton.dpad_down)
    ∷ ("dpad-left", GamepadButton.dpad_left)
    ∷ ("dpad-right", GamepadButton.dpad_right)
    ∷ ("paddle-left-upper", GamepadButton.paddle_left_upper)
    ∷ ("paddle-left-lower", GamepadButton.paddle_left_lower)
    ∷ ("paddle-right-upper", GamepadButton.paddle_right_upper)
    ∷ ("paddle-right-lower", GamepadButton.paddle_right_lower)
    ∷ []

unfoldable pub trackpad_names : List (String × Trackpad)
trackpad_names = ("left", Trackpad.left) ∷ ("right", Trackpad.right) ∷ []

unfoldable pub component_names : List (String × AxisComponent)
component_names = ("x", x_component) ∷ ("y", y_component) ∷ ("z", z_component) ∷ []

module _ ⦃p : Platform⦄ ⦃k : Kdl⦄ where
  open k use {KdlNode}

  unfoldable pub parse_button : String → KdlNode → Parsed Button
  unfolding one_of button_names
  parse_button value node = one_of (at_node node) value button_names

  unfoldable pub parse_mouse_button : String → KdlNode → Parsed MouseButton
  unfolding one_of mouse_names
  parse_mouse_button value node = one_of (at_node node) value mouse_names

  unfoldable pub parse_gamepad_button : String → KdlNode → Parsed GamepadButton
  unfolding one_of gamepad_names
  parse_gamepad_button value node = one_of (at_node node) value gamepad_names

  unfoldable pub parse_trackpad : String → KdlNode → Parsed Trackpad
  unfolding one_of trackpad_names
  parse_trackpad value node = one_of (at_node node) value trackpad_names

  unfoldable pub parse_axis_component : String → KdlNode → Parsed AxisComponent
  unfolding one_of component_names
  parse_axis_component value node = one_of (at_node node) value component_names
