-- ===== src/Config/Parse/Binding.antt =====
-- A binding: core/src/config.rs, `parse_binding`.
pub mod Targets
use Prim.Native.String.{String}
use steam_controller_daemon.Platform.{Platform, IndexMap}
use steam_controller_daemon.Protocol.Buttons.{
  Button, Buttons, no_buttons, button_eq, contains, insert,
}
use steam_controller_daemon.Config.{
  ConfigMaps, Action, key, mouse, gamepad, mode_set, mode_next, GlobalAction, action,
  keyboard_toggle, string_eq,
}
use steam_controller_daemon.Kdl.{
  Kdl, Place, at_node, Parsed, fails, ok_or, one_of, read_str, argument, properties, children,
  arguments,
}
use steam_controller_daemon.Config.Parse.Key.{KeyText, parse_key}
use steam_controller_daemon.Config.Parse.Names.{
  parse_button, parse_mouse_button, parse_gamepad_button,
}
use steam_controller_daemon.Prelude.Outcome.{ok, ◌>>=◌, ◌>>◌}
use steam_controller_daemon.Prelude.{
  ℕ, suc, Bool, true, false, not, Option, none, some, List, [], ◌∷◌, ◌==◌, if◌then◌else◌,
}

-- The arms of the `one_of!` on the action's name.
pub data ActionName : Type 0 where
  key_name mouse_name gamepad_name mode_set_name mode_next_name toggle_name : ActionName

unfoldable pub action_names : List (String × ActionName)
action_names =
    ("key", key_name)
    ∷ ("mouse", mouse_name)
    ∷ ("gamepad", gamepad_name)
    ∷ ("mode-set", mode_set_name)
    ∷ ("mode-next", mode_next_name)
    ∷ ("keyboard-toggle", toggle_name)
    ∷ []

module _ ⦃p : Platform⦄ ⦃maps : ConfigMaps⦄ ⦃text : KeyText⦄ ⦃k : Kdl⦄ where
  open maps use {name_map}
  open k use {KdlNode, KdlEntry, name_of}

  -- The loop over the arguments, from `index` on: the buttons, and the last of them.
  unfoldable pub parse_inputs :
      KdlNode → List KdlEntry → ℕ → Buttons → Option Button → Parsed (Buttons × Option Button)
  unfolding argument read_str parse_button contains insert
  parse_inputs node [] index inputs trigger = ok (inputs, trigger)
  parse_inputs node (entry ∷ entries) index inputs trigger = do
    name ← argument read_str node index
    button ← parse_button name node
    let rest = parse_inputs node entries (suc index) (insert inputs button) (some button)
    (if contains inputs button
        then fails (at_node node) "binding input contains duplicate button"
        else rest)

  unfoldable pub parse_action : KdlNode → name_map.Map → Bool → ActionName → Parsed GlobalAction
  unfolding argument read_str parse_key parse_mouse_button parse_gamepad_button
  parse_action node mode_names global key_name = do
    name ← argument read_str node 0
    code ← parse_key (at_node node) name
    ok (action (key code))
  parse_action node mode_names global mouse_name = do
    name ← argument read_str node 0
    button ← parse_mouse_button name node
    ok (action (mouse button))
  parse_action node mode_names global gamepad_name = do
    name ← argument read_str node 0
    button ← parse_gamepad_button name node
    ok (action (gamepad button))
  parse_action node mode_names global mode_set_name = do
    name ← argument read_str node 0
    mode ← ok_or (name_map.get mode_names name) (at_node node) "mode-set target is not configured"
    ok (action (mode_set mode))
  parse_action node mode_names global mode_next_name = ok (action mode_next)
  parse_action node mode_names global toggle_name =
      if not global
      then fails (at_node node) "keyboard-toggle is only valid for global bindings"
      else ok keyboard_toggle

  -- `children.len() != 1`.
  abbrev pub only_child : List KdlNode → Place → String → Parsed KdlNode
  only_child (child ∷ []) place message = ok child
  only_child _ place message = fails place message

  unfoldable pub parse_binding :
      KdlNode → name_map.Map → Bool → Parsed (Buttons × Button × GlobalAction)
  unfolding properties parse_inputs children one_of action_names parse_action string_eq arguments
  parse_binding node mode_names global =
      if not (name_of node == "bind") then fails (at_node node) "expected bind" else (do
        properties node []
        (inputs, last) ← parse_inputs node (arguments node) 0 no_buttons none
        trigger ← ok_or last (at_node node) "binding must contain at least one button"
        act ← only_child (children node) (at_node node) "binding must contain exactly one action"
        properties act []
        kind ← one_of (at_node act) (name_of act) action_names
        bound ← parse_action act mode_names global kind
        ok (inputs, trigger, bound))
