-- ===== src/Config/Parse/Binding/Targets.antt =====
-- What a binding names: the names return, and an action's target is a mode.
use Prim.Native.String.{String}
use steam_controller_daemon.Platform.{Platform}
use steam_controller_daemon.Protocol.Buttons.{Button, Buttons, no_buttons, button_eq, insert}
use steam_controller_daemon.Config.{
  ConfigMaps, ModeId, GlobalAction, action, keyboard_toggle, string_eq,
}
use steam_controller_daemon.Kdl.{
  Kdl, Place, at_node, ok_or, read_str, argument, children, arguments,
}
use steam_controller_daemon.Kdl.Safe.{
  ok_or-IsSafe, one_of-IsSafe, read_str-IsSafe, argument-IsSafe, properties-IsSafe,
}
use steam_controller_daemon.Config.Parse.Key.{KeyText, parse_key, find_key}
use steam_controller_daemon.Config.Parse.Names.{
  parse_button, parse_mouse_button, parse_gamepad_button, button_names, mouse_names, gamepad_names,
  parse_trackpad, trackpad_names, parse_axis_component, component_names,
}
use steam_controller_daemon.Config.Parse.Binding.{
  ActionName, key_name, mouse_name, gamepad_name, mode_set_name, mode_next_name, toggle_name,
  action_names, parse_inputs, parse_action, parse_binding, only_child,
}
use steam_controller_daemon.Mapper.Invariant.{Targets}
use steam_controller_daemon.Prelude.Outcome.{Yields, Yields-bind, IsSafe, IsSafe-bind}
use steam_controller_daemon.Prelude.{
  ℕ, suc, ◌<◌, ◌≡◌, refl, Bool, true, false, Option, none, some, List, [], ◌∷◌, ◌==◌, arith,
  Bool-cases, Option-cases, inl, inr,
}

module _ ⦃p : Platform⦄ ⦃k : Kdl⦄ where
  open k use {KdlNode, KdlEntry}

  pub parse_button-IsSafe : (value : String) (node : KdlNode) → IsSafe (parse_button value node)
  unfolding parse_button
  parse_button-IsSafe value node = one_of-IsSafe (at_node node) value button_names

  pub parse_mouse_button-IsSafe :
      (value : String) (node : KdlNode) → IsSafe (parse_mouse_button value node)
  unfolding parse_mouse_button
  parse_mouse_button-IsSafe value node = one_of-IsSafe (at_node node) value mouse_names

  pub parse_gamepad_button-IsSafe :
      (value : String) (node : KdlNode) → IsSafe (parse_gamepad_button value node)
  unfolding parse_gamepad_button
  parse_gamepad_button-IsSafe value node = one_of-IsSafe (at_node node) value gamepad_names

  pub parse_trackpad-IsSafe : (value : String) (node : KdlNode) → IsSafe (parse_trackpad value node)
  unfolding parse_trackpad
  parse_trackpad-IsSafe value node = one_of-IsSafe (at_node node) value trackpad_names

  pub parse_axis_component-IsSafe :
      (value : String) (node : KdlNode) → IsSafe (parse_axis_component value node)
  unfolding parse_axis_component
  parse_axis_component-IsSafe value node = one_of-IsSafe (at_node node) value component_names

  -- An argument that is a string.
  pub argument_str-IsSafe : (node : KdlNode) (index : ℕ) → IsSafe (argument read_str node index)
  argument_str-IsSafe node index = argument-IsSafe read_str read_str-IsSafe node index

module _ ⦃p : Platform⦄ ⦃text : KeyText⦄ ⦃k : Kdl⦄ where
  open text use {trim}

  pub parse_key-IsSafe : (place : Place) (source : String) → IsSafe (parse_key place source)
  unfolding parse_key
  parse_key-IsSafe place source =
      IsSafe-bind _ _ _ (ok_or-IsSafe (find_key (trim source)) place "unknown key")
        (λ key. ground arith)

module _ ⦃p : Platform⦄ ⦃maps : ConfigMaps⦄ ⦃text : KeyText⦄ ⦃k : Kdl⦄ where
  open maps use {name_map}
  open k use {KdlNode, KdlEntry, name_of}

  -- The names lead to one of `count` modes.
  abbrev pub NamesIn : ℕ → name_map.Map → Type 0
  NamesIn count names =
      (name : String) (id : ModeId) → name_map.get names name ≡ some id → id < count

  -- Its target is one of `count` modes, and a toggle is global.
  abbrev pub ActionIn : ℕ → Bool → GlobalAction → Type 0
  ActionIn count global (action act) = Targets count act
  ActionIn count global keyboard_toggle = global ≡ true

  parse_inputs-IsSafe :
      (node : KdlNode) (entries : List KdlEntry) (index : ℕ) (inputs : Buttons)
      (trigger : Option Button)
      → IsSafe (parse_inputs node entries index inputs trigger)
  unfolding parse_inputs
  parse_inputs-IsSafe node [] index inputs trigger = tt
  parse_inputs-IsSafe node (entry ∷ entries) index inputs trigger =
      IsSafe-bind _ _ _ (argument_str-IsSafe node index) (λ name.
        IsSafe-bind _ _ _ (parse_button-IsSafe name node) (λ button. ground (
          arith,
          parse_inputs-IsSafe node entries (suc index) (insert inputs button) (some button),
        )))

  module _ (count : ℕ) (names : name_map.Map) (within : NamesIn count names) where
    parse_target :
        (node : KdlNode) (name : String)
        → Yields
            (λ id. id < count)
            (ok_or (name_map.get names name) (at_node node) "mode-set target is not configured")
    parse_target node name = elim (Option-cases (name_map.get names name)) [
      | inl e ↦ rw e tt
      | inr (id, e) ↦ rw e (within name id e)
    ]

    parse_action-ActionIn :
        (node : KdlNode) (global : Bool) (kind : ActionName)
        → Yields (ActionIn count global) (parse_action node names global kind)
    unfolding parse_action
    parse_action-ActionIn node global key_name =
        IsSafe-bind _ _ _ (argument_str-IsSafe node 0)
          (λ name. IsSafe-bind _ _ _ (parse_key-IsSafe (at_node node) name) (λ code. tt))
    parse_action-ActionIn node global mouse_name =
        IsSafe-bind _ _ _ (argument_str-IsSafe node 0)
          (λ name. IsSafe-bind _ _ _ (parse_mouse_button-IsSafe name node) (λ button. tt))
    parse_action-ActionIn node global gamepad_name =
        IsSafe-bind _ _ _ (argument_str-IsSafe node 0)
          (λ name. IsSafe-bind _ _ _ (parse_gamepad_button-IsSafe name node) (λ button. tt))
    parse_action-ActionIn node global mode_set_name =
        IsSafe-bind _ _ _ (argument_str-IsSafe node 0)
          (λ name. Yields-bind (λ id. id < count) _ _ _ (parse_target node name) (λ id h. h))
    parse_action-ActionIn node global mode_next_name = tt
    parse_action-ActionIn node true toggle_name = refl
    parse_action-ActionIn node false toggle_name = tt

    only_child-IsSafe :
        (nodes : List KdlNode) (place : Place) (message : String)
        → IsSafe (only_child nodes place message)
    only_child-IsSafe [] place message = tt
    only_child-IsSafe (node ∷ []) place message = tt
    only_child-IsSafe (node ∷ other ∷ nodes) place message = tt

    pub parse_binding-ActionIn :
        (node : KdlNode) (global : Bool)
        → Yields
            (λ (r : Buttons × Button × GlobalAction).
              let (inputs, trigger, bound) = r in ActionIn count global bound)
            (parse_binding node names global)
    unfolding parse_binding
    parse_binding-ActionIn node global = elim (Bool-cases (name_of node == "bind")) [
      | inr e ↦ rw (e, parse_binding) tt
      | inl e ↦
          rw (e, parse_binding)
            (IsSafe-bind _ _ _ (properties-IsSafe node []) (λ u.
              IsSafe-bind _ _ _ (parse_inputs-IsSafe node (arguments node) 0 no_buttons none)
                (λ (inputs, last).
                  IsSafe-bind _ _ _
                    (ok_or-IsSafe last (at_node node) "binding must contain at least one button")
                    (λ trigger.
                      IsSafe-bind _ _ _
                        (only_child-IsSafe (children node) (at_node node)
                          "binding must contain exactly one action")
                        (λ act. IsSafe-bind _ _ _ (properties-IsSafe act []) (λ v.
                          IsSafe-bind _ _ _ (one_of-IsSafe (at_node act) (name_of act) action_names)
                            (λ kind.
                              Yields-bind (ActionIn count global) _ _ _
                                (parse_action-ActionIn act global kind) (λ bound h. h))))))))
    ]
