-- ===== src/Config/Parse/Mode/Layers.antt =====
-- A parsed mode: the layers, the loop over the children, and the checks after it.
use Prim.Native.String.{String}
use steam_controller_daemon.Platform.{Platform}
use steam_controller_daemon.Protocol.Buttons.{Button, Buttons, button_eq, contains}
use steam_controller_daemon.Config.{
  ConfigMaps, GlobalAction, action, keyboard_toggle, Binding, Layer, Mode, string_eq,
}
use steam_controller_daemon.Kdl.{Kdl, at_node, Issue, issue, read_str, children, with_name}
use steam_controller_daemon.Kdl.Safe.{
  one_of-IsSafe, read_str-IsSafe, property-IsSafe, property_or-IsSafe, optional_property-IsSafe,
  properties-IsSafe,
}
use steam_controller_daemon.Config.Parse.Key.{KeyText}
use steam_controller_daemon.Config.Parse.Binding.Targets.{
  NamesIn, parse_button-IsSafe, parse_trackpad-IsSafe, argument_str-IsSafe,
}
use steam_controller_daemon.Config.Parse.Mode.{
  ModeChild, bind_child, axis_child, layer_child, mode_children, gamepad_kinds, Building,
  push_layer_binding, layer_issues, parse_layer_bindings, is_layer_named, parse_layer,
  parse_mode_child, parse_mode_children, check_holds, parse_touchpad, parse_mode,
}
use steam_controller_daemon.Config.Parse.Mode.Valid.{
  Kept, push_if-Kept, Appended, append_binding, Sound, parse_bind_child-Sound,
  parse_axis_node-Sound,
}
use steam_controller_daemon.Mapper.Invariant.{BindingTargets, LayerTargets, ModeTargets}
use steam_controller_daemon.Prelude.Outcome.{
  Yields, Yields-bind, Yields-imp, IsSafe, IsSafe-bind, Yields-if,
}
use steam_controller_daemon.Prelude.{
  ℕ, false, Option, none, some, List, [], ◌∷◌, ◌++◌, any, All, All-append, append-nil, ◌==◌,
}

module _ ⦃p : Platform⦄ ⦃maps : ConfigMaps⦄ ⦃text : KeyText⦄ ⦃k : Kdl⦄ where
  open maps use {name_map}
  open k use {KdlNode, name_of}
  open text use {trim}

  -- The bindings and the issues of a list of bindings, which started with the given issues.
  abbrev LayerSound : ℕ → List Issue → List Binding × List Issue → Type 0
  LayerSound count start (bindings, issues) =
      All (BindingTargets count) bindings × Kept start issues

  module _ (count : ℕ) (names : name_map.Map) (within : NamesIn count names)
      (start : List Issue) where
    push_layer_binding-LayerSound :
        (node : KdlNode) (hold : Button) (bindings : List Binding) (before issues : List Issue)
        (parsed : Option (Buttons × Button × GlobalAction))
        → LayerSound count start (bindings, before)
        → Appended count false before (issues, parsed)
        → Yields (LayerSound count start) (push_layer_binding node hold bindings issues parsed)
    unfolding push_layer_binding
    push_layer_binding-LayerSound node hold bindings before issues none (bs, kept) (more, named) =
        (bs, λ e. kept (more e))
    push_layer_binding-LayerSound node hold bindings before issues
          (some (inputs, trigger, action act)) (bs, kept) (more, named) =
        (
          All-append (BindingTargets count) bindings _ bs (named, tt),
          λ e.
              kept (
                more
                  (push_if-Kept _ issues (at_node node) _ (push_if-Kept _ _ (at_node node) _ e))),
        )
    push_layer_binding-LayerSound node hold bindings before issues
          (some (inputs, trigger, keyboard_toggle)) _ (more, named) =
        absurd cc

    parse_layer_bindings-LayerSound :
        (nodes : List KdlNode) (hold : Button) (bindings : List Binding) (issues : List Issue)
        → LayerSound count start (bindings, issues)
        → Yields (LayerSound count start) (parse_layer_bindings nodes names hold bindings issues)
    unfolding parse_layer_bindings
    parse_layer_bindings-LayerSound [] hold bindings issues sound = sound
    parse_layer_bindings-LayerSound (node ∷ nodes) hold bindings issues sound =
        Yields-bind (Appended count false issues) (LayerSound count start) _ _
          (append_binding count names within issues node false)
          (λ (issues', parsed) h.
            Yields-bind (LayerSound count start) (LayerSound count start) _ _
              (push_layer_binding-LayerSound node hold bindings issues issues' parsed sound h)
              (λ (bindings', checked) h'.
                parse_layer_bindings-LayerSound nodes hold bindings' checked h'))

    layer_issues-Kept :
        (child : KdlNode) (layer_name : String) (hold : Button) (earlier : List KdlNode)
        (b : Building)
        → Kept b.issues (layer_issues child layer_name hold earlier b)
    unfolding layer_issues
    layer_issues-Kept child layer_name hold earlier b e =
        push_if-Kept (trim layer_name == "") b.issues (at_node child)
          "layer names must not be empty"
          (push_if-Kept (any (is_layer_named layer_name) earlier) _ (at_node child)
            "layer duplicates an earlier layer"
            (push_if-Kept (contains b.layer_holds hold) _ (at_node child)
              "hold conflicts with an earlier layer" e))

    parse_layer-Sound :
        (child : KdlNode) (earlier : List KdlNode) (b : Building)
        → Sound count start b
        → Yields (Sound count start) (parse_layer child earlier names b)
    unfolding parse_layer
    parse_layer-Sound child earlier b (bs, ls, kept) =
        IsSafe-bind _ _ _ (argument_str-IsSafe child 0) (λ layer_name.
          IsSafe-bind _ _ _ (properties-IsSafe child ("hold" ∷ [])) (λ u.
            IsSafe-bind _ _ _ (property-IsSafe read_str read_str-IsSafe child "hold") (λ hold_name.
              IsSafe-bind _ _ _ (parse_button-IsSafe hold_name child) (λ hold.
                Yields-bind (LayerSound count start) (Sound count start) _ _
                  (parse_layer_bindings-LayerSound (children child) hold []
                    (layer_issues child layer_name hold earlier b)
                    (tt, λ e. kept (layer_issues-Kept child layer_name hold earlier b e)))
                  (λ (bindings, issues) (inner, later).
                    (bs, All-append (LayerTargets count) b.layers _ ls (inner, tt), later))))))

    parse_mode_child-Sound :
        (kind : ModeChild) (child : KdlNode) (earlier : List KdlNode) (b : Building)
        → Sound count start b
        → Yields (Sound count start) (parse_mode_child kind child earlier names b)
    unfolding parse_mode_child
    parse_mode_child-Sound bind_child child earlier b sound =
        parse_bind_child-Sound count names within start child b sound
    parse_mode_child-Sound axis_child child earlier b sound =
        parse_axis_node-Sound count names within start child b sound
    parse_mode_child-Sound layer_child child earlier b sound =
        parse_layer-Sound child earlier b sound

    parse_mode_children-Sound :
        (nodes earlier : List KdlNode) (b : Building)
        → Sound count start b
        → Yields (Sound count start) (parse_mode_children nodes earlier names b)
    unfolding parse_mode_children
    parse_mode_children-Sound [] earlier b sound = sound
    parse_mode_children-Sound (child ∷ nodes) earlier b sound =
        IsSafe-bind _ _ _ (one_of-IsSafe (at_node child) (name_of child) mode_children) (λ kind.
          Yields-bind (Sound count start) (Sound count start) _ _
            (parse_mode_child-Sound kind child earlier b sound)
            (λ b' sound'. parse_mode_children-Sound nodes (earlier ++ child ∷ []) b' sound'))

  check_holds-Kept :
      (nodes : List KdlNode) (layers : List Layer) (bindings : List Binding) (issues : List Issue)
      → Yields (Kept issues) (check_holds nodes layers bindings issues)
  unfolding check_holds
  check_holds-Kept [] layers bindings issues = λ e. e
  check_holds-Kept (node ∷ nodes) [] bindings issues = λ e. e
  check_holds-Kept (node ∷ nodes) (layer ∷ layers) bindings issues =
      Yields-if (Kept issues) (any (λ (b : Binding). contains b.inputs layer.hold) bindings) _ _
        (IsSafe-bind _ _ _ (argument_str-IsSafe node 0) (λ layer_name.
          Yields-imp
            (Kept (issues ++ issue (at_node node) "hold must not also be a mode binding" ∷ []))
            (Kept issues) _ (λ later kept e. append-nil issues _ (kept e))
            (check_holds-Kept nodes layers bindings _)))
        (check_holds-Kept nodes layers bindings issues)

  parse_touchpad-IsSafe :
      (name : Option String) (node : KdlNode) → IsSafe (parse_touchpad name node)
  unfolding parse_touchpad
  parse_touchpad-IsSafe none node = tt
  parse_touchpad-IsSafe (some name) node =
      IsSafe-bind _ _ _ (parse_trackpad-IsSafe name node) (λ pad. tt)

  abbrev pub ModeSound : ℕ → List Issue → Mode × List Issue → Type 0
  ModeSound count start (mode, issues) = ModeTargets count mode × Kept start issues

  pub parse_mode-ModeSound :
      (count : ℕ) (names : name_map.Map)
      → NamesIn count names
      → (node : KdlNode) (issues : List Issue)
      → Yields (ModeSound count issues) (parse_mode node names issues)
  unfolding parse_mode
  parse_mode-ModeSound count names within node issues =
      IsSafe-bind _ _ _ (argument_str-IsSafe node 0) (λ name.
        IsSafe-bind _ _ _ (properties-IsSafe node ("gamepad" ∷ "touchpad" ∷ [])) (λ u.
          IsSafe-bind _ _ _ (property_or-IsSafe read_str read_str-IsSafe node "gamepad" "none")
            (λ gamepad_name.
              IsSafe-bind _ _ _ (optional_property-IsSafe read_str read_str-IsSafe node "touchpad")
                (λ touchpad.
                  IsSafe-bind _ _ _ (one_of-IsSafe (at_node node) gamepad_name gamepad_kinds)
                    (λ kind. IsSafe-bind _ _ _ (parse_touchpad-IsSafe touchpad node) (λ pad.
                      Yields-bind (Sound count issues) (ModeSound count issues) _ _
                        (parse_mode_children-Sound count names within issues (children node) [] _
                          (tt, tt, λ e. e))
                        (λ b (bs, ls, kept).
                          Yields-bind (Kept b.issues) (ModeSound count issues) _ _
                            (check_holds-Kept (with_name "layer" (children node)) b.layers
                              b.bindings b.issues)
                            (λ later more. ((bs, ls), λ e. kept (more e))))))))))
