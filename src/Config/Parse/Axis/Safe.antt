-- ===== src/Config/Parse/Axis/Safe.antt =====
-- An axis node is read or refused, without a panic.
use Prim.Native.String.{String}
use steam_controller_daemon.Platform.{Platform}
use steam_controller_daemon.Protocol.Buttons.{Buttons, no_buttons, button_eq, insert}
use steam_controller_daemon.Config.{string_eq}
use steam_controller_daemon.Kdl.{
  Kdl, at_node, read_str, read_bool, read_f32, property, property_or, children, arguments,
}
use steam_controller_daemon.Kdl.Safe.{
  one_of-IsSafe, read_str-IsSafe, read_bool-IsSafe, read_f32-IsSafe, property-IsSafe,
  property_or-IsSafe, optional_property-IsSafe, properties-IsSafe,
}
use steam_controller_daemon.Config.Parse.Binding.Targets.{
  parse_button-IsSafe, parse_axis_component-IsSafe, argument_str-IsSafe,
}
use steam_controller_daemon.Config.Parse.Axis.{
  AxisChild, is_some_activation, is_some_components, bad_deadzone, bad_sensitivity, bad_exponent,
  is_scalar_source, is_scalar_target, is_nil, trigger_child, buttons_child, components_child,
  axis_children, trigger_names, target_names, source_names, axis_properties, AxisParts,
  check_thresholds, parse_activation, insert_arguments, parse_axis_child, parse_axis_children,
  AxisProps, read_axis_props, check_acceleration, exponent_of, check_axis_props, finish_axis,
  parse_axis,
}
use steam_controller_daemon.Prelude.Int.{pos}
use steam_controller_daemon.Prelude.Outcome.{IsSafe, IsSafe-bind, Yields-if}
use steam_controller_daemon.Prelude.{
  ℕ, suc, xor, not, ◌&&◌, ◌==◌, Bool, false, Option, none, some, List, [], ◌∷◌, arith,
}

module _ ⦃p : Platform⦄ ⦃k : Kdl⦄ where
  open p use {F32, from_int}
  open k use {KdlNode, KdlEntry, name_of}

  check_thresholds-IsSafe :
      (child : KdlNode) (engage release : F32) → IsSafe (check_thresholds child engage release)
  unfolding check_thresholds
  check_thresholds-IsSafe child engage release = ground arith

  property_f32-IsSafe : (node : KdlNode) (name : String) → IsSafe (property read_f32 node name)
  property_f32-IsSafe node name = property-IsSafe read_f32 read_f32-IsSafe node name

  parse_activation-IsSafe :
      (child : KdlNode) (parts : AxisParts) → IsSafe (parse_activation child parts)
  unfolding parse_activation
  parse_activation-IsSafe child parts = IsSafe-bind _ _ _ (argument_str-IsSafe child 0) (λ name.
      IsSafe-bind _ _ _ (one_of-IsSafe (at_node child) name trigger_names) (λ source.
        IsSafe-bind _ _ _ (properties-IsSafe child ("engage" ∷ "release" ∷ [])) (λ u.
          IsSafe-bind _ _ _ (property_f32-IsSafe child "engage") (λ engage.
            IsSafe-bind _ _ _ (property_f32-IsSafe child "release") (λ release.
              IsSafe-bind _ _ _ (check_thresholds-IsSafe child engage release) (λ v. tt))))))

  insert_arguments-IsSafe :
      (child : KdlNode) (entries : List KdlEntry) (position : ℕ) (found : Buttons)
      → IsSafe (insert_arguments child entries position found)
  unfolding insert_arguments
  insert_arguments-IsSafe child [] position found = tt
  insert_arguments-IsSafe child (entry ∷ entries) position found =
      IsSafe-bind _ _ _ (argument_str-IsSafe child position) (λ name.
        IsSafe-bind _ _ _ (parse_button-IsSafe name child)
          (λ button. insert_arguments-IsSafe child entries (suc position) (insert found button)))

  parse_axis_child-IsSafe :
      (child : KdlNode) (kind : AxisChild) (parts : AxisParts)
      → IsSafe (parse_axis_child child kind parts)
  unfolding parse_axis_child
  parse_axis_child-IsSafe child trigger_child parts =
      Yields-if (λ a. Unit {0}) (is_some_activation parts.activation) _ _ tt
        (parse_activation-IsSafe child parts)
  parse_axis_child-IsSafe child buttons_child parts =
      Yields-if (λ a. Unit {0}) (is_some_activation parts.activation) _ _ tt
        (IsSafe-bind _ _ _ (properties-IsSafe child []) (λ u.
          IsSafe-bind _ _ _ (insert_arguments-IsSafe child (arguments child) 0 no_buttons)
            (λ found. Yields-if (λ a. Unit {0}) (is_nil (arguments child)) _ _ tt tt)))
  parse_axis_child-IsSafe child components_child parts =
      Yields-if (λ a. Unit {0}) (is_some_components parts.components) _ _ tt
        (IsSafe-bind _ _ _ (properties-IsSafe child []) (λ u.
          IsSafe-bind _ _ _ (argument_str-IsSafe child 0) (λ first_name.
            IsSafe-bind _ _ _ (parse_axis_component-IsSafe first_name child) (λ first.
              IsSafe-bind _ _ _ (argument_str-IsSafe child 1) (λ second_name.
                IsSafe-bind _ _ _ (parse_axis_component-IsSafe second_name child)
                  (λ second. tt))))))

  parse_axis_children-IsSafe :
      (nodes : List KdlNode) (parts : AxisParts) → IsSafe (parse_axis_children nodes parts)
  unfolding parse_axis_children
  parse_axis_children-IsSafe [] parts = tt
  parse_axis_children-IsSafe (child ∷ nodes) parts =
      IsSafe-bind _ _ _ (one_of-IsSafe (at_node child) (name_of child) axis_children) (λ kind.
        IsSafe-bind _ _ _ (parse_axis_child-IsSafe child kind parts)
          (λ parts'. parse_axis_children-IsSafe nodes parts'))

  property_or_f32 :
      (node : KdlNode) (name : String) (default : F32)
      → IsSafe (property_or read_f32 node name default)
  property_or_f32 node name default = property_or-IsSafe read_f32 read_f32-IsSafe node name default

  property_or_bool :
      (node : KdlNode) (name : String) (default : Bool)
      → IsSafe (property_or read_bool node name default)
  property_or_bool node name default =
      property_or-IsSafe read_bool read_bool-IsSafe node name default

  read_axis_props-IsSafe : (node : KdlNode) → IsSafe (read_axis_props node)
  unfolding read_axis_props
  read_axis_props-IsSafe node = IsSafe-bind _ _ _ (properties-IsSafe node axis_properties) (λ u.
      IsSafe-bind _ _ _ (property_or_f32 node "deadzone" (from_int (pos 0))) (λ deadzone.
        IsSafe-bind _ _ _ (property_or_f32 node "sensitivity" (from_int (pos 1))) (λ sensitivity.
          IsSafe-bind _ _ _ (optional_property-IsSafe read_f32 read_f32-IsSafe node "acceleration")
            (λ acceleration.
              IsSafe-bind _ _ _ (property_or-IsSafe read_str read_str-IsSafe node "curve" "linear")
                (λ curve.
                  IsSafe-bind _ _ _ (property_or_f32 node "exponent" (from_int (pos 2)))
                    (λ exponent. IsSafe-bind _ _ _ (property_or_bool node "invert-x" false) (λ x.
                      IsSafe-bind _ _ _ (property_or_bool node "invert-y" false) (λ y.
                        IsSafe-bind _ _ _ (property_or_bool node "swap-xy" false) (λ xy. tt)))))))))

  check_acceleration-IsSafe :
      (node : KdlNode) (source target : String) (acceleration : Option F32)
      → IsSafe (check_acceleration node source target acceleration)
  unfolding check_acceleration
  check_acceleration-IsSafe node source target none = tt
  check_acceleration-IsSafe node source target (some value) = ground arith

  exponent_of-IsSafe : (node : KdlNode) (props : AxisProps) → IsSafe (exponent_of node props)
  unfolding exponent_of
  exponent_of-IsSafe node props =
      one_of-IsSafe (at_node node) props.curve
        (("linear", from_int (pos 1)) ∷ ("exponential", props.exponent) ∷ [])

  check_axis_props-IsSafe :
      (node : KdlNode) (source target : String) (props : AxisProps)
      → IsSafe (check_axis_props node source target props)
  unfolding check_axis_props
  check_axis_props-IsSafe node source target props =
      Yields-if (λ a. Unit {0}) (bad_deadzone props) _ _ tt
        (Yields-if (λ a. Unit {0}) (bad_sensitivity props) _ _ tt
          (IsSafe-bind _ _ _ (check_acceleration-IsSafe node source target props.acceleration) (λ u.
            Yields-if (λ a. Unit {0}) (bad_exponent props) _ _ tt (exponent_of-IsSafe node props))))

  finish_axis-IsSafe :
      (node : KdlNode) (source target : String) (parts : AxisParts) (props : AxisProps)
      (exponent : F32)
      → IsSafe (finish_axis node source target parts props exponent)
  unfolding finish_axis
  finish_axis-IsSafe node source target parts props exponent =
      Yields-if (λ a. Unit {0}) (is_scalar_source source) _ _ tt
        (IsSafe-bind _ _ _ (one_of-IsSafe (at_node node) target target_names) (λ onto.
          IsSafe-bind _ _ _ (one_of-IsSafe (at_node node) source source_names) (λ from. tt)))

  pub parse_axis-IsSafe : (node : KdlNode) → IsSafe (parse_axis node)
  unfolding parse_axis
  parse_axis-IsSafe node = IsSafe-bind _ _ _ (argument_str-IsSafe node 0) (λ source.
      IsSafe-bind _ _ _ (argument_str-IsSafe node 1) (λ target.
        Yields-if (λ a. Unit {0}) (xor (is_scalar_source source) (is_scalar_target target)) _ _ tt
          (IsSafe-bind _ _ _
            (parse_axis_children-IsSafe (children node)
              (record { activation = none; components = none }))
            (λ parts.
              Yields-if (λ a. Unit {0})
                (is_some_components parts.components && not (source == "gyro")) _ _ tt
                (IsSafe-bind _ _ _ (read_axis_props-IsSafe node) (λ props.
                  IsSafe-bind _ _ _ (check_axis_props-IsSafe node source target props)
                    (λ exponent. finish_axis-IsSafe node source target parts props exponent)))))))
