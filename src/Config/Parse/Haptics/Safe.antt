-- ===== src/Config/Parse/Haptics/Safe.antt =====
-- The haptic's node is read or refused, without a panic.
use Prim.Native.String.{String}
use steam_controller_daemon.Platform.{Platform}
use steam_controller_daemon.Kdl.{Kdl, at_node, read_unsigned, read_i8, property, children}
use steam_controller_daemon.Kdl.Safe.{
  one_of-IsSafe, read_unsigned-IsSafe, read_i8-IsSafe, argument-IsSafe, property-IsSafe,
  properties-IsSafe,
}
use steam_controller_daemon.Config.Parse.Binding.Targets.{
  parse_trackpad-IsSafe, argument_str-IsSafe,
}
use steam_controller_daemon.Config.Parse.Haptics.{
  HapticName, rumble_name, click_name, pulse_name, tone_name, sweep_name, script_name, haptic_names,
  read_haptic, haptic_child, parse_haptic,
}
use steam_controller_daemon.Prelude.Outcome.{IsSafe, IsSafe-bind}
use steam_controller_daemon.Prelude.{List, [], ◌∷◌}

module _ ⦃p : Platform⦄ ⦃k : Kdl⦄ where
  open k use {KdlNode, name_of}

  property_u16 : (node : KdlNode) (name : String) → IsSafe (property (read_unsigned 16) node name)
  property_u16 node name = property-IsSafe (read_unsigned 16) (read_unsigned-IsSafe 16) node name

  property_i8 : (node : KdlNode) (name : String) → IsSafe (property read_i8 node name)
  property_i8 node name = property-IsSafe read_i8 read_i8-IsSafe node name

  read_haptic-IsSafe : (node : KdlNode) (kind : HapticName) → IsSafe (read_haptic node kind)
  unfolding read_haptic
  read_haptic-IsSafe node rumble_name =
      IsSafe-bind _ _ _ (properties-IsSafe node ("low-frequency" ∷ "high-frequency" ∷ [])) (λ u.
        IsSafe-bind _ _ _ (property_u16 node "low-frequency")
          (λ low. IsSafe-bind _ _ _ (property_u16 node "high-frequency") (λ high. tt)))
  read_haptic-IsSafe node click_name =
      IsSafe-bind _ _ _ (properties-IsSafe node ("gain" ∷ [])) (λ u.
        IsSafe-bind _ _ _ (property_i8 node "gain") (λ gain.
          IsSafe-bind _ _ _ (argument_str-IsSafe node 0)
            (λ name. IsSafe-bind _ _ _ (parse_trackpad-IsSafe name node) (λ pad. tt))))
  read_haptic-IsSafe node pulse_name =
      IsSafe-bind _ _ _ (properties-IsSafe node ("on-us" ∷ "off-us" ∷ "repeat" ∷ [])) (λ u.
        IsSafe-bind _ _ _ (property_u16 node "on-us") (λ on_us.
          IsSafe-bind _ _ _ (property_u16 node "off-us")
            (λ off_us. IsSafe-bind _ _ _ (property_u16 node "repeat") (λ repeat. tt))))
  read_haptic-IsSafe node tone_name =
      IsSafe-bind _ _ _ (properties-IsSafe node ("gain" ∷ "frequency" ∷ "duration-ms" ∷ [])) (λ u.
        IsSafe-bind _ _ _ (property_i8 node "gain") (λ gain.
          IsSafe-bind _ _ _ (property_u16 node "frequency")
            (λ frequency. IsSafe-bind _ _ _ (property_u16 node "duration-ms") (λ duration. tt))))
  read_haptic-IsSafe node sweep_name =
      IsSafe-bind _ _ _
        (properties-IsSafe node ("gain" ∷ "duration-ms" ∷ "start-frequency" ∷ "end-frequency" ∷ []))
        (λ u. IsSafe-bind _ _ _ (property_i8 node "gain") (λ gain.
          IsSafe-bind _ _ _ (property_u16 node "duration-ms") (λ duration.
            IsSafe-bind _ _ _ (property_u16 node "start-frequency")
              (λ first. IsSafe-bind _ _ _ (property_u16 node "end-frequency") (λ last. tt)))))
  read_haptic-IsSafe node script_name =
      IsSafe-bind _ _ _ (properties-IsSafe node ("gain" ∷ [])) (λ u.
        IsSafe-bind _ _ _ (property_i8 node "gain") (λ gain.
          IsSafe-bind _ _ _ (argument-IsSafe (read_unsigned 8) (read_unsigned-IsSafe 8) node 0)
            (λ script_id. tt)))

  haptic_child-IsSafe : (node : KdlNode) (nodes : List KdlNode) → IsSafe (haptic_child node nodes)
  unfolding haptic_child
  haptic_child-IsSafe node [] = tt
  haptic_child-IsSafe node (child ∷ []) =
      IsSafe-bind _ _ _ (one_of-IsSafe (at_node child) (name_of child) haptic_names)
        (λ kind. read_haptic-IsSafe child kind)
  haptic_child-IsSafe node (child ∷ other ∷ nodes) = tt

  pub parse_haptic-IsSafe : (node : KdlNode) → IsSafe (parse_haptic node)
  unfolding parse_haptic
  parse_haptic-IsSafe node =
      IsSafe-bind _ _ _ (properties-IsSafe node []) (λ u. haptic_child-IsSafe node (children node))
