-- ===== src/Kdl/Safe.antt =====
-- The readers return: a document can make them fail, and not panic.
use Prim.Native.String.{String}
use steam_controller_daemon.Platform.{Platform}
use steam_controller_daemon.Config.{string_eq}
use steam_controller_daemon.Kdl.{
  Kdl, Place, at_node, Parsed, ok_or, find_name, one_of, read_str, read_bool, read_f32, as_unsigned,
  read_unsigned, as_i8, read_i8, spanned, argument, property, optional_property, property_or,
  check_properties, properties, only_node, optional_node, value_node, required_node, expect_names,
  validate_nodes, all_nodes,
}
use steam_controller_daemon.Prelude.Int.{ℤ, pos, negsuc}
use steam_controller_daemon.Prelude.Outcome.{IsSafe, IsSafe-bind}
use steam_controller_daemon.Prelude.{
  ℕ, Option, none, some, List, [], ◌∷◌, ◌++◌, arith, Option-cases, inl, inr,
}

module _ ⦃p : Platform⦄ ⦃k : Kdl⦄ where
  open k use {
    KdlNode, KdlEntry, KdlDocument, entry_name, as_float, as_integer, nodes_of, property_of,
    argument_at,
  }

  pub ok_or-IsSafe :
      {A : Type 0} (o : Option A) (place : Place) (message : String)
      → IsSafe (ok_or o place message)
  ok_or-IsSafe none place message = tt
  ok_or-IsSafe (some a) place message = tt

  pub one_of-IsSafe :
      {A : Type 0} (place : Place) (value : String) (table : List (String × A))
      → IsSafe (one_of place value table)
  unfolding one_of
  one_of-IsSafe place value table = ok_or-IsSafe (find_name value table) place "expected one of"

  pub read_str-IsSafe : (entry : KdlEntry) → IsSafe (read_str entry)
  unfolding read_str
  read_str-IsSafe entry = ok_or-IsSafe _ _ _

  pub read_bool-IsSafe : (entry : KdlEntry) → IsSafe (read_bool entry)
  unfolding read_bool
  read_bool-IsSafe entry = ok_or-IsSafe _ _ _

  pub read_f32-IsSafe : (entry : KdlEntry) → IsSafe (read_f32 entry)
  unfolding read_f32
  read_f32-IsSafe entry = ground arith

  as_unsigned-IsSafe :
      (entry : KdlEntry) (width : ℕ) (value : ℤ) → IsSafe (as_unsigned entry width value)
  unfolding as_unsigned
  as_unsigned-IsSafe entry width (pos n) = ground arith
  as_unsigned-IsSafe entry width (negsuc n) = tt

  pub read_unsigned-IsSafe : (width : ℕ) (entry : KdlEntry) → IsSafe (read_unsigned width entry)
  unfolding read_unsigned
  read_unsigned-IsSafe width entry =
      IsSafe-bind _ _ _ (ok_or-IsSafe (as_integer entry) _ _)
        (λ value. as_unsigned-IsSafe entry width value)

  as_i8-IsSafe : (entry : KdlEntry) (value : ℤ) → IsSafe (as_i8 entry value)
  unfolding as_i8
  as_i8-IsSafe entry (pos n) = ground arith
  as_i8-IsSafe entry (negsuc n) = ground arith

  pub read_i8-IsSafe : (entry : KdlEntry) → IsSafe (read_i8 entry)
  unfolding read_i8
  read_i8-IsSafe entry =
      IsSafe-bind _ _ _ (ok_or-IsSafe (as_integer entry) _ _) (λ value. as_i8-IsSafe entry value)

  check_properties-IsSafe :
      (allowed : List String) (earlier entries : List KdlEntry)
      → IsSafe (check_properties allowed earlier entries)
  unfolding check_properties
  check_properties-IsSafe allowed earlier [] = tt
  check_properties-IsSafe allowed earlier (entry ∷ entries) =
      ground (arith, check_properties-IsSafe allowed (earlier ++ entry ∷ []) entries)

  pub properties-IsSafe :
      (node : KdlNode) (allowed : List String) → IsSafe (properties node allowed)
  unfolding properties
  properties-IsSafe node allowed = check_properties-IsSafe allowed [] _

  -- A reader of entries that returns.
  module _ {A : Type 0} (read : KdlEntry → Parsed A)
      (safe : (entry : KdlEntry) → IsSafe (read entry)) where
    pub argument-IsSafe : (node : KdlNode) (index : ℕ) → IsSafe (argument read node index)
    unfolding argument
    argument-IsSafe node index =
        IsSafe-bind _ _ read
          (ok_or-IsSafe (argument_at node index) (at_node node) "requires argument") safe

    pub property-IsSafe : (node : KdlNode) (name : String) → IsSafe (property read node name)
    unfolding property
    property-IsSafe node name =
        IsSafe-bind _ _ read
          (ok_or-IsSafe (property_of node name) (at_node node) "requires property") safe

    pub optional_property-IsSafe :
        (node : KdlNode) (name : String) → IsSafe (optional_property read node name)
    unfolding optional_property
    optional_property-IsSafe node name = elim (Option-cases (property_of node name)) [
      | inl e ↦ rw (e, optional_property) tt
      | inr (entry, e) ↦ rw (e, optional_property) (IsSafe-bind _ _ _ (safe entry) (λ value. tt))
    ]

    pub property_or-IsSafe :
        (node : KdlNode) (name : String) (default : A) → IsSafe (property_or read node name default)
    unfolding property_or
    property_or-IsSafe node name default =
        IsSafe-bind _ _ _ (optional_property-IsSafe node name) (λ value. tt)

    pub spanned-IsSafe : (entry : KdlEntry) → IsSafe (spanned read entry)
    unfolding spanned
    spanned-IsSafe entry = IsSafe-bind _ _ _ (safe entry) (λ value. tt)

    pub value_node-IsSafe : (node : KdlNode) → IsSafe (value_node read node)
    unfolding value_node
    value_node-IsSafe node =
        IsSafe-bind _ _ _ (properties-IsSafe node []) (λ u. argument-IsSafe node 0)

  module _ {A : Type 0} (from_node : KdlNode → Parsed A)
      (safe : (node : KdlNode) → IsSafe (from_node node)) where
    only_node-IsSafe : (nodes : List KdlNode) → IsSafe (only_node from_node nodes)
    unfolding only_node
    only_node-IsSafe [] = tt
    only_node-IsSafe (node ∷ []) = IsSafe-bind _ _ _ (safe node) (λ value. tt)
    only_node-IsSafe (node ∷ duplicate ∷ nodes) = tt

    pub optional_node-IsSafe :
        (document : KdlDocument) (name : String) → IsSafe (optional_node from_node document name)
    unfolding optional_node
    optional_node-IsSafe document name = only_node-IsSafe (all_nodes document name)

    pub required_node-IsSafe :
        (document : KdlDocument) (name : String) → IsSafe (required_node from_node document name)
    unfolding required_node
    required_node-IsSafe document name =
        IsSafe-bind _ _ _ (optional_node-IsSafe document name) (λ value. ok_or-IsSafe value _ _)

  expect_names-IsSafe :
      (nodes : List KdlNode) (allowed : List String) → IsSafe (expect_names nodes allowed)
  unfolding expect_names
  expect_names-IsSafe [] allowed = tt
  expect_names-IsSafe (node ∷ nodes) allowed = ground (arith, expect_names-IsSafe nodes allowed)

  pub validate_nodes-IsSafe :
      (document : KdlDocument) (allowed : List String) → IsSafe (validate_nodes document allowed)
  unfolding validate_nodes
  validate_nodes-IsSafe document allowed = expect_names-IsSafe _ allowed
