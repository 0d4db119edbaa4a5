-- ===== src/Kdl.antt =====
-- Reading values out of KDL documents: core/src/kdl.rs. The documents are those of the `kdl` crate,
-- the interface `Kdl`. A message is kept as its fixed text, without the arguments that are formatted
-- into it, and a span as the thing that it is the span of.
pub mod Safe
use Prim.Native.String.{String}
use steam_controller_daemon.Platform.{Platform}
use steam_controller_daemon.Config.{string_eq}
use steam_controller_daemon.Prelude.Int.{ℤ, pos, negsuc}
use steam_controller_daemon.Prelude.Outcome.{Outcome, ok, err, panics, ◌>>=◌, ◌>>◌}
use steam_controller_daemon.Prelude.{
  ℕ, suc, ◌+◌, ◌-◌, ◌^◌, Bool, true, false, not, ◌&&◌, ◌||◌, Option, none, some, List, [], ◌∷◌,
  ◌++◌, any, ltb, ◌==◌, if◌then◌else◌,
}

unfoldable pub find_name : {A : Type 0} → String → List (String × A) → Option A
unfolding string_eq
find_name value [] = none
find_name value ((name, a) ∷ table) = if name == value then some a else find_name value table

module _ ⦃p : Platform⦄ where
  open p use {F32, from_int}

  pub record Kdl : Type 1 where
    pub KdlDocument : Type 0
    pub KdlNode : Type 0
    pub KdlEntry : Type 0
    pub parse_document : String → Option KdlDocument
    pub nodes_of : KdlDocument → List KdlNode
    pub name_of : KdlNode → String
    pub children_of : KdlNode → Option KdlDocument
    pub entries_of : KdlNode → List KdlEntry
    -- `KdlNode::entry` of a number, an argument, and of a string, a property.
    pub argument_at : KdlNode → ℕ → Option KdlEntry
    pub property_of : KdlNode → String → Option KdlEntry
    pub entry_name : KdlEntry → Option String
    pub as_string : KdlEntry → Option String
    pub as_bool : KdlEntry → Option Bool
    pub as_integer : KdlEntry → Option ℤ
    -- The `f64` of `KdlValue::Float`, as an `f32`.
    pub as_float : KdlEntry → Option F32

module _ ⦃p : Platform⦄ ⦃k : Kdl⦄ where
  open p use {F32, from_int}
  open k use {
    KdlDocument, KdlNode, KdlEntry, nodes_of, name_of, children_of, entries_of, argument_at,
    property_of, entry_name, as_string, as_bool, as_integer, as_float,
  }

  pub data Place : Type 0 where
    at_document : KdlDocument → Place
    at_node : KdlNode → Place
    at_entry : KdlEntry → Place

  pub record Issue : Type 0 where
    pub place : Place
    pub message : String

  -- The issues of a failed parse.
  abbrev pub Parsed : Type 0 → Type 0
  Parsed A = Outcome (List Issue) A

  abbrev pub issue : Place → String → Issue
  issue place message = record { place = place; message = message }

  abbrev pub fails : {A : Type 0} → Place → String → Parsed A
  fails place message = err (issue place message ∷ [])

  -- `ok_or_else`.
  abbrev pub ok_or : {A : Type 0} → Option A → Place → String → Parsed A
  ok_or none place message = fails place message
  ok_or (some a) place message = ok a

  -- `one_of!`: the names and what each stands for.
  unfoldable pub one_of : {A : Type 0} → Place → String → List (String × A) → Parsed A
  unfolding find_name
  one_of place value table = ok_or (find_name value table) place "expected one of"

  -- `FromKdl`, at the types that the configuration reads.
  unfoldable pub read_str : KdlEntry → Parsed String
  read_str entry = ok_or (as_string entry) (at_entry entry) "must be a string"

  unfoldable pub read_bool : KdlEntry → Parsed Bool
  read_bool entry = ok_or (as_bool entry) (at_entry entry) "must be a boolean"

  unfoldable pub read_f32 : KdlEntry → Parsed F32
  read_f32 entry = elim (as_float entry) [
    | some value ↦ ok value
    | none ↦ (elim (as_integer entry) [
      | some value ↦ ok (from_int value)
      | none ↦ fails (at_entry entry) "must be a number"
    ])
  ]

  -- `u8`, `u16` and `u32`, by their width.
  unfoldable pub as_unsigned : KdlEntry → ℕ → ℤ → Parsed ℕ
  as_unsigned entry width (pos n) =
      if ltb n (2 ^ width) then ok n else fails (at_entry entry) "is out of range"
  as_unsigned entry width (negsuc n) = fails (at_entry entry) "is out of range"

  unfoldable pub read_unsigned : ℕ → KdlEntry → Parsed ℕ
  unfolding as_unsigned
  read_unsigned width entry = do
    value ← ok_or (as_integer entry) (at_entry entry) "must be an integer"
    as_unsigned entry width value

  unfoldable pub as_i8 : KdlEntry → ℤ → Parsed ℤ
  as_i8 entry (pos n) = if ltb n 128 then ok (pos n) else fails (at_entry entry) "is out of range"
  as_i8 entry (negsuc n) =
      if ltb n 128 then ok (negsuc n) else fails (at_entry entry) "is out of range"

  unfoldable pub read_i8 : KdlEntry → Parsed ℤ
  unfolding as_i8
  read_i8 entry = do
    value ← ok_or (as_integer entry) (at_entry entry) "must be an integer"
    as_i8 entry value

  -- `Spanned`.
  unfoldable pub spanned : {A : Type 0} → (KdlEntry → Parsed A) → KdlEntry → Parsed (A × Place)
  spanned read entry = do value ← read entry; ok (value, at_entry entry)

  unfoldable pub argument : {A : Type 0} → (KdlEntry → Parsed A) → KdlNode → ℕ → Parsed A
  argument read node index = do
    entry ← ok_or (argument_at node index) (at_node node) "requires argument"
    read entry

  unfoldable pub property : {A : Type 0} → (KdlEntry → Parsed A) → KdlNode → String → Parsed A
  property read node name = do
    entry ← ok_or (property_of node name) (at_node node) "requires property"
    read entry

  unfoldable pub optional_property :
      {A : Type 0} → (KdlEntry → Parsed A) → KdlNode → String → Parsed (Option A)
  optional_property read node name = elim (property_of node name) [
    | none ↦ ok none
    | some entry ↦ (do value ← read entry; ok (some value))
  ]

  abbrev pub or_default : {A : Type 0} → Option A → A → A
  or_default none a = a
  or_default (some a) b = a

  -- A property of `props!` with a default.
  unfoldable pub property_or :
      {A : Type 0} → (KdlEntry → Parsed A) → KdlNode → String → A → Parsed A
  unfolding optional_property
  property_or read node name default = do
    value ← optional_property read node name
    ok (or_default value default)

  unfoldable pub named : String → KdlEntry → Bool
  unfolding string_eq
  named name entry = elim (entry_name entry) [ none ↦ false | some other ↦ other == name ]

  -- The loop of `properties`: the entries before this one, and those from it on.
  unfoldable pub check_properties : List String → List KdlEntry → List KdlEntry → Parsed (Unit {0})
  unfolding named string_eq
  check_properties allowed earlier [] = ok tt
  check_properties allowed earlier (entry ∷ entries) =
      let rest = check_properties allowed (earlier ++ entry ∷ []) entries in
      elim (entry_name entry) [
        | none ↦ rest
        | some name ↦
            if not (any (λ (other : String). other == name) allowed)
            then fails (at_entry entry) "has unexpected property"
            else if any (named name) earlier
            then fails (at_entry entry) "has duplicate property"
            else rest
      ]

  unfoldable pub properties : KdlNode → List String → Parsed (Unit {0})
  unfolding check_properties
  properties node allowed = check_properties allowed [] (entries_of node)

  unfoldable pub children : KdlNode → List KdlNode
  children node = elim (children_of node) [ none ↦ [] | some document ↦ nodes_of document ]

  -- The entries of `arguments`.
  unfoldable pub positional : List KdlEntry → List KdlEntry
  positional [] = []
  positional (entry ∷ entries) =
      let rest = positional entries in
      elim (entry_name entry) [ none ↦ entry ∷ rest | some name ↦ rest ]

  unfoldable pub arguments : KdlNode → List KdlEntry
  unfolding positional
  arguments node = positional (entries_of node)

  -- `.filter(|node| node.name().value() == name)`.
  unfoldable pub with_name : String → List KdlNode → List KdlNode
  unfolding string_eq
  with_name name [] = []
  with_name name (node ∷ nodes) =
      let rest = with_name name nodes in if name_of node == name then node ∷ rest else rest

  unfoldable pub all_nodes : KdlDocument → String → List KdlNode
  unfolding with_name
  all_nodes document name = with_name name (nodes_of document)

  unfoldable pub only_node : {A : Type 0} → (KdlNode → Parsed A) → List KdlNode → Parsed (Option A)
  only_node from_node [] = ok none
  only_node from_node (node ∷ []) = do value ← from_node node; ok (some value)
  only_node from_node (node ∷ duplicate ∷ nodes) = fails (at_node duplicate) "duplicate node"

  unfoldable pub optional_node :
      {A : Type 0} → (KdlNode → Parsed A) → KdlDocument → String → Parsed (Option A)
  unfolding only_node all_nodes
  optional_node from_node document name = only_node from_node (all_nodes document name)

  -- `FromKdlNode` of a value, and of the node itself.
  unfoldable pub value_node : {A : Type 0} → (KdlEntry → Parsed A) → KdlNode → Parsed A
  unfolding properties argument
  value_node read node = do properties node []; argument read node 0

  abbrev pub whole_node : KdlNode → Parsed KdlNode
  whole_node node = ok node

  -- A node that `nodes!` requires.
  unfoldable pub required_node :
      {A : Type 0} → (KdlNode → Parsed A) → KdlDocument → String → Parsed A
  unfolding optional_node
  required_node from_node document name = do
    value ← optional_node from_node document name
    ok_or value (at_document document) "missing node"

  unfoldable pub expect_names : List KdlNode → List String → Parsed (Unit {0})
  unfolding string_eq
  expect_names [] allowed = ok tt
  expect_names (node ∷ nodes) allowed =
      let rest = expect_names nodes allowed in
      if any (λ (other : String). other == name_of node) allowed
      then rest
      else fails (at_node node) "unexpected node"

  unfoldable pub validate_nodes : KdlDocument → List String → Parsed (Unit {0})
  unfolding expect_names
  validate_nodes document allowed = expect_names (nodes_of document) allowed
