-- ===== src/Config/Parse/Document.antt =====
-- The whole document: core/src/config.rs, `Config::parse` and `Config::from_document`. `panics` is a
-- panic of the source.
pub mod Names
pub mod Valid
use Prim.Native.String.{String}
use steam_controller_daemon.Platform.{Platform, IndexMap}
use steam_controller_daemon.Protocol.Buttons.{
  Button, Buttons, button_eq, left_pad_touch, left_pad_click, right_pad_touch, right_pad_click,
}
use steam_controller_daemon.Protocol.Haptic.{Haptic}
use steam_controller_daemon.Config.{
  ConfigMaps, Config, ModeId, GlobalBinding, GlobalAction, Mode, string_eq,
}
use steam_controller_daemon.Kdl.{
  Kdl, Place, at_node, at_document, at_entry, Issue, issue, Parsed, fails, read_str, read_unsigned,
  spanned, argument, property_or, properties, children, validate_nodes, required_node, value_node,
  whole_node, optional_node, all_nodes,
}
use steam_controller_daemon.Config.Parse.Key.{KeyText, parse_key}
use steam_controller_daemon.Config.Parse.Names.{parse_button}
use steam_controller_daemon.Config.Parse.Binding.{parse_binding}
use steam_controller_daemon.Config.Parse.Haptics.{parse_haptic}
use steam_controller_daemon.Config.Parse.Mode.{append, push_if, parse_mode}
use steam_controller_daemon.Prelude.Outcome.{Outcome, ok, err, panics, ◌>>=◌, ◌>>◌}
use steam_controller_daemon.Prelude.{
  ℕ, suc, ◌+◌, Bool, true, false, not, ◌&&◌, ◌||◌, Option, none, some, List, [], ◌∷◌, ◌++◌, any,
  length, nat_beq, ltb, ◌==◌, if◌then◌else◌,
}

abbrev pub is_present {ℓ} : {A : Type ℓ} → Option A → Bool
is_present none = false
is_present (some a) = true

unfoldable pub document_names : List String
document_names =
    "version" ∷ "default-mode" ∷ "mode-switch-haptic" ∷ "trackpad" ∷ "osk" ∷ "global" ∷ "mode" ∷ []

module _ ⦃p : Platform⦄ ⦃maps : ConfigMaps⦄ ⦃text : KeyText⦄ ⦃k : Kdl⦄ where
  open p use {KeyCode}
  open maps use {name_map, osk_map}
  open k use {KdlNode, KdlDocument, name_of, parse_document}
  open text use {trim}

  unfoldable pub parse_click_pressure : Option KdlNode → Parsed ℕ
  unfolding properties property_or read_unsigned
  parse_click_pressure none = ok 25
  parse_click_pressure (some node) = do
    properties node ("click-pressure" ∷ [])
    property_or (read_unsigned 16) node "click-pressure" 25

  unfoldable pub parse_switch_haptic : Option KdlNode → Parsed (Option Haptic)
  unfolding parse_haptic
  parse_switch_haptic none = ok none
  parse_switch_haptic (some node) = do haptic ← parse_haptic node; ok (some haptic)

  -- `trackpad.unwrap()`.
  unfoldable pub check_pressure : ℕ → Option KdlNode → List Issue → Parsed (List Issue)
  check_pressure pressure none issues = if ltb 100 pressure then panics else ok issues
  check_pressure pressure (some node) issues = ok (
      push_if (ltb 100 pressure) issues (at_node node)
        "trackpad.click_pressure must be in [0, 100]")

  -- The names and the issues, after the name of the mode at `index`.
  unfoldable pub push_name :
      KdlNode → String → ℕ → name_map.Map → List Issue → name_map.Map × List Issue
  unfolding string_eq
  push_name node name index names issues =
      let checked =
        push_if (trim name == "") issues (at_node node) "mode names must not be empty" in
      elim (name_map.get names name) [
        | some other ↦ (names, checked ++ issue (at_node node) "duplicate mode name" ∷ [])
        | none ↦ (name_map.insert names name index, checked)
      ]

  -- The loop over the modes' names, from `index` on.
  unfoldable pub parse_names :
      List KdlNode → ℕ → name_map.Map → List Issue → Parsed (name_map.Map × List Issue)
  unfolding argument read_str push_name
  parse_names [] index names issues = ok (names, issues)
  parse_names (node ∷ nodes) index names issues = do
    name ← argument read_str node 0
    let next = push_name node name index names issues
    parse_names nodes (suc index) next.0 next.1

  unfoldable pub is_pad_input : Button → Bool
  unfolding button_eq
  is_pad_input input =
      input == left_pad_touch
      || input == left_pad_click
      || input == right_pad_touch
      || input == right_pad_click

  -- The loop over the children of `osk`.
  unfoldable pub parse_osk :
      List KdlNode → osk_map.Map → List Issue → Parsed (osk_map.Map × List Issue)
  unfolding string_eq properties argument read_str parse_button parse_key is_pad_input
  parse_osk [] bindings issues = ok (bindings, issues)
  parse_osk (child ∷ nodes) bindings issues =
      if not (name_of child == "bind") then fails (at_node child) "expected bind" else (do
        properties child []
        input_name ← argument read_str child 0
        input ← parse_button input_name child
        key_name ← argument read_str child 1
        key ← parse_key (at_node child) key_name
        parse_osk nodes (osk_map.insert bindings input key) (
            push_if (is_pad_input input)
              (push_if (is_present (osk_map.get bindings input)) issues (at_node child)
                "duplicate OSK binding input")
              (at_node child) "OSK binding input is reserved for keyboard pointing"))

  unfoldable pub parse_osk_node :
      Option KdlNode → osk_map.Map → List Issue → Parsed (osk_map.Map × List Issue)
  unfolding properties parse_osk children
  parse_osk_node none bindings issues = ok (bindings, issues)
  parse_osk_node (some node) bindings issues = do
    properties node []
    parse_osk (children node) bindings issues

  -- The global bindings and the issues, after one node.
  unfoldable pub push_global :
      KdlNode
      → List GlobalBinding
      → List Issue
      → Option (Buttons × Button × GlobalAction)
      → List GlobalBinding × List Issue
  unfolding button_eq
  push_global child bindings issues none = (bindings, issues)
  push_global child bindings issues (some (inputs, trigger, bound)) = (
    bindings ++ record { inputs = inputs; trigger = trigger; bound = bound } ∷ [],
    push_if
        (any (λ (b : GlobalBinding). nat_beq b.inputs.bits inputs.bits && b.trigger == trigger)
          bindings)
        issues (at_node child) "global binding duplicates an earlier input",
  )

  -- The loop over the children of `global`.
  unfoldable pub parse_globals :
      List KdlNode
      → name_map.Map
      → List GlobalBinding
      → List Issue
      → Parsed (List GlobalBinding × List Issue)
  unfolding parse_binding push_global
  parse_globals [] mode_names bindings issues = ok (bindings, issues)
  parse_globals (child ∷ nodes) mode_names bindings issues = do
    (issues', parsed) ← append issues (parse_binding child mode_names true)
    let next = push_global child bindings issues' parsed
    parse_globals nodes mode_names next.0 next.1

  unfoldable pub parse_global_node :
      Option KdlNode → name_map.Map → List Issue → Parsed (List GlobalBinding × List Issue)
  unfolding properties parse_globals children
  parse_global_node none mode_names issues = ok ([], issues)
  parse_global_node (some node) mode_names issues = do
    properties node []
    parse_globals (children node) mode_names [] issues

  unfoldable pub parse_modes :
      List KdlNode → name_map.Map → List Mode → List Issue → Parsed (List Mode × List Issue)
  unfolding parse_mode
  parse_modes [] mode_names modes issues = ok (modes, issues)
  parse_modes (node ∷ nodes) mode_names modes issues = do
    (mode, issues') ← parse_mode node mode_names issues
    parse_modes nodes mode_names (modes ++ mode ∷ []) issues'

  -- What `nodes!` takes out of the document.
  pub record Nodes : Type 0 where
    pub version : ℕ × Place
    pub default_mode : String × Place
    pub haptic : Option KdlNode
    pub trackpad : Option KdlNode
    pub osk : Option KdlNode
    pub global : Option KdlNode
    pub mode_nodes : List KdlNode

  unfoldable pub take_nodes : KdlDocument → Parsed Nodes
  unfolding validate_nodes document_names required_node value_node spanned read_unsigned read_str
      optional_node all_nodes
  take_nodes document = do
    validate_nodes document document_names
    version ← required_node (value_node (spanned (read_unsigned 32))) document "version"
    default_mode ← required_node (value_node (spanned read_str)) document "default-mode"
    haptic ← optional_node whole_node document "mode-switch-haptic"
    trackpad ← optional_node whole_node document "trackpad"
    osk ← optional_node whole_node document "osk"
    global ← optional_node whole_node document "global"
    ok (record {
      version = version;
      default_mode = default_mode;
      haptic = haptic;
      trackpad = trackpad;
      osk = osk;
      global = global;
      mode_nodes = all_nodes document "mode";
    })

  -- The checks before the loops.
  unfoldable pub check_header : KdlDocument → Nodes → List Issue
  unfolding string_eq
  check_header document n =
      push_if (trim n.default_mode.0 == "")
        (push_if (nat_beq (length n.mode_nodes) 0)
          (push_if (not (nat_beq n.version.0 1)) [] n.version.1 "version must be 1")
          (at_document document) "at least one mode is required")
        n.default_mode.1 "default_mode must not be empty"

  -- `expect("default mode exists")`.
  abbrev pub expect_default : Option ModeId → Parsed ModeId
  expect_default none = panics
  expect_default (some mode) = ok mode

  abbrev pub no_issues : List Issue → Parsed (Unit {0})
  no_issues [] = ok tt
  no_issues (first ∷ issues) = err (first ∷ issues)

  -- `from_document` once the modes have their names.
  unfoldable pub finish_nodes :
      Nodes → Option Haptic → ℕ → name_map.Map → List Issue → Parsed Config
  unfolding parse_osk_node parse_global_node parse_modes
  finish_nodes n haptic pressure names named = do
    let default = name_map.get names n.default_mode.0
    let resolved =
        push_if (not (is_present default)) named n.default_mode.1
          "default_mode does not name a configured mode"
    (osk_bindings, after_osk) ← parse_osk_node n.osk osk_map.new resolved
    (global_bindings, after_global) ← parse_global_node n.global names after_osk
    (modes, issues) ← parse_modes n.mode_nodes names [] after_global
    no_issues issues
    default_mode ← expect_default default
    ok (record {
      default_mode = default_mode;
      mode_switch_haptic = haptic;
      click_pressure = pressure;
      osk_bindings = osk_bindings;
      global_bindings = global_bindings;
      mode_names = names;
      modes = modes;
    })

  unfoldable pub from_nodes : KdlDocument → Nodes → Parsed Config
  unfolding parse_switch_haptic parse_click_pressure check_header check_pressure parse_names
      finish_nodes
  from_nodes document n = do
    haptic ← parse_switch_haptic n.haptic
    pressure ← parse_click_pressure n.trackpad
    header ← check_pressure pressure n.trackpad (check_header document n)
    (names, named) ← parse_names n.mode_nodes 0 name_map.new header
    finish_nodes n haptic pressure names named

  unfoldable pub from_document : KdlDocument → Parsed Config
  unfolding take_nodes from_nodes
  from_document document = do n ← take_nodes document; from_nodes document n

  -- `Config::parse`: a text that is no document is an error of the `kdl` crate.
  unfoldable pub parse : String → Parsed Config
  unfolding from_document
  parse source = elim (parse_document source) [
    | none ↦ err []
    | some document ↦ from_document document
  ]
