-- ===== src/Config/Parse/Document/Valid.antt =====
-- Every configuration that `Config::parse` returns can run the mapper.
use Prim.Native.String.{String}
use steam_controller_daemon.Platform.{Platform, get-new}
use steam_controller_daemon.Protocol.Buttons.{button_eq}
use steam_controller_daemon.Protocol.Haptic.{Haptic}
use steam_controller_daemon.Config.{
  Config, ConfigMaps, ModeId, GlobalBinding, Mode, mode_id, string_eq,
}
use steam_controller_daemon.Kdl.{
  Kdl, Place, at_node, Issue, read_str, read_unsigned, spanned, value_node, whole_node,
}
use steam_controller_daemon.Kdl.Safe.{
  read_str-IsSafe, read_unsigned-IsSafe, spanned-IsSafe, property_or-IsSafe, properties-IsSafe,
  value_node-IsSafe, optional_node-IsSafe, required_node-IsSafe, validate_nodes-IsSafe,
}
use steam_controller_daemon.Config.Parse.Key.{KeyText}
use steam_controller_daemon.Config.Parse.Haptics.Safe.{parse_haptic-IsSafe}
use steam_controller_daemon.Config.Parse.Mode.{push_if}
use steam_controller_daemon.Config.Parse.Mode.Valid.{Kept, push_if-Kept}
use steam_controller_daemon.Config.Parse.Document.{
  is_present, document_names, parse_click_pressure, parse_switch_haptic, check_pressure,
  parse_names, Nodes, take_nodes, check_header, expect_default, no_issues, finish_nodes, from_nodes,
  from_document, parse,
}
use steam_controller_daemon.Config.Parse.Document.Names.{
  NamesSound, parse_names-NamesSound, parse_osk_node-Kept, GlobalsSound,
  parse_global_node-GlobalsSound, ModesSound, parse_modes-ModesSound,
}
use steam_controller_daemon.Mapper.Invariant.{IsConfig, GlobalTargets, ModeTargets}
use steam_controller_daemon.Prelude.Outcome.{Yields, Yields-bind, Yields-imp, IsSafe, IsSafe-bind}
use steam_controller_daemon.Prelude.{
  ◌≤◌, Bool, true, false, ℕ, ◌+◌, All, subst, ◌≡◌, refl, ap, sym, ◌∙◌, not, Option, none, some,
  List, [], ◌∷◌, length, append-one, ltb, arith, Option-cases, inl, inr,
}

module _ ⦃p : Platform⦄ ⦃maps : ConfigMaps⦄ ⦃text : KeyText⦄ ⦃k : Kdl⦄ where
  open maps use {name_map, osk_map}
  open k use {KdlNode, KdlDocument, parse_document}
  open text use {trim}

  -- A configuration that the mapper can run, with a pressure in its range.
  abbrev pub Checked : Config → Type 0
  Checked c = IsConfig c × (c.click_pressure ≤ 100)

  abbrev Bounded : ℕ → List Issue → List Issue → Type 0
  Bounded pressure issues later = Kept issues later × (later ≡ [] → pressure ≤ 100)

  push_if-right :
      (wrong : Bool) (issues : List Issue) (place : Place) (message : String)
      → push_if wrong issues place message ≡ []
      → wrong ≡ false
  push_if-right true issues place message e = absurd (append-one issues _ e)
  push_if-right false issues place message e = refl

  -- `trackpad.unwrap()` is of a node that is there.
  check_pressure-Bounded :
      (pressure : ℕ) (node : KdlNode) (issues : List Issue)
      → Yields (Bounded pressure issues) (check_pressure pressure (some node) issues)
  unfolding check_pressure
  check_pressure-Bounded pressure node issues =
      let message : String = "trackpad.click_pressure must be in [0, 100]" in
      (
        (λ e. push_if-Kept (ltb 100 pressure) issues (at_node node) message e),
        λ e.
            (let right = push_if-right (ltb 100 pressure) issues (at_node node) message e in
              ground (arith, right)),
      )

  parse_click_pressure-Bounded :
      (node : Option KdlNode) (issues : List Issue)
      → Yields
          (λ pressure. Yields (Bounded pressure issues) (check_pressure pressure node issues))
          (parse_click_pressure node)
  unfolding parse_click_pressure check_pressure
  parse_click_pressure-Bounded none issues = ((λ e. e), λ e. omega arith)
  parse_click_pressure-Bounded (some node) issues =
      IsSafe-bind _ _ _ (properties-IsSafe node ("click-pressure" ∷ [])) (λ u.
        Yields-imp (λ a. Unit {0}) _ _ (λ pressure h. check_pressure-Bounded pressure node issues)
          (property_or-IsSafe (read_unsigned 16) (read_unsigned-IsSafe 16) node "click-pressure"
            25))

  parse_switch_haptic-IsSafe : (node : Option KdlNode) → IsSafe (parse_switch_haptic node)
  unfolding parse_switch_haptic
  parse_switch_haptic-IsSafe none = tt
  parse_switch_haptic-IsSafe (some node) =
      IsSafe-bind _ _ _ (parse_haptic-IsSafe node) (λ haptic. tt)

  take_nodes-IsSafe : (document : KdlDocument) → IsSafe (take_nodes document)
  unfolding take_nodes
  take_nodes-IsSafe document =
      let optional = optional_node-IsSafe whole_node (λ node. tt) document in
      IsSafe-bind _ _ _ (validate_nodes-IsSafe document document_names) (λ u.
        IsSafe-bind _ _ _
          (required_node-IsSafe (value_node (spanned (read_unsigned 32)))
            (value_node-IsSafe (spanned (read_unsigned 32))
              (spanned-IsSafe (read_unsigned 32) (read_unsigned-IsSafe 32)))
            document "version")
          (λ version.
            IsSafe-bind _ _ _
              (required_node-IsSafe (value_node (spanned read_str))
                (value_node-IsSafe (spanned read_str) (spanned-IsSafe read_str read_str-IsSafe))
                document "default-mode")
              (λ default_mode. IsSafe-bind _ _ _ (optional "mode-switch-haptic") (λ haptic.
                IsSafe-bind _ _ _ (optional "trackpad") (λ trackpad.
                  IsSafe-bind _ _ _ (optional "osk")
                    (λ osk. IsSafe-bind _ _ _ (optional "global") (λ global. tt)))))))

  no_issues-Yields : (issues : List Issue) → Yields (λ u. issues ≡ []) (no_issues issues)
  no_issues-Yields [] = refl
  no_issues-Yields (first ∷ issues) = tt

  expect_default-Yields :
      (default : Option ModeId) (issues : List Issue) (place : Place) (message : String)
      → push_if (not (is_present default)) issues place message ≡ []
      → Yields (λ mode. default ≡ some mode) (expect_default default)
  expect_default-Yields none issues place message e = absurd (append-one issues _ e)
  expect_default-Yields (some mode) issues place message e = refl

  NamesSound-new : (start : List Issue) → NamesSound 0 start (name_map.new, start)
  NamesSound-new start = (
    (λ name id e. (let no = sym (get-new name_map name) ∙ e in cc)),
    (λ e. e),
    (λ e. ap length name_map.entries-new),
  )

  -- The configuration, once its modes are named.
  module _ (n : Nodes) (haptic : Option Haptic) (pressure : ℕ) (names : name_map.Map)
      (start named : List Issue)
      (sound : NamesSound (length n.mode_nodes) start (names, named)) where
    -- What the loops found, when they found no issue.
    valid_config :
        (modes : List Mode) (bindings : List GlobalBinding) (osk_bindings : osk_map.Map)
        (default : ModeId)
        → named ≡ []
        → name_map.get names n.default_mode.0 ≡ some default
        → All (GlobalTargets (length n.mode_nodes)) bindings
        → All (ModeTargets (length n.mode_nodes)) modes
        → length modes ≡ length n.mode_nodes
        → IsConfig (record {
          default_mode = default;
          mode_switch_haptic = haptic;
          click_pressure = pressure;
          osk_bindings = osk_bindings;
          global_bindings = bindings;
          mode_names = names;
          modes = modes;
        })
    unfolding mode_id
    valid_config modes bindings osk_bindings default none_left e targets all same =
        let (within, kept, counted) = sound in
        record {
          named = counted none_left ∙ sym same;
          default_lt = (let h = within n.default_mode.0 default e in omega arith);
          mode_id_lt = λ name id e. (let h = within name id e in omega arith);
          global_targets = subst (λ c. All (GlobalTargets c) bindings) (sym same) targets;
          mode_targets = subst (λ c. All (ModeTargets c) modes) (sym same) all;
        }

    finish_nodes-Checked :
        (start ≡ [] → pressure ≤ 100) → Yields Checked (finish_nodes n haptic pressure names named)
    unfolding finish_nodes
    finish_nodes-Checked bounded =
        let within = sound.0 in
        let count = length n.mode_nodes in
        let default = name_map.get names n.default_mode.0 in
        let missing : String = "default_mode does not name a configured mode" in
        let resolved = push_if (not (is_present default)) named n.default_mode.1 missing in
        Yields-bind (λ (r : osk_map.Map × List Issue). Kept resolved r.1) Checked _ _
          (parse_osk_node-Kept n.osk osk_map.new resolved)
          (λ (osk_bindings, after_osk) more.
            Yields-bind (GlobalsSound count names within after_osk) Checked _ _
              (parse_global_node-GlobalsSound count names within n.global after_osk)
              (λ (bindings, after_global) (targets, more').
                Yields-bind (ModesSound count names within (0 + count) after_global) Checked _ _
                  (parse_modes-ModesSound count names within n.mode_nodes [] after_global
                    after_global (tt, refl, λ e. e))
                  (λ (modes, issues) (all, same, more'').
                    Yields-bind (λ u. issues ≡ []) Checked _ _ (no_issues-Yields issues)
                      (λ u none_left.
                        let clean = more (more' (more'' none_left)) in
                        Yields-bind (λ mode. default ≡ some mode) Checked _ _
                          (expect_default-Yields default named n.default_mode.1 missing clean)
                          (λ mode e.
                            let none_named =
                              push_if-Kept (not (is_present default)) named n.default_mode.1 missing
                                clean in
                            (
                              valid_config modes bindings osk_bindings mode none_named e targets all
                                  (omega (arith, same)),
                              bounded (sound.1 none_named),
                            ))))))

  from_nodes-Checked : (document : KdlDocument) (n : Nodes) → Yields Checked (from_nodes document n)
  unfolding from_nodes
  from_nodes-Checked document n =
      let zero_add : 0 + length n.mode_nodes ≡ length n.mode_nodes = omega arith in
      IsSafe-bind _ _ _ (parse_switch_haptic-IsSafe n.haptic) (λ haptic.
        Yields-bind
          (λ pressure.
            Yields (Bounded pressure (check_header document n))
              (check_pressure pressure n.trackpad (check_header document n)))
          Checked _ _ (parse_click_pressure-Bounded n.trackpad (check_header document n))
          (λ pressure safe.
            Yields-bind (Bounded pressure (check_header document n)) Checked _ _ safe
              (λ header (more, bounded).
                Yields-bind (NamesSound (length n.mode_nodes) header) Checked _ _
                  (subst
                    (λ c.
                      Yields (NamesSound c header) (parse_names n.mode_nodes 0 name_map.new header))
                    zero_add
                    (parse_names-NamesSound n.mode_nodes 0 name_map.new header header
                      (NamesSound-new header)))
                  (λ (names, named) sound.
                    finish_nodes-Checked n haptic pressure names header named sound bounded))))

  from_document-Checked : (document : KdlDocument) → Yields Checked (from_document document)
  unfolding from_document
  from_document-Checked document =
      IsSafe-bind _ _ _ (take_nodes-IsSafe document) (λ n. from_nodes-Checked document n)

  -- `Config::parse` never panics: on every text it returns an error, or a configuration whose names
  -- are as many as its modes, whose default mode and every mode that a name or an action leads to is
  -- one of them, and whose click pressure is at most 100.
  pub parse-Checked : (source : String) → Yields Checked (parse source)
  unfolding parse
  parse-Checked source = elim (Option-cases (parse_document source)) [
    | inl e ↦ rw (e, parse) tt
    | inr (document, e) ↦ rw (e, parse) (from_document-Checked document)
  ]

  pub parse-IsConfig : (source : String) → Yields IsConfig (parse source)
  parse-IsConfig source =
      Yields-imp Checked IsConfig (parse source) (λ c h. h.0) (parse-Checked source)
