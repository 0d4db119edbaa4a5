-- ===== src/Config/Parse/Document/Names.antt =====
-- The names of the modes, the keyboard's bindings and the global bindings of a document: the
-- invariants of their loops.
use Prim.Native.String.{String}
use steam_controller_daemon.Platform.{Platform, get-insert, length-insert}
use steam_controller_daemon.Protocol.Buttons.{Button, Buttons, button_eq}
use steam_controller_daemon.Config.{
  ConfigMaps, GlobalBinding, GlobalAction, action, keyboard_toggle, Mode, string_eq,
}
use steam_controller_daemon.Kdl.{Kdl, at_node, Issue, children}
use steam_controller_daemon.Kdl.Safe.{properties-IsSafe}
use steam_controller_daemon.Config.Parse.Key.{KeyText}
use steam_controller_daemon.Config.Parse.Binding.Targets.{
  NamesIn, parse_button-IsSafe, parse_key-IsSafe, argument_str-IsSafe,
}
use steam_controller_daemon.Config.Parse.Mode.{push_if}
use steam_controller_daemon.Config.Parse.Mode.Valid.{Kept, push_if-Kept, Appended, append_binding}
use steam_controller_daemon.Config.Parse.Mode.Layers.{ModeSound, parse_mode-ModeSound}
use steam_controller_daemon.Config.Parse.Document.{
  is_present, push_name, parse_names, is_pad_input, parse_osk, parse_osk_node, push_global,
  parse_globals, parse_global_node, parse_modes,
}
use steam_controller_daemon.Mapper.Invariant.{GlobalTargets, ModeTargets}
use steam_controller_daemon.Prelude.Outcome.{
  Yields, Yields-bind, Yields-imp, Yields-if, IsSafe-bind,
}
use steam_controller_daemon.Prelude.{
  ℕ, suc, ◌+◌, ◌≡◌, refl, sym, ◌∙◌, subst, true, not, Option, none, some, List, [], ◌∷◌, ◌++◌,
  length, length-append, All, All-append, append-nil, append-one, ap, ◌==◌, arith, Option-cases,
  Bool-cases, inl, inr,
}

module _ ⦃p : Platform⦄ ⦃maps : ConfigMaps⦄ ⦃text : KeyText⦄ ⦃k : Kdl⦄ where
  open p use {KeyCode}
  open maps use {name_map, osk_map}
  open k use {KdlNode, name_of}
  open text use {trim}

  -- The names of the first `index` modes; unless an issue was found they are as many.
  abbrev pub NamesSound : ℕ → List Issue → name_map.Map × List Issue → Type 0
  NamesSound index start (names, issues) =
      NamesIn index names
      × Kept start issues
      × (issues ≡ [] → length (name_map.entries names) ≡ index)

  NamesIn-insert :
      (index : ℕ) (names : name_map.Map) (name : String)
      → NamesIn index names
      → NamesIn (suc index) (name_map.insert names name index)
  NamesIn-insert index names name within other id e =
      let read = sym (get-insert name_map names name other index) ∙ e in
      elim (Bool-cases (name == other)) [
        | inl same ↦ ground (arith, read, same)
        | inr differ ↦ (let h = within other id (ground (arith, read, differ)) in omega arith)
      ]

  push_name-NamesSound :
      (node : KdlNode) (name : String) (index : ℕ) (names : name_map.Map)
      (start issues : List Issue)
      → NamesSound index start (names, issues)
      → NamesSound (suc index) start (push_name node name index names issues)
  unfolding push_name
  push_name-NamesSound node name index names start issues (within, kept, counted) =
      let checked =
        push_if-Kept (trim name == "") issues (at_node node) "mode names must not be empty" in
      elim (Option-cases (name_map.get names name)) [
        | inl e ↦
            rw (e, push_name)
              (
                NamesIn-insert index names name within,
                (λ h. kept (checked h)),
                λ h. length-insert name_map names name index e ∙ ap suc (counted (checked h)),
              )
        | inr (other, e) ↦
            rw (e, push_name)
              (
                (λ s id h. (let lower = within s id h in omega arith)),
                (λ h. kept (checked (append-nil _ _ h))),
                λ h. absurd (append-one _ _ h),
              )
      ]

  pub parse_names-NamesSound :
      (nodes : List KdlNode) (index : ℕ) (names : name_map.Map) (start issues : List Issue)
      → NamesSound index start (names, issues)
      → Yields (NamesSound (index + length nodes) start) (parse_names nodes index names issues)
  unfolding parse_names
  parse_names-NamesSound [] index names start issues sound =
      subst (λ n. NamesSound n start (names, issues)) (omega arith) sound
  parse_names-NamesSound (node ∷ nodes) index names start issues sound =
      let count : suc index + length nodes ≡ index + length (node ∷ nodes) = omega arith in
      IsSafe-bind _ _ _ (argument_str-IsSafe node 0) (λ name.
        let next = push_name-NamesSound node name index names start issues sound in
        let after = push_name node name index names issues in
        subst (λ n. Yields (NamesSound n start) (parse_names nodes (suc index) after.0 after.1))
          count (parse_names-NamesSound nodes (suc index) after.0 start after.1 next))

  parse_osk-Kept :
      (nodes : List KdlNode) (bindings : osk_map.Map) (issues : List Issue)
      → Yields (λ (r : osk_map.Map × List Issue). Kept issues r.1) (parse_osk nodes bindings issues)
  unfolding parse_osk
  parse_osk-Kept [] bindings issues = λ e. e
  parse_osk-Kept (child ∷ nodes) bindings issues =
      Yields-if (λ (r : osk_map.Map × List Issue). Kept issues r.1) (not (name_of child == "bind"))
        _ _ tt
        (IsSafe-bind _ _ _ (properties-IsSafe child []) (λ u.
          IsSafe-bind _ _ _ (argument_str-IsSafe child 0) (λ input_name.
            IsSafe-bind _ _ _ (parse_button-IsSafe input_name child) (λ input.
              IsSafe-bind _ _ _ (argument_str-IsSafe child 1) (λ key_name.
                IsSafe-bind _ _ _ (parse_key-IsSafe (at_node child) key_name) (λ key.
                  Yields-imp
                    (λ (r : osk_map.Map × List Issue).
                      Kept
                        (push_if (is_pad_input input)
                          (push_if (is_present (osk_map.get bindings input)) issues (at_node child)
                            "duplicate OSK binding input")
                          (at_node child) "OSK binding input is reserved for keyboard pointing")
                        r.1)
                    (λ (r : osk_map.Map × List Issue). Kept issues r.1) _
                    (λ (r : osk_map.Map × List Issue) later e.
                      push_if-Kept (is_present (osk_map.get bindings input)) issues (at_node child)
                        "duplicate OSK binding input"
                        (push_if-Kept (is_pad_input input) _ (at_node child)
                          "OSK binding input is reserved for keyboard pointing" (later e)))
                    (parse_osk-Kept nodes _ _)))))))

  pub parse_osk_node-Kept :
      (node : Option KdlNode) (bindings : osk_map.Map) (issues : List Issue)
      → Yields
          (λ (r : osk_map.Map × List Issue). Kept issues r.1)
          (parse_osk_node node bindings issues)
  unfolding parse_osk_node
  parse_osk_node-Kept none bindings issues = λ e. e
  parse_osk_node-Kept (some node) bindings issues =
      IsSafe-bind _ _ _ (properties-IsSafe node [])
        (λ u. parse_osk-Kept (children node) bindings issues)

  module _ (count : ℕ) (names : name_map.Map) (within : NamesIn count names) where
    -- The global bindings and the issues, which started with the given issues.
    abbrev pub GlobalsSound : List Issue → List GlobalBinding × List Issue → Type 0
    GlobalsSound start (bindings, issues) = All (GlobalTargets count) bindings × Kept start issues

    push_global-GlobalsSound :
        (node : KdlNode) (bindings : List GlobalBinding) (start before issues : List Issue)
        (parsed : Option (Buttons × Button × GlobalAction))
        → GlobalsSound start (bindings, before)
        → Appended count true before (issues, parsed)
        → GlobalsSound start (push_global node bindings issues parsed)
    unfolding push_global
    push_global-GlobalsSound node bindings start before issues none (bs, kept) (more, named) =
        (bs, λ e. kept (more e))
    push_global-GlobalsSound node bindings start before issues (some (inputs, trigger, action act))
          (bs, kept) (more, named) =
        (
          All-append (GlobalTargets count) bindings _ bs (named, tt),
          λ e. kept (more (push_if-Kept _ issues (at_node node) _ e)),
        )
    push_global-GlobalsSound node bindings start before issues
          (some (inputs, trigger, keyboard_toggle)) (bs, kept) (more, named) =
        (
          All-append (GlobalTargets count) bindings _ bs (tt, tt),
          λ e. kept (more (push_if-Kept _ issues (at_node node) _ e)),
        )

    parse_globals-GlobalsSound :
        (nodes : List KdlNode) (bindings : List GlobalBinding) (start issues : List Issue)
        → GlobalsSound start (bindings, issues)
        → Yields (GlobalsSound start) (parse_globals nodes names bindings issues)
    unfolding parse_globals
    parse_globals-GlobalsSound [] bindings start issues sound = sound
    parse_globals-GlobalsSound (node ∷ nodes) bindings start issues sound =
        Yields-bind (Appended count true issues) (GlobalsSound start) _ _
          (append_binding count names within issues node true)
          (λ (issues', parsed) h.
            let next = push_global node bindings issues' parsed in
            parse_globals-GlobalsSound nodes next.0 start next.1
              (push_global-GlobalsSound node bindings start issues issues' parsed sound h))

    pub parse_global_node-GlobalsSound :
        (node : Option KdlNode) (issues : List Issue)
        → Yields (GlobalsSound issues) (parse_global_node node names issues)
    unfolding parse_global_node
    parse_global_node-GlobalsSound none issues = (tt, λ e. e)
    parse_global_node-GlobalsSound (some node) issues =
        IsSafe-bind _ _ _ (properties-IsSafe node [])
          (λ u. parse_globals-GlobalsSound (children node) [] issues issues (tt, λ e. e))

    -- The modes and the issues, after `parsed` nodes.
    abbrev pub ModesSound : ℕ → List Issue → List Mode × List Issue → Type 0
    ModesSound parsed start (modes, issues) =
        All (ModeTargets count) modes × (length modes ≡ parsed) × Kept start issues

    pub parse_modes-ModesSound :
        (nodes : List KdlNode) (modes : List Mode) (start issues : List Issue)
        → ModesSound (length modes) start (modes, issues)
        → Yields
            (ModesSound (length modes + length nodes) start)
            (parse_modes nodes names modes issues)
    unfolding parse_modes
    parse_modes-ModesSound [] modes start issues (all, e, kept) = (all, omega arith, kept)
    parse_modes-ModesSound (node ∷ nodes) modes start issues (all, e, kept) =
        Yields-bind (ModeSound count issues)
          (ModesSound (length modes + length (node ∷ nodes)) start) _ _
          (parse_mode-ModeSound count names within node issues)
          (λ (mode, issues') (targets, more).
            let longer : length (modes ++ mode ∷ []) + length nodes
                ≡ length modes + length (node ∷ nodes) =
              omega (arith, length-append modes (mode ∷ [])) in
            subst
              (λ n.
                Yields (ModesSound n start) (parse_modes nodes names (modes ++ mode ∷ []) issues'))
              longer
              (parse_modes-ModesSound nodes (modes ++ mode ∷ []) start issues' (
                All-append (ModeTargets count) modes _ all (targets, tt),
                refl,
                λ e. kept (more e),
              )))
