-- ===== src/Config/Parse/Mode/Valid.antt =====
-- A parsed mode's bindings and axes: the invariant of the loop over the children of a mode.
use Prim.Native.String.{String}
use steam_controller_daemon.Platform.{Platform}
use steam_controller_daemon.Protocol.Buttons.{Button, Buttons, button_eq}
use steam_controller_daemon.Config.{
  ConfigMaps, GlobalAction, action, keyboard_toggle, AxisMapping, string_eq,
}
use steam_controller_daemon.Kdl.{Kdl, Place, at_node, Issue, Parsed}
use steam_controller_daemon.Config.Parse.Key.{KeyText}
use steam_controller_daemon.Config.Parse.Binding.{parse_binding}
use steam_controller_daemon.Config.Parse.Binding.Targets.{NamesIn, ActionIn, parse_binding-ActionIn}
use steam_controller_daemon.Config.Parse.Axis.{parse_axis}
use steam_controller_daemon.Config.Parse.Axis.Safe.{parse_axis-IsSafe}
use steam_controller_daemon.Config.Parse.Mode.{
  append, push_if, Building, push_binding, push_axis, parse_bind_child, parse_axis_node,
}
use steam_controller_daemon.Mapper.Invariant.{BindingTargets, LayerTargets}
use steam_controller_daemon.Prelude.Outcome.{ok, err, panics, Yields, Yields-bind}
use steam_controller_daemon.Prelude.{
  ℕ, ◌≡◌, Bool, true, false, Option, none, some, List, [], All, All-append, append-nil,
}

module _ ⦃p : Platform⦄ ⦃k : Kdl⦄ where
  -- The issues found so far are among the later ones.
  abbrev pub Kept : List Issue → List Issue → Type 0
  Kept issues later = later ≡ [] → issues ≡ []

  abbrev pub OnSome : {A : Type 0} → (A → Type 0) → Option A → Type 0
  OnSome P none = Unit {0}
  OnSome P (some a) = P a

  pub push_if-Kept :
      (wrong : Bool) (issues : List Issue) (place : Place) (message : String)
      → Kept issues (push_if wrong issues place message)
  push_if-Kept true issues place message e = append-nil issues _ e
  push_if-Kept false issues place message e = e

  pub append-Yields :
      {A : Type 0} (P : A → Type 0) (issues : List Issue) (r : Parsed A)
      → Yields P r
      → Yields (λ (s : List Issue × Option A). Kept issues s.0 × OnSome P s.1) (append issues r)
  append-Yields P issues (ok a) h = (λ e. e, h)
  append-Yields P issues (err more) h = (λ e. append-nil issues more e, tt)
  append-Yields P issues panics h = absurd h

module _ ⦃p : Platform⦄ ⦃maps : ConfigMaps⦄ ⦃text : KeyText⦄ ⦃k : Kdl⦄ where
  open maps use {name_map}
  open k use {KdlNode, name_of}
  open text use {trim}

  -- The variables of `parse_mode`, which started with the given issues.
  abbrev pub Sound : ℕ → List Issue → Building → Type 0
  Sound count issues b =
      All (BindingTargets count) b.bindings
      × All (LayerTargets count) b.layers
      × Kept issues b.issues

  abbrev pub IsBound : ℕ → Bool → Buttons × Button × GlobalAction → Type 0
  IsBound count global (inputs, trigger, bound) = ActionIn count global bound

  -- What `append` makes of a binding's result.
  abbrev pub Appended :
      ℕ → Bool → List Issue → List Issue × Option (Buttons × Button × GlobalAction) → Type 0
  Appended count global issues (later, parsed) =
      Kept issues later × OnSome (IsBound count global) parsed

  pub append_binding :
      (count : ℕ) (names : name_map.Map)
      → NamesIn count names
      → (issues : List Issue) (node : KdlNode) (global : Bool)
      → Yields (Appended count global issues) (append issues (parse_binding node names global))
  append_binding count names within issues node global =
      append-Yields (IsBound count global) issues (parse_binding node names global)
        (parse_binding-ActionIn count names within node global)

  module _ (count : ℕ) (names : name_map.Map) (within : NamesIn count names)
      (start : List Issue) where
    push_binding-Sound :
        (child : KdlNode) (b : Building) (issues : List Issue)
        (parsed : Option (Buttons × Button × GlobalAction))
        → Sound count start b
        → Appended count false b.issues (issues, parsed)
        → Yields (Sound count start) (push_binding child b issues parsed)
    unfolding push_binding
    push_binding-Sound child b issues none (bs, ls, kept) (more, named) =
        (bs, ls, λ e. kept (more e))
    push_binding-Sound child b issues (some (inputs, trigger, action act)) (bs, ls, kept)
          (more, named) =
        (
          All-append (BindingTargets count) b.bindings _ bs (named, tt),
          ls,
          λ e. kept (more (push_if-Kept _ issues (at_node child) _ e)),
        )
    push_binding-Sound child b issues (some (inputs, trigger, keyboard_toggle)) _ (more, named) =
        absurd cc

    pub parse_bind_child-Sound :
        (child : KdlNode) (b : Building)
        → Sound count start b
        → Yields (Sound count start) (parse_bind_child child names b)
    unfolding parse_bind_child
    parse_bind_child-Sound child b sound =
        Yields-bind (Appended count false b.issues) (Sound count start) _ _
          (append_binding count names within b.issues child false)
          (λ (issues, parsed) h. push_binding-Sound child b issues parsed sound h)

    push_axis-Sound :
        (child : KdlNode) (b : Building) (issues : List Issue) (parsed : Option AxisMapping)
        → Sound count start b
        → Kept b.issues issues
        → Sound count start (push_axis child b issues parsed)
    unfolding push_axis
    push_axis-Sound child b issues none (bs, ls, kept) more = (bs, ls, λ e. kept (more e))
    push_axis-Sound child b issues (some axis) (bs, ls, kept) more =
        (bs, ls, λ e. kept (more (push_if-Kept _ issues (at_node child) _ e)))

    pub parse_axis_node-Sound :
        (child : KdlNode) (b : Building)
        → Sound count start b
        → Yields (Sound count start) (parse_axis_node child b)
    unfolding parse_axis_node
    parse_axis_node-Sound child b sound =
        Yields-bind
          (λ (s : List Issue × Option AxisMapping). Kept b.issues s.0 × OnSome (λ a. Unit {0}) s.1)
          (Sound count start) _ _
          (append-Yields (λ a. Unit {0}) b.issues (parse_axis child) (parse_axis-IsSafe child))
          (λ (issues, parsed) h. push_axis-Sound child b issues parsed sound h.0)
