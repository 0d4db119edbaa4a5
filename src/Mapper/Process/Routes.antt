-- ===== src/Mapper/Process/Routes.antt =====
-- The routes under the invariant of the mapper.
use steam_controller_daemon.Platform.{Platform, IndexMap}
use steam_controller_daemon.Config.{ConfigMaps, Config, Layer, Binding}
use steam_controller_daemon.Protocol.Buttons.{Button, Buttons, button_eq, contains, no_buttons}
use steam_controller_daemon.Mapper.Types.{Output, HeldOutput, held_eq, ActiveRoute, Mapper}
use steam_controller_daemon.Mapper.Held.Observer.{Synced}
use steam_controller_daemon.Mapper.Held.Sync.{set_held-Synced}
use steam_controller_daemon.Mapper.Invariant.{IsConfig, Good, BindingTargets, LayerTargets}
use steam_controller_daemon.Mapper.Switch.{apply_action}
use steam_controller_daemon.Mapper.Switch.Good.{apply_action-Good, AppliesWell}
use steam_controller_daemon.Mapper.Routes.{
  Releasing, Routed, is_chord, route_ends, end_route, release_routes, layer_active, starts,
  begin_route, route_binding, route_bindings, route_layers,
}
use steam_controller_daemon.Mapper.Process.Globals.{Good-of_held}
use steam_controller_daemon.Prelude.Panic.{◌>>=◌, Ensures, Ensures-bind, Ensures-imp}
use steam_controller_daemon.Prelude.{
  ℕ, ◌≡◌, refl, ◌∙◌, Bool, true, false, ◌||◌, xor, Option, some, List, [], ◌∷◌, length, All,
  Bool-cases, Option-cases, inl, inr, if◌then◌else◌,
}

module _ ⦃p : Platform⦄ ⦃held_map : IndexMap HeldOutput ℕ⦄ (start : HeldOutput → Bool) where
  abbrev ReleasingSynced : Releasing → Type 0
  ReleasingSynced r = Synced start r.held r.outputs

  end_route-Synced :
      (buttons : Buttons) (route : ActiveRoute) (r : Releasing)
      → ReleasingSynced r
      → ReleasingSynced (end_route buttons route r)
  unfolding end_route
  end_route-Synced buttons route r sync = elim (Option-cases route.held) [
    | inl e ↦ rw (e, end_route) sync
    | inr (h, e) ↦ rw (e, end_route) (set_held-Synced start r.held h false r.outputs sync)
  ]

  pub release_routes-Synced :
      (buttons reserved captured : Buttons) (routes : List ActiveRoute) (r : Releasing)
      → Synced start r.held r.outputs
      → Synced start
          (release_routes buttons reserved captured routes r).held
          (release_routes buttons reserved captured routes r).outputs
  unfolding release_routes
  release_routes-Synced buttons reserved captured [] r sync = sync
  release_routes-Synced buttons reserved captured (route ∷ routes) r sync =
      let later = release_routes buttons reserved captured routes r in
      let ih = release_routes-Synced buttons reserved captured routes r sync in
      elim (Bool-cases (route_ends buttons reserved captured route)) [
        | inl e ↦ rw (e, release_routes) (end_route-Synced buttons route later ih)
        | inr e ↦ rw (e, release_routes) ih
      ]

module _ ⦃p : Platform⦄ ⦃maps : ConfigMaps⦄ ⦃held_map : IndexMap HeldOutput ℕ⦄
    (start : HeldOutput → Bool) (c : Config) (valid : IsConfig c) where
  -- A good mapper, in the same mode unless `process` returns.
  abbrev pub RoutesWell : Mapper → Routed → Type 0
  RoutesWell m (m', outputs', interrupted) =
      Good start c (m', outputs') × (interrupted ≡ false → m'.active_mode ≡ m.active_mode)

  -- What follows a step that was not interrupted.
  pub RoutesWell-next :
      (m : Mapper) (r : Option Routed) (rest : Mapper → List Output → Option Routed)
      → Ensures (RoutesWell m) r
      → ((m' : Mapper) (outputs' : List Output)
          → Good start c (m', outputs')
          → Ensures (RoutesWell m') (rest m' outputs'))
      → Ensures (RoutesWell m) (
          r >>= λ (m', outputs', interrupted).
          if interrupted then some (m', outputs', true) else rest m' outputs')
  RoutesWell-next m r rest h k =
      Ensures-bind (RoutesWell m) (RoutesWell m) r _ h (λ (m', outputs', interrupted) g.
        elim (Bool-cases interrupted) [
          | inl e ↦ rw e (g.0, λ q. cc)
          | inr e ↦ rw e (
              Ensures-imp (RoutesWell m') (RoutesWell m) (rest m' outputs')
                (λ s w. (w.0, λ q. w.1 q ∙ g.1 e)) (k m' outputs' g.0))
        ])

  begin_route-Good :
      (m : Mapper) (b : Binding) (hold : Option Button) (outputs : List Output)
      → BindingTargets (length c.modes) b
      → Good start c (m, outputs)
      → Ensures (RoutesWell m) (begin_route m b hold outputs)
  unfolding begin_route
  begin_route-Good m b hold outputs t good =
      Ensures-bind (AppliesWell start c valid m) (RoutesWell m)
        (apply_action m b.bound true outputs) _
        (apply_action-Good start c valid m b.bound true outputs good t)
        (λ (m', outputs', interrupted, held) g.
          (Good-of_held start c m' outputs' _ _ g.0 refl refl refl refl g.0.synced, g.1))

  route_binding-Good :
      (m : Mapper) (b : Binding) (hold : Option Button) (buttons previous reserved : Buttons)
      (outputs : List Output)
      → BindingTargets (length c.modes) b
      → Good start c (m, outputs)
      → Ensures (RoutesWell m) (route_binding m b hold buttons previous reserved outputs)
  unfolding route_binding
  route_binding-Good m b hold buttons previous reserved outputs t good =
      elim (Bool-cases (starts m b buttons previous reserved)) [
        | inl e ↦ rw (e, route_binding) (begin_route-Good m b hold outputs t good)
        | inr e ↦ rw (e, route_binding) (good, λ _. refl)
      ]

  pub route_bindings-Good :
      (chord : Bool) (skipped : Buttons) (hold : Option Button)
      (buttons previous unavailable : Buttons) (bindings : List Binding) (m : Mapper)
      (outputs : List Output)
      → All (BindingTargets (length c.modes)) bindings
      → Good start c (m, outputs)
      → Ensures
          (RoutesWell m)
          (route_bindings chord skipped hold buttons previous unavailable bindings m outputs)
  unfolding route_bindings
  route_bindings-Good chord skipped hold buttons previous unavailable [] m outputs t good =
      (good, λ _. refl)
  route_bindings-Good chord skipped hold buttons previous unavailable (b ∷ bs) m outputs t good =
      elim (Bool-cases (xor (is_chord b) chord || contains skipped b.trigger)) [
        | inl e ↦
            rw (e, route_bindings)
              (route_bindings-Good chord skipped hold buttons previous unavailable bs m outputs t.1
                good)
        | inr e ↦
            rw (e, route_bindings)
              (RoutesWell-next m (route_binding m b hold buttons previous unavailable outputs) _
                (route_binding-Good m b hold buttons previous unavailable outputs t.0 good)
                (λ m' outputs' g.
                  route_bindings-Good chord skipped hold buttons previous unavailable bs m' outputs'
                    t.1 g))
      ]

  pub route_layers-Good :
      (chord : Bool) (reserved buttons previous unavailable : Buttons) (layers : List Layer)
      (m : Mapper) (outputs : List Output)
      → All (LayerTargets (length c.modes)) layers
      → Good start c (m, outputs)
      → Ensures
          (RoutesWell m)
          (route_layers chord reserved buttons previous unavailable layers m outputs)
  unfolding route_layers
  route_layers-Good chord reserved buttons previous unavailable [] m outputs t good =
      (good, λ _. refl)
  route_layers-Good chord reserved buttons previous unavailable (layer ∷ layers) m outputs t good =
      elim (Bool-cases (layer_active buttons reserved layer)) [
        | inr e ↦
            rw (e, route_layers)
              (route_layers-Good chord reserved buttons previous unavailable layers m outputs t.1
                good)
        | inl e ↦
            rw (e, route_layers)
              (RoutesWell-next m _ _
                (route_bindings-Good chord no_buttons (some layer.hold) buttons previous unavailable
                  layer.bindings m outputs t.0 good)
                (λ m' outputs' g.
                  route_layers-Good chord reserved buttons previous unavailable layers m' outputs'
                    t.1 g))
      ]
