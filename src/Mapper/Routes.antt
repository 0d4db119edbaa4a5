-- ===== src/Mapper/Routes.antt =====
-- Bindings of a mode and of its layers: daemon/src/mapper.rs, the routes of `process` and
-- `route_binding`.
use steam_controller_daemon.Platform.{Platform, IndexMap}
use steam_controller_daemon.Protocol.Buttons.{
  Button, Buttons, button_eq, all, no_buttons, contains, contains_all, insert, remove, is_empty,
}
use steam_controller_daemon.Protocol.State.{format_eq}
use steam_controller_daemon.Config.{ConfigMaps, Layer, Binding}
use steam_controller_daemon.Mapper.Types.{axis_eq, Output, HeldOutput, held_eq, ActiveRoute, Mapper}
use steam_controller_daemon.Mapper.Held.{set_held}
use steam_controller_daemon.Mapper.Switch.{apply_action}
use steam_controller_daemon.Prelude.Panic.{◌>>=◌}
use steam_controller_daemon.Prelude.{
  xor, ℕ, Bool, true, false, not, ◌&&◌, ◌||◌, Option, none, some, List, [], ◌∷◌, ◌++◌, any,
  if◌then◌else◌, ◌==◌,
}

module _ ⦃p : Platform⦄ where
  unfoldable pub prerequisites : Binding → Buttons
  prerequisites b = remove b.inputs b.trigger

  -- A chord has inputs besides its trigger.
  unfoldable pub is_chord : Binding → Bool
  unfolding prerequisites
  is_chord b = not (is_empty (prerequisites b))

  unfoldable pub button_pressed : Button → Buttons → Buttons → Bool
  button_pressed button current previous = contains current button && not (contains previous button)

  -- A route ends when an input goes up, when its layer is left or when a global binding captures
  -- one of its inputs.
  unfoldable pub route_ends : Buttons → Buttons → Buttons → ActiveRoute → Bool
  route_ends buttons reserved captured route =
      not (contains_all buttons route.inputs)
      || ((elim route.hold [
        | none ↦ false
        | some hold ↦ not (contains buttons hold) || contains reserved hold
      ])
          || any (λ button. contains route.inputs button && contains captured button) all)

  unfoldable pub reserve_pressed : Buttons → Buttons → List Button → Buttons → Buttons
  reserve_pressed needed buttons [] reserved = reserved
  reserve_pressed needed buttons (button ∷ rest) reserved = reserve_pressed needed buttons rest (
      if contains needed button && contains buttons button
      then insert reserved button
      else reserved)

  unfoldable pub reserve_chord_inputs : Binding → Buttons → Buttons → Buttons
  unfolding prerequisites
  reserve_chord_inputs b buttons reserved =
      let needed = prerequisites b in
      let marked = reserve_pressed needed buttons all reserved in
      if is_empty needed
      then reserved
      else (if contains_all buttons needed && contains buttons b.trigger
          then insert marked b.trigger
          else marked)

  -- The layer's hold button is down and no global binding reserves it.
  unfoldable pub layer_active : Buttons → Buttons → Layer → Bool
  layer_active buttons reserved layer =
      contains buttons layer.hold && not (contains reserved layer.hold)

  unfoldable pub insert_triggers : List Binding → Buttons → Buttons
  insert_triggers [] s = s
  insert_triggers (b ∷ bs) s = insert_triggers bs (insert s b.trigger)

  -- The triggers that an active layer takes from the mode's own bindings.
  unfoldable pub overridden_by : Buttons → Buttons → List Layer → Buttons → Buttons
  unfolding layer_active
  overridden_by buttons reserved [] s = s
  overridden_by buttons reserved (layer ∷ rest) s =
      overridden_by buttons reserved rest
        (if layer_active buttons reserved layer then insert_triggers layer.bindings s else s)

  unfoldable pub reserve_mode_chords : Buttons → Buttons → List Binding → Buttons → Buttons
  reserve_mode_chords buttons overridden [] s = s
  reserve_mode_chords buttons overridden (b ∷ bs) s =
      reserve_mode_chords buttons overridden bs
        (if not (contains overridden b.trigger) then reserve_chord_inputs b buttons s else s)

  unfoldable pub reserve_bindings : Buttons → List Binding → Buttons → Buttons
  reserve_bindings buttons [] s = s
  reserve_bindings buttons (b ∷ bs) s =
      reserve_bindings buttons bs (reserve_chord_inputs b buttons s)

  unfoldable pub reserve_layer_chords : Buttons → Buttons → List Layer → Buttons → Buttons
  unfolding layer_active
  reserve_layer_chords buttons reserved [] s = s
  reserve_layer_chords buttons reserved (layer ∷ rest) s =
      reserve_layer_chords buttons reserved rest (
        if not (layer_active buttons reserved layer)
        then s
        else reserve_bindings buttons layer.bindings s)

module _ ⦃p : Platform⦄ ⦃held_map : IndexMap HeldOutput ℕ⦄ where
  -- The fields that the loop over the routes changes.
  pub record Releasing : Type 0 where
    pub kept : List ActiveRoute
    pub quarantined : Buttons
    pub held : held_map.Map
    pub outputs : List Output

  unfoldable pub end_route : Buttons → ActiveRoute → Releasing → Releasing
  end_route buttons route r =
      let quarantined =
        if contains buttons route.trigger
        then insert r.quarantined route.trigger
        else r.quarantined in
      elim route.held [
        | none ↦ record r { quarantined = quarantined }
        | some h ↦
            let (held, outputs') = set_held r.held h false r.outputs in
            record r { quarantined = quarantined; held = held; outputs = outputs' }
      ]

  -- From the last index down to 0, so that the rest of the list comes first.
  unfoldable pub release_routes :
      Buttons → Buttons → Buttons → List ActiveRoute → Releasing → Releasing
  unfolding route_ends
  release_routes buttons reserved captured [] r = r
  release_routes buttons reserved captured (route ∷ routes) r =
      let later = release_routes buttons reserved captured routes r in
      if route_ends buttons reserved captured route
      then end_route buttons route later
      else record later { kept = route ∷ later.kept }

module _ ⦃p : Platform⦄ ⦃maps : ConfigMaps⦄ ⦃held_map : IndexMap HeldOutput ℕ⦄ where
  -- The mapper, the outputs, and whether `process` returns.
  abbrev pub Routed : Type 0
  Routed = Mapper × List Output × Bool

  -- The guards of `route_binding`.
  unfoldable pub starts : Mapper → Binding → Buttons → Buttons → Buttons → Bool
  unfolding button_pressed prerequisites
  starts m b buttons previous reserved = not (
      not (button_pressed b.trigger buttons previous)
      || (not (contains_all buttons b.inputs)
          || (not (contains_all previous (prerequisites b))
              || (any (λ (route : ActiveRoute). route.trigger == b.trigger) m.routes
                  || (contains m.quarantined b.trigger
                      || any (λ button. contains b.inputs button && contains reserved button)
                          all)))))

  unfoldable pub begin_route : Mapper → Binding → Option Button → List Output → Option Routed
  begin_route m b hold outputs = do
    (m', outputs', interrupted, held) ← apply_action m b.bound true outputs
    let route : ActiveRoute = record {
      inputs = b.inputs;
      trigger = b.trigger;
      hold = hold;
      held = held;
    }
    let routes = if interrupted then m'.routes else m'.routes ++ route ∷ []
    some (record m' { routes = routes }, outputs', interrupted)

  unfoldable pub route_binding :
      Mapper → Binding → Option Button → Buttons → Buttons → Buttons → List Output → Option Routed
  route_binding m b hold buttons previous reserved outputs =
      if starts m b buttons previous reserved
      then begin_route m b hold outputs
      else some (m, outputs, false)

  -- The loop over bindings of one kind, chords or not, whose triggers are not in `skipped`.
  unfoldable pub route_bindings :
      Bool
      → Buttons
      → Option Button
      → Buttons
      → Buttons
      → Buttons
      → List Binding
      → Mapper
      → List Output
      → Option Routed
  route_bindings chord skipped hold buttons previous unavailable [] m outputs =
      some (m, outputs, false)
  route_bindings chord skipped hold buttons previous unavailable (b ∷ bs) m outputs =
      let rest = λ (m' : Mapper) (outputs' : List Output).
        route_bindings chord skipped hold buttons previous unavailable bs m' outputs' in
      if xor (is_chord b) chord || contains skipped b.trigger then rest m outputs else (do
        (m', outputs', interrupted) ← route_binding m b hold buttons previous unavailable outputs
        if interrupted then some (m', outputs', true) else rest m' outputs')

  unfoldable pub route_layers :
      Bool
      → Buttons
      → Buttons
      → Buttons
      → Buttons
      → List Layer
      → Mapper
      → List Output
      → Option Routed
  route_layers chord reserved buttons previous unavailable [] m outputs = some (m, outputs, false)
  route_layers chord reserved buttons previous unavailable (layer ∷ layers) m outputs =
      let rest = λ (m' : Mapper) (outputs' : List Output).
        route_layers chord reserved buttons previous unavailable layers m' outputs' in
      if not (layer_active buttons reserved layer) then rest m outputs else (do
        (m', outputs', interrupted) ←
            route_bindings chord no_buttons (some layer.hold) buttons previous unavailable
              layer.bindings m outputs
        if interrupted then some (m', outputs', true) else rest m' outputs')
