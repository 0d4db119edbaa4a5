-- ===== src/Mapper/Globals.antt =====
-- Bindings that hold in every mode: daemon/src/mapper.rs, the first loop of `process`.
use steam_controller_daemon.Platform.{Platform, IndexMap}
use steam_controller_daemon.Protocol.Buttons.{
  Button, Buttons, button_eq, all, contains, contains_all, insert, remove,
}
use steam_controller_daemon.Protocol.State.{format_eq}
use steam_controller_daemon.Config.{
  ConfigMaps, GlobalBinding, GlobalAction, action, keyboard_toggle,
}
use steam_controller_daemon.Mapper.Types.{
  axis_eq, Output, HeldOutput, held_eq, from_action, GlobalState, Mapper,
}
use steam_controller_daemon.Mapper.Switch.{apply_action}
use steam_controller_daemon.Prelude.Panic.{◌>>=◌}
use steam_controller_daemon.Prelude.{
  ℕ, suc, Bool, true, false, not, ◌&&◌, ◌||◌, Option, none, some, List, [], ◌∷◌, ◌++◌, get_elem?,
  set, if◌then◌else◌, ◌==◌,
}

-- How the loop goes on: the mapper, the outputs and the reserved and captured buttons, or a return
-- from `process`.
module _ ⦃p : Platform⦄ ⦃maps : ConfigMaps⦄ ⦃held_map : IndexMap HeldOutput ℕ⦄ where
  pub data Round : Type 0 where
    returns : Mapper → List Output → Round
    continues : (m : Mapper) (outputs : List Output) (reserved captured : Buttons) → Round

module _ ⦃p : Platform⦄ where
  -- The binding's inputs without its trigger.
  unfoldable pub prerequisites_of : GlobalBinding → Buttons
  prerequisites_of b = remove b.inputs b.trigger

  unfoldable pub all_active : GlobalBinding → Buttons → Bool
  unfolding prerequisites_of
  all_active b buttons = contains buttons b.trigger && contains_all buttons (prerequisites_of b)

  -- The trigger goes down while the other inputs have been down since the last report.
  unfoldable pub global_pressed : GlobalBinding → Buttons → Buttons → Bool
  unfolding all_active
  global_pressed b buttons previous =
      all_active b buttons
      && (not (contains previous b.trigger) && contains_all previous (prerequisites_of b))

  unfoldable pub next_global : GlobalBinding → GlobalState → Buttons → Buttons → GlobalState
  unfolding global_pressed
  next_global b runtime buttons previous =
      let pressed = global_pressed b buttons previous in
      record {
        active = if runtime.active then all_active b buttons else pressed;
        captured =
            if pressed
            then true
            else (if runtime.captured && not (contains buttons b.trigger)
                then false
                else runtime.captured);
      }

  -- The loop over `Button::ALL` that reserves and captures the binding's inputs.
  unfoldable pub mark_input :
      GlobalBinding → Bool → Buttons → Button → Buttons × Buttons → Buttons × Buttons
  unfolding all_active
  mark_input b captured_now buttons button (reserved, captured) =
      if not (contains b.inputs button)
      then (reserved, captured)
      else (if captured_now
          then (insert reserved button, insert captured button)
          else (if (contains (prerequisites_of b) button && contains buttons button)
                || (button == b.trigger && all_active b buttons)
              then (insert reserved button, captured)
              else (reserved, captured)))

  unfoldable pub mark_inputs :
      GlobalBinding → Bool → Buttons → List Button → Buttons × Buttons → Buttons × Buttons
  mark_inputs b captured_now buttons [] marks = marks
  mark_inputs b captured_now buttons (button ∷ rest) marks =
      mark_inputs b captured_now buttons rest (mark_input b captured_now buttons button marks)

  -- `matches!(action, GlobalAction::Action(action) if HeldOutput::from_action(action).is_some())`.
  unfoldable pub holds_output : GlobalAction → Bool
  holds_output keyboard_toggle = false
  holds_output (action act) = elim (from_action act) [ none ↦ false | some _ ↦ true ]

module _ ⦃p : Platform⦄ ⦃maps : ConfigMaps⦄ ⦃held_map : IndexMap HeldOutput ℕ⦄ where
  unfoldable pub apply_global :
      Mapper → GlobalAction → Bool → List Output → Buttons × Buttons → Option Round
  apply_global m (action act) active outputs (reserved, captured) = do
    (m', outputs', interrupted, _) ← apply_action m act active outputs
    if interrupted
        then some (returns m' outputs')
        else some (continues m' outputs' reserved captured)
  apply_global m keyboard_toggle active outputs marks =
      some (returns m (outputs ++ Output.keyboard_toggle ∷ []))

  -- One binding, with the state at its index.
  unfoldable pub global_round :
      Mapper
      → ℕ
      → GlobalBinding
      → GlobalState
      → Buttons
      → Buttons
      → List Output
      → Buttons × Buttons
      → Option Round
  global_round m index b runtime buttons previous outputs marks =
      let next = next_global b runtime buttons previous in
      let stored = record m { global = set m.global index next } in
      let marked = mark_inputs b next.captured buttons all marks in
      let release = runtime.active && (not next.active && holds_output b.bound) in
      if global_pressed b buttons previous || release
      then apply_global stored b.bound next.active outputs marked
      else some (continues stored outputs marked.0 marked.1)

  -- `for index in 0..self.config.global_bindings.len()`: `process` does not change the configuration,
  -- so that the bindings from `index` on are a list.
  unfoldable pub global_loop : ℕ → List GlobalBinding → Buttons → Buttons → Round → Option Round
  global_loop index bindings buttons previous (returns m outputs) = some (returns m outputs)
  global_loop index [] buttons previous (continues m outputs reserved captured) =
      some (continues m outputs reserved captured)
  global_loop index (b ∷ bs) buttons previous (continues m outputs reserved captured) = do
    runtime ← get_elem? m.global index
    round ← global_round m index b runtime buttons previous outputs (reserved, captured)
    global_loop (suc index) bs buttons previous round
