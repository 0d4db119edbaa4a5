-- ===== src/Mapper/Process/Globals.antt =====
-- The global bindings and the keyboard's bindings under the invariant of the mapper.
use steam_controller_daemon.Platform.{Platform, IndexMap}
use steam_controller_daemon.Config.{
  ConfigMaps, Config, GlobalBinding, GlobalAction, action, keyboard_toggle,
}
use steam_controller_daemon.Protocol.Buttons.{Button, Buttons, all, button_eq, contains}
use steam_controller_daemon.Mapper.Types.{
  Output, HeldOutput, held_eq, key_held, GlobalState, Mapper,
}
use steam_controller_daemon.Mapper.Held.Observer.{Synced, observe}
use steam_controller_daemon.Mapper.Held.Sync.{quiet-Synced, set_held-Synced}
use steam_controller_daemon.Mapper.Invariant.{IsConfig, Good, GlobalTargets}
use steam_controller_daemon.Mapper.Switch.{apply_action}
use steam_controller_daemon.Mapper.Switch.Good.{apply_action-Good, AppliesWell}
use steam_controller_daemon.Mapper.Globals.{
  Round, returns, continues, next_global, mark_inputs, global_pressed, holds_output, apply_global,
  global_round, global_loop,
}
use steam_controller_daemon.Mapper.Osk.{osk_step, osk_loop}
use steam_controller_daemon.Prelude.Panic.{Ensures, Ensures-bind}
use steam_controller_daemon.Prelude.{
  ℕ, suc, ◌+◌, ◌≡◌, refl, ◌∙◌, Bool, not, ◌&&◌, ◌||◌, xor, List, [], ◌∷◌, length, get_elem?-lt, set,
  All, length-set, Bool-cases, inl, inr, arith,
}

module _ ⦃p : Platform⦄ ⦃maps : ConfigMaps⦄ ⦃held_map : IndexMap HeldOutput ℕ⦄
    (start : HeldOutput → Bool) (c : Config) where
  open p use {KeyCode}

  abbrev pub RoundGood : Round → Type 0
  RoundGood (returns m outputs) = Good start c (m, outputs)
  RoundGood (continues m outputs reserved captured) = Good start c (m, outputs)

  -- Fields that `Good` does not read may change, and the table of held outputs with its outputs.
  pub Good-of_held :
      (m : Mapper) (outputs : List Output) (m' : Mapper) (outputs' : List Output)
      → Good start c (m, outputs)
      → m'.config ≡ m.config
      → m'.active_mode ≡ m.active_mode
      → length m'.global ≡ length m.global
      → length m'.axis_active ≡ length m.axis_active
      → Synced start m'.held outputs'
      → Good start c (m', outputs')
  Good-of_held m outputs m' outputs' good e f g a sync = record {
    fits = record {
      config_eq = e ∙ good.fits.config_eq;
      active_lt = rw f good.fits.active_lt;
      global_len = g ∙ good.fits.global_len;
      axes_len = rw f (a ∙ good.fits.axes_len);
    };
    synced = sync;
  }

  module _ (valid : IsConfig c) where
    apply_global-Good :
        (m : Mapper) (b : GlobalBinding) (act : GlobalAction) (active : Bool)
        (outputs : List Output) (marks : Buttons × Buttons)
        → b.bound ≡ act
        → GlobalTargets (length c.modes) b
        → Good start c (m, outputs)
        → Ensures RoundGood (apply_global m act active outputs marks)
    unfolding apply_global observe
    apply_global-Good m b (action act) active outputs (reserved, captured) e t good =
        Ensures-bind (AppliesWell start c valid m) RoundGood (apply_action m act active outputs) _
          (apply_action-Good start c valid m act active outputs good (rw (e) at t))
          (λ (m', outputs', interrupted, held) g. elim (Bool-cases interrupted) [
            | inl q ↦ rw q g.0
            | inr q ↦ rw q g.0
          ])
    apply_global-Good m b keyboard_toggle active outputs marks e t good =
        Good-of_held m outputs m _ good refl refl refl refl
          (quiet-Synced start m.held outputs Output.keyboard_toggle (λ h q. refl) good.synced)

    global_round-Good :
        (m : Mapper) (index : ℕ) (b : GlobalBinding) (runtime : GlobalState)
        (buttons previous : Buttons) (outputs : List Output) (marks : Buttons × Buttons)
        → GlobalTargets (length c.modes) b
        → Good start c (m, outputs)
        → Ensures RoundGood (global_round m index b runtime buttons previous outputs marks)
    unfolding global_round
    global_round-Good m index b runtime buttons previous outputs marks t good =
        let next = next_global b runtime buttons previous in
        let stored = record m { global = set m.global index next } in
        let marked = mark_inputs b next.captured buttons all marks in
        let same : Good start c (stored, outputs) =
          Good-of_held m outputs stored outputs good refl refl (length-set m.global index next) refl
            good.synced in
        let release = runtime.active && (not next.active && holds_output b.bound) in
        elim (Bool-cases (global_pressed b buttons previous || release)) [
          | inl e ↦
              rw (e, global_round)
                (apply_global-Good stored b b.bound next.active outputs marked refl t same)
          | inr e ↦ rw (e, global_round) same
        ]

    pub global_loop-Good :
        (index : ℕ) (bindings : List GlobalBinding) (buttons previous : Buttons) (round : Round)
        → index + length bindings ≡ length c.global_bindings
        → All (GlobalTargets (length c.modes)) bindings
        → RoundGood round
        → Ensures RoundGood (global_loop index bindings buttons previous round)
    unfolding global_loop
    global_loop-Good index [] buttons previous (returns m outputs) n t good = good
    global_loop-Good index (b ∷ bs) buttons previous (returns m outputs) n t good = good
    global_loop-Good index [] buttons previous (continues m outputs r k) n t good = good
    global_loop-Good index (b ∷ bs) buttons previous (continues m outputs r k) n t good =
        let fits : length m.global ≡ length c.global_bindings = good.fits.global_len in
        let (runtime, e) = get_elem?-lt m.global index (omega arith) in
        rw (e) (
          Ensures-bind RoundGood RoundGood
            (global_round m index b runtime buttons previous outputs (r, k)) _
            (global_round-Good m index b runtime buttons previous outputs (r, k) t.0 good)
            (λ round g. global_loop-Good (suc index) bs buttons previous round (omega arith) t.1 g))

  osk_step-Good :
      (buttons reserved : Buttons) (b : Button × KeyCode) (m : Mapper) (outputs : List Output)
      → Good start c (m, outputs)
      → Good start c (osk_step buttons reserved b m outputs)
  unfolding osk_step
  osk_step-Good buttons reserved (input, k) m outputs good =
      let was_active = contains m.osk_active input in
      let active = contains buttons input && not (contains reserved input) in
      elim (Bool-cases (xor active was_active)) [
        | inl e ↦
            rw (e, osk_step)
              (Good-of_held m outputs _ _ good refl refl refl refl
                (set_held-Synced start m.held (key_held k) active outputs good.synced))
        | inr e ↦ rw (e, osk_step) good
      ]

  pub osk_loop-Good :
      (buttons reserved : Buttons) (bindings : List (Button × KeyCode)) (m : Mapper)
      (outputs : List Output)
      → Good start c (m, outputs)
      → Good start c (osk_loop buttons reserved bindings m outputs)
  unfolding osk_loop
  osk_loop-Good buttons reserved [] m outputs good = good
  osk_loop-Good buttons reserved (b ∷ bs) m outputs good =
      osk_loop-Good buttons reserved bs _ _ (osk_step-Good buttons reserved b m outputs good)
