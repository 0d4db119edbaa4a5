-- ===== src/Mapper/Switch/Active.antt =====
-- The mode that `switch_mode` of daemon/src/mapper.rs ends in.
use steam_controller_daemon.Platform.{Platform, IndexMap}
use steam_controller_daemon.Config.{ConfigMaps, ModeId, string_eq}
use steam_controller_daemon.Protocol.Buttons.{button_eq}
use steam_controller_daemon.Mapper.Types.{Output, HeldOutput, held_eq, Mapper}
use steam_controller_daemon.Mapper.Held.{release_outputs}
use steam_controller_daemon.Mapper.Switch.{
  mode, reset_runtime, mode_changed_output, enter_mode, switch_mode,
}
use steam_controller_daemon.Prelude.Panic.{Allows, Allows-any, Allows-bind}
use steam_controller_daemon.Prelude.{ℕ, ◌≡◌, refl, List, Bool-cases, nat_beq, inl, inr, arith}

module _ ⦃p : Platform⦄ ⦃maps : ConfigMaps⦄ ⦃held_map : IndexMap HeldOutput ℕ⦄ where
  reset_runtime-active_mode :
      (m : Mapper)
      → Allows (λ (fresh : Mapper). fresh.active_mode ≡ m.active_mode) (reset_runtime m)
  unfolding reset_runtime
  reset_runtime-active_mode m =
      Allows-bind (λ current. Unit {0}) _ (mode m) _ (Allows-any (mode m)) (λ current u. refl)

  -- An entered mode stays the active one.
  enter_mode-active_mode :
      (m : Mapper) (outputs : List Output)
      → Allows
          (λ (r : Mapper × List Output). r.0.active_mode ≡ m.active_mode)
          (enter_mode m outputs)
  unfolding enter_mode
  enter_mode-active_mode m outputs =
      Allows-bind (λ (fresh : Mapper). fresh.active_mode ≡ m.active_mode) _ (reset_runtime m) _
        (reset_runtime-active_mode m)
        (λ fresh same.
          Allows-bind (λ change. Unit {0}) _ (mode_changed_output fresh) _
            (Allows-any (mode_changed_output fresh)) (λ change u. same))

  pub switch_mode-active_mode :
      (m : Mapper) (target : ModeId) (outputs : List Output)
      → Allows
          (λ (r : Mapper × List Output). r.0.active_mode ≡ target)
          (switch_mode m target outputs)
  unfolding switch_mode
  switch_mode-active_mode m target outputs = elim (Bool-cases (nat_beq m.active_mode target)) [
    | inl e ↦ rw (e, switch_mode) (ground arith)
    | inr e ↦
        rw (e, switch_mode)
          (enter_mode-active_mode (record (release_outputs m outputs).0 { active_mode = target })
            (release_outputs m outputs).1)
  ]
