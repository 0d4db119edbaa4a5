-- ===== src/Mapper/Held/Sync.antt =====
-- The outputs that are sent, against the table of what is held.
use mathlib.Core.List.{reverse, reverse-cons, map-append}
use steam_controller_daemon.Platform
use steam_controller_daemon.Platform.{Platform, IndexMap}
use steam_controller_daemon.Platform.Assoc
use steam_controller_daemon.Config.{ConfigMaps}
use steam_controller_daemon.Prelude.Int.{pos}
use steam_controller_daemon.Mapper.Types.{
  Output, HeldOutput, held_eq, output, Mapper, GamepadAxis, gamepad_axis, gamepad_axes_all,
}
use steam_controller_daemon.Mapper.Held.{
  usize_mod, press, unpress, set_held, releases, set_gamepad_axis, reset_axes, release_outputs,
}
use steam_controller_daemon.Mapper.Held.Observer.{
  is_some, observe, down, down-append, down-push, down-quiet, IsQuiet, Synced,
}
use steam_controller_daemon.Prelude.{
  ℕ, ◌+◌, ◌-◌, ◌%◌, ◌≡◌, refl, Bool, true, false, List, [], ◌∷◌, ◌++◌, if◌then◌else◌, Option-cases,
  inl, inr, arith, map, Bool-cases, ◌∙◌,
}

module _ ⦃p : Platform⦄ ⦃held_map : IndexMap HeldOutput ℕ⦄ (start : HeldOutput → Bool) where
  open held_map use {Map, get}

  press-Synced :
      (held : Map) (g : HeldOutput) (outputs : List Output)
      → Synced start held outputs
      → Synced start (press held g outputs).0 (press held g outputs).1
  unfolding press
  press-Synced held g outputs sync h = elim (Option-cases (get held g)) [
    | inl e ↦
        rw (e, press, down-push h g true outputs (start h), Platform.get-insert held_map held g h 1)
          (ground (arith, sync h))
    | inr (n, e) ↦
        rw (e, press, Platform.get-insert held_map held g h)
          (ground (arith, sync h, e, held_eq.beq_iff g h))
  ]

  unpress-Synced :
      (held : Map) (g : HeldOutput) (outputs : List Output)
      → Synced start held outputs
      → Synced start (unpress held g outputs).0 (unpress held g outputs).1
  unfolding unpress
  unpress-Synced held g outputs sync h = elim (Option-cases (get held g)) [
    | inl e ↦ rw (e, unpress) (sync h)
    | inr (n, e) ↦
        rw (e, unpress)
          (ground (
            arith,
            sync h,
            held_eq.beq_iff g h,
            down-push h g false outputs (start h),
            Platform.get-insert held_map held g h ((n + usize_mod - 1) % usize_mod),
            Platform.get-shift_remove held_map held g h,
          ))
  ]

  -- Pressing and releasing one output keeps the receiver in step with the table.
  pub set_held-Synced :
      (held : Map) (g : HeldOutput) (active : Bool) (outputs : List Output)
      → Synced start held outputs
      → Synced start (set_held held g active outputs).0 (set_held held g active outputs).1
  unfolding set_held
  set_held-Synced held g true outputs sync = press-Synced held g outputs sync
  set_held-Synced held g false outputs sync = unpress-Synced held g outputs sync

  abbrev release_of : HeldOutput × ℕ → Output
  release_of e = output e.0 false

  down-releases :
      (h : HeldOutput) (entries : List (HeldOutput × ℕ)) (b : Bool)
      → down h (map release_of (reverse entries)) b
        ≡ (if is_some (Assoc.get entries h) then false else b)
  unfolding Assoc.get down
  down-releases h [] b = refl
  down-releases h ((g, n) ∷ rest) b =
      rw
        (
          reverse-cons (g, n) rest,
          map-append release_of (reverse rest) ((g, n) ∷ []),
          down-push h g false (map release_of (reverse rest)) b,
          down-releases h rest b,
        )
        (ground arith)

  -- Draining the table releases all that is in it.
  drain-Synced :
      (held : Map) (outputs : List Output)
      → Synced start held outputs
      → Synced start held_map.new (outputs ++ releases held)
  unfolding releases
  drain-Synced held outputs sync h =
      rw
        (
          down-append h outputs (releases held) (start h),
          Platform.get-new held_map h,
          down-releases h (held_map.entries held) (down h outputs (start h)),
          ← held_map.get-entries held h,
          sync h,
        )
        (ground arith)

module _ ⦃p : Platform⦄ ⦃maps : ConfigMaps⦄ ⦃held_map : IndexMap HeldOutput ℕ⦄
    (start : HeldOutput → Bool) where
  open p use {F32, from_int}

  -- An output that presses and releases nothing.
  pub quiet-Synced :
      (held : held_map.Map) (outputs : List Output) (o : Output)
      → IsQuiet o
      → Synced start held outputs
      → Synced start held (outputs ++ o ∷ [])
  quiet-Synced held outputs o quiet sync h = down-quiet h outputs o (start h) quiet ∙ sync h

  abbrev pub SyncedAfter : Mapper × List Output → Type 0
  SyncedAfter (m, outputs) = Synced start m.held outputs

  pub set_gamepad_axis-Synced :
      (m : Mapper) (axis : GamepadAxis) (value : F32) (outputs : List Output)
      → Synced start m.held outputs
      → SyncedAfter (set_gamepad_axis m axis value outputs)
  unfolding set_gamepad_axis observe
  set_gamepad_axis-Synced m axis value outputs sync =
      elim (Bool-cases (p.float_eq (m.gamepad_axes axis) value)) [
        | inl e ↦ rw (e, set_gamepad_axis) sync
        | inr e ↦
            rw (e, set_gamepad_axis)
              (quiet-Synced m.held outputs (gamepad_axis axis value) (λ h b. refl) sync)
      ]

  pub reset_axes-Synced :
      (axes : List GamepadAxis) (m : Mapper) (outputs : List Output)
      → Synced start m.held outputs
      → SyncedAfter (reset_axes axes m outputs)
  unfolding reset_axes
  reset_axes-Synced [] m outputs sync = sync
  reset_axes-Synced (axis ∷ axes) m outputs sync =
      let (m', outputs') = set_gamepad_axis m axis (from_int (pos 0)) outputs in
      reset_axes-Synced axes m' outputs'
        (set_gamepad_axis-Synced m axis (from_int (pos 0)) outputs sync)

  pub release_outputs-Synced :
      (m : Mapper) (outputs : List Output)
      → Synced start m.held outputs
      → SyncedAfter (release_outputs m outputs)
  unfolding release_outputs
  release_outputs-Synced m outputs sync =
      reset_axes-Synced gamepad_axes_all _ (outputs ++ releases m.held)
        (drain-Synced start m.held outputs sync)
