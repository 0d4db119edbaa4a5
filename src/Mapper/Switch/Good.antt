-- ===== src/Mapper/Switch/Good.antt =====
-- Changing the mode, reloading and releasing under the invariant of the mapper.
use steam_controller_daemon.Platform.{Platform, IndexMap}
use steam_controller_daemon.Config.{
  ConfigMaps, Config, ModeId, Action, key, mouse, gamepad, mode_set, mode_next, string_eq,
}
use steam_controller_daemon.Protocol.Buttons.{button_eq}
use steam_controller_daemon.Mapper.Types.{
  GamepadAxis, gamepad_axes_all, Output, HeldOutput, held_eq, from_action, idle_global, Mapper,
}
use steam_controller_daemon.Mapper.Held.{set_gamepad_axis, reset_axes, release_outputs}
use steam_controller_daemon.Mapper.Held.Observer.{Synced, observe}
use steam_controller_daemon.Mapper.Held.Sync.{quiet-Synced, release_outputs-Synced, set_held-Synced}
use steam_controller_daemon.Mapper.Invariant.{
  IsConfig, Fits, Good, Targets, axes_count-mode_of, mode_of-lt, mode_name-lt, next_mode-lt,
  axes_count,
}
use steam_controller_daemon.Mapper.Switch.{
  resize, mode, reset_runtime, mode_changed_output, enter_mode, switch_mode, target_mode,
  interrupting, apply_mode, apply_action, Applied,
}
use steam_controller_daemon.Prelude.Int.{pos}
use steam_controller_daemon.Prelude.Panic.{Ensures, Ensures-bind}
use steam_controller_daemon.Prelude.{
  ℕ, zero, suc, ◌<◌, ◌≡◌, refl, sym, ap, subst, ◌∙◌, Bool, false, none, List, [], ◌∷◌, fill, length,
  nat_beq, Bool-cases, Option-cases, inl, inr, arith, length-fill,
}

length-resize {ℓ} : {A : Type ℓ} (xs : List A) (n : ℕ) (d : A) → length (resize xs n d) ≡ n
unfolding resize
length-resize xs zero d = refl
length-resize [] (suc n) d = ap suc (length-resize [] n d)
length-resize (x ∷ xs) (suc n) d = ap suc (length-resize xs n d)

pub length-reset {ℓ} :
    {A : Type ℓ} (xs : List A) (n : ℕ) (d : A) → length (fill (resize xs n d) d) ≡ n
length-reset xs n d = length-fill (resize xs n d) d ∙ length-resize xs n d

module _ ⦃p : Platform⦄ ⦃maps : ConfigMaps⦄ ⦃held_map : IndexMap HeldOutput ℕ⦄ where
  open p use {from_int, F32}

  -- Only the axes and the table of held outputs may differ.
  pub record Keeps (m m' : Mapper) : Type 0 where
    pub config_same : m'.config ≡ m.config
    pub mode_same : m'.active_mode ≡ m.active_mode
    pub global_same : m'.global ≡ m.global
    pub axis_same : length m'.axis_active ≡ length m.axis_active

  pub set_gamepad_axis-Keeps :
      (m : Mapper) (axis : GamepadAxis) (value : F32) (outputs : List Output)
      → Keeps m (set_gamepad_axis m axis value outputs).0
  unfolding set_gamepad_axis
  set_gamepad_axis-Keeps m axis value outputs = ground arith

  Keeps-trans : (m n o : Mapper) → Keeps m n → Keeps n o → Keeps m o
  Keeps-trans m n o h k = record {
    config_same = k.config_same ∙ h.config_same;
    mode_same = k.mode_same ∙ h.mode_same;
    global_same = k.global_same ∙ h.global_same;
    axis_same = k.axis_same ∙ h.axis_same;
  }

  reset_axes-Keeps :
      (axes : List GamepadAxis) (m : Mapper) (outputs : List Output)
      → Keeps m (reset_axes axes m outputs).0
  unfolding reset_axes
  reset_axes-Keeps [] m outputs = record {
    config_same = refl;
    mode_same = refl;
    global_same = refl;
    axis_same = refl;
  }
  reset_axes-Keeps (axis ∷ axes) m outputs =
      let (m', outputs') = set_gamepad_axis m axis (from_int (pos 0)) outputs in
      Keeps-trans m m' _ (set_gamepad_axis-Keeps m axis (from_int (pos 0)) outputs)
        (reset_axes-Keeps axes m' outputs')

  pub release_outputs-Keeps :
      (m : Mapper) (outputs : List Output) → Keeps m (release_outputs m outputs).0
  unfolding release_outputs
  release_outputs-Keeps m outputs =
      let k = reset_axes-Keeps gamepad_axes_all _ _ in
      record {
        config_same = k.config_same;
        mode_same = k.mode_same;
        global_same = k.global_same;
        axis_same = k.axis_same ∙ length-fill m.axis_active false;
      }

  pub Keeps-Fits : (c : Config) (m m' : Mapper) → Keeps m m' → Fits c m → Fits c m'
  Keeps-Fits c m m' k f = record {
    config_eq = k.config_same ∙ f.config_eq;
    active_lt = rw k.mode_same f.active_lt;
    global_len = ap length k.global_same ∙ f.global_len;
    axes_len = k.axis_same ∙ f.axes_len ∙ ap (axes_count c) (sym k.mode_same);
  }

  module _ (start : HeldOutput → Bool) where
    enter_mode-Good :
        (m : Mapper) (outputs : List Output)
        → IsConfig m.config
        → m.active_mode < length m.config.modes
        → Synced start m.held outputs
        → Ensures (Good start m.config) (enter_mode m outputs)
    unfolding enter_mode reset_runtime mode mode_changed_output observe
    enter_mode-Good m outputs valid h sync =
        let (current, e) = mode_of-lt m.config m.active_mode h in
        let (name, e') = mode_name-lt m.config m.active_mode valid h in
        rw (e, e', enter_mode)
          (record {
            fits = record {
              config_eq = refl;
              active_lt = h;
              global_len = length-reset m.global (length m.config.global_bindings) idle_global;
              axes_len =
                  length-reset m.axis_active (length current.axes) false
                  ∙ axes_count-mode_of m.config m.active_mode e;
            };
            synced = quiet-Synced start m.held outputs _ (λ g b. refl) sync;
          })

    pub enter_mode-Good_of :
        (c : Config) (m : Mapper) (outputs : List Output)
        → IsConfig c
        → m.config ≡ c
        → m.active_mode < length c.modes
        → Synced start m.held outputs
        → Ensures (Good start c) (enter_mode m outputs)
    enter_mode-Good_of c m outputs valid e h sync =
        subst (λ d. Ensures (Good start d) (enter_mode m outputs)) e
          (enter_mode-Good m outputs (subst IsConfig (sym e) valid)
            (subst (λ (d : Config). m.active_mode < length d.modes) (sym e) h) sync)

    module _ (c : Config) (valid : IsConfig c) where
      pub switch_mode-Good :
          (m : Mapper) (target : ModeId) (outputs : List Output)
          → target < length c.modes
          → Good start c (m, outputs)
          → Ensures (Good start c) (switch_mode m target outputs)
      unfolding switch_mode
      switch_mode-Good m target outputs h good = elim (Bool-cases (nat_beq m.active_mode target)) [
        | inl e ↦ rw (e, switch_mode) good
        | inr e ↦
            rw (e, switch_mode)
              (enter_mode-Good_of c _ _ valid
                ((release_outputs-Keeps m outputs).config_same ∙ good.fits.config_eq) h
                (release_outputs-Synced start m outputs good.synced))
      ]

      -- What `apply_action` ensures: a good mapper, in the same mode unless it interrupts.
      abbrev pub AppliesWell : Mapper → Applied → Type 0
      AppliesWell m (m', outputs', interrupted, held) =
          Good start c (m', outputs') × (interrupted ≡ false → m'.active_mode ≡ m.active_mode)

      target_mode-lt :
          (m : Mapper) (act : Action)
          → Fits c m
          → Targets (length c.modes) act
          → from_action act ≡ none
          → Ensures (λ target. target < length c.modes) (target_mode m act)
      unfolding target_mode from_action
      target_mode-lt m (key k) fits t e = cc
      target_mode-lt m (mouse b) fits t e = cc
      target_mode-lt m (gamepad b) fits t e = cc
      target_mode-lt m (mode_set target) fits t e = t
      target_mode-lt m mode_next fits t e =
          let (next, q, lt) = next_mode-lt c m.active_mode fits.active_lt in
          rw (fits.config_eq, q) lt

      interrupting-Good :
          (m : Mapper) (target : ModeId) (outputs : List Output)
          → target < length c.modes
          → Good start c (m, outputs)
          → Ensures (AppliesWell m) (interrupting m target outputs)
      unfolding interrupting
      interrupting-Good m target outputs h good =
          Ensures-bind (Good start c) (AppliesWell m) (switch_mode m target outputs) _
            (switch_mode-Good m target outputs h good) (λ r g. (g, λ e. cc))

      apply_mode-Good :
          (m : Mapper) (act : Action) (outputs : List Output)
          → Good start c (m, outputs)
          → Targets (length c.modes) act
          → from_action act ≡ none
          → Ensures (AppliesWell m) (apply_mode m act outputs)
      unfolding apply_mode
      apply_mode-Good m act outputs good t e =
          Ensures-bind (λ target. target < length c.modes) (AppliesWell m) (target_mode m act) _
            (target_mode-lt m act good.fits t e)
            (λ target lt. elim (Bool-cases (nat_beq target m.active_mode)) [
              | inl q ↦ rw q (good, λ _. refl)
              | inr q ↦ rw q (interrupting-Good m target outputs lt good)
            ])

      pub apply_action-Good :
          (m : Mapper) (act : Action) (active : Bool) (outputs : List Output)
          → Good start c (m, outputs)
          → Targets (length c.modes) act
          → Ensures (AppliesWell m) (apply_action m act active outputs)
      unfolding apply_action
      apply_action-Good m act active outputs good t = elim (Option-cases (from_action act)) [
        | inr (h, e) ↦
            rw (e, apply_action)
              (
                record {
                  fits = record {
                    config_eq = good.fits.config_eq;
                    active_lt = good.fits.active_lt;
                    global_len = good.fits.global_len;
                    axes_len = good.fits.axes_len;
                  };
                  synced = set_held-Synced start m.held h active outputs good.synced;
                },
                λ _. refl,
              )
        | inl e ↦ elim (Bool-cases active) [
          | inl on ↦ rw (e, on, apply_action) (apply_mode-Good m act outputs good t e)
          | inr off ↦ rw (e, off, apply_action) (good, λ _. refl)
        ]
      ]
