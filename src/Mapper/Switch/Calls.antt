-- ===== src/Mapper/Switch/Calls.antt =====
-- The daemon's other calls on the mapper under its invariant, and what is down after them.
use Prim.Native.String.{String}
use steam_controller_daemon.Platform
use steam_controller_daemon.Platform.{Platform, IndexMap}
use steam_controller_daemon.Config.{
  ConfigMaps, Config, ModeId, mode_id, mode_name, next_mode, string_eq, mode_of,
}
use steam_controller_daemon.Protocol.Buttons.{button_eq}
use steam_controller_daemon.Mapper.Types.{
  GamepadAxis, gamepad_axes_all, Output, HeldOutput, held_eq, idle_global, Mapper,
}
use steam_controller_daemon.Mapper.Held.{set_gamepad_axis, reset_axes, release_outputs}
use steam_controller_daemon.Mapper.Held.Observer.{Synced, is_some, down}
use steam_controller_daemon.Mapper.Held.Sync.{release_outputs-Synced}
use steam_controller_daemon.Mapper.Invariant.{
  IsConfig, Good, mode_of-lt, mode_name-lt, next_mode-lt, axes_count-mode_of,
}
use steam_controller_daemon.Mapper.Switch.{
  mode, new, reset_runtime, switch_mode, set_mode, next_mode_of, reload, release_all, suspend,
}
use steam_controller_daemon.Mapper.Switch.Good.{
  Keeps-Fits, release_outputs-Keeps, enter_mode-Good_of, switch_mode-Good, length-reset,
}
use steam_controller_daemon.Mapper.Switch.Active.{switch_mode-active_mode}
use steam_controller_daemon.Prelude.Int.{pos}
use steam_controller_daemon.Prelude.Panic.{Ensures, Ensures-bind, Ensures-both, unwrap_or}
use steam_controller_daemon.Prelude.{
  ℕ, ◌<◌, ◌≡◌, refl, sym, ap, ◌∙◌, Bool, false, Option, none, some, List, [], ◌∷◌, length,
  Option-cases, ◌⊎◌, inl, inr, arith, length-replicate,
}

module _ ⦃p : Platform⦄ ⦃maps : ConfigMaps⦄ ⦃held_map : IndexMap HeldOutput ℕ⦄ where
  open p use {from_int, F32}

  set_gamepad_axis-held :
      (m : Mapper) (axis : GamepadAxis) (value : F32) (outputs : List Output)
      → (set_gamepad_axis m axis value outputs).0.held ≡ m.held
  unfolding set_gamepad_axis
  set_gamepad_axis-held m axis value outputs = ground arith

  reset_axes-held :
      (axes : List GamepadAxis) (m : Mapper) (outputs : List Output)
      → (reset_axes axes m outputs).0.held ≡ m.held
  unfolding reset_axes
  reset_axes-held [] m outputs = refl
  reset_axes-held (axis ∷ axes) m outputs =
      let (m', outputs') = set_gamepad_axis m axis (from_int (pos 0)) outputs in
      reset_axes-held axes m' outputs' ∙ set_gamepad_axis-held m axis (from_int (pos 0)) outputs

  release_outputs-held :
      (m : Mapper) (outputs : List Output) → (release_outputs m outputs).0.held ≡ held_map.new
  unfolding release_outputs
  release_outputs-held m outputs = reset_axes-held gamepad_axes_all _ _

  reload_target-lt :
      (c : Config) (name : String)
      → IsConfig c
      → unwrap_or (mode_id c name) c.default_mode < length c.modes
  reload_target-lt c name valid = elim (Option-cases (mode_id c name)) [
    | inl e ↦ rw e valid.default_lt
    | inr (target, e) ↦ rw e (valid.mode_id_lt name target e)
  ]

  module _ (start : HeldOutput → Bool) where
    -- Nothing is down for the receiver of the outputs.
    abbrev pub NothingDown : List Output → Type 0
    NothingDown outputs = (h : HeldOutput) → down h outputs (start h) ≡ false

    release_outputs-NothingDown :
        (m : Mapper) (outputs : List Output)
        → Synced start m.held outputs
        → NothingDown (release_outputs m outputs).1
    release_outputs-NothingDown m outputs sync h =
        release_outputs-Synced start m outputs sync h
        ∙ ap (λ t. is_some (held_map.get t h)) (release_outputs-held m outputs)
        ∙ ap is_some (Platform.get-new held_map h)

    module _ (c : Config) (valid : IsConfig c) where
      release_outputs-Good :
          (m : Mapper) (outputs : List Output)
          → Good start c (m, outputs)
          → Good start c (release_outputs m outputs)
      release_outputs-Good m outputs good = record {
        fits = Keeps-Fits c m _ (release_outputs-Keeps m outputs) good.fits;
        synced = release_outputs-Synced start m outputs good.synced;
      }

      -- For a good mapper of a valid configuration, `suspend` returns a good mapper, and after its
      -- outputs nothing is down for the receiver.
      pub suspend-Good :
          (m : Mapper) (outputs : List Output)
          → Good start c (m, outputs)
          → Good start c (suspend m outputs) × NothingDown (suspend m outputs).1
      unfolding suspend
      suspend-Good m outputs good =
          (release_outputs-Good m outputs good, release_outputs-NothingDown m outputs good.synced)

      -- The two outcomes of `set_mode`.
      abbrev pub SetMode : String → Option (Mapper × List Output) → Type 0
      SetMode name r =
          ((mode_id c name ≡ none) × (r ≡ none))
          ⊎ ((target : ModeId) × (after : Mapper × List Output) × (mode_id c name ≡ some target)
              × (r ≡ some after)
              × (after.0.active_mode ≡ target)
              × Good start c after)

      -- `switch_mode` ends in the target mode.
      switch_mode-active :
          (m : Mapper) (target : ModeId) (outputs : List Output)
          → target < length c.modes
          → Good start c (m, outputs)
          → Ensures
              (λ r. (r.0.active_mode ≡ target) × Good start c r)
              (switch_mode m target outputs)
      switch_mode-active m target outputs lt good =
          Ensures-both (Good start c) (λ (r : Mapper × List Output). r.0.active_mode ≡ target) _
            (switch_mode-Good start c valid m target outputs lt good)
            (switch_mode-active_mode m target outputs)

      -- For a good mapper of a valid configuration, `set_mode` does not panic. It returns an error if
      -- no mode has the name; if a mode has it, it returns a good mapper that is in this mode, with
      -- its outputs.
      pub set_mode-Good :
          (m : Mapper) (name : String) (outputs : List Output)
          → Good start c (m, outputs)
          → Ensures
              (λ r.
                ((mode_id c name ≡ none) × (r ≡ none))
                ⊎ ((target : ModeId) × (after : Mapper × List Output) × (mode_id c name
                      ≡ some target)
                    × (r ≡ some after)
                    × (after.0.active_mode ≡ target)
                    × Good start c after))
              (set_mode m name outputs)
      unfolding set_mode
      set_mode-Good m name outputs good = elim (Option-cases (mode_id m.config name)) [
        | inl e ↦
            rw (e, set_mode) (inl (ap (λ d. mode_id d name) (sym good.fits.config_eq) ∙ e, refl))
        | inr (target, e) ↦
            let known : mode_id c name ≡ some target =
              ap (λ d. mode_id d name) (sym good.fits.config_eq) ∙ e in
            rw (e, set_mode)
              (Ensures-bind (λ r. (r.0.active_mode ≡ target) × Good start c r) (SetMode name)
                (switch_mode m target outputs) _
                (switch_mode-active m target outputs (valid.mode_id_lt name target known) good)
                (λ after (active, g). inr (target, after, known, refl, active, g)))
      ]

      pub next_mode_of-Good :
          (m : Mapper) (outputs : List Output)
          → Good start c (m, outputs)
          → Ensures (Good start c) (next_mode_of m outputs)
      unfolding next_mode_of
      next_mode_of-Good m outputs good =
          let (next, e, lt) = next_mode-lt c m.active_mode good.fits.active_lt in
          let e' : next_mode m.config m.active_mode ≡ some next =
            ap (λ d. next_mode d m.active_mode) good.fits.config_eq ∙ e in
          rw e' (switch_mode-Good start c valid m next outputs lt good)

      reset_runtime-Good :
          (m : Mapper) (outputs : List Output)
          → Good start c (m, outputs)
          → Ensures (λ fresh. Good start c (fresh, outputs)) (reset_runtime m)
      unfolding reset_runtime mode
      reset_runtime-Good m outputs good =
          let (current, e) = mode_of-lt c m.active_mode good.fits.active_lt in
          let e' : mode_of m.config m.active_mode ≡ some current =
            ap (λ d. mode_of d m.active_mode) good.fits.config_eq ∙ e in
          rw (e', reset_runtime)
            (record {
              fits = record {
                config_eq = good.fits.config_eq;
                active_lt = good.fits.active_lt;
                global_len =
                    length-reset m.global (length m.config.global_bindings) idle_global
                    ∙ ap (λ (d : Config). length d.global_bindings) good.fits.config_eq;
                axes_len =
                    length-reset m.axis_active (length current.axes) false
                    ∙ axes_count-mode_of c m.active_mode e;
              };
              synced = good.synced;
            })

      -- After a disconnection nothing stays down.
      pub release_all-Good :
          (m : Mapper) (outputs : List Output)
          → Good start c (m, outputs)
          → Ensures (λ r. Good start c r × NothingDown r.1) (release_all m outputs)
      unfolding release_all
      release_all-Good m outputs good =
          let (released, outputs') = release_outputs m outputs in
          Ensures-bind (λ fresh. Good start c (fresh, outputs'))
            (λ r. Good start c r × NothingDown r.1) (reset_runtime released) _
            (reset_runtime-Good released outputs' (release_outputs-Good m outputs good))
            (λ fresh g. (
              record {
                fits = record {
                  config_eq = g.fits.config_eq;
                  active_lt = g.fits.active_lt;
                  global_len = g.fits.global_len;
                  axes_len = g.fits.axes_len;
                };
                synced = g.synced;
              },
              release_outputs-NothingDown m outputs good.synced,
            ))

      -- A reload enters the new configuration, in the mode of the same name if it has one.
      pub reload-Good :
          (next : Config) (m : Mapper) (outputs : List Output)
          → IsConfig next
          → Good start c (m, outputs)
          → Ensures (Good start next) (reload m next outputs)
      unfolding reload
      reload-Good next m outputs valid' good =
          let (name, e) = mode_name-lt c m.active_mode valid good.fits.active_lt in
          let e' : mode_name m.config m.active_mode ≡ some name =
            ap (λ d. mode_name d m.active_mode) good.fits.config_eq ∙ e in
          rw (e', reload)
            (enter_mode-Good_of start next _ _ valid' refl (reload_target-lt next name valid')
              (release_outputs-Synced start m outputs good.synced))

module _ ⦃p : Platform⦄ ⦃maps : ConfigMaps⦄ ⦃held_map : IndexMap HeldOutput ℕ⦄ where
  -- A new mapper holds nothing, and no output has been sent.
  pub new-Good : (c : Config) → IsConfig c → Ensures (λ m. Good (λ h. false) c (m, [])) (new c)
  unfolding new down
  new-Good c valid =
      let (first, e) = mode_of-lt c c.default_mode valid.default_lt in
      rw (e, new)
        (record {
          fits = record {
            config_eq = refl;
            active_lt = valid.default_lt;
            global_len = length-replicate (length c.global_bindings) idle_global;
            axes_len =
                length-replicate (length first.axes) false ∙ axes_count-mode_of c c.default_mode e;
          };
          synced = λ h. ap is_some (sym (Platform.get-new held_map h));
        })
