-- ===== src/Daemon/Emit.antt =====
-- `emit` on what the mapper returns: the presses and releases among its calls.
pub mod Sent
use steam_controller_daemon.Platform.{Platform, IndexMap}
use steam_controller_daemon.Protocol.Buttons.{button_eq}
use steam_controller_daemon.Config.{ConfigMaps, Config, string_eq, mode_of}
use steam_controller_daemon.Ipc.State.{OskState, set_visible}
use steam_controller_daemon.Mapper.Types.{Output, mode_changed, HeldOutput, held_eq, Mapper}
use steam_controller_daemon.Mapper.Held.Observer.{observe, down}
use steam_controller_daemon.Mapper.Held.Appends.{release_outputs-Appends}
use steam_controller_daemon.Mapper.Switch.{suspend}
use steam_controller_daemon.Mapper.Invariant.{IsConfig, Good, Fits, mode_of-lt}
use steam_controller_daemon.Mapper.Switch.Calls.{NothingDown, suspend-Good}
use steam_controller_daemon.Daemon.{
  Effect, emits, sets_gamepad, plays, is_toggle, retain_others, gamepad, dispatch, dispatch_all,
  Emitted, toggled, emit,
}
use steam_controller_daemon.Daemon.Emit.Sent.{
  sent, sent-append, has_toggle, any-is_toggle, for_devices, for_devices-append,
  for_devices-retain_others, down-for_devices, down-retain_others,
}
use steam_controller_daemon.Prelude.Panic.{Ensures, Ensures-bind}
use steam_controller_daemon.Prelude.{
  ℕ, ◌≡◌, refl, sym, ap, subst, ◌∙◌, Bool, true, false, not, some, List, [], ◌∷◌, ◌++◌, any,
  if◌then◌else◌, Bool-cases, Option-cases, inl, inr,
}

module _ ⦃p : Platform⦄ ⦃maps : ConfigMaps⦄ where
  -- The calls hand on exactly the outputs that the devices act on, in their order.
  abbrev pub Carries : List Output → List Effect → Type 0
  Carries os es = for_devices (sent es) ≡ for_devices os

  -- Then they leave down what the outputs do.
  pub Carries-down :
      (os : List Output) (es : List Effect)
      → Carries os es
      → (h : HeldOutput) (b : Bool) → down h (sent es) b ≡ down h os b
  Carries-down os es carries h b =
      sym (down-for_devices h (sent es) b) ∙ ap (λ l. down h l b) carries ∙ down-for_devices h os b

module _ ⦃p : Platform⦄ ⦃maps : ConfigMaps⦄ ⦃held_map : IndexMap HeldOutput ℕ⦄ where
  module _ (c : Config) (m : Mapper) (fits : Fits c m) where
    dispatch-Carries : (o : Output) → Ensures (Carries (o ∷ [])) (dispatch m o)
    unfolding dispatch gamepad sent for_devices
    dispatch-Carries (mode_changed name haptic) =
        let (current, e) = mode_of-lt c m.active_mode fits.active_lt in
        let at : mode_of m.config m.active_mode ≡ some current =
          ap (λ d. mode_of d m.active_mode) fits.config_eq ∙ e in
        elim (Option-cases haptic) [
          | inl none_e ↦ rw (at, none_e) refl
          | inr (played, some_e) ↦ rw (at, some_e) refl
        ]
    dispatch-Carries _ = refl

    dispatch_all-Carries : (os : List Output) → Ensures (Carries os) (dispatch_all m os)
    unfolding dispatch_all sent for_devices
    dispatch_all-Carries [] = refl
    dispatch_all-Carries (o ∷ os) =
        Ensures-bind (Carries (o ∷ [])) _ _ _ (dispatch-Carries o) (λ effects first.
          Ensures-bind (Carries os) _ _ _ (dispatch_all-Carries os) (λ rest others.
            ap for_devices (sent-append effects rest)
            ∙ for_devices-append (sent effects) (sent rest)
            ∙ ap (λ l. l ++ for_devices (sent rest)) first
            ∙ ap (λ l. for_devices (o ∷ []) ++ l) others
            ∙ sym (for_devices-append (o ∷ []) os)))

  module _ (start : HeldOutput → Bool) (c : Config) (valid : IsConfig c) where
    -- A toggle: the outputs but the toggles, and then the releases; the visibility is turned over.
    abbrev pub Toggles : OskState → List Output → List Output → OskState → Type 0
    Toggles keyboard mapped drained keyboard' =
        ((released : List Output) × (for_devices drained ≡ for_devices mapped ++ released))
        × NothingDown start drained
        × (keyboard' ≡ set_visible keyboard (not keyboard.visible))
        × (keyboard'.visible ≡ not keyboard.visible)

    -- Without a toggle nothing changes.
    abbrev pub ToggledIf : Bool → OskState → List Output → List Output → OskState → Type 0
    ToggledIf toggles keyboard mapped drained keyboard' =
        if toggles
        then Toggles keyboard mapped drained keyboard'
        else (drained ≡ mapped) × (keyboard' ≡ keyboard)

    suspend-for_devices :
        (m : Mapper) (mapped : List Output)
        → (released : List Output) × (for_devices (suspend m (retain_others mapped)).1
            ≡ for_devices mapped ++ released)
    unfolding suspend
    suspend-for_devices m mapped =
        let (more, e) = release_outputs-Appends m (retain_others mapped) in
        (
          for_devices more,
          ap for_devices e
              ∙ for_devices-append (retain_others mapped) more
              ∙ ap (λ l. l ++ for_devices more) (for_devices-retain_others mapped),
        )

    toggled-Good :
        (m : Mapper) (keyboard : OskState) (mapped : List Output)
        → Good start c (m, mapped)
        → Good start c (toggled m keyboard mapped).0
          × ToggledIf
              (any is_toggle mapped)
              keyboard
              mapped
              (toggled m keyboard mapped).0.1
              (toggled m keyboard mapped).1
    unfolding toggled set_visible
    toggled-Good m keyboard mapped good = elim (Bool-cases (any is_toggle mapped)) [
      | inr e ↦ rw e (good, (refl, refl))
      | inl e ↦
          let kept : Good start c (m, retain_others mapped) = record {
            fits = good.fits;
            synced = λ h. down-retain_others h mapped (start h) ∙ good.synced h;
          } in
          let (suspended, nothing) = suspend-Good start c valid m (retain_others mapped) kept in
          let pushed = suspend-for_devices m mapped in
          rw e (suspended, (pushed, nothing, refl, refl))
    ]

    -- What was drained is handed on, and the toggle has had its effect.
    abbrev pub Emits : OskState → List Output → Emitted → Type 0
    Emits keyboard mapped e =
        Good start c (e.mapper, e.drained)
        × Carries e.drained e.effects
        × ToggledIf (has_toggle mapped) keyboard mapped e.drained e.keyboard

    -- For a good mapper of a valid configuration, `emit` does not panic. It leaves a good mapper,
    -- and its calls on the output devices hand on exactly the outputs that it drains, in their order,
    -- those aside that the devices ignore. If a keyboard toggle is among the mapper's outputs, then
    -- what it drains is, but for the ignored ones, the mapper's outputs and then some more, after
    -- them nothing is down for the receiver, and the keyboard's visibility is turned over; else it
    -- drains the mapper's outputs and leaves the keyboard as it was.
    pub emit-Good :
        (m : Mapper) (keyboard : OskState) (mapped : List Output)
        → Good start c (m, mapped)
        → Ensures (Emits keyboard mapped) (emit m keyboard mapped)
    unfolding emit
    emit-Good m keyboard mapped good =
        let (after, effect) = toggled-Good m keyboard mapped good in
        let (m', drained) = (toggled m keyboard mapped).0 in
        Ensures-bind (Carries drained) (Emits keyboard mapped) _ _
          (dispatch_all-Carries c m' after.fits drained)
          (λ effects carries. (
            after,
            carries,
            subst (λ b. ToggledIf b keyboard mapped drained (toggled m keyboard mapped).1)
                (any-is_toggle mapped) effect,
          ))
