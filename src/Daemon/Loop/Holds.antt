-- ===== src/Daemon/Loop/Holds.antt =====
-- The invariant of the loop of `main`, and the calls that its handlers share.
use steam_controller_daemon.Platform.{Platform, IndexMap}
use steam_controller_daemon.Protocol.Buttons.{Button, button_eq}
use steam_controller_daemon.Protocol.State.{ControllerState}
use steam_controller_daemon.Config.{ConfigMaps, Config, string_eq}
use steam_controller_daemon.Ipc.State.{
  OskPadSide, OskPad, OskClick, OskState, set_visible, set_bindings, default_state,
}
use steam_controller_daemon.Ipc.Pad.{update_pad}
use steam_controller_daemon.Ipc.Clicks.History.{Kept-default}
use steam_controller_daemon.Ipc.Calls.{
  OskCall, show, bind, sync, touch, call_osk, log_call, recent_call,
}
use steam_controller_daemon.Ipc.Calls.Sound as Calls
use steam_controller_daemon.Mapper.Types.{Output, HeldOutput, held_eq, Mapper}
use steam_controller_daemon.Mapper.Held.Observer.{down, down-append}
use steam_controller_daemon.Mapper.Invariant.{IsConfig, Good}
use steam_controller_daemon.Mapper.Osk.{active_osk_bindings, keyboard_shifted}
use steam_controller_daemon.Daemon.Emit.{Emits, emit-Good, Carries-down}
use steam_controller_daemon.Daemon.Emit.Sent.{has_toggle}
use steam_controller_daemon.Daemon.Requests.{sync_keyboard}
use steam_controller_daemon.Daemon.Loop.{
  Act, effect, osk_pad, Daemon, emit_mapped, publish_keyboard, respond, emit_done, Response, done,
  responds, update_pads,
}
use steam_controller_daemon.Prelude.Panic.{Ensures, Ensures-bind, Ensures-imp}
use steam_controller_daemon.Prelude.{
  on_test, ℕ, ◌≡◌, refl, ap, sym, ◌∙◌, subst, Bool, true, false, not, List, [], ◌∷◌, ◌++◌, map,
  if◌then◌else◌, ◌⊎◌, inl, inr,
}
use steam_controller_daemon.Daemon.Loop.Acts.{
  emitted_acts, emitted_acts-append, emitted_acts-effects,
}

-- The sides of a test.
pub either_of : (b : Bool) (A B : Type 0) → (if b then A else B) → A ⊎ B
either_of true A B h = inl h
either_of false A B h = inr h

module _ ⦃p : Platform⦄ where
  open p use {KeyCode}

  abbrev pub nothing_down : HeldOutput → Bool
  nothing_down h = false

  -- Its ring holds the clicks of some log, and its array has a place for every button.
  abbrev pub KeyboardSound : OskState → Type 0
  KeyboardSound s = (log : List OskClick) × (recent : ℕ) × Calls.Sound log recent s

  call_osk-KeyboardSound :
      (call : OskCall) (s : OskState) → KeyboardSound s → Ensures KeyboardSound (call_osk call s)
  call_osk-KeyboardSound call s (log, recent, sound) =
      Ensures-imp (λ s'. Calls.Sound (log_call call s s' log) (recent_call call s recent) s')
        KeyboardSound _ (λ s' h. (log_call call s s' log, recent_call call s recent, h))
        (Calls.call_osk-Sound call log recent s sound)

  pub set_visible-KeyboardSound :
      (s : OskState) (visible : Bool) → KeyboardSound s → KeyboardSound (set_visible s visible)
  unfolding call_osk
  set_visible-KeyboardSound s visible sound = call_osk-KeyboardSound (show visible) s sound

  pub set_bindings-KeyboardSound :
      (s : OskState) (pairs : List (Button × KeyCode))
      → KeyboardSound s
      → Ensures KeyboardSound (set_bindings s pairs)
  unfolding call_osk
  set_bindings-KeyboardSound s pairs sound = call_osk-KeyboardSound (bind pairs) s sound

  update_pad-KeyboardSound :
      (s : OskState) (side : OskPadSide) (pad : OskPad) (rising : Bool)
      → KeyboardSound s
      → Ensures KeyboardSound (update_pad s side pad rising)
  unfolding call_osk
  update_pad-KeyboardSound s side pad rising sound =
      call_osk-KeyboardSound (touch side pad rising) s sound

  pub KeyboardSound-default : KeyboardSound default_state
  KeyboardSound-default = ([], 0, (Kept-default, refl))

module _ ⦃p : Platform⦄ ⦃maps : ConfigMaps⦄ ⦃held_map : IndexMap HeldOutput ℕ⦄ where
  pub update_pads-KeyboardSound :
      (s : OskState) (state : ControllerState) (rising : Bool)
      → KeyboardSound s
      → Ensures KeyboardSound (update_pads s state rising)
  unfolding update_pads
  update_pads-KeyboardSound s state rising sound =
      Ensures-bind KeyboardSound KeyboardSound _ _
        (update_pad-KeyboardSound s OskPadSide.left (osk_pad state.left_pad) rising sound)
        (λ after sound'.
          update_pad-KeyboardSound after OskPadSide.right (osk_pad state.right_pad) rising sound')

  pub sync_keyboard-KeyboardSound :
      (m : Mapper) (s : OskState) → KeyboardSound s → KeyboardSound (sync_keyboard m s)
  unfolding sync_keyboard call_osk
  sync_keyboard-KeyboardSound m s sound =
      on_test KeyboardSound s.visible _ s
        (call_osk-KeyboardSound (sync (keyboard_shifted m) (active_osk_bindings m)) s sound) sound

  -- What is down after the mapper's outputs among the acts, without the keys that are typed.
  abbrev pub after : (HeldOutput → Bool) → List Act → HeldOutput → Bool
  after start acts h = down h (emitted_acts acts) (start h)

  -- The mapper is good under its configuration, and holds exactly what its outputs leave down.
  pub record Holds (start : HeldOutput → Bool) (d : Daemon) : Type 0 where
    pub config : Config
    pub valid : IsConfig config
    pub good : Good start config (d.mapper, [])
    pub keyboard_sound : KeyboardSound d.keyboard

  abbrev pub Next : (HeldOutput → Bool) → Daemon × List Act → Type 0
  Next start (d, acts) = Holds (after start acts) d

  Good-of_down :
      (start start' : HeldOutput → Bool) (c : Config) (m : Mapper) (outputs : List Output)
      → ((h : HeldOutput) → start' h ≡ down h outputs (start h))
      → Good start c (m, outputs)
      → Good start' c (m, [])
  unfolding down
  Good-of_down start start' c m outputs same good = record {
    fits = good.fits;
    synced = λ h. same h ∙ good.synced h;
  }

  pub Holds-of_same :
      (start start' : HeldOutput → Bool) (d : Daemon)
      → ((h : HeldOutput) → start' h ≡ start h)
      → Holds start d
      → Holds start' d
  unfolding down
  Holds-of_same start start' d same holds = record {
    config = holds.config;
    valid = holds.valid;
    good = record { fits = holds.good.fits; synced = λ h. same h ∙ holds.good.synced h };
    keyboard_sound = holds.keyboard_sound;
  }

  -- Acts without an output.
  pub Next-quiet :
      (start : HeldOutput → Bool) (d d' : Daemon) (acts more : List Act)
      → d'.mapper ≡ d.mapper
      → emitted_acts more ≡ []
      → KeyboardSound d'.keyboard
      → Next start (d, acts)
      → Next start (d', acts ++ more)
  unfolding down
  Next-quiet start d d' acts more same quiet sound holds = record {
    config = holds.config;
    valid = holds.valid;
    good =
        subst (λ m. Good (after start (acts ++ more)) holds.config (m, [])) (sym same)
          (record {
            fits = holds.good.fits;
            synced = λ h.
                ap (λ os. down h os (start h)) (emitted_acts-append acts more)
                ∙ down-append h (emitted_acts acts) (emitted_acts more) (start h)
                ∙ ap (λ os. down h os (after start acts h)) quiet
                ∙ holds.good.synced h;
          });
    keyboard_sound = sound;
  }

  -- `publish_keyboard` calls no output device.
  pub publish_keyboard-Next :
      (start : HeldOutput → Bool) (r : Daemon × List Act)
      → Next start r
      → Next start (publish_keyboard r)
  unfolding publish_keyboard emitted_acts
  publish_keyboard-Next start (d, acts) holds =
      Next-quiet start d _ acts _ refl refl
        (sync_keyboard-KeyboardSound d.mapper d.keyboard holds.keyboard_sound) holds

  pub respond-Next :
      (start : HeldOutput → Bool) (response : Response) (r : Daemon × List Act)
      → Next start r
      → Next start (respond response r)
  unfolding emitted_acts
  respond-Next start response (d, acts) holds =
      Next-quiet start d d acts (responds response ∷ []) refl refl holds.keyboard_sound holds

  module _ (start : HeldOutput → Bool) (c : Config) (valid : IsConfig c) where
    -- `emit` on a good mapper.
    pub emit_mapped-Next :
        (d : Daemon) (m : Mapper) (mapped : List Output)
        → Good start c (m, mapped)
        → KeyboardSound d.keyboard
        → Ensures (Next start) (emit_mapped d (m, mapped))
    unfolding emit_mapped
    emit_mapped-Next d m mapped good sound =
        Ensures-bind (Emits start c valid d.keyboard mapped) (Next start) _ _
          (emit-Good start c valid m d.keyboard mapped good)
          (λ e (good', carries, toggle). record {
            config = c;
            valid = valid;
            good =
                Good-of_down start (after start (map effect e.effects)) c e.mapper e.drained
                  (λ h.
                    ap (λ os. down h os (start h)) (emitted_acts-effects e.effects)
                    ∙ Carries-down e.drained e.effects carries h (start h))
                  good';
            keyboard_sound = (elim (either_of (has_toggle mapped) _ _ toggle) [
              | inl (pushed, quiet, shown, turned) ↦
                  subst KeyboardSound (sym shown)
                    (set_visible-KeyboardSound d.keyboard (not d.keyboard.visible) sound)
              | inr (drained, same) ↦ subst KeyboardSound (sym same) sound
            ]);
          })

    pub emit_done-Next :
        (d : Daemon) (m : Mapper) (mapped : List Output)
        → Good start c (m, mapped)
        → KeyboardSound d.keyboard
        → Ensures (Next start) (emit_done d (m, mapped))
    unfolding emit_done
    emit_done-Next d m mapped good sound =
        Ensures-bind (Next start) (Next start) _ _ (emit_mapped-Next d m mapped good sound)
          (λ r holds. respond-Next start done _ (publish_keyboard-Next start r holds))
