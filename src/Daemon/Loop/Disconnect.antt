-- ===== src/Daemon/Loop/Disconnect.antt =====
-- After the controller is disconnected.
use Prim.Native.String.{String}
use steam_controller_daemon.Platform.{Platform, IndexMap}
use steam_controller_daemon.Protocol.Buttons.{button_eq}
use steam_controller_daemon.Config.{ConfigMaps, Config, string_eq}
use steam_controller_daemon.Kdl.{Kdl}
use steam_controller_daemon.Config.Parse.Key.{KeyText}
use steam_controller_daemon.Config.Parse.Document.{parse}
use steam_controller_daemon.Config.Parse.Document.Valid.{parse-IsConfig}
use steam_controller_daemon.Ipc.State.{OskState, set_visible}
use steam_controller_daemon.Mapper.Types.{Output, HeldOutput, held_eq, Mapper}
use steam_controller_daemon.Mapper.Held.Observer.{down, down-append}
use steam_controller_daemon.Mapper.Invariant.{IsConfig, Good}
use steam_controller_daemon.Mapper.Switch.Calls.{release_all-Good, NothingDown}
use steam_controller_daemon.Daemon.Emit.{Emits, emit-Good, Carries-down}
use steam_controller_daemon.Daemon.Emit.Sent.{has_toggle}
use steam_controller_daemon.Daemon.Requests.{sync_keyboard}
use steam_controller_daemon.Daemon.Loop.{
  disconnected, Step, event, Act, Daemon, emit_mapped, publish_keyboard, handle_disconnected,
  handle_event, step, steps, or_panics, run_from, main,
}
use steam_controller_daemon.Daemon.Loop.Acts.{
  emitted_acts, emitted_acts-append, emitted_acts-effects,
}
use steam_controller_daemon.Daemon.Loop.Holds.{nothing_down, after, Holds, Next, either_of}
use steam_controller_daemon.Daemon.Loop.Steps.{gamepad-some}
use steam_controller_daemon.Daemon.Loop.Receiver.{
  no_shifts, typed_since, received, received-emitted,
}
use steam_controller_daemon.Daemon.Loop.Runs.{Served, step-Next, start_daemon-Next}
use steam_controller_daemon.Prelude.Outcome.{Yields, Yields-cases}
use steam_controller_daemon.Prelude.Panic.{Ensures, Ensures-bind, Ensures-imp}
use steam_controller_daemon.Prelude.{
  ℕ, ◌≡◌, refl, ap, ◌∙◌, Bool, false, not, ◌&&◌, Option, none, some, List, [], ◌∷◌, ◌++◌, All, inl,
  inr,
}

module _ ⦃p : Platform⦄ ⦃maps : ConfigMaps⦄ ⦃held_map : IndexMap HeldOutput ℕ⦄ where
  -- The keyboard is hidden, and nothing is known of its closing or of the battery.
  abbrev pub Forgets : Daemon → Type 0
  Forgets d =
      (d.keyboard.visible ≡ false)
      × (d.keyboard_closed_at ≡ none)
      × (d.battery_percent ≡ none)
      × (d.charging ≡ none)

  -- What a disconnection leaves: nothing down, the keyboard hidden, and no battery known.
  abbrev pub Gone : Daemon × List Act → Type 0
  Gone (d, acts) = ((h : HeldOutput) → received acts h ≡ false) × Forgets d

  -- The same of the mapper's outputs alone, from what was down at the start.
  abbrev Leaves : (HeldOutput → Bool) → Daemon × List Act → Type 0
  Leaves start (d, acts) = ((h : HeldOutput) → after start acts h ≡ false) × Forgets d

  Leaves-Gone : (r : Daemon × List Act) → Leaves nothing_down r → Gone r
  Leaves-Gone (d, acts) (quiet, forgets) = (
    λ h.
        received-emitted acts h ∙ ap (λ b. b && not (typed_since h no_shifts acts false)) (quiet h),
    forgets,
  )

  abbrev Quiet : (HeldOutput → Bool) → Daemon × List Act → Type 0
  Quiet start (d, acts) = (h : HeldOutput) → after start acts h ≡ false

  module _ (start : HeldOutput → Bool) where
    after-append :
        (acts later : List Act) (h : HeldOutput)
        → after start (acts ++ later) h ≡ after (after start acts) later h
    after-append acts later h =
        ap (λ os. down h os (start h)) (emitted_acts-append acts later)
        ∙ down-append h (emitted_acts acts) (emitted_acts later) (start h)

    emit_mapped-Quiet :
        (c : Config)
        → IsConfig c
        → (d : Daemon) (m : Mapper) (mapped : List Output) → Good start c (m, mapped)
        → NothingDown start mapped
        → Ensures (Quiet start) (emit_mapped d (m, mapped))
    unfolding emit_mapped
    emit_mapped-Quiet c valid d m mapped good nothing =
        Ensures-bind (Emits start c valid d.keyboard mapped) (Quiet start) _ _
          (emit-Good start c valid m d.keyboard mapped good)
          (λ e (good', carries, toggle). λ h.
            ap (λ os. down h os (start h)) (emitted_acts-effects e.effects)
            ∙ Carries-down e.drained e.effects carries h (start h)
            ∙ (elim (either_of (has_toggle mapped) _ _ toggle) [
              | inl (pushed, quiet, shown, turned) ↦ quiet h
              | inr (drained, same) ↦ ap (λ os. down h os (start h)) drained ∙ nothing h
            ]))

    hidden-visible :
        (m : Mapper) (s : OskState) → (sync_keyboard m (set_visible s false)).visible ≡ false
    unfolding sync_keyboard set_visible
    hidden-visible m s = refl

    handle_disconnected-Leaves :
        (d : Daemon) → Holds start d → Ensures (Leaves start) (handle_disconnected d)
    unfolding handle_disconnected publish_keyboard emitted_acts down
    handle_disconnected-Leaves d holds =
        let c = holds.config in
        Ensures-bind (λ kind. Unit {0}) (Leaves start) _ _
          (gamepad-some start c d.mapper holds.good.fits)
          (λ kind u.
            Ensures-bind (λ r. Good start c r × NothingDown start r.1) (Leaves start) _ _
              (release_all-Good start c holds.valid d.mapper [] holds.good)
              (λ (m, mapped) (good, nothing).
                Ensures-bind (Quiet start) (Leaves start) _ _
                  (emit_mapped-Quiet c holds.valid d m mapped good nothing)
                  (λ (next, acts) quiet. (
                    (λ h. after-append acts _ h ∙ quiet h),
                    (hidden-visible next.mapper next.keyboard, refl, refl, refl),
                  ))))

    Leaves-append :
        (d : Daemon) (acts later : List Act)
        → Leaves (after start acts) (d, later)
        → Leaves start (d, acts ++ later)
    Leaves-append d acts later (quiet, forgets) =
        ((λ h. after-append acts later h ∙ quiet h), forgets)

module _ ⦃p : Platform⦄ ⦃maps : ConfigMaps⦄ ⦃held_map : IndexMap HeldOutput ℕ⦄ ⦃text : KeyText⦄
    ⦃k : Kdl⦄ where
  -- The last step of a run.
  steps-last :
      (start : HeldOutput → Bool) (now : ℕ) (d : Daemon)
      → Holds start d
      → Ensures (Leaves start) (steps (event disconnected now ∷ []) d)
  unfolding steps step handle_event emitted_acts down
  steps-last start now d holds =
      Ensures-bind (Leaves start) (Leaves start) _ _ (handle_disconnected-Leaves start d holds)
        (λ (d', acts) gone. Leaves-append start d' acts [] gone)

  steps-Leaves :
      (start : HeldOutput → Bool) (xs : List Step) (now : ℕ) (d : Daemon)
      → All Served xs
      → Holds start d
      → Ensures (Leaves start) (steps (xs ++ event disconnected now ∷ []) d)
  unfolding steps
  steps-Leaves start [] now d served holds = steps-last start now d holds
  steps-Leaves start (x ∷ xs) now d (first, others) holds =
      Ensures-bind (Next start) (Leaves start) _ _ (step-Next start x d first holds)
        (λ (d', acts) holds'.
          Ensures-bind (Leaves (after start acts)) (Leaves start) _ _
            (steps-Leaves (after start acts) xs now d' others holds')
            (λ (d'', later) gone. Leaves-append start d'' acts later gone))

  run_from-Leaves :
      (config : Config) (xs : List Step) (now : ℕ)
      → IsConfig config
      → All Served xs
      → Ensures (Leaves nothing_down) (run_from config (xs ++ event disconnected now ∷ []))
  unfolding run_from
  run_from-Leaves config xs now valid served =
      Ensures-bind (Next nothing_down) (Leaves nothing_down) _ _ (start_daemon-Next config valid)
        (λ (d, acts) holds.
          Ensures-bind (Leaves (after nothing_down acts)) (Leaves nothing_down) _ _
            (steps-Leaves (after nothing_down acts) xs now d served holds)
            (λ (d', later) leaves. Leaves-append nothing_down d' acts later leaves))

  or_panics-Yields :
      (P : Daemon × List Act → Type 0) (r : Option (Daemon × List Act))
      → Ensures P r
      → Yields P (or_panics r)
  or_panics-Yields P none h = h
  or_panics-Yields P (some r) h = h

  -- On every text of a configuration and any events and requests but `Osk`, in any order, a disconnection of
  -- the controller after them is handled without a panic: then no key or button is down for the
  -- devices, the keyboard is hidden and forgets when it was closed, and the battery is unknown.
  pub disconnected-Gone :
      (source : String) (xs : List Step) (now : ℕ)
      → All Served xs
      → Yields Gone (main source (xs ++ event disconnected now ∷ []))
  unfolding main
  disconnected-Gone source xs now served =
      let ys = xs ++ event disconnected now ∷ [] in
      elim (Yields-cases IsConfig (parse source) (parse-IsConfig source)) [
        | inr (issues, e) ↦ rw (e, main) tt
        | inl (config, e, valid) ↦
            rw (e, main)
              (or_panics-Yields Gone (run_from config ys) (
                Ensures-imp (Leaves nothing_down) Gone (run_from config ys) Leaves-Gone
                  (run_from-Leaves config xs now valid served)))
      ]
