-- ===== src/Daemon/Loop/Main.antt =====
-- The daemon as a whole: runs from a configuration, and `main` on a text.
use Prim.Native.String.{String}
use steam_controller_daemon.Platform.{Platform, IndexMap}
use steam_controller_daemon.Protocol.Buttons.{button_eq}
use steam_controller_daemon.Config.{ConfigMaps, Config, string_eq}
use steam_controller_daemon.Kdl.{Kdl, Issue, Parsed}
use steam_controller_daemon.Config.Parse.Key.{KeyText}
use steam_controller_daemon.Config.Parse.Document.{parse}
use steam_controller_daemon.Config.Parse.Document.Valid.{parse-IsConfig}
use steam_controller_daemon.Mapper.Types.{HeldOutput, held_eq}
use steam_controller_daemon.Mapper.Held.Observer.{is_some, down}
use steam_controller_daemon.Mapper.Invariant.{IsConfig, Fits}
use steam_controller_daemon.Daemon.Loop.{Step, Act, Daemon, or_panics, run_from, main}
use steam_controller_daemon.Daemon.Loop.Holds.{KeyboardSound, Next, nothing_down}
use steam_controller_daemon.Daemon.Loop.Receiver.{
  no_shifts, typed_since, received, received-emitted,
}
use steam_controller_daemon.Daemon.Loop.Runs.{Served, run_from-Holds}
use steam_controller_daemon.Prelude.Outcome.{ok, err, Yields-cases}
use steam_controller_daemon.Prelude.Panic.{Ensures, Ensures-some, Ensures-imp}
use steam_controller_daemon.Prelude.{
  ℕ, ◌≡◌, refl, ap, ◌∙◌, false, not, ◌&&◌, List, All, ◌⊎◌, inl, inr,
}

module _ ⦃p : Platform⦄ ⦃maps : ConfigMaps⦄ ⦃held_map : IndexMap HeldOutput ℕ⦄ where
  -- The mapper fits a valid configuration, the keyboard's state is sound, and the devices have down
  -- what the mapper holds, but for what the daemon has typed since.
  pub record Follows (d : Daemon) (acts : List Act) : Type 0 where
    pub config : Config
    pub valid : IsConfig config
    pub fits : Fits config d.mapper
    pub keyboard_sound : KeyboardSound d.keyboard
    pub exact :
        (h : HeldOutput)
        → received acts h
          ≡ (is_some (held_map.get d.mapper.held h) && not (typed_since h no_shifts acts false))

  abbrev pub Run : Daemon × List Act → Type 0
  Run (d, acts) = Follows d acts

  Next-Run : (r : Daemon × List Act) → Next nothing_down r → Run r
  unfolding down
  Next-Run (d, acts) holds = record {
    config = holds.config;
    valid = holds.valid;
    fits = holds.good.fits;
    keyboard_sound = holds.keyboard_sound;
    exact = λ h.
        received-emitted acts h
        ∙ ap (λ b. b && not (typed_since h no_shifts acts false)) (holds.good.synced h);
  }

module _ ⦃p : Platform⦄ ⦃maps : ConfigMaps⦄ ⦃held_map : IndexMap HeldOutput ℕ⦄ ⦃text : KeyText⦄
    ⦃k : Kdl⦄ where
  -- Under a valid configuration the daemon starts and handles any events and requests but `Osk`, in any
  -- order, to the end: no step panics. The mapper then fits a valid configuration, the state of the
  -- keyboard is sound, and among all presses and releases that the devices have received, those of
  -- the keys that the daemon types included, a key or button is down exactly if the mapper holds it
  -- and the daemon has not typed it since the mapper last pressed or released it.
  pub run_from-Next :
      (config : Config) (xs : List Step)
      → IsConfig config
      → All Served xs
      → Ensures Run (run_from config xs)
  run_from-Next config xs valid served =
      Ensures-imp (Next nothing_down) Run (run_from config xs) Next-Run
        (run_from-Holds config xs valid served)

  -- A text that is parsed is run; a text with errors is refused with them.
  abbrev pub RunsOrRefuses : String → Parsed (Daemon × List Act) → Type 0
  RunsOrRefuses source r =
      ((config : Config) × (after : Daemon × List Act) × (parse source ≡ ok config)
        × (r ≡ ok after)
        × Run after)
      ⊎ ((issues : List Issue) × (parse source ≡ err issues) × (r ≡ err issues))

  -- On every text of a configuration and any events and requests but `Osk`, in any order, the daemon
  -- either parses the text and runs to the end without a panic, and then its mapper fits a valid
  -- configuration and the devices have down exactly what the mapper holds and the daemon has not
  -- typed since; or parsing the text gives errors, and the daemon ends with these errors.
  pub main-Next :
      (source : String) (xs : List Step) → All Served xs → RunsOrRefuses source (main source xs)
  unfolding main
  main-Next source xs served = elim (Yields-cases IsConfig (parse source) (parse-IsConfig source)) [
    | inl (config, e, valid) ↦
        let (after, ran, follows) =
          Ensures-some Run (run_from config xs) (run_from-Next config xs valid served) in
        inl (config, after, e, rw (e, main) (ap or_panics ran), follows)
    | inr (issues, e) ↦ inr (issues, e, rw (e, main) refl)
  ]
