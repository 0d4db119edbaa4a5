-- ===== src/Mapper/Session.antt =====
-- The life of a mapper: the calls that daemon/src/main.rs makes on it, in any order.
use Prim.Native.String.{String}
use steam_controller_daemon.Platform.{Platform, IndexMap}
use steam_controller_daemon.Config.{ConfigMaps, Config, string_eq}
use steam_controller_daemon.Protocol.Buttons.{button_eq}
use steam_controller_daemon.Protocol.State.{ControllerState}
use steam_controller_daemon.Mapper.Types.{Output, HeldOutput, held_eq, Mapper}
use steam_controller_daemon.Mapper.Invariant.{IsConfig, Good}
use steam_controller_daemon.Mapper.Switch.{
  new, set_mode, next_mode_of, reload, release_all, suspend,
}
use steam_controller_daemon.Mapper.Switch.Calls.{
  new-Good, set_mode-Good, SetMode, next_mode_of-Good, reload-Good, release_all-Good, suspend-Good,
  NothingDown,
}
use steam_controller_daemon.Mapper.Process.{process}
use steam_controller_daemon.Mapper.Process.Good.{process-Good}
use steam_controller_daemon.Prelude.Panic.{◌>>=◌, Ensures, Ensures-bind, Ensures-imp, unwrap_or}
use steam_controller_daemon.Prelude.{ℕ, Bool, false, Option, some, List, [], ◌∷◌, inl, inr, All}

module _ ⦃p : Platform⦄ ⦃maps : ConfigMaps⦄ where
  pub data Call : Type 0 where
    processes : (state : ControllerState) (keyboard_visible : Bool) → Call
    sets_mode : String → Call
    next_modes : Call
    reloads : Config → Call
    releases_all : Call
    suspends : Call

  -- A configuration comes from `Config::parse`.
  abbrev pub CallValid : Call → Type 0
  CallValid (reloads c) = IsConfig c
  CallValid _ = Unit {0}

module _ ⦃p : Platform⦄ ⦃maps : ConfigMaps⦄ ⦃held_map : IndexMap HeldOutput ℕ⦄ where
  -- An unknown mode leaves the mapper and the outputs as they were.
  unfoldable pub call : Call → Mapper × List Output → Option (Mapper × List Output)
  call (processes state visible) (m, outputs) = process m state visible outputs
  call (sets_mode name) (m, outputs) = do
    result ← set_mode m name outputs
    some (unwrap_or result (m, outputs))
  call next_modes (m, outputs) = next_mode_of m outputs
  call (reloads c) (m, outputs) = reload m c outputs
  call releases_all (m, outputs) = release_all m outputs
  call suspends (m, outputs) = some (suspend m outputs)

  unfoldable pub run : List Call → Mapper × List Output → Option (Mapper × List Output)
  run [] r = some r
  run (x ∷ xs) r = do after ← call x r; run xs after

  -- `Mapper::new` and then the calls.
  unfoldable pub session : Config → List Call → Option (Mapper × List Output)
  session c calls = do m ← new c; run calls (m, [])

  module _ (start : HeldOutput → Bool) where
    -- Good with the configuration that it runs now.
    abbrev pub Sound : Mapper × List Output → Type 0
    Sound r = (c : Config) × IsConfig c × Good start c r

    call-Sound :
        (x : Call) (r : Mapper × List Output) → CallValid x → Sound r → Ensures Sound (call x r)
    unfolding call
    call-Sound (processes state visible) (m, outputs) v (c, valid, good) =
        Ensures-imp (Good start c) Sound _ (λ r g. (c, valid, g))
          (process-Good start c valid m state visible outputs good)
    call-Sound (sets_mode name) (m, outputs) v (c, valid, good) =
        Ensures-bind (SetMode start c valid name) Sound (set_mode m name outputs) _
          (set_mode-Good start c valid m name outputs good)
          (λ result w. elim w [
            | inl (unknown, e) ↦ rw e (c, valid, good)
            | inr (target, after, known, e, active, g) ↦ rw e (c, valid, g)
          ])
    call-Sound next_modes (m, outputs) v (c, valid, good) =
        Ensures-imp (Good start c) Sound _ (λ r g. (c, valid, g))
          (next_mode_of-Good start c valid m outputs good)
    call-Sound (reloads next) (m, outputs) v (c, valid, good) =
        Ensures-imp (Good start next) Sound _ (λ r g. (next, v, g))
          (reload-Good start c valid next m outputs v good)
    call-Sound releases_all (m, outputs) v (c, valid, good) =
        Ensures-imp _ Sound _ (λ r w. (c, valid, w.0))
          (release_all-Good start c valid m outputs good)
    call-Sound suspends (m, outputs) v (c, valid, good) =
        (c, valid, (suspend-Good start c valid m outputs good).0)

    run-Sound :
        (calls : List Call) (r : Mapper × List Output)
        → All CallValid calls
        → Sound r
        → Ensures Sound (run calls r)
    unfolding run
    run-Sound [] r v s = s
    run-Sound (x ∷ xs) r v s =
        Ensures-bind Sound Sound (call x r) _ (call-Sound x r v.0 s)
          (λ after w. run-Sound xs after v.1 w)

  -- For a valid configuration, a new mapper and any sequence of calls, reloads with valid
  -- configurations among them, run to the end without a panic. The mapper then fits a valid
  -- configuration, and the receiver of all outputs sees down exactly what its table holds.
  pub session-Sound :
      (c : Config) (calls : List Call)
      → IsConfig c
      → All CallValid calls
      → Ensures (Sound (λ h. false)) (session c calls)
  unfolding session
  session-Sound c calls valid v =
      Ensures-bind (λ m. Good (λ h. false) c (m, [])) (Sound (λ h. false)) (new c) _
        (new-Good c valid) (λ m g. run-Sound (λ h. false) calls (m, []) v (c, valid, g))

  -- For a valid configuration, any sequence of calls, reloads with valid configurations among them,
  -- and then `release_all` run without a panic and leave nothing down for the receiver.
  pub session-NothingDown :
      (c : Config) (calls : List Call)
      → IsConfig c
      → All CallValid calls
      → Ensures (λ r. NothingDown (λ h. false) r.1) (session c calls >>= λ r. call releases_all r)
  unfolding call
  session-NothingDown c calls valid v =
      Ensures-bind (Sound (λ h. false)) (λ r. NothingDown (λ h. false) r.1) (session c calls) _
        (session-Sound c calls valid v)
        (λ (m, outputs) (d, w, good).
          Ensures-imp _ _ _
            (λ (r : Mapper × List Output)
                (g : Good (λ h. false) d r × NothingDown (λ h. false) r.1).
              g.1)
            (release_all-Good (λ h. false) d w m outputs good))
