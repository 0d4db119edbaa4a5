-- ===== src/Daemon/Loop/Acts.antt =====
-- The mapper's outputs among the daemon's acts, without the keys that it types itself.
use steam_controller_daemon.Platform.{Platform}
use steam_controller_daemon.Mapper.Types.{Output}
use steam_controller_daemon.Daemon.{Effect, emits, sets_gamepad, plays}
use steam_controller_daemon.Daemon.Emit.Sent.{sent}
use steam_controller_daemon.Daemon.Loop.{Act, effect}
use steam_controller_daemon.Prelude.{◌≡◌, refl, ap, List, [], ◌∷◌, ◌++◌, map}

module _ ⦃p : Platform⦄ where
  unfoldable pub emitted_acts : List Act → List Output
  emitted_acts [] = []
  emitted_acts (effect (emits o) ∷ acts) = o ∷ emitted_acts acts
  emitted_acts (_ ∷ acts) = emitted_acts acts

  pub emitted_acts-append :
      (xs ys : List Act) → emitted_acts (xs ++ ys) ≡ emitted_acts xs ++ emitted_acts ys
  unfolding emitted_acts
  emitted_acts-append [] ys = refl
  emitted_acts-append (effect (emits o) ∷ xs) ys = ap (λ l. o ∷ l) (emitted_acts-append xs ys)
  emitted_acts-append (effect (sets_gamepad g) ∷ xs) ys = emitted_acts-append xs ys
  emitted_acts-append (effect (plays h) ∷ xs) ys = emitted_acts-append xs ys
  emitted_acts-append (_ ∷ xs) ys = emitted_acts-append xs ys

  pub emitted_acts-effects : (es : List Effect) → emitted_acts (map effect es) ≡ sent es
  unfolding emitted_acts sent
  emitted_acts-effects [] = refl
  emitted_acts-effects (emits o ∷ es) = ap (λ l. o ∷ l) (emitted_acts-effects es)
  emitted_acts-effects (sets_gamepad g ∷ es) = emitted_acts-effects es
  emitted_acts-effects (plays h ∷ es) = emitted_acts-effects es
