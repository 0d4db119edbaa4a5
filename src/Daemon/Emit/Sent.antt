-- ===== src/Daemon/Emit/Sent.antt =====
-- The outputs among the calls of `emit`, and those that `Outputs::emit` of daemon/src/output.rs acts
-- on.
use steam_controller_daemon.Platform.{Platform}
use steam_controller_daemon.Protocol.Buttons.{button_eq}
use steam_controller_daemon.Config.{string_eq}
use steam_controller_daemon.Mapper.Types.{Output, mode_changed, HeldOutput, held_eq}
use steam_controller_daemon.Mapper.Held.Observer.{observe, down}
use steam_controller_daemon.Daemon.{Effect, emits, sets_gamepad, plays, is_toggle, retain_others}
use steam_controller_daemon.Prelude.{◌≡◌, refl, ap, Bool, true, false, List, [], ◌∷◌, ◌++◌, any}

module _ ⦃p : Platform⦄ where
  -- The outputs among the calls.
  unfoldable pub sent : List Effect → List Output
  sent [] = []
  sent (emits o ∷ es) = o ∷ sent es
  sent (_ ∷ es) = sent es

  pub sent-append : (xs ys : List Effect) → sent (xs ++ ys) ≡ sent xs ++ sent ys
  unfolding sent
  sent-append [] ys = refl
  sent-append (emits o ∷ xs) ys = ap (λ l. o ∷ l) (sent-append xs ys)
  sent-append (sets_gamepad g ∷ xs) ys = sent-append xs ys
  sent-append (plays h ∷ xs) ys = sent-append xs ys

  -- Is a keyboard toggle among the outputs?
  abbrev pub has_toggle : List Output → Bool
  has_toggle [] = false
  has_toggle (Output.keyboard_toggle ∷ os) = true
  has_toggle (_ ∷ os) = has_toggle os

  pub any-is_toggle : (os : List Output) → any is_toggle os ≡ has_toggle os
  unfolding is_toggle
  any-is_toggle [] = refl
  any-is_toggle (Output.keyboard_toggle ∷ os) = refl
  any-is_toggle (_ ∷ os) = any-is_toggle os

  -- The outputs that `Outputs::emit` acts on, in their order: it ignores the other three.
  unfoldable pub for_devices : List Output → List Output
  for_devices [] = []
  for_devices (Output.keyboard_toggle ∷ os) = for_devices os
  for_devices (mode_changed name haptic ∷ os) = for_devices os
  for_devices (Output.trackpad_haptic pad ∷ os) = for_devices os
  for_devices (o ∷ os) = o ∷ for_devices os

  pub for_devices-append :
      (xs ys : List Output) → for_devices (xs ++ ys) ≡ for_devices xs ++ for_devices ys
  unfolding for_devices
  for_devices-append [] ys = refl
  for_devices-append (Output.keyboard_toggle ∷ xs) ys = for_devices-append xs ys
  for_devices-append (mode_changed name haptic ∷ xs) ys = for_devices-append xs ys
  for_devices-append (Output.trackpad_haptic pad ∷ xs) ys = for_devices-append xs ys
  for_devices-append (o ∷ xs) ys = ap (λ l. o ∷ l) (for_devices-append xs ys)

  pub for_devices-retain_others :
      (os : List Output) → for_devices (retain_others os) ≡ for_devices os
  unfolding for_devices retain_others is_toggle
  for_devices-retain_others [] = refl
  for_devices-retain_others (Output.keyboard_toggle ∷ os) = for_devices-retain_others os
  for_devices-retain_others (mode_changed name haptic ∷ os) = for_devices-retain_others os
  for_devices-retain_others (Output.trackpad_haptic pad ∷ os) = for_devices-retain_others os
  for_devices-retain_others (o ∷ os) = ap (λ l. o ∷ l) (for_devices-retain_others os)

  -- The others leave alone what is down.
  pub down-for_devices :
      (h : HeldOutput) (os : List Output) (b : Bool) → down h (for_devices os) b ≡ down h os b
  unfolding down for_devices observe
  down-for_devices h [] b = refl
  down-for_devices h (Output.keyboard_toggle ∷ os) b = down-for_devices h os b
  down-for_devices h (mode_changed name haptic ∷ os) b = down-for_devices h os b
  down-for_devices h (Output.trackpad_haptic pad ∷ os) b = down-for_devices h os b
  down-for_devices h (o ∷ os) b = down-for_devices h os (observe h o b)

  pub down-retain_others :
      (h : HeldOutput) (os : List Output) (b : Bool) → down h (retain_others os) b ≡ down h os b
  unfolding down retain_others is_toggle observe
  down-retain_others h [] b = refl
  down-retain_others h (Output.keyboard_toggle ∷ os) b = down-retain_others h os b
  down-retain_others h (o ∷ os) b = down-retain_others h os (observe h o b)
