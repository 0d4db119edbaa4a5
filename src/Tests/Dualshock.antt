-- ===== src/Tests/Dualshock.antt =====
-- The emulated gamepad's USB/IP device on concrete requests, after the source's tests.
use steam_controller_daemon.Dualshock.Descriptors.{calibration}
use steam_controller_daemon.Dualshock.Control.{parse_output, control, to_be_bytes}
use steam_controller_daemon.Dualshock.Usbip.{Worker, closed, out_of_fuel, turn, serve}
use steam_controller_daemon.Dualshock.Usbip.Ends.{Turned, turn-Turned, serve-Ends}
use steam_controller_daemon.Prelude.Outcome.{ok}
use steam_controller_daemon.Prelude.{
  ℕ, ◌≡◌, ◌≢◌, refl, some, none, List, [], ◌∷◌, ◌++◌, replicate, arith,
}

-- Transfer 9: the device descriptor, on endpoint 0.
abbrev get_device : List ℕ
get_device =
    to_be_bytes 1
    ++ to_be_bytes 9
    ++ to_be_bytes 0x10001
    ++ to_be_bytes 1
    ++ replicate 8 0
    ++ to_be_bytes 18
    ++ replicate 12 0
    ++ 0x80 ∷ 6 ∷ 0 ∷ 1 ∷ 0 ∷ 0 ∷ 18 ∷ 0 ∷ []

abbrev waiting : Worker
waiting = record { input = get_device; replies = []; rumble = (0, 0); counter = 0 }

rumble_run : parse_output (5 ∷ 1 ∷ 0 ∷ 0 ∷ 0x12 ∷ 0x34 ∷ []) ≡ some (0x3434, 0x1212)
unfolding parse_output
rumble_run = refl

no_rumble_run : parse_output (5 ∷ 1 ∷ 0 ∷ 0 ∷ 0x12 ∷ []) ≡ none
unfolding parse_output
no_rumble_run = refl

calibration_run :
    control (0xa1 ∷ 1 ∷ 2 ∷ 3 ∷ 0 ∷ 0 ∷ 37 ∷ 0 ∷ []) [] (0, 0) ≡ ok (calibration, (0, 0))
unfolding control
calibration_run = refl

serve_run : (serve 2 (λ n. replicate 64 0) waiting).0 ≡ closed
unfolding serve
serve_run = refl

turn-Turned_example : Turned waiting (turn (replicate 64 0) waiting)
turn-Turned_example = turn-Turned (replicate 64 0) waiting

serve-Ends_example : (serve 49 (λ n. replicate 64 0) waiting).0 ≢ out_of_fuel
serve-Ends_example = serve-Ends 49 (λ n. replicate 64 0) waiting (omega arith)
