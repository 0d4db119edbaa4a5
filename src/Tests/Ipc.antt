-- ===== src/Tests/Ipc.antt =====
-- The keyboard's state at concrete calls.
use steam_controller_daemon.Protocol.Buttons.{button_x, l4}
use steam_controller_daemon.Ipc.State.{OskPadSide, OskPad, default_state, set_visible, set_bindings}
use steam_controller_daemon.Ipc.State.Bindings.{Binds, set_bindings-Binds}
use steam_controller_daemon.Ipc.State.Session.{Shown, Cleared, set_visible-session}
use steam_controller_daemon.Ipc.Clicks.Read.{Reads}
use steam_controller_daemon.Ipc.Calls.{OskCall, show, bind, sync, touch, run_osk}
use steam_controller_daemon.Ipc.Calls.Sound.{clicks_since-log}
use steam_controller_daemon.Prelude.Panic.{Ensures}
use steam_controller_daemon.Prelude.{
  ◌≡◌, refl, true, false, not, ◌&&◌, List, [], ◌∷◌, length, arith,
}
use steam_controller_daemon.Tests.Sample.{sample}
use Prim.Native.Nat.{min}

abbrev resting : OskPad
resting = record { touched = true; pressed = false; position = (0, 0) }

abbrev pressing : OskPad
pressing = record { touched = true; pressed = true; position = (0, 0) }

-- The keyboard is shown and both pads are pressed, the left one twice.
abbrev three_clicks : List OskCall
three_clicks =
    show true
    ∷ bind ((l4, 125) ∷ (button_x, 14) ∷ [])
    ∷ touch OskPadSide.left pressing true
    ∷ sync true (l4 ∷ [])
    ∷ touch OskPadSide.right pressing true
    ∷ touch OskPadSide.left resting true
    ∷ touch OskPadSide.left pressing true
    ∷ []

clicks_since-log_example :
    Ensures
      (λ (log, recent, s). Reads log recent s (min 2 (length log)))
      (run_osk three_clicks [] 0 default_state)
clicks_since-log_example = clicks_since-log three_clicks 2 (omega arith)

set_bindings-Binds_example :
    Ensures
      (λ s'.
        Binds default_state ((l4, 125) ∷ (button_x, 14) ∷ []) s'
        × (s' ≡ record default_state {
          bindings = s'.bindings;
          active_bindings = s'.active_bindings;
        }))
      (set_bindings default_state ((l4, 125) ∷ (button_x, 14) ∷ []))
set_bindings-Binds_example = set_bindings-Binds default_state ((l4, 125) ∷ (button_x, 14) ∷ []) refl

set_visible-session_example :
    Shown default_state (true && not default_state.visible) (set_visible default_state true)
    × Cleared default_state true (set_visible default_state true)
set_visible-session_example = set_visible-session default_state true (omega arith)
