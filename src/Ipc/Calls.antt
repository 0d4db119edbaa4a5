-- ===== src/Ipc/Calls.antt =====
-- The daemon's calls on the keyboard's state, in daemon/src/main.rs: `emit` opens and closes it,
-- the start and a reload set its bindings, `sync_keyboard` its shift and active buttons,
-- and a controller state updates its pads.
pub mod Sound
use steam_controller_daemon.Platform.{Platform}
use steam_controller_daemon.Protocol.Buttons.{Button, index, mask}
use steam_controller_daemon.Ipc.State.{
  OskPadSide, OskPad, OskClick, OskState, set_visible, set_bindings, set_active_bindings,
  default_state, write,
}
use steam_controller_daemon.Ipc.State.Bindings.{Binds, set_bindings-Binds}
use steam_controller_daemon.Ipc.Clicks.{new_click, record_click}
use steam_controller_daemon.Ipc.Clicks.History.{Kept, Kept-default, Kept-of_same, record_click-Kept}
use steam_controller_daemon.Ipc.Clicks.Read.{Reads, clicks_since-Reads}
use steam_controller_daemon.Ipc.Pad.{moved_pad, pad_of, offset_of, with_pad, limited, update_pad}
use steam_controller_daemon.Prelude.Panic.{◌>>=◌, Ensures, Ensures-bind, Ensures-imp}
use steam_controller_daemon.Prelude.{
  ℕ, ◌+◌, ◌%◌, ◌^◌, ◌<◌, ◌≤◌, ◌≡◌, refl, ap, ◌∙◌, sym, Bool, true, false, not, ◌&&◌, ◌||◌, Option,
  none, some, List, [], ◌∷◌, length, if◌then◌else◌, arith, Bool-cases, inl, inr,
}

module _ ⦃p : Platform⦄ where
  open p use {F32, KeyCode}

  pub data OskCall : Type 0 where
    show : (visible : Bool) → OskCall
    bind : (pairs : List (Button × KeyCode)) → OskCall
    sync : (shifted : Bool) (inputs : List Button) → OskCall
    touch : (side : OskPadSide) (pad : OskPad) (record_rising_edge : Bool) → OskCall

  unfoldable pub call_osk : OskCall → OskState → Option OskState
  unfolding set_visible set_bindings set_active_bindings update_pad
  call_osk (show visible) s = some (set_visible s visible)
  call_osk (bind pairs) s = set_bindings s pairs
  call_osk (sync shifted inputs) s =
      some (record (set_active_bindings s inputs) { shift_held = shifted })
  call_osk (touch side pad record_rising_edge) s = update_pad s side pad record_rising_edge

  -- A click is numbered by the clicks before it, and is where the pad is then.
  abbrev pub logged_click : List OskClick → OskState → OskState → OskPadSide → OskClick
  logged_click log s s' side = record {
    sequence = length log % 2 ^ 64;
    pad = side;
    position = (pad_of s' side).position;
    shift_held = s.shift_held;
  }

  -- The log, the newest click first: a click is a press that the pad did not have before, where
  -- the daemon asks for it.
  abbrev pub log_call : OskCall → OskState → OskState → List OskClick → List OskClick
  log_call (touch side pad record_rising_edge) s s' log =
      if record_rising_edge && pad.pressed && not (pad_of s side).pressed
      then logged_click log s s' side ∷ log
      else log
  log_call _ s s' log = log

  -- How many clicks there were since the keyboard was last opened.
  abbrev pub recent_call : OskCall → OskState → ℕ → ℕ
  recent_call (show visible) s recent = if visible && not s.visible then 0 else recent
  recent_call (touch side pad record_rising_edge) s recent =
      if record_rising_edge && pad.pressed && not (pad_of s side).pressed
      then recent + 1
      else recent
  recent_call _ s recent = recent

  -- The calls in order, with the log and the number of recent clicks beside the state.
  unfoldable pub run_osk :
      List OskCall → List OskClick → ℕ → OskState → Option (List OskClick × ℕ × OskState)
  unfolding call_osk
  run_osk [] log recent s = some (log, recent, s)
  run_osk (call ∷ calls) log recent s = do
    s' ← call_osk call s
    run_osk calls (log_call call s s' log) (recent_call call s recent) s'
