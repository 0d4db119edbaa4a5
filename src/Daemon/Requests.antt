-- ===== src/Daemon/Requests.antt =====
-- The requests of the on-screen keyboard: daemon/src/main.rs, `Request::OskHide` and
-- `Request::Key`. Time is a number of milliseconds on a clock that only goes forward.
pub mod Guards
use steam_controller_daemon.Platform.{Platform, IndexMap}
use steam_controller_daemon.Config.Parse.Key.{is_keyboard_key}
use steam_controller_daemon.Config.{ConfigMaps, string_eq}
use steam_controller_daemon.Protocol.Buttons.{button_eq}
use steam_controller_daemon.Ipc.State.{OskState, set_visible, set_active_bindings}
use steam_controller_daemon.Mapper.Types.{HeldOutput, held_eq, Mapper}
use steam_controller_daemon.Mapper.Osk.{active_osk_bindings, keyboard_shifted}
use steam_controller_daemon.Mapper.Switch.{suspend}
use steam_controller_daemon.Daemon.{Emitted, emit}
use steam_controller_daemon.Prelude.Panic.{◌>>=◌, Ensures, Ensures-bind}
use steam_controller_daemon.Prelude.{
  ℕ, ◌-◌, ◌≡◌, ◌<◌, ◌≤◌, refl, ap, Bool, true, false, not, ◌&&◌, ◌||◌, Option, none, some, List, [],
  ltb, leb, nat_beq, if◌then◌else◌, ◌↔◌, ◌⊎◌, inl, inr, arith, Bool-cases,
}

module _ ⦃p : Platform⦄ where
  open p use {KeyCode, code, new_key}

  pub data Answer : Type 0 where
    done no_session invalid_code : Answer

  -- `keyboard_closed_at.is_some_and(|closed| closed.elapsed() < Duration::from_secs(1))`.
  unfoldable pub just_closed : Option ℕ → ℕ → Bool
  just_closed none now = false
  just_closed (some closed) now = ltb (now - closed) 1000

  unfoldable pub stale : OskState → Option ℕ → ℕ → ℕ → Bool
  unfolding just_closed
  stale keyboard closed_at now session =
      nat_beq session 0
      || not (nat_beq session keyboard.session)
      || (not keyboard.visible && not (just_closed closed_at now))

  unfoldable pub hide_refused : OskState → ℕ → Bool
  hide_refused keyboard session =
      nat_beq session 0 || not (nat_beq session keyboard.session) || not keyboard.visible

  -- The answer to `Request::Key`, and the key that is typed.
  unfoldable pub key_request :
      OskState
      → Option ℕ
      → (now number : ℕ) → (shift : Bool) → (session : ℕ) → Answer × Option (KeyCode × Bool)
  unfolding stale is_keyboard_key
  key_request keyboard closed_at now number shift session =
      if stale keyboard closed_at now session
      then (no_session, none)
      else if not (is_keyboard_key (new_key number))
      then (invalid_code, none)
      else (done, some (new_key number, shift))

module _ ⦃p : Platform⦄ ⦃maps : ConfigMaps⦄ ⦃held_map : IndexMap HeldOutput ℕ⦄ where
  unfoldable pub sync_keyboard : Mapper → OskState → OskState
  unfolding set_active_bindings active_osk_bindings keyboard_shifted
  sync_keyboard m keyboard =
      if keyboard.visible
      then record (set_active_bindings keyboard (active_osk_bindings m)) {
        shift_held = keyboard_shifted m;
      }
      else keyboard

  pub record Hidden : Type 0 where
    pub answer : Answer
    pub emitted : Emitted
    pub keyboard : OskState
    pub closed_at : Option ℕ

  -- `Request::OskHide`.
  unfoldable pub hide_request : Mapper → OskState → Option ℕ → (session : ℕ) → Option Hidden
  unfolding suspend emit set_visible sync_keyboard hide_refused
  hide_request m keyboard closed_at session =
      if hide_refused keyboard session
      then some (record {
        answer = no_session;
        emitted = record { mapper = m; keyboard = keyboard; drained = []; effects = [] };
        keyboard = keyboard;
        closed_at = closed_at;
      })
      else (do
        e ← emit (suspend m []).0 keyboard (suspend m []).1
        some (record {
          answer = done;
          emitted = e;
          keyboard = sync_keyboard e.mapper (set_visible e.keyboard false);
          closed_at = none;
        }))
