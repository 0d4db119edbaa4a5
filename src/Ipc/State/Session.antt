-- ===== src/Ipc/State/Session.antt =====
-- The keyboard's session, by which the daemon tells a client's old keyboard from the one shown.
use steam_controller_daemon.Platform.{Platform}
use steam_controller_daemon.Ipc.State.{OskState, next_session, set_visible}
use steam_controller_daemon.Prelude.{
  ℕ, ◌^◌, ◌<◌, ◌≡◌, ◌≢◌, refl, Bool, none, false, not, ◌&&◌, if◌then◌else◌, arith, Bool-cases, inl,
  inr,
}

module _ ⦃p : Platform⦄ where
  next_session-fresh :
      (session : ℕ)
      → session < 2 ^ 64
      → (next_session session ≢ 0)
        × (next_session session ≢ session)
        × (next_session session < 2 ^ 64)
  unfolding next_session
  next_session-fresh session h = (ground arith, ground arith, ground arith)

  -- What `set_visible` does to the session and the number of clicks held.
  abbrev pub Shown : OskState → Bool → OskState → Type 0
  Shown s opens s' =
      if opens
      then (s'.session ≢ 0)
        × (s'.session ≢ s.session)
        × (s'.session < 2 ^ 64)
        × (s'.click_history_len ≡ 0)
      else (s'.session ≡ s.session) × (s'.click_history_len ≡ s.click_history_len)

  -- The shift, the active bindings, the touches and the offsets are reset; the positions, the
  -- bindings, the ring of clicks and its counter stay.
  abbrev pub Cleared : OskState → Bool → OskState → Type 0
  Cleared s visible s' = s' ≡ record s {
    visible = visible;
    session = s'.session;
    click_history_len = s'.click_history_len;
    shift_held = false;
    active_bindings = 0;
    left_pad = record s.left_pad { touched = false; pressed = false };
    right_pad = record s.right_pad { touched = false; pressed = false };
    pad_offsets = (none, none);
  }

  -- From a state whose session is a 64-bit number: showing a hidden keyboard gives it a session
  -- that is not 0 and not the one before, and holds no clicks; hiding it, or showing one that is
  -- visible, keeps its session and the number of clicks held. In all cases the state says whether it
  -- is visible, no shift is held and no binding is active, no pad is touched, pressed or offset, and
  -- everything else, the ring of clicks and their counter included, stays.
  pub set_visible-session :
      (s : OskState) (visible : Bool)
      → s.session < 2 ^ 64
      → Shown s (visible && not s.visible) (set_visible s visible)
        × Cleared s visible (set_visible s visible)
  unfolding set_visible
  set_visible-session s visible h = elim (Bool-cases (visible && not s.visible)) [
    | inl e ↦
        let (nonzero, fresh, small) = next_session-fresh s.session h in
        rw e ((nonzero, fresh, small, refl), refl)
    | inr e ↦ rw e ((refl, refl), refl)
  ]
