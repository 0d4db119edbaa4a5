-- ===== src/Ipc/State.antt =====
-- The keyboard's state and what sets it: core/src/ipc.rs, `OskState`. The field `bindings.0`, an
-- array indexed by button, is a list of 30 codes; a write or a read past its end is a panic.
pub mod Bindings
pub mod Session
use Prim.Native.Nat.{bit_and, bit_or}
use steam_controller_daemon.Platform.{Platform}
use steam_controller_daemon.Protocol.Buttons.{Button, index, mask, all}
use steam_controller_daemon.Prelude.Int.{pos}
use steam_controller_daemon.Prelude.Panic.{◌>>=◌}
use steam_controller_daemon.Prelude.{
  ℕ, suc, ◌+◌, ◌%◌, ◌^◌, Bool, true, false, not, ◌&&◌, Option, none, some, List, [], ◌∷◌, length,
  get_elem?, set, fill, replicate, nat_beq, ltb, if◌then◌else◌,
}

abbrev pub osk_click_history_len : ℕ
osk_click_history_len = 16

pub data OskPadSide : Type 0 where
  left right : OskPadSide

-- `slot = value` at an index of an array.
unfoldable pub write {ℓ} : {A : Type ℓ} → List A → ℕ → A → Option (List A)
write slots at value = if ltb at (length slots) then some (set slots at value) else none

module _ ⦃p : Platform⦄ where
  open p use {F32, from_int, KeyCode, code, new_key}

  pub record OskPad : Type 0 where
    pub touched : Bool
    pub pressed : Bool
    pub position : F32 × F32

  pub record OskClick : Type 0 where
    pub sequence : ℕ
    pub pad : OskPadSide
    pub position : F32 × F32
    pub shift_held : Bool

  pub record OskState : Type 0 where
    pub visible : Bool
    pub shift_held : Bool
    pub bindings : List ℕ
    pub active_bindings : ℕ
    pub left_pad : OskPad
    pub right_pad : OskPad
    pub pad_offsets : Option (F32 × F32) × Option (F32 × F32)
    pub session : ℕ
    pub click_sequence : ℕ
    pub click_history_len : ℕ
    pub click_history : List OskClick

  abbrev pub default_pad : OskPad
  default_pad = record {
    touched = false;
    pressed = false;
    position = (from_int (pos 0), from_int (pos 0));
  }

  abbrev pub default_click : OskClick
  default_click = record {
    sequence = 0;
    pad = OskPadSide.left;
    position = (from_int (pos 0), from_int (pos 0));
    shift_held = false;
  }

  -- `OskState::default()`.
  abbrev pub default_state : OskState
  default_state = record {
    visible = false;
    shift_held = false;
    bindings = replicate 30 0;
    active_bindings = 0;
    left_pad = default_pad;
    right_pad = default_pad;
    pad_offsets = (none, none);
    session = 0;
    click_sequence = 0;
    click_history_len = 0;
    click_history = replicate osk_click_history_len default_click;
  }

  -- `self.session.wrapping_add(1)`, with 0 skipped.
  unfoldable pub next_session : ℕ → ℕ
  next_session session = let next = (session + 1) % 2 ^ 64 in if nat_beq next 0 then 1 else next

  unfoldable pub set_visible : OskState → Bool → OskState
  unfolding next_session
  set_visible s visible =
      let opens = visible && not s.visible in
      record s {
        session = if opens then next_session s.session else s.session;
        click_history_len = if opens then 0 else s.click_history_len;
        visible = visible;
        shift_held = false;
        active_bindings = 0;
        left_pad = record s.left_pad { touched = false; pressed = false };
        right_pad = record s.right_pad { touched = false; pressed = false };
        pad_offsets = (none, none);
      }

  -- `OskBindings::get`.
  unfoldable pub get_binding : List ℕ → Button → Option (Option KeyCode)
  unfolding index
  get_binding bindings input = do
    n ← get_elem? bindings (index input)
    some (if nat_beq n 0 then none else some (new_key n))

  -- The loop of `set_bindings`: the array, and the buttons configured.
  unfoldable pub bind_loop : List (Button × KeyCode) → List ℕ → ℕ → Option (List ℕ × ℕ)
  unfolding write index mask
  bind_loop [] slots configured = some (slots, configured)
  bind_loop ((input, key) ∷ pairs) slots configured = do
    slots' ← write slots (index input) (code key)
    bind_loop pairs slots' (bit_or configured (mask input))

  unfoldable pub set_bindings : OskState → List (Button × KeyCode) → Option OskState
  unfolding bind_loop
  set_bindings s pairs = do
    (slots, configured) ← bind_loop pairs (fill s.bindings 0) 0
    some (record s { bindings = slots; active_bindings = bit_and s.active_bindings configured })

  unfoldable pub active_mask : List Button → ℕ → ℕ
  unfolding mask
  active_mask [] active = active
  active_mask (input ∷ inputs) active = active_mask inputs (bit_or active (mask input))

  unfoldable pub set_active_bindings : OskState → List Button → OskState
  unfolding active_mask
  set_active_bindings s inputs = record s { active_bindings = active_mask inputs 0 }
