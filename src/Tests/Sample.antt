-- ===== src/Tests/Sample.antt =====
-- A platform to run examples on: whole numbers in place of `f32`, a key code as itself.
use Prim.Native.Nat.{min, max}
use steam_controller_daemon.Platform.{Platform, IndexMap, assoc_map}
use steam_controller_daemon.Protocol.Buttons.{Button, Buttons, button_eq, insert, no_buttons}
use steam_controller_daemon.Protocol.State.{ControllerState, TouchpadState, standard}
use steam_controller_daemon.Config.{ConfigMaps, string_eq}
use steam_controller_daemon.Mapper.Types.{HeldOutput, held_eq}
use steam_controller_daemon.Prelude.Int.{ℤ, pos, negsuc}
use steam_controller_daemon.Prelude.{
  ℕ, ◌+◌, ◌-◌, ◌*◌, ◌/◌, ◌%◌, ◌^◌, refl, none, List, [], ◌∷◌, false, true, ltb, leb, nat_beq,
}

abbrev magnitude : ℤ → ℕ
magnitude (pos n) = n
magnitude (negsuc n) = 0

instance abbrev pub sample : Platform
sample = record {
  F32 = ℕ;
  from_int = magnitude;
  add = λ a b. a + b;
  sub = λ a b. a - b;
  mul = λ a b. a * b;
  div = λ a b. a / b;
  rem = λ a b. a % b;
  neg = λ a. 0;
  abs = λ a. a;
  hypot = λ a b. a + b;
  atan2 = λ a b. a;
  powf = λ a b. a ^ b;
  powi = λ a b. a ^ magnitude b;
  exp = λ a. a;
  pi = 3;
  float_lt = ltb;
  float_le = leb;
  float_eq = nat_beq;
  is_finite = λ a. true;
  clamp = λ x low high. max low (min x high);
  KeyCode = ℕ;
  new_key = λ n. n;
  code = λ k. k;
  new_key-code = λ k. refl;
  code-new_key = λ n h. refl;
  key_leftshift = 42;
  key_rightshift = 54;
}

instance abbrev pub sample_maps : ConfigMaps
sample_maps = record { osk_map = assoc_map; name_map = assoc_map }

instance abbrev pub sample_held : IndexMap HeldOutput ℕ
sample_held = assoc_map

abbrev pub buttons_with : List Button → Buttons
buttons_with [] = no_buttons
buttons_with (b ∷ bs) = insert (buttons_with bs) b

abbrev pub still_pad : TouchpadState
still_pad = record { touched = false; clicked = false; position = (0, 0) }

-- `state_with` of the source's tests.
abbrev pub state_with : List Button → ControllerState
state_with list = record {
  format = standard;
  buttons = buttons_with list;
  triggers = (0, 0);
  left_stick = (0, 0);
  right_stick = (0, 0);
  left_pad = still_pad;
  right_pad = still_pad;
  trackpad_timestamp_us = none;
  imu_timestamp_us = 0;
  accel = (pos 0, pos 0, pos 0);
  gyro_raw = (pos 0, pos 0, pos 0);
  gyro = (0, 0, 0);
}
