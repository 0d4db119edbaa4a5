-- ===== src/Protocol/State.antt =====
-- The controller's state as a report carries it: core/src/protocol.rs, `ControllerState` and the
-- types of its fields.
use steam_controller_daemon.Platform.{Platform}
use steam_controller_daemon.Protocol.Buttons.{Buttons}
use steam_controller_daemon.Prelude.Int.{ℤ}
use steam_controller_daemon.Prelude.Eq.{Eq, number_beq_iff}
use steam_controller_daemon.Prelude.{ℕ, zero, suc, ◌≡◌, refl, ◌↔◌, Bool, true, Option, nat_beq}

pub data Trackpad : Type 0 where
  left right : Trackpad

pub data StateFormat : Type 0 where
  standard ble timestamp32_us : StateFormat

module _ where
  format_number : StateFormat → ℕ
  format_number standard = 0
  format_number ble = 1
  format_number timestamp32_us = 2

  format_at : ℕ → StateFormat
  format_at zero = standard
  format_at (suc zero) = ble
  format_at (suc (suc n)) = timestamp32_us

  format_at-number : (f : StateFormat) → format_at (format_number f) ≡ f
  unfolding format_number format_at
  format_at-number standard = refl
  format_at-number ble = refl
  format_at-number timestamp32_us = refl

-- `derive(PartialEq)`.
unfoldable pub format_beq : StateFormat → StateFormat → Bool
unfolding format_number
format_beq f g = nat_beq (format_number f) (format_number g)

pub format_beq_iff : (f g : StateFormat) → (format_beq f g ≡ true) ↔ (f ≡ g)
unfolding format_beq
format_beq_iff = number_beq_iff format_number format_at format_at-number

instance unfoldable pub format_eq : Eq StateFormat
unfolding format_beq
format_eq = record { beq = format_beq; beq_iff = format_beq_iff }

module _ ⦃p : Platform⦄ where
  open p use {F32}

  -- `[f32; 2]` is a pair, `[T; 3]` a triple.
  pub record TouchpadState : Type 0 where
    pub touched : Bool
    pub clicked : Bool
    pub position : F32 × F32

  pub record ControllerState : Type 0 where
    pub format : StateFormat
    pub buttons : Buttons
    pub triggers : F32 × F32
    pub left_stick : F32 × F32
    pub right_stick : F32 × F32
    pub left_pad : TouchpadState
    pub right_pad : TouchpadState
    pub trackpad_timestamp_us : Option ℕ
    pub imu_timestamp_us : ℕ
    pub accel : ℤ × ℤ × ℤ
    pub gyro_raw : ℤ × ℤ × ℤ
    pub gyro : F32 × F32 × F32
