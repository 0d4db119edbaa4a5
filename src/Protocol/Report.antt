-- ===== src/Protocol/Report.antt =====
-- core/src/protocol.rs: `parse_report`, `parse_state` and the setting reports. The outer `none` is a
-- panic (an index out of range), the inner one a report that is not understood.
pub mod Total
use steam_controller_daemon.Platform.{Platform}
use steam_controller_daemon.Protocol.Buttons.{
  Buttons, Button, from_bits, contains, left_pad_touch, left_pad_click, right_pad_touch,
  right_pad_click,
}
use steam_controller_daemon.Protocol.State.{
  Trackpad, StateFormat, standard, ble, timestamp32_us, format_eq, TouchpadState, ControllerState,
}
use steam_controller_daemon.Protocol.Bytes.{
  le_u16, le_u32, le_i16, saturating_neg, to_le_bytes, copy_from_slice,
}
use steam_controller_daemon.Prelude.Int.{ℤ, pos, negsuc}
use steam_controller_daemon.Prelude.Panic.{◌>>=◌}
use steam_controller_daemon.Prelude.{
  ℕ, zero, suc, ◌+◌, ◌-◌, ◌*◌, Bool, true, false, ◌&&◌, ◌||◌, Option, none, some, List, [], ◌∷◌,
  length, get_elem?, replicate, set, ltb, leb, nat_beq, if◌then◌else◌, ◌==◌,
}

module _ ⦃p : Platform⦄ where
  open p use {F32, from_int, mul, div, neg, pi}

  pub data Report : Type 0 where
    state : ControllerState → Report
    battery : (percent : ℕ) (charging : Bool) → Report
    disconnected : Report

  unfoldable pub signed_unit : ℤ → F32
  signed_unit (pos n) = div (from_int (pos n)) (from_int (pos 32767))
  signed_unit (negsuc n) = div (from_int (negsuc n)) (from_int (pos 32768))

  -- `value.max(0)`.
  unfoldable pub trigger_unit : ℤ → F32
  trigger_unit (pos n) = div (from_int (pos n)) (from_int (pos 32767))
  trigger_unit (negsuc n) = div (from_int (pos 0)) (from_int (pos 32767))

  -- `2000.0 * (PI / 180.0) / 32768.0`.
  unfoldable pub gyro_scale : F32
  gyro_scale = div (mul (from_int (pos 2000)) (div pi (from_int (pos 180)))) (from_int (pos 32768))

  -- Two coordinates, the second one negated.
  unfoldable pub read_point : List ℕ → ℕ → Option (F32 × F32)
  unfolding signed_unit
  read_point report offset = do
    x ← le_i16 report offset
    y ← le_i16 report (offset + 2)
    some (signed_unit x, neg (signed_unit y))

  unfoldable pub read_triggers : List ℕ → Option (F32 × F32)
  unfolding trigger_unit
  read_triggers report = do
    l ← le_i16 report 6
    r ← le_i16 report 8
    some (trigger_unit l, trigger_unit r)

  -- Three axes, in the controller's order.
  unfoldable pub read_axes : List ℕ → ℕ → Option (ℤ × ℤ × ℤ)
  read_axes report offset = do
    x ← le_i16 report offset
    z ← le_i16 report (offset + 4)
    y ← le_i16 report (offset + 2)
    some (x, z, saturating_neg y)

  -- The pads' offset, their timestamp and that of the motion sensor.
  unfoldable pub read_timestamps : List ℕ → StateFormat → Option (ℕ × Option ℕ × ℕ)
  unfolding format_eq
  read_timestamps report format =
      if format == timestamp32_us
      then (do
        pads ← le_u16 report 18
        imu ← le_u16 report 32
        some (20, some (pads * 32), imu * 32))
      else (do imu ← le_u32 report 30; some (18, none, imu))

  unfoldable pub read_pad : List ℕ → ℕ → Buttons → Button → Button → Option TouchpadState
  unfolding contains
  read_pad report offset buttons touch click = do
    position ← read_point report offset
    some (record {
      touched = contains buttons touch;
      clicked = contains buttons click;
      position = position;
    })

  unfoldable pub scale_gyro : ℤ × ℤ × ℤ → F32 × F32 × F32
  unfolding gyro_scale
  scale_gyro (x, y, z) =
      (mul (from_int x) gyro_scale, mul (from_int y) gyro_scale, mul (from_int z) gyro_scale)

  -- `parse_state` after its length test.
  unfoldable pub read_state : List ℕ → StateFormat → Option ControllerState
  read_state report format = do
    bits ← le_u32 report 2
    (pad_offset, trackpad_timestamp_us, imu_timestamp_us) ← read_timestamps report format
    accel ← read_axes report 34
    gyro_raw ← read_axes report 40
    triggers ← read_triggers report
    left_stick ← read_point report 10
    right_stick ← read_point report 14
    left_pad ← read_pad report pad_offset (from_bits bits) left_pad_touch left_pad_click
    right_pad ← read_pad report (pad_offset + 6) (from_bits bits) right_pad_touch right_pad_click
    some (record {
      format = format;
      buttons = from_bits bits;
      triggers = triggers;
      left_stick = left_stick;
      right_stick = right_stick;
      left_pad = left_pad;
      right_pad = right_pad;
      trackpad_timestamp_us = trackpad_timestamp_us;
      imu_timestamp_us = imu_timestamp_us;
      accel = accel;
      gyro_raw = gyro_raw;
      gyro = scale_gyro gyro_raw;
    })

  unfoldable pub parse_state : List ℕ → StateFormat → Option (Option Report)
  parse_state report format =
      if ltb (length report) 46
      then some none
      else (do s ← read_state report format; some (some (state s)))

  -- `report.len() >= 3` comes before the two reads.
  unfoldable pub parse_battery : List ℕ → Option (Option Report)
  parse_battery report =
      if leb 3 (length report)
      then (do
        percent ← get_elem? report 2
        charging ← get_elem? report 1
        some (
            some (
              battery (if leb percent 100 then percent else 100)
                (nat_beq charging 2 || nat_beq charging 4))))
      else some none

  -- `report.get(1) == Some(&1)`.
  unfoldable pub parse_disconnect : List ℕ → Option (Option Report)
  parse_disconnect report = elim (get_elem? report 1) [
    | none ↦ some none
    | some b ↦ if nat_beq b 1 then some (some disconnected) else some none
  ]

  unfoldable pub parse_command : ℕ → List ℕ → Option (Option Report)
  parse_command command report =
      if nat_beq command 0x42
      then parse_state report standard
      else if nat_beq command 0x43
      then parse_battery report
      else if nat_beq command 0x45
      then parse_state report ble
      else if nat_beq command 0x46 || nat_beq command 0x79
      then parse_disconnect report
      else if nat_beq command 0x47
      then parse_state report timestamp32_us
      else some none

  unfoldable pub parse_report : List ℕ → Option (Option Report)
  parse_report [] = some none
  parse_report (command ∷ rest) = parse_command command (command ∷ rest)

-- `setting_report`: 64 bytes.
unfoldable pub setting_report : ℕ → ℕ → List ℕ
unfolding to_le_bytes copy_from_slice
setting_report setting value =
    let header = copy_from_slice (replicate 64 0) 0 (1 ∷ 0x87 ∷ 3 ∷ setting ∷ []) in
    copy_from_slice header 4 (to_le_bytes value)

unfoldable pub lizard_mode_report : Bool → List ℕ
unfolding setting_report
lizard_mode_report enabled = setting_report 9 (if enabled then 1 else 0)

unfoldable pub imu_mode_report : Bool → List ℕ
unfolding setting_report
imu_mode_report enabled = setting_report 48 (if enabled then 0x18 else 0)

unfoldable pub trackpad_click_pressure_report : Trackpad → ℕ → List ℕ
unfolding setting_report
trackpad_click_pressure_report Trackpad.left pressure = setting_report 52 pressure
trackpad_click_pressure_report Trackpad.right pressure = setting_report 53 pressure
