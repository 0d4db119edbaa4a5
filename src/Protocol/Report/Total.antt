-- ===== src/Protocol/Report/Total.antt =====
-- The parser's reads and the ranges of what it returns: core/src/protocol.rs.
use steam_controller_daemon.Platform.{Platform}
use steam_controller_daemon.Protocol.Buttons.{
  Buttons, Button, from_bits, left_pad_touch, left_pad_click, right_pad_touch, right_pad_click,
}
use steam_controller_daemon.Protocol.State.{
  StateFormat, standard, ble, timestamp32_us, format_eq, ControllerState,
}
use steam_controller_daemon.Protocol.Bytes.{le_u16, le_u32, le_i16, as_i16, saturating_neg}
use steam_controller_daemon.Protocol.Report.{
  Report, state, battery, disconnected, read_point, read_triggers, read_axes, read_timestamps,
  read_pad, read_state, parse_state, parse_battery, parse_disconnect, parse_command, parse_report,
}
use steam_controller_daemon.Prelude.Int.{ℤ, pos, negsuc}
use steam_controller_daemon.Prelude.Panic.{Ensures, Ensures-bind}
use steam_controller_daemon.Prelude.{
  ℕ, zero, suc, ◌+◌, ◌<◌, ◌≤◌, ◌^◌, Option, none, some, List, [], ◌∷◌, length, get_elem?,
  get_elem?-lt, All, All-get_elem?, ltb, leb, nat_beq, ◌==◌, Bool-cases, Option-cases, inl, inr,
  arith,
}

-- The report is made of bytes.
abbrev pub IsBytes : List ℕ → Type 0
IsBytes = All (λ b. b < 256)

module _ (report : List ℕ) (bytes : IsBytes report) where
  byte-lt : (i : ℕ) → i < length report → Ensures (λ b. b < 256) (get_elem? report i)
  byte-lt i h =
      let (b, e) = get_elem?-lt report i h in rw e (All-get_elem? (λ x. x < 256) report i b bytes e)

  pub le_u16-lt :
      (offset : ℕ) → offset + 1 < length report → Ensures (λ n. n < 2 ^ 16) (le_u16 report offset)
  unfolding le_u16
  le_u16-lt offset h =
      Ensures-bind (λ b. b < 256) _ _ _ (byte-lt offset (omega arith))
        (λ low hl.
          Ensures-bind (λ b. b < 256) _ _ _ (byte-lt (offset + 1) h) (λ high hh. omega arith))

  le_u32-lt :
      (offset : ℕ) → offset + 3 < length report → Ensures (λ n. n < 2 ^ 32) (le_u32 report offset)
  unfolding le_u32
  le_u32-lt offset h =
      Ensures-bind (λ n. n < 2 ^ 16) _ _ _ (le_u16-lt offset (omega arith))
        (λ low hl.
          Ensures-bind (λ n. n < 2 ^ 16) _ _ _ (le_u16-lt (offset + 2) (omega arith))
            (λ high hh. omega arith))

abbrev pub IsI16 : ℤ → Type 0
IsI16 (pos n) = n < 32768
IsI16 (negsuc n) = n < 32768

abbrev pub AreI16 : ℤ × ℤ × ℤ → Type 0
AreI16 (x, y, z) = IsI16 x × IsI16 y × IsI16 z

as_i16-IsI16 : (n : ℕ) → n < 2 ^ 16 → IsI16 (as_i16 n)
unfolding as_i16
as_i16-IsI16 n h = elim (Bool-cases (ltb n 32768)) [
  | inl e ↦ rw e (ground arith)
  | inr e ↦ rw e (ground arith)
]

-- `-32768` has no negative: it becomes 32767.
pub saturating_neg-IsI16 : (z : ℤ) → IsI16 z → IsI16 (saturating_neg z)
unfolding saturating_neg
saturating_neg-IsI16 (pos zero) h = h
saturating_neg-IsI16 (pos (suc n)) h = omega arith
saturating_neg-IsI16 (negsuc n) h = elim (Bool-cases (ltb n 32767)) [
  | inl e ↦ rw e (ground arith)
  | inr e ↦ rw e (omega arith)
]

module _ ⦃p : Platform⦄ where
  open p use {F32}

  abbrev pub IsTimestamp : Option ℕ → Type 0
  IsTimestamp none = Unit {0}
  IsTimestamp (some t) = t < 2 ^ 32

  -- The fields of a state have the values of their machine types.
  abbrev pub StateInRange : ControllerState → Type 0
  StateInRange s =
      (s.buttons.bits < 2 ^ 32)
      × IsTimestamp s.trackpad_timestamp_us
      × (s.imu_timestamp_us < 2 ^ 32)
      × AreI16 s.accel
      × AreI16 s.gyro_raw

  -- A state comes from at least 46 bytes, and a charge is a percentage.
  abbrev pub ReportInRange : List ℕ → Option Report → Type 0
  ReportInRange bytes none = Unit {0}
  ReportInRange bytes (some disconnected) = Unit {0}
  ReportInRange bytes (some (battery percent charging)) = percent ≤ 100
  ReportInRange bytes (some (state s)) = (46 ≤ length bytes) × StateInRange s

  module _ (report : List ℕ) (bytes : IsBytes report) where
    le_i16-IsI16 : (offset : ℕ) → offset + 1 < length report → Ensures IsI16 (le_i16 report offset)
    unfolding le_i16
    le_i16-IsI16 offset h =
        Ensures-bind (λ n. n < 2 ^ 16) _ _ _ (le_u16-lt report bytes offset h)
          (λ raw lt. as_i16-IsI16 raw lt)

    read_point-total :
        (offset : ℕ)
        → offset + 3 < length report
        → Ensures (λ point. Unit {0}) (read_point report offset)
    unfolding read_point
    read_point-total offset h =
        Ensures-bind IsI16 _ _ _ (le_i16-IsI16 offset (omega arith))
          (λ x hx. Ensures-bind IsI16 _ _ _ (le_i16-IsI16 (offset + 2) (omega arith)) (λ y hy. tt))

    read_triggers-total : 9 < length report → Ensures (λ triggers. Unit {0}) (read_triggers report)
    unfolding read_triggers
    read_triggers-total h =
        Ensures-bind IsI16 _ _ _ (le_i16-IsI16 6 (omega arith))
          (λ x hx. Ensures-bind IsI16 _ _ _ (le_i16-IsI16 8 (omega arith)) (λ y hy. tt))

    read_axes-AreI16 :
        (offset : ℕ) → offset + 5 < length report → Ensures AreI16 (read_axes report offset)
    unfolding read_axes
    read_axes-AreI16 offset h =
        Ensures-bind IsI16 AreI16 _ _ (le_i16-IsI16 offset (omega arith)) (λ x hx.
          Ensures-bind IsI16 AreI16 _ _ (le_i16-IsI16 (offset + 4) (omega arith)) (λ z hz.
            Ensures-bind IsI16 AreI16 _ _ (le_i16-IsI16 (offset + 2) (omega arith))
              (λ y hy. (hx, hz, saturating_neg-IsI16 y hy))))

    -- The pads stand at 18 or 20.
    abbrev TimestampsInRange : ℕ × Option ℕ × ℕ → Type 0
    TimestampsInRange (offset, pads, imu) = (offset ≤ 20) × IsTimestamp pads × (imu < 2 ^ 32)

    read_timestamps-InRange :
        (format : StateFormat)
        → 46 ≤ length report
        → Ensures TimestampsInRange (read_timestamps report format)
    unfolding read_timestamps
    read_timestamps-InRange format h = elim (Bool-cases (format == timestamp32_us)) [
      | inl e ↦
          rw (e, read_timestamps)
            (Ensures-bind (λ n. n < 2 ^ 16) TimestampsInRange _ _
              (le_u16-lt report bytes 18 (omega arith))
              (λ pads hp.
                Ensures-bind (λ n. n < 2 ^ 16) TimestampsInRange _ _
                  (le_u16-lt report bytes 32 (omega arith))
                  (λ imu hi. (omega arith, omega arith, omega arith))))
      | inr e ↦
          rw (e, read_timestamps)
            (Ensures-bind (λ n. n < 2 ^ 32) TimestampsInRange _ _
              (le_u32-lt report bytes 30 (omega arith)) (λ imu hi. (omega arith, tt, hi)))
    ]

    read_pad-total :
        (offset : ℕ) (buttons : Buttons) (touch click : Button)
        → offset + 3 < length report
        → Ensures (λ pad. Unit {0}) (read_pad report offset buttons touch click)
    unfolding read_pad
    read_pad-total offset buttons touch click h =
        Ensures-bind (λ point. Unit {0}) _ _ _ (read_point-total offset h) (λ point _. tt)

    read_state-InRange :
        (format : StateFormat)
        → 46 ≤ length report
        → Ensures StateInRange (read_state report format)
    unfolding read_state from_bits
    read_state-InRange format h =
        Ensures-bind (λ n. n < 2 ^ 32) StateInRange _ _ (le_u32-lt report bytes 2 (omega arith))
          (λ bits hb.
            Ensures-bind TimestampsInRange StateInRange _ _ (read_timestamps-InRange format h)
              (λ (pad_offset, pads, imu) (ho, hp, hi).
                Ensures-bind AreI16 StateInRange _ _ (read_axes-AreI16 34 (omega arith))
                  (λ accel ha.
                    Ensures-bind AreI16 StateInRange _ _ (read_axes-AreI16 40 (omega arith))
                      (λ gyro hg.
                        Ensures-bind (λ _. Unit {0}) StateInRange _ _
                          (read_triggers-total (omega arith))
                          (λ _ _.
                            Ensures-bind (λ _. Unit {0}) StateInRange _ _
                              (read_point-total 10 (omega arith))
                              (λ _ _.
                                Ensures-bind (λ _. Unit {0}) StateInRange _ _
                                  (read_point-total 14 (omega arith))
                                  (λ _ _.
                                    Ensures-bind (λ _. Unit {0}) StateInRange _ _
                                      (read_pad-total pad_offset (from_bits bits) left_pad_touch
                                        left_pad_click (omega arith))
                                      (λ _ _.
                                        Ensures-bind (λ _. Unit {0}) StateInRange _ _
                                          (read_pad-total (pad_offset + 6) (from_bits bits)
                                            right_pad_touch right_pad_click (omega arith))
                                          (λ _ _. (hb, hp, hi, ha, hg))))))))))

    parse_state-InRange :
        (format : StateFormat) → Ensures (ReportInRange report) (parse_state report format)
    unfolding parse_state
    parse_state-InRange format = elim (Bool-cases (ltb (length report) 46)) [
      | inl e ↦ rw (e, parse_state) tt
      | inr e ↦
          let h : 46 ≤ length report = ground arith in
          rw (e, parse_state)
            (Ensures-bind StateInRange (ReportInRange report) _ _ (read_state-InRange format h)
              (λ s r. (h, r)))
    ]

    parse_battery-InRange : Ensures (ReportInRange report) (parse_battery report)
    unfolding parse_battery
    parse_battery-InRange = elim (Bool-cases (leb 3 (length report))) [
      | inr e ↦ rw (e, parse_battery) tt
      | inl e ↦
          let (percent, e2) = get_elem?-lt report 2 (ground arith) in
          let (charging, e1) = get_elem?-lt report 1 (ground arith) in
          rw (e, e2, e1, parse_battery) (ground arith)
    ]

    parse_disconnect-InRange : Ensures (ReportInRange report) (parse_disconnect report)
    unfolding parse_disconnect
    parse_disconnect-InRange = elim (Option-cases (get_elem? report 1)) [
      | inl e ↦ rw (e, parse_disconnect) tt
      | inr (b, e) ↦ elim (Bool-cases (nat_beq b 1)) [
        | inl q ↦ rw (e, q, parse_disconnect) tt
        | inr q ↦ rw (e, q, parse_disconnect) tt
      ]
    ]

    parse_command-InRange :
        (command : ℕ) → Ensures (ReportInRange report) (parse_command command report)
    unfolding parse_command
    parse_command-InRange command = ground (
      arith,
      parse_state-InRange standard,
      parse_state-InRange ble,
      parse_state-InRange timestamp32_us,
      parse_battery-InRange,
      parse_disconnect-InRange,
    )

  -- For any list of bytes, `parse_report` does not read out of range. A state that it returns comes
  -- from at least 46 bytes, with buttons and timestamps below 2 ^ 32 and the motion axes in `i16`; a
  -- charge that it returns is at most 100.
  pub parse_report-InRange :
      (report : List ℕ) → IsBytes report → Ensures (ReportInRange report) (parse_report report)
  unfolding parse_report
  parse_report-InRange [] bytes = tt
  parse_report-InRange (command ∷ rest) bytes = parse_command-InRange (command ∷ rest) bytes command
