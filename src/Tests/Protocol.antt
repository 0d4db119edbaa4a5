-- ===== src/Tests/Protocol.antt =====
-- The reports at concrete bytes, and a trackpad that ticks.
use steam_controller_daemon.Protocol.State.{standard, ble, timestamp32_us, TouchpadState, format_eq}
use steam_controller_daemon.Protocol.Haptic.{Haptic, log_sweep, encode}
use steam_controller_daemon.Protocol.Haptic.Decode.{decode, sent, decode-encode}
use steam_controller_daemon.Protocol.Report.{parse_report}
use steam_controller_daemon.Protocol.Report.Total.{ReportInRange, parse_report-InRange}
use steam_controller_daemon.Mapper.Types.{TrackpadHapticState}
use steam_controller_daemon.Mapper.Haptics.{timestamp_delta_us}
use steam_controller_daemon.Mapper.Haptics.Ticks.{timestamp_delta_us-elapsed}
use steam_controller_daemon.Prelude.Int.{negsuc}
use steam_controller_daemon.Prelude.Panic.{Ensures}
use steam_controller_daemon.Prelude.{
  ℕ, ◌+◌, ◌*◌, ◌%◌, ◌^◌, ◌≡◌, refl, true, some, List, [], ◌∷◌, replicate, arith,
}
use steam_controller_daemon.Tests.Sample.{sample}

abbrev sweep : Haptic
sweep = log_sweep (negsuc 14) 1000 200 40000

decode-encode_example : decode (sent (encode sweep (replicate 10 7))) ≡ some sweep
decode-encode_example = decode-encode sweep (replicate 10 7) refl (omega arith)

-- The idle report of the source's tests.
abbrev idle_report : List ℕ
idle_report =
    0x42 ∷ 0xcc ∷ 0x00 ∷ 0x00 ∷ 0x00 ∷ 0x00 ∷ 0x00 ∷ 0x00 ∷ 0x00 ∷ 0x00 ∷ 0xde ∷ 0x00 ∷ 0x50 ∷ 0x01
    ∷ 0x88 ∷ 0xff ∷ 0xe5 ∷ 0xfe ∷ 0x00 ∷ 0x00 ∷ 0x00 ∷ 0x00 ∷ 0x00 ∷ 0x00 ∷ 0x00 ∷ 0x00 ∷ 0x00
    ∷ 0x00 ∷ 0x00 ∷ 0x00 ∷ 0x5a ∷ 0xa6 ∷ 0x08 ∷ 0x00 ∷ 0x3f ∷ 0x03 ∷ 0xe7 ∷ 0x38 ∷ 0x0e ∷ 0x1a
    ∷ 0x52 ∷ 0xfe ∷ 0x13 ∷ 0x01 ∷ 0x79 ∷ 0xfc ∷ 0x5d ∷ 0x67 ∷ 0x87 ∷ 0x3b ∷ 0x05 ∷ 0xe8 ∷ 0x41
    ∷ 0xd8 ∷ []

parse_report-InRange_example : Ensures (ReportInRange idle_report) (parse_report idle_report)
parse_report-InRange_example = parse_report-InRange idle_report (omega arith)

timestamp_delta_us-elapsed_example :
    (timestamp_delta_us standard ((4294967290 + 20) % 2 ^ 32) 4294967290 ≡ 20)
    × (timestamp_delta_us ble ((4294967290 + 20) % 2 ^ 32) 4294967290 ≡ 20)
    × (timestamp_delta_us timestamp32_us ((65530 + 10) % 2 ^ 16 * 32) (65530 * 32) ≡ 10 * 32)
timestamp_delta_us-elapsed_example =
    timestamp_delta_us-elapsed 4294967290 20 65530 10 (omega arith) (omega arith) (omega arith)
      (omega arith)

-- In whole numbers every travel constant is 0.
abbrev touching : TouchpadState
touching = record { touched = true; clicked = true; position = (0, 0) }

abbrev ticked : TrackpadHapticState
ticked = record { previous_position = some (0, 0); progress = 0; last_tick = some (standard, 5) }
