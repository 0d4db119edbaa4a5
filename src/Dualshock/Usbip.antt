-- ===== src/Dualshock/Usbip.antt =====
-- The USB/IP device of the emulated gamepad: daemon/src/gamepad/dualshock/usbip.rs. The socket is the
-- bytes that can be read from it, up to its end, and the replies written to it; a write that fails
-- and the sleep before an input are left out.
pub mod Ends
use Prim.Native.Char as Chars
use Prim.Native.Nat.{min, bit_and, bit_or}
use Prim.Native.String.{String}
use steam_controller_daemon.Dualshock.Descriptors.{
  report_descriptor, calibration, pairing, firmware, device_descriptor, configuration_descriptor,
}
use steam_controller_daemon.Prelude.Outcome.{Outcome, ok, err, panics}
use steam_controller_daemon.Prelude.{
  ℕ, zero, suc, ◌+◌, ◌-◌, ◌*◌, ◌/◌, ◌%◌, ◌^◌, Bool, true, false, not, ◌&&◌, ◌||◌, Option, none,
  some, List, [], ◌∷◌, ◌++◌, length, get_or, set, take, replicate, leb, ltb, nat_beq, if◌then◌else◌,
}
use steam_controller_daemon.Dualshock.Control.{
  drop, from_be_bytes, to_be_bytes, dev_id, einval, epipe, Header, header_bytes, write_reply,
  write_error, parse_output, utf16_bytes, text_descriptor, string_descriptor, Control,
  get_descriptor, get_report, set_report, is_one_of, answer, truncated, control,
}

-- The worker: what is left to read, the replies, and what it shares with the gamepad.
pub record Worker : Type 0 where
  pub input : List ℕ
  pub replies : List (List ℕ)
  pub rumble : ℕ × ℕ
  pub counter : ℕ

pub data End : Type 0 where
  closed invalid_data unexpected_eof out_of_fuel : End

pub data Turn : Type 0 where
  stops : End → Turn
  continues : Worker → Turn

abbrev pub reply : Worker → List ℕ → Worker
reply w bytes = record w { replies = w.replies ++ bytes ∷ [] }

abbrev pub control_reply : Header → ℕ → Worker → Control → Worker
control_reply h length' w (ok (payload, rumble)) =
    reply (record w { rumble = rumble })
      (write_reply 3 h (if nat_beq h.direction 0 then length' else length payload) payload)
control_reply h length' w (err errno) = reply w (write_error h errno)
control_reply h length' w panics = w

-- The interrupt endpoint: the report that the gamepad set last, with the counter in it.
unfoldable pub input_report : List ℕ → ℕ → List ℕ
input_report report counter =
    set report 7 (bit_or (bit_and (get_or report 7 0) 3) (bit_and counter 0x3f * 4))

abbrev pub or_rumble : Option (ℕ × ℕ) → ℕ × ℕ → ℕ × ℕ
or_rumble none rumble = rumble
or_rumble (some next) rumble = next

unfoldable pub submit : Header → ℕ → ℕ → List ℕ → List ℕ → List ℕ → Worker → Worker
unfolding control write_reply write_error input_report parse_output
submit h packet_count length' setup output report w =
    if not (nat_beq h.devid dev_id)
      || not (nat_beq packet_count 0 || nat_beq packet_count 0xffffffff)
    then reply w (write_error h einval)
    else if nat_beq h.endpoint 0
    then control_reply h length' w (control setup output w.rumble)
    else if nat_beq h.endpoint 4 && nat_beq h.direction 1
    then (let bytes = take length' (input_report report w.counter) in
        reply (record w { counter = bit_and ((w.counter + 1) % 256) 0x3f })
          (write_reply 3 h (length bytes) bytes))
    else if nat_beq h.endpoint 3 && nat_beq h.direction 0
    then reply (record w { rumble = or_rumble (parse_output output) w.rumble })
        (write_reply 3 h length' [])
    else reply w (write_error h epipe)

-- A submitted transfer: its bytes are read first, if it goes out.
unfoldable pub transfer : Header → List ℕ → List ℕ → Worker → Turn
unfolding submit
transfer h request report w =
    let length' = from_be_bytes request 24 in
    let packet_count = from_be_bytes request 32 in
    let setup = take 8 (drop 40 request) in
    if ltb 4096 length'
    then stops invalid_data
    else if nat_beq h.direction 0
    then (if ltb (length w.input) length'
        then stops unexpected_eof
        else continues (
            submit h packet_count length' setup (take length' w.input) report
              (record w { input = drop length' w.input })))
    else continues (submit h packet_count length' setup [] report w)

abbrev pub header_of : List ℕ → Header
header_of request = record {
  seqnum = from_be_bytes request 4;
  devid = from_be_bytes request 8;
  direction = from_be_bytes request 12;
  endpoint = from_be_bytes request 16;
}

-- One turn of the loop of `serve`, with the report that the gamepad has set by then.
unfoldable pub turn : List ℕ → Worker → Turn
unfolding transfer write_reply
turn report w =
    if ltb (length w.input) 48
    then stops closed
    else (let request = take 48 w.input in
        let h = header_of request in
        let rest = record w { input = drop 48 w.input } in
        if nat_beq (from_be_bytes request 0) 2
        then continues (reply rest (write_reply 4 h 0 []))
        else if not (nat_beq (from_be_bytes request 0) 1)
        then stops invalid_data
        else transfer h request report rest)

-- `serve`, on fuel, with the report that is set at each turn.
unfoldable pub serve : ℕ → (ℕ → List ℕ) → Worker → End × Worker
unfolding turn
serve zero reports w = (out_of_fuel, w)
serve (suc n) reports w = elim (turn (reports n) w) [
  | stops end ↦ (end, w)
  | continues next ↦ serve n reports next
]
