-- ===== src/Dualshock/Control.antt =====
-- The replies and the control requests of the emulated gamepad's USB/IP device:
-- daemon/src/gamepad/dualshock/usbip.rs.
use Prim.Native.Char as Chars
use Prim.Native.Nat.{bit_and}
use Prim.Native.String.{String}
use steam_controller_daemon.Dualshock.Descriptors.{
  report_descriptor, calibration, pairing, firmware, device_descriptor, configuration_descriptor,
}
use steam_controller_daemon.Prelude.Outcome.{Outcome, ok, err, panics}
use steam_controller_daemon.Prelude.{
  ℕ, zero, suc, ◌+◌, ◌-◌, ◌*◌, ◌/◌, ◌%◌, ◌^◌, Bool, false, not, ◌&&◌, ◌||◌, Option, none, some,
  List, [], ◌∷◌, ◌++◌, length, get_or, take, replicate, leb, nat_beq, if◌then◌else◌,
}

-- `slice[n..]`.
abbrev pub drop : ℕ → List ℕ → List ℕ
drop zero xs = xs
drop (suc n) [] = []
drop (suc n) (x ∷ xs) = drop n xs

-- `u32::from_be_bytes` and `to_be_bytes`.
abbrev pub from_be_bytes : List ℕ → ℕ → ℕ
from_be_bytes bytes i =
    get_or bytes i 0 * 0x1000000
    + get_or bytes (i + 1) 0 * 0x10000
    + get_or bytes (i + 2) 0 * 0x100
    + get_or bytes (i + 3) 0

abbrev pub to_be_bytes : ℕ → List ℕ
to_be_bytes n = n / 0x1000000 % 256 ∷ n / 0x10000 % 256 ∷ n / 0x100 % 256 ∷ n % 256 ∷ []

abbrev pub dev_id : ℕ
dev_id = 0x10001

-- `EINVAL` and `EPIPE` of Linux.
abbrev pub einval : ℕ
einval = 22

abbrev pub epipe : ℕ
epipe = 32

pub record Header : Type 0 where
  pub seqnum : ℕ
  pub devid : ℕ
  pub direction : ℕ
  pub endpoint : ℕ

abbrev pub header_bytes : ℕ → Header → List ℕ
header_bytes command h =
    to_be_bytes command
    ++ to_be_bytes h.seqnum
    ++ to_be_bytes h.devid
    ++ to_be_bytes h.direction
    ++ to_be_bytes h.endpoint

unfoldable pub write_reply : ℕ → Header → ℕ → List ℕ → List ℕ
write_reply command h actual_length payload =
    header_bytes command h
    ++ replicate 4 0
    ++ to_be_bytes (actual_length % 2 ^ 32)
    ++ replicate 20 0
    ++ payload

-- `-errno`, in two's complement.
unfoldable pub write_error : Header → ℕ → List ℕ
write_error h errno = header_bytes 3 h ++ to_be_bytes (2 ^ 32 - errno) ++ replicate 24 0

unfoldable pub parse_output : List ℕ → Option (ℕ × ℕ)
parse_output report =
    if leb 6 (length report)
      && nat_beq (get_or report 0 0) 5
      && not (nat_beq (bit_and (get_or report 1 0) 1) 0)
    then some (get_or report 5 0 * 257, get_or report 4 0 * 257)
    else none

-- `encode_utf16` of ASCII text, as bytes.
unfoldable pub utf16_bytes : String → List ℕ
utf16_bytes String.[] = []
utf16_bytes (String.◌∷◌ c rest) = Chars.code c % 256 ∷ Chars.code c / 256 ∷ utf16_bytes rest

unfoldable pub text_descriptor : String → List ℕ
unfolding utf16_bytes
text_descriptor value = (2 + length (utf16_bytes value)) % 256 ∷ 3 ∷ utf16_bytes value

unfoldable pub string_descriptor : ℕ → Option (List ℕ)
unfolding text_descriptor
string_descriptor index =
    if nat_beq index 0
    then some (4 ∷ 3 ∷ 9 ∷ 4 ∷ [])
    else if nat_beq index 1
    then some (text_descriptor "Sony Interactive Entertainment")
    else if nat_beq index 2
    then some (text_descriptor "Wireless Controller")
    else none

-- What `control` answers and the rumble that it leaves; an error is a number of the system.
abbrev pub Control : Type 0
Control = Outcome ℕ (List ℕ × (ℕ × ℕ))

unfoldable pub get_descriptor : ℕ → ℕ × ℕ → Control
unfolding string_descriptor
get_descriptor value rumble =
    if nat_beq (value / 256) 1
    then ok (device_descriptor, rumble)
    else if nat_beq (value / 256) 2
    then ok (configuration_descriptor, rumble)
    else if nat_beq (value / 256) 3
    then (elim (string_descriptor (value % 256)) [
      | none ↦ err epipe
      | some payload ↦ ok (payload, rumble)
    ])
    else err epipe

unfoldable pub get_report : ℕ → ℕ × ℕ → Control
get_report value rumble =
    if nat_beq (value % 256) 0x02
    then ok (calibration, rumble)
    else if nat_beq (value % 256) 0x12
    then ok (pairing, rumble)
    else if nat_beq (value % 256) 0xa3
    then ok (firmware, rumble)
    else err epipe

unfoldable pub set_report : ℕ → List ℕ → ℕ × ℕ → Control
unfolding parse_output
set_report value output rumble =
    if nat_beq (value % 256) 5
    then (elim (parse_output output) [ none ↦ err einval | some next ↦ ok ([], next) ])
    else ok ([], rumble)

-- One of the pairs that an arm of the match names.
unfoldable pub is_one_of : List (ℕ × ℕ) → ℕ → ℕ → Bool
is_one_of [] request_type request = false
is_one_of ((a, b) ∷ pairs) request_type request =
    nat_beq request_type a && nat_beq request b || is_one_of pairs request_type request

-- The match on the request, in the order of its arms.
unfoldable pub answer : ℕ → ℕ → ℕ → List ℕ → ℕ × ℕ → Control
unfolding is_one_of get_descriptor get_report set_report
answer request_type request value output rumble =
    let is : List (ℕ × ℕ) → Bool = λ pairs. is_one_of pairs request_type request in
    if is ((0x80, 6) ∷ [])
    then get_descriptor value rumble
    else if is ((0x81, 6) ∷ []) && nat_beq (value / 256) 0x21
    then ok (take 9 (drop 18 configuration_descriptor), rumble)
    else if is ((0x81, 6) ∷ []) && nat_beq (value / 256) 0x22
    then ok (report_descriptor, rumble)
    else if is ((0x80, 0) ∷ (0x81, 0) ∷ (0x82, 0) ∷ [])
    then ok (0 ∷ 0 ∷ [], rumble)
    else if is ((0x80, 8) ∷ [])
    then ok (1 ∷ [], rumble)
    else if is ((0x81, 10) ∷ [])
    then ok (0 ∷ [], rumble)
    else if is ((0x00, 5) ∷ (0x00, 9) ∷ (0x01, 11) ∷ (0x02, 1) ∷ [])
    then ok ([], rumble)
    else if is ((0xa1, 1) ∷ [])
    then get_report value rumble
    else if is ((0xa1, 2) ∷ (0xa1, 3) ∷ [])
    then ok (0 ∷ [], rumble)
    else if is ((0x21, 9) ∷ [])
    then set_report value output rumble
    else if is ((0x21, 10) ∷ (0x21, 11) ∷ [])
    then ok ([], rumble)
    else err epipe

abbrev pub truncated : ℕ → Control → Control
truncated n (ok (payload, rumble)) = ok (take n payload, rumble)
truncated n (err errno) = err errno
truncated n panics = panics

unfoldable pub control : List ℕ → List ℕ → ℕ × ℕ → Control
unfolding answer
control setup output rumble = truncated (get_or setup 6 0 + get_or setup 7 0 * 256) (
    answer (get_or setup 0 0) (get_or setup 1 0) (get_or setup 2 0 + get_or setup 3 0 * 256) output
      rumble)
