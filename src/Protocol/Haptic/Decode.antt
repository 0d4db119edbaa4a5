-- ===== src/Protocol/Haptic/Decode.antt =====
-- The haptic reports read back: what a report says, by its bytes.
use steam_controller_daemon.Protocol.State.{Trackpad}
use steam_controller_daemon.Protocol.Bytes.{as_u8}
use steam_controller_daemon.Protocol.Haptic.{
  Haptic, rumble, trackpad_click, pulse, tone, log_sweep, script, write_haptic, encode, pad_number,
}
use steam_controller_daemon.Prelude.Int.{ℤ, pos, negsuc}
use steam_controller_daemon.Prelude.{
  ℕ, zero, suc, ◌+◌, ◌-◌, ◌*◌, ◌/◌, ◌%◌, ◌^◌, ◌<◌, ◌≡◌, refl, ap, Option, none, some, List, [], ◌∷◌,
  length, replicate, fill, take, get_or, nat_beq, ltb, if◌then◌else◌, arith,
}

-- A signed byte.
as_i8 : ℕ → ℤ
as_i8 n = if ltb n 128 then pos n else negsuc (255 - n)

u16_at : List ℕ → ℕ → ℕ
u16_at bytes at = get_or bytes at 0 + 256 * get_or bytes (suc at) 0

pad_at : ℕ → Trackpad
pad_at zero = Trackpad.left
pad_at (suc n) = Trackpad.right

-- The command byte, then the fields at their places.
pub decode : List ℕ → Option Haptic
unfolding as_i8 u16_at pad_at
decode bytes =
    let command = get_or bytes 0 0 in
    let gain = as_i8 (get_or bytes 2 0) in
    let last_gain = as_i8 (get_or bytes 3 0) in
    if nat_beq command 0x80
    then some (rumble (u16_at bytes 4) (u16_at bytes 7))
    else if nat_beq command 0x81
    then some (pulse (u16_at bytes 2) (u16_at bytes 4) (u16_at bytes 6))
    else if nat_beq command 0x82
    then some (trackpad_click (pad_at (get_or bytes 1 0)) last_gain)
    else if nat_beq command 0x83
    then some (tone gain (u16_at bytes 3) (u16_at bytes 5))
    else if nat_beq command 0x84
    then some (log_sweep gain (u16_at bytes 3) (u16_at bytes 5) (u16_at bytes 7))
    else if nat_beq command 0x85
    then some (script (get_or bytes 2 0) last_gain)
    else none

abbrev pub IsI8 : ℤ → Type 0
IsI8 (pos n) = n < 128
IsI8 (negsuc n) = n < 128

-- The fields have the values of their machine types.
abbrev pub IsHaptic : Haptic → Type 0
IsHaptic (rumble low high) = (low < 2 ^ 16) × (high < 2 ^ 16)
IsHaptic (trackpad_click trackpad gain) = IsI8 gain
IsHaptic (pulse on_us off_us repeat) = (on_us < 2 ^ 16) × (off_us < 2 ^ 16) × (repeat < 2 ^ 16)
IsHaptic (tone gain frequency duration_ms) =
    IsI8 gain × (frequency < 2 ^ 16) × (duration_ms < 2 ^ 16)
IsHaptic (log_sweep gain duration_ms low high) =
    IsI8 gain × (duration_ms < 2 ^ 16) × (low < 2 ^ 16) × (high < 2 ^ 16)
IsHaptic (script script_id gain) = (script_id < 256) × IsI8 gain

as_i8-as_u8 : (g : ℤ) → IsI8 g → as_i8 (as_u8 g) ≡ g
unfolding as_i8 as_u8
as_i8-as_u8 (pos n) h = ground arith
as_i8-as_u8 (negsuc n) h = ground arith

pad_at-pad_number : (t : Trackpad) → pad_at (pad_number t) ≡ t
unfolding pad_at pad_number
pad_at-pad_number Trackpad.left = refl
pad_at-pad_number Trackpad.right = refl

two_bytes : (v : ℕ) → v < 2 ^ 16 → v % 256 + 256 * (v / 256 % 256) ≡ v
two_bytes v h = omega arith

fill-eq-replicate : (n : ℕ) (xs : List ℕ) → length xs ≡ n → fill xs 0 ≡ replicate n 0
fill-eq-replicate zero [] h = refl
fill-eq-replicate zero (x ∷ xs) h = absurd (omega arith)
fill-eq-replicate (suc n) [] h = absurd (omega arith)
fill-eq-replicate (suc n) (x ∷ xs) h = ap (λ r. 0 ∷ r) (fill-eq-replicate n xs (omega arith))

-- The bytes of a report that are sent.
abbrev pub sent : List ℕ × ℕ → List ℕ
sent (bytes, n) = take n bytes

decode-write_haptic :
    (h : Haptic) → IsHaptic h → decode (sent (write_haptic h (replicate 10 0))) ≡ some h
unfolding decode write_haptic
decode-write_haptic (rumble low high) (a, b) = rw (two_bytes low a, two_bytes high b)
decode-write_haptic (trackpad_click trackpad gain) a =
    rw (pad_at-pad_number trackpad, as_i8-as_u8 gain a)
decode-write_haptic (pulse on_us off_us repeat) (a, b, d) =
    rw (two_bytes on_us a, two_bytes off_us b, two_bytes repeat d)
decode-write_haptic (tone gain frequency duration_ms) (g, a, b) =
    rw (as_i8-as_u8 gain g, two_bytes frequency a, two_bytes duration_ms b)
decode-write_haptic (log_sweep gain duration_ms low high) (g, a, b, d) =
    rw (as_i8-as_u8 gain g, two_bytes duration_ms a, two_bytes low b, two_bytes high d)
decode-write_haptic (script script_id gain) (a, g) = rw (as_i8-as_u8 gain g)

-- A haptic with fields in their machine types can be read back from the bytes of its encoding that
-- are sent, whatever the buffer of 10 bytes held before.
pub decode-encode :
    (h : Haptic) (report : List ℕ)
    → length report ≡ 10
    → IsHaptic h
    → decode (sent (encode h report)) ≡ some h
unfolding encode
decode-encode h report n valid = rw (fill-eq-replicate 10 report n) (decode-write_haptic h valid)
