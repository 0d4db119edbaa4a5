-- ===== src/Protocol/Haptic.antt =====
-- core/src/protocol.rs, `Haptic`: the reports that play haptics.
pub mod Decode
use steam_controller_daemon.Protocol.State.{Trackpad}
use steam_controller_daemon.Protocol.Bytes.{as_u8, to_le_bytes, copy_from_slice}
use steam_controller_daemon.Prelude.Int.{ℤ}
use steam_controller_daemon.Prelude.{ℕ, List, [], ◌∷◌, ◌++◌, fill}

pub data Haptic : Type 0 where
  rumble : (low_frequency high_frequency : ℕ) → Haptic
  trackpad_click : (trackpad : Trackpad) (gain : ℤ) → Haptic
  pulse : (on_us off_us repeat : ℕ) → Haptic
  tone : (gain : ℤ) (frequency duration_ms : ℕ) → Haptic
  log_sweep : (gain : ℤ) (duration_ms start_frequency end_frequency : ℕ) → Haptic
  script : (script_id : ℕ) (gain : ℤ) → Haptic

-- `trackpad as u8`.
unfoldable pub pad_number : Trackpad → ℕ
pad_number Trackpad.left = 0
pad_number Trackpad.right = 1

-- The fields that `encode` writes into the cleared report, and the length that it returns.
unfoldable pub write_haptic : Haptic → List ℕ → List ℕ × ℕ
unfolding as_u8 to_le_bytes copy_from_slice pad_number
write_haptic (rumble low high) report =
    let a = copy_from_slice report 0 (0x80 ∷ []) in
    let b = copy_from_slice a 4 (to_le_bytes low) in (copy_from_slice b 7 (to_le_bytes high), 10)
write_haptic (trackpad_click trackpad gain) report =
    (copy_from_slice report 0 (0x82 ∷ pad_number trackpad ∷ 1 ∷ as_u8 gain ∷ []), 4)
write_haptic (pulse on_us off_us repeat) report =
    let a = copy_from_slice report 0 (0x81 ∷ 2 ∷ []) in
    let b = copy_from_slice a 2 (to_le_bytes on_us) in
    let c = copy_from_slice b 4 (to_le_bytes off_us) in
    (copy_from_slice c 6 (to_le_bytes repeat), 8)
write_haptic (tone gain frequency duration_ms) report =
    let a = copy_from_slice report 0 (0x83 ∷ 2 ∷ as_u8 gain ∷ []) in
    let b = copy_from_slice a 3 (to_le_bytes frequency) in
    (copy_from_slice b 5 (to_le_bytes duration_ms), 10)
write_haptic (log_sweep gain duration_ms start_frequency end_frequency) report =
    let a = copy_from_slice report 0 (0x84 ∷ 2 ∷ as_u8 gain ∷ []) in
    let b = copy_from_slice a 3 (to_le_bytes duration_ms) in
    let c = copy_from_slice b 5 (to_le_bytes start_frequency) in
    (copy_from_slice c 7 (to_le_bytes end_frequency), 9)
write_haptic (script script_id gain) report =
    (copy_from_slice report 0 (0x85 ∷ 2 ∷ script_id ∷ as_u8 gain ∷ []), 4)

-- `Haptic::encode`: the buffer, of 10 bytes, is cleared first.
unfoldable pub encode : Haptic → List ℕ → List ℕ × ℕ
unfolding write_haptic
encode haptic report = write_haptic haptic (fill report 0)
