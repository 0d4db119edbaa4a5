-- ===== src/Protocol/Bytes.antt =====
-- Bytes and machine integers: little-endian fields, casts, and writes into a buffer.
use steam_controller_daemon.Prelude.Int.{ℤ, pos, negsuc}
use steam_controller_daemon.Prelude.Panic.{◌>>=◌}
use steam_controller_daemon.Prelude.{
  ℕ, zero, suc, ◌+◌, ◌-◌, ◌*◌, ◌/◌, ◌%◌, Option, some, List, [], ◌∷◌, get_elem?, set, ltb,
  if◌then◌else◌,
}

-- `value as u8` of an `i8`.
unfoldable pub as_u8 : ℤ → ℕ
as_u8 (pos n) = n
as_u8 (negsuc n) = 255 - n

-- `u16::to_le_bytes`.
unfoldable pub to_le_bytes : ℕ → List ℕ
to_le_bytes v = v % 256 ∷ v / 256 % 256 ∷ []

-- `report[at..at + bytes.len()].copy_from_slice(bytes)`, within the buffer.
unfoldable pub copy_from_slice : List ℕ → ℕ → List ℕ → List ℕ
copy_from_slice report at [] = report
copy_from_slice report at (b ∷ bs) = copy_from_slice (set report at b) (suc at) bs

-- Reads at an offset; `none` is the panic of an index out of range.
unfoldable pub le_u16 : List ℕ → ℕ → Option ℕ
le_u16 report offset = do
  low ← get_elem? report offset
  high ← get_elem? report (offset + 1)
  some (low + 256 * high)

unfoldable pub le_u32 : List ℕ → ℕ → Option ℕ
le_u32 report offset = do
  low ← le_u16 report offset
  high ← le_u16 report (offset + 2)
  some (low + 65536 * high)

-- The two's complement reading of a `u16` as an `i16`.
unfoldable pub as_i16 : ℕ → ℤ
as_i16 n = if ltb n 32768 then pos n else negsuc (65535 - n)

unfoldable pub le_i16 : List ℕ → ℕ → Option ℤ
unfolding as_i16
le_i16 report offset = do raw ← le_u16 report offset; some (as_i16 raw)

-- `i16::saturating_neg`.
unfoldable pub saturating_neg : ℤ → ℤ
saturating_neg (pos zero) = pos 0
saturating_neg (pos (suc n)) = negsuc n
saturating_neg (negsuc n) = if ltb n 32767 then pos (suc n) else pos 32767
