-- ===== src/Bits.antt =====
-- The bits of a machine word: `&`, `|` and `!` on `u32`, read bit by bit.
use Prim.Native.Nat.{min, max, bit_and, bit_or, digits, bitwise, bit_and-bitwise, bit_or-bitwise}
use native.Mathlib.Nat.{pow-suc, le_refl}
use steam_controller_daemon.Prelude.{
  ℕ, zero, suc, ◌+◌, ◌-◌, ◌*◌, ◌/◌, ◌%◌, ◌^◌, ◌≤◌, ◌<◌, ◌≡◌, refl, ap, Bool, false, ◌&&◌, ◌||◌, not,
  arith, nat_beq,
}

-- Bit `i` of `n`.
abbrev pub test_bit : ℕ → ℕ → Bool
test_bit zero n = nat_beq (n % 2) 1
test_bit (suc i) n = test_bit i (n / 2)

-- The library's `digits` with any fuel that is enough.
digits_enough :
    (top : ℕ → ℕ) (f : ℕ → ℕ → ℕ) (k l a b : ℕ)
    → a ≤ k
    → a ≤ l
    → digits top f k a b ≡ digits top f l a b
digits_enough top f zero zero a b below above = refl
digits_enough top f (suc k) zero zero b below above = refl
digits_enough top f (suc k) zero (suc a) b below above = absurd (omega arith)
digits_enough top f zero (suc l) zero b below above = refl
digits_enough top f zero (suc l) (suc a) b below above = absurd (omega arith)
digits_enough top f (suc k) (suc l) zero b below above = refl
digits_enough top f (suc k) (suc l) (suc a) b below above =
    rw (digits_enough top f k l (suc a / 2) (b / 2) (omega arith) (omega arith))

bitwise-suc :
    (z : ℕ → ℕ) (f : ℕ → ℕ → ℕ) (a b : ℕ)
    → bitwise z f (suc a) b ≡ bitwise z f (suc a / 2) (b / 2) * 2 + f (suc a % 2) (b % 2)
bitwise-suc z f a b =
    omega (arith, digits_enough z f a (suc a / 2) (suc a / 2) (b / 2) (omega arith) (le_refl _))

bit_and_halves : (a b : ℕ) → bit_and a b ≡ bit_and (a / 2) (b / 2) * 2 + min (a % 2) (b % 2)
bit_and_halves zero b = simp bit_and-bitwise (omega arith)
bit_and_halves (suc a) b = simp bit_and-bitwise (bitwise-suc (λ y. 0) min a b)

bit_or_halves : (a b : ℕ) → bit_or a b ≡ bit_or (a / 2) (b / 2) * 2 + max (a % 2) (b % 2)
bit_or_halves zero b = simp bit_or-bitwise (omega arith)
bit_or_halves (suc a) b = simp bit_or-bitwise (bitwise-suc (λ y. y) max a b)

bit_and-half : (a b : ℕ) → bit_and a b / 2 ≡ bit_and (a / 2) (b / 2)
bit_and-half a b = omega (arith, bit_and_halves a b)

bit_or-half : (a b : ℕ) → bit_or a b / 2 ≡ bit_or (a / 2) (b / 2)
bit_or-half a b = omega (arith, bit_or_halves a b)

pub test_bit-bit_and : (i a b : ℕ) → test_bit i (bit_and a b) ≡ (test_bit i a && test_bit i b)
test_bit-bit_and zero a b = ground (arith, bit_and_halves a b)
test_bit-bit_and (suc i) a b = rw (bit_and-half a b) (test_bit-bit_and i (a / 2) (b / 2))

pub test_bit-bit_or : (i a b : ℕ) → test_bit i (bit_or a b) ≡ (test_bit i a || test_bit i b)
test_bit-bit_or zero a b = ground (arith, bit_or_halves a b)
test_bit-bit_or (suc i) a b = rw (bit_or-half a b) (test_bit-bit_or i (a / 2) (b / 2))

pub test_bit-zero : (i : ℕ) → test_bit i 0 ≡ false
test_bit-zero zero = refl
test_bit-zero (suc i) = test_bit-zero i

-- The mask of one bit.
pub test_bit-pow : (i j : ℕ) → test_bit i (2 ^ j) ≡ nat_beq i j
test_bit-pow zero zero = refl
test_bit-pow zero (suc j) = ground (arith, pow-suc 2 j)
test_bit-pow (suc i) zero = ground (arith, test_bit-zero i)
test_bit-pow (suc i) (suc j) =
    let half : 2 ^ suc j / 2 ≡ 2 ^ j = omega (arith, pow-suc 2 j) in
    rw half (ground (arith, test_bit-pow i j))

-- `!a` on `w` bits.
abbrev pub complement : ℕ → ℕ → ℕ
complement w a = 2 ^ w - 1 - a

pub test_bit-complement :
    (i w a : ℕ) → i < w → a < 2 ^ w → test_bit i (complement w a) ≡ not (test_bit i a)
test_bit-complement i zero a h k = absurd (omega arith)
test_bit-complement zero (suc w) a h k = ground (arith, pow-suc 2 w)
test_bit-complement (suc i) (suc w) a h k =
    let half : complement (suc w) a / 2 ≡ complement w (a / 2) = omega (arith, pow-suc 2 w) in
    rw half (test_bit-complement i w (a / 2) (omega arith) (omega (arith, pow-suc 2 w)))

-- A word is determined by its bits.
bits_ext_below : (n a b : ℕ) → a ≤ n → b ≤ n → ((i : ℕ) → test_bit i a ≡ test_bit i b) → a ≡ b
bits_ext_below zero a b p q h = omega arith
bits_ext_below (suc n) a b p q h =
    let low : test_bit 0 a ≡ test_bit 0 b = h 0 in
    let high : a / 2 ≡ b / 2 =
      bits_ext_below n (a / 2) (b / 2) (omega arith) (omega arith) (λ i. h (suc i)) in
    ground arith

pub bits_ext : (a b : ℕ) → ((i : ℕ) → test_bit i a ≡ test_bit i b) → a ≡ b
bits_ext a b h = bits_ext_below (a + b) a b (omega arith) (omega arith) h

bit_and-zero : (a : ℕ) → bit_and a 0 ≡ 0
bit_and-zero a =
    bits_ext (bit_and a 0) 0 λ i. ground (arith, test_bit-bit_and i a 0, test_bit-zero i)

-- `a & (1 << j) != 0` tests bit `j`.
pub bit_and-pow : (a j : ℕ) → nat_beq (bit_and a (2 ^ j)) 0 ≡ not (test_bit j a)
bit_and-pow a zero = ground (arith, bit_and_halves a 1, bit_and-zero (a / 2))
bit_and-pow a (suc j) =
    let half : 2 ^ suc j / 2 ≡ 2 ^ j = omega (arith, pow-suc 2 j) in
    let even : 2 ^ suc j % 2 ≡ 0 = omega (arith, pow-suc 2 j) in
    ground (arith, bit_and_halves a (2 ^ suc j), bit_and-pow (a / 2) j, ap (bit_and (a / 2)) half)
