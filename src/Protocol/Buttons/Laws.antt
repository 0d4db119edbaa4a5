-- ===== src/Protocol/Buttons/Laws.antt =====
-- `Buttons` as a set: what each operation does to the buttons that it contains.
use Prim.Native.Nat.{bit_and}
use native.Mathlib.Nat.{pow-suc}
use native.Mathlib.Decide.{dec_lt}
use steam_controller_daemon.Bits.{
  test_bit, complement, test_bit-bit_and, test_bit-bit_or, test_bit-zero, test_bit-pow,
  test_bit-complement, bits_ext, bit_and-pow,
}
use steam_controller_daemon.Protocol.Buttons.{
  Button, button_a, all, Buttons, button_eq, shift, mask, no_buttons, contains, contains_all,
  insert, remove, remove_inactive, is_empty, index,
}
use steam_controller_daemon.Prelude.{
  ℕ, zero, suc, ◌≡◌, refl, ◌^◌, ◌/◌, ◌<◌, ◌≤◌, ◌↔◌, Bool, true, false, not, ◌&&◌, ◌||◌, ◌==◌,
  nat_beq, arith, ap, ◌∙◌, nat_beq_iff, get_or,
}

not-not : (b : Bool) → not (not b) ≡ b
not-not true = refl
not-not false = refl

-- Membership is one bit of the word.
pub contains-test_bit : (s : Buttons) (b : Button) → contains s b ≡ test_bit (shift b) s.bits
unfolding contains
contains-test_bit s b = rw (bit_and-pow s.bits (shift b)) (not-not _)

pub contains-no_buttons : (b : Button) → contains no_buttons b ≡ false
contains-no_buttons b = contains-test_bit no_buttons b ∙ test_bit-zero (shift b)

pub shift-lt : (b : Button) → shift b < 30
shift-lt button_a = omega arith
shift-lt _ = omega arith

pub index-shift : (b : Button) → index b ≡ shift b
unfolding index
index-shift button_a = refl
index-shift _ = refl

pub contains-insert :
    (s : Buttons) (b c : Button) → contains (insert s b) c ≡ (c == b || contains s c)
unfolding insert button_eq
contains-insert s b c =
    rw (contains-test_bit (insert s b) c, contains-test_bit s c)
      (ground (arith, test_bit-bit_or (shift c) s.bits (mask b), test_bit-pow (shift c) (shift b)))

mask-lt : (b : Button) → 2 ^ shift b < 2 ^ 32
mask-lt button_a = omega arith
mask-lt _ = omega arith

pub contains-remove :
    (s : Buttons) (b c : Button) → contains (remove s b) c ≡ (not (c == b) && contains s c)
unfolding remove button_eq
contains-remove s b c =
    let low : shift c < 32 = omega (arith, shift-lt c) in
    rw (contains-test_bit (remove s b) c, contains-test_bit s c)
      (ground (
        arith,
        test_bit-bit_and (shift c) s.bits (complement 32 (mask b)),
        test_bit-complement (shift c) 32 (mask b) low (mask-lt b),
        test_bit-pow (shift c) (shift b),
      ))

pub contains-remove_inactive :
    (s active : Buttons) (b : Button)
    → contains (remove_inactive s active) b ≡ (contains s b && contains active b)
unfolding remove_inactive
contains-remove_inactive s active b =
    rw
      (
        contains-test_bit (remove_inactive s active) b,
        contains-test_bit s b,
        contains-test_bit active b,
      )
      (test_bit-bit_and (shift b) s.bits active.bits)

-- A set that contains all of another contains each button of it.
pub contains_all-contains :
    (s t : Buttons) (b : Button)
    → contains_all s t ≡ true
    → contains t b ≡ true
    → contains s b ≡ true
unfolding contains_all
contains_all-contains s t b every h =
    let e : bit_and s.bits t.bits ≡ t.bits = (nat_beq_iff _ _).0 every in
    ground (
      arith,
      contains-test_bit s b,
      contains-test_bit t b,
      ap (test_bit (shift b)) e,
      test_bit-bit_and (shift b) s.bits t.bits,
    )

-- Bits 30 and 31 stand for no button, and no binding sets them.
abbrev pub IsButtons : Buttons → Type 0
IsButtons s = s.bits < 2 ^ 30

all_below : ℕ → (ℕ → Bool) → Bool
all_below zero p = true
all_below (suc n) p = p n && all_below n p

all_below_sound : (n : ℕ) (p : ℕ → Bool) (i : ℕ) → all_below n p ≡ true → i < n → p i ≡ true
unfolding all_below
all_below_sound zero p i h k = absurd (omega arith)
all_below_sound (suc n) p i h k = ground (arith, all_below_sound n p i)

shift-get_or : (i : ℕ) → i < 30 → shift (get_or all i button_a) ≡ i
unfolding all_below
shift-get_or i h =
    (nat_beq_iff _ _).0
      (all_below_sound 30 (λ j. nat_beq (shift (get_or all j button_a)) j) i refl h)

test_bit_high : (k i n : ℕ) → n < 2 ^ k → k ≤ i → test_bit i n ≡ false
test_bit_high zero i n h p = let e : n ≡ 0 = omega arith in rw e (test_bit-zero i)
test_bit_high (suc k) zero n h p = absurd (omega arith)
test_bit_high (suc k) (suc i) n h p =
    test_bit_high k i (n / 2) (omega (arith, pow-suc 2 k)) (omega arith)

-- Below the 30 buttons, membership decides the set.
pub test_bit-of_contains :
    (s t : Buttons)
    → IsButtons t
    → ((b : Button) → contains t b ≡ true → contains s b ≡ true)
    → (i : ℕ) → test_bit i t.bits ≡ true
    → test_bit i s.bits ≡ true
test_bit-of_contains s t small h i e = elim (dec_lt i 30) [
  | yes low ↦
      let b = get_or all i button_a in
      let at : shift b ≡ i = shift-get_or i low in
      rw (← at, ← contains-test_bit s b)
        (h b (contains-test_bit t b ∙ ap (λ j. test_bit j t.bits) at ∙ e))
  | no high ↦ cc (test_bit_high 30 i t.bits small (omega arith))
]

-- For a set with no bit above the 30 buttons, `contains_all s t` holds exactly if every button that
-- `t` contains is contained in `s`.
pub contains_all_iff :
    (s t : Buttons)
    → IsButtons t
    → (contains_all s t ≡ true) ↔ ((b : Button) → contains t b ≡ true → contains s b ≡ true)
unfolding contains_all
contains_all_iff s t small = (
  λ every b h. contains_all-contains s t b every h,
  λ h. (nat_beq_iff _ _).1 (
      bits_ext (bit_and s.bits t.bits) t.bits
        λ i. ground (arith, test_bit-bit_and i s.bits t.bits, test_bit-of_contains s t small h i)),
)

pub is_empty-contains : (s : Buttons) (b : Button) → is_empty s ≡ true → contains s b ≡ false
unfolding is_empty
is_empty-contains s b e =
    let z : s.bits ≡ 0 = (nat_beq_iff _ _).0 e in
    contains-test_bit s b ∙ ap (test_bit (shift b)) z ∙ test_bit-zero (shift b)

-- For every button, `insert` adds the one that is given, `remove` takes it out, and
-- `remove_inactive` keeps what is in both sets; the other buttons stay as they were.
pub Buttons-set :
    (s active : Buttons) (b c : Button)
    → (contains (insert s b) c ≡ (c == b || contains s c))
      × (contains (remove s b) c ≡ (not (c == b) && contains s c))
      × (contains (remove_inactive s active) c ≡ (contains s c && contains active c))
Buttons-set s active b c =
    (contains-insert s b c, contains-remove s b c, contains-remove_inactive s active c)
