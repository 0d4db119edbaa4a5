-- ===== src/Protocol/Buttons.antt =====
-- The controller's buttons and the set of them that is down: core/src/protocol.rs, `Button` and
-- `Buttons`. A `u32` is a number with the operations of `Bits`; the set's laws are in
-- Buttons/Laws. `Button::A` is `button_a`, and so for `B`, `X` and `Y`.
pub mod Laws
use Prim.Native.Nat.{bit_and, bit_or}
use steam_controller_daemon.Bits.{complement}
use steam_controller_daemon.Prelude.Eq.{Eq}
use steam_controller_daemon.Prelude.{
  ℕ, zero, suc, ◌+◌, ◌/◌, ◌%◌, ◌^◌, ◌≡◌, refl, ap, ◌∙◌, sym, ◌↔◌, Bool, true, not, List, [], ◌∷◌,
  nat_beq, nat_beq_iff, get_or, if◌then◌else◌, arith,
}

pub data Button : Type 0 where
  button_a button_b button_x button_y qam r3 menu r4 r5 rb dpad_down dpad_right dpad_left dpad_up
        view l3 :
      Button
  steam l4 l5 lb right_stick_touch right_pad_touch right_pad_click : Button
  right_trigger_click left_stick_touch left_pad_touch left_pad_click : Button
  left_trigger_click right_grip_touch left_grip_touch : Button

-- The `k` of the discriminant `1 << k`.
abbrev pub shift : Button → ℕ
shift button_a = 0
shift button_b = 1
shift button_x = 2
shift button_y = 3
shift qam = 4
shift r3 = 5
shift menu = 6
shift r4 = 7
shift r5 = 8
shift rb = 9
shift dpad_down = 10
shift dpad_right = 11
shift dpad_left = 12
shift dpad_up = 13
shift view = 14
shift l3 = 15
shift steam = 16
shift l4 = 17
shift l5 = 18
shift lb = 19
shift right_stick_touch = 20
shift right_pad_touch = 21
shift right_pad_click = 22
shift right_trigger_click = 23
shift left_stick_touch = 24
shift left_pad_touch = 25
shift left_pad_click = 26
shift left_trigger_click = 27
shift right_grip_touch = 28
shift left_grip_touch = 29

abbrev pub all : List Button
all =
    button_a ∷ button_b ∷ button_x ∷ button_y ∷ qam ∷ r3 ∷ menu ∷ r4 ∷ r5 ∷ rb ∷ dpad_down
    ∷ dpad_right ∷ dpad_left ∷ dpad_up ∷ view ∷ l3 ∷ steam ∷ l4 ∷ l5 ∷ lb ∷ right_stick_touch
    ∷ right_pad_touch ∷ right_pad_click ∷ right_trigger_click ∷ left_stick_touch ∷ left_pad_touch
    ∷ left_pad_click ∷ left_trigger_click ∷ right_grip_touch ∷ left_grip_touch ∷ []

unfoldable pub mask : Button → ℕ
mask b = 2 ^ shift b

-- `u32::trailing_zeros`, by the position of the lowest bit.
trailing_zeros : ℕ → ℕ → ℕ
trailing_zeros zero n = 0
trailing_zeros (suc w) n =
    let rest = suc (trailing_zeros w (n / 2)) in if nat_beq (n % 2) 1 then 0 else rest

unfoldable pub index : Button → ℕ
unfolding mask trailing_zeros
index b = trailing_zeros 32 (mask b)

button_beq : Button → Button → Bool
button_beq a b = nat_beq (shift a) (shift b)

all-shift : (b : Button) → get_or all (shift b) button_a ≡ b
all-shift button_a = refl
all-shift button_b = refl
all-shift button_x = refl
all-shift button_y = refl
all-shift qam = refl
all-shift r3 = refl
all-shift menu = refl
all-shift r4 = refl
all-shift r5 = refl
all-shift rb = refl
all-shift dpad_down = refl
all-shift dpad_right = refl
all-shift dpad_left = refl
all-shift dpad_up = refl
all-shift view = refl
all-shift l3 = refl
all-shift steam = refl
all-shift l4 = refl
all-shift l5 = refl
all-shift lb = refl
all-shift right_stick_touch = refl
all-shift right_pad_touch = refl
all-shift right_pad_click = refl
all-shift right_trigger_click = refl
all-shift left_stick_touch = refl
all-shift left_pad_touch = refl
all-shift left_pad_click = refl
all-shift left_trigger_click = refl
all-shift right_grip_touch = refl
all-shift left_grip_touch = refl

pub shift-injective : (b c : Button) → shift b ≡ shift c → b ≡ c
shift-injective b c e = sym (all-shift b) ∙ ap (λ i. get_or all i button_a) e ∙ all-shift c

button_beq_iff : (b c : Button) → (button_beq b c ≡ true) ↔ (b ≡ c)
unfolding button_beq
button_beq_iff b c =
    (λ h. shift-injective b c ((nat_beq_iff _ _).0 h), λ e. (nat_beq_iff _ _).1 (ap shift e))

instance unfoldable pub button_eq : Eq Button
unfolding button_beq button_beq_iff
button_eq = record { beq = button_beq; beq_iff = button_beq_iff }

-- `struct Buttons(u32)`.
pub record Buttons : Type 0 where
  pub bits : ℕ

-- `Buttons::default()`.
abbrev pub no_buttons : Buttons
no_buttons = record { bits = 0 }

unfoldable pub from_bits : ℕ → Buttons
from_bits bits = record { bits = bits }

unfoldable pub contains : Buttons → Button → Bool
unfolding mask
contains s b = not (nat_beq (bit_and s.bits (mask b)) 0)

unfoldable pub contains_all : Buttons → Buttons → Bool
contains_all s buttons = nat_beq (bit_and s.bits buttons.bits) buttons.bits

unfoldable pub insert : Buttons → Button → Buttons
unfolding mask
insert s b = record { bits = bit_or s.bits (mask b) }

unfoldable pub remove : Buttons → Button → Buttons
unfolding mask
remove s b = record { bits = bit_and s.bits (complement 32 (mask b)) }

unfoldable pub remove_inactive : Buttons → Buttons → Buttons
remove_inactive s active = record { bits = bit_and s.bits active.bits }

-- `self == Buttons::default()`.
unfoldable pub is_empty : Buttons → Bool
is_empty s = nat_beq s.bits 0
