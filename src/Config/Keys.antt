-- ===== src/Config/Keys.antt =====
-- The outputs that a binding can hold: core/src/config.rs, `MouseButton` and `GamepadButton`.
use steam_controller_daemon.Prelude.Eq.{Eq, number_beq_iff}
use steam_controller_daemon.Prelude.{ℕ, ◌≡◌, refl, ◌↔◌, Bool, true, List, [], ◌∷◌, nat_beq, get_or}

pub data MouseButton : Type 0 where
  left right middle side extra forward back task : MouseButton

pub data GamepadButton : Type 0 where
  south east north west left_bumper right_bumper left_trigger right_trigger : GamepadButton
  select start guide left_stick right_stick dpad_up dpad_down dpad_left dpad_right : GamepadButton
  paddle_left_upper paddle_left_lower paddle_right_upper paddle_right_lower : GamepadButton

mouse_number : MouseButton → ℕ
mouse_number left = 0
mouse_number right = 1
mouse_number middle = 2
mouse_number side = 3
mouse_number extra = 4
mouse_number forward = 5
mouse_number back = 6
mouse_number task = 7

mouse_buttons : List MouseButton
mouse_buttons = left ∷ right ∷ middle ∷ side ∷ extra ∷ forward ∷ back ∷ task ∷ []

mouse_at-number : (b : MouseButton) → get_or mouse_buttons (mouse_number b) left ≡ b
unfolding mouse_number mouse_buttons
mouse_at-number left = refl
mouse_at-number _ = refl

-- `derive(PartialEq)`.
unfoldable pub mouse_beq : MouseButton → MouseButton → Bool
unfolding mouse_number
mouse_beq a b = nat_beq (mouse_number a) (mouse_number b)

pub mouse_beq_iff : (a b : MouseButton) → (mouse_beq a b ≡ true) ↔ (a ≡ b)
unfolding mouse_beq
mouse_beq_iff = number_beq_iff mouse_number (λ i. get_or mouse_buttons i left) mouse_at-number

instance unfoldable pub mouse_eq : Eq MouseButton
unfolding mouse_beq
mouse_eq = record { beq = mouse_beq; beq_iff = mouse_beq_iff }

gamepad_number : GamepadButton → ℕ
gamepad_number south = 0
gamepad_number east = 1
gamepad_number north = 2
gamepad_number west = 3
gamepad_number left_bumper = 4
gamepad_number right_bumper = 5
gamepad_number left_trigger = 6
gamepad_number right_trigger = 7
gamepad_number select = 8
gamepad_number start = 9
gamepad_number guide = 10
gamepad_number left_stick = 11
gamepad_number right_stick = 12
gamepad_number dpad_up = 13
gamepad_number dpad_down = 14
gamepad_number dpad_left = 15
gamepad_number dpad_right = 16
gamepad_number paddle_left_upper = 17
gamepad_number paddle_left_lower = 18
gamepad_number paddle_right_upper = 19
gamepad_number paddle_right_lower = 20

gamepad_buttons : List GamepadButton
gamepad_buttons =
    south ∷ east ∷ north ∷ west ∷ left_bumper ∷ right_bumper ∷ left_trigger ∷ right_trigger ∷ select
    ∷ start ∷ guide ∷ left_stick ∷ right_stick ∷ dpad_up ∷ dpad_down ∷ dpad_left ∷ dpad_right
    ∷ paddle_left_upper ∷ paddle_left_lower ∷ paddle_right_upper ∷ paddle_right_lower ∷ []

gamepad_at-number : (b : GamepadButton) → get_or gamepad_buttons (gamepad_number b) south ≡ b
unfolding gamepad_number gamepad_buttons
gamepad_at-number south = refl
gamepad_at-number _ = refl

-- `derive(PartialEq)`.
unfoldable pub gamepad_beq : GamepadButton → GamepadButton → Bool
unfolding gamepad_number
gamepad_beq a b = nat_beq (gamepad_number a) (gamepad_number b)

pub gamepad_beq_iff : (a b : GamepadButton) → (gamepad_beq a b ≡ true) ↔ (a ≡ b)
unfolding gamepad_beq
gamepad_beq_iff =
    number_beq_iff gamepad_number (λ i. get_or gamepad_buttons i south) gamepad_at-number

instance unfoldable pub gamepad_eq : Eq GamepadButton
unfolding gamepad_beq
gamepad_eq = record { beq = gamepad_beq; beq_iff = gamepad_beq_iff }
