-- ===== src/Prelude/Eq.antt =====
-- The bound `Eq` of the keys and enums that the program compares with `==`.
use mathlib.Core.Path.{◌≡◌, refl, sym, ap, ◌∙◌}
use mathlib.Core.Logic.{◌↔◌}
use mathlib.Core.Bool.{Bool, true}
use Prim.Native.Nat.{ℕ}
use steam_controller_daemon.Prelude.Tests.{nat_beq, nat_beq_iff}

pub record Eq {ℓ} (Key : Type ℓ) : Type ℓ where
  pub beq : Key → Key → Bool
  pub beq_iff : (x y : Key) → (beq x y ≡ true) ↔ (x ≡ y)

infix 50 ◌==◌
abbrev pub ◌==◌ {ℓ} : {Key : Type ℓ} ⦃eq : Eq Key⦄ (x y : Key) → Bool
◌==◌ ⦃eq⦄ x y = eq.beq x y

pub beq_refl {ℓ} : {Key : Type ℓ} ⦃eq : Eq Key⦄ (x : Key) → (x == x) ≡ true
beq_refl ⦃eq⦄ x = (eq.beq_iff x x).1 refl

instance abbrev pub nat_eq : Eq ℕ
nat_eq = record { beq_iff = nat_beq_iff; beq = nat_beq }

-- An enum is compared by its number.
module _ {ℓ} {A : Type ℓ} (number : A → ℕ) (at : ℕ → A)
    (at-number : (a : A) → at (number a) ≡ a) where
  pub number_beq_iff : (a b : A) → (nat_beq (number a) (number b) ≡ true) ↔ (a ≡ b)
  number_beq_iff a b = (
    λ h. sym (at-number a) ∙ ap at ((nat_beq_iff _ _).0 h) ∙ at-number b,
    λ e. (nat_beq_iff _ _).1 (ap number e),
  )
