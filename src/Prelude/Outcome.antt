-- ===== src/Prelude/Outcome.antt =====
-- Code that returns a `Result` and may panic. `Yields P r` says that `r` did not panic and that what
-- it returned, if it was no error, satisfies `P`.
use mathlib.Core.Path.{◌≡◌, refl}
use mathlib.Core.Bool.{Bool, true, false}
use steam_controller_daemon.Prelude.{if◌then◌else◌, ◌⊎◌, inl, inr}

pub data Outcome {ℓ} (E : Type 0) (A : Type ℓ) : Type ℓ where
  ok : A → Outcome E A
  err : E → Outcome E A
  panics : Outcome E A

infixl 5 ◌>>=◌ ◌>>◌
abbrev pub ◌>>=◌ {ℓ κ} :
    {E : Type 0} {A : Type ℓ} {B : Type κ} → Outcome E A → (A → Outcome E B) → Outcome E B
ok a >>= f = f a
err e >>= f = err e
panics >>= f = panics

abbrev pub ◌>>◌ {ℓ} : {E : Type 0} {B : Type ℓ} → Outcome E (Unit {0}) → Outcome E B → Outcome E B
m >> k = m >>= λ _. k

abbrev pub Yields {ℓ} : {E : Type 0} {A : Type ℓ} → (A → Type 0) → Outcome E A → Type 0
Yields P (ok a) = P a
Yields P (err e) = Unit {0}
Yields P panics = ⊥

pub Yields-bind {ℓ κ} :
    {E : Type 0} {A : Type ℓ} {B : Type κ} (P : A → Type 0) (Q : B → Type 0) (r : Outcome E A)
    (f : A → Outcome E B)
    → Yields P r
    → ((a : A) → P a → Yields Q (f a))
    → Yields Q (r >>= f)
Yields-bind P Q (ok a) f h k = k a h
Yields-bind P Q (err e) f h k = tt
Yields-bind P Q panics f h k = absurd h

pub Yields-imp {ℓ} :
    {E : Type 0} {A : Type ℓ} (P Q : A → Type 0) (r : Outcome E A)
    → ((a : A) → P a → Q a)
    → Yields P r
    → Yields Q r
Yields-imp P Q (ok a) f h = f a h
Yields-imp P Q (err e) f h = tt
Yields-imp P Q panics f h = absurd h

-- A result that did not panic.
abbrev pub IsSafe {ℓ} : {E : Type 0} {A : Type ℓ} → Outcome E A → Type 0
IsSafe r = Yields (λ a. Unit {0}) r

pub Yields-IsSafe {ℓ} :
    {E : Type 0} {A : Type ℓ} (P : A → Type 0) (r : Outcome E A) → Yields P r → IsSafe r
Yields-IsSafe P r h = Yields-imp P (λ a. Unit {0}) r (λ a h. tt) h

-- The binding of a result that did not panic.
pub IsSafe-bind {ℓ κ} :
    {E : Type 0} {A : Type ℓ} {B : Type κ} (Q : B → Type 0) (r : Outcome E A) (f : A → Outcome E B)
    → IsSafe r
    → ((a : A) → Yields Q (f a))
    → Yields Q (r >>= f)
IsSafe-bind Q r f h k = Yields-bind (λ a. Unit {0}) Q r f h (λ a h. k a)

-- A test, on either side.
pub Yields-if {ℓ} :
    {E : Type 0} {A : Type ℓ} (Q : A → Type 0) (b : Bool) (r s : Outcome E A)
    → Yields Q r
    → Yields Q s
    → Yields Q (if b then r else s)
Yields-if Q true r s h k = h
Yields-if Q false r s h k = k

-- What a result is, if it is no panic.
pub Yields-cases {ℓ} :
    {E : Type 0} {A : Type ℓ} (P : A → Type 0) (r : Outcome E A)
    → Yields P r
    → ((a : A) × (r ≡ ok a) × P a) ⊎ ((e : E) × (r ≡ err e))
Yields-cases P (ok a) h = inl (a, refl, h)
Yields-cases P (err e) h = inr (e, refl)
Yields-cases P panics h = absurd h
