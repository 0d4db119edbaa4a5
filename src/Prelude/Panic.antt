-- ===== src/Prelude/Panic.antt =====
-- Code that may panic: `none` is the panic. `Ensures P r` says that `r` did not panic and that what
-- it returned satisfies `P`.
use mathlib.Core.Path.{◌≡◌, refl, sym, subst}
use mathlib.Core.Option.{Option, none, some}

infixl 5 ◌>>=◌
abbrev pub ◌>>=◌ {ℓ κ} : {A : Type ℓ} {B : Type κ} → Option A → (A → Option B) → Option B
none >>= f = none
some a >>= f = f a

abbrev pub Ensures {ℓ} : {A : Type ℓ} → (A → Type 0) → Option A → Type 0
Ensures P none = ⊥
Ensures P (some a) = P a

pub Ensures-bind {ℓ κ} :
    {A : Type ℓ} {B : Type κ} (P : A → Type 0) (Q : B → Type 0) (r : Option A) (f : A → Option B)
    → Ensures P r
    → ((a : A) → P a → Ensures Q (f a))
    → Ensures Q (r >>= f)
Ensures-bind P Q none f h k = absurd h
Ensures-bind P Q (some a) f h k = k a h

pub Ensures-imp {ℓ} :
    {A : Type ℓ} (P Q : A → Type 0) (r : Option A)
    → ((a : A) → P a → Q a)
    → Ensures P r
    → Ensures Q r
Ensures-imp P Q none f h = h
Ensures-imp P Q (some a) f h = f a h

-- What was ensured, as a result.
pub Ensures-some {ℓ} :
    {A : Type ℓ} (P : A → Type 0) (r : Option A) → Ensures P r → (a : A) × (r ≡ some a) × P a
Ensures-some P none h = absurd h
Ensures-some P (some a) h = (a, refl, h)

pub Ensures-of_eq {ℓ} :
    {A : Type ℓ} (P : A → Type 0) (r : Option A) (a : A) → r ≡ some a → P a → Ensures P r
Ensures-of_eq P r a e h = subst (Ensures P) (sym e) h

-- `Option::unwrap_or`.
abbrev pub unwrap_or {ℓ} : {A : Type ℓ} → Option A → A → A
unwrap_or none d = d
unwrap_or (some a) d = a

-- What a result satisfies, unless it is a panic.
abbrev pub Allows {ℓ} : {A : Type ℓ} → (A → Type 0) → Option A → Type 0
Allows P none = Unit {0}
Allows P (some a) = P a

pub Allows-bind {ℓ κ} :
    {A : Type ℓ} {B : Type κ} (P : A → Type 0) (Q : B → Type 0) (r : Option A) (f : A → Option B)
    → Allows P r
    → ((a : A) → P a → Allows Q (f a))
    → Allows Q (r >>= f)
Allows-bind P Q none f h k = tt
Allows-bind P Q (some a) f h k = k a h

pub Allows-any {ℓ} : {A : Type ℓ} (r : Option A) → Allows (λ a. Unit {0}) r
Allows-any none = tt
Allows-any (some a) = tt

pub Ensures-Allows {ℓ} :
    {A : Type ℓ} (P Q : A → Type 0) (r : Option A) → Ensures P r → Allows Q r → Ensures Q r
Ensures-Allows P Q none h k = h
Ensures-Allows P Q (some a) h k = k

pub Ensures-both {ℓ} :
    {A : Type ℓ} (P Q : A → Type 0) (r : Option A)
    → Ensures P r
    → Allows Q r
    → Ensures (λ a. Q a × P a) r
Ensures-both P Q none h k = h
Ensures-both P Q (some a) h k = (k, h)
