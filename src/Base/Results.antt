-- ===== src/Base/Results.antt =====
-- The result of a call: a value, a failed `ASSERT` or a `PANIC`, an access outside an object, or a
-- loop that has not ended within its fuel.
use mathlib.Core.Path.{◌≡◌, refl, ap}
use mathlib.Core.Bool.{Bool, true, false}

pub data Outcome {ℓ} (A : Type ℓ) : Type ℓ where
  ok : A → Outcome A
  panic : Outcome A
  fault : Outcome A
  hang : Outcome A

infixl 5 ◌>>=◌ ◌>>◌
abbrev pub ◌>>=◌ {ℓ κ} : {A : Type ℓ} {B : Type κ} → Outcome A → (A → Outcome B) → Outcome B
ok a >>= f = f a
panic >>= f = panic
fault >>= f = fault
hang >>= f = hang

abbrev pub ◌>>◌ {ℓ} : {B : Type ℓ} → Outcome (Unit {0}) → Outcome B → Outcome B
m >> k = m >>= λ _. k

-- `ASSERT (b)`.
abbrev pub assert : Bool → Outcome (Unit {0})
assert true = ok tt
assert false = panic

-- `P` holds of the value that a call returns; a call that returns none has no such value.
abbrev pub Returns {ℓ} : {A : Type ℓ} → (A → Type 0) → Outcome A → Type 0
Returns P (ok a) = P a
Returns P panic = ⊥
Returns P fault = ⊥
Returns P hang = ⊥

pub Returns-bind {ℓ κ} :
    {A : Type ℓ} {B : Type κ} (P : A → Type 0) (Q : B → Type 0) (m : Outcome A) (f : A → Outcome B)
    → Returns P m
    → ((a : A) → P a → Returns Q (f a))
    → Returns Q (m >>= f)
Returns-bind P Q (ok a) f h k = k a h
Returns-bind P Q panic f h k = absurd h
Returns-bind P Q fault f h k = absurd h
Returns-bind P Q hang f h k = absurd h

pub Returns-mono {ℓ} :
    {A : Type ℓ} (P Q : A → Type 0) (m : Outcome A)
    → Returns P m
    → ((a : A) → P a → Q a)
    → Returns Q m
Returns-mono P Q (ok a) h k = k a h
Returns-mono P Q panic h k = absurd h
Returns-mono P Q fault h k = absurd h
Returns-mono P Q hang h k = absurd h

-- What a call that returns returned.
pub Returns-eq {ℓ} :
    {A : Type ℓ} (P : A → Type 0) (m : Outcome A) → Returns P m → (a : A) × (m ≡ ok a) × P a
Returns-eq P (ok a) h = (a, refl, h)
Returns-eq P panic h = absurd h
Returns-eq P fault h = absurd h
Returns-eq P hang h = absurd h

-- A call that returns a known value.
pub eq_ok : {A : Type 0} (m : Outcome A) (a : A) → Returns (λ b. b ≡ a) m → m ≡ ok a
eq_ok (ok b) a h = ap ok h
eq_ok panic a h = absurd h
eq_ok fault a h = absurd h
eq_ok hang a h = absurd h

pub bind_assoc :
    {A : Type 0} {B : Type 0} {C : Type 0} (m : Outcome A) (f : A → Outcome B) (g : B → Outcome C)
    → (m >>= f >>= g) ≡ (m >>= λ a. f a >>= g)
bind_assoc (ok a) f g = refl
bind_assoc panic f g = refl
bind_assoc fault f g = refl
bind_assoc hang f g = refl
