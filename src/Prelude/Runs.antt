-- ===== src/Prelude/Runs.antt =====
-- What a piece of C code does: it returns a value, or it has undefined behaviour (a read or a write
-- outside an object, an overflow of `int`, a failed assertion), which is the one result `fault`.
use mathlib.Core.Path.{◌≡◌, refl}
use mathlib.Core.Bool.{Bool, true, false}
use mathlib.Core.Option.{Option, none, some}

pub data Run {ℓ} (A : Type ℓ) : Type ℓ where
  ok : A → Run A
  fault : Run A

infixl 5 ◌>>=◌
abbrev pub ◌>>=◌ {ℓ κ} : {A : Type ℓ} {B : Type κ} → Run A → (A → Run B) → Run B
ok a >>= f = f a
fault >>= f = fault

infixl 5 ◌>>◌
abbrev pub ◌>>◌ {ℓ} : {B : Type ℓ} → Run (Unit {0}) → Run B → Run B
m >> k = m >>= λ _. k

-- `assert(b)`, and every other condition without which the code has no meaning.
abbrev pub assert : Bool → Run (Unit {0})
assert true = ok tt
assert false = fault

abbrev pub from_option {ℓ} : {A : Type ℓ} → Option A → Run A
from_option none = fault
from_option (some a) = ok a

-- The run returns, with a value that satisfies `P`.
abbrev pub Returns {ℓ κ} : {A : Type ℓ} → (A → Type κ) → Run A → Type (ℓ ⊔ κ)
Returns {A} P r = (a : A) × (r ≡ ok a) × P a

pub bind_ok {ℓ} : {A : Type ℓ} (r : Run A) → (r >>= λ a. ok a) ≡ r
bind_ok (ok a) = refl
bind_ok fault = refl

-- Two binds in a row, bracketed to the right.
pub bind_regroup {ℓ κ μ} :
    {A : Type ℓ} {B : Type κ} {C : Type μ} (m : Run A) (first : A → Run B) (second : B → Run C)
    → ((m >>= first) >>= second) ≡ (m >>= λ x. (first x >>= second))
bind_regroup fault first second = refl
bind_regroup (ok x) first second = refl
