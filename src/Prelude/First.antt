-- ===== src/Prelude/First.antt =====
-- First and last positions of a byte that passes a test: what the searching functions look for.
use recycle_bin.Prelude.{
  ℕ, zero, suc, ◌+◌, ◌<◌, ◌≡◌, refl, Bool, true, false, Option, none, some, inl, inr, List, [], ◌∷◌,
  arith, get_elem?, if◌then◌else◌, Bool-cases,
}

-- A position in the tail of a list, seen from the list; and a position seen from an address.
abbrev pub next : Option ℕ → Option ℕ
next none = none
next (some i) = some (suc i)

abbrev pub at : ℕ → Option ℕ → Option ℕ
at i none = none
at i (some k) = some (i + k)

pub at-next : (i : ℕ) (o : Option ℕ) → at i (next o) ≡ at (suc i) o
at-next i none = refl
at-next i (some k) = ground arith

pub at-zero : (o : Option ℕ) → at 0 o ≡ o
at-zero none = refl
at-zero (some k) = ground arith

module _ {ℓ} {A : Type ℓ} (p : A → Bool) where
  unfoldable pub first_index : List A → Option ℕ
  first_index [] = none
  first_index (x ∷ xs) = if p x then some 0 else next (first_index xs)

  abbrev pub last_step : A → Option ℕ → Option ℕ
  last_step x (some i) = some (suc i)
  last_step x none = if p x then some 0 else none

  unfoldable pub last_index : List A → Option ℕ
  last_index [] = none
  last_index (x ∷ xs) = last_step x (last_index xs)

  -- No element passes; or the one at the position does, and none before it.
  abbrev pub IsFirst : List A → Option ℕ → Type ℓ
  IsFirst xs none = (i : ℕ) (x : A) → get_elem? xs i ≡ some x → p x ≡ false
  IsFirst xs (some k) =
      ((x : A) × (get_elem? xs k ≡ some x) × (p x ≡ true))
      × ((i : ℕ) (x : A) → i < k → get_elem? xs i ≡ some x → p x ≡ false)

  abbrev pub IsLast : List A → Option ℕ → Type ℓ
  IsLast xs none = (i : ℕ) (x : A) → get_elem? xs i ≡ some x → p x ≡ false
  IsLast xs (some k) =
      ((x : A) × (get_elem? xs k ≡ some x) × (p x ≡ true))
      × ((i : ℕ) (x : A) → k < i → get_elem? xs i ≡ some x → p x ≡ false)

  -- What fails at the head and everywhere in the tail, as far as a bound says, fails in the list.
  fail-cons :
      (P Q : ℕ → Type 0) (x : A) (xs : List A)
      → p x ≡ false
      → ((i : ℕ) → P (suc i) → Q i)
      → ((i : ℕ) (y : A) → Q i → get_elem? xs i ≡ some y → p y ≡ false)
      → (i : ℕ) (y : A) → P i
      → get_elem? (x ∷ xs) i ≡ some y
      → p y ≡ false
  fail-cons P Q x xs e into h zero y b g = ground arith
  fail-cons P Q x xs e into h (suc i) y b g = h i y (into i b) g

  IsFirst-cons :
      (x : A) (xs : List A) (o : Option ℕ) → p x ≡ false → IsFirst xs o → IsFirst (x ∷ xs) (next o)
  IsFirst-cons x xs none e h =
      λ i y. fail-cons (λ _. Unit) (λ _. Unit) x xs e (λ _ _. tt) (λ j z _. h j z) i y tt
  IsFirst-cons x xs (some k) e h =
      (h.0, fail-cons (λ i. i < suc k) (λ i. i < k) x xs e (λ i b. omega arith) h.1)

  pub first_index-IsFirst : (xs : List A) → IsFirst xs (first_index xs)
  unfolding first_index
  first_index-IsFirst [] = λ i x e. cc
  first_index-IsFirst (x ∷ xs) = elim (Bool-cases (p x)) [
    | inl e ↦ rw e ((x, refl, e), λ i y h. absurd (omega arith))
    | inr e ↦ rw e (IsFirst-cons x xs (first_index xs) e (first_index-IsFirst xs))
  ]

  IsLast-some : (x : A) (xs : List A) (k : ℕ) → IsLast xs (some k) → IsLast (x ∷ xs) (some (suc k))
  IsLast-some x xs k h = (h.0, after)
    where
      after : (i : ℕ) (y : A) → suc k < i → get_elem? (x ∷ xs) i ≡ some y → p y ≡ false
      after zero y b g = absurd (omega arith)
      after (suc i) y b g = h.1 i y (omega arith) g

  IsLast-none :
      (x : A) (xs : List A) → IsLast xs none → IsLast (x ∷ xs) (if p x then some 0 else none)
  IsLast-none x xs h = elim (Bool-cases (p x)) [
    | inl e ↦ rw e ((x, refl, e), after)
    | inr e ↦
        rw e λ i y. fail-cons (λ _. Unit) (λ _. Unit) x xs e (λ _ _. tt) (λ j z _. h j z) i y tt
  ]
    where
      after : (i : ℕ) (y : A) → 0 < i → get_elem? (x ∷ xs) i ≡ some y → p y ≡ false
      after zero y b g = absurd (omega arith)
      after (suc i) y b g = h i y g

  IsLast-step : (x : A) (xs : List A) (o : Option ℕ) → IsLast xs o → IsLast (x ∷ xs) (last_step x o)
  IsLast-step x xs none h = IsLast-none x xs h
  IsLast-step x xs (some k) h = IsLast-some x xs k h

  pub last_index-IsLast : (xs : List A) → IsLast xs (last_index xs)
  unfolding last_index
  last_index-IsLast [] = λ i x e. cc
  last_index-IsLast (x ∷ xs) = IsLast-step x xs (last_index xs) (last_index-IsLast xs)
