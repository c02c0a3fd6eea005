-- ===== src/MiniAnt/Queue/Chain.antt =====
-- Chains of queue elements on the heap.
use recycle_bin.Prelude.{
  ℕ, ◌≡◌, refl, ap, ◌∙◌, ◌≢◌, inl, inr, Bool, true, false, ◌||◌, Option, some, List, [], ◌∷◌, ◌++◌,
  arith, ◌==◌, Bool-cases, ==_iff,
}
use mathlib.Core.Path.{subst}
use recycle_bin.MiniAnt.Queue.{Ptr, null, QueueElem, elem, Heap, write}

-- What a queue holds: address and item of each element, in order.
abbrev pub Slots : Type 0
Slots = List (Ptr × ℕ)

abbrev pub occupies : Ptr → Slots → Bool
occupies a [] = false
occupies a ((p, _) ∷ xs) = (a == p) || occupies a xs

-- The address of the first element, or what stands behind the cells.
abbrev pub start : Slots → Ptr → Ptr
start [] stop = stop
start ((a, _) ∷ xs) stop = a

-- The address of the last element, or `d`.
abbrev pub last_of : Slots → Ptr → Ptr
last_of [] d = d
last_of ((a, _) ∷ xs) d = last_of xs a

-- The elements lie at distinct addresses and each points at the next, the last one at `stop`.
abbrev pub Chain : Heap → Slots → Ptr → Type 0
Chain h [] stop = Unit
Chain h ((a, d) ∷ xs) stop =
    (a ≢ null) × (h a ≡ some (elem d (start xs stop))) × (occupies a xs ≡ false) × Chain h xs stop

abbrev pub Disjoint : Slots → Slots → Type 0
Disjoint xs ys = (a : Ptr) → occupies a xs ≡ true → occupies a ys ≡ false

pub occupies-append :
    (a : Ptr) (xs ys : Slots) → occupies a (xs ++ ys) ≡ (occupies a xs || occupies a ys)
occupies-append a [] ys = refl
occupies-append a ((p, d) ∷ xs) ys = ground (arith, occupies-append a xs ys)

pub start-append : (xs ys : Slots) (stop : Ptr) → start (xs ++ ys) stop ≡ start xs (start ys stop)
start-append [] ys stop = refl
start-append (x ∷ xs) ys stop = refl

pub last_of-append : (xs ys : Slots) (d : Ptr) → last_of (xs ++ ys) d ≡ last_of ys (last_of xs d)
last_of-append [] ys d = refl
last_of-append ((a, _) ∷ xs) ys d = last_of-append xs ys a

pub Chain-frame :
    (h g : Heap) (xs : Slots) (stop : Ptr)
    → ((a : Ptr) → occupies a xs ≡ true → g a ≡ h a)
    → Chain h xs stop
    → Chain g xs stop
Chain-frame h g [] stop same c = tt
Chain-frame h g ((a, d) ∷ xs) stop same (ne, e, out, c) =
    (ne, same a (ground arith) ∙ e, out, Chain-frame h g xs stop (λ b i. same b (ground arith)) c)

pub last_of-occupies :
    (x : Ptr × ℕ) (xs : Slots) (d : Ptr) → occupies (last_of (x ∷ xs) d) (x ∷ xs) ≡ true
last_of-occupies (a, v) [] d = ground arith
last_of-occupies (a, v) ((b, w) ∷ xs) d = ground (arith, last_of-occupies (b, w) xs a)

-- The last element of a chain, with its item.
pub Chain-last :
    (h : Heap) (x : Ptr × ℕ) (xs : Slots) (stop d : Ptr)
    → Chain h (x ∷ xs) stop
    → (last_of (x ∷ xs) d ≢ null) × ((v : ℕ) × (h (last_of (x ∷ xs) d) ≡ some (elem v stop)))
Chain-last h (a, v) [] stop d (ne, e, out, c) = (ne, (v, e))
Chain-last h (a, v) (y ∷ xs) stop d (ne, e, out, c) = Chain-last h y xs stop a c

pub write-ne :
    (h : Heap) (p a : Ptr) (c : Option QueueElem) → (a == p) ≡ false → write h p c a ≡ h a
unfolding write
write-ne h p a c e = rw e

pub write-eq : (h : Heap) (p : Ptr) (c : Option QueueElem) → write h p c p ≡ c
unfolding write
write-eq h p c = ground arith

pub occupies-ne :
    (a l : Ptr) (xs : Slots) → occupies l xs ≡ true → occupies a xs ≡ false → (a == l) ≡ false
occupies-ne a l xs i o = elim (Bool-cases (a == l)) [
  | inl e ↦ let same : a ≡ l = (==_iff a l).0 e in cc (ap (λ p. occupies p xs) same)
  | inr e ↦ e
]

-- A chain whose last element is made to point at another chain is one chain.
pub Chain-link :
    (h : Heap) (x : Ptr × ℕ) (xs ys : Slots) (stop d v : ℕ)
    → Chain h (x ∷ xs) null
    → Chain h ys stop
    → Disjoint (x ∷ xs) ys
    → h (last_of (x ∷ xs) d) ≡ some (elem v null)
    → Chain (write h (last_of (x ∷ xs) d) (some (elem v (start ys stop)))) ((x ∷ xs) ++ ys) stop
Chain-link h (a, w) [] ys stop d v (ne, e, out, c) ends apart at = (
  ne,
  write-eq h a _ ∙ ground arith,
  apart a (ground arith),
  Chain-frame h _ ys stop (λ b i. write-ne h a b _ (occupies-ne' b i)) ends,
)
  where
    occupies-ne' : (b : Ptr) → occupies b ys ≡ true → (b == a) ≡ false
    occupies-ne' b i = ground (arith, apart b)
Chain-link h (a, w) ((b, u) ∷ xs) ys stop d v (ne, e, out, c) ends apart at = (
  ne,
  write-ne h _ a _ (occupies-ne a _ ((b, u) ∷ xs) (last_of-occupies (b, u) xs a) out) ∙ e,
  occupies-append a ((b, u) ∷ xs) ys ∙ rw (out, apart a (ground arith)),
  Chain-link h (b, u) xs ys stop a v c ends (λ p i. apart p (ground arith)) at,
)

module _ (x : Ptr × ℕ) (xs : Slots) (d l : Ptr) (e : last_of (x ∷ xs) d ≡ l) where
  pub last-occupies : occupies l (x ∷ xs) ≡ true
  last-occupies = subst (λ p. occupies p (x ∷ xs) ≡ true) e (last_of-occupies x xs d)

  -- The element at the last address.
  pub last-elem :
      (h : Heap) (stop : Ptr)
      → Chain h (x ∷ xs) stop
      → (l ≢ null) × ((v : ℕ) × (h l ≡ some (elem v stop)))
  last-elem h stop c =
      subst (λ p. (p ≢ null) × ((v : ℕ) × (h p ≡ some (elem v stop)))) e
        (Chain-last h x xs stop d c)

  pub last-link :
      (h : Heap) (v stop : ℕ) (ys : Slots)
      → Chain h (x ∷ xs) null
      → Chain h ys stop
      → Disjoint (x ∷ xs) ys
      → h l ≡ some (elem v null)
      → Chain (write h l (some (elem v (start ys stop)))) ((x ∷ xs) ++ ys) stop
  last-link h v stop ys c ends apart at =
      subst (λ p. Chain (write h p (some (elem v (start ys stop)))) ((x ∷ xs) ++ ys) stop) e
        (Chain-link h x xs ys stop d v c ends apart (rw e at))

-- An address that is not among the cells is none of them.
pub not-occupies-ne :
    (a b : Ptr) (xs : Slots) → occupies a xs ≡ true → occupies b xs ≡ false → (a == b) ≡ false
not-occupies-ne a b xs i o = elim (Bool-cases (a == b)) [
  | inl e ↦ let same : a ≡ b = (==_iff a b).0 e in cc (ap (λ p. occupies p xs) same)
  | inr e ↦ e
]

pub outside-append :
    (a : Ptr) (xs ys : Slots)
    → occupies a (xs ++ ys) ≡ false
    → (occupies a xs ≡ false) × (occupies a ys ≡ false)
outside-append a xs ys o = ground (arith, occupies-append a xs ys)
