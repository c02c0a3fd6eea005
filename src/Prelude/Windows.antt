-- ===== src/Prelude/Windows.antt =====
-- What is read of a list where another has been put into it.
use Prim.Native.Nat.{ℕ, zero, suc, ◌+◌, ◌≤◌}
use mathlib.Core.Path.{◌≡◌, refl, sym, ap, ◌∙◌}
use mathlib.Core.List.{List, [], ◌∷◌, ◌++◌, append-nil}
use native.Mathlib.Omega.{arith}
use recycle_bin.Prelude.Lists.{
  length, take, drop, length-take, take-length-append, drop-length-append,
}

module _ {ℓ} {A : Type ℓ} where
  take-front : (m r : List A) (n p : ℕ) → n ≤ p → p ≤ length m → take n (take p m ++ r) ≡ take n m
  take-front m r zero p h k = refl
  take-front m r (suc n) zero h k = absurd (omega arith)
  take-front [] r (suc n) (suc p) h k = absurd (omega arith)
  take-front (x ∷ m) r (suc n) (suc p) h k =
      ap (λ l. x ∷ l) (take-front m r n p (omega arith) (omega arith))

  -- What is in front of a place, where something else is put at it.
  pub window-front :
      (m r : List A) (off n p : ℕ)
      → off + n ≤ p
      → p ≤ length m
      → take n (drop off (take p m ++ r)) ≡ take n (drop off m)
  window-front m r zero n p h k = take-front m r n p (omega arith) k
  window-front m r (suc off) n zero h k = absurd (omega arith)
  window-front [] r (suc off) n (suc p) h k = absurd (omega arith)
  window-front (x ∷ m) r (suc off) n (suc p) h k =
      window-front m r off n p (omega arith) (omega arith)

  drop-nil : (n : ℕ) → drop {A = A} n [] ≡ []
  drop-nil zero = refl
  drop-nil (suc n) = refl

  drop-drop : (m : List A) (a b : ℕ) → drop a (drop b m) ≡ drop (b + a) m
  drop-drop m a zero = ap (λ n. drop n m) (omega arith)
  drop-drop [] a (suc b) = drop-nil a ∙ sym (drop-nil (suc b + a))
  drop-drop (x ∷ m) a (suc b) = drop-drop m a b ∙ ap (λ n. drop n (x ∷ m)) (shift a b)
    where
      shift : (k l : ℕ) → suc (l + k) ≡ suc l + k
      shift k l = omega arith

  -- What is at a place after it has been put there, and what is behind it.
  pub window-there :
      (m v r : List A) (p : ℕ) → p ≤ length m → take (length v) (drop p (take p m ++ (v ++ r))) ≡ v
  window-there m v r p h =
      let at : length (take p m) ≡ p = omega (arith, length-take p m) in
      ap (λ n. take (length v) (drop n (take p m ++ (v ++ r))))
        (sym at ∙ sym (plus_zero (length (take p m))))
      ∙ ap (take (length v)) (drop-length-append (take p m) (v ++ r) 0)
      ∙ ap (λ n. take n (v ++ r)) (sym (plus_zero (length v)))
      ∙ take-length-append v r 0
      ∙ append-nil v
    where
      plus_zero : (n : ℕ) → n + 0 ≡ n
      plus_zero n = omega arith

  pub window-behind :
      (m v : List A) (p d : ℕ)
      → p ≤ length m
      → drop (p + length v + d) (take p m ++ (v ++ drop (p + length v) m))
        ≡ drop (p + length v + d) m
  window-behind m v p d h =
      let at : length (take p m) ≡ p = omega (arith, length-take p m) in
      let e : p + length v + d ≡ length (take p m) + (length v + d) = omega (arith, at) in
      ap (λ n. drop n (take p m ++ (v ++ drop (p + length v) m))) e
      ∙ drop-length-append (take p m) (v ++ drop (p + length v) m) (length v + d)
      ∙ drop-length-append v (drop (p + length v) m) d
      ∙ drop-drop m d (p + length v)
