-- ===== src/MiniAnt/Hash/Chains.antt =====
-- One chain of the table as a map from keys, up to the equality of keys.
use recycle_bin.Prelude.{
  ℕ, zero, suc, ◌≡◌, refl, sym, ◌∙◌, ◌≢◌, inl, inr, Bool, true, false, Option, none, some, [], ◌∷◌,
  arith, if◌then◌else◌, Bool-cases,
}
use recycle_bin.Prelude.Chars.{Bytes}
use recycle_bin.Prelude.First.{next}
use recycle_bin.MiniAnt.Hash.{Chain, find_place, put_val, unlink, val_at, place_val}

-- What the table asks of its test of keys: an equality.
pub record IsKeyEq (same : Bytes → Bytes → Bool) : Type 0 where
  pub self : (a : Bytes) → same a a ≡ true
  pub left : (a b c : Bytes) → same a b ≡ true → same a c ≡ same b c
  pub right : (a b c : Bytes) → same a b ≡ true → same c a ≡ same c b

next-zero : (o : Option ℕ) → next o ≢ some 0
next-zero none h = cc
next-zero (some k) h = cc

next-suc : (o : Option ℕ) (k : ℕ) → next o ≡ some (suc k) → o ≡ some k
next-suc none k h = cc
next-suc (some j) k h = ground arith

next-none : (o : Option ℕ) → next o ≡ none → o ≡ none
next-none none h = refl
next-none (some j) h = cc

module _ {ℓ} {V : Type ℓ} where
  -- The value of the first element whose key passes.
  unfoldable pub find : (Bytes → Bool) → Chain V → Option V
  find f [] = none
  find f (e ∷ c) = if f e.0 then some e.1 else find f c

  place_val-next :
      (e : Bytes × V) (c : Chain V) (o : Option ℕ) → place_val (e ∷ c) (next o) ≡ place_val c o
  unfolding place_val val_at
  place_val-next e c none = refl
  place_val-next e c (some k) = refl

  pub place-find : (f : Bytes → Bool) (c : Chain V) → place_val c (find_place f c) ≡ find f c
  unfolding find_place find val_at place_val
  place-find f [] = refl
  place-find f (e ∷ c) = elim (Bool-cases (f e.0)) [
    | inl h ↦ rw h refl
    | inr h ↦ rw h (place_val-next e c (find_place f c) ∙ place-find f c)
  ]

  -- No two elements have the same key.
  unfoldable pub Distinct : (Bytes → Bytes → Bool) → Chain V → Type ℓ
  Distinct same [] = Unit
  Distinct same (e ∷ c) = (find (λ k. same k e.0) c ≡ none) × Distinct same c

  pub find-congr :
      (f g : Bytes → Bool) (c : Chain V) → ((x : Bytes) → f x ≡ g x) → find f c ≡ find g c
  unfolding find
  find-congr f g [] h = refl
  find-congr f g (e ∷ c) h = rw (h e.0, find-congr f g c h)

  module _ (f : Bytes → Bool) (e : Bytes × V) (c : Chain V) where
    place-zero : find_place f (e ∷ c) ≡ some 0 → f e.0 ≡ true
    unfolding find_place
    place-zero h = ground (arith, next-zero (find_place f c))

    place-suc :
        (k : ℕ) → find_place f (e ∷ c) ≡ some (suc k) → (f e.0 ≡ false) × (find_place f c ≡ some k)
    unfolding find_place
    place-suc k h = ground (arith, next-suc (find_place f c) k)

  pub find-none : (f : Bytes → Bool) (c : Chain V) → find_place f c ≡ none → find f c ≡ none
  unfolding find_place find
  find-none f [] h = refl
  find-none f (e ∷ c) h = ground (arith, next-none (find_place f c), find-none f c)

  find-none-put_val :
      (f : Bytes → Bool) (v : V) (k : ℕ) (c : Chain V)
      → find f c ≡ none
      → find f (put_val v k c) ≡ none
  unfolding find put_val
  find-none-put_val f v k [] h = refl
  find-none-put_val f v zero (e ∷ c) h = ground arith
  find-none-put_val f v (suc k) (e ∷ c) h = ground (arith, find-none-put_val f v k c)

  find-none-unlink :
      (f : Bytes → Bool) (k : ℕ) (c : Chain V) → find f c ≡ none → find f (unlink k c) ≡ none
  unfolding find unlink
  find-none-unlink f k [] h = refl
  find-none-unlink f zero (e ∷ c) h = ground arith
  find-none-unlink f (suc k) (e ∷ c) h = ground (arith, find-none-unlink f k c)

  pub Distinct-put_val :
      (same : Bytes → Bytes → Bool) (v : V) (k : ℕ) (c : Chain V)
      → Distinct same c
      → Distinct same (put_val v k c)
  unfolding Distinct put_val
  Distinct-put_val same v k [] d = tt
  Distinct-put_val same v zero (e ∷ c) d = d
  Distinct-put_val same v (suc k) (e ∷ c) d =
      (find-none-put_val (λ x. same x e.0) v k c d.0, Distinct-put_val same v k c d.1)

  pub Distinct-unlink :
      (same : Bytes → Bytes → Bool) (k : ℕ) (c : Chain V)
      → Distinct same c
      → Distinct same (unlink k c)
  unfolding Distinct unlink
  Distinct-unlink same k [] d = tt
  Distinct-unlink same zero (e ∷ c) d = d.1
  Distinct-unlink same (suc k) (e ∷ c) d =
      (find-none-unlink (λ x. same x e.0) k c d.0, Distinct-unlink same k c d.1)

  module _ {same : Bytes → Bytes → Bool} (laws : IsKeyEq same) (key q : Bytes) where
    -- After an assignment at the place of `key`, what is found under `q`.
    pub find-put_val :
        (v : V) (c : Chain V) (k : ℕ)
        → find_place (λ x. same x key) c ≡ some k
        → find (λ x. same x q) (put_val v k c)
          ≡ (if same key q then some v else find (λ x. same x q) c)
    unfolding find put_val
    find-put_val v [] k h = unfold find_place in cc
    find-put_val v (e ∷ c) zero h =
        rw (laws.left e.0 key q (place-zero (λ x. same x key) e c h)) (ground arith)
    find-put_val v (e ∷ c) (suc k) h =
        let (miss, found) = place-suc (λ x. same x key) e c k h in
        rw (find-put_val v c k found) (ground (arith, laws.right key q e.0))

    pub find-unlink :
        (c : Chain V) (k : ℕ)
        → Distinct same c
        → find_place (λ x. same x key) c ≡ some k
        → find (λ x. same x q) (unlink k c) ≡ (if same key q then none else find (λ x. same x q) c)
    unfolding find unlink Distinct
    find-unlink [] k d h = unfold find_place in cc
    find-unlink (e ∷ c) zero d h =
        let alike = laws.left e.0 key q (place-zero (λ x. same x key) e c h) in
        elim (Bool-cases (same e.0 q)) [
          | inl i ↦ rw (← alike, i) (find-congr _ _ c (λ x. sym (laws.right e.0 q x i)) ∙ d.0)
          | inr o ↦ rw (← alike, o) refl
        ]
    find-unlink (e ∷ c) (suc k) d h =
        let (miss, found) = place-suc (λ x. same x key) e c k h in
        rw (find-unlink c k d.1 found) (ground (arith, laws.right key q e.0))
