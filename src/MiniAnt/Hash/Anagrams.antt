-- ===== src/MiniAnt/Hash/Anagrams.antt =====
-- `ant_hash` on strings that consist of the same characters.
use recycle_bin.Prelude.{
  ℕ, ◌%◌, ◌<◌, ◌≡◌, refl, ap, ◌∙◌, ◌≢◌, false, [], ◌∷◌, arith, ◌==◌, All, ok, Returns,
}
use recycle_bin.Prelude.Chars.{Bytes, cstr}
use mathlib.Core.List.{Perm, Permᴰ}
use mathlib.Core.Logic.{∥∥₁_elim}
use native.Mathlib.Nat.{ℕ_set}
use recycle_bin.MiniAnt.Hash.{ant_hash, hash_text, hash_step}

abbrev folded : Bytes → ℕ → ℕ
folded [] val = val
folded (b ∷ m) val = folded m (hash_step b val)

hash_text-folded :
    (s rest : Bytes) (val : ℕ)
    → All (λ c. c ≢ 0) s
    → hash_text (cstr s rest) val ≡ ok (folded s val)
unfolding hash_text
hash_text-folded [] rest val h = refl
hash_text-folded (c ∷ s) rest val (p, h) =
    let full : (c == 0) ≡ false = ground (arith, p) in
    rw (full, hash_text-folded s rest (hash_step c val) h) refl

steps_comm : (a b val : ℕ) → hash_step a (hash_step b val) ≡ hash_step b (hash_step a val)
unfolding hash_step
steps_comm a b val = omega arith

folded-perm : {s t : Bytes} → Permᴰ s t → (val : ℕ) → folded s val ≡ folded t val
folded-perm Permᴰ.nil val = refl
folded-perm (Permᴰ.cons {a} {b} {l₁} e p) val =
    ap (λ c. folded l₁ (hash_step c val)) e ∙ folded-perm p (hash_step b val)
folded-perm (Permᴰ.swap {a} {b} {a'} {b'} {l} e g) val =
    let same : hash_step b (hash_step a val) ≡ hash_step b' (hash_step a' val) =
      steps_comm b a val ∙ rw (e, g) refl in
    ap (folded l) same
folded-perm (Permᴰ.trans p q) val = folded-perm p val ∙ folded-perm q val

-- Two strings that consist of the same characters, in whatever order, have the same hash value, which is the
-- number of a bucket, for any number of buckets above zero.
pub ant_hash-Perm :
    (s t rest rest' : Bytes) (m : ℕ)
    → All (λ c. c ≢ 0) s
    → All (λ c. c ≢ 0) t
    → Perm s t
    → 0 < m
    → Returns (λ v. (ant_hash (cstr t rest') 0 m ≡ ok v) × (v < m)) (ant_hash (cstr s rest) 0 m)
unfolding ant_hash
ant_hash-Perm s t rest rest' m hs ht p many =
    let buckets : (m == 0) ≡ false = ground arith in
    let same : folded s 0 ≡ folded t 0 = ∥∥₁_elim p (ℕ_set _ _) (λ q. folded-perm q 0) in
    (
      folded s 0 % m,
      rw (hash_text-folded s rest 0 hs, buckets) refl,
      (rw (hash_text-folded t rest' 0 ht, buckets, same) refl, omega arith),
    )
