-- ===== src/MiniAnt/Hash/New.antt =====
-- The tables that the crawler makes: keys are strings, and the hash function is `ant_hash`.
use recycle_bin.Prelude.{
  ℕ, zero, suc, ◌%◌, ◌<◌, ◌≡◌, refl, ap, inl, inr, true, false, none, some, [], ◌∷◌, ◌++◌, arith,
  ◌==◌, Bool-cases, length, get_elem?, replicate, length-replicate, get_elem?-lt, ok, ◌>>=◌,
}
use recycle_bin.Prelude.Chars.{Bytes}
use recycle_bin.MiniAnt.Hash.{
  find_place, place_val, ant_lookup, ant_hash_get, AntHash, Chain, key_eq, key_object, ant_hash,
  ant_hash_init, hash_text, hash_step, bytes_eq, text, strcmp_eq,
}
use recycle_bin.MiniAnt.Hash.Chains.{IsKeyEq, Distinct}
use recycle_bin.MiniAnt.Hash.Refines.{IsTable}

pub bytes_eq_refl : (a : Bytes) → bytes_eq a a ≡ true
unfolding bytes_eq
bytes_eq_refl [] = refl
bytes_eq_refl (x ∷ a) = ground (arith, bytes_eq_refl a)

pub eq-bytes_eq : (a b : Bytes) → bytes_eq a b ≡ true → a ≡ b
unfolding bytes_eq
eq-bytes_eq [] [] h = refl
eq-bytes_eq [] (y ∷ b) h = cc
eq-bytes_eq (x ∷ a) [] h = cc
eq-bytes_eq (x ∷ a) (y ∷ b) h = ground (arith, eq-bytes_eq a b)

same_text : (a b : Bytes) → strcmp_eq a b ≡ true → text a ≡ text b
unfolding strcmp_eq
same_text a b h = eq-bytes_eq (text a) (text b) h

pub strcmp_eq-IsKeyEq : IsKeyEq strcmp_eq
unfolding strcmp_eq
strcmp_eq-IsKeyEq = record {
  self = λ a. bytes_eq_refl (text a);
  left = λ a b c h. ap (λ s. bytes_eq s (text c)) (same_text a b h);
  right = λ a b c h. ap (λ s. bytes_eq (text c) s) (same_text a b h);
}

-- The loop of `ant_hash` on a text.
text_hash : Bytes → ℕ → ℕ
text_hash [] val = val
text_hash (b ∷ m) val = text_hash m (hash_step b val)

hash_text-text : (k : Bytes) (val : ℕ) → hash_text (k ++ 0 ∷ []) val ≡ ok (text_hash (text k) val)
unfolding hash_text text text_hash
hash_text-text [] val = refl
hash_text-text (b ∷ k) val = elim (Bool-cases (b == 0)) [
  | inl h ↦ rw h refl
  | inr h ↦ rw h (hash_text-text k (hash_step b val))
]

ant_hash-text :
    (m : ℕ) (k : Bytes) → 0 < m → ant_hash (key_object 0 k) 0 m ≡ ok (text_hash (text k) 0 % m)
unfolding ant_hash key_object
ant_hash-text m k h =
    let pos_m : (m == 0) ≡ false = ground arith in rw (hash_text-text k 0, ◌>>=◌, pos_m) refl

module _ {V : Type 0} where
  get-replicate : (m i : ℕ) (c : Chain V) → get_elem? (replicate m []) i ≡ some c → c ≡ []
  get-replicate zero i c h = cc
  get-replicate (suc m) zero c h = cc
  get-replicate (suc m) (suc i) c h = get-replicate m i c h

  made : ℕ → AntHash V
  made m = record {
    hash = replicate m [];
    ksize = 0;
    count = 0;
    m = m;
    length = 0;
    ant_hash_func = ant_hash;
    cmp = none;
  }

  made-IsTable : (m : ℕ) → 0 < m → IsTable (made m)
  unfolding made key_eq
  made-IsTable m h = record {
    keys = strcmp_eq-IsKeyEq;
    bucket = λ k. text_hash (text k) 0 % m;
    hashes = λ k. ant_hash-text m k h;
    in_range = λ k. rw length-replicate (omega arith);
    alike = λ a b s. ap (λ x. text_hash x 0 % m) (same_text a b s);
    chains = λ i c g. rw (get-replicate m i c g) (unfold Distinct in tt);
  }

  made-empty : (m : ℕ) → 0 < m → (k : Bytes) → ant_hash_get (made m) k ≡ ok none
  unfolding made ant_hash_get ant_lookup place_val find_place
  made-empty m h k =
      let i = text_hash (text k) 0 % m in
      let inside : i < length (replicate {A = Chain V} m []) = rw length-replicate (omega arith) in
      let (c, at) = get_elem?-lt (replicate {A = Chain V} m []) i inside in
      let none_there : c ≡ [] = get-replicate m i c at in
      rw (ant_hash-text m k h, at, none_there) refl

  -- A table made with no hash function, no test and key size zero, and at least one bucket, meets what
  -- the theorems on the table ask, on all keys, counts no element, and holds none.
  pub ant_hash_init-IsTable :
      (m : ℕ)
      → 0 < m
      → (t : AntHash V) × (ant_hash_init true 0 m none none ≡ some t)
        × (IsTable t × (t.length ≡ 0))
        × ((k : Bytes) → ant_hash_get t k ≡ ok none)
  unfolding ant_hash_init made
  ant_hash_init-IsTable m h = (made m, refl, (made-IsTable m h, refl), made-empty m h)
