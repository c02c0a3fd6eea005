-- ===== src/MiniAnt/Hash/Bucket.antt =====
-- The functions of the table on one key, for tables whose hash function is not defined on all keys: with a key size,
-- a shorter key cannot be hashed.
use recycle_bin.Prelude.{
  ℕ, ◌-◌, ◌<◌, ◌≡◌, refl, ap, ◌∙◌, inl, inr, Bool, Option, none, some, Option-cases, length,
  get_elem?, set, take, lt-get_elem?, get_elem?-set_self, ok, Returns,
}
use recycle_bin.Prelude.Chars.{Bytes}
use recycle_bin.MiniAnt.Hash.{
  AntHash, Chain, key_eq, key_object, memcmp_eq, bytes_eq, find_place, val_at, unlink, ant_lookup,
  ant_hash_get, ant_hash_del,
}
use recycle_bin.MiniAnt.Hash.Chains.{IsKeyEq, find, Distinct, place-find, find-none, find-unlink}
use recycle_bin.MiniAnt.Hash.New.{bytes_eq_refl, eq-bytes_eq}

-- The key has a bucket, whose chain holds no key twice.
pub record HasBucket {ℓ} {V : Type ℓ} (t : AntHash V) (key : Bytes) (c : Chain V) : Type ℓ where
  pub keys : IsKeyEq (key_eq t.ksize t.cmp)
  pub place : ℕ
  pub hashed : t.ant_hash_func (key_object t.ksize key) t.ksize t.m ≡ ok place
  pub chain : get_elem? t.hash place ≡ some c
  pub distinct : Distinct (key_eq t.ksize t.cmp) c

-- `memcmp` tells the same keys apart in whatever order they stand.
pub memcmp_eq-IsKeyEq : (n : ℕ) → IsKeyEq (memcmp_eq n)
unfolding memcmp_eq
memcmp_eq-IsKeyEq n = record {
  self = λ a. bytes_eq_refl (take n a);
  left = λ a b c h. ap (λ s. bytes_eq s (take n c)) (eq-bytes_eq (take n a) (take n b) h);
  right = λ a b c h. ap (λ s. bytes_eq (take n c) s) (eq-bytes_eq (take n a) (take n b) h);
}

module _ {ℓ} {V : Type ℓ} (t : AntHash V) (key : Bytes) (c : Chain V) (is : HasBucket t key c) where
  abbrev alike : Bytes → Bool
  alike x = key_eq t.ksize t.cmp x key

  -- What the table has under the key.
  abbrev pub found : Option V
  found = find alike c

  lookup-bucket : ant_lookup t key ≡ ok (is.place, c, find_place alike c)
  unfolding ant_lookup
  lookup-bucket = rw (is.hashed, is.chain) refl

  pub get-found : ant_hash_get t key ≡ ok found
  unfolding ant_hash_get
  get-found = rw lookup-bucket (ap ok (place-find alike c))

  -- A table that differs in this bucket and in its count.
  get-chain :
      (c' : Chain V) (n : ℕ)
      → ant_hash_get (record t { hash = set t.hash is.place c'; length = n }) key
        ≡ ok (find alike c')
  unfolding ant_hash_get ant_lookup
  get-chain c' n =
      let inside : is.place < length t.hash = lt-get_elem? t.hash is.place c is.chain in
      rw (is.hashed, get_elem?-set_self t.hash is.place c' inside) (ap ok (place-find alike c'))

  get-counted : (n : ℕ) → ant_hash_get (record t { length = n }) key ≡ ant_hash_get t key
  unfolding ant_hash_get ant_lookup
  get-counted n = refl

  -- After `ant_hash_del` there is nothing under the key, whatever the count is then.
  pub del-gone :
      Returns
        (λ (old, t'). (n : ℕ) → ant_hash_get (record t' { length = n }) key ≡ ok none)
        (ant_hash_del t key)
  unfolding ant_hash_del
  del-gone = elim (Option-cases (find_place alike c)) [
    | inl e ↦ (
      (none, t),
      rw (lookup-bucket, e) refl,
      λ n. get-counted n ∙ get-found ∙ ap ok (find-none alike c e),
    )
    | inr (k, e) ↦ (
      (val_at c k, record t { hash = set t.hash is.place (unlink k c); length = t.length - 1 }),
      rw (lookup-bucket, e) refl,
      λ n.
          get-chain (unlink k c) n
          ∙ ap ok (find-unlink is.keys key key c k is.distinct e ∙ rw (is.keys.self key) refl),
    )
  ]
