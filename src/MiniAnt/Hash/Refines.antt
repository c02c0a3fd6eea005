-- ===== src/MiniAnt/Hash/Refines.antt =====
-- The table as a map from keys to values, whatever the number of buckets.
use recycle_bin.Prelude.{
  ℕ, ◌+◌, ◌-◌, ◌<◌, ◌≡◌, refl, sym, ap, ◌∙◌, inl, inr, Bool, true, false, Option, none, some, ◌∷◌,
  arith, ◌==◌, if◌then◌else◌, ==_iff, Bool-cases, Option-cases, length, get_elem?, set, ◌⊎◌, fault,
  length-set, get_elem?-lt, get_elem?-set_self, get_elem?-set_ne, ok, ◌>>=◌, Returns,
}
use recycle_bin.Prelude.Chars.{Bytes}
use recycle_bin.MiniAnt.Hash.{
  AntHash, Chain, key_eq, key_object, has_room, find_place, ant_lookup, place_val, put_val, unlink,
  ant_hash_put, ant_hash_get, ant_hash_del, val_at,
}
use recycle_bin.MiniAnt.Hash.Chains.{
  IsKeyEq, find, place-find, find-none, find-congr, Distinct, Distinct-put_val, Distinct-unlink,
  find-put_val, find-unlink,
}

-- The hash function is defined on every key, gives a bucket of the table, and the same one for keys
-- that the table takes for equal; and no chain holds a key twice.
pub record IsTable {ℓ} {V : Type ℓ} (t : AntHash V) : Type ℓ where
  pub keys : IsKeyEq (key_eq t.ksize t.cmp)
  pub bucket : Bytes → ℕ
  pub hashes : (k : Bytes) → t.ant_hash_func (key_object t.ksize k) t.ksize t.m ≡ ok (bucket k)
  pub in_range : (k : Bytes) → bucket k < length t.hash
  pub alike : (a b : Bytes) → key_eq t.ksize t.cmp a b ≡ true → bucket a ≡ bucket b
  pub chains :
      (i : ℕ) (c : Chain V) → get_elem? t.hash i ≡ some c → Distinct (key_eq t.ksize t.cmp) c

module _ {ℓ} {V : Type ℓ} {t : AntHash V} (is : IsTable t) where
  abbrev same : Bytes → Bytes → Bool
  same = key_eq t.ksize t.cmp

  -- The chain of a key.
  chain_of : Bytes → Chain V
  chain_of k = (get_elem?-lt t.hash (is.bucket k) (is.in_range k)).0

  chain_at : (k : Bytes) → get_elem? t.hash (is.bucket k) ≡ some (chain_of k)
  unfolding chain_of
  chain_at k = (get_elem?-lt t.hash (is.bucket k) (is.in_range k)).1

  lookup-ok :
      (k : Bytes)
      → ant_lookup t k ≡ ok (is.bucket k, chain_of k, find_place (λ x. same x k) (chain_of k))
  unfolding ant_lookup
  lookup-ok k = rw (is.hashes k, chain_at k) refl

  -- The map that the table stands for.
  pub view : Bytes → Option V
  unfolding chain_of
  view k = find (λ x. same x k) (chain_of k)

  view-find : (k : Bytes) → find (λ x. same x k) (chain_of k) ≡ view k
  unfolding view
  view-find k = refl

  chain_of-Distinct : (k : Bytes) → Distinct same (chain_of k)
  chain_of-Distinct k = is.chains (is.bucket k) (chain_of k) (chain_at k)

  -- What the lookup finds is what the map has.
  found-view :
      (k : Bytes) → place_val (chain_of k) (find_place (λ x. same x k) (chain_of k)) ≡ view k
  found-view k = place-find (λ x. same x k) (chain_of k) ∙ view-find k

  -- `ant_hash_get` returns on every key, with what the map has under it.
  pub get-view : (k : Bytes) → ant_hash_get t k ≡ ok (view k)
  unfolding ant_hash_get view
  get-view k = rw (lookup-ok k) (ap ok (place-find (λ x. same x k) (chain_of k)))

  some-inj : {a b : Chain V} → some a ≡ some b → a ≡ b
  some-inj e = cc

  chain_alike : (k q : Bytes) → is.bucket k ≡ is.bucket q → chain_of q ≡ chain_of k
  chain_alike k q e =
      some-inj (sym (chain_at q) ∙ ap (λ i. get_elem? t.hash i) (sym e) ∙ chain_at k)

  -- The table with another chain in the bucket of a key.
  rechained : Bytes → Chain V → ℕ → AntHash V
  rechained key c n = record t { hash = set t.hash (is.bucket key) c; length = n }

  module _ (key : Bytes) (c : Chain V) (n : ℕ) where
    rechained-chains :
        Distinct same c
        → (i : ℕ) (b : Chain V) → get_elem? (set t.hash (is.bucket key) c) i ≡ some b
        → Distinct same b
    rechained-chains d i b e = elim (Bool-cases (is.bucket key == i)) [
      | inl s ↦
          let here : is.bucket key ≡ i = (==_iff _ _).0 s in
          let got = get_elem?-set_self t.hash (is.bucket key) c (is.in_range key) in
          let e' : get_elem? (set t.hash (is.bucket key) c) (is.bucket key) ≡ some b =
            ap (λ j. get_elem? (set t.hash (is.bucket key) c) j) here ∙ e in
          rw (some-inj (sym e' ∙ got)) d
      | inr s ↦
          is.chains i b (sym (get_elem?-set_ne t.hash (is.bucket key) i c (λ h. ground arith)) ∙ e)
    ]

    rechained-IsTable : Distinct same c → IsTable (rechained key c n)
    unfolding rechained
    rechained-IsTable d = record {
      keys = is.keys;
      bucket = is.bucket;
      hashes = is.hashes;
      in_range = λ k. rw length-set (is.in_range k);
      alike = is.alike;
      chains = rechained-chains d;
    }

    rechained-get :
        (q : Bytes)
        → ant_hash_get (rechained key c n) q
          ≡ ok (if is.bucket key == is.bucket q then find (λ x. same x q) c else view q)
    unfolding rechained ant_hash_get ant_lookup view
    rechained-get q = elim (Bool-cases (is.bucket key == is.bucket q)) [
      | inl s ↦
          let here : is.bucket q ≡ is.bucket key = sym ((==_iff _ _).0 s) in
          rw
            (
              s,
              is.hashes q,
              ◌>>=◌,
              here,
              get_elem?-set_self t.hash (is.bucket key) c (is.in_range key),
            )
            (ap ok (place-find (λ x. same x q) c))
      | inr s ↦
          rw
            (
              s,
              is.hashes q,
              ◌>>=◌,
              get_elem?-set_ne t.hash (is.bucket key) (is.bucket q) c (λ h. ground arith),
              chain_at q,
            )
            (ap ok (place-find (λ x. same x q) (chain_of q)))
    ]

  -- What a write of the option `v` under `key` leaves.
  abbrev pub Wrote : Bytes → Option V → Option V × AntHash V → Type ℓ
  Wrote key v (old, t') =
      (old ≡ view key)
      × IsTable t'
      × ((q : Bytes) → ant_hash_get t' q ≡ ok (if same key q then v else view q))
      × (key_eq t'.ksize t'.cmp ≡ same)

  -- A chain that differs from the key's at most under the key makes such a table.
  rechained-Wrote :
      (key : Bytes) (c : Chain V) (n : ℕ) (v old : Option V)
      → old ≡ view key
      → Distinct same c
      → ((q : Bytes)
          → find (λ x. same x q) c
            ≡ (if same key q then v else find (λ x. same x q) (chain_of key)))
      → Wrote key v (old, rechained key c n)
  unfolding rechained
  rechained-Wrote key c n v old was d finds =
      (was, rechained-IsTable key c n d, λ q. rechained-get key c n q ∙ ap ok (reads q), refl)
    where
      reads :
          (q : Bytes)
          → (if is.bucket key == is.bucket q then find (λ x. same x q) c else view q)
            ≡ (if same key q then v else view q)
      reads q = elim (Bool-cases (is.bucket key == is.bucket q)) [
        | inl s ↦ rw (s, finds q, ← chain_alike key q ((==_iff _ _).0 s)) (unfold view in refl)
        | inr s ↦ elim (Bool-cases (same key q)) [
          | inl e ↦ absurd (ground (arith, is.alike key q e))
          | inr e ↦ rw (s, e) refl
        ]
      ]

  put-Distinct :
      (key : Bytes) (v : V)
      → find_place (λ x. same x key) (chain_of key) ≡ none
      → Distinct same ((key, v) ∷ chain_of key)
  unfolding Distinct
  put-Distinct key v e = (find-none (λ x. same x key) (chain_of key) e, chain_of-Distinct key)

  cons-find :
      (key : Bytes) (v : V) (q : Bytes)
      → find (λ x. same x q) ((key, v) ∷ chain_of key)
        ≡ (if same key q then some v else find (λ x. same x q) (chain_of key))
  unfolding find
  cons-find key v q = refl

  absent :
      (key q : Bytes)
      → find_place (λ x. same x key) (chain_of key) ≡ none
      → view q ≡ (if same key q then none else view q)
  absent key q e = elim (Bool-cases (same key q)) [
    | inl s ↦ rw s (
        sym (view-find q)
        ∙ rw (chain_alike key q (is.alike key q s)) (
            find-congr _ _ (chain_of key) (λ x. sym (is.keys.right key q x s))
            ∙ find-none (λ x. same x key) (chain_of key) e))
    | inr s ↦ rw s refl
  ]

  -- A put with room for a new element.
  put_new-Wrote :
      (got : Bool) (key : Bytes) (v : V)
      → has_room got t ≡ true
      → find_place (λ x. same x key) (chain_of key) ≡ none
      → Returns (Wrote key (some v)) (ant_hash_put got t key v)
  unfolding ant_hash_put rechained place_val
  put_new-Wrote got key v room e =
      let c = chain_of key in
      (
        (none, rechained key ((key, v) ∷ c) (t.length + 1)),
        rw (lookup-ok key, ◌>>=◌, e, room) refl,
        rechained-Wrote key ((key, v) ∷ c) (t.length + 1) (some v) none (rw e at (found-view key))
            (put-Distinct key v e) (λ q. cons-find key v q),
      )

  pub put-Wrote :
      (got : Bool) (key : Bytes) (v : V)
      → ((view key ≡ none) × (has_room got t ≡ false) × (ant_hash_put got t key v ≡ fault))
        ⊎ Returns (Wrote key (some v)) (ant_hash_put got t key v)
  unfolding ant_hash_put rechained place_val
  put-Wrote got key v =
      let c = chain_of key in
      elim (Option-cases (find_place (λ x. same x key) c)) [
        | inl e ↦ elim (Bool-cases (has_room got t)) [
          | inl room ↦ inr (put_new-Wrote got key v room e)
          | inr full ↦
              inl (sym (rw e at (found-view key)), full, rw (lookup-ok key, ◌>>=◌, e, full) refl)
        ]
        | inr (k, e) ↦ inr (
          (val_at c k, rechained key (put_val v k c) t.length),
          rw (lookup-ok key, ◌>>=◌, e) refl,
          rechained-Wrote key (put_val v k c) t.length (some v) (val_at c k)
              (rw e at (found-view key)) (Distinct-put_val same v k c (chain_of-Distinct key))
              (λ q. find-put_val is.keys key q v c k e),
        )
      ]

  -- With room, and under a key that has a value.
  pub put_room-Wrote :
      (got : Bool) (key : Bytes) (v : V)
      → has_room got t ≡ true
      → Returns (Wrote key (some v)) (ant_hash_put got t key v)
  put_room-Wrote got key v room = elim (put-Wrote got key v) [
    | inl (absent, full, wrong) ↦ let no : true ≡ false = sym room ∙ full in cc
    | inr wrote ↦ wrote
  ]

  pub put_found-Wrote :
      (got : Bool) (key : Bytes) (v old : V)
      → view key ≡ some old
      → Returns (Wrote key (some v)) (ant_hash_put got t key v)
  put_found-Wrote got key v old at = elim (put-Wrote got key v) [
    | inl (absent, full, wrong) ↦ let no : some old ≡ none = sym at ∙ absent in cc
    | inr wrote ↦ wrote
  ]

  -- `ant_hash_del` returns the value that the key had, if any, and afterwards `ant_hash_get` finds
  -- nothing under every key that equals it, and the old values under all others; the test of keys stays.
  pub del-Wrote : (key : Bytes) → Returns (Wrote key none) (ant_hash_del t key)
  unfolding ant_hash_del rechained place_val
  del-Wrote key =
      let c = chain_of key in
      elim (Option-cases (find_place (λ x. same x key) c)) [
        | inl e ↦ (
          (none, t),
          rw (lookup-ok key, ◌>>=◌, e) refl,
          (rw e at (found-view key), is, λ q. get-view q ∙ ap ok (absent key q e), refl),
        )
        | inr (k, e) ↦ (
          (val_at c k, rechained key (unlink k c) (t.length - 1)),
          rw (lookup-ok key, ◌>>=◌, e) refl,
          rechained-Wrote key (unlink k c) (t.length - 1) none (val_at c k)
              (rw e at (found-view key)) (Distinct-unlink same k c (chain_of-Distinct key))
              (λ q. find-unlink is.keys key q c k (chain_of-Distinct key) e),
        )
      ]
