-- ===== src/MiniAnt/Hash.antt =====
-- mini_ant/src/ant_hash.c and ant_hash.h: a hash table with chains. A bucket is the list of its elements.
-- A key is what its pointer leads to: the bytes of the object, or the text of a string where the key size
-- is zero. No key is `NULL`. Freeing an element and its key in `ant_hash_del` leaves no trace here.
pub mod Chains
pub mod New
pub mod Refines
pub mod Anagrams
pub mod Bucket
use recycle_bin.Prelude.{
  ℕ, zero, suc, ◌+◌, ◌-◌, ◌*◌, ◌/◌, ◌%◌, ◌^◌, ◌≤◌, ◌<◌, ◌≡◌, refl, sym, ap, ◌∙◌, ◌≢◌, ◌↔◌, ◌⊎◌, inl,
  inr, Bool, true, false, not, ◌&&◌, ◌||◌, Option, none, some, List, [], ◌∷◌, ◌++◌, map,
  append_assoc, append-nil, arith, ltb, leb, ◌==◌, if◌then◌else◌, ltb→lt, lt→ltb, leb→le, le→leb,
  tests, ==_iff, Bool-cases, Option-cases, length, get_elem?, set, take, drop, replicate,
  length-append, length-set, length-take, length-drop, length-replicate, get_elem?-lt,
  take-length-append, drop-length-append, take-length, All, Run, ok, fault, ◌>>=◌, ◌>>◌, assert,
  from_option, Returns, bind_ok, bind_regroup,
}
use recycle_bin.Prelude.Chars.{Bytes, IsText, cstr, is_space, is_digit, to_lower}
use recycle_bin.Prelude.Int.{
  ℤ, pos, negsuc, eq_ℤ, eq_ℤ_iff, schar, uchar, neg, ◌-ℤ◌, ltb_ℤ, signed32, unsigned32, pos_part,
  neg_part, schar-injective,
}
use mathlib.Core.Option
use recycle_bin.Prelude.First.{next}

-- One step of either loop of `ant_hash`: `val = *p++ * 31 + val`, in an `unsigned`.
unfoldable pub hash_step : ℕ → ℕ → ℕ
hash_step b val = (b * 31 + val) % 2 ^ 32

-- `while (size-- > 0)`
unfoldable pub hash_sized : ℕ → Bytes → ℕ → Run ℕ
hash_sized zero m val = ok val
hash_sized (suc size) [] val = fault
hash_sized (suc size) (b ∷ m) val = hash_sized size m (hash_step b val)

-- `while (*p)`
pub hash_text : Bytes → ℕ → Run ℕ
hash_text [] val = fault
hash_text (b ∷ m) val = if b == 0 then ok val else hash_text m (hash_step b val)

-- `val % m` is undefined for zero buckets.
unfoldable pub ant_hash : Bytes → (size m : ℕ) → Run ℕ
unfolding hash_step hash_sized hash_text
ant_hash s size m = do
  val ← if size == 0 then hash_text s 0 else hash_sized size s 0
  if m == 0 then fault else ok (val % m)

-- `!memcmp(a, b, n)` and `!strcmp(a, b)`.
unfoldable pub bytes_eq : Bytes → Bytes → Bool
bytes_eq [] [] = true
bytes_eq (a ∷ as') (b ∷ bs) = (a == b) && bytes_eq as' bs
bytes_eq _ _ = false

unfoldable pub text : Bytes → Bytes
text [] = []
text (b ∷ m) = if b == 0 then [] else b ∷ text m

unfoldable pub memcmp_eq : ℕ → Bytes → Bytes → Bool
memcmp_eq n a b = bytes_eq (take n a) (take n b)

unfoldable pub strcmp_eq : Bytes → Bytes → Bool
strcmp_eq a b = bytes_eq (text a) (text b)

-- A chain: key and value of each element, the newest first.
abbrev pub Chain {ℓ} : Type ℓ → Type ℓ
Chain V = List (Bytes × V)

pub record AntHash {ℓ} (V : Type ℓ) : Type ℓ where
  pub hash : List (Chain V)
  pub ksize : ℕ
  pub count : ℕ
  pub m : ℕ
  pub length : ℕ
  pub ant_hash_func : Bytes → ℕ → ℕ → Run ℕ
  pub cmp : Option (Bytes → Bytes → Bool)

-- Which of the three loops of `ant_lookup` runs: by the key size, by the caller's test, or on strings.
unfoldable pub key_eq : (ksize : ℕ) → Option (Bytes → Bytes → Bool) → Bytes → Bytes → Bool
unfolding memcmp_eq strcmp_eq
key_eq ksize cmp a b =
    if not (ksize == 0)
    then memcmp_eq ksize a b
    else elim cmp [ some same ↦ same a b | none ↦ strcmp_eq a b ]

-- The memory that a key's pointer leads to.
unfoldable pub key_object : ℕ → Bytes → Bytes
key_object ksize k = if ksize == 0 then k ++ 0 ∷ [] else k

module _ {ℓ} {V : Type ℓ} where
  -- `none` where `calloc` fails
  pub ant_hash_init :
      (got : Bool) (ksize m : ℕ)
      → Option (Bytes → ℕ → ℕ → Run ℕ)
      → Option (Bytes → Bytes → Bool)
      → Option (AntHash V)
  ant_hash_init got ksize m hash_func cmp =
      if got
      then some (record {
        hash = replicate m [];
        ksize = ksize;
        count = 0;
        m = m;
        length = 0;
        ant_hash_func = elim hash_func [ some f ↦ f | none ↦ ant_hash ];
        cmp = cmp;
      })
      else none

  -- The place of the element in its chain; the one before it is `prev`.
  unfoldable pub find_place : (Bytes → Bool) → Chain V → Option ℕ
  find_place same [] = none
  find_place same (e ∷ c) = if same e.0 then some 0 else next (find_place same c)

  -- The bucket, its chain, and the place of the key there.
  unfoldable pub ant_lookup : AntHash V → Bytes → Run (ℕ × Chain V × Option ℕ)
  ant_lookup t key = do
    i ← t.ant_hash_func (key_object t.ksize key) t.ksize t.m
    c ← from_option (get_elem? t.hash i)
    ok (i, c, find_place (λ k. key_eq t.ksize t.cmp k key) c)

  -- `p->val = val`
  unfoldable pub put_val : V → ℕ → Chain V → Chain V
  put_val v k [] = []
  put_val v zero (e ∷ c) = (e.0, v) ∷ c
  put_val v (suc k) (e ∷ c) = e ∷ put_val v k c

  -- `*head = p->next` or `prev->next = p->next`
  unfoldable pub unlink : ℕ → Chain V → Chain V
  unlink k [] = []
  unlink zero (e ∷ c) = c
  unlink (suc k) (e ∷ c) = e ∷ unlink k c

  pub val_at : Chain V → ℕ → Option V
  val_at c k = Option.map (λ e. e.1) (get_elem? c k)

  -- `p ? p->val : NULL`
  unfoldable pub place_val : Chain V → Option ℕ → Option V
  place_val c none = none
  place_val c (some k) = val_at c k

  -- There is memory for another element, and their number stays an `int`.
  unfoldable pub has_room : (got : Bool) → AntHash V → Bool
  has_room got t = got && ltb (t.length + 1) (2 ^ 31)

  -- The value that the key had, and the table. `got` is whether `malloc` gives an element, which is written to without a test.
  unfoldable pub ant_hash_put : (got : Bool) → AntHash V → Bytes → V → Run (Option V × AntHash V)
  ant_hash_put got t key v = do
    (i, c, p) ← ant_lookup t key
    elim p [
      | none ↦
          if has_room got t
          then ok (none, record t { hash = set t.hash i ((key, v) ∷ c); length = t.length + 1 })
          else fault
      | some k ↦ ok (val_at c k, record t { hash = set t.hash i (put_val v k c) })
    ]

  unfoldable pub ant_hash_get : AntHash V → Bytes → Run (Option V)
  ant_hash_get t key = do (i, c, p) ← ant_lookup t key; ok (place_val c p)

  unfoldable pub ant_hash_del : AntHash V → Bytes → Run (Option V × AntHash V)
  ant_hash_del t key = do
    (i, c, p) ← ant_lookup t key
    elim p [
      | none ↦ ok (none, t)
      | some k ↦
          ok (val_at c k, record t { hash = set t.hash i (unlink k c); length = t.length - 1 })
    ]
