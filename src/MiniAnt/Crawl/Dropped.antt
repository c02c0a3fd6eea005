-- ===== src/MiniAnt/Crawl/Dropped.antt =====
-- mini_ant/src/mini_ant.c: URLs of a file that consist of the same characters.
use recycle_bin.Prelude.{
  ℕ, zero, suc, ◌+◌, ◌<◌, ◌≡◌, refl, ap, ◌∙◌, ◌≢◌, inl, inr, Bool, true, false, ◌||◌, Option, none,
  some, List, [], ◌∷◌, ◌++◌, map, arith, Bool-cases, Option-cases, length, get_elem?, set,
  length-set, get_elem?-lt, get_elem?-set_self, All, ok, Returns, Run, fault, ◌>>=◌, ◌⊎◌,
}
use recycle_bin.Prelude.Chars.{Bytes}
use mathlib.Core.List.{Perm}
use recycle_bin.Prelude.First.{next}
use recycle_bin.MiniAnt.Hash.{
  AntHash, Chain, has_room, ant_lookup, ant_hash_put, find_place, put_val, strcmp_eq, key_eq,
  key_object, ant_hash,
}
use recycle_bin.MiniAnt.Hash.Anagrams.{ant_hash-Perm}
use recycle_bin.MiniAnt.Hash.New.{strcmp_eq-IsKeyEq}
use recycle_bin.MiniAnt.Crawl.{Total, Fresh}
use recycle_bin.MiniAnt.Crawl.Urls.{url_text-cstr}
use recycle_bin.MiniAnt.Crawl.Filter.{
  KeyAt, line, is_line, reread, line_is, uniq_exists, uniq_put, filter_add, extract_lines,
  add_filtered, first_word, is_space_line,
}

-- A chain with a key that is the array `line`.
abbrev pub has_line : Chain KeyAt → Bool
has_line [] = false
has_line ((k, a) ∷ c) = is_line a || has_line c

-- Whatever text is in `line`, such a chain holds it.
find_place-reread :
    (same : Bytes → Bytes → Bool) (new : Bytes) (c : Chain KeyAt)
    → same new new ≡ true
    → has_line c ≡ true
    → (k : ℕ) × (find_place (λ k. same k new) (reread new c) ≡ some k)
unfolding find_place reread
find_place-reread same new [] self h = absurd (ground (arith, h))
find_place-reread same new ((k, a) ∷ c) self h = elim (Bool-cases (is_line a)) [
  | inl e ↦ (0, rw (e, self) refl)
  | inr e ↦
      let (i, at) = find_place-reread same new c self (rw e at h) in
      elim (Bool-cases (same k new)) [
        | inl s ↦ (0, rw (e, s) refl)
        | inr s ↦ (suc i, rw (e, s, at) refl)
      ]
]

-- After a put of the array `line` the chain has it.
has_line-put_val :
    (f : Bytes → Bool) (c : Chain KeyAt) (k : ℕ)
    → find_place f c ≡ some k
    → has_line (put_val line k c) ≡ true
unfolding find_place put_val is_line
has_line-put_val f [] k e = cc
has_line-put_val f ((x, a) ∷ c) zero e = refl
has_line-put_val f ((x, a) ∷ c) (suc k) e = elim (Bool-cases (f x)) [
  | inl s ↦ let first : some 0 ≡ some (suc k) = rw s at e in absurd (ground (arith, some-inj first))
  | inr s ↦ ground (arith, has_line-put_val f c k (next-inj (find_place f c) k (rw s at e)))
]
  where
    some-inj : {a b : ℕ} → some a ≡ some b → a ≡ b
    some-inj e = cc

    next-inj : (o : Option ℕ) (k : ℕ) → next o ≡ some (suc k) → o ≡ some k
    next-inj none k e = cc
    next-inj (some i) k e = let same : suc i ≡ suc k = some-inj e in ap some (omega (arith, same))

get_elem?-map :
    (f : Chain KeyAt → Chain KeyAt) (l : List (Chain KeyAt)) (i : ℕ) (c : Chain KeyAt)
    → get_elem? l i ≡ some c
    → get_elem? (map f l) i ≡ some (f c)
get_elem?-map f [] i c e = cc
get_elem?-map f (x ∷ l) zero c e = let same : x ≡ c = cc in ap (λ y. some (f y)) same
get_elem?-map f (x ∷ l) (suc i) c e = get_elem?-map f l i c e

-- A table of strings, as `uniq_init` makes it.
pub record IsUniq (t : AntHash KeyAt) : Type 0 where
  pub ksize : t.ksize ≡ 0
  pub cmp : t.cmp ≡ none
  pub hashes : t.ant_hash_func ≡ ant_hash
  pub buckets : 0 < t.m
  pub size : length t.hash ≡ t.m

module _ (t : AntHash KeyAt) (is : IsUniq t) (i : ℕ) (c : Chain KeyAt)
    (at : get_elem? t.hash i ≡ some c) where
  lookup-in :
      (u : Bytes)
      → ant_hash (u ++ 0 ∷ []) 0 t.m ≡ ok i
      → ant_lookup t u ≡ ok (i, c, find_place (λ k. strcmp_eq k u) c)
  unfolding ant_lookup key_object key_eq
  lookup-in u h = rw (is.ksize, is.cmp, is.hashes, h, at) refl

  put-line :
      (got : Bool) (u : Bytes)
      → has_room got t ≡ true
      → i < t.m
      → ant_hash (u ++ 0 ∷ []) 0 t.m ≡ ok i
      → Returns
          (λ t'.
            IsUniq t'
            × ((c' : Chain KeyAt) × (get_elem? t'.hash i ≡ some c') × (has_line c' ≡ true))
            × (t'.m ≡ t.m))
          (uniq_put got t u line)
  unfolding uniq_put ant_hash_put is_line
  put-line got u more small h =
      let inside : i < length t.hash = omega (arith, is.size, small) in
      let keeps : (c' : Chain KeyAt) (n : ℕ)
          → IsUniq (record t { hash = set t.hash i c'; length = n }) =
        λ c' n. record {
          ksize = is.ksize;
          cmp = is.cmp;
          hashes = is.hashes;
          buckets = is.buckets;
          size = length-set t.hash i c' ∙ is.size;
        } in
      elim (Option-cases (find_place (λ k. strcmp_eq k u) c)) [
        | inl e ↦ (
          record t { hash = set t.hash i ((u, line) ∷ c); length = t.length + 1 },
          rw (lookup-in u h, e, more) refl,
          (
            keeps ((u, line) ∷ c) (t.length + 1),
            ((u, line) ∷ c, get_elem?-set_self t.hash i ((u, line) ∷ c) inside, refl),
            refl,
          ),
        )
        | inr (k, e) ↦ (
          record t { hash = set t.hash i (put_val line k c) },
          rw (lookup-in u h, e) refl,
          (
            keeps (put_val line k c) t.length,
            (
              put_val line k c,
              get_elem?-set_self t.hash i (put_val line k c) inside,
              has_line-put_val (λ k. strcmp_eq k u) c k e,
            ),
            refl,
          ),
        )
      ]

length-map : (f : Chain KeyAt → Chain KeyAt) (l : List (Chain KeyAt)) → length (map f l) ≡ length l
length-map f [] = refl
length-map f (x ∷ l) = ap suc (length-map f l)

line_is-IsUniq : (t : AntHash KeyAt) (u : Bytes) → IsUniq t → IsUniq (line_is u t)
unfolding line_is
line_is-IsUniq t u is = record {
  ksize = is.ksize;
  cmp = is.cmp;
  hashes = is.hashes;
  buckets = is.buckets;
  size = length-map (reread u) t.hash ∙ is.size;
}

-- The table has what is in `line`, whatever that is, where the bucket of it has the key `line`.
line-exists :
    (t : AntHash KeyAt) (is : IsUniq t) (i : ℕ) (c : Chain KeyAt) (v : Bytes)
    → get_elem? t.hash i ≡ some c
    → has_line c ≡ true
    → ant_hash (v ++ 0 ∷ []) 0 t.m ≡ ok i
    → uniq_exists (line_is v t) v ≡ ok true
unfolding uniq_exists
line-exists t is i c v at has h =
    let at' : get_elem? (line_is v t).hash i ≡ some (reread v c) =
      unfold line_is in get_elem?-map (reread v) t.hash i c at in
    let h' : ant_hash (v ++ 0 ∷ []) 0 (line_is v t).m ≡ ok i = unfold line_is in h in
    let (k, found) = find_place-reread strcmp_eq v c (strcmp_eq-IsKeyEq.self v) has in
    rw (lookup-in (line_is v t) (line_is-IsUniq t v is) i (reread v c) at' v h', found) refl

-- Once the URL of a line has been put into the table, `filter_add` drops the URL of the next line, which consists of the same
-- characters: it changes nothing.
put-drops :
    (scan_ip : Bytes → Option (ℕ × Option ℕ)) (sp : Bytes → Option ℕ) (t : AntHash KeyAt)
    (u v : Bytes) (got : Bool)
    → IsUniq t
    → has_room got t ≡ true
    → All (λ c. c ≢ 0) u
    → All (λ c. c ≢ 0) v
    → Perm u v
    → Returns
        (λ t'.
          (f : Fresh) (w : Total)
          → filter_add scan_ip sp f (v ++ 0 ∷ []) line (line_is v t') w ≡ ok (line_is v t', w))
        (uniq_put got (line_is u t) u line)
unfolding filter_add has_room
put-drops scan_ip sp t u v got is more hu hv p =
    let s = line_is u t in
    let s_is = line_is-IsUniq t u is in
    let more' : has_room got s ≡ true = unfold line_is in more in
    let (i, hash_u, (hash_v, small)) = ant_hash-Perm u v [] [] s.m hu hv p s_is.buckets in
    let (c, at) = get_elem?-lt s.hash i (omega (arith, s_is.size, small)) in
    let (t', run, (is', (c', at', has), same)) = put-line s s_is i c at got u more' small hash_u in
    let seen = line-exists t' is' i c' v at' has (rw same hash_v) in
    (t', run, λ f w. rw (url_text-cstr v [] hv, seen) refl)

run_cases : (r : Run Total) → (r ≡ fault) ⊎ ((w : Total) × (r ≡ ok w))
run_cases fault = inl refl
run_cases (ok w) = inr (w, refl)

-- Two lines in a row of `file_extract_url`, neither of spaces alone, whose URLs hold no NUL and consist of the same characters; the first
-- URL is not in the table, which has room for it: the second line adds nothing, neither to the table nor to the downloads, whatever its
-- URL is, and the loop goes on with the lines behind both.
pub extract_lines-drops :
    (scan_ip : Bytes → Option (ℕ × Option ℕ)) (sp : Bytes → Option ℕ) (t : AntHash KeyAt)
    (first second : Bytes) (f g : Fresh) (lines : List (Bytes × Fresh)) (w : Total)
    → IsUniq t
    → has_room f.uniq_got t ≡ true
    → is_space_line scan_ip sp first ≡ false
    → is_space_line scan_ip sp second ≡ false
    → All (λ c. c ≢ 0) (first_word scan_ip sp first)
    → All (λ c. c ≢ 0) (first_word scan_ip sp second)
    → Perm (first_word scan_ip sp first) (first_word scan_ip sp second)
    → uniq_exists (line_is (first_word scan_ip sp first) t) (first_word scan_ip sp first) ≡ ok false
    → extract_lines scan_ip sp ((first, f) ∷ (second, g) ∷ lines) t w ≡ (do
      (t, w) ← extract_lines scan_ip sp ((first, f) ∷ []) t w
      extract_lines scan_ip sp lines (line_is (first_word scan_ip sp second) t) w)
unfolding extract_lines
extract_lines-drops scan_ip sp t first second f g lines w is more full full' hu hv p unseen =
    let u = first_word scan_ip sp first in
    let v = first_word scan_ip sp second in
    let (t', put, dropped) = put-drops scan_ip sp t u v f.uniq_got is more hu hv p in
    let added : filter_add scan_ip sp f (u ++ 0 ∷ []) line (line_is u t) w
        ≡ (do w ← add_filtered scan_ip sp f (u ++ 0 ∷ []) w; ok (t', w)) =
      unfold filter_add in rw (url_text-cstr u [] hu, unseen, put) refl in
    elim (run_cases (add_filtered scan_ip sp f (u ++ 0 ∷ []) w)) [
      | inl e ↦ rw (full, full', added, e) refl
      | inr (w1, e) ↦ rw (full, full', added, e, dropped g w1) refl
    ]
