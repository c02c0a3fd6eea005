-- ===== src/MiniAnt/Array/Elements.antt =====
-- mini_ant/src/ant_array.c: `ant_array_put` and `ant_array_get` against the elements of the array.
use recycle_bin.Prelude.{
  ℕ, zero, suc, ◌+◌, ◌-◌, ◌*◌, ◌%◌, ◌^◌, ◌≤◌, ◌<◌, ◌≡◌, refl, sym, ap, ◌∙◌, inl, inr, Bool, true,
  false, [], ◌∷◌, ◌++◌, arith, ltb, leb, ◌==◌, if◌then◌else◌, Bool-cases, append_assoc, Option,
  length, take, drop, length-append, length-take, length-drop, take-length, Run, ok, ◌>>=◌, Returns,
}
use recycle_bin.Prelude.Chars.{Bytes}
use recycle_bin.Prelude.Int.{negsuc, ◌-ℤ◌, signed32, pos_part}
use recycle_bin.MiniAnt.Array.{
  AntArray, word, zero_bytes, zero_words, iszero, from, taken, put_at, ant_array_grow,
  ant_array_put, ant_array_get,
}
use recycle_bin.Prelude.Windows.{window-front, window-there, window-behind}

-- The object holds the elements and nothing else.
pub record IsArray (a : AntArray) : Type 0 where
  pub full : length a.array ≡ a.length * a.size

-- The bytes of the element whose place `ant_array_get` returns.
unfoldable pub element : AntArray → (i : ℕ) → Run Bytes
element a i = do place ← ant_array_get a i; m ← from a.array place; taken a.size m

zero_bytes-ok : (cnt : ℕ) (m : Bytes) → cnt ≤ length m → (b : Bool) × (zero_bytes cnt m ≡ ok b)
unfolding zero_bytes
zero_bytes-ok zero m h = (true, refl)
zero_bytes-ok (suc cnt) [] h = absurd (omega arith)
zero_bytes-ok (suc cnt) (b ∷ m) h = elim (Bool-cases (b == 0)) [
  | inl e ↦ let (r, run) = zero_bytes-ok cnt m (omega arith) in (r, rw e run)
  | inr e ↦ (false, rw e refl)
]

zero_words-ok : (cnt : ℕ) (m : Bytes) → cnt ≤ length m → (b : Bool) × (zero_words cnt m ≡ ok b)
unfolding zero_words word
zero_words-ok zero m h = zero_bytes-ok 0 m h
zero_words-ok (suc zero) m h = zero_bytes-ok 1 m h
zero_words-ok (suc (suc zero)) m h = zero_bytes-ok 2 m h
zero_words-ok (suc (suc (suc zero))) m h = zero_bytes-ok 3 m h
zero_words-ok (suc (suc (suc (suc cnt)))) (a ∷ b ∷ c ∷ d ∷ m) h =
    elim (Bool-cases (a + 256 * (b + 256 * (c + 256 * d)) == 0)) [
      | inl e ↦ let (r, run) = zero_words-ok cnt m (omega arith) in (r, rw e run)
      | inr e ↦ (false, rw e refl)
    ]
zero_words-ok (suc (suc (suc (suc cnt)))) [] h = absurd (omega arith)
zero_words-ok (suc (suc (suc (suc cnt)))) (a ∷ []) h = absurd (omega arith)
zero_words-ok (suc (suc (suc (suc cnt)))) (a ∷ b ∷ []) h = absurd (omega arith)
zero_words-ok (suc (suc (suc (suc cnt)))) (a ∷ b ∷ c ∷ []) h = absurd (omega arith)

iszero-ok : (m : Bytes) (n : ℕ) → n ≤ length m → (b : Bool) × (iszero m n ≡ ok b)
unfolding iszero
iszero-ok m n h = zero_words-ok (pos_part (signed32 (n % 2 ^ 32))) m (ground arith)

before_place : (j i s : ℕ) → j < i → j * s + s ≤ i * s
before_place j i s h =
    let d = i - (j + 1) in let e : i ≡ j + 1 + d = omega arith in rw e (grind arith)

module _ (calloc : (nmemb size : ℕ) → Option Bytes) (a : AntArray) (is : IsArray a) (i : ℕ)
    (elem : Bytes) (low : i < a.length) (sized : length elem ≡ a.size) where
  -- Where the element stands.
  ends : i * a.size + a.size ≤ length a.array
  ends = grind (arith, is.full, low)

  abbrev after : Bytes
  after = take (i * a.size) a.array ++ (elem ++ drop (i * a.size + length elem) a.array)

  put-runs :
      Returns
        (λ (got, a').
          (got ≡ true) × (a'.array ≡ after) × (a'.length ≡ a.length) × (a'.size ≡ a.size))
        (ant_array_put calloc a i elem)
  unfolding ant_array_put ant_array_grow from taken put_at
  put-runs =
      let here : ltb i a.length ≡ true = ground arith in
      let place : leb (i * a.size) (length a.array) ≡ true = ground (arith, ends) in
      let whole : leb a.size (length elem) ≡ true = ground (arith, sized) in
      let same : take a.size elem ≡ elem = ap (λ n. take n elem) (sym sized) ∙ take-length elem in
      let room : leb (i * a.size + length elem) (length a.array) ≡ true =
        ground (arith, ends, sized) in
      let (b, tested) =
        iszero-ok (drop (i * a.size) a.array) a.size
          (omega (arith, length-drop (i * a.size) a.array, ends)) in
      (
        (true, record a { array = after; ncurr = if b then a.ncurr -ℤ negsuc 0 else a.ncurr }),
        rw (here, place, tested, whole, same, room, append_assoc) refl,
        (refl, refl, refl, refl),
      )

  length-after : length after ≡ length a.array
  length-after = omega (
    arith,
    length-append (take (i * a.size) a.array) (elem ++ drop (i * a.size + length elem) a.array),
    length-append elem (drop (i * a.size + length elem) a.array),
    length-take (i * a.size) a.array,
    length-drop (i * a.size + length elem) a.array,
    ends,
    sized,
  )

  -- What is read at a place of `after`.
  window :
      (j : ℕ)
      → j < a.length
      → take a.size (drop (j * a.size) after)
        ≡ (if j == i then elem else take a.size (drop (j * a.size) a.array))
  window j h = elim (Bool-cases (j == i)) [
    | inl e ↦
        let at : j ≡ i = ground (arith, e) in
        rw e (
          ap (λ k. take a.size (drop (k * a.size) after)) at
          ∙ ap (λ n. take n (drop (i * a.size) after)) (sym sized)
          ∙ window-there a.array elem (drop (i * a.size + length elem) a.array) (i * a.size)
              (omega (arith, ends)))
    | inr e ↦ rw e (elim (Bool-cases (ltb j i)) [
      | inl less ↦
          let lt : j < i = ground (arith, less) in
          let before : j * a.size + a.size ≤ i * a.size = before_place j i a.size lt in
          window-front a.array (elem ++ drop (i * a.size + length elem) a.array) (j * a.size) a.size
            (i * a.size) before (omega (arith, ends))
      | inr more ↦
          let lt : i < j = ground (arith, more, e) in
          let behind : i * a.size + a.size ≤ j * a.size = before_place i j a.size lt in
          let d = j * a.size - (i * a.size + length elem) in
          let split : j * a.size ≡ i * a.size + length elem + d = omega (arith, behind, sized) in
          ap (λ n. take a.size (drop n after)) split
          ∙ ap (take a.size) (window-behind a.array elem (i * a.size) d (omega (arith, ends)))
          ∙ ap (λ n. take a.size (drop n a.array)) (sym split)
    ])
  ]

element-eq :
    (a : AntArray) (j : ℕ)
    → IsArray a
    → j < a.length
    → element a j ≡ ok (take a.size (drop (j * a.size) a.array))
unfolding element ant_array_get from taken
element-eq a j is h =
    let there : ltb j a.length ≡ true = ground arith in
    let fits : j * a.size + a.size ≤ length a.array = grind (arith, is.full, h) in
    let place : leb (j * a.size) (length a.array) ≡ true = ground (arith, fits) in
    let whole : leb a.size (length (drop (j * a.size) a.array)) ≡ true =
      ground (arith, fits, length-drop (j * a.size) a.array) in
    rw (there, place, whole) refl

-- An element is put at a place that the array has, and it has the size of an element: the array keeps its length, the element
-- is got at that place, and every other element as before.
pub ant_array_put-get :
    (calloc : (nmemb size : ℕ) → Option Bytes) (a : AntArray) (i : ℕ) (elem : Bytes)
    → IsArray a
    → i < a.length
    → length elem ≡ a.size
    → Returns
        (λ (got, a').
          (got ≡ true)
          × IsArray a'
          × (a'.length ≡ a.length)
          × (a'.size ≡ a.size)
          × ((j : ℕ) → j < a.length → element a' j ≡ (if j == i then ok elem else element a j)))
        (ant_array_put calloc a i elem)
ant_array_put-get calloc a i elem is low sized =
    let ((got, a'), run, (fine, array, same_length, same_size)) =
      put-runs calloc a is i elem low sized in
    let is' : IsArray a' = record {
      full =
          ap length array
          ∙ length-after calloc a is i elem low sized
          ∙ is.full
          ∙ rw (same_length, same_size) refl;
    } in
    (
      (got, a'),
      run,
      (
        fine,
        is',
        same_length,
        same_size,
        λ j h.
            element-eq a' j is' (rw same_length h)
            ∙ rw (same_size, array, window calloc a is i elem low sized j h)
                (elim (Bool-cases (j == i)) [
                  | inl e ↦ rw e refl
                  | inr e ↦ rw e (sym (element-eq a j is h))
                ]),
      ),
    )
