-- ===== src/Small/Deletes/Ends.antt =====
-- str_del.c: what `str_del_all` leaves, and where it reads in front of the text.
use recycle_bin.Prelude.{
  ℕ, zero, suc, ◌+◌, ◌-◌, ◌≤◌, ◌<◌, ◌≡◌, ◌≢◌, refl, sym, ap, ◌∙◌, ◌⊎◌, inl, inr, true, false,
  Option, none, some, [], ◌∷◌, ◌++◌, arith, ltb, ◌==◌, Bool-cases, length, get_elem?, take, drop,
  length-append, length-take, length-drop, get_elem?-lt, ok, fault,
}
use mathlib.Core.Path.{subst}
use recycle_bin.Prelude.Chars.{Bytes}
use recycle_bin.Small.Deletes.{char_at, back, find_loop, str_find_right, str_del_all}

-- At that place of the text does not stand the other one.
unfoldable pub Differs : (substr text : Bytes) (i : ℕ) → Type 0
Differs substr text i =
    (j : ℕ) × (j < length substr) × (get_elem? text (i + j) ≢ get_elem? substr j)

-- At that place it stands.
unfoldable pub Stands : (substr text : Bytes) (i : ℕ) → Type 0
Stands substr text i = (j : ℕ) → j < length substr → get_elem? text (i + j) ≡ get_elem? substr j

-- What is left of a text where the other one has been taken out so often.
pub data Deleted (substr : Bytes) : Bytes → Bytes → Type 0 where
  nothing : (text : Bytes) → Deleted substr text text
  one :
      (text t : Bytes) (place : ℕ)
      → place + length substr ≤ length text
      → Stands substr text place
      → Deleted substr (take place text ++ drop (place + length substr) text) t
      → Deleted substr text t

apart : (a b : ℕ) → (a == b) ≡ false → some a ≢ some b
apart a b e same = let eq : a ≡ b = cc in absurd (ground arith)

equal : (a b : ℕ) → (a == b) ≡ true → a ≡ b
equal a b e = ground arith

one_more :
    (substr text : Bytes) (place m r : ℕ)
    → get_elem? text (place + suc m) ≡ get_elem? substr (suc m)
    → ((r ≡ 0) × ((j : ℕ) → 0 < j → j ≤ m → get_elem? text (place + j) ≡ get_elem? substr j))
      ⊎ ((0 < r) × Differs substr text place)
    → ((r ≡ 0) × ((j : ℕ) → 0 < j → j ≤ suc m → get_elem? text (place + j) ≡ get_elem? substr j))
      ⊎ ((0 < r) × Differs substr text place)
one_more substr text place m r same (inr d) = inr d
one_more substr text place m r same (inl (z, all)) = inl (
  z,
  λ j low high. elim (Bool-cases (ltb m j)) [
    | inl more ↦
        let at : suc m ≡ j = ground (arith, high) in
        subst (λ j. get_elem? text (place + j) ≡ get_elem? substr j) at same
    | inr less ↦ all j low (ground (arith, less))
  ],
)

-- Where the inner loop ends the characters differ, or it has come to the front.
back-ends :
    (substr text : Bytes) (place m : ℕ)
    → m < length substr
    → place + m < length text
    → (r : ℕ) × (back substr text place m ≡ ok r)
      × (((r ≡ 0) × ((j : ℕ) → 0 < j → j ≤ m → get_elem? text (place + j) ≡ get_elem? substr j))
          ⊎ ((0 < r) × Differs substr text place))
unfolding back char_at Differs
back-ends substr text place zero h k = (0, refl, inl (refl, λ j low high. absurd (omega arith)))
back-ends substr text place (suc m) h k =
    let (a, at_a) = get_elem?-lt substr (suc m) h in
    let (b, at_b) = get_elem?-lt text (place + suc m) k in
    elim (Bool-cases (a == b)) [
      | inl e ↦
          let (r, run, ends) = back-ends substr text place m (omega arith) (omega arith) in
          let same : get_elem? text (place + suc m) ≡ get_elem? substr (suc m) =
            at_b ∙ ap some (sym (equal a b e)) ∙ sym at_a in
          (r, rw (at_a, at_b, e) run, one_more substr text place m r same ends)
      | inr e ↦ (
        suc m,
        rw (at_a, at_b, e) refl,
        inr (omega arith, (suc m, h, λ same. apart a b e (sym at_a ∙ sym same ∙ at_b))),
      )
    ]

-- What is found among the first `n` characters.
unfoldable pub Found : (substr text : Bytes) (n : ℕ) → Option ℕ → Type 0
Found substr text n none = (i : ℕ) → i + length substr ≤ n → Differs substr text i
Found substr text n (some place) = (place + length substr ≤ n) × Stands substr text place

starts_apart :
    (substr text : Bytes) (place a b : ℕ)
    → 0 < length substr
    → get_elem? text place ≡ some a
    → get_elem? substr 0 ≡ some b
    → (a == b) ≡ false
    → Differs substr text place
unfolding Differs
starts_apart substr text place a b full at_a at_b e =
    let same : place + 0 ≡ place = omega arith in
    (0, full, λ eq. apart a b e (sym at_a ∙ ap (get_elem? text) (sym same) ∙ eq ∙ at_b))

whole_there :
    (substr text : Bytes) (place a b r : ℕ)
    → get_elem? text place ≡ some a
    → get_elem? substr 0 ≡ some b
    → (a == b) ≡ true
    → (r == 0) ≡ true
    → ((r ≡ 0)
        × ((j : ℕ)
            → 0 < j
            → j ≤ length substr - 1
            → get_elem? text (place + j) ≡ get_elem? substr j))
      ⊎ ((0 < r) × Differs substr text place)
    → Stands substr text place
unfolding Stands
whole_there substr text place a b r at_a at_b e z (inr (more, d)) = absurd (ground (arith, z, more))
whole_there substr text place a b r at_a at_b e z (inl (none_left, all)) = λ j low. from j low
  where
    from : (j : ℕ) → j < length substr → get_elem? text (place + j) ≡ get_elem? substr j
    from zero low =
        let same : place + 0 ≡ place = omega arith in
        ap (get_elem? text) same ∙ at_a ∙ ap some (equal a b e) ∙ sym at_b
    from (suc j) low = all (suc j) (omega arith) (omega arith)

-- One character less is looked at, where the text does not stand at the last place.
one_less :
    (substr text : Bytes) (k : ℕ) (o : Option ℕ)
    → length substr ≤ suc k
    → Differs substr text (k - (length substr - 1))
    → 0 < length substr
    → Found substr text k o
    → Found substr text (suc k) o
unfolding Found
one_less substr text k (some place) h d full (inside, stands) = (omega arith, stands)
one_less substr text k none h d full found = λ i le.
    elim (Bool-cases (ltb (i + length substr) (suc k))) [
      | inl less ↦ found i (ground arith)
      | inr equal ↦
          let at : k - (length substr - 1) ≡ i = ground (arith, le, h, full) in
          subst (Differs substr text) at d
    ]

find_loop-ends :
    (substr text : Bytes) (n : ℕ)
    → 2 ≤ length substr
    → 0 < n
    → n ≤ length text
    → (o : Option ℕ) × (find_loop substr text n ≡ ok o) × Found substr text n o
unfolding find_loop char_at Found
find_loop-ends substr text zero two some_left h = absurd (omega arith)
find_loop-ends substr text (suc k) two some_left h = elim (Bool-cases (ltb k (length substr - 1))) [
  | inl short ↦ (none, rw short refl, too_short k (ground arith))
  | inr long ↦
      let le : length substr ≤ suc k = ground arith in
      let full : 0 < length substr = omega arith in
      let before : 0 < k = omega arith in
      let within : k ≤ length text = omega arith in
      let starts_in : k - (length substr - 1) < length text = omega arith in
      let last_in : k - (length substr - 1) + (length substr - 1) < length text = omega arith in
      let last : length substr - 1 < length substr = omega arith in
      let fits : k - (length substr - 1) + length substr ≤ suc k = omega arith in
      let (o, run, found) = find_loop-ends substr text k two before within in
      let (a, at_a) = get_elem?-lt text (k - (length substr - 1)) starts_in in
      let (b, at_b) = get_elem?-lt substr 0 full in
      let (r, back_run, ends) =
        back-ends substr text (k - (length substr - 1)) (length substr - 1) last last_in in
      elim (Bool-cases (a == b)) [
        | inr e ↦
            let differs = starts_apart substr text (k - (length substr - 1)) a b full at_a at_b e in
            (o, rw (long, at_a, at_b, e) run, one_less substr text k o le differs full found)
        | inl e ↦ elim (Bool-cases (r == 0)) [
          | inl z ↦
              let stands =
                whole_there substr text (k - (length substr - 1)) a b r at_a at_b e z ends in
              (
                some (k - (length substr - 1)),
                rw (long, at_a, at_b, e, back_run, z) refl,
                (fits, stands),
              )
          | inr nz ↦
              let differs : Differs substr text (k - (length substr - 1)) = elim ends [
                | inl (zero_left, all) ↦ absurd (ground (arith, nz, zero_left))
                | inr (some_left, d) ↦ d
              ] in
              (
                o,
                rw (long, at_a, at_b, e, back_run, nz) run,
                one_less substr text k o le differs full found,
              )
        ]
      ]
]
  where
    too_short : (k : ℕ) → suc k < length substr → Found substr text (suc k) none
    too_short k lt = λ i le. absurd (omega arith)

-- Where `str_find_right` finds nothing the text does not occur, and what it finds is inside.
str_find_right-ends :
    (substr text : Bytes)
    → 2 ≤ length substr
    → (o : Option ℕ) × (str_find_right substr text ≡ ok o) × Found substr text (length text) o
unfolding str_find_right Found
str_find_right-ends substr text two =
    let full : (length substr == 0) ≡ false = ground arith in
    elim (Bool-cases (length text == 0)) [
      | inl e ↦ (none, rw e refl, nowhere (ground arith))
      | inr e ↦
          let (o, run, found) =
            find_loop-ends substr text (length text) two (ground (arith, e)) (omega arith) in
          (o, rw (e, full) run, found)
    ]
  where
    nowhere : length text ≡ 0 → Found substr text (length text) none
    nowhere e = λ i le. absurd (omega arith)

-- A text of two characters or more: the loop ends, with one turn for each character and one, and leaves what is left of
-- the text where it has been taken out so often that it does not occur in it.
pub str_del_all-ends :
    (fuel : ℕ) (text substr : Bytes)
    → 2 ≤ length substr
    → length text < fuel
    → (t : Bytes) × (str_del_all fuel text substr ≡ some (ok t))
      × Deleted substr text t
      × ((i : ℕ) → i + length substr ≤ length t → Differs substr t i)
unfolding str_del_all Found
str_del_all-ends zero text substr two h = absurd (omega arith)
str_del_all-ends (suc fuel) text substr two h =
    let (o, run, found) = str_find_right-ends substr text two in
    ended (λ left shorter. str_del_all-ends fuel left substr two shorter) o run found
  where
    ended :
        ((left : Bytes)
          → length left < fuel
          → (t : Bytes) × (str_del_all fuel left substr ≡ some (ok t))
            × Deleted substr left t
            × ((i : ℕ) → i + length substr ≤ length t → Differs substr t i))
        → (o : Option ℕ) → str_find_right substr text ≡ ok o
        → Found substr text (length text) o
        → (t : Bytes) × (str_del_all (suc fuel) text substr ≡ some (ok t))
          × Deleted substr text t
          × ((i : ℕ) → i + length substr ≤ length t → Differs substr t i)
    ended again none run found = (text, rw (str_del_all, run) refl, nothing text, found)
    ended again (some place) run found =
        let left = take place text ++ drop (place + length substr) text in
        let shorter : length left < fuel = omega (
          arith,
          length-append (take place text) (drop (place + length substr) text),
          length-take place text,
          length-drop (place + length substr) text,
          found.0,
          two,
          h,
        ) in
        let (t, rest, gone, clean) = again left shorter in
        (t, rw (str_del_all, run) rest, one text t place found.0 found.1 gone, clean)

-- A text of one character, in a text that does not hold it: its end is looked for in front of the text.
pub str_find_right-front :
    (c : ℕ) (text : Bytes)
    → 0 < length text
    → ((i : ℕ) (x : ℕ) → get_elem? text i ≡ some x → (x == c) ≡ false)
    → str_find_right (c ∷ []) text ≡ fault
unfolding str_find_right find_loop char_at
str_find_right-front c text full apart_all =
    let some_left : (length text == 0) ≡ false = ground arith in
    rw some_left (runs (length text) (omega arith))
  where
    runs : (n : ℕ) → n ≤ length text → find_loop (c ∷ []) text n ≡ fault
    runs zero h = refl
    runs (suc k) h =
        let (x, at) = get_elem?-lt text k h in
        let ne : (x == c) ≡ false = apart_all k x at in
        let place : k - (length (c ∷ []) - 1) ≡ k = omega arith in
        let long : ltb k (length (c ∷ []) - 1) ≡ false = ground arith in
        let at_place : get_elem? text (k - (length (c ∷ []) - 1)) ≡ some x =
          ap (get_elem? text) place ∙ at in
        rw (long, at_place, ne) (runs k (omega arith))
