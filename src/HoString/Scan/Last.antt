-- ===== src/HoString/Scan/Last.antt =====
-- libc/ho_string/ho_strrchr.c: the last position of a character.
use recycle_bin.Prelude.{
  ℕ, zero, suc, ◌+◌, ◌%◌, ◌≤◌, ◌<◌, ◌≡◌, refl, sym, ap, ◌∙◌, Bool, false, Option, none, some, [],
  ◌∷◌, ◌++◌, arith, if◌then◌else◌, length, get_elem?, take, length-append, get_elem?-lt,
  take-length-append, All, ok, ◌>>=◌, Returns,
}
use recycle_bin.Prelude.Chars.{Bytes, IsText, cstr}
use recycle_bin.Prelude.Int.{ℤ, pos, uchar}
use recycle_bin.Prelude.First.{at, last_index, last_step, IsLast, last_index-IsLast}
use recycle_bin.HoString.Scan.{
  strlen_loop-length, strlen_loops, char_is, strlen1_loop, strrchr_back, ho_strrchr, strrchr2_loop,
  ho_strrchr2,
}

-- The position found so far, or one further on.
abbrev found_or : Option ℕ → Option ℕ → Option ℕ
found_or p none = p
found_or p (some k) = some k

strrchr2_loop-last :
    (cs rest : Bytes) (c : ℤ) (s : ℕ) (p : Option ℕ)
    → IsText cs
    → strrchr2_loop (cstr cs rest) c s p ≡ ok (found_or p (at s (last_index (char_is c) cs)))
unfolding strrchr2_loop last_index
strrchr2_loop-last [] rest c s p t = refl
strrchr2_loop-last (x ∷ cs) rest c s p t =
    let o = last_index (char_is c) cs in
    ground
      (arith, strrchr2_loop-last cs rest c (suc s) (if char_is c x then some s else p) t.1, step o)
  where
    step :
        (o : Option ℕ)
        → found_or (if char_is c x then some s else p) (at (suc s) o)
          ≡ found_or p (at s (last_step (char_is c) x o))
    step none = ground arith
    step (some k) = ground arith

last_index-take :
    (f : ℕ → Bool) (m : Bytes) (k : ℕ) {b : ℕ}
    → get_elem? m k ≡ some b
    → last_index f (take (suc k) m) ≡ (if f b then some k else last_index f (take k m))
unfolding last_index
last_index-take f [] k h = cc
last_index-take f (x ∷ m) zero h = ground arith
last_index-take f (x ∷ m) (suc k) {b} h =
    rw (last_index-take f m k h) (step (last_index f (take k m)))
  where
    step :
        (o : Option ℕ)
        → last_step f x (if f b then some k else o)
          ≡ (if f b then some (suc k) else last_step f x o)
    step none = ground arith
    step (some i) = ground arith

strrchr_back-last :
    (m : Bytes) (byte k : ℕ)
    → k < length m
    → strrchr_back m byte k ≡ ok (last_index (char_is (pos byte)) (take (suc k) m))
unfolding strrchr_back last_index
strrchr_back-last m byte zero h =
    let (b, e) = get_elem?-lt m 0 h in rw (e, last_index-take (char_is (pos byte)) m 0 e) refl
strrchr_back-last m byte (suc k) h =
    let (b, e) = get_elem?-lt m (suc k) h in
    rw (e, last_index-take (char_is (pos byte)) m (suc k) e)
      (ground (arith, strrchr_back-last m byte k))

strlen1_loop-length :
    (cs rest : Bytes) (p : ℕ) → IsText cs → strlen1_loop (cstr cs rest) p ≡ ok (p + length cs)
strlen1_loop-length cs rest p t =
    sym (strlen_loops (cstr cs rest) p 0).0 ∙ strlen_loop-length cs rest p t

ho_strrchr-last :
    (cs rest : Bytes) (c : ℤ)
    → IsText cs
    → ho_strrchr (cstr cs rest) c ≡ ok (last_index (char_is (pos (uchar c))) (cs ++ 0 ∷ []))
unfolding ho_strrchr
ho_strrchr-last cs rest c t =
    rw (strlen1_loop-length cs rest 0 t, ◌>>=◌)
      (strrchr_back-last (cstr cs rest) (uchar c) (0 + length cs)
          (omega (arith, length-append cs (0 ∷ rest)))
        ∙ ap (λ xs. ok (last_index (char_is (pos (uchar c))) xs)) (whole cs))
  where
    count : (n : ℕ) → suc (0 + n) ≡ n + 1
    count n = omega arith

    whole : (cs : Bytes) → take (suc (0 + length cs)) (cstr cs rest) ≡ cs ++ 0 ∷ []
    whole cs =
        ap (λ n. take n (cstr cs rest)) (count (length cs)) ∙ take-length-append cs (0 ∷ rest) 1

-- On a string `ho_strrchr` returns, with the last position of the character among those of the
-- string and the NUL behind them, the byte compared being that of the argument as an unsigned char.
pub strrchr-IsLast :
    (cs rest : Bytes) (c : ℤ)
    → IsText cs
    → Returns (IsLast (char_is (pos (uchar c))) (cs ++ 0 ∷ [])) (ho_strrchr (cstr cs rest) c)
strrchr-IsLast cs rest c t = (
  last_index (char_is (pos (uchar c))) (cs ++ 0 ∷ []),
  ho_strrchr-last cs rest c t,
  last_index-IsLast (char_is (pos (uchar c))) (cs ++ 0 ∷ []),
)

-- A last element that fails does not count.
last_index-snoc :
    (f : ℕ → Bool) (xs : Bytes) (y : ℕ)
    → f y ≡ false
    → last_index f (xs ++ y ∷ []) ≡ last_index f xs
unfolding last_index
last_index-snoc f [] y e = rw e
last_index-snoc f (x ∷ xs) y e = rw (last_index-snoc f xs y e)

found_or-none : (o : Option ℕ) → found_or none (at 0 o) ≡ o
found_or-none none = refl
found_or-none (some k) = ground arith

-- For an ASCII character other than NUL the two versions return the same on every string.
pub strrchr-eq-strrchr2 :
    (cs rest : Bytes) (n : ℕ)
    → IsText cs
    → 0 < n
    → n < 128
    → ho_strrchr (cstr cs rest) (pos n) ≡ ho_strrchr2 (cstr cs rest) (pos n)
unfolding ho_strrchr2 char_is
strrchr-eq-strrchr2 cs rest n t h l =
    let small : n % 256 ≡ n = omega arith in
    ho_strrchr-last cs rest (pos n) t
    ∙ rw small (
        ap ok (last_index-snoc (char_is (pos n)) cs 0 (ground arith) ∙ sym (found_or-none _))
        ∙ sym (strrchr2_loop-last cs rest (pos n) 0 none t))

last_index-fails : (f : ℕ → Bool) (xs : Bytes) → All (λ b. f b ≡ false) xs → last_index f xs ≡ none
unfolding last_index
last_index-fails f [] h = refl
last_index-fails f (x ∷ xs) h = rw (last_index-fails f xs h.1, h.0) refl

char_is-high :
    (n : ℕ) (cs : Bytes)
    → 128 ≤ n
    → All (λ b. b < 256) cs
    → All (λ b. char_is (pos n) b ≡ false) (cs ++ 0 ∷ [])
unfolding char_is
char_is-high n [] h k = (ground arith, tt)
char_is-high n (x ∷ cs) h k = (ground arith, char_is-high n cs h k.1)

-- `ho_strrchr` never finds a character whose byte is 128 or more, on any string of bytes: it compares
-- a signed char with an unsigned one.
pub strrchr-high :
    (cs rest : Bytes) (c : ℤ)
    → IsText cs
    → All (λ b. b < 256) cs
    → 128 ≤ uchar c
    → ho_strrchr (cstr cs rest) c ≡ ok none
strrchr-high cs rest c t k h =
    ho_strrchr-last cs rest c t
    ∙ ap ok
        (last_index-fails (char_is (pos (uchar c))) (cs ++ 0 ∷ []) (char_is-high (uchar c) cs h k))
