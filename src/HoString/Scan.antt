-- ===== src/HoString/Scan.antt =====
-- libc/ho_string/ho_strlen.c, ho_strlen1.c, ho_strlen3.c, ho_strchr.c, ho_strrchr.c, ho_memchr.c.
-- A loop's argument `p` is the address that the pointer holds, counted from the start of the object.
pub mod Last
use recycle_bin.Prelude.{
  ◌%◌, ℕ, zero, suc, ◌+◌, ◌-◌, ◌≤◌, ◌≡◌, refl, sym, ap, ◌∙◌, ◌<◌, Bool, false, Option, none, some,
  [], ◌∷◌, ◌++◌, arith, length, get_elem?, take, length-append, take-length-append, get_elem?-lt,
  All, Run, ok, Returns, fault, ◌>>=◌, from_option, ◌==◌, if◌then◌else◌,
}
use recycle_bin.Prelude.Chars.{Bytes, IsText, cstr}
use recycle_bin.Prelude.Int.{ℤ, pos, eq_ℤ, schar, uchar}
use recycle_bin.Prelude.First.{
  at, at-next, at-zero, first_index, last_index, last_step, IsFirst, IsLast, first_index-IsFirst,
  last_index-IsLast,
}

-- `*s == c` for a `char` and an `int`, and for an `unsigned char` and an `int`.
unfoldable pub char_is : ℤ → ℕ → Bool
char_is c b = eq_ℤ (schar b) c

unfoldable pub uchar_is : ℤ → ℕ → Bool
uchar_is c b = eq_ℤ (pos b) c

-- `while (*p++);` and `return p - str - 1`
strlen_loop : Bytes → ℕ → Run ℕ
strlen_loop [] p = fault
strlen_loop (c ∷ m) p = if c == 0 then ok (suc p - 1) else strlen_loop m (suc p)

unfoldable pub ho_strlen : Bytes → Run ℕ
unfolding strlen_loop
ho_strlen m = strlen_loop m 0

-- `for (sc = s; *sc != '\0'; ++sc);`
pub strlen1_loop : Bytes → ℕ → Run ℕ
strlen1_loop [] sc = fault
strlen1_loop (c ∷ m) sc = if c == 0 then ok sc else strlen1_loop m (suc sc)

unfoldable pub ho_strlen1 : Bytes → Run ℕ
unfolding strlen1_loop
ho_strlen1 m = strlen1_loop m 0

-- `for (len = 0; *str++; len++);`
strlen3_loop : Bytes → (str len : ℕ) → Run ℕ
strlen3_loop [] str len = fault
strlen3_loop (c ∷ m) str len = if c == 0 then ok len else strlen3_loop m (suc str) (suc len)

unfoldable pub ho_strlen3 : Bytes → Run ℕ
unfolding strlen3_loop
ho_strlen3 m = strlen3_loop m 0 0

strchr_loop : Bytes → ℤ → ℕ → Run (Option ℕ)
strchr_loop [] c s = fault
strchr_loop (b ∷ m) c s =
    if b == 0 then ok none else if char_is c b then ok (some s) else strchr_loop m c (suc s)

unfoldable pub ho_strchr : Bytes → ℤ → Run (Option ℕ)
unfolding strchr_loop
ho_strchr m c = strchr_loop m c 0

-- `while (s <= p) { if (*p == cc) return p; p--; }`, where `cc` is an `unsigned char`
pub strrchr_back : Bytes → ℕ → ℕ → Run (Option ℕ)
strrchr_back m byte zero = do
  b ← from_option (get_elem? m 0)
  ok (if char_is (pos byte) b then some 0 else none)
strrchr_back m byte (suc p) = do
  b ← from_option (get_elem? m (suc p))
  if char_is (pos byte) b then ok (some (suc p)) else strrchr_back m byte p

unfoldable pub ho_strrchr : Bytes → ℤ → Run (Option ℕ)
unfolding strlen1_loop strrchr_back
ho_strrchr m c = do p ← strlen1_loop m 0; strrchr_back m (uchar c) p

pub strrchr2_loop : Bytes → ℤ → (s : ℕ) (p : Option ℕ) → Run (Option ℕ)
strrchr2_loop [] c s p = fault
strrchr2_loop (b ∷ m) c s p =
    if b == 0 then ok p else strrchr2_loop m c (suc s) (if char_is c b then some s else p)

unfoldable pub ho_strrchr2 : Bytes → ℤ → Run (Option ℕ)
unfolding strrchr2_loop
ho_strrchr2 m c = strrchr2_loop m c 0 none

memchr_loop : Bytes → ℤ → (n p : ℕ) → Run (Option ℕ)
memchr_loop m c zero p = ok none
memchr_loop [] c (suc n) p = fault
memchr_loop (b ∷ m) c (suc n) p = if uchar_is c b then ok (some p) else memchr_loop m c n (suc p)

unfoldable pub ho_memchr : Bytes → ℤ → ℕ → Run (Option ℕ)
unfolding memchr_loop
ho_memchr m c n = memchr_loop m c n 0

strlen_loop-length :
    (cs rest : Bytes) (p : ℕ) → IsText cs → strlen_loop (cstr cs rest) p ≡ ok (p + length cs)
unfolding strlen_loop
strlen_loop-length [] rest p t = ground arith
strlen_loop-length (c ∷ cs) rest p t = ground (arith, strlen_loop-length cs rest (suc p) t.1)

strlen_loops :
    (m : Bytes) (p q : ℕ)
    → (strlen_loop m p ≡ strlen1_loop m p) × (strlen3_loop m q p ≡ strlen1_loop m p)
unfolding strlen_loop strlen1_loop strlen3_loop
strlen_loops [] p q = (refl, refl)
strlen_loops (c ∷ m) p q = ground (arith, strlen_loops m (suc p) (suc q))

-- The three versions agree on every memory, also where they run off its end; on a string they give
-- the number of its characters.
pub strlen-length :
    (m : Bytes)
    → (ho_strlen m ≡ ho_strlen1 m)
      × (ho_strlen3 m ≡ ho_strlen1 m)
      × ((cs rest : Bytes) → IsText cs → m ≡ cstr cs rest → ho_strlen m ≡ ok (length cs))
unfolding ho_strlen ho_strlen1 ho_strlen3
strlen-length m = (
  (strlen_loops m 0 0).0,
  (strlen_loops m 0 0).1,
  λ cs rest t e. rw e (rw (strlen_loop-length cs rest 0 t) (ground arith)),
)

strchr_loop-first :
    (cs rest : Bytes) (c : ℤ) (s : ℕ)
    → IsText cs
    → strchr_loop (cstr cs rest) c s ≡ ok (at s (first_index (char_is c) cs))
unfolding strchr_loop first_index
strchr_loop-first [] rest c s t = refl
strchr_loop-first (x ∷ cs) rest c s t =
    ground (arith, strchr_loop-first cs rest c (suc s) t.1, at-next s (first_index (char_is c) cs))

-- On a string `ho_strchr` returns, with the first position of the character among those before the
-- NUL, or none.
pub strchr-IsFirst :
    (cs rest : Bytes) (c : ℤ)
    → IsText cs
    → Returns (IsFirst (char_is c) cs) (ho_strchr (cstr cs rest) c)
unfolding ho_strchr
strchr-IsFirst cs rest c t = (
  first_index (char_is c) cs,
  strchr_loop-first cs rest c 0 t ∙ ap ok (at-zero _),
  first_index-IsFirst (char_is c) cs,
)

memchr_loop-first :
    (m : Bytes) (c : ℤ) (n p : ℕ)
    → n ≤ length m
    → memchr_loop m c n p ≡ ok (at p (first_index (uchar_is c) (take n m)))
unfolding memchr_loop first_index
memchr_loop-first m c zero p h = refl
memchr_loop-first [] c (suc n) p h = absurd (omega arith)
memchr_loop-first (b ∷ m) c (suc n) p h =
    ground (arith, memchr_loop-first m c n (suc p), at-next p (first_index (uchar_is c) (take n m)))

-- Within an object of at least `n` bytes `ho_memchr` returns, with the first position of the byte
-- among the first `n`, or none.
pub memchr-IsFirst :
    (m : Bytes) (c : ℤ) (n : ℕ)
    → n ≤ length m
    → Returns (IsFirst (uchar_is c) (take n m)) (ho_memchr m c n)
unfolding ho_memchr
memchr-IsFirst m c n h = (
  first_index (uchar_is c) (take n m),
  memchr_loop-first m c n 0 h ∙ ap ok (at-zero _),
  first_index-IsFirst (uchar_is c) (take n m),
)
