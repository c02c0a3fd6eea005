-- ===== src/HoString/Compare.antt =====
-- libc/ho_string/ho_strcmp.c, ho_strncmp.c, ho_memcmp.c.
use recycle_bin.Prelude.{
  ℕ, zero, suc, ◌+◌, ◌-◌, ◌%◌, ◌<◌, ◌≡◌, refl, ◌∙◌, ◌≢◌, ◌↔◌, inl, inr, true, false, not, [], ◌∷◌,
  arith, ◌==◌, if◌then◌else◌, Bool-cases, length, take, All, Run, ok, fault, Returns,
}
use recycle_bin.Prelude.Chars.{Bytes, IsText, cstr}
use recycle_bin.Prelude.Int.{ℤ, pos, eq_ℤ, eq_ℤ_iff, schar, neg, ◌-ℤ◌}

-- `*s - *s2`, of two `char`s.
unfoldable pub difference : ℕ → ℕ → ℤ
difference a b = schar a -ℤ schar b

-- `while (!(c = *s - *s2) && *s) s++, s2++;`
unfoldable pub ho_strcmp : Bytes → Bytes → Run ℤ
ho_strcmp [] m2 = fault
ho_strcmp (a ∷ m1) [] = fault
ho_strcmp (a ∷ m1) (b ∷ m2) =
    let c = difference a b in
    let rest = ho_strcmp m1 m2 in
    if not (eq_ℤ c (pos 0)) then ok c else if a == 0 then ok c else rest

-- `c` holds what the variable held before; at first that is not defined.
unfoldable pub ho_strncmp : ℤ → Bytes → Bytes → ℕ → Run ℤ
ho_strncmp c m1 m2 zero = ok c
ho_strncmp c [] m2 (suc n) = fault
ho_strncmp c (a ∷ m1) [] (suc n) = fault
ho_strncmp c (a ∷ m1) (b ∷ m2) (suc n) =
    let c' = difference a b in
    let rest = ho_strncmp c' m1 m2 n in
    if not (eq_ℤ c' (pos 0)) then ok c' else if a == 0 then ok c' else rest

-- `c` is a `char`: the difference of two bytes is cut to eight bits.
unfoldable pub byte_difference : ℕ → ℕ → ℤ
byte_difference a b = schar ((a + 256 - b) % 256)

-- `while (!(c = *p1 - *p2) && n--)`: the bytes are read before the count is tested.
unfoldable pub ho_memcmp : Bytes → Bytes → ℕ → Run ℤ
ho_memcmp [] m2 n = fault
ho_memcmp (a ∷ m1) [] n = fault
ho_memcmp (a ∷ m1) (b ∷ m2) zero = ok (byte_difference a b)
ho_memcmp (a ∷ m1) (b ∷ m2) (suc n) =
    let c = byte_difference a b in
    let rest = ho_memcmp m1 m2 n in if eq_ℤ c (pos 0) then rest else ok c

abbrev pub AreBytes : Bytes → Type 0
AreBytes cs = All (λ b. b < 256) cs

difference-test : (a b : ℕ) → a < 256 → b < 256 → eq_ℤ (difference a b) (pos 0) ≡ (a == b)
unfolding difference
difference-test a b ha hb = ground arith

byte_difference-test : (a b : ℕ) → a < 256 → b < 256 → eq_ℤ (byte_difference a b) (pos 0) ≡ (a == b)
unfolding byte_difference
byte_difference-test a b ha hb = ground arith

eq_ℤ-zero : (c : ℤ) → eq_ℤ c (pos 0) ≡ true → c ≡ pos 0
eq_ℤ-zero c = (eq_ℤ_iff c (pos 0)).0

not_zero : (c : ℤ) → eq_ℤ c (pos 0) ≡ false → c ≢ pos 0
not_zero c h e = cc (h, (eq_ℤ_iff c (pos 0)).1 e)

difference-neg : (a b : ℕ) → difference b a ≡ neg (difference a b)
unfolding difference
difference-neg a b = ground arith

neg-test : (c : ℤ) → eq_ℤ (neg c) (pos 0) ≡ eq_ℤ c (pos 0)
neg-test c = ground arith

-- On two strings of bytes `ho_strcmp` returns, and it returns zero exactly when they are equal.
pub strcmp-zero :
    (xs ys rest rest' : Bytes)
    → IsText xs
    → IsText ys
    → AreBytes xs
    → AreBytes ys
    → Returns (λ c. (c ≡ pos 0) ↔ (xs ≡ ys)) (ho_strcmp (cstr xs rest) (cstr ys rest'))
unfolding ho_strcmp
strcmp-zero [] [] rest rest' t u h k = (
  difference 0 0,
  rw (difference-test 0 0 (omega arith) (omega arith)),
  (λ _. refl, λ _. eq_ℤ-zero _ (difference-test 0 0 (omega arith) (omega arith))),
)
strcmp-zero [] (y ∷ ys) rest rest' t u h k =
    let e : (0 == y) ≡ false = ground arith in
    (
      difference 0 y,
      rw (difference-test 0 y (omega arith) k.0, e),
      (λ z. absurd (not_zero _ (difference-test 0 y (omega arith) k.0 ∙ e) z), λ z. cc),
    )
strcmp-zero (x ∷ xs) [] rest rest' t u h k =
    let e : (x == 0) ≡ false = ground arith in
    (
      difference x 0,
      rw (difference-test x 0 h.0 (omega arith), e),
      (λ z. absurd (not_zero _ (difference-test x 0 h.0 (omega arith) ∙ e) z), λ z. cc),
    )
strcmp-zero (x ∷ xs) (y ∷ ys) rest rest' t u h k =
    let full : (x == 0) ≡ false = ground arith in
    elim (Bool-cases (x == y)) [
      | inl e ↦
          let (c, run, same) = strcmp-zero xs ys rest rest' t.1 u.1 h.1 k.1 in
          (
            c,
            rw (difference-test x y h.0 k.0, e, full) run,
            (λ z. ground (arith, same.0 z), λ z. same.1 (ground arith)),
          )
      | inr e ↦ (
        difference x y,
        rw (difference-test x y h.0 k.0, e),
        (λ z. absurd (not_zero _ (difference-test x y h.0 k.0 ∙ e) z), λ z. ground arith),
      )
    ]

zero-chars : (a b : ℕ) → eq_ℤ (difference a b) (pos 0) ≡ true → (a == 0) ≡ (b == 0)
unfolding difference
zero-chars a b h = ground arith

-- The two strings swapped give the result with its sign turned, on every memory.
pub strcmp-swap : (m1 m2 : Bytes) (c : ℤ) → ho_strcmp m1 m2 ≡ ok c → ho_strcmp m2 m1 ≡ ok (neg c)
unfolding ho_strcmp
strcmp-swap [] m2 c h = cc
strcmp-swap (a ∷ m1) [] c h = cc
strcmp-swap (a ∷ m1) (b ∷ m2) c h = ground (
  arith,
  difference-neg a b,
  neg-test (difference a b),
  strcmp-swap m1 m2 c,
  eq_ℤ-zero (difference a b),
  zero-chars a b,
)

-- A count beyond the first string's end makes `ho_strncmp` the same as `ho_strcmp`.
pub strncmp-eq-strcmp :
    (c : ℤ) (xs rest m : Bytes) (n : ℕ)
    → IsText xs
    → length xs < n
    → ho_strncmp c (cstr xs rest) m n ≡ ho_strcmp (cstr xs rest) m
unfolding ho_strcmp ho_strncmp
strncmp-eq-strcmp c xs rest m zero t h = absurd (omega arith)
strncmp-eq-strcmp c [] rest [] (suc n) t h = refl
strncmp-eq-strcmp c [] rest (b ∷ m) (suc n) t h = ground arith
strncmp-eq-strcmp c (x ∷ xs) rest [] (suc n) t h = refl
strncmp-eq-strcmp c (x ∷ xs) rest (b ∷ m) (suc n) t h =
    rw (strncmp-eq-strcmp (difference x b) xs rest m n t.1 (omega arith)) refl

memcmp-Returns :
    (n : ℕ) (m1 m2 : Bytes)
    → AreBytes m1
    → AreBytes m2
    → n < length m1
    → n < length m2
    → Returns (λ c. (c ≡ pos 0) ↔ (take (suc n) m1 ≡ take (suc n) m2)) (ho_memcmp m1 m2 n)
unfolding ho_memcmp
memcmp-Returns n [] m2 h k p q = absurd (omega arith)
memcmp-Returns n (a ∷ m1) [] h k p q = absurd (omega arith)
memcmp-Returns zero (a ∷ m1) (b ∷ m2) h k p q = (
  byte_difference a b,
  refl,
  (
    λ z. ground (arith, byte_difference-test a b h.0 k.0),
    λ z. eq_ℤ-zero _ (byte_difference-test a b h.0 k.0 ∙ ground arith),
  ),
)
memcmp-Returns (suc n) (a ∷ m1) (b ∷ m2) h k p q =
    let test = byte_difference-test a b h.0 k.0 in
    elim (Bool-cases (a == b)) [
      | inl e ↦
          let (c, run, same) = memcmp-Returns n m1 m2 h.1 k.1 (omega arith) (omega arith) in
          (c, rw (test, e) run, (λ z. ground (arith, same.0 z), λ z. same.1 (ground arith)))
      | inr e ↦ (
        byte_difference a b,
        rw (test, e),
        (λ z. absurd (not_zero _ (test ∙ e) z), λ z. ground arith),
      )
    ]

memcmp_self : (n : ℕ) (m : Bytes) → AreBytes m → length m ≡ n → ho_memcmp m m n ≡ fault
unfolding ho_memcmp
memcmp_self n [] h e = refl
memcmp_self zero (a ∷ m) h e = absurd (omega arith)
memcmp_self (suc n) (a ∷ m) h e =
    let e' : (a == a) ≡ true = ground arith in
    rw (byte_difference-test a a h.0 h.0, e') (memcmp_self n m h.1 (omega arith))

-- `ho_memcmp` compares one byte more than it is asked to: with more than `n` bytes in both objects
-- it returns, and zero exactly when the first `n + 1` agree; on two equal objects of `n` bytes it
-- reads past their end.
pub memcmp-overrun :
    (n : ℕ) (m1 m2 : Bytes)
    → AreBytes m1
    → AreBytes m2
    → (n < length m1
        → n < length m2
        → Returns (λ c. (c ≡ pos 0) ↔ (take (suc n) m1 ≡ take (suc n) m2)) (ho_memcmp m1 m2 n))
      × (length m1 ≡ n → m1 ≡ m2 → ho_memcmp m1 m2 n ≡ fault)
memcmp-overrun n m1 m2 h k = (memcmp-Returns n m1 m2 h k, λ e s. rw (← s) (memcmp_self n m1 h e))
