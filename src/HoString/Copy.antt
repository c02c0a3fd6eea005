-- ===== src/HoString/Copy.antt =====
-- libc/ho_string/ho_memcpy.c, ho_memset.c, ho_strcpy.c, ho_strncpy.c, ho_strcat.c, ho_strncat.c.
-- Source and destination are separate objects; the result is what the destination holds afterwards.
-- A write behind the end of the destination is a fault.
pub mod Appends
use recycle_bin.Prelude.{
  ℕ, zero, suc, ◌≤◌, ◌<◌, ◌≡◌, refl, sym, ap, ◌∙◌, false, [], ◌∷◌, ◌++◌, arith, ◌==◌, if◌then◌else◌,
  length, take, drop, replicate, Run, ok, fault, ◌>>=◌, bind_ok, bind_regroup,
}
use recycle_bin.Prelude.Chars.{Bytes, IsText, cstr}
use recycle_bin.Prelude.Int.{ℤ, uchar}

unfoldable pub ho_memcpy : Bytes → Bytes → ℕ → Run Bytes
ho_memcpy d s zero = ok d
ho_memcpy (x ∷ d) (y ∷ s) (suc n) = do d' ← ho_memcpy d s n; ok (y ∷ d')
ho_memcpy _ _ (suc n) = fault

unfoldable pub ho_memset : Bytes → ℤ → ℕ → Run Bytes
ho_memset b c zero = ok b
ho_memset [] c (suc n) = fault
ho_memset (x ∷ b) c (suc n) = do b' ← ho_memset b c n; ok (uchar c ∷ b')

-- `while ((*dst++ = *src++) != '\0');`
unfoldable pub ho_strcpy : Bytes → Bytes → Run Bytes
ho_strcpy (x ∷ d) (y ∷ s) = do
  d' ← (let rest = ho_strcpy d s in if y == 0 then ok d else rest)
  ok (y ∷ d')
ho_strcpy _ _ = fault

-- `while (n--) *s1++ = '\0';`
zero_fill : Bytes → ℕ → Run Bytes
zero_fill d zero = ok d
zero_fill [] (suc n) = fault
zero_fill (x ∷ d) (suc n) = do d' ← zero_fill d n; ok (0 ∷ d')

-- `for (;n && (*s1 = *s2) != '\0'; n--) s1++, s2++;`: a NUL is written and not passed over.
unfoldable pub ho_strncpy : Bytes → Bytes → ℕ → Run Bytes
unfolding zero_fill
ho_strncpy d s zero = ok d
ho_strncpy (x ∷ d) (y ∷ s) (suc n) =
    let copied = (do d' ← ho_strncpy d s n; ok (y ∷ d')) in
    if y == 0 then zero_fill (0 ∷ d) (suc n) else copied
ho_strncpy _ _ (suc n) = fault

-- `for (; *p; p++);` and the copy
unfoldable pub ho_strcat : Bytes → Bytes → Run Bytes
unfolding ho_strcpy
ho_strcat [] s = fault
ho_strcat (x ∷ d) s =
    let rest = (do d' ← ho_strcat d s; ok (x ∷ d')) in if x == 0 then ho_strcpy (x ∷ d) s else rest

-- `while (n-- && (*s1++ = *s2++) != '\0');` and `*s1 = '\0';`, for an `n` that is not negative
pub strncat_copy : Bytes → Bytes → ℕ → Run Bytes
strncat_copy [] s n = fault
strncat_copy (x ∷ d) s zero = ok (0 ∷ d)
strncat_copy (x ∷ d) [] (suc n) = fault
strncat_copy (x ∷ d) (y ∷ s) (suc n) = do
  d' ← (let rest = strncat_copy d s n in if y == 0 then zero_fill d 1 else rest)
  ok (y ∷ d')

unfoldable pub ho_strncat : Bytes → Bytes → ℕ → Run Bytes
unfolding strncat_copy zero_fill
ho_strncat [] s n = fault
ho_strncat (x ∷ d) s n =
    let rest = (do d' ← ho_strncat d s n; ok (x ∷ d')) in
    if x == 0 then strncat_copy (x ∷ d) s n else rest

-- With room for `n` bytes in both objects `ho_memcpy` replaces the first `n` bytes of the destination
-- by those of the source; otherwise it leaves an object.
pub memcpy-take :
    (d s : Bytes) (n : ℕ)
    → (n ≤ length d → n ≤ length s → ho_memcpy d s n ≡ ok (take n s ++ drop n d))
      × (length d < n → ho_memcpy d s n ≡ fault)
      × (length s < n → ho_memcpy d s n ≡ fault)
unfolding ho_memcpy
memcpy-take d s zero = (λ h k. refl, λ h. absurd (omega arith), λ h. absurd (omega arith))
memcpy-take (x ∷ d) (y ∷ s) (suc n) =
    let (copies, short_d, short_s) = memcpy-take d s n in
    (
      λ h k. rw (copies (omega arith) (omega arith)) refl,
      λ h. rw (short_d (omega arith)) refl,
      λ h. rw (short_s (omega arith)) refl,
    )
memcpy-take [] s (suc n) = (λ h k. absurd (omega arith), λ h. refl, λ h. refl)
memcpy-take (x ∷ d) [] (suc n) = (λ h k. absurd (omega arith), λ h. refl, λ h. refl)

-- With room for `n` bytes `ho_memset` fills them with the byte; otherwise it leaves the object.
pub memset-replicate :
    (b : Bytes) (c : ℤ) (n : ℕ)
    → (n ≤ length b → ho_memset b c n ≡ ok (replicate n (uchar c) ++ drop n b))
      × (length b < n → ho_memset b c n ≡ fault)
unfolding ho_memset
memset-replicate b c zero = (λ h. refl, λ h. absurd (omega arith))
memset-replicate [] c (suc n) = (λ h. absurd (omega arith), λ h. refl)
memset-replicate (x ∷ b) c (suc n) =
    let (fills, short) = memset-replicate b c n in
    (λ h. rw (fills (omega arith)) refl, λ h. rw (short (omega arith)) refl)

pub strcpy-room :
    (d cs rest : Bytes)
    → IsText cs
    → length cs < length d
    → ho_strcpy d (cstr cs rest) ≡ ok (cstr cs (drop (suc (length cs)) d))
unfolding ho_strcpy
strcpy-room [] cs rest t h = absurd (omega arith)
strcpy-room (x ∷ d) [] rest t h = refl
strcpy-room (x ∷ d) (c ∷ cs) rest t h =
    let full : (c == 0) ≡ false = ground arith in
    rw (full, strcpy-room d cs rest t.1 (omega arith)) refl

pub strcpy-short :
    (d cs rest : Bytes) → IsText cs → length d ≤ length cs → ho_strcpy d (cstr cs rest) ≡ fault
unfolding ho_strcpy
strcpy-short [] [] rest t h = refl
strcpy-short [] (c ∷ cs) rest t h = refl
strcpy-short (x ∷ d) [] rest t h = absurd (omega arith)
strcpy-short (x ∷ d) (c ∷ cs) rest t h =
    let full : (c == 0) ≡ false = ground arith in
    rw (full, strcpy-short d cs rest t.1 (omega arith)) refl

-- `ho_strcpy` of a string puts it, with its NUL, at the start of a destination that has room for both,
-- and leaves the bytes behind; on a smaller destination it writes past the end.
pub strcpy-cstr :
    (d cs rest : Bytes)
    → IsText cs
    → (length cs < length d → ho_strcpy d (cstr cs rest) ≡ ok (cstr cs (drop (suc (length cs)) d)))
      × (length d ≤ length cs → ho_strcpy d (cstr cs rest) ≡ fault)
strcpy-cstr d cs rest t = (strcpy-room d cs rest t, strcpy-short d cs rest t)

zero_fill-replicate :
    (d : Bytes) (n : ℕ) → n ≤ length d → zero_fill d n ≡ ok (replicate n 0 ++ drop n d)
unfolding zero_fill
zero_fill-replicate d zero h = refl
zero_fill-replicate [] (suc n) h = absurd (omega arith)
zero_fill-replicate (x ∷ d) (suc n) h = rw (zero_fill-replicate d n (omega arith)) refl

take-replicate : (n k : ℕ) → n ≤ k → take n (replicate {A = ℕ} k 0) ≡ replicate n 0
take-replicate zero k h = refl
take-replicate (suc n) zero h = absurd (omega arith)
take-replicate (suc n) (suc k) h = ap (λ xs. 0 ∷ xs) (take-replicate n k (omega arith))

strncpy-pad :
    (d cs rest : Bytes) (n k : ℕ)
    → IsText cs
    → n ≤ length d
    → n ≤ k
    → ho_strncpy d (cstr cs rest) n ≡ ok (take n (cs ++ replicate k 0) ++ drop n d)
unfolding ho_strncpy
strncpy-pad d cs rest zero k t h l = refl
strncpy-pad [] cs rest (suc n) k t h l = absurd (omega arith)
strncpy-pad (x ∷ d) [] rest (suc n) k t h l =
    rw (take-replicate (suc n) k l, zero_fill-replicate d n (omega arith)) refl
strncpy-pad (x ∷ d) (c ∷ cs) rest (suc n) k t h l =
    let full : (c == 0) ≡ false = ground arith in
    rw (full, strncpy-pad d cs rest n k t.1 (omega arith) (omega arith)) refl

-- With room for `n` bytes `ho_strncpy` writes exactly `n`: the characters of the string, as far as
-- `n` goes, and NULs up to `n`.
pub strncpy-take :
    (d cs rest : Bytes) (n : ℕ)
    → IsText cs
    → n ≤ length d
    → ho_strncpy d (cstr cs rest) n ≡ ok (take n (cs ++ replicate n 0) ++ drop n d)
strncpy-take d cs rest n t h = strncpy-pad d cs rest n n t h (omega arith)
