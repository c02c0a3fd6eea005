-- ===== src/HoString/Copy/Appends.antt =====
-- libc/ho_string/ho_strcat.c and ho_strncat.c: the text behind the text of the destination.
use recycle_bin.Prelude.{
  ℕ, zero, suc, ◌≤◌, ◌<◌, ◌≡◌, refl, sym, ◌∙◌, false, [], ◌∷◌, ◌++◌, arith, ◌==◌, length, take,
  drop, ok, fault, ◌>>=◌, bind_ok, bind_regroup,
}
use recycle_bin.Prelude.Chars.{Bytes, IsText, cstr}
use recycle_bin.HoString.Copy.{
  zero_fill-replicate, zero_fill, ho_strcat, strncat_copy, ho_strncat, strcpy-room,
}

-- `ho_strcat` of two strings, with room for both and a NUL, leaves the first followed by the second,
-- and the bytes behind.
pub strcat-append :
    (ds cs tail rest : Bytes)
    → IsText ds
    → IsText cs
    → length cs ≤ length tail
    → ho_strcat (cstr ds tail) (cstr cs rest) ≡ ok (ds ++ cstr cs (drop (length cs) tail))
unfolding ho_strcat
strcat-append [] cs tail rest t u h = strcpy-room (0 ∷ tail) cs rest u (omega arith)
strcat-append (x ∷ ds) cs tail rest t u h =
    let full : (x == 0) ≡ false = ground arith in
    rw (full, strcat-append ds cs tail rest t.1 u h) refl

strncat_copy-cut :
    (d cs rest : Bytes) (n : ℕ)
    → IsText cs
    → n ≤ length cs
    → n < length d
    → strncat_copy d (cstr cs rest) n ≡ ok (take n cs ++ 0 ∷ drop (suc n) d)
unfolding strncat_copy
strncat_copy-cut [] cs rest n t h l = absurd (omega arith)
strncat_copy-cut (x ∷ d) cs rest zero t h l = refl
strncat_copy-cut (x ∷ d) [] rest (suc n) t h l = absurd (omega arith)
strncat_copy-cut (x ∷ d) (c ∷ cs) rest (suc n) t h l =
    let full : (c == 0) ≡ false = ground arith in
    rw (full, strncat_copy-cut d cs rest n t.1 (omega arith) (omega arith)) refl

strncat_copy-whole :
    (d cs rest : Bytes) (n : ℕ)
    → IsText cs
    → length cs < n
    → suc (length cs) < length d
    → strncat_copy d (cstr cs rest) n ≡ ok (cs ++ 0 ∷ 0 ∷ drop (suc (suc (length cs))) d)
unfolding strncat_copy
strncat_copy-whole [] cs rest n t h l = absurd (omega arith)
strncat_copy-whole (x ∷ d) cs rest zero t h l = absurd (omega arith)
strncat_copy-whole (x ∷ d) [] rest (suc n) t h l = rw (zero_fill-replicate d 1 (omega arith)) refl
strncat_copy-whole (x ∷ d) (c ∷ cs) rest (suc n) t h l =
    let full : (c == 0) ≡ false = ground arith in
    rw (full, strncat_copy-whole d cs rest n t.1 (omega arith) (omega arith)) refl

strncat_copy-short :
    (cs rest : Bytes) (n : ℕ)
    → IsText cs
    → length cs < n
    → (d : Bytes) → length d ≡ suc (length cs)
    → strncat_copy d (cstr cs rest) n ≡ fault
unfolding strncat_copy zero_fill
strncat_copy-short cs rest n t h [] l = absurd (omega arith)
strncat_copy-short cs rest zero t h (x ∷ d) l = absurd (omega arith)
strncat_copy-short [] rest (suc n) t h (x ∷ []) l = refl
strncat_copy-short [] rest (suc n) t h (x ∷ (y ∷ d)) l = absurd (omega arith)
strncat_copy-short (c ∷ cs) rest (suc n) t h (x ∷ d) l =
    let full : (c == 0) ≡ false = ground arith in
    rw (full, strncat_copy-short cs rest n t.1 (omega arith) d (omega arith)) refl

-- What `strncat` does behind the characters of the destination, it does at its NUL.
strncat-at-end :
    (ds tail s : Bytes) (n : ℕ)
    → IsText ds
    → ho_strncat (cstr ds tail) s n ≡ (strncat_copy (0 ∷ tail) s n >>= λ d'. ok (ds ++ d'))
unfolding ho_strncat
strncat-at-end [] tail s n t = sym (bind_ok _)
strncat-at-end (x ∷ ds) tail s n t =
    let full : (x == 0) ≡ false = ground arith in
    rw (full, strncat-at-end ds tail s n t.1)
      (bind_regroup (strncat_copy (0 ∷ tail) s n) (λ d. ok (ds ++ d)) (λ d. ok (x ∷ d)))

-- `ho_strncat` of a string of at least `n` characters appends `n` of them and a NUL. Of a shorter
-- string it appends all, and two NULs: it needs room for one byte more than the result, and where
-- the result just fits it writes past the end.
pub strncat-append :
    (ds tail cs rest : Bytes) (n : ℕ)
    → IsText ds
    → IsText cs
    → (n ≤ length cs
        → n ≤ length tail
        → ho_strncat (cstr ds tail) (cstr cs rest) n ≡ ok (ds ++ (take n cs ++ 0 ∷ drop n tail)))
      × (length cs < n
          → length cs < length tail
          → ho_strncat (cstr ds tail) (cstr cs rest) n
            ≡ ok (ds ++ (cs ++ 0 ∷ 0 ∷ drop (suc (length cs)) tail)))
      × (length cs < n
          → length cs ≡ length tail
          → ho_strncat (cstr ds tail) (cstr cs rest) n ≡ fault)
strncat-append ds tail cs rest n t u =
    let go = strncat-at-end ds tail (cstr cs rest) n t in
    (
      λ h l. go ∙ rw (strncat_copy-cut (0 ∷ tail) cs rest n u h (omega arith)) refl,
      λ h l. go ∙ rw (strncat_copy-whole (0 ∷ tail) cs rest n u h (omega arith)) refl,
      λ h l. go ∙ rw (strncat_copy-short cs rest n u h (0 ∷ tail) (omega arith)) refl,
    )
