-- ===== src/HoString/Span.antt =====
-- libc/ho_string/ho_strspn.c, ho_strcspn.c, ho_strpbrk.c, ho_strstr.c.
pub mod Sets
pub mod Search
use recycle_bin.Prelude.{
  ℕ, zero, suc, ◌+◌, ◌-◌, ◌*◌, ◌/◌, ◌%◌, ◌^◌, ◌≤◌, ◌<◌, ◌≡◌, refl, sym, ap, ◌∙◌, ◌≢◌, ◌↔◌, ◌⊎◌, inl,
  inr, Bool, true, false, not, ◌&&◌, ◌||◌, Option, none, some, List, [], ◌∷◌, ◌++◌, map,
  append_assoc, append-nil, arith, ltb, leb, ◌==◌, if◌then◌else◌, ltb→lt, lt→ltb, leb→le, le→leb,
  tests, Bool-cases, Option-cases, length, get_elem?, set, take, drop, replicate, length-append,
  length-set, length-take, length-drop, length-replicate, get_elem?-lt, take-length-append,
  drop-length-append, take-length, All, Run, ok, fault, ◌>>=◌, ◌>>◌, assert, from_option, Returns,
}
use recycle_bin.Prelude.Chars.{Bytes, IsText, cstr, is_space, is_digit, to_lower}
use recycle_bin.Prelude.Int.{
  ℤ, pos, negsuc, eq_ℤ, eq_ℤ_iff, schar, uchar, neg, ◌-ℤ◌, ltb_ℤ, signed32, unsigned32, pos_part,
  neg_part, schar-injective,
}
use recycle_bin.Prelude.First.{
  next, at, at-next, at-zero, first_index, IsFirst, first_index-IsFirst,
}

-- `for (s = s2; *s && (*s != *s1); s++);`, and the byte that it stops at
spn_scan : Bytes → ℕ → Run ℕ
spn_scan [] x = fault
spn_scan (b ∷ m) x = if b == 0 then ok b else if b == x then ok b else spn_scan m x

pub strspn_loop : Bytes → Bytes → ℕ → Run ℕ
strspn_loop [] s2 n = fault
strspn_loop (x ∷ s1) s2 n =
    if x == 0
    then ok n
    else do b ← spn_scan s2 x; if b == 0 then ok n else strspn_loop s1 s2 (suc n)

unfoldable pub ho_strspn : Bytes → Bytes → Run ℕ
unfolding spn_scan strspn_loop
ho_strspn s1 s2 = strspn_loop s1 s2 0

pub strcspn_loop : Bytes → Bytes → ℕ → Run ℕ
strcspn_loop [] s2 n = fault
strcspn_loop (x ∷ s1) s2 n =
    if x == 0
    then ok n
    else do b ← spn_scan s2 x; if not (b == 0) then ok n else strcspn_loop s1 s2 (suc n)

unfoldable pub ho_strcspn : Bytes → Bytes → Run ℕ
unfolding spn_scan strcspn_loop
ho_strcspn s1 s2 = strcspn_loop s1 s2 0

-- `for (s = s2; *s; s++) if (*s == *s1) return s1;`
pbrk_scan : Bytes → ℕ → Run Bool
pbrk_scan [] x = fault
pbrk_scan (b ∷ m) x = if b == 0 then ok false else if b == x then ok true else pbrk_scan m x

pub strpbrk_loop : Bytes → Bytes → ℕ → Run (Option ℕ)
strpbrk_loop [] s2 p = fault
strpbrk_loop (x ∷ s1) s2 p =
    if x == 0
    then ok none
    else do hit ← pbrk_scan s2 x; if hit then ok (some p) else strpbrk_loop s1 s2 (suc p)

unfoldable pub ho_strpbrk : Bytes → Bytes → Run (Option ℕ)
unfolding pbrk_scan strpbrk_loop
ho_strpbrk s1 s2 = strpbrk_loop s1 s2 0

-- `for (; *p1 && (*p1 == *p2); p1++, p2++);`, and `*p1` where it stops
pub str_walk : Bytes → Bytes → Run ℕ
str_walk [] p2 = fault
str_walk (a ∷ p1) [] = if a == 0 then ok a else fault
str_walk (a ∷ p1) (b ∷ p2) = if a == 0 then ok a else if a == b then str_walk p1 p2 else ok a

pub strstr_loop : Bytes → Bytes → ℕ → Run (Option ℕ)
strstr_loop [] s2 p = fault
strstr_loop (x ∷ s1) s2 p =
    if x == 0
    then ok none
    else do a ← str_walk (x ∷ s1) s2; if a == 0 then ok (some p) else strstr_loop s1 s2 (suc p)

unfoldable pub ho_strstr : Bytes → Bytes → Run (Option ℕ)
unfolding str_walk strstr_loop
ho_strstr s1 [] = fault
ho_strstr s1 (b ∷ s2) = if b == 0 then ok (some 0) else strstr_loop s1 (b ∷ s2) 0

unfoldable pub contains : Bytes → ℕ → Bool
contains [] x = false
contains (b ∷ bs) x = (b == x) || contains bs x

spn_scan-contains :
    (bs rest : Bytes) (x : ℕ)
    → IsText bs
    → x ≢ 0
    → spn_scan (cstr bs rest) x ≡ ok (if contains bs x then x else 0)
unfolding spn_scan contains
spn_scan-contains [] rest x t h = refl
spn_scan-contains (b ∷ bs) rest x t h = ground (arith, spn_scan-contains bs rest x t.1 h)

pbrk_scan-contains :
    (bs rest : Bytes) (x : ℕ) → IsText bs → pbrk_scan (cstr bs rest) x ≡ ok (contains bs x)
unfolding pbrk_scan contains
pbrk_scan-contains [] rest x t = refl
pbrk_scan-contains (b ∷ bs) rest x t = ground (arith, pbrk_scan-contains bs rest x t.1)

-- The number of elements before the first that passes, all of them if none does.
abbrev pub or_length : List ℕ → Option ℕ → ℕ
or_length xs none = length xs
or_length xs (some k) = k

or_length-next :
    (x : ℕ) (xs : List ℕ) (o : Option ℕ) → or_length (x ∷ xs) (next o) ≡ suc (or_length xs o)
or_length-next x xs none = refl
or_length-next x xs (some k) = refl

module _ (bs rest' : Bytes) (u : IsText bs) where
  pub strspn_loop-first :
      (cs rest : Bytes) (n : ℕ)
      → IsText cs
      → strspn_loop (cstr cs rest) (cstr bs rest') n
        ≡ ok (n + or_length cs (first_index (λ x. not (contains bs x)) cs))
  unfolding strspn_loop first_index
  strspn_loop-first [] rest n t = ground arith
  strspn_loop-first (x ∷ cs) rest n t = ground (
    arith,
    spn_scan-contains bs rest' x u t.0,
    strspn_loop-first cs rest (suc n) t.1,
    or_length-next x cs (first_index (λ x. not (contains bs x)) cs),
  )

  pub strcspn_loop-first :
      (cs rest : Bytes) (n : ℕ)
      → IsText cs
      → strcspn_loop (cstr cs rest) (cstr bs rest') n
        ≡ ok (n + or_length cs (first_index (contains bs) cs))
  unfolding strcspn_loop first_index
  strcspn_loop-first [] rest n t = ground arith
  strcspn_loop-first (x ∷ cs) rest n t = ground (
    arith,
    spn_scan-contains bs rest' x u t.0,
    strcspn_loop-first cs rest (suc n) t.1,
    or_length-next x cs (first_index (contains bs) cs),
  )

  pub strpbrk_loop-first :
      (cs rest : Bytes) (p : ℕ)
      → IsText cs
      → strpbrk_loop (cstr cs rest) (cstr bs rest') p ≡ ok (at p (first_index (contains bs) cs))
  unfolding strpbrk_loop first_index
  strpbrk_loop-first [] rest p t = refl
  strpbrk_loop-first (x ∷ cs) rest p t = ground (
    arith,
    pbrk_scan-contains bs rest' x u,
    strpbrk_loop-first cs rest (suc p) t.1,
    at-next p (first_index (contains bs) cs),
  )
