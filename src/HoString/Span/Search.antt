-- ===== src/HoString/Span/Search.antt =====
-- What strstr of libc/ho_string finds.
use recycle_bin.Prelude.{
  ℕ, suc, ◌≡◌, refl, ap, ◌∙◌, Bool, true, false, ◌&&◌, List, [], ◌∷◌, arith, ◌==◌, if◌then◌else◌,
  ok, Returns,
}
use recycle_bin.Prelude.Chars.{Bytes, IsText, cstr}
use recycle_bin.Prelude.First.{at, at-next, at-zero, first_index, IsFirst, first_index-IsFirst}
use recycle_bin.HoString.Span.{str_walk, strstr_loop, ho_strstr}

unfoldable pub is_prefix : Bytes → Bytes → Bool
is_prefix [] ns = true
is_prefix (x ∷ xs) [] = false
is_prefix (x ∷ xs) (n ∷ ns) = (x == n) && is_prefix xs ns

-- What a text holds from each of its characters on.
unfoldable pub tails : Bytes → List Bytes
tails [] = []
tails (x ∷ xs) = (x ∷ xs) ∷ tails xs

stop : Bytes → Bytes → ℕ
stop [] ns = 0
stop (x ∷ xs) [] = x
stop (x ∷ xs) (n ∷ ns) = if x == n then stop xs ns else x

str_walk-stop :
    (xs rest ns rest' : Bytes)
    → IsText xs
    → IsText ns
    → str_walk (cstr xs rest) (cstr ns rest') ≡ ok (stop xs ns)
unfolding str_walk stop
str_walk-stop [] rest [] rest' t u = refl
str_walk-stop [] rest (n ∷ ns) rest' t u = refl
str_walk-stop (x ∷ xs) rest [] rest' t u = ground arith
str_walk-stop (x ∷ xs) rest (n ∷ ns) rest' t u =
    ground (arith, str_walk-stop xs rest ns rest' t.1 u.1)

stop-is_prefix : (xs ns : Bytes) → IsText xs → (stop xs ns == 0) ≡ is_prefix xs ns
unfolding stop is_prefix
stop-is_prefix [] ns t = refl
stop-is_prefix (x ∷ xs) [] t = ground arith
stop-is_prefix (x ∷ xs) (n ∷ ns) t = ground (arith, stop-is_prefix xs ns t.1)

strstr_loop-first :
    (cs rest ns rest' : Bytes) (p : ℕ)
    → IsText cs
    → IsText ns
    → strstr_loop (cstr cs rest) (cstr ns rest') p
      ≡ ok (at p (first_index (λ s. is_prefix s ns) (tails cs)))
unfolding strstr_loop first_index tails
strstr_loop-first [] rest ns rest' p t u = refl
strstr_loop-first (x ∷ cs) rest ns rest' p t u =
    let full : (x == 0) ≡ false = ground arith in
    rw (full, str_walk-stop (x ∷ cs) rest ns rest' t u, stop-is_prefix (x ∷ cs) ns t)
      (ground (
        arith,
        strstr_loop-first cs rest ns rest' (suc p) t.1 u,
        at-next p (first_index (λ s. is_prefix s ns) (tails cs)),
      ))

-- On a string and a needle that is not empty `ho_strstr` returns, with the first position from which
-- the whole rest of the text is the needle or the start of it, or none.
pub strstr-tail :
    (cs rest ns rest' : Bytes) (n : ℕ)
    → IsText cs
    → IsText (n ∷ ns)
    → Returns
        (IsFirst (λ s. is_prefix s (n ∷ ns)) (tails cs))
        (ho_strstr (cstr cs rest) (cstr (n ∷ ns) rest'))
unfolding ho_strstr
strstr-tail cs rest ns rest' n t u =
    let full : (n == 0) ≡ false = ground arith in
    (
      first_index (λ s. is_prefix s (n ∷ ns)) (tails cs),
      rw full (strstr_loop-first cs rest (n ∷ ns) rest' 0 t u ∙ ap ok (at-zero _)),
      first_index-IsFirst (λ s. is_prefix s (n ∷ ns)) (tails cs),
    )
