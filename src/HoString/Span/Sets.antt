-- ===== src/HoString/Span/Sets.antt =====
-- What strspn, strcspn and strpbrk of libc/ho_string return.
use recycle_bin.Prelude.{ℕ, ◌≡◌, ap, ◌∙◌, not, Option, arith, ok}
use recycle_bin.Prelude.Chars.{Bytes, IsText, cstr}
use recycle_bin.Prelude.First.{at-zero, first_index, IsFirst, first_index-IsFirst}
use recycle_bin.HoString.Span.{
  ho_strspn, ho_strcspn, ho_strpbrk, contains, or_length, strspn_loop-first, strcspn_loop-first,
  strpbrk_loop-first,
}

module _ (cs rest bs rest' : Bytes) (t : IsText cs) (u : IsText bs) where
  -- On two strings `ho_strspn` returns the position of the first character that the second string
  -- does not contain, and the length of the first string if there is none.
  pub strspn-IsFirst :
      (r : Option ℕ) × IsFirst (λ x. not (contains bs x)) cs r
      × (ho_strspn (cstr cs rest) (cstr bs rest') ≡ ok (or_length cs r))
  unfolding ho_strspn
  strspn-IsFirst = (
    first_index (λ x. not (contains bs x)) cs,
    first_index-IsFirst (λ x. not (contains bs x)) cs,
    strspn_loop-first bs rest' u cs rest 0 t ∙ ap ok (omega arith),
  )

  -- On two strings `ho_strpbrk` returns the first position of a character that the second string
  -- contains, or none, and `ho_strcspn` returns that position, or the length of the first string.
  pub strpbrk-strcspn :
      (r : Option ℕ) × IsFirst (contains bs) cs r
      × (ho_strpbrk (cstr cs rest) (cstr bs rest') ≡ ok r)
      × (ho_strcspn (cstr cs rest) (cstr bs rest') ≡ ok (or_length cs r))
  unfolding ho_strpbrk ho_strcspn
  strpbrk-strcspn = (
    first_index (contains bs) cs,
    first_index-IsFirst (contains bs) cs,
    strpbrk_loop-first bs rest' u cs rest 0 t ∙ ap ok (at-zero _),
    strcspn_loop-first bs rest' u cs rest 0 t ∙ ap ok (omega arith),
  )
