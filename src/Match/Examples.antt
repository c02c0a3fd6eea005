-- ===== src/Match/Examples.antt =====
-- Tests of char_engine/str_match.c.
use recycle_bin.Prelude.{◌≡◌, refl, ◌↔◌, Bool, true, none, some, [], ◌∷◌, arith, ok}
use recycle_bin.Prelude.Chars.{Bytes, cstr}
use recycle_bin.Match.{step, head_of, at_index}
use recycle_bin.Match.Format.{
  set_loop, str_match, directive, alternatives, or_directive, ends_one, match_one, skip_to,
  set_directive, range_set,
}
use recycle_bin.Match.Bits.{bit_zero, bit_set, set_at, set_bit, bit_of, bit_isset, isset_at}
use recycle_bin.Match.Scan.{read_width, skip, skip_while}
use recycle_bin.Match.Literal.{str_match-literal, set_loop-reversed}

abbrev ab : Bytes
ab = 97 ∷ 98 ∷ []

-- "12ab" against "%dab", and "b" against "%{a|b}".
digits-test : str_match 9 (cstr (49 ∷ 50 ∷ ab) []) (cstr (37 ∷ 100 ∷ ab) []) ≡ some (ok true)
unfolding str_match step head_of read_width directive skip skip_while
digits-test = refl

or-test :
    str_match 9 (cstr (98 ∷ []) []) (cstr (37 ∷ 123 ∷ 97 ∷ 124 ∷ 98 ∷ 125 ∷ []) []) ≡ some (ok true)
unfolding str_match step head_of read_width directive or_directive alternatives ends_one match_one
    skip_to
or-test = refl

-- "cab1" against "%[a-c]1", and "cab1" against "%[^0-9]1".
set-test :
    str_match 9 (cstr (99 ∷ 97 ∷ 98 ∷ 49 ∷ []) []) (cstr (37 ∷ 91 ∷ 97 ∷ 45 ∷ 99 ∷ 93 ∷ 49 ∷ []) [])
    ≡ some (ok true)
unfolding str_match step head_of read_width directive set_directive set_loop range_set bit_set
    set_at set_bit bit_of bit_zero bit_isset isset_at skip skip_while at_index
set-test = refl

str_match-literal_example :
    (b : Bool) × (str_match 3 (cstr ab (5 ∷ [])) (cstr ab []) ≡ some (ok b))
    × ((b ≡ true) ↔ (ab ≡ ab))
str_match-literal_example =
    str_match-literal 3 ab ab (5 ∷ []) [] ((λ e. ground arith), ((λ e. ground arith), tt))
      (((λ e. ground arith), (λ e. ground arith)), (((λ e. ground arith), (λ e. ground arith)), tt))
      (omega arith)

set_loop-reversed_example : set_loop 8 bit_zero (98 ∷ 45 ∷ 97 ∷ 93 ∷ 0 ∷ []) ≡ none
set_loop-reversed_example =
    set_loop-reversed 8 bit_zero (93 ∷ 0 ∷ []) 98 97 (omega arith) (omega arith) (λ e. ground arith)
