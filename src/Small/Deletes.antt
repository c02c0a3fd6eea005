-- ===== src/Small/Deletes.antt =====
-- str_del.c: the deletion of every occurrence of a text, from the right. A text is its characters, without the NUL; a
-- place outside of it is a fault. `strcpy` to a lower place is the loop `str_cpy`, which moves the characters there.
pub mod Ends
use recycle_bin.Prelude.{
  ℕ, zero, suc, ◌+◌, ◌-◌, ◌≤◌, ◌<◌, ◌≡◌, ◌≢◌, refl, sym, ap, ◌∙◌, ◌⊎◌, inl, inr, Bool, true, false,
  ◌||◌, Option, none, some, [], ◌∷◌, ◌++◌, arith, ltb, ◌==◌, if◌then◌else◌, Bool-cases, length,
  get_elem?, take, drop, length-append, length-take, length-drop, get_elem?-lt, Run, ok, fault,
  ◌>>=◌, from_option,
}
use mathlib.Core.Path.{subst}
use recycle_bin.Prelude.Chars.{Bytes}

unfoldable pub char_at : Bytes → ℕ → Run ℕ
char_at t i = from_option (get_elem? t i)

-- The inner loop, where `bsub` is `m` behind `substr`: where it ends. The text is compared from `place` on.
unfoldable pub back : (substr text : Bytes) (place m : ℕ) → Run ℕ
back substr text place zero = ok 0
back substr text place (suc m) = do
  a ← char_at substr (suc m)
  b ← char_at text (place + suc m)
  let rest = back substr text place m
  if a == b then rest else ok (suc m)

-- The outer loop, where `last` is the character in front of place `n`. In front of the text `*last` is read outside of it.
unfoldable pub find_loop : (substr text : Bytes) (n : ℕ) → Run (Option ℕ)
find_loop substr text zero = fault
find_loop substr text (suc k) =
    let sublen = length substr - 1 in
    let place = k - sublen in
    let rest = find_loop substr text k in
    if ltb k sublen then ok none else do
      a ← char_at text place
      b ← char_at substr 0
      if a == b
          then (do
            left ← back substr text place sublen
            if left == 0 then ok (some place) else rest)
          else rest

unfoldable pub str_find_right : (substr text : Bytes) → Run (Option ℕ)
str_find_right substr text =
    if (length text == 0) || (length substr == 0)
    then ok none
    else find_loop substr text (length text)

-- One unit of fuel for a turn; `none` is a run out of it.
unfoldable pub str_del_all : (fuel : ℕ) → (text substr : Bytes) → Option (Run Bytes)
str_del_all zero text substr = none
str_del_all (suc fuel) text substr = elim (str_find_right substr text) [
  | fault ↦ some fault
  | ok none ↦ some (ok text)
  | ok (some place) ↦ str_del_all fuel (take place text ++ drop (place + length substr) text) substr
]
