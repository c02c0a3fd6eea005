-- ===== src/Small/Leetcode.antt =====
-- leetcode: the numbers, the version numbers, the isomorphic strings and `myatoi`.
use recycle_bin.Prelude.{
  ℕ, zero, suc, ◌+◌, ◌-◌, ◌*◌, ◌%◌, ◌^◌, Bool, true, false, not, ◌&&◌, ◌||◌, Option, none, some, [],
  ◌∷◌, leb, ◌==◌, if◌then◌else◌, get_elem?, set, drop, replicate, Run, ok, fault, ◌>>=◌,
  from_option,
}
use recycle_bin.Prelude.Chars.{Bytes, is_digit}
use recycle_bin.Prelude.Int.{ℤ, pos, negsuc, schar, neg, ◌-ℤ◌, ltb_ℤ}
use recycle_bin.Small.{int_ℤ, push_digit, head_of, skip_space}

-- leetcode/add-digits/add-digits.c, for a number that is not below zero.
unfoldable pub add_digits : ℕ → ℕ
add_digits num = if num == 0 then 0 else let v = num % 9 in if v == 0 then 9 else v

-- leetcode/nim-game/nim-game.c
unfoldable pub can_win_nim : ℕ → Bool
can_win_nim n = not (n % 4 == 0)

-- `while (*p && *p != '.') v = v * 10 + *p++ - '0'; if (*p == '.') p++;`
unfoldable pub version_part : (v : ℤ) → Bytes → Run (ℤ × Bytes)
version_part v [] = fault
version_part v (c ∷ p) =
    if c == 0
    then ok (v, c ∷ p)
    else if c == 46
    then ok (v, p)
    else do v ← push_digit v 10 (schar c); v ← int_ℤ (v -ℤ pos 48); version_part v p

-- `*p1 || *p2`, of which the second is read where the first is zero.
unfoldable pub more : Bytes → Bytes → Run Bool
more ver1 ver2 = do
  a ← head_of ver1
  if a == 0 then (do b ← head_of ver2; ok (not (b == 0))) else ok true

-- The next parts of both, and what is behind them.
unfoldable pub both_parts : Bytes → Bytes → Run ((ℤ × Bytes) × (ℤ × Bytes))
both_parts ver1 ver2 = do l ← version_part (pos 0) ver1; r ← version_part (pos 0) ver2; ok (l, r)

-- leetcode/compare-version-numbers: `none` is a run out of fuel, one unit for a turn of the loop.
unfoldable pub compare_version : (fuel : ℕ) → Bytes → Bytes → Option (Run ℤ)
compare_version zero ver1 ver2 = none
compare_version (suc fuel) ver1 ver2 = elim (more ver1 ver2) [
  | fault ↦ some fault
  | ok false ↦ some (ok (pos 0))
  | ok true ↦ elim (both_parts ver1 ver2) [
    | fault ↦ some fault
    | ok ((v1, p1), (v2, p2)) ↦
        let rest = compare_version fuel p1 p2 in
        if ltb_ℤ v2 v1
        then some (ok (pos 1))
        else if ltb_ℤ v1 v2
        then some (ok (negsuc 0))
        else rest
  ]
]

-- leetcode/isomorphic-strings: a table holds zero where it has no character yet, and has 128 places.
unfoldable pub iso_loop : (left right : Bytes) → Bytes → Bytes → Run Bool
iso_loop left right [] pt = fault
iso_loop left right (s ∷ ps) [] = fault
iso_loop left right (s ∷ ps) (t ∷ pt) = if (s == 0) || (t == 0) then ok (s == t) else do
  r ← from_option (get_elem? right t)
  if not (r == 0) && not (r == s) then ok false else do
    l ← from_option (get_elem? left s)
    let rest =
        iso_loop (if l == 0 then set left s t else left) (if r == 0 then set right t s else right)
          ps pt
    if not (l == 0) && not (l == t) then ok false else rest

unfoldable pub is_isomorphic : Bytes → Bytes → Run Bool
is_isomorphic s t = iso_loop (replicate 128 0) (replicate 128 0) s t

-- leetcode/string-to-integer-atoi/atoi.c: the loop, with `minus` for the sign; the value leaves it at once
-- where it reaches a bound of `int`.
unfoldable pub myatoi_loop : (minus : Bool) → (v : ℕ) → Bytes → Run ℤ
myatoi_loop minus v [] = fault
myatoi_loop minus v (c ∷ p) =
    let v' = v * 10 + (c - 48) in
    let rest = myatoi_loop minus v' p in
    let result = if minus then neg (pos v) else pos v in
    if (c == 0) || not (is_digit c)
    then ok result
    else if not minus && leb (2 ^ 31 - 1) v'
    then ok (pos (2 ^ 31 - 1))
    else if minus && leb (2 ^ 31) v'
    then ok (negsuc (2 ^ 31 - 1))
    else rest

unfoldable pub myatoi : Bytes → Run ℤ
myatoi str = do
  p ← skip_space str
  c ← head_of p
  myatoi_loop (c == 45) 0 (if (c == 45) || (c == 43) then drop 1 p else p)
