-- ===== src/Small/Strings.antt =====
-- The tools of the root folder: change.c, del_str.c, del_str_all.c, rev_str.c. A text is its characters,
-- without the NUL. `strcpy` to a lower place in the same text is taken to move the characters there.
use recycle_bin.Prelude.{
  ℕ, zero, suc, ◌+◌, ◌-◌, ◌*◌, ◌/◌, ◌%◌, Bool, true, false, ◌&&◌, Option, none, some, List, [], ◌∷◌,
  ◌++◌, ltb, ◌==◌, if◌then◌else◌, length, get_elem?, set, drop, Run, ok, ◌>>=◌, from_option,
}
use recycle_bin.Prelude.Chars.{Bytes}
use recycle_bin.Prelude.Int.{ℤ, pos, neg, ◌-ℤ◌, ltb_ℤ}

unfoldable pub starts : (text del : Bytes) → Bool
starts text [] = true
starts [] (d ∷ del) = false
starts (c ∷ text) (d ∷ del) = let rest = starts text del in (c == d) && rest

-- `strstr`: what stands before the first occurrence, and what is behind it.
unfoldable pub split_at : (del text : Bytes) → Option (Bytes × Bytes)
split_at del [] = if starts [] del then some ([], []) else none
split_at del (c ∷ text) =
    let rest = split_at del text in
    if starts (c ∷ text) del
    then some ([], drop (length del) (c ∷ text))
    else elim rest [ none ↦ none | some (a, b) ↦ some (c ∷ a, b) ]

-- del_str.c
unfoldable pub del_str : (str del : Bytes) → Bytes
del_str str del = elim (split_at del str) [ none ↦ str | some (a, b) ↦ a ++ b ]

-- del_str_all.c; `none` is a run out of fuel.
unfoldable pub del_str_all : (fuel : ℕ) → (str del : Bytes) → Option Bytes
del_str_all zero str del = none
del_str_all (suc fuel) str del = elim (split_at del str) [
  | none ↦ some str
  | some (a, b) ↦ del_str_all fuel (a ++ b) del
]

-- rev_str.c: the places `first` and `last` go towards each other; `turns` bounds the loop.
unfoldable pub rev_loop : (turns first last : ℕ) → Bytes → Run Bytes
rev_loop zero first last str = ok str
rev_loop (suc turns) first last str =
    if ltb first last
    then (do
      tmp ← from_option (get_elem? str last)
      c ← from_option (get_elem? str first)
      rev_loop turns (first + 1) (last - 1) (set (set str last c) first tmp))
    else ok str

unfoldable pub rev_str : Bytes → Run Bytes
rev_str str = rev_loop (length str) 0 (length str - 1) str

-- change.c: the months of the year.
abbrev pub month : List ℕ
month = 31 ∷ 28 ∷ 31 ∷ 30 ∷ 31 ∷ 30 ∷ 31 ∷ 31 ∷ 30 ∷ 31 ∷ 30 ∷ 31 ∷ []

-- `for (i = 0; i < 12; i++)`: the month and the days that are left of the sum.
unfoldable pub month_loop : (i : ℕ) → (sum_day : ℤ) → List ℕ → ℕ × ℤ
month_loop i sum_day [] = (i, sum_day)
month_loop i sum_day (m ∷ ms) =
    let rest = month_loop (i + 1) (sum_day -ℤ pos m) ms in
    if ltb_ℤ (pos m) sum_day then rest else (i, sum_day)

-- Month and day of `num`, which ends in the week and the day of the week; `none` is the result -1. A month
-- behind the last one is a read out of the table.
unfoldable pub cal : (num : ℕ) → Option (Run (ℕ × ℤ))
cal num =
    let week = (num % 1000) / 10 in
    let day = num % 10 in
    if ltb 7 day
    then none
    else some (do
      let (i, sum_day) = month_loop 0 (pos (week * 7) -ℤ pos 10) month
      m ← from_option (get_elem? month i)
      let all = sum_day -ℤ neg (pos day)
      if ltb_ℤ (pos m) all
          then (do m' ← from_option (get_elem? month (i + 1)); ok (i + 2, all -ℤ pos m))
          else ok (i + 1, all))
