-- ===== src/MiniAnt/Http/Name.antt =====
-- mini_ant/src/ant_http.c: `setfilename`, the name of the file for a page.
use recycle_bin.Prelude.{
  ℕ, zero, suc, ◌+◌, ◌/◌, ◌%◌, ◌^◌, Bool, false, not, ◌&&◌, Option, none, some, [], ◌∷◌, ◌++◌, ltb,
  ◌==◌, if◌then◌else◌, length, take, Run, ok, fault, ◌>>=◌, ◌>>◌, assert,
}
use recycle_bin.Prelude.Chars.{Bytes, is_digit}
use recycle_bin.MiniAnt.Http.{HttpInfo, digits}

-- The text behind the last slash; `none` where there is none.
unfoldable pub last_part : Bytes → Option Bytes
last_part [] = none
last_part (c ∷ s) =
    let rest = last_part s in
    elim rest [ some p ↦ some p | none ↦ if c == 47 then some s else none ]

-- ".html", "index.html" and ".gz"
abbrev pub html : Bytes
html = 46 ∷ 104 ∷ 116 ∷ 109 ∷ 108 ∷ []

abbrev pub index_html : Bytes
index_html = 105 ∷ 110 ∷ 100 ∷ 101 ∷ 120 ∷ 46 ∷ 104 ∷ 116 ∷ 109 ∷ 108 ∷ []

abbrev pub gz : Bytes
gz = 46 ∷ 103 ∷ 122 ∷ []

-- `(url[i] == '\0') ? ".html" : url + i`
unfoldable pub or_html : Bytes → Bytes
or_html [] = html
or_html (c ∷ p) = c ∷ p

-- The name before numbers are put behind it. `stamp` is the text of the time with its `_`. The array has 128 bytes: a text that
-- does not fit is a fault.
unfoldable pub plain_name : (stamp url : Bytes) → Run Bytes
plain_name stamp url = do
  assert (ltb (length stamp) 128)
  elim (last_part url) [
    | some p ↦ do
      let whole = stamp ++ take 78 (or_html p)
      assert (ltb (length whole) 128)
      ok (take 78 whole)
    | none ↦ do assert (ltb (length (stamp ++ index_html)) 128); ok (stamp ++ index_html)
  ]

unfoldable pub zipped_name : HttpInfo → Bytes → Run Bytes
zipped_name http name =
    if http.isgzip then (do assert (ltb (length (name ++ gz)) 128); ok (name ++ gz)) else ok name

-- The text without the digits at its end, and those digits; the first character is no such digit.
unfoldable pub split_digits : Bytes → Bytes × Bytes
split_digits [] = ([], [])
split_digits (c ∷ s) =
    let rest = split_digits s in
    if (length rest.0 == 0) && is_digit c then ([], c ∷ rest.1) else (c ∷ rest.0, rest.1)

unfoldable pub number_split : Bytes → Bytes × Bytes
number_split [] = ([], [])
number_split (c ∷ s) = let rest = split_digits s in (c ∷ rest.0, rest.1)

unfoldable pub ends_dot : Bytes → Bool
ends_dot [] = false
ends_dot (c ∷ []) = c == 46
ends_dot (c ∷ d ∷ s) = ends_dot (d ∷ s)

-- `%d` of a number that is not zero, before a text; a number has as many digits as fuel at most.
unfoldable pub decimal : (fuel n : ℕ) → Bytes → Bytes
decimal zero n s = s
decimal (suc fuel) n s =
    let rest = decimal fuel (n / 10) ((48 + n % 10) ∷ s) in if n == 0 then s else rest

-- A turn of the last loop: the number at the end is one more, or is 1 behind a dot. A number that is no `int` and a
-- name that does not fit are faults.
unfoldable pub numbered : Bytes → Run Bytes
numbered name =
    let (front, number) = number_split name in
    let n = digits 0 number + 1 in
    let next = front ++ ((if ends_dot front then [] else 46 ∷ []) ++ decimal 10 n []) in
    if ltb n (2 ^ 31) && ltb (length next) 128 then ok next else fault

-- `access(buf, F_OK) == 0` is `exists`. One unit of fuel for a turn.
unfoldable pub unused_name : (exists : Bytes → Bool) → (fuel : ℕ) → Bytes → Option (Run Bytes)
unused_name exists zero name = none
unused_name exists (suc fuel) name =
    if exists name && not (length name == 0)
    then elim (numbered name) [ fault ↦ some fault | ok next ↦ unused_name exists fuel next ]
    else some (ok name)

unfoldable pub setfilename :
    (exists : Bytes → Bool) → (fuel : ℕ) → (stamp : Bytes) → HttpInfo → Option (Run HttpInfo)
setfilename exists fuel stamp http =
    elim (do name ← plain_name stamp http.url; zipped_name http name) [
      | fault ↦ some fault
      | ok name ↦ elim (unused_name exists fuel name) [
        | none ↦ none
        | some fault ↦ some fault
        | some (ok name') ↦ some (ok (record http { filename = name' }))
      ]
    ]
