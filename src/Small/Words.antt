-- ===== src/Small/Words.antt =====
-- libs/ho_trim.c; libc/ho_string/ho_strtok.c; http_server/src/tor_string.c.
use recycle_bin.Prelude.{
  ℕ, zero, suc, ◌+◌, ◌-◌, ◌*◌, ◌<◌, ◌≡◌, refl, inl, inr, ◌^◌, Bool, true, false, not, ◌&&◌, Option,
  none, some, [], ◌∷◌, ◌++◌, arith, ltb, ◌==◌, if◌then◌else◌, Bool-cases, length, get_elem?, set,
  take, drop, length-append, Run, ok, fault, ◌>>=◌, from_option,
}
use recycle_bin.Prelude.Chars.{Bytes, is_space}
use recycle_bin.Buffers.{int}
use recycle_bin.HoString.Span.{ho_strspn, ho_strcspn}

-- How many spaces a text, without its NUL, begins with, and how many it ends with, so many characters at its
-- front excepted.
unfoldable pub leading : Bytes → ℕ
leading [] = 0
leading (c ∷ s) = let rest = leading s in if is_space c then suc rest else 0

unfoldable pub all_spaces : Bytes → Bool
all_spaces [] = true
all_spaces (c ∷ s) = is_space c && all_spaces s

unfoldable pub trailing : (excepted : ℕ) → Bytes → ℕ
trailing n [] = 0
trailing zero (c ∷ s) =
    let rest = trailing zero s in if all_spaces (c ∷ s) then suc (length s) else rest
trailing (suc n) (c ∷ s) = trailing n s

-- The text that is left: from `start` to `last`, which stops at `start` whatever stands there. Of spaces alone nothing is
-- left. `strncpy` copies within the text.
unfoldable pub ho_trim : Bytes → Bytes
ho_trim s =
    let start = leading s in
    if start == length s
    then []
    else take (length s - start - trailing (suc start) s) (drop start s)

-- `b` and what `*lasts` is, as places in the memory, and the memory; `none` is `NULL`.
unfoldable pub ho_strtok_r : (mem sep : Bytes) → (at : ℕ) → Run (Option (ℕ × ℕ) × Bytes)
ho_strtok_r mem sep at = do
  n ← ho_strspn (drop at mem) sep
  c ← from_option (get_elem? mem (at + n))
  if c == 0 then ok (none, mem) else do
    k ← ho_strcspn (drop (at + n) mem) sep
    let e = at + n + k
    d ← from_option (get_elem? mem e)
    if d == 0 then ok (some (at + n, e), mem) else ok (some (at + n, e + 1), set mem e 0)

-- The size that is tried next, of a text of `n` characters behind `used` of them, as an `int`. A text that is too long for an
-- `int` makes `vsnprintf` return -1.
unfoldable pub next_size : (n used size : ℕ) → Run ℕ
next_size n used size = if not (ltb n (2 ^ 31)) then int (2 * size) else do
  needed ← int (used + n + 1)
  if ltb size needed
      then (do twice ← int (2 * size); ok (if ltb needed twice then twice else needed))
      else ok size

-- `sprintfcat` onto the text `str`, whose buffer has `size` bytes. Each turn but the first has room, so one unit of fuel for
-- each of two turns is enough. `none` inside is the result -1.
unfoldable pub sprintfcat_loop :
    (fuel : ℕ)
    → (grows : Bool) → (text : Bytes) → (str : Bytes) → (size : ℕ)
    → Option (Run (Option (Bytes × ℕ)))
sprintfcat_loop zero grows text str size = none
sprintfcat_loop (suc fuel) grows text str size =
    if ltb (length text) (size - length str)
    then some (ok (some (str ++ text, size)))
    else elim (next_size (length text) (length str) size) [
      | fault ↦ some fault
      | ok size' ↦
          let rest = sprintfcat_loop fuel grows text str size' in
          if grows then rest else some (ok none)
    ]

-- `strp` is the text so far and the size of its buffer, `none` where it is `NULL`. The result is 0 where there is one.
unfoldable pub sprintfcat :
    (fuel : ℕ)
    → (got grows : Bool) → (text : Bytes) → Option (Bytes × ℕ)
    → Option (Run (Option (Bytes × ℕ)))
sprintfcat fuel got grows text none =
    if got then sprintfcat_loop fuel grows text [] 500 else some (ok none)
sprintfcat fuel got grows text (some (str, size)) =
    if size == 0
    then (if got then sprintfcat_loop fuel grows text [] 500 else some (ok none))
    else sprintfcat_loop fuel grows text str size

-- There is a buffer already, with room for its text and the NUL; twice its size, and the length of both texts with a NUL, are
-- below 2 ^ 31. Then with memory two turns are enough, and the text is put behind what was there, in a buffer that has room for it and its NUL.
pub sprintfcat-append :
    (text str : Bytes) (size fuel : ℕ)
    → length str < size
    → 2 * size < 2 ^ 31
    → length str + length text + 1 < 2 ^ 31
    → (size' : ℕ) × (sprintfcat (suc (suc fuel)) true true text (some (str, size))
        ≡ some (ok (some (str ++ text, size'))))
      × (length (str ++ text) < size')
unfolding sprintfcat sprintfcat_loop next_size int
sprintfcat-append text str size fuel h twice_fits fits =
    let there : (size == 0) ≡ false = ground (arith, h) in
    let whole = length-append str text in
    elim (Bool-cases (ltb (length text) (size - length str))) [
      | inl e ↦ (size, rw (there, e) refl, ground (arith, e, whole, h))
      | inr e ↦
          let needed = length str + length text + 1 in
          let small : ltb size needed ≡ true = ground (arith, e, h) in
          let n_int : ltb (length text) (2 ^ 31) ≡ true = ground (arith, fits) in
          let needed_int : ltb needed (2 ^ 31) ≡ true = ground (arith, fits) in
          let twice_int : ltb (2 * size) (2 ^ 31) ≡ true = ground (arith, twice_fits) in
          elim (Bool-cases (ltb needed (2 * size))) [
            | inl d ↦
                let room : ltb (length text) (2 * size - length str) ≡ true = ground (arith, d) in
                (
                  2 * size,
                  rw (there, e, n_int, needed_int, small, twice_int, d, room) refl,
                  ground (arith, d, whole),
                )
            | inr d ↦
                let room : ltb (length text) (needed - length str) ≡ true = ground (arith) in
                (
                  needed,
                  rw (there, e, n_int, needed_int, small, twice_int, d, room) refl,
                  omega (arith, whole),
                )
          ]
    ]
