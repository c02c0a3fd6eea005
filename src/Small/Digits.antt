-- ===== src/Small/Digits.antt =====
-- GAS/int2str.c and GAS/str2int.c.
use recycle_bin.Prelude.{
  ℕ, zero, suc, ◌+◌, ◌/◌, ◌%◌, not, ◌&&◌, ◌||◌, [], ◌∷◌, ltb, leb, ◌==◌, if◌then◌else◌, drop, Run,
  ok, fault, ◌>>=◌,
}
use recycle_bin.Prelude.Chars.{Bytes}
use recycle_bin.Prelude.Int.{ℤ, pos, neg, ◌-ℤ◌, ltb_ℤ, unsigned32}
use recycle_bin.Small.{add_ℤ, int_ℤ, push_digit, head_of, skip_space}

-- The digit of a value: `tab[i]`, of "0…9a…z".
unfoldable pub tab : ℕ → ℕ
tab i = if ltb i 10 then i + 48 else i + 87

-- `do *p++ = tab[uval % base]; while (uval /= base);`, with room for so many characters; the last one
-- written comes first.
unfoldable pub int2str_loop : (room uval base : ℕ) → Bytes → Run (ℕ × Bytes)
int2str_loop zero uval base buf = fault
int2str_loop (suc room) uval base buf =
    let buf' = tab (uval % base) ∷ buf in
    let rest = int2str_loop room (uval / base) base buf' in
    if uval / base == 0 then ok (room, buf') else rest

-- The text that the function leaves in `str`.
unfoldable pub int2str : ℤ → (base : ℕ) → Run Bytes
int2str val base = if ltb base 2 || ltb 36 base then ok [] else do
  let minus = ltb_ℤ val (pos 0) && (base == 10)
  uval ← (if minus then int_ℤ (neg val) else ok val)
  (room, buf) ← int2str_loop 33 (unsigned32 uval) base []
  if minus then (if room == 0 then fault else ok (45 ∷ buf)) else ok buf

-- `c = *str | 0x20`
unfoldable pub lower : ℕ → ℕ
lower c = if (c / 32) % 2 == 0 then c + 32 else c

-- `for (;*str; str++)`
unfoldable pub str2int_loop : (base : ℕ) → (rv : ℤ) → Bytes → Run ℤ
str2int_loop base rv [] = fault
str2int_loop base rv (s ∷ str) =
    let c = lower s in
    if s == 0
    then ok rv
    else if leb 97 c && leb c 122
    then (do
      rv ← push_digit rv base (pos c)
      rv ← int_ℤ (rv -ℤ pos 97)
      str2int_loop base (add_ℤ rv (pos 10)) str)
    else if leb 48 c && leb c 57
    then (do rv ← push_digit rv base (pos c); rv ← int_ℤ (rv -ℤ pos 48); str2int_loop base rv str)
    else ok rv

-- The base that a text announces, and what is behind it.
unfoldable pub guess_base : Bytes → Run (ℕ × Bytes)
guess_base [] = fault
guess_base (s ∷ str) =
    if s == 48
    then (do
      c ← head_of str
      if (c == 120) || (c == 88)
          then ok (16, drop 1 str)
          else if (c == 98) || (c == 66)
          then ok (2, drop 1 str)
          else ok (8, str))
    else ok (10, s ∷ str)

unfoldable pub str2int : Bytes → (base : ℕ) → Run ℤ
str2int str base = if (ltb base 2 && not (base == 0)) || ltb 36 base then ok (pos 0) else do
  str ← skip_space str
  c ← head_of str
  let signed = (c == 45) || (c == 43)
  (guessed, str) ← guess_base (if signed then drop 1 str else str)
  rv ← str2int_loop (if base == 0 then guessed else base) (pos 0) str
  ok (if c == 45 then neg rv else rv)
