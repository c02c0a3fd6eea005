-- ===== src/Match/Scan.antt =====
-- char_engine/str_match.c: the scanning loops of `str_match`. `s` is the text from where the scan stands.
use recycle_bin.Prelude.{
  ℕ, zero, suc, ◌+◌, ◌-◌, ◌*◌, ◌^◌, Bool, not, ◌&&◌, [], ◌∷◌, ltb, ◌==◌, if◌then◌else◌, drop, Run,
  ok, fault, ◌>>=◌,
}
use recycle_bin.Prelude.Chars.{Bytes, is_digit}
use recycle_bin.Match.{head_of}

-- `while (*s && test(*s)) s++;`
unfoldable pub skip_while : (ℕ → Bool) → Bytes → Run Bytes
skip_while test [] = fault
skip_while test (c ∷ s) =
    let rest = skip_while test s in if not (c == 0) && test c then rest else ok (c ∷ s)

-- `while (*s && test(*s) && width-- > 0) s++;`, for a width above zero.
unfoldable pub skip_width : (ℕ → Bool) → (width : ℕ) → Bytes → Run Bytes
skip_width test width [] = fault
skip_width test zero (c ∷ s) = ok (c ∷ s)
skip_width test (suc width) (c ∷ s) =
    let rest = skip_width test width s in if not (c == 0) && test c then rest else ok (c ∷ s)

-- The same with `width > 0` as the test, and the width that is left.
unfoldable pub skip_counted : (ℕ → Bool) → (width : ℕ) → Bytes → Run (Bytes × ℕ)
skip_counted test width [] = fault
skip_counted test zero (c ∷ s) = ok (c ∷ s, zero)
skip_counted test (suc width) (c ∷ s) =
    let rest = skip_counted test width s in
    if not (c == 0) && test c then rest else ok (c ∷ s, suc width)

-- `if (width) … else …` of `%d` and of `%[…]`.
unfoldable pub skip : (ℕ → Bool) → (width : ℕ) → Bytes → Run Bytes
skip test width s = if width == 0 then skip_while test s else skip_width test width s

-- `%f`: digits, a point, digits.
unfoldable pub skip_float : (width : ℕ) → Bytes → Run Bytes
skip_float zero s = do
  s ← skip_while is_digit s
  c ← head_of s
  skip_while is_digit (if c == 46 then drop 1 s else s)
skip_float (suc width) s = do
  (s, left) ← skip_counted is_digit (suc width) s
  c ← head_of s
  let point = (c == 46) && ltb 0 left
  (s, left) ←
      skip_counted is_digit (if point then left - 1 else left) (if point then drop 1 s else s)
  ok s

-- `while (*fmt >= '0' && *fmt <= '9') width = width * 10 + *fmt++ - '0';`
unfoldable pub read_width : (width : ℕ) → Bytes → Run (ℕ × Bytes)
read_width width [] = fault
read_width width (c ∷ fmt) =
    let rest = read_width (width * 10 + (c - 48)) fmt in
    if is_digit c
    then (if ltb (width * 10 + (c - 48)) (2 ^ 31) then rest else fault)
    else ok (width, c ∷ fmt)
