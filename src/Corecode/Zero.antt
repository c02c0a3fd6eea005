-- ===== src/Corecode/Zero.antt =====
-- corecode/ant_string.c: `ant_iszero` and `isallc`, which look at four bytes at a time.
pub mod Words
use recycle_bin.Prelude.{
  ℕ, zero, suc, ◌+◌, ◌*◌, ◌%◌, ◌^◌, Bool, true, false, [], ◌∷◌, ◌==◌, if◌then◌else◌, Run, ok, fault,
  ◌>>=◌,
}
use recycle_bin.Prelude.Chars.{Bytes}
use recycle_bin.Prelude.Int.{ℤ, uchar, signed32, pos_part}

-- The word of four bytes at the front, and what is behind.
unfoldable pub word : Bytes → Run (ℕ × Bytes)
word (a ∷ b ∷ c ∷ d ∷ m) = ok (a + 256 * (b + 256 * (c + 256 * d)), m)
word [] = fault
word (a ∷ []) = fault
word (a ∷ b ∷ []) = fault
word (a ∷ b ∷ c ∷ []) = fault

-- `for (; cnt > 0; cnt--, p++)`
unfoldable pub bytes_all : (c cnt : ℕ) → Bytes → Run Bool
bytes_all c zero m = ok true
bytes_all c (suc cnt) [] = fault
bytes_all c (suc cnt) (b ∷ m) = let rest = bytes_all c cnt m in if b == c then rest else ok false

-- `for (; cnt >= 4; cnt -= 4, p += 4)`, for the word `t`; then the bytes.
unfoldable pub words_all : (t c cnt : ℕ) → Bytes → Run Bool
words_all t c (suc (suc (suc (suc cnt)))) m = do
  (w, m) ← word m
  let rest = words_all t c cnt m
  if w == t then rest else ok false
words_all t c zero m = bytes_all c 0 m
words_all t c (suc zero) m = bytes_all c 1 m
words_all t c (suc (suc zero)) m = bytes_all c 2 m
words_all t c (suc (suc (suc zero))) m = bytes_all c 3 m

-- `cnt = n`, an `int` of a `size_t`: below zero neither loop runs.
unfoldable pub count : ℕ → ℕ
count n = pos_part (signed32 (n % 2 ^ 32))

unfoldable pub ant_iszero : Bytes → (n : ℕ) → Run Bool
ant_iszero s n = words_all 0 0 (count n) s

-- `memset(&t, c, 4)` gives the word of four bytes `c`.
unfoldable pub isallc : Bytes → (c : ℤ) → (n : ℕ) → Run Bool
isallc s c n = let b = uchar c in words_all (b + 256 * (b + 256 * (b + 256 * b))) b (count n) s
