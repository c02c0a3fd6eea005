-- ===== src/MiniAnt/Array.antt =====
-- mini_ant/src/ant_array.c and ant_array.h: an array that grows. `array` is the object, of bytes; a size is a
-- number of them. `calloc` is the allocator, with its two arguments.
pub mod Elements
pub mod Growth
use recycle_bin.Prelude.{
  ℕ, zero, suc, ◌+◌, ◌-◌, ◌*◌, ◌/◌, ◌%◌, ◌^◌, Bool, true, false, Option, none, some, [], ◌∷◌, ◌++◌,
  ltb, leb, ◌==◌, if◌then◌else◌, length, take, drop, replicate, Run, ok, fault, ◌>>=◌, ◌>>◌, assert,
}
use recycle_bin.Prelude.Chars.{Bytes}
use recycle_bin.Prelude.Int.{ℤ, pos, negsuc, ◌-ℤ◌, signed32, pos_part}

pub record AntArray : Type 0 where
  pub array : Bytes
  pub ncurr : ℤ
  pub size : ℕ
  pub length : ℕ
  pub flag : ℕ

-- The word of four bytes at the front, and what is behind.
unfoldable pub word : Bytes → Run (ℕ × Bytes)
word (a ∷ b ∷ c ∷ d ∷ m) = ok (a + 256 * (b + 256 * (c + 256 * d)), m)
word [] = fault
word (a ∷ []) = fault
word (a ∷ b ∷ []) = fault
word (a ∷ b ∷ c ∷ []) = fault

-- `for (;cnt > 0; cnt--, p++)`
unfoldable pub zero_bytes : (cnt : ℕ) → Bytes → Run Bool
zero_bytes zero m = ok true
zero_bytes (suc cnt) [] = fault
zero_bytes (suc cnt) (b ∷ m) = let rest = zero_bytes cnt m in if b == 0 then rest else ok false

-- `for (; cnt >= 4; cnt -= 4, p += 4)`, then the bytes.
unfoldable pub zero_words : (cnt : ℕ) → Bytes → Run Bool
zero_words (suc (suc (suc (suc cnt)))) m = do
  (w, m) ← word m
  let rest = zero_words cnt m
  if w == 0 then rest else ok false
zero_words zero m = zero_bytes 0 m
zero_words (suc zero) m = zero_bytes 1 m
zero_words (suc (suc zero)) m = zero_bytes 2 m
zero_words (suc (suc (suc zero))) m = zero_bytes 3 m

-- `cnt = n`, an `int` of a `size_t`: below zero neither loop runs.
unfoldable pub iszero : Bytes → (n : ℕ) → Run Bool
iszero s n = zero_words (pos_part (signed32 (n % 2 ^ 32))) s

-- The bytes of an object from `off` on; a pointer behind the end of the object is a fault.
unfoldable pub from : Bytes → (off : ℕ) → Run Bytes
from m off = if leb off (length m) then ok (drop off m) else fault

-- The bytes that `memcpy` reads.
unfoldable pub taken : (n : ℕ) → Bytes → Run Bytes
taken n m = if leb n (length m) then ok (take n m) else fault

-- `memcpy(object + off, bytes, …)`
unfoldable pub put_at : Bytes → (off : ℕ) → Bytes → Run Bytes
put_at m off bytes =
    if leb (off + length bytes) (length m)
    then ok (take off m ++ bytes ++ drop (off + length bytes) m)
    else fault

-- `(int)ceil(i / (double)length)`: of two `int`s the quotient is exact enough to be rounded up rightly. For
-- no length it is infinite or no number, which has no `int`.
unfoldable pub ceil_div : (i length : ℕ) → Run ℕ
ceil_div i length = if length == 0 then fault else ok ((i + length - 1) / length)

module _ (calloc : (nmemb size : ℕ) → Option Bytes) where
  -- `none` is the result -1.
  unfoldable pub ant_array_init : (length size : ℕ) → Option AntArray
  ant_array_init length size = elim (calloc length size) [
    | none ↦ none
    | some o ↦ some (record { array = o; ncurr = pos 0; size = size; length = length; flag = 0 })
  ]

  -- `got` is whether the struct could be allocated.
  unfoldable pub ant_array_new : Bool → (length size : ℕ) → Option AntArray
  ant_array_new false length size = none
  ant_array_new true length size = elim (ant_array_init length size) [
    | none ↦ none
    | some a ↦ some (record a { flag = 1 })
  ]

  -- The first half of `ant_array_put`: false where `calloc` fails.
  unfoldable pub ant_array_grow : AntArray → (i : ℕ) → Run (Bool × AntArray)
  ant_array_grow a i = if ltb i a.length then ok (true, a) else do
    n ← ceil_div i a.length
    let n = if n == 1 then 2 else n
    elim (calloc (a.length * n) a.size) [
      | none ↦ ok (false, a)
      | some new ↦ do
        old ← taken (a.length * a.size) a.array
        new ← put_at new 0 old
        ok (true, record a { array = new; length = a.length * n })
    ]

  -- The bytes `elem` are those that the pointer leads to; true for the pointer, false for `NULL`.
  unfoldable pub ant_array_put : AntArray → (i : ℕ) → (elem : Bytes) → Run (Bool × AntArray)
  ant_array_put a i elem = do
    (got, a) ← ant_array_grow a i
    if got
        then (do
          place ← from a.array (i * a.size)
          empty ← iszero place a.size
          bytes ← taken a.size elem
          o ← put_at a.array (i * a.size) bytes
          ok (true, record a { array = o; ncurr = if empty then a.ncurr -ℤ negsuc 0 else a.ncurr }))
        else ok (false, a)

-- The offset of the place that is returned.
unfoldable pub ant_array_get : AntArray → (i : ℕ) → Run ℕ
ant_array_get a i = do assert (ltb i a.length); ok (i * a.size)

unfoldable pub ant_array_clear : AntArray → (i : ℕ) → Run (ℕ × AntArray)
ant_array_clear a i = do
  assert (ltb i a.length)
  o ← put_at a.array (i * a.size) (replicate a.size 0)
  ok (i * a.size, record a { array = o; ncurr = a.ncurr -ℤ pos 1 })
