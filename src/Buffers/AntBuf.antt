-- ===== src/Buffers/AntBuf.antt =====
-- mini_ant/src/ant_buf.c and ant_buf.h.
use recycle_bin.Prelude.{
  ℕ, ◌+◌, ◌%◌, ◌^◌, Bool, true, false, ◌||◌, Option, none, some, ltb, ◌==◌, if◌then◌else◌, length,
  replicate, Run, ok, ◌>>=◌, ◌>>◌, assert, from_option,
}
use recycle_bin.Prelude.Chars.{Bytes}
use recycle_bin.Prelude.Int.{ℤ, pos, negsuc}
use recycle_bin.Buffers.{int, nonneg, read_bytes, store, at_least_double, is_null}

-- `buf` is the object that the field leads to.
pub record AntBuf : Type 0 where
  pub buf : Option Bytes
  pub length : ℕ
  pub ncurr : ℕ
  pub flag : ℕ
  pub nm_alloc : ℕ

module _ (malloc calloc : ℕ → Option Bytes) where
  unfoldable pub ant_buf_init : ℤ → Run AntBuf
  ant_buf_init length = do
    n ← nonneg length
    ok (record {
      buf = if n == 0 then none else malloc n;
      length = n;
      ncurr = 0;
      flag = 0;
      nm_alloc = 0;
    })

  -- `got` is whether the struct could be allocated, which the code asserts.
  unfoldable pub ant_buf_new : Bool → ℤ → Run AntBuf
  ant_buf_new got length = do assert got; b ← ant_buf_init length; ok (record b { flag = 1 })

  -- The first half of `ant_buf_append`: false where an allocation fails.
  unfoldable pub ant_buf_reserve : AntBuf → ℕ → Run (Bool × AntBuf)
  ant_buf_reserve b size =
      if is_null b.buf || (b.length == 0)
      then (do
        length ← int (size + 500)
        elim (malloc length) [
          | none ↦ ok (false, record b { length = length; buf = none })
          | some o ↦ ok (true, record b { length = length; buf = some o; nm_alloc = 1 })
        ])
      else do
        needed ← int (b.ncurr + size + 1)
        if ltb b.length needed
            then (do
              needed ← at_least_double needed b.length
              elim (calloc needed) [
                | none ↦ ok (false, b)
                | some o ↦ do
                  old ← from_option b.buf
                  old ← read_bytes b.ncurr old
                  o ← store o 0 old
                  ok (
                    true,
                    record b {
                      buf = some o;
                      length = needed;
                      nm_alloc = (b.nm_alloc + 1) % 2 ^ 31;
                    },
                  )
              ])
            else ok (true, b)

  unfoldable pub ant_buf_append : AntBuf → Bytes → ℤ → Run (ℤ × AntBuf)
  ant_buf_append b elem size = do
    n ← nonneg size
    (got, b) ← ant_buf_reserve b n
    if got
        then (do
          o ← from_option b.buf
          bytes ← read_bytes n elem
          o ← store o b.ncurr bytes
          ncurr ← int (b.ncurr + n)
          ok (pos 0, record b { buf = some o; ncurr = ncurr }))
        else ok (negsuc 0, b)

unfoldable pub ant_buf_clear : AntBuf → Run AntBuf
ant_buf_clear b = do
  o ← from_option b.buf
  o ← store o 0 (replicate b.ncurr 0)
  ok (record b { buf = some o; ncurr = 0 })
