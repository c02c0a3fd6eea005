-- ===== src/Buffers/Mem.antt =====
-- `add_buf` of corecode/ant_string.c, `mem_read` and `mem_write` of corecode/ho_mem.c. What the functions
-- reach through pointers is a record: the buffer, its size, and how much of it is in use.
use recycle_bin.Prelude.{
  ℕ, ◌+◌, ◌-◌, Bool, true, false, ◌||◌, Option, none, some, [], ltb, leb, ◌==◌, if◌then◌else◌,
  length, drop, Run, ok, fault, ◌>>=◌, from_option,
}
use recycle_bin.Prelude.Chars.{Bytes}
use recycle_bin.Prelude.Int.{ℤ, pos, negsuc}
use recycle_bin.Buffers.{int, read_bytes, store, at_least_double, is_null}
use Prim.Native.Nat.{min}

pub record Space : Type 0 where
  pub mem : Option Bytes
  pub size : ℕ
  pub used : ℕ

module _ (calloc : ℕ → Option Bytes) (realloc : Bytes → ℕ → Option Bytes) where
  -- The growth of both functions, which differ in what they add to a first allocation.
  unfoldable pub grow : (slack : ℕ) → Space → ℕ → Run (Bool × Space)
  grow slack s len =
      if is_null s.mem || (s.size == 0)
      then (do
        size ← int (len + slack)
        elim (calloc size) [
          | none ↦ ok (false, record s { size = size; mem = none })
          | some o ↦ ok (true, record s { size = size; mem = some o })
        ])
      else do
        needed ← int (s.used + len + 1)
        if ltb s.size needed
            then (do
              needed ← at_least_double needed s.size
              old ← from_option s.mem
              elim (realloc old needed) [
                | none ↦ ok (false, s)
                | some o ↦ ok (true, record s { size = needed; mem = some o })
              ])
            else ok (true, s)

  -- `memcpy(*buf + *cur_len, str, len); *cur_len += len;`
  unfoldable pub append_used : Space → Bytes → ℕ → Run (ℤ × Space)
  append_used s str len = do
    o ← from_option s.mem
    bytes ← read_bytes len str
    o ← store o s.used bytes
    used ← int (s.used + len)
    ok (pos 0, record s { mem = some o; used = used })

  unfoldable pub add_buf : Space → Bytes → ℕ → Run (ℤ × Space)
  add_buf s str len = do
    (got, s) ← grow 5 s len
    if got then append_used s str len else ok (negsuc 0, s)

  unfoldable pub mem_write : Space → Bytes → ℕ → Run (ℤ × Space)
  mem_write s buf count = do
    (got, s) ← grow 500 s count
    if got then append_used s buf count else ok (negsuc 0, s)

-- The result, the bytes put into the caller's buffer, and `*muse` afterwards.
unfoldable pub mem_read : (muse msize : ℕ) → Bytes → ℕ → Run (ℤ × Bytes × ℕ)
mem_read muse msize m count =
    if msize == 0
    then ok (negsuc 0, [], muse)
    else if leb msize muse
    then ok (negsuc 0, [], muse)
    else do
      let cur_len = min (msize - muse) count
      bytes ← (if leb muse (length m) then read_bytes cur_len (drop muse m) else fault)
      ok (pos cur_len, bytes, muse + cur_len)
