-- ===== src/Pool/Channel.antt =====
-- processpool/src/processpool.c: `readn_timedwait` and `writen_timedwait` with their waits. `none` is a run
-- out of fuel, one unit of it for a turn of the loop.
use recycle_bin.Prelude.{
  ℕ, zero, suc, ◌-◌, ◌%◌, ◌^◌, Option, none, some, [], ◌∷◌, ◌++◌, length, take, drop,
}
use recycle_bin.Prelude.Chars.{Bytes}
use recycle_bin.Prelude.Int.{ℤ, negsuc, pos_part, signed32}
use recycle_bin.Pool.{
  Errno, eintr, eagain, etimedout, other, Answer, done, failed, Io, Moved, wait_time,
}

-- A `size_t` as an `int`.
unfoldable pub int_of : ℕ → ℤ
int_of n = signed32 (n % 2 ^ 32)

module _ {ℓ} {S : Type ℓ} (io : Io S) where
  unfoldable pub read_wait : ℕ → ℤ → S → Answer ℕ × S
  read_wait fd msec s = io.select_read fd (wait_time msec) s

  unfoldable pub write_wait : ℕ → ℤ → S → Answer ℕ × S
  write_wait fd msec s = io.select_write fd (wait_time msec) s

  -- `cnt` bytes of `bp` are left of `len`.
  unfoldable pub writen_loop :
      (fuel fd : ℕ) → Bytes → (cnt len : ℕ) → ℤ → Errno → S → Option (Moved S)
  writen_loop zero fd bp cnt len msec errno s = none
  writen_loop (suc fuel) fd bp zero len msec errno s =
      some (record { rv = int_of len; errno = errno; sys = s })
  writen_loop (suc fuel) fd bp (suc left) len msec errno s =
      let (ans, s) = io.sys_write fd (take (suc left) bp) s in
      elim ans [
        | failed eintr ↦ writen_loop fuel fd bp (suc left) len msec eintr s
        | failed eagain ↦
            let (ans, s) = write_wait fd msec s in
            elim ans [
              | failed e ↦ some (record { rv = negsuc 0; errno = e; sys = s })
              | done zero ↦ some (record { rv = negsuc 0; errno = etimedout; sys = s })
              | done (suc n) ↦ writen_loop fuel fd bp (suc left) len msec eagain s
            ]
        | failed etimedout ↦ some (record { rv = negsuc 0; errno = etimedout; sys = s })
        | failed other ↦ some (record { rv = negsuc 0; errno = other; sys = s })
        | done zero ↦ some (record { rv = int_of (len - suc left); errno = errno; sys = s })
        | done (suc n) ↦ writen_loop fuel fd (drop (suc n) bp) (suc left - suc n) len msec errno s
      ]

  -- `cnt = len`, an `int`: of one below zero the loop does not run.
  unfoldable pub writen_timedwait :
      (fuel fd : ℕ) → Bytes → (len : ℕ) → ℤ → Errno → S → Option (Moved S)
  writen_timedwait fuel fd buf len msec errno s =
      writen_loop fuel fd buf (pos_part (int_of len)) len msec errno s

  -- Also what was read, which stands at the front of the buffer.
  unfoldable pub readn_loop :
      (fuel fd : ℕ) → Bytes → (cnt len : ℕ) → ℤ → Errno → S → Option (Bytes × Moved S)
  readn_loop zero fd got cnt len msec errno s = none
  readn_loop (suc fuel) fd got zero len msec errno s =
      some (got, record { rv = int_of len; errno = errno; sys = s })
  readn_loop (suc fuel) fd got (suc left) len msec errno s =
      let (ans, s) = io.sys_read fd (suc left) s in
      elim ans [
        | failed eintr ↦ readn_loop fuel fd got (suc left) len msec eintr s
        | failed eagain ↦
            let (ans, s) = read_wait fd msec s in
            elim ans [
              | failed e ↦ some (got, record { rv = negsuc 0; errno = e; sys = s })
              | done zero ↦ some (got, record { rv = negsuc 0; errno = etimedout; sys = s })
              | done (suc n) ↦ readn_loop fuel fd got (suc left) len msec eagain s
            ]
        | failed etimedout ↦ some (got, record { rv = negsuc 0; errno = etimedout; sys = s })
        | failed other ↦ some (got, record { rv = negsuc 0; errno = other; sys = s })
        | done [] ↦ some (got, record { rv = int_of (len - suc left); errno = errno; sys = s })
        | done (b ∷ bs) ↦
            readn_loop fuel fd (got ++ b ∷ bs) (suc left - length (b ∷ bs)) len msec errno s
      ]

  unfoldable pub readn_timedwait : (fuel fd len : ℕ) → ℤ → Errno → S → Option (Bytes × Moved S)
  readn_timedwait fuel fd len msec errno s =
      readn_loop fuel fd [] (pos_part (int_of len)) len msec errno s
