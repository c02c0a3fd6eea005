-- ===== src/MiniAnt/Sock.antt =====
-- mini_ant/src/ant_socket.c: sockets. The system calls are functions of the system's state `S`.
use recycle_bin.Prelude.{
  ℕ, zero, suc, ◌+◌, ◌-◌, ◌*◌, ◌/◌, ◌%◌, ◌^◌, Bool, false, Option, none, some, [], ◌∷◌, ◌++◌, ◌==◌,
  if◌then◌else◌, length, take, drop,
}
use recycle_bin.Prelude.Chars.{Bytes}
use recycle_bin.Prelude.Int.{pos, negsuc}
use recycle_bin.Pool.{Errno, eintr, eagain, etimedout, other, Answer, done, failed, Moved}

-- `recv` with and without `MSG_PEEK`, of at most so many bytes; `select` with its microseconds, none for a wait
-- without end; zero is the answer of a wait that ends in vain.
pub record Net {ℓ} (S : Type ℓ) : Type ℓ where
  pub socket : S → Option ℕ × S
  pub fcntl_getfl : ℕ → S → Option ℕ × S
  pub fcntl_setfl : ℕ → ℕ → S → Bool × S
  pub recv : ℕ → ℕ → S → Answer Bytes × S
  pub recv_peek : ℕ → ℕ → S → Answer Bytes × S
  pub send : ℕ → Bytes → S → Answer ℕ × S
  pub select_read : ℕ → Option ℕ → S → Answer ℕ × S
  pub select_write : ℕ → Option ℕ → S → Answer ℕ × S

-- `struct sockaddr_in`, of the family `AF_INET`.
pub record Peer : Type 0 where
  pub sin_port : ℕ
  pub s_addr : ℕ

abbrev pub htons : ℕ → ℕ
htons port = (port % 256) * 256 + (port / 256) % 256

-- `val |= flags`, for one bit.
unfoldable pub or_bit : (val bit : ℕ) → ℕ
or_bit val bit = if (val / 2 ^ bit) % 2 == 0 then val + 2 ^ bit else val

module _ {ℓ} {S : Type ℓ} (net : Net S) where
  -- True is the result 0; `O_NONBLOCK` is the bit `flag`.
  unfoldable pub set_fl : (fd flag : ℕ) → S → Bool × S
  set_fl fd flag s =
      let (ans, s) = net.fcntl_getfl fd s in
      elim ans [ none ↦ (false, s) | some val ↦ net.fcntl_setfl fd (or_bit val flag) s ]

  -- The descriptor, and `*peer`, whose port is in network order.
  unfoldable pub sock_nonblock_create : (nonblock ip port : ℕ) → S → Option (ℕ × Peer) × S
  sock_nonblock_create nonblock ip port s =
      let (ans, s) = net.socket s in
      elim ans [
        | none ↦ (none, s)
        | some fd ↦
            (some (fd, record { sin_port = htons port; s_addr = ip }), (set_fl fd nonblock s).1)
      ]

  unfoldable pub sock_create : (ip port : ℕ) → S → Option (ℕ × Peer) × S
  sock_create ip port s =
      let (ans, s) = net.socket s in
      elim ans [
        | none ↦ (none, s)
        | some fd ↦ (some (fd, record { sin_port = htons port; s_addr = ip }), s)
      ]

  unfoldable pub sock_read : (fd len : ℕ) → (peek : Bool) → S → Answer Bytes × S
  sock_read fd len peek s =
      let (ans, s) = net.select_read fd none s in
      elim ans [
        | failed e ↦ (failed e, s)
        | done n ↦ if peek then net.recv_peek fd len s else net.recv fd len s
      ]

  unfoldable pub sock_read_isready : (fd tv_sec tv_usec : ℕ) → S → Answer ℕ × S
  sock_read_isready fd tv_sec tv_usec s = net.select_read fd (some (tv_sec * 1000000 + tv_usec)) s

  -- `cnt` bytes are left of `len`. What has come, which is the front of the buffer, and the result; `none` is
  -- a run out of fuel, one unit for a turn of the loop.
  unfoldable pub readn_block_loop :
      (fuel fd : ℕ) → Bytes → (cnt len : ℕ) → Errno → S → Option (Bytes × Moved S)
  readn_block_loop zero fd got cnt len errno s = none
  readn_block_loop (suc fuel) fd got zero len errno s =
      some (got, record { rv = pos len; errno = errno; sys = s })
  readn_block_loop (suc fuel) fd got (suc left) len errno s =
      let (ans, s) = net.recv fd (suc left) s in
      elim ans [
        | failed eintr ↦ readn_block_loop fuel fd got (suc left) len eintr s
        | failed eagain ↦
            let (ans, s) = net.select_read fd none s in
            elim ans [
              | failed e ↦ some (got, record { rv = negsuc 0; errno = e; sys = s })
              | done n ↦ readn_block_loop fuel fd got (suc left) len eagain s
            ]
        | failed etimedout ↦ some (got, record { rv = negsuc 0; errno = etimedout; sys = s })
        | failed other ↦ some (got, record { rv = negsuc 0; errno = other; sys = s })
        | done [] ↦ some (got, record { rv = pos (len - suc left); errno = errno; sys = s })
        | done (b ∷ bs) ↦
            readn_block_loop fuel fd (got ++ b ∷ bs) (suc left - length (b ∷ bs)) len errno s
      ]

  unfoldable pub readn_block : (fuel fd len : ℕ) → Errno → S → Option (Bytes × Moved S)
  readn_block fuel fd len errno s = readn_block_loop fuel fd [] len len errno s

  -- As above; also `*my_errno`, where `none` is zero.
  unfoldable pub readn_nonblock_loop :
      (fuel fd : ℕ) → Bytes → (cnt len : ℕ) → Errno → S → Option (Bytes × Option Errno × Moved S)
  readn_nonblock_loop zero fd got cnt len errno s = none
  readn_nonblock_loop (suc fuel) fd got zero len errno s =
      some (got, none, record { rv = pos len; errno = errno; sys = s })
  readn_nonblock_loop (suc fuel) fd got (suc left) len errno s =
      let (ans, s) = net.recv fd (suc left) s in
      elim ans [
        | failed eintr ↦ readn_nonblock_loop fuel fd got (suc left) len eintr s
        | failed eagain ↦
            let (ans, s) = net.select_read fd (some 100) s in
            elim ans [
              | failed e ↦ some (got, none, record { rv = negsuc 0; errno = e; sys = s })
              | done zero ↦
                  some (
                    got,
                    some eagain,
                    record { rv = pos (len - suc left); errno = eagain; sys = s },
                  )
              | done (suc n) ↦ readn_nonblock_loop fuel fd got (suc left) len eagain s
            ]
        | failed etimedout ↦ some (got, none, record { rv = negsuc 0; errno = etimedout; sys = s })
        | failed other ↦ some (got, none, record { rv = negsuc 0; errno = other; sys = s })
        | done [] ↦ some (got, none, record { rv = pos (len - suc left); errno = errno; sys = s })
        | done (b ∷ bs) ↦
            readn_nonblock_loop fuel fd (got ++ b ∷ bs) (suc left - length (b ∷ bs)) len errno s
      ]

  unfoldable pub readn_nonblock :
      (fuel fd len : ℕ) → Errno → S → Option (Bytes × Option Errno × Moved S)
  readn_nonblock fuel fd len errno s = readn_nonblock_loop fuel fd [] len len errno s

  unfoldable pub writen_nonblock_loop :
      (fuel fd : ℕ) → Bytes → (cnt len : ℕ) → Errno → S → Option (Moved S)
  writen_nonblock_loop zero fd bp cnt len errno s = none
  writen_nonblock_loop (suc fuel) fd bp zero len errno s =
      some (record { rv = pos len; errno = errno; sys = s })
  writen_nonblock_loop (suc fuel) fd bp (suc left) len errno s =
      let (ans, s) = net.send fd (take (suc left) bp) s in
      elim ans [
        | failed eintr ↦ writen_nonblock_loop fuel fd bp (suc left) len eintr s
        | failed eagain ↦
            let (ans, s) = net.select_write fd none s in
            elim ans [
              | failed e ↦ some (record { rv = negsuc 0; errno = e; sys = s })
              | done n ↦ writen_nonblock_loop fuel fd bp (suc left) len eagain s
            ]
        | failed etimedout ↦ some (record { rv = negsuc 0; errno = etimedout; sys = s })
        | failed other ↦ some (record { rv = negsuc 0; errno = other; sys = s })
        | done zero ↦ some (record { rv = pos (len - suc left); errno = errno; sys = s })
        | done (suc n) ↦
            writen_nonblock_loop fuel fd (drop (suc n) bp) (suc left - suc n) len errno s
      ]

  unfoldable pub writen_nonblock : (fuel fd : ℕ) → Bytes → (len : ℕ) → Errno → S → Option (Moved S)
  writen_nonblock fuel fd bp len errno s = writen_nonblock_loop fuel fd bp len len errno s
