-- ===== src/Pool.antt =====
-- processpool/src/processpool.c: a pool of processes that take their tasks from a socket pair. The system
-- calls are functions of the system's state `S`; a call either answers or fails with an `errno`.
pub mod Channel
pub mod Process
pub mod Writes
pub mod Twice
pub mod Examples
use recycle_bin.Prelude.{
  ℕ, zero, suc, ◌+◌, ◌-◌, ◌*◌, ◌/◌, ◌%◌, ◌^◌, ◌≤◌, ◌<◌, ◌≡◌, refl, sym, ap, ◌∙◌, ◌≢◌, ◌↔◌, ◌⊎◌, inl,
  inr, Bool, true, false, not, ◌&&◌, ◌||◌, Option, none, some, List, [], ◌∷◌, ◌++◌, map,
  append_assoc, append-nil, arith, ltb, leb, ◌==◌, if◌then◌else◌, ltb→lt, lt→ltb, leb→le, le→leb,
  tests, ==_iff, Bool-cases, Option-cases, length, get_elem?, set, take, drop, replicate,
  length-append, length-set, length-take, length-drop, length-replicate, get_elem?-lt,
  get_elem?-set_self, get_elem?-set_ne, take-length-append, drop-length-append, take-length, All,
  Run, ok, fault, ◌>>=◌, ◌>>◌, assert, from_option, Returns, bind_ok, bind_regroup,
}
use recycle_bin.Prelude.Chars.{Bytes, IsText, cstr, is_space, is_digit, to_lower}
use recycle_bin.Prelude.Int.{
  ℤ, pos, negsuc, eq_ℤ, eq_ℤ_iff, schar, uchar, neg, ◌-ℤ◌, ltb_ℤ, signed32, unsigned32, pos_part,
  neg_part, schar-injective,
}

pub data Errno : Type 0 where
  eintr : Errno
  eagain : Errno
  etimedout : Errno
  other : Errno

pub data Answer {ℓ} (A : Type ℓ) : Type ℓ where
  done : A → Answer A
  failed : Errno → Answer A

-- The calls of both directions on a socket: `read` and `write` of at most so many bytes, and `select`,
-- with the descriptor and the microseconds to wait.
pub record Io {ℓ} (S : Type ℓ) : Type ℓ where
  pub sys_read : ℕ → ℕ → S → Answer Bytes × S
  pub sys_write : ℕ → Bytes → S → Answer ℕ × S
  pub select_read : ℕ → Option ℤ → S → Answer ℕ × S
  pub select_write : ℕ → Option ℤ → S → Answer ℕ × S

-- What a transfer leaves: its result, `errno`, and the system.
pub record Moved {ℓ} (S : Type ℓ) : Type ℓ where
  pub rv : ℤ
  pub errno : Errno
  pub sys : S

-- `(msec != -1) ? &tv : NULL`, where `tv_usec = msec`
unfoldable pub wait_time : ℤ → Option ℤ
wait_time msec = if eq_ℤ msec (negsuc 0) then none else some msec
