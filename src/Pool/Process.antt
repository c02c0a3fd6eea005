-- ===== src/Pool/Process.antt =====
-- processpool/src/processpool.c: the pool, its processes and its tasks. The bytes of a `process_arg_t` with
-- the type 0 are those that `pack` gives; the child's side of `fork` is `pp_pool_process_loop`.
use recycle_bin.Prelude.{
  ℕ, zero, suc, ◌+◌, ◌/◌, ◌%◌, ◌^◌, Bool, true, false, not, ◌&&◌, Option, none, some, List, [], ◌∷◌,
  ◌++◌, ◌==◌, if◌then◌else◌, length, drop, Run, ok, fault, ◌>>=◌, from_option,
}
use recycle_bin.Prelude.Chars.{Bytes}
use recycle_bin.Prelude.Int.{ℤ, pos, negsuc, eq_ℤ, neg, ◌-ℤ◌, ltb_ℤ, unsigned32, pos_part}
use recycle_bin.Pool.{Errno, eintr, eagain, etimedout, other, Io}
use mathlib.Core.Option
use recycle_bin.Pool.Channel.{writen_timedwait, readn_timedwait}

-- `fd` is the pair of `fd[PARENT]` and `fd[CHILD]`.
pub record PpPool : Type 0 where
  pub fd : ℕ × ℕ
  pub max_process : ℤ
  pub min_process : ℤ
  pub run_process : ℤ
  pub flags : ℤ
  pub ms : ℤ

-- Bit `bit` of the flags: `flags & (1 << bit)`.
unfoldable pub has_flag : ℤ → ℕ → Bool
has_flag flags bit = not ((unsigned32 flags / 2 ^ bit) % 2 == 0)

abbrev pub pp_auto_add : ℕ
pp_auto_add = 0

abbrev pub pp_min_create : ℕ
pp_min_create = 3

abbrev pub pp_max_create : ℕ
pp_max_create = 4

abbrev pub pp_null : ℤ
pp_null = negsuc 1

-- `none` is the result -1.
unfoldable pub pp_pool_need_nprocess_gen : PpPool → Option ℤ
pp_pool_need_nprocess_gen pool =
    if ltb_ℤ pool.max_process pool.min_process
    then none
    else if ltb_ℤ pool.min_process (pos 0)
    then none
    else if has_flag pool.flags pp_min_create && has_flag pool.flags pp_max_create
    then none
    else let nprocess =
        if has_flag pool.flags pp_min_create then pool.min_process else pool.max_process in
      if ltb_ℤ nprocess (pos 0) then none else some nprocess

-- The arguments as they come; a list without `PP_NULL` is read past its end.
unfoldable pub pp_pool_args_set : (i : ℕ) → PpPool → List ℤ → Run PpPool
pp_pool_args_set i pool [] = fault
pp_pool_args_set i pool (val ∷ args) =
    let pool' =
      if i == 0
      then record pool { min_process = val }
      else if i == 1
      then record pool { flags = val }
      else if i == 2
      then record pool { ms = val }
      else pool in
    let rest = pp_pool_args_set (i + 1) pool' args in if eq_ℤ val pp_null then ok pool else rest

-- The system calls on descriptors and processes. `fork` answers the parent; zero is not its answer there.
pub record Proc {ℓ} (S : Type ℓ) : Type ℓ where
  pub socketpair : S → Option (ℕ × ℕ) × S
  pub fcntl_getfl : ℕ → S → Option ℕ × S
  pub fcntl_setfl : ℕ → ℕ → S → Bool × S
  pub close : ℕ → S → S
  pub fork : S → Option ℕ × S

-- `val |= flags`, for one bit.
unfoldable pub or_bit : (val bit : ℕ) → ℕ
or_bit val bit = if (val / 2 ^ bit) % 2 == 0 then val + 2 ^ bit else val

module _ {ℓ} {S : Type ℓ} (sys : Proc S) where
  -- True is the result 0. `O_NONBLOCK` is the bit `flag`.
  unfoldable pub set_fl : (fd flag : ℕ) → S → Bool × S
  set_fl fd flag s =
      let (ans, s) = sys.fcntl_getfl fd s in
      elim ans [ none ↦ (false, s) | some val ↦ sys.fcntl_setfl fd (or_bit val flag) s ]

  unfoldable pub pp_pool_process_add_core : PpPool → S → ℤ × PpPool × S
  pp_pool_process_add_core pool s =
      if ltb_ℤ pool.max_process pool.run_process
      then (pos 0, pool, s)
      else let (ans, s) = sys.fork s in
        elim ans [
          | none ↦ (negsuc 0, pool, s)
          | some pid ↦ (pos pid, record pool { run_process = pool.run_process -ℤ negsuc 0 }, s)
        ]

  -- The loop to `n`, with what is left of it.
  unfoldable pub addn_loop : ℕ → PpPool → S → ℤ × PpPool × S
  addn_loop zero pool s = (pos 0, pool, s)
  addn_loop (suc n) pool s =
      (let (pid, pool, s) = pp_pool_process_add_core pool s in
        let rest = addn_loop n pool s in if eq_ℤ pid (negsuc 0) then (pid, pool, s) else rest)

  unfoldable pub pp_pool_process_addn : PpPool → ℤ → S → ℤ × PpPool × S
  pp_pool_process_addn pool n s = addn_loop (pos_part n) pool s

  unfoldable pub pp_pool_free : PpPool → S → S
  pp_pool_free pool s = sys.close pool.fd.1 (sys.close pool.fd.0 s)

  -- How `pp_pool_new` ends: with a pool, with `NULL`, or by `exit(1)`.
  pub data Created : Type 0 where
    made : PpPool → Created
    null : Created
    exited : Created

  unfoldable pub pool_failed : PpPool → S → Created × S
  pool_failed pool s = (null, sys.close pool.fd.0 (sys.close pool.fd.1 s))

  -- From `va_start` on.
  unfoldable pub pool_filled : PpPool → List ℤ → S → Run (Created × S)
  pool_filled pool args s = do
    pool ← pp_pool_args_set 0 pool args
    elim (pp_pool_need_nprocess_gen pool) [
      | none ↦ ok (pool_failed pool s)
      | some nprocess ↦
          (let (rv, pool, s) = pp_pool_process_addn pool nprocess s in
            ok (if eq_ℤ rv (negsuc 0) then (exited, s) else (made pool, s)))
    ]

  -- `fresh` is the pool as `malloc` returns it, with whatever its fields hold.
  unfoldable pub pp_pool_new : (nonblock : ℕ) → Option PpPool → ℤ → List ℤ → S → Run (Created × S)
  pp_pool_new nonblock fresh np args s = if not (ltb_ℤ (pos 0) np) then ok (null, s) else do
    pool ← from_option fresh
    let pool = record pool { max_process = np; ms = pos 500 }
    let (ans, s) = sys.socketpair s in
        elim ans [
          | none ↦ ok (null, s)
          | some fd ↦
              let pool = record pool { fd = fd } in
              let (ans, s) = set_fl fd.0 nonblock s in
              elim ans [
                | false ↦ ok (pool_failed pool s)
                | true ↦
                    let (ans, s) = set_fl fd.1 nonblock s in
                    elim ans [ false ↦ ok (pool_failed pool s) | true ↦ pool_filled pool args s ]
              ]
        ]

-- `ETIMEDOUT`
unfoldable pub timed_out : Errno → Bool
timed_out etimedout = true
timed_out eintr = false
timed_out eagain = false
timed_out other = false

pub record Added {ℓ} (S : Type ℓ) : Type ℓ where
  pub result : ℤ
  pub pool : PpPool
  pub errno : Errno
  pub sys : S

module _ {ℓ} {S : Type ℓ} (io : Io S) (sys : Proc S) (pack : ℕ → ℕ → Bytes) where
  -- The loop of `pp_pool_add` with `ntry` tries left, of the bytes `a`.
  unfoldable pub add_loop : (fuel ntry : ℕ) → PpPool → Bytes → Errno → S → Option (Added S)
  add_loop fuel zero pool a errno s =
      some (record { result = pos 0; pool = pool; errno = errno; sys = s })
  add_loop fuel (suc ntry) pool a errno s =
      elim (writen_timedwait io fuel pool.fd.0 a (length a) pool.ms errno s) [
        | none ↦ none
        | some w ↦
            let again = add_loop fuel ntry pool a w.errno w.sys in
            if eq_ℤ w.rv (negsuc 0)
            then (if not (timed_out w.errno)
                then some (record { result = negsuc 0; pool = pool; errno = w.errno; sys = w.sys })
                else if has_flag pool.flags pp_auto_add
                then (let (rv, pool, s) = pp_pool_process_addn sys pool (pos 1) w.sys in
                    let later = add_loop fuel ntry pool a w.errno s in
                    if eq_ℤ rv (negsuc 0)
                    then some (record { result = negsuc 0; pool = pool; errno = w.errno; sys = s })
                    else later)
                else some (record { result = pos 1; pool = pool; errno = w.errno; sys = w.sys }))
            else again
      ]

  unfoldable pub pp_pool_add : (fuel : ℕ) → PpPool → (func arg : ℕ) → Errno → S → Option (Added S)
  pp_pool_add fuel pool func arg errno s = add_loop fuel 2 pool (pack func arg) errno s

  -- A child: the structures whose function it has run, in order, till it ends by `exit(0)`. A read that
  -- ends early overwrites only the front of the structure.
  unfoldable pub pp_pool_process_loop :
      (fuel : ℕ) → PpPool → (arg : Bytes) → Errno → S → Option (List Bytes × S)
  pp_pool_process_loop zero pool arg errno s = none
  pp_pool_process_loop (suc fuel) pool arg errno s =
      elim (readn_timedwait io fuel pool.fd.1 (length arg) (pool.ms -ℤ neg pool.ms) errno s) [
        | none ↦ none
        | some (got, r) ↦
            let arg' = got ++ drop (length got) arg in
            let later = pp_pool_process_loop fuel pool arg' r.errno r.sys in
            if ltb_ℤ (pos 0) r.rv
            then Option.map (λ l. (arg' ∷ l.0, l.1)) later
            else some ([], pp_pool_free sys pool r.sys)
      ]
