-- ===== src/Pool/Twice.antt =====
-- processpool/src/processpool.c: what `pp_pool_add` sends.
use recycle_bin.Prelude.{ℕ, suc, ◌^◌, ◌<◌, ◌≡◌, refl, ap, ◌∙◌, some, ◌++◌, length}
use recycle_bin.Prelude.Chars.{Bytes}
use recycle_bin.Prelude.Int.{pos}
use recycle_bin.Pool.{Errno, Io, Moved}
use recycle_bin.Pool.Channel.{writen_timedwait}
use recycle_bin.Pool.Process.{PpPool, Proc, Added, pp_pool_add, add_loop}
use recycle_bin.Pool.Writes.{IsStream, Progresses, writen_timedwait_complete}

-- A try whose write succeeds is followed by the next try.
next_try :
    {S : Type 0} (io : Io S) (sys : Proc S) (pack : ℕ → ℕ → Bytes) (fuel ntry : ℕ) (pool : PpPool)
    (a : Bytes) (errno : Errno) (s : S) (w : Moved S) (n : ℕ)
    → writen_timedwait io fuel pool.fd.0 a (length a) pool.ms errno s ≡ some w
    → w.rv ≡ pos n
    → add_loop io sys pack fuel (suc ntry) pool a errno s
      ≡ add_loop io sys pack fuel ntry pool a w.errno w.sys
unfolding add_loop
next_try io sys pack fuel ntry pool a errno s w n run rv = rw (add_loop, run, rv) refl

-- On a stream socket that always takes something, `pp_pool_add` reports success and has sent the task
-- twice, where it is to be sent once; for a fuel above the length of a task, which is below 2 ^ 31.
pub pp_pool_add-twice :
    {S : Type 0} (io : Io S) (sys : Proc S) (pack : ℕ → ℕ → Bytes) (sent : S → Bytes)
    → IsStream io sent
    → Progresses io
    → (fuel : ℕ) (pool : PpPool) (func arg : ℕ) (errno : Errno) (s : S)
    → length (pack func arg) < fuel
    → length (pack func arg) < 2 ^ 31
    → (r : Added S) × (pp_pool_add io sys pack fuel pool func arg errno s ≡ some r)
      × (r.result ≡ pos 0)
      × (sent r.sys ≡ sent s ++ pack func arg ++ pack func arg)
unfolding pp_pool_add add_loop
pp_pool_add-twice io sys pack sent stream progress fuel pool func arg errno s f lt =
    let a = pack func arg in
    let fd = pool.fd.0 in
    let (w, run, rv, once) =
      writen_timedwait_complete io sent stream progress fuel fd a pool.ms errno s f lt in
    let (w', run', rv', again) =
      writen_timedwait_complete io sent stream progress fuel fd a pool.ms w.errno w.sys f lt in
    (
      record { result = pos 0; pool = pool; errno = w'.errno; sys = w'.sys },
      next_try io sys pack fuel 1 pool a errno s w _ run rv
          ∙ next_try io sys pack fuel 0 pool a w.errno w.sys w' _ run' rv',
      refl,
      again ∙ ap (λ x. x ++ a) once,
    )
