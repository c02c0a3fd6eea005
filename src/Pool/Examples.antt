-- ===== src/Pool/Examples.antt =====
-- Tests of processpool/src/processpool.c on a socket whose `write` takes all it is given.
use recycle_bin.Prelude.{
  ℕ, ◌≡◌, refl, sym, ap, ◌∙◌, true, some, [], ◌∷◌, ◌++◌, arith, length, take, take-length,
}
use recycle_bin.Prelude.Chars.{Bytes}
use recycle_bin.Prelude.Int.{pos}
use recycle_bin.Pool.{Errno, eagain, other, Answer, done, failed, Io, Moved}
use recycle_bin.Pool.Channel.{writen_timedwait}
use recycle_bin.Pool.Process.{PpPool, Proc, Added, pp_pool_add}
use recycle_bin.Pool.Writes.{
  IfSome, SentFront, IsStream, Progresses, writen_timedwait-SentFront, writen_timedwait_complete,
}
use recycle_bin.Pool.Twice.{pp_pool_add-twice}

abbrev open_io : Io Bytes
open_io = record {
  sys_read = λ fd n s. (failed eagain, s);
  sys_write = λ fd bs s. (done (length bs), s ++ bs);
  select_read = λ fd t s. (done 1, s);
  select_write = λ fd t s. (done 1, s);
}

abbrev idle_proc : Proc Bytes
idle_proc = record {
  socketpair = λ s. (some (3, 4), s);
  fcntl_getfl = λ fd s. (some 2, s);
  fcntl_setfl = λ fd fl s. (true, s);
  close = λ fd s. s;
  fork = λ s. (some 77, s);
}

abbrev answer : Answer ℕ → ℕ
answer (done n) = n
answer (failed e) = 0

not_failed : {A : Type 0} (n : ℕ) (e : Errno) → done n ≡ failed e → A
not_failed n e h = cc h

open_io-IsStream : IsStream open_io (λ s. s)
unfolding IsStream
open_io-IsStream = (
  λ fd bs s n run.
      let same : length bs ≡ n = ap answer run in
      (omega arith, ap (λ xs. s ++ xs) (sym (take-length bs) ∙ ap (λ m. take m bs) same)),
  λ fd bs s e run. not_failed _ _ run,
  λ fd t s. refl,
)

open_io-Progresses : Progresses open_io
unfolding Progresses
open_io-Progresses fd b bs s = (length bs, refl)

abbrev a_pool : PpPool
a_pool = record {
  fd = (3, 4);
  max_process = pos 4;
  min_process = pos 1;
  run_process = pos 1;
  flags = pos 1;
  ms = pos 500;
}

abbrev pack : ℕ → ℕ → Bytes
pack func arg = 0 ∷ func ∷ arg ∷ []

writen_timedwait-SentFront_example :
    IfSome
      (SentFront (λ s. s) (9 ∷ []) (1 ∷ 2 ∷ []) 0)
      (writen_timedwait open_io 5 3 (1 ∷ 2 ∷ []) 2 (pos 500) other (9 ∷ []))
writen_timedwait-SentFront_example =
    writen_timedwait-SentFront open_io (λ s. s) open_io-IsStream 5 3 (1 ∷ 2 ∷ []) (pos 500) other
      (9 ∷ []) (omega arith)

writen_timedwait_complete_example :
    (w : Moved Bytes) × (writen_timedwait open_io 5 3 (1 ∷ 2 ∷ []) 2 (pos 500) other (9 ∷ [])
      ≡ some w)
    × (w.rv ≡ pos 2)
    × (w.sys ≡ (9 ∷ []) ++ 1 ∷ 2 ∷ [])
writen_timedwait_complete_example =
    writen_timedwait_complete open_io (λ s. s) open_io-IsStream open_io-Progresses 5 3 (1 ∷ 2 ∷ [])
      (pos 500) other (9 ∷ []) (omega arith) (omega arith)

pp_pool_add-twice_example :
    (r : Added Bytes) × (pp_pool_add open_io idle_proc pack 5 a_pool 6 7 other [] ≡ some r)
    × (r.result ≡ pos 0)
    × (r.sys ≡ [] ++ pack 6 7 ++ pack 6 7)
pp_pool_add-twice_example =
    pp_pool_add-twice open_io idle_proc pack (λ s. s) open_io-IsStream open_io-Progresses 5 a_pool 6
      7 other [] (omega arith) (omega arith)
