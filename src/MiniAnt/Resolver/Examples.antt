-- ===== src/MiniAnt/Resolver/Examples.antt =====
-- mini_ant/src/ant_dns.c: `thread_dns_main` with one name in the queue, on a system that logs what is sent.
use recycle_bin.Prelude.{
  ◌≡◌, refl, true, false, none, some, List, [], ◌∷◌, ◌++◌, arith, length, if◌then◌else◌, ◌==◌, ok,
  Returns,
}
use recycle_bin.Prelude.Chars.{Bytes}
use recycle_bin.Prelude.Int.{pos}
use recycle_bin.Pool.{done, failed, other}
use recycle_bin.MiniAnt.Sock.{Net}
use recycle_bin.MiniAnt.Poll.{Poll, connected}
use recycle_bin.MiniAnt.Queue.{Heap}
use recycle_bin.MiniAnt.Queue.Chain.{Slots}
use recycle_bin.MiniAnt.Queue.{queue_put}
use recycle_bin.MiniAnt.Hash.{ant_hash_get}
use recycle_bin.MiniAnt.Queue.Refines.{IsQueue, SameOutside, queue_put-append}
use recycle_bin.MiniAnt.Crawl.{Total}
use recycle_bin.MiniAnt.Crawl.Held.{IsTotal}
use recycle_bin.MiniAnt.Crawl.Flow.{IsStart, ant_total_context_init-IsTotal}
use recycle_bin.MiniAnt.Resolver.{Resolver}
use recycle_bin.MiniAnt.Resolver.Sends.{Call, Labels}

abbrev Log : Type 0
Log = List Call

abbrev net : Net Log
net = record {
  socket = λ s. (some 5, s);
  fcntl_getfl = λ fd s. (some 0, s);
  fcntl_setfl = λ fd val s. (true, s);
  recv = λ fd n s. (failed other, s);
  recv_peek = λ fd n s. (failed other, s);
  send = λ fd b s. (done (length b), s ++ (fd, (b, done (length b))) ∷ []);
  select_read = λ fd t s. (done 1, s);
  select_write = λ fd t s. (done 1, s);
}

abbrev poll : Poll Log
poll = record {
  epoll_create = λ s. (true, s);
  connect = λ fd p s. (connected, s);
  epoll_add = λ fd w s. (true, s);
  epoll_mod = λ fd w s. (true, s);
  epoll_wait = λ n t s. (some [], s);
  close = λ fd s. s;
  time = λ s. 0;
}

abbrev no_heap : Heap
no_heap p = none

started :
    (w : Total) × IsStart w
    × IsTotal w [] [] (λ e. [])
    × ((d : Bytes) → ant_hash_get w.cache_dns d ≡ ok none)
    × (w.cache_dns.length ≡ 0)
started = ant_total_context_init-IsTotal no_heap

abbrev start : Total
start = started.0

abbrev none_waits : Bytes → Slots
none_waits e = []

abbrev ab : Labels
ab = (97 ∷ 98 ∷ [], [])

put :
    Returns
      (λ (q, g). IsQueue g q ((4, 3) ∷ []) × SameOutside ((4, 3) ∷ []) start.heap g)
      (queue_put 4 3 start.queue_dns start.heap)
put = queue_put-append start.heap start.queue_dns [] 4 3 started.2.asked (omega arith) refl

abbrev asked : Total
asked = record start {
  queue_dns = put.0.0;
  heap = put.0.1;
  names = λ p. if p == 3 then some (97 ∷ 98 ∷ []) else none;
}

abbrev resolver : Resolver Log
resolver = record {
  cache_sock = 5 ∷ 0 ∷ [];
  nsock = pos 2;
  check = false;
  id = 0;
  total = asked;
  sys = [];
}
