-- ===== src/MiniAnt/Loop/Examples.antt =====
-- mini_ant/src/mini_ant.c: `http_event_loop` with one download that is ready; ant_array.c at small arrays.
use recycle_bin.Prelude.{
  ℕ, ◌<◌, ◌≡◌, refl, true, false, Option, none, some, [], ◌∷◌, arith, length, replicate,
  if◌then◌else◌, ◌==◌, Run, ok, fault, Returns,
}
use recycle_bin.Prelude.Chars.{Bytes}
use recycle_bin.Prelude.Int.{pos}
use recycle_bin.Pool.{done, failed, other}
use recycle_bin.MiniAnt.Sock.{Net}
use recycle_bin.MiniAnt.Poll.{Poll, connected}
use recycle_bin.MiniAnt.Array.{AntArray, ant_array_put}
use recycle_bin.MiniAnt.Array.Elements.{IsArray, element, ant_array_put-get}
use recycle_bin.MiniAnt.Array.Growth.{ant_array_put-multiple}
use recycle_bin.MiniAnt.Queue.{Ptr, Heap, queue_put}
use recycle_bin.MiniAnt.Queue.Chain.{Slots}
use recycle_bin.MiniAnt.Queue.Refines.{IsQueue, SameOutside, queue_put-append}
use recycle_bin.MiniAnt.Hash.{AntHash, ant_hash_get}
use recycle_bin.MiniAnt.Crawl.{Down, Total, no_ip}
use recycle_bin.MiniAnt.Crawl.Filter.{KeyAt}
use recycle_bin.MiniAnt.Crawl.Held.{IsTotal}
use recycle_bin.MiniAnt.Crawl.Flow.{IsStart, ant_total_context_init-IsTotal}
use recycle_bin.MiniAnt.Loop.{Host, broken, Options, Crawler}

-- Every socket has the descriptor 5.
abbrev net : Net (Unit {0})
net = record {
  socket = λ s. (some 5, s);
  fcntl_getfl = λ fd s. (some 0, s);
  fcntl_setfl = λ fd val s. (true, s);
  recv = λ fd n s. (failed other, s);
  recv_peek = λ fd n s. (failed other, s);
  send = λ fd b s. (done (length b), s);
  select_read = λ fd t s. (done 1, s);
  select_write = λ fd t s. (done 1, s);
}

abbrev poll : Poll (Unit {0})
poll = record {
  epoll_create = λ s. (true, s);
  connect = λ fd p s. (connected, s);
  epoll_add = λ fd w s. (true, s);
  epoll_mod = λ fd w s. (true, s);
  epoll_wait = λ n t s. (some [], s);
  close = λ fd s. s;
  time = λ s. 0;
}

abbrev host : Host (Unit {0})
host = record {
  net = net;
  poll = poll;
  nonblock = 11;
  chdir_dump = λ s. (true, s);
  chdir_up = λ s. s;
  exists = λ s b. false;
  open_file = λ b s. (none, s);
  write = λ fd b s. s;
  looks_utf8 = λ b n. pos 1;
  iconv = λ c t. broken;
  stamp = λ s. [];
  info = λ s. 9;
  buf_got = λ s. true;
  cookie_got = λ s. true;
  page_got = λ n. true;
  elem_got = λ s. true;
  malloc = λ n. none;
  calloc = λ n. none;
  calloc_array = λ n k. none;
  line = λ s. [];
}

abbrev no_heap : Heap
no_heap p = none

started :
    (w : Total) × IsStart w
    × IsTotal w [] [] (λ e. [])
    × ((d : Bytes) → ant_hash_get w.cache_dns d ≡ ok none)
    × (w.cache_dns.length ≡ 0)
started = ant_total_context_init-IsTotal no_heap

abbrev start : Total
start = started.0

abbrev none_waits : Bytes → Slots
none_waits e = []

put :
    Returns
      (λ (q, g). IsQueue g q ((2, 1) ∷ []) × SameOutside ((2, 1) ∷ []) start.heap g)
      (queue_put 2 1 start.down start.heap)
put = queue_put-append start.heap start.down [] 2 1 started.2.ready (omega arith) refl

abbrev one_down : Ptr → Option Down
one_down p =
    if p == 1 then some (record { url = some (97 ∷ []); ip = no_ip; ip2 = 7; port = 0 }) else none

abbrev ready : Total
ready = record start { down = put.0.0; heap = put.0.1; downs = one_down }

abbrev no_urls {ℓ} : {A : Type ℓ} → AntHash A
no_urls = record {
  hash = [];
  ksize = 0;
  count = 0;
  m = 0;
  length = 0;
  ant_hash_func = λ a b c. fault;
  cmp = none;
}

abbrev socks : AntArray
socks = record { array = replicate 400 0; ncurr = pos 0; size = 8; length = 50; flag = 1 }

abbrev crawler : Crawler (Unit {0})
crawler = record {
  total = ready;
  uniq = no_urls;
  cache_url = no_urls;
  socks = socks;
  infos = λ p. none;
  nconn = pos 3;
  should_down = pos 3;
  total_down = pos 0;
  queue_num = 1;
  sys = tt;
}

abbrev four_conns : Options
four_conns = record { debug = false; maxconn = pos 4 }

abbrev add_nothing : Bytes → AntHash KeyAt × Total → Run (AntHash KeyAt × Total)
add_nothing url w = ok w

-- Two elements of two bytes.
abbrev pair : AntArray
pair = record { array = 1 ∷ 2 ∷ 3 ∷ 4 ∷ []; ncurr = pos 2; size = 2; length = 2; flag = 1 }

pair-IsArray : IsArray pair
pair-IsArray = record { full = refl }

abbrev zeros : ℕ → ℕ → Option Bytes
zeros n size = some (replicate 12 0)

ant_array_put-get_example :
    Returns
      (λ (got, a').
        (got ≡ true)
        × IsArray a'
        × (a'.length ≡ 2)
        × (a'.size ≡ 2)
        × ((j : ℕ) → j < 2 → element a' j ≡ (if j == 1 then ok (8 ∷ 9 ∷ []) else element pair j)))
      (ant_array_put zeros pair 1 (8 ∷ 9 ∷ []))
ant_array_put-get_example =
    ant_array_put-get zeros pair 1 (8 ∷ 9 ∷ []) pair-IsArray (omega arith) refl

ant_array_put-multiple_example : ant_array_put zeros pair 6 (8 ∷ 9 ∷ []) ≡ fault
ant_array_put-multiple_example =
    ant_array_put-multiple zeros pair 1 (8 ∷ 9 ∷ []) (replicate 12 0) pair-IsArray (omega arith)
      (omega arith) refl refl refl
