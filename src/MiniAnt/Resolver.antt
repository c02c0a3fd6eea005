-- ===== src/MiniAnt/Resolver.antt =====
-- mini_ant/src/ant_dns.c: `thread_dns_main`, which sends the questions that the crawler has queued and hands it
-- the answers. The mutexes are left out: each queue operation and each answer is one step.
pub mod Sends
mod Examples
use recycle_bin.Prelude.{
  ℕ, zero, suc, ◌+◌, ◌-◌, ◌%◌, ◌^◌, Bool, true, false, not, ◌&&◌, ◌||◌, Option, none, some, List,
  [], ◌∷◌, ◌++◌, ◌==◌, if◌then◌else◌, get_elem?, replicate, from_option,
}
use recycle_bin.Prelude.Chars.{Bytes}
use recycle_bin.Prelude.Int.{ℤ, pos, negsuc, eq_ℤ, ltb_ℤ, ◌-ℤ◌}
use recycle_bin.Pool.{Errno, eintr, eagain, etimedout, other, done, failed}
use recycle_bin.MiniAnt.Sock.{Net, sock_nonblock_create}
use recycle_bin.MiniAnt.Poll.{
  Event, Poll, connected, in_progress, refused, Stop, failed_return, exit_success, exit_failure,
  Did, goes, stops, bad, spent, ◌>>=◌, run, fueled,
}
use recycle_bin.MiniAnt.Queue.{Ptr, queue_empty, queue_get}
use recycle_bin.MiniAnt.Dns.{DnsResponse}
use recycle_bin.MiniAnt.Dns.Transfer.{dns_recv_packet, dns_send_packet, clean_fd, get_dns_ip}
use recycle_bin.MiniAnt.Crawl.{Total}
use recycle_bin.MiniAnt.Crawl.Release.{process_cache_dns}

-- `MAX_NCONN` and `DNS_MAX_EVENT`.
abbrev pub max_nconn : ℕ
max_nconn = 2

abbrev pub dns_max_event : ℕ
dns_max_event = 4

-- What the loop keeps, with the counter `id` of `dns_send_packet` and what it shares with the crawler.
pub record Resolver {ℓ} (S : Type ℓ) : Type ℓ where
  pub cache_sock : List ℕ
  pub nsock : ℤ
  pub check : Bool
  pub id : ℕ
  pub total : Total
  pub sys : S

-- `memset(&response, '\0', sizeof(response))`
abbrev pub no_response : DnsResponse
no_response = record { host_name = []; ip = replicate 4 0; flags = 0 }

-- The first place that is free takes the socket, if there is one.
unfoldable pub reserve : ℕ → List ℕ → List ℕ
reserve sock [] = []
reserve sock (c ∷ cs) = if c == 0 then sock ∷ cs else c ∷ reserve sock cs

-- `free(name)`
unfoldable pub forget : (Ptr → Option Bytes) → Ptr → Ptr → Option Bytes
forget names p a = if a == p then none else names a

-- `(rc == 0) || (rc == -1 && errno != EAGAIN)`
unfoldable pub is_eagain : Errno → Bool
is_eagain eagain = true
is_eagain eintr = false
is_eagain etimedout = false
is_eagain other = false

unfoldable pub is_lost : ℤ → Errno → Bool
is_lost rc errno = eq_ℤ rc (pos 0) || (eq_ℤ rc (negsuc 0) && not (is_eagain errno))

-- `ip` is the server's address. `got` is whether `malloc` gives memory for a question, `head` and `res` what the
-- arrays of `dns_recv_packet` held, `nonblock` the bit `O_NONBLOCK`.
module _ {ℓ} {S : Type ℓ} (net : Net S) (poll : Poll S) (nonblock ip : ℕ) (got : S → Bool)
    (head res : S → Bytes) where
  -- One turn of `while (nsock < MAX_NCONN)`.
  unfoldable pub open_sock : Resolver S → Did (Resolver S)
  open_sock r =
      let (made, s) = sock_nonblock_create net nonblock ip 53 r.sys in
      elim made [
        | none ↦ stops failed_return
        | some (sock, peer) ↦
            let (answer, s) = poll.connect sock peer s in
            let (added, s) = poll.epoll_add sock true s in
            let next : Did (Resolver S) =
              if added
              then goes (record r { nsock = r.nsock -ℤ negsuc 0; sys = s })
              else stops failed_return in
            elim answer [ connected ↦ next | in_progress ↦ next | refused ↦ stops failed_return ]
      ]

  unfoldable pub open_socks : (fuel : ℕ) → Resolver S → Did (Resolver S)
  open_socks zero r = spent
  open_socks (suc fuel) r =
      let rest = (do r ← open_sock r; open_socks fuel r) in
      if ltb_ℤ r.nsock (pos max_nconn) then rest else goes r

  -- `clean_fd`, with its `close`.
  unfoldable pub drop_sock : ℕ → Resolver S → Resolver S
  drop_sock sock r =
      let (cache, n) = clean_fd sock r.cache_sock r.nsock in
      record r { cache_sock = cache; nsock = n; sys = poll.close sock r.sys }

  -- What is done where `EPOLLIN` is set: whether the socket was closed.
  unfoldable pub on_readable : (fuel sock : ℕ) → Errno → Resolver S → Did (Bool × Resolver S)
  on_readable fuel sock errno r = do
    (rc, response, w) ←
        fueled (dns_recv_packet net fuel sock (head r.sys) (res r.sys) no_response errno r.sys)
    let r = record r { sys = w.sys }
    if is_lost rc w.errno then goes (true, drop_sock sock r) else do
      total ← run (process_cache_dns (poll.time r.sys) response r.total)
      goes (false, record r { total = total })

  -- Where `EPOLLOUT` is set.
  unfoldable pub on_writable : (sock : ℕ) → Resolver S → Did (Resolver S)
  on_writable sock r =
      let (changed, s) = poll.epoll_mod sock false r.sys in
      if changed
      then goes (record r { cache_sock = reserve sock r.cache_sock; sys = s })
      else stops failed_return

  unfoldable pub on_event : (fuel : ℕ) → Errno → Event → Resolver S → Did (Resolver S)
  on_event fuel errno e r = if e.err || e.hup then goes (drop_sock e.fd r) else do
    (closed, r) ←
        (if e.readable
          then on_readable fuel e.fd errno (record r { check = false })
          else goes (false, record r { check = false }))
    if e.writable && not closed then on_writable e.fd r else goes r

  unfoldable pub on_events : (fuel : ℕ) → Errno → List Event → Resolver S → Did (Resolver S)
  on_events fuel errno [] r = goes r
  on_events fuel errno (e ∷ es) r = do r ← on_event fuel errno e r; on_events fuel errno es r

  -- `for (ntask = 4; ntask-- > 0; )` on one socket. A name whose question is not taken is freed as well.
  unfoldable pub send_tasks : (ntask sock : ℕ) → Resolver S → Did (Resolver S)
  send_tasks zero sock r = goes r
  send_tasks (suc ntask) sock r = if queue_empty r.total.queue_dns then goes r else do
    ((p, q), heap) ← run (queue_get r.total.queue_dns r.total.heap)
    name ← run (from_option (r.total.names p))
    (answer, s) ← run (dns_send_packet net (got r.sys) r.id sock (name ++ 0 ∷ []) r.sys)
    let total = record r.total { queue_dns = q; heap = heap; names = forget r.total.names p }
    let sent : Resolver S = record r { id = (r.id + 1) % 2 ^ 32; total = total; sys = s }
    elim answer [
      | done zero ↦ goes (drop_sock sock sent)
      | done (suc n) ↦ send_tasks ntask sock sent
      | failed e ↦ if is_eagain e then send_tasks ntask sock sent else goes (drop_sock sock sent)
    ]

  -- `for (i = 0; i < MAX_NCONN; i++)`, the places from `i` on; a socket that is cleaned leaves all of them.
  unfoldable pub send_socks : (left i : ℕ) → Resolver S → Did (Resolver S)
  send_socks zero i r = goes r
  send_socks (suc left) i r = do
    sock ← run (from_option (get_elem? r.cache_sock i))
    r ← (if sock == 0 then goes r else send_tasks 4 sock r)
    send_socks left (i + 1) r

  -- One turn of `for (;;)`. Of a timeout in the first one the program exits.
  unfoldable pub dns_turn : (fuel : ℕ) → Errno → Resolver S → Did (Resolver S)
  dns_turn fuel errno r = do
    r ← open_socks fuel r
    let (waited, s) = poll.epoll_wait dns_max_event 2000 r.sys
    let r : Resolver S = record r { sys = s }
    elim waited [
      | none ↦ send_socks max_nconn 0 r
      | some [] ↦ if r.check then stops exit_success else send_socks max_nconn 0 r
      | some (e ∷ es) ↦ do r ← on_events fuel errno (e ∷ es) r; send_socks max_nconn 0 r
    ]

  unfoldable pub dns_turns : (turns fuel : ℕ) → Errno → Resolver S → Did (Resolver S)
  dns_turns zero fuel errno r = goes r
  dns_turns (suc turns) fuel errno r = do r ← dns_turn fuel errno r; dns_turns turns fuel errno r

-- `inet_addr` is the library's, `lines` those of `/etc/resolv.conf`, `events` whether `calloc` gives memory. What its
-- static counter and the state of the crawler are at the start is given; so many turns are made.
unfoldable pub thread_dns_main {ℓ} :
    {S : Type ℓ} (net : Net S) (poll : Poll S) (nonblock : ℕ) (got : S → Bool)
    (head res : S → Bytes) (inet_addr : Bytes → Option ℕ) (lines : Option (List Bytes))
    (events : Bool) (turns fuel : ℕ)
    → Errno
    → Total
    → S
    → Did (Resolver S)
thread_dns_main net poll nonblock got head res inet_addr lines events turns fuel errno w s =
    elim (get_dns_ip inet_addr lines 512) [
      | none ↦ stops exit_failure
      | some buf ↦
          let ip : ℕ = elim (inet_addr buf) [ none ↦ 2 ^ 32 - 1 | some a ↦ a ] in
          let (made, s) = poll.epoll_create s in
          let start : Resolver _ = record {
            cache_sock = replicate max_nconn 0;
            nsock = pos 0;
            check = true;
            id = 0;
            total = w;
            sys = s;
          } in
          if made && events
          then dns_turns net poll nonblock ip got head res turns fuel errno start
          else stops failed_return
    ]
