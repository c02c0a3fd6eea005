-- ===== src/MiniAnt/Loop/Turn.antt =====
-- mini_ant/src/mini_ant.c: `http_event_loop`.
use recycle_bin.Prelude.{
  ℕ, zero, suc, Bool, true, false, not, ◌&&◌, ◌||◌, Option, none, some, List, [], ◌∷◌, ◌==◌,
  if◌then◌else◌, Run, ok, fault, from_option,
}
use recycle_bin.Prelude.Chars.{Bytes}
use recycle_bin.Prelude.Int.{pos, negsuc, eq_ℤ, ltb_ℤ, ◌-ℤ◌, pos_part}
use recycle_bin.Pool.{Errno}
use recycle_bin.MiniAnt.Poll.{
  Event, Did, ◌>>=◌, goes, stops, failed_return, exit_failure, run, fueled,
}
use recycle_bin.MiniAnt.Array.{AntArray, ant_array_get, ant_array_new, ant_array_clear, from, taken}
use recycle_bin.MiniAnt.Queue.{Ptr, queue_empty, queue_get}
use recycle_bin.MiniAnt.Hash.{AntHash, ant_hash_put}
use recycle_bin.MiniAnt.Http.Head.{http_read_head}
use recycle_bin.MiniAnt.Crawl.{Total, store}
use recycle_bin.MiniAnt.Crawl.Filter.{KeyAt}
use recycle_bin.MiniAnt.Loop.{
  Host, Conn, Options, Crawler, of_le_bytes, load_conn, do_create, do_error, do_write, http_new,
}
use recycle_bin.MiniAnt.Loop.Read.{is_dump, do_read}
use recycle_bin.MiniAnt.Loop.Start.{is_known}

-- `*(struct http_info **)ant_array_get(socks, fd)`
unfoldable pub info_of : AntArray → (fd : ℕ) → Run Ptr
info_of socks fd = elim (ant_array_get socks fd) [
  | fault ↦ fault
  | ok place ↦ elim (from socks.array place) [
    | fault ↦ fault
    | ok m ↦ elim (taken 8 m) [ fault ↦ fault | ok bytes ↦ ok (of_le_bytes bytes) ]
  ]
]

unfoldable pub is_fd : Option ℕ → ℕ → Bool
is_fd none fd = false
is_fd (some k) fd = k == fd

module _ {ℓ} {S : Type ℓ} (host : Host S) (opt : Options)
    (add : Bytes → AntHash KeyAt × Total → Run (AntHash KeyAt × Total)) where
  -- The body of `for (ntask = 16; …)`: a download is taken and its connection opened. False is `goto fail`.
  unfoldable pub start_one : Crawler S → Did (Bool × Crawler S)
  start_one c = do
    ((down, q), heap) ← run (queue_get c.total.down c.total.heap)
    let c : Crawler S = record c {
      total = record c.total { down = q; heap = heap };
      queue_num = q.size;
      should_down = c.should_down -ℤ negsuc 0;
      nconn = c.nconn -ℤ negsuc 0;
    }
    (info, c) ← http_new host down c
    do_create host info c

  -- So many tasks are left of 16.
  unfoldable pub start_tasks : (ntask : ℕ) → Crawler S → Did (Bool × Crawler S)
  start_tasks zero c = goes (true, c)
  start_tasks (suc ntask) c =
      let rest = (do
        (fine, c) ← start_one c
        if fine then start_tasks ntask c else goes (false, c)) in
      if not (ltb_ℤ c.nconn opt.maxconn)
      then goes (true, c)
      else if queue_empty c.total.down
      then goes (true, c)
      else rest

  -- `http_clean`, behind the label `clean`: the struct is given back and its descriptor closed.
  unfoldable pub clean : (info : Ptr) → (fd : ℕ) → Crawler S → Crawler S
  clean info fd c = record c {
    infos = λ p. if p == info then none else c.infos p;
    nconn = c.nconn -ℤ pos 1;
    sys = host.poll.close fd c.sys;
  }

  -- Where `EPOLLIN` alone is set.
  unfoldable pub on_input :
      (fuel : ℕ) → Errno → (info : Ptr) → (fd : ℕ) → Crawler S → Did (Crawler S)
  on_input fuel errno info fd c = do
    c ← do_read host opt add fuel errno info c
    conn ← load_conn c.infos info
    if is_dump host opt add conn.http || not (eq_ℤ conn.http.http_code (pos 200))
        then (do
          (place, socks) ← run (ant_array_clear c.socks fd)
          (old, cache) ← run (ant_hash_put (host.elem_got c.sys) c.cache_url conn.http.url tt)
          goes (clean info fd (record c { socks = socks; cache_url = cache })))
        else goes c

  -- Where both are set. What `do_error` returns is not looked at.
  unfoldable pub on_both :
      (fuel : ℕ) → Errno → (info : Ptr) → (fd : ℕ) → Crawler S → Did (Crawler S)
  on_both fuel errno info fd c = do
    conn ← load_conn c.infos info
    (rc, http, s) ← fueled (
        http_read_head host.net fuel (host.cookie_got c.sys) (host.line c.sys) errno conn.http
          c.sys)
    let c : Crawler S = record c {
      infos = store c.infos info (record conn { http = http });
      sys = s;
    }
    (_, c) ← do_error host info fd c
    goes c

  -- An event that is no error: of a URL that has been downloaded meanwhile the connection is given up.
  unfoldable pub on_ready :
      (fuel : ℕ) → Errno → Event → (info : Ptr) → Conn → Crawler S → Did (Crawler S)
  on_ready fuel errno e info conn c = do
    known ← run (is_known c.cache_url conn.http.url)
    if known
        then goes (clean info e.fd (record c { should_down = c.should_down -ℤ pos 1 }))
        else if e.writable && e.readable
        then on_both fuel errno info e.fd c
        else if e.writable
        then do_write host info e.fd c
        else if e.readable
        then on_input fuel errno info e.fd c
        else goes c

  unfoldable pub on_event : (fuel : ℕ) → Errno → Event → Crawler S → Did (Bool × Crawler S)
  on_event fuel errno e c = do
    info ← run (info_of c.socks e.fd)
    conn ← load_conn c.infos info
    if not (is_fd conn.fd e.fd)
        then stops exit_failure
        else if e.err || e.hup
        then do_error host info e.fd c
        else do c ← on_ready fuel errno e info conn c; goes (true, c)

  unfoldable pub on_events : (fuel : ℕ) → Errno → List Event → Crawler S → Did (Bool × Crawler S)
  on_events fuel errno [] c = goes (true, c)
  on_events fuel errno (e ∷ es) c = do
    (fine, c) ← on_event fuel errno e c
    if fine then on_events fuel errno es c else goes (false, c)

  -- One turn of `do … while(1)`. A `calloc` of no events and an `epoll_wait` for none are the library's; a wait that
  -- fails gives no event.
  unfoldable pub event_turn : (fuel : ℕ) → Errno → Crawler S → Did (Crawler S)
  event_turn fuel errno c = do
    (started, c) ← start_tasks 16 c
    let (waited, s) = host.poll.epoll_wait (pos_part opt.maxconn) 1000 c.sys
    let events : List Event = elim waited [ none ↦ [] | some es ↦ es ]
    (served, c) ←
        (if started then on_events fuel errno events (record c { sys = s }) else goes (false, c))
    if served then goes c else stops failed_return

  unfoldable pub event_turns : (turns fuel : ℕ) → Errno → Crawler S → Did (Crawler S)
  event_turns zero fuel errno c = goes c
  event_turns (suc turns) fuel errno c = do
    c ← event_turn fuel errno c
    event_turns turns fuel errno c

  -- `got` is whether `ant_array_new` gets its struct and `calloc` the events. So many turns are made.
  unfoldable pub http_event_loop :
      (got_array got_events : Bool) (turns fuel : ℕ) → Errno → Crawler S → Did (Crawler S)
  http_event_loop got_array got_events turns fuel errno c =
      let (made, s) = host.poll.epoll_create c.sys in
      if not (made && got_events) then stops failed_return else do
        socks ← run (from_option (ant_array_new host.calloc_array got_array 50 8))
        event_turns turns fuel errno (record c { socks = socks; nconn = pos 0; sys = s })
