-- ===== src/MiniAnt/Loop/Opens.antt =====
-- mini_ant/src/mini_ant.c: `do_create` of a download, and the body of the loop that starts downloads.
use recycle_bin.Prelude.{
  ℕ, ◌<◌, ◌≡◌, refl, sym, ◌∙◌, ◌≢◌, Bool, true, false, Option, none, some, [], ◌∷◌, arith, ◌==◌,
  if◌then◌else◌, length, Run, ok, All,
}
use recycle_bin.Prelude.Chars.{Bytes}
use recycle_bin.Prelude.Int.{pos, negsuc, ◌-ℤ◌}
use recycle_bin.Buffers.{nonneg}
use recycle_bin.Buffers.AntBuf.{AntBuf, ant_buf_new, ant_buf_init}
use recycle_bin.MiniAnt.Sock.{Peer, htons, set_fl, sock_nonblock_create}
use recycle_bin.MiniAnt.Poll.{Connected, connected, in_progress, refused, goes, run, Goes}
use recycle_bin.MiniAnt.Array.{AntArray}
use recycle_bin.MiniAnt.Array.Elements.{IsArray, ant_array_put-get}
use recycle_bin.MiniAnt.Queue.{Ptr, null, QueueHead, Heap}
use recycle_bin.MiniAnt.Queue.Chain.{Slots}
use recycle_bin.MiniAnt.Crawl.{IpAt, no_ip, cached, gone, Down, Total, store}
use recycle_bin.MiniAnt.Crawl.Held.{IsTotal}
use recycle_bin.MiniAnt.Crawl.Takes.{get-ready}
use recycle_bin.MiniAnt.Crawl.Filter.{KeyAt}
use recycle_bin.MiniAnt.Hash.{AntHash}
use recycle_bin.MiniAnt.Loop.{
  Host, Conn, Options, Crawler, le_bytes, ptr_bytes, load_conn, address, address_at, with_fd,
  register, connect_made, do_create, http_new, new_http,
}
use recycle_bin.MiniAnt.Loop.Turn.{start_one}

-- Sockets are made, with descriptors below `bound`, none of which is 0; each is connected or on the way, and
-- `epoll_ctl` takes it. There is memory for a connection.
pub record IsServing {ℓ} {S : Type ℓ} (host : Host S) (bound : ℕ) : Type ℓ where
  pub sock : S → ℕ
  pub sock_pos : (s : S) → 0 < sock s
  pub sock_low : (s : S) → sock s < bound
  pub made : (s : S) → (host.net.socket s).0 ≡ some (sock s)
  pub opens : (fd : ℕ) (p : Peer) (s : S) → (host.poll.connect fd p s).0 ≢ refused
  pub watched : (fd : ℕ) (s : S) → (host.poll.epoll_add fd true s).0 ≡ true
  pub given : (s : S) → host.info s ≢ null
  pub page : (s : S) → host.buf_got s ≡ true

-- The downloads that the items lead to have a URL and an address.
abbrev pub HasAddress : Total → ℕ → Type 0
HasAddress w p =
    (d : Down) × (w.downs p ≡ some d)
    × ((url : Bytes) × (d.url ≡ some url))
    × ((ip : ℕ) × (address d w ≡ ok ip))

abbrev pub HasDowns : Total → Slots → Type 0
HasDowns w xs = All (λ (a, p). HasAddress w p) xs

-- The array of connections has `bound` places for pointers.
pub record IsSocks (bound : ℕ) (a : AntArray) : Type 0 where
  pub array : IsArray a
  pub places : a.length ≡ bound
  pub pointers : a.size ≡ 8

load_conn-at :
    (infos : Ptr → Option Conn) (p : Ptr) (conn : Conn)
    → p ≢ null
    → load_conn (store infos p conn) p ≡ goes conn
unfolding load_conn store
load_conn-at infos p conn ne =
    let there : (p == null) ≡ false = ground arith in
    let here : (p == p) ≡ true = ground arith in rw (there, here) refl

pub length-ptr_bytes : (p : Ptr) → length (ptr_bytes p) ≡ 8
unfolding ptr_bytes le_bytes
length-ptr_bytes p = refl

-- The address of a download depends on the domains alone.
address-same :
    (d : Down) (w : Total) (q : QueueHead) (h : Heap)
    → address d (record w { down = q; heap = h }) ≡ address d w
unfolding address address_at
address-same d w q h = at d.ip
  where
    at :
        (ip : IpAt)
        → (if d.ip2 == 0 then address_at ip (record w { down = q; heap = h }) else ok d.ip2)
          ≡ (if d.ip2 == 0 then address_at ip w else ok d.ip2)
    at no_ip = refl
    at gone = refl
    at (cached domain) = refl

ant_buf_new-empty :
    (malloc calloc : ℕ → Option Bytes)
    → (b : AntBuf) × (ant_buf_new malloc calloc true (pos 0) ≡ ok b)
unfolding ant_buf_new ant_buf_init nonneg
ant_buf_new-empty malloc calloc = (_, refl)

HasDowns-same :
    (w : Total) (q : QueueHead) (h : Heap) (xs : Slots)
    → HasDowns w xs
    → HasDowns (record w { down = q; heap = h }) xs
HasDowns-same w q h [] downs = tt
HasDowns-same w q h (x ∷ xs) ((d, found, text, (ip, at)), downs) =
    ((d, found, text, (ip, address-same d w q h ∙ at)), HasDowns-same w q h xs downs)

module _ {ℓ} {S : Type ℓ} (host : Host S) (bound : ℕ) (is : IsServing host bound) where
  -- What opening a connection leaves as it was.
  abbrev Opened : Crawler S → Bool × Crawler S → Type 0
  Opened c (fine, c') =
      (fine ≡ true) × (c'.total ≡ c.total) × (c'.nconn ≡ c.nconn) × IsSocks bound c'.socks

  register-opens :
      (info : Ptr) (conn : Conn) (fd : ℕ) (c : Crawler S)
      → fd < bound
      → IsSocks bound c.socks
      → Goes (Opened c) (register host info conn fd c)
  unfolding register with_fd
  register-opens info conn fd c low socks =
      let ((got, a), put, (stored, array, len, size, others)) =
        ant_array_put-get host.calloc_array c.socks fd (ptr_bytes info) socks.array
          (rw socks.places low) (length-ptr_bytes info ∙ sym socks.pointers) in
      let (added, s) = host.poll.epoll_add fd true c.sys in
      (
        (added, with_fd host info conn fd (record c { socks = a; sys = s })),
        rw put refl,
        (
          is.watched fd c.sys,
          refl,
          refl,
          record { array = array; places = len ∙ socks.places; pointers = size ∙ socks.pointers },
        ),
      )

  -- Behind `connect`.
  answered :
      (info : Ptr) (conn : Conn) (fd : ℕ) (c : Crawler S)
      → fd < bound
      → IsSocks bound c.socks
      → (answer : Connected) → answer ≢ refused
      → Goes (Opened c) (elim answer [
        | connected ↦ register host info conn fd c
        | in_progress ↦ register host info conn fd c
        | refused ↦ goes (false, c)
      ])
  answered info conn fd c low socks connected ne = register-opens info conn fd c low socks
  answered info conn fd c low socks in_progress ne = register-opens info conn fd c low socks
  answered info conn fd c low socks refused ne = absurd (ne refl)

  sock-made :
      (ip port : ℕ) (s : S)
      → sock_nonblock_create host.net host.nonblock ip port s ≡ (
        some (is.sock s, record { sin_port = htons port; s_addr = ip }),
        (set_fl host.net (is.sock s) host.nonblock (host.net.socket s).1).1,
      )
  unfolding sock_nonblock_create set_fl
  sock-made ip port s = rw (sock_nonblock_create, is.made s) refl

  connect_made-opens :
      (info : Ptr) (conn : Conn) (ip port : ℕ) (c : Crawler S)
      → IsSocks bound c.socks
      → Goes (Opened c) (
          connect_made host info conn (sock_nonblock_create host.net host.nonblock ip port c.sys) c)
  unfolding connect_made
  connect_made-opens info conn ip port c socks =
      let fd = is.sock c.sys in
      let nonzero : (fd == 0) ≡ false = ground (arith, is.sock_pos c.sys) in
      let peer : Peer = record { sin_port = htons port; s_addr = ip } in
      let s = (set_fl host.net fd host.nonblock (host.net.socket c.sys).1).1 in
      let (answer, s') = host.poll.connect fd peer s in
      rw (sock-made ip port c.sys) (
        rw nonzero (
          answered info conn fd (record c { sys = s' }) (is.sock_low c.sys) socks answer
            (is.opens fd peer s)))

  -- `do_create` of a connection whose download has an address.
  do_create-opens :
      (info : Ptr) (conn : Conn) (c : Crawler S)
      → load_conn c.infos info ≡ goes conn
      → HasAddress c.total conn.down
      → IsSocks bound c.socks
      → Goes (Opened c) (do_create host info c)
  unfolding do_create
  do_create-opens info conn c at (down, found, _, (ip, address_is)) socks =
      rw (at, found, address_is)
        (connect_made-opens info conn ip (if down.port == 0 then 80 else down.port) c socks)

  -- A download is taken and its connection opened.
  pub start_one-opens :
      (opt : Options) (add : Bytes → AntHash KeyAt × Total → Run (AntHash KeyAt × Total))
      (c : Crawler S) (a p : ℕ) (xs names : Slots) (waiting : Bytes → Slots)
      → IsTotal c.total ((a, p) ∷ xs) names waiting
      → HasDowns c.total ((a, p) ∷ xs)
      → IsSocks bound c.socks
      → Goes
          (λ (fine, c').
            (fine ≡ true)
            × IsTotal c'.total xs names waiting
            × HasDowns c'.total xs
            × (c'.nconn ≡ c.nconn -ℤ negsuc 0)
            × IsSocks bound c'.socks)
          (start_one host opt add c)
  unfolding start_one http_new
  start_one-opens opt add c a p xs names waiting total
        ((down, found, (url, url_at), (ip, at)), downs) socks =
      let (((out, q), heap), get, (item, after)) = get-ready c.total a p waiting xs names total in
      let w : Total = record c.total { down = q; heap = heap } in
      let text : c.total.downs out ≡ some down = rw item found in
      let known : address down w ≡ ok ip = address-same down c.total q heap ∙ at in
      let taken : Crawler S = record c {
        total = w;
        queue_num = q.size;
        should_down = c.should_down -ℤ negsuc 0;
        nconn = c.nconn -ℤ negsuc 0;
      } in
      let info = host.info c.sys in
      let (page, new) = ant_buf_new-empty host.malloc host.calloc in
      let http = new_http url page in
      let conn : Conn = record { http = http; fd = none; try_num = 0; down = out } in
      let c1 : Crawler S = record taken { infos = store c.infos info conn } in
      let ((fine, c2), run, (good, same, conns, kept)) =
        do_create-opens info conn c1 (load_conn-at c.infos info conn (is.given c.sys))
          (down, text, (url, url_at), (ip, known)) socks in
      (
        (fine, c2),
        rw (get, text, is.page c.sys, new, url_at) run,
        (
          good,
          rw same (after c.total.downs),
          rw same (HasDowns-same c.total q heap xs downs),
          conns,
          kept,
        ),
      )
