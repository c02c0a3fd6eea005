-- ===== src/MiniAnt/Loop.antt =====
-- mini_ant/src/mini_ant.c: the thread that downloads, up to the functions that open and open again a connection. Each
-- function is one step; the mutexes are left out.
pub mod Read
pub mod Start
pub mod Turn
pub mod Opens
pub mod Starts
mod Examples
use recycle_bin.Prelude.{
  ℕ, zero, suc, ◌+◌, ◌*◌, ◌/◌, ◌%◌, ◌^◌, Bool, true, false, ◌&&◌, Option, none, some, List, [], ◌∷◌,
  ltb, ◌==◌, if◌then◌else◌, get_elem?, Run, ok, fault, from_option,
}
use recycle_bin.Prelude.Chars.{Bytes}
use recycle_bin.Prelude.Int.{ℤ, pos, negsuc, eq_ℤ}
use recycle_bin.Pool.{Errno}
use recycle_bin.Buffers.AntBuf.{AntBuf, ant_buf_new}
use recycle_bin.MiniAnt.Sock.{Net, Peer, sock_nonblock_create}
use recycle_bin.MiniAnt.Poll.{
  Poll, connected, in_progress, refused, exit_failure, Did, goes, stops, bad, ◌>>=◌, run,
}
use recycle_bin.MiniAnt.Array.{AntArray, ant_array_put, ant_array_clear}
use recycle_bin.MiniAnt.Queue.{Ptr, null}
use recycle_bin.MiniAnt.Hash.{AntHash, ant_hash_get}
use recycle_bin.MiniAnt.Http.{HttpInfo}
use recycle_bin.MiniAnt.Http.Head.{http_send_head}
use recycle_bin.MiniAnt.Crawl.{IpAt, no_ip, cached, gone, Down, Total, store}
use recycle_bin.MiniAnt.Crawl.Filter.{KeyAt}

-- What `iconv` has done: all of the text, or a part of it with what is left (`E2BIG`), or it fails. What it gives fits
-- into the buffer of `BUFSIZ` bytes.
pub data Converted : Type 0 where
  whole : Bytes → Converted
  part : Bytes → (left : Bytes) → Converted
  broken : Converted

-- The system and the libraries. `looks_utf8` is `file_looks_utf8`, which is a copy from the file utility. `stamp` is the
-- text of the time in a file name, and the last fields are what `malloc` and `calloc` give: for a `struct http_info`, for
-- buffers, arrays, cookies and parts of a page; `line` is what an array on the stack holds.
pub record Host {ℓ} (S : Type ℓ) : Type ℓ where
  pub net : Net S
  pub poll : Poll S
  pub nonblock : ℕ
  pub chdir_dump : S → Bool × S
  pub chdir_up : S → S
  pub exists : S → Bytes → Bool
  pub open_file : Bytes → S → Option ℕ × S
  pub write : ℕ → Bytes → S → S
  pub looks_utf8 : Option Bytes → ℕ → ℤ
  pub iconv : (code text : Bytes) → Converted
  pub stamp : S → Bytes
  pub info : S → Ptr
  pub buf_got : S → Bool
  pub cookie_got : S → Bool
  pub page_got : ℤ → Bool
  pub elem_got : S → Bool
  pub malloc : ℕ → Option Bytes
  pub calloc : ℕ → Option Bytes
  pub calloc_array : ℕ → ℕ → Option Bytes
  pub line : S → Bytes

-- `struct http_info` with what `HttpInfo` leaves out. A descriptor -1 is `none`, and then that of `http` means nothing.
pub record Conn : Type 0 where
  pub http : HttpInfo
  pub fd : Option ℕ
  pub try_num : ℕ
  pub down : Ptr

-- `opt_t`.
pub record Options : Type 0 where
  pub debug : Bool
  pub maxconn : ℤ

-- What `http_event_loop` keeps, with `status`, what it shares with the other thread, and `uniq_hash`.
pub record Crawler {ℓ} (S : Type ℓ) : Type ℓ where
  pub total : Total
  pub uniq : AntHash KeyAt
  pub cache_url : AntHash (Unit {0})
  pub socks : AntArray
  pub infos : Ptr → Option Conn
  pub nconn : ℤ
  pub should_down : ℤ
  pub total_down : ℤ
  pub queue_num : ℕ
  pub sys : S

-- The bytes of a pointer, and back.
unfoldable pub le_bytes : (count n : ℕ) → Bytes
le_bytes zero n = []
le_bytes (suc k) n = (n % 256) ∷ le_bytes k (n / 256)

unfoldable pub of_le_bytes : Bytes → ℕ
of_le_bytes [] = 0
of_le_bytes (b ∷ bs) = b + 256 * of_le_bytes bs

unfoldable pub ptr_bytes : Ptr → Bytes
ptr_bytes p = le_bytes 8 p

unfoldable pub load_conn : (Ptr → Option Conn) → Ptr → Did Conn
load_conn infos p = if p == null then bad else run (from_option (infos p))

-- `*(down->ip)`; the pointer into an entry leads to its first address.
unfoldable pub address_at : IpAt → Total → Run ℕ
address_at no_ip w = fault
address_at gone w = fault
address_at (cached domain) w = elim (ant_hash_get w.cache_dns domain) [
  | fault ↦ fault
  | ok none ↦ fault
  | ok (some val) ↦ from_option (get_elem? val.ip 0)
]

-- `down->ip2 == 0 ? *(down->ip) : down->ip2`
unfoldable pub address : Down → Total → Run ℕ
address down w = if down.ip2 == 0 then address_at down.ip w else ok down.ip2

-- `http_init`.
unfoldable pub new_http : (url : Bytes) → AntBuf → HttpInfo
new_http url page = record {
  fd = 0;
  url = url;
  filesize = pos 0;
  chunksize = pos 0;
  linecount = 0;
  http_code = pos 0;
  end_header = false;
  chunkhead = pos 0;
  my_errno = none;
  isgzip = false;
  close = false;
  ant_write = false;
  ant_read_head = false;
  ant_read_body = false;
  location = [];
  cookies = none;
  page = page;
  filename = [];
}

module _ {ℓ} {S : Type ℓ} (host : Host S) where
  -- The struct at `info` has a descriptor.
  unfoldable pub with_fd : (info : Ptr) → Conn → (fd : ℕ) → Crawler S → Crawler S
  with_fd info conn fd c = record c {
    infos = store c.infos info (record conn { http = record conn.http { fd = fd }; fd = some fd });
  }

  -- The end of `do_create`, after `connect`. That an element could not be stored is not looked at.
  unfoldable pub register : (info : Ptr) → Conn → (fd : ℕ) → Crawler S → Did (Bool × Crawler S)
  register info conn fd c = do
    (stored, socks) ← run (ant_array_put host.calloc_array c.socks fd (ptr_bytes info))
    let (added, s) = host.poll.epoll_add fd true c.sys
    goes (added, with_fd info conn fd (record c { socks = socks; sys = s }))

  -- What `sock_nonblock_create` has given is connected. Of a socket that could not be made, whose descriptor is -1,
  -- `connect` fails.
  unfoldable pub connect_made :
      (info : Ptr) → Conn → Option (ℕ × Peer) × S → Crawler S → Did (Bool × Crawler S)
  connect_made info conn (none, s) c = goes (false, record c { sys = s })
  connect_made info conn (some (fd, peer), s) c =
      let (answer, s) = host.poll.connect fd peer s in
      let c' : Crawler S = record c { sys = s } in
      if fd == 0 then stops exit_failure else elim answer [
        | connected ↦ register info conn fd c'
        | in_progress ↦ register info conn fd c'
        | refused ↦ goes (false, c')
      ]

  -- True is the result 0.
  unfoldable pub do_create : (info : Ptr) → Crawler S → Did (Bool × Crawler S)
  do_create info c = do
    conn ← load_conn c.infos info
    down ← run (from_option (c.total.downs conn.down))
    ip ← run (address down c.total)
    let port = if down.port == 0 then 80 else down.port
    connect_made info conn (sock_nonblock_create host.net host.nonblock ip port c.sys) c

  -- After the third attempt, for which `try_num` has four bits, the program exits.
  unfoldable pub do_error : (info : Ptr) → (fd : ℕ) → Crawler S → Did (Bool × Crawler S)
  do_error info fd c = do
    conn ← load_conn c.infos info
    (place, socks) ← run (ant_array_clear c.socks fd)
    let again : Conn = record conn {
      http = record conn.http { ant_write = false; ant_read_head = false; ant_read_body = false };
      fd = none;
      try_num = (conn.try_num + 1) % 16;
    }
    if ltb 2 again.try_num
        then stops exit_failure
        else do_create info (record c {
          socks = socks;
          infos = store c.infos info again;
          sys = host.poll.close fd c.sys;
        })

  -- What `do_error` returns is not looked at; `epoll_ctl` of the descriptor -1 fails.
  unfoldable pub do_write : (info : Ptr) → (fd : ℕ) → Crawler S → Did (Crawler S)
  do_write info fd c = do
    conn ← load_conn c.infos info
    let (rc, http, s) = http_send_head host.net conn.http c.sys
    let c = record c { infos = store c.infos info (record conn { http = http }); sys = s }
    (_, c) ← (if eq_ℤ rc (negsuc 0) then do_error info fd c else goes (true, c))
    conn ← load_conn c.infos info
    elim conn.fd [
      | none ↦ stops exit_failure
      | some fd ↦
          let (changed, s) = host.poll.epoll_mod fd false c.sys in
          if changed then goes (record c { sys = s }) else stops exit_failure
    ]

  -- `http_new` of the download at `down`, whose URL is read later, and is a fault here already where it is `NULL`. `ant_buf_new` asserts that it gets its struct.
  unfoldable pub http_new : (down : Ptr) → Crawler S → Did (Ptr × Crawler S)
  http_new down c = do
    d ← run (from_option (c.total.downs down))
    page ← run (ant_buf_new host.malloc host.calloc (host.buf_got c.sys) (pos 0))
    let info = host.info c.sys
    url ← run (from_option d.url)
    let conn : Conn = record { http = new_http url page; fd = none; try_num = 0; down = down }
    goes (info, record c { infos = store c.infos info conn })
