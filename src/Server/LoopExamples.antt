-- ===== src/Server/LoopExamples.antt =====
-- http_server/src/mini_tor.c: `do_loop` with small connections.
use recycle_bin.Prelude.{
  ℕ, zero, suc, ◌^◌, ◌<◌, ◌≡◌, refl, sym, ap, Bool, true, false, ◌||◌, Option, none, some, List, [],
  ◌∷◌, arith, replicate, ◌==◌, get_elem?, drop, length-replicate, ok,
}
use recycle_bin.Prelude.Int.{pos}
use recycle_bin.Server.{HttpContext}
use recycle_bin.MiniAnt.Poll.{Goes}
use recycle_bin.MiniAnt.Queue.{Ptr, null}
use recycle_bin.MiniAnt.Array.{ant_array_get, from, taken}
use recycle_bin.MiniAnt.Loop.{ptr_bytes, le_bytes, of_le_bytes}
use recycle_bin.MiniAnt.Loop.Turn.{info_of}
use recycle_bin.MiniAnt.Http.Head.{find_end, starts}
use recycle_bin.Small.Words.{sprintfcat, sprintfcat_loop}
use recycle_bin.Server.Requests.{serve_request-partial}
use recycle_bin.Server.Serve.{Site, Serving, accept_loop, serve_request}
use recycle_bin.Server.Accepts.{View, IsSite, IsCached, IsServed, IsAccepted, accept_loop-caches}
use recycle_bin.Server.Head.{buffer_of}
use recycle_bin.Server.Answer.{
  join_path, Disk, missing, do_process, http_join_head_body, put_text, body_of, http_write, text_of,
  is_none,
}

-- A system with connections that wait, and memory for two contexts, of which so many are in use.
abbrev room : ℕ → ℕ
room zero = 2
room (suc zero) = 1
room (suc (suc m)) = 0

abbrev before : ℕ → ℕ
before zero = 0
before (suc n) = n

abbrev address : ℕ → Ptr
address zero = 4096
address (suc m) = 8192

abbrev taken_at : ℕ → Ptr → Bool
taken_at zero p = false
taken_at (suc m) p = (p == address m) || taken_at m p

abbrev accept_next : List ℕ × ℕ → Option ℕ × (List ℕ × ℕ)
accept_next ([], m) = (none, ([], m))
accept_next (fd ∷ fds, m) = (some fd, (fds, m))

abbrev no_disk : Disk
no_disk = record {
  stat = λ s. missing;
  readdir = λ s. none;
  open_read = λ s. none;
  mmap = λ fd n. none;
  enoent = true;
  got = true;
  grows = true;
}

abbrev site : Site (List ℕ × ℕ)
site = record {
  create_and_bind = λ port s. (some 3, s);
  set_fl = λ fd s. (true, s);
  listen = λ fd s. (true, s);
  epoll_create = λ s. (some 4, s);
  epoll_add = λ fd s. (true, s);
  epoll_wait = λ s. ([], s);
  accept = λ fd s. accept_next s;
  close = λ fd s. s;
  read = λ fd n peek s. (none, s);
  write = λ fd text s. s;
  is_dir = λ s. false;
  disk = λ s. no_disk;
  context = λ (fds, m). (address m, (fds, suc m));
  calloc = λ n size. some (replicate 2048 0);
}

site-gives :
    (fds : List ℕ) (n : ℕ) (used : Ptr → Bool) (l : List ℕ) (m : ℕ)
    → ◌≡◌ {A = View} (l, (room m, taken_at m)) (fds, (suc n, used))
    → ((address m == null) ≡ false)
      × (address m < 256 ^ 8)
      × (used (address m) ≡ false)
      × (◌≡◌ {A = View}
          (l, (room (suc m), taken_at (suc m)))
          (fds, (n, λ p. (p == address m) || used p)))
site-gives fds n used l zero h = (
  refl,
  omega arith,
  sym (ap (λ v. v.1.1 4096) h),
  ap {A = View} {B = View} (λ v. (v.0, (before v.1.0, λ p. (p == 4096) || v.1.1 p))) h,
)
site-gives fds n used l (suc zero) h = (
  refl,
  omega arith,
  sym (ap (λ v. v.1.1 8192) h),
  ap {A = View} {B = View} (λ v. (v.0, (before v.1.0, λ p. (p == 8192) || v.1.1 p))) h,
)
site-gives fds n used l (suc (suc m)) h =
    let wrong : 0 ≡ suc n = ap (λ v. v.1.0) h in absurd (omega arith)

site-accepts :
    (fd : ℕ) (fds : List ℕ) (m : ℕ × (Ptr → Bool)) (l : List ℕ) (k : ℕ)
    → ◌≡◌ {A = View} (l, (room k, taken_at k)) (fd ∷ fds, m)
    → ((accept_next (l, k)).0 ≡ some fd)
      × (◌≡◌ {A = View}
          (
            (accept_next (l, k)).1.0,
            (room (accept_next (l, k)).1.1, taken_at (accept_next (l, k)).1.1),
          )
          (fds, m))
site-accepts fd fds m [] k h = let wrong : [] ≡ fd ∷ fds = ap (λ v. v.0) h in cc
site-accepts fd fds m (x ∷ l) k h =
    (ap {A = View} (λ v. get_elem? v.0 0) h, ap {A = View} {B = View} (λ v. (drop 1 v.0, v.1)) h)

nothing : (fds : List ℕ) (m : ℕ) → fds ≡ [] → (accept_next (fds, m)).0 ≡ none
nothing [] m h = refl
nothing (fd ∷ fds) m h = let wrong : fd ∷ fds ≡ [] = h in cc

abbrev site-IsSite : IsSite site 3
site-IsSite = record {
  view = λ (fds, m). (fds, (room m, taken_at m));
  ends = λ (fds, m) h. nothing fds m h;
  accepts = λ fd fds m (l, k) h. site-accepts fd fds m l k h;
  sets = λ fd s. (refl, refl);
  adds = λ fd s. (refl, refl);
  gives = λ fds n used (l, m) h. site-gives fds n used l m h;
}

abbrev start : Serving (List ℕ × ℕ)
start = record {
  cache_sock = record { array = replicate 2048 0; ncurr = pos 0; size = 8; length = 256; flag = 1 };
  contexts = λ p. none;
  sys = (5 ∷ 7 ∷ [], 0);
}

start-IsServed : IsServed site (46 ∷ 47 ∷ []) 3 site-IsSite (λ p. false) start
start-IsServed = record {
  socks = record {
    array = record { full = length-replicate {A = ℕ} 2048 0 };
    places = refl;
    pointers = refl;
  };
  held = λ p x h. let wrong : none ≡ some x = h in cc;
}

accept_loop-caches_example :
    Goes
      (λ c'. IsAccepted site (46 ∷ 47 ∷ []) 3 site-IsSite (5 ∷ 7 ∷ []) start c')
      (accept_loop site (46 ∷ 47 ∷ []) 3 3 start)
accept_loop-caches_example =
    accept_loop-caches site (46 ∷ 47 ∷ []) 3 site-IsSite 3 (5 ∷ 7 ∷ []) 2 (λ p. false) start
      (omega arith) (omega arith) (omega arith, (omega arith, tt)) refl start-IsServed

-- Descriptor 0 leads to a context, and two bytes come.
abbrev new_context : HttpContext
new_context = record {
  fd = 0;
  path = [];
  fname = 46 ∷ 47 ∷ [];
  conn = false;
  rblen = 0;
  mm = false;
  head = none;
  page = none;
  unmapped = false;
}

abbrev busy : Serving (List ℕ × ℕ)
busy = record {
  cache_sock = record { array = ptr_bytes 4096; ncurr = pos 1; size = 8; length = 1; flag = 1 };
  contexts = λ p. some new_context;
  sys = ([], 1);
}

abbrev slow_site : Site (List ℕ × ℕ)
slow_site = record site { read = λ fd n peek s. (some (13 ∷ 10 ∷ []), s) }

busy-IsCached : IsCached busy 0 4096 new_context
unfolding info_of ptr_bytes le_bytes of_le_bytes from taken ant_array_get
busy-IsCached = record { stored = refl; given = refl; there = refl }

part_of_head : find_end (buffer_of 0 (13 ∷ 10 ∷ [])) ≡ ok none
unfolding find_end buffer_of starts
part_of_head = refl

answered :
    do_process slow_site.write no_disk (record new_context { rblen = 2 }) ([], 1) ≡ ok ([], 1)
unfolding do_process http_join_head_body join_path put_text sprintfcat body_of http_write text_of
    is_none sprintfcat_loop
answered = refl

serve_request-partial_example :
    Goes
      (λ c'. (c'.contexts 4096 ≡ none) × (c'.sys ≡ ([], 1)))
      (serve_request slow_site (46 ∷ 47 ∷ []) 3 0 busy)
serve_request-partial_example =
    serve_request-partial slow_site (46 ∷ 47 ∷ []) 3 busy 0 4096 new_context (13 ∷ 10 ∷ []) ([], 1)
      busy-IsCached refl part_of_head answered
