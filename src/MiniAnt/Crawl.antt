-- ===== src/MiniAnt/Crawl.antt =====
-- mini_ant/src/mini_ant.c, ant_context.c and ant_context.h: what the crawler keeps, the downloads that wait for the
-- address of their host, and the ones that are ready. The mutexes, which order the steps of two threads, are
-- left out: a function runs as one step.
pub mod Release
pub mod Add
pub mod Filter
pub mod Held
pub mod Releases
pub mod Urls
pub mod Adds
pub mod Keeps
pub mod Flow
pub mod Dropped
pub mod Takes
mod Examples
use recycle_bin.Prelude.{
  ℕ, zero, suc, ◌+◌, ◌-◌, ◌*◌, ◌/◌, ◌%◌, ◌^◌, ◌≤◌, ◌<◌, ◌≡◌, refl, sym, ap, ◌∙◌, ◌≢◌, ◌↔◌, ◌⊎◌, inl,
  inr, Bool, true, false, not, ◌&&◌, ◌||◌, Option, none, some, List, [], ◌∷◌, ◌++◌, map,
  append_assoc, append-nil, arith, ltb, leb, ◌==◌, if◌then◌else◌, ltb→lt, lt→ltb, leb→le, le→leb,
  tests, ==_iff, Bool-cases, Option-cases, length, get_elem?, set, take, drop, replicate,
  length-append, length-set, length-take, length-drop, length-replicate, get_elem?-lt,
  get_elem?-set_self, get_elem?-set_ne, take-length-append, drop-length-append, take-length, All,
  Run, ok, fault, ◌>>=◌, ◌>>◌, assert, from_option, Returns, bind_ok, bind_regroup,
}
use recycle_bin.Prelude.Chars.{Bytes, IsText, cstr, is_space, is_digit, to_lower}
use recycle_bin.Prelude.Int.{
  ℤ, pos, negsuc, eq_ℤ, eq_ℤ_iff, schar, uchar, neg, ◌-ℤ◌, ltb_ℤ, signed32, unsigned32, pos_part,
  neg_part, schar-injective,
}
use mathlib.Core.Option
use recycle_bin.MiniAnt.Queue.{Ptr, null, QueueHead, Heap, queue_put, queue_new}
use recycle_bin.MiniAnt.Hash.{AntHash, ant_hash_init}
use recycle_bin.MiniAnt.Url.{has_scheme, scheme_length, url_text}

-- What `down->ip` leads to: nothing, the addresses that are kept for a domain, or a variable of
-- `filter_add`, which is gone after it.
pub data IpAt : Type 0 where
  no_ip : IpAt
  cached : Bytes → IpAt
  gone : IpAt

-- `down_t`, without `fname`, which is always `NULL`; `url` is the text, `none` where `strdup` had no memory.
pub record Down : Type 0 where
  pub url : Option Bytes
  pub ip : IpAt
  pub ip2 : ℕ
  pub port : ℕ

-- `struct cache_val`; `none` is `NULL`.
pub record CacheVal : Type 0 where
  pub flags : ℕ
  pub ctime : ℕ
  pub mtime : ℕ
  pub ip : List ℕ
  pub down : Option QueueHead

-- `total_context_t` but for `cache_url`; the heap of the queues' elements, and what their items lead to.
pub record Total : Type 0 where
  pub cache_dns : AntHash CacheVal
  pub queue_dns : QueueHead
  pub down : QueueHead
  pub heap : Heap
  pub downs : Ptr → Option Down
  pub names : Ptr → Option Bytes

-- What `malloc`, `calloc`, `strdup` and `time` return in a run of `url_add`, and what the array `domain`
-- held. `queue_got` is whether `queue_new` gets its memory, `url_got` whether a download gets its text, `key_got` whether there is
-- memory for a key and its element in the table of domains, and `uniq_got` for an element in that of URLs.
pub record Fresh : Type 0 where
  pub down : Ptr
  pub elem : Ptr
  pub name : Ptr
  pub name_elem : Ptr
  pub val_got : Bool
  pub queue_got : Bool
  pub url_got : Bool
  pub key_got : Bool
  pub uniq_got : Bool
  pub time : ℕ
  pub domain : Bytes

unfoldable pub store {ℓ} : {A : Type ℓ} → (Ptr → Option A) → Ptr → A → Ptr → Option A
store m p x a = if a == p then some x else m a

-- `none` is `NULL`, where memory is refused.
unfoldable pub ant_total_context_init :
    (got_url got_dns got_names got_down : Bool)
    → Option (AntHash (Unit {0})) × Option (AntHash CacheVal) × Option QueueHead × Option QueueHead
ant_total_context_init got_url got_dns got_names got_down = (
  ant_hash_init got_url 0 4096 none none,
  ant_hash_init got_dns 0 4096 none none,
  queue_new got_names,
  queue_new got_down,
)

unfoldable pub skip_head : Bytes → Run ℕ
skip_head url = do scheme ← has_scheme url; if scheme then scheme_length url else ok 0

-- `p + strcspn(p, ":/")`
unfoldable pub at_port : Bytes → Run Bytes
at_port [] = fault
at_port (c ∷ m) =
    let rest = at_port m in if (c == 0) || (c == 58) || (c == 47) then ok (c ∷ m) else rest

unfoldable pub read_or_zero : Option ℕ → ℕ
read_or_zero none = 0
read_or_zero (some k) = k

unfoldable pub new_down : (url : Option Bytes) → IpAt → (first port : ℕ) → Down
new_down url ip first port = record {
  url = url;
  ip = if first == 0 then ip else no_ip;
  ip2 = if first == 0 then 0 else first;
  port = port;
}

-- `sscanf(…, ":%hu", &down->port)`, which leaves the zero of the port where nothing is read, is the library's.
-- `first` is `*ip` and `ip` what the pointer is. The queue, the state, and whether the result is 0.
unfoldable pub down_add :
    (scan_port : Bytes → Option ℕ)
    → Fresh
    → (ip : IpAt) → (first port : ℕ) → (url : Bytes) → QueueHead
    → Total
    → Run (Bool × QueueHead × Total)
down_add scan_port f ip first port url q w = if f.down == null then ok (false, q, w) else do
  t ← url_text url
  n ← skip_head url
  p ← at_port (drop n url)
  let down =
      new_down (if f.url_got then some t else none) ip first
        (if port == 0 then read_or_zero (scan_port p) else port)
  (q', heap) ← queue_put f.elem f.down q w.heap
  ok (true, q', record w { heap = heap; downs = store w.downs f.down down })
