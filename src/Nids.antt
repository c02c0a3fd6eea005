-- ===== src/Nids.antt =====
-- use_libnids/parse_smtp_clent.c: mails that pass a network are written to files. libnids hands over the connections
-- and their data. The queue and the table are those of use_libnids/ant_queue.c and ant_hash.c, which are the
-- functions of mini_ant but for what is said here; a value of the table is a queue or `NULL`.
pub mod Dump
mod Examples
use recycle_bin.Prelude.{
  ℕ, zero, suc, ◌+◌, ◌-◌, ◌*◌, ◌/◌, ◌%◌, ◌^◌, ◌≤◌, ◌<◌, ◌≡◌, refl, sym, ap, ◌∙◌, ◌≢◌, ◌↔◌, ◌⊎◌, inl,
  inr, Bool, true, false, not, ◌&&◌, ◌||◌, Option, none, some, List, [], ◌∷◌, ◌++◌, map,
  append_assoc, append-nil, arith, ltb, leb, ◌==◌, if◌then◌else◌, ltb→lt, lt→ltb, leb→le, le→leb,
  tests, ==_iff, Bool-cases, Option-cases, length, get_elem?, set, take, drop, replicate,
  length-append, length-set, length-take, length-drop, length-replicate, get_elem?-lt,
  get_elem?-set_self, get_elem?-set_ne, take-length-append, drop-length-append, take-length, All,
  Run, ok, fault, ◌>>=◌, ◌>>◌, assert, from_option, Returns, bind_ok, bind_regroup,
}
use recycle_bin.Prelude.Chars.{Bytes, IsText, cstr, is_space, is_digit, to_lower}
use recycle_bin.Prelude.Int.{
  ℤ, pos, negsuc, eq_ℤ, eq_ℤ_iff, schar, uchar, neg, ◌-ℤ◌, ltb_ℤ, signed32, unsigned32, pos_part,
  neg_part, schar-injective,
}
use mathlib.Core.Option
use recycle_bin.Buffers.{read_bytes}
use recycle_bin.MiniAnt.Queue.{
  Ptr, null, QueueHead, Heap, load, queue_new, queue_put, queue_get, queue_empty,
}
use recycle_bin.MiniAnt.Hash.{AntHash, ant_hash_put, ant_hash_get, ant_hash_del}

pub data DumpStatus : Type 0 where
  ant_init : DumpStatus
  ant_begin : DumpStatus
  ant_download : DumpStatus

-- `g_dump_status.smtp`, `g_smtp_hash`, the heap of the queues' elements, and the bytes of each `ant_data_t`. The
-- table's keys are the bytes of a `struct tuple4`.
pub record Nids : Type 0 where
  pub smtp : DumpStatus
  pub smtp_hash : AntHash (Option QueueHead)
  pub heap : Heap
  pub datas : Ptr → Option Bytes

-- What `malloc` returns for the data and for the element of a queue, whether it gives the head of one, the text of
-- the time, and whether the file can be opened.
pub record Outside : Type 0 where
  pub data_at : Ptr
  pub elem_at : Ptr
  pub queue_got : Bool
  pub hash_got : Bool
  pub stamp : Bytes
  pub opened : Bool

-- `!strncmp(data, prefix, strlen(prefix))`, in the memory from `data` on.
unfoldable pub starts_with : (prefix data' : Bytes) → Run Bool
starts_with [] m = ok true
starts_with (p ∷ prefix) [] = fault
starts_with (p ∷ prefix) (c ∷ m) =
    let rest = starts_with prefix m in if c == p then rest else ok false

-- "Return-Path:", "QUIT", "From:", "-from " and "-to "
abbrev pub return_path : Bytes
return_path = 82 ∷ 101 ∷ 116 ∷ 117 ∷ 114 ∷ 110 ∷ 45 ∷ 80 ∷ 97 ∷ 116 ∷ 104 ∷ 58 ∷ []

abbrev pub quit : Bytes
quit = 81 ∷ 85 ∷ 73 ∷ 84 ∷ []

abbrev pub from : Bytes
from = 70 ∷ 114 ∷ 111 ∷ 109 ∷ 58 ∷ []

abbrev pub minus_from : Bytes
minus_from = 45 ∷ 102 ∷ 114 ∷ 111 ∷ 109 ∷ 32 ∷ []

abbrev pub minus_to : Bytes
minus_to = 45 ∷ 116 ∷ 111 ∷ 32 ∷ []

-- `ant_hash_del`, which does not count the element out.
unfoldable pub hash_del :
    AntHash (Option QueueHead)
    → Bytes
    → Run (Option (Option QueueHead) × AntHash (Option QueueHead))
hash_del t key = do (old, t') ← ant_hash_del t key; ok (old, record t' { length = t.length })

unfoldable pub ant_smtp_init : Outside → (addr data' : Bytes) → Nids → Run Nids
ant_smtp_init o addr data' w = do
  begins ← starts_with return_path data'
  if begins
      then (do
        (_, t) ← ant_hash_put o.hash_got w.smtp_hash addr (queue_new o.queue_got)
        ok (record w { smtp = ant_begin; smtp_hash = t }))
      else do
        quits ← starts_with quit data'
        ok (if quits then record w { smtp = ant_download } else w)

-- `strstr(data, "From:")`: what stands from there on. Data without an end is a fault.
unfoldable pub find_from : Bytes → Run (Option Bytes)
find_from [] = fault
find_from (c ∷ m) =
    let rest = find_from m in
    if c == 0
    then ok none
    else (do here ← starts_with from (c ∷ m); if here then ok (some (c ∷ m)) else rest)

-- `%[^\r\n]`
unfoldable pub line_of : Bytes → Run Bytes
line_of [] = fault
line_of (c ∷ m) =
    let rest = line_of m in
    if (c == 0) || (c == 13) || (c == 10) then ok [] else (do l ← rest; ok (c ∷ l))

-- The name in its 512 bytes. The second search is for `From:` again, where `To:` is not read, so that
-- `buf` still holds the sender.
unfoldable pub set_mail_name : (stamp data' : Bytes) → Run Bytes
set_mail_name stamp data' = do
  found ← find_from data'
  elim found [
    | none ↦ ok stamp
    | some src ↦ do
      buf ← line_of (drop 5 src)
      assert (ltb (length buf) 256)
      let name = stamp ++ (minus_from ++ (buf ++ (minus_to ++ buf)))
      assert (ltb (length name) 512)
      ok name
  ]

-- The loop of `dump_file`, with so many elements left: what is written, and the queue and the heap.
unfoldable pub dump_loop :
    (left : ℕ) → (datas : Ptr → Option Bytes) → QueueHead → Heap → Run (Bytes × QueueHead × Heap)
dump_loop zero datas q h = ok ([], q, h)
dump_loop (suc left) datas q h = do
  ((d, q), h) ← queue_get q h
  bytes ← from_option (datas d)
  (rest, q, h) ← dump_loop left datas q h
  ok (bytes ++ rest, q, h)

-- What the file gets; `none` where it is not opened.
unfoldable pub dump_file :
    (opened : Bool)
    → (datas : Ptr → Option Bytes) → QueueHead
    → Heap
    → Run (Option Bytes × QueueHead × Heap)
dump_file opened datas q h =
    if opened
    then (do (bytes, q, h) ← dump_loop q.size datas q h; ok (some bytes, q, h))
    else ok (none, q, h)

-- `queue` is what the table has, with `NULL` for nothing.
unfoldable pub put_data :
    Outside → (addr data' : Bytes) → (count_new : ℕ) → Option QueueHead → Nids → Run Nids
put_data o addr data' count_new none w = do bytes ← read_bytes count_new data'; ok w
put_data o addr data' count_new (some q) w = do
  bytes ← read_bytes count_new data'
  (q', h) ← queue_put o.elem_at o.data_at q w.heap
  (_, t) ← ant_hash_put true w.smtp_hash addr (some q')
  ok (record w {
    smtp_hash = t;
    heap = h;
    datas = λ a. if a == o.data_at then some bytes else w.datas a;
  })

-- The name and the content of the file that is written, if one is, and the state.
unfoldable pub download :
    Outside → (addr : Bytes) → Option QueueHead → Nids → Run (Option (Bytes × Bytes) × Nids)
download o addr none w = fault
download o addr (some q) w = do
  e ← load q.head w.heap
  first ← from_option (w.datas e.item)
  name ← set_mail_name o.stamp first
  (content, _, h) ← dump_file o.opened w.datas q w.heap
  (_, t) ← hash_del w.smtp_hash addr
  ok (Option.map (λ c. (name, c)) content, record w { smtp = ant_init; smtp_hash = t; heap = h })

-- `p ? p->val : NULL`, where the value may be `NULL` itself.
unfoldable pub held : Option (Option QueueHead) → Option QueueHead
held none = none
held (some q) = q

unfoldable pub ant_smtp_process :
    Outside → (addr data' : Bytes) → (count_new : ℕ) → Nids → Run (Option (Bytes × Bytes) × Nids)
ant_smtp_process o addr data' count_new w = do
  queue ← ant_hash_get w.smtp_hash addr
  elim w.smtp [
    | ant_init ↦ ok (none, w)
    | ant_begin ↦
        if ltb 0 count_new
        then (do w ← put_data o addr data' count_new (held queue) w; ok (none, w))
        else ok (none, w)
    | ant_download ↦ download o addr (held queue) w
  ]

-- What `tcp_callback` does with new data of a connection to port 25; one to port 80 only prints.
unfoldable pub smtp_data :
    Outside → (addr data' : Bytes) → (count_new : ℕ) → Nids → Run (Option (Bytes × Bytes) × Nids)
smtp_data o addr data' count_new w = do
  w ← ant_smtp_init o addr data' w
  ant_smtp_process o addr data' count_new w
