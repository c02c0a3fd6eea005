-- ===== src/MiniAnt/Queue.antt =====
-- mini_ant/src/ant_queue.c: a linked queue on the heap. A `struct queue_head` lives outside the heap, so
-- a function that changes one returns the new value; `fresh` is what `malloc` returns.
pub mod Chain
pub mod Refines
pub mod Join
use recycle_bin.Prelude.{
  ℕ, zero, suc, ◌+◌, ◌-◌, ◌*◌, ◌/◌, ◌%◌, ◌^◌, ◌≤◌, ◌<◌, ◌≡◌, refl, sym, ap, ◌∙◌, ◌≢◌, ◌↔◌, ◌⊎◌, inl,
  inr, Bool, true, false, not, ◌&&◌, ◌||◌, Option, none, some, List, [], ◌∷◌, ◌++◌, map,
  append_assoc, append-nil, arith, ltb, leb, ◌==◌, if◌then◌else◌, ltb→lt, lt→ltb, leb→le, le→leb,
  tests, Bool-cases, Option-cases, length, get_elem?, set, take, drop, replicate, length-append,
  length-set, length-take, length-drop, length-replicate, get_elem?-lt, take-length-append,
  drop-length-append, take-length, All, Run, ok, fault, ◌>>=◌, ◌>>◌, assert, from_option, Returns,
  bind_ok, bind_regroup,
}
use recycle_bin.Prelude.Chars.{Bytes, IsText, cstr, is_space, is_digit, to_lower}
use recycle_bin.Prelude.Int.{
  ℤ, pos, negsuc, eq_ℤ, eq_ℤ_iff, schar, uchar, neg, ◌-ℤ◌, ltb_ℤ, signed32, unsigned32, pos_part,
  neg_part, schar-injective,
}

abbrev pub Ptr : Type 0
Ptr = ℕ

abbrev pub null : Ptr
null = 0

pub record QueueElem : Type 0 where
  pub item : ℕ
  pub next : Ptr

abbrev pub elem : ℕ → Ptr → QueueElem
elem d n = record { item = d; next = n }

pub record QueueHead : Type 0 where
  pub head : Ptr
  pub tail : Ptr
  pub size : ℕ
  pub flag : ℕ

abbrev pub Heap : Type 0
Heap = Ptr → Option QueueElem

unfoldable pub write : Heap → Ptr → Option QueueElem → Heap
write h p c a = if a == p then c else h a

abbrev pub Cmd : Type 0 → Type 0
Cmd A = Heap → Run (A × Heap)

-- `p->…`: a fault at NULL and at an address that holds no element
unfoldable pub load : Ptr → Heap → Run QueueElem
load p h = if p == null then fault else from_option (h p)

-- `Q_NEW`, which writes to what `malloc` returned without a test
unfoldable pub q_new : (fresh : Ptr) → ℕ → Ptr → Cmd Ptr
q_new fresh d qe h = if fresh == null then fault else ok (fresh, write h fresh (some (elem d qe)))

pub queue_init : QueueHead
queue_init = record { head = null; tail = null; size = 0; flag = 0 }

-- `none` where `malloc` fails
pub queue_new : Bool → Option QueueHead
unfolding queue_init
queue_new got = if got then some (record queue_init { flag = 1 }) else none

pub queue_empty : QueueHead → Bool
queue_empty q = q.size == 0

pub queue_put : (fresh : Ptr) → ℕ → QueueHead → Cmd QueueHead
queue_put fresh d q h =
    if q.head == null
    then (do
      (e, h) ← q_new fresh d q.head h
      ok (record q { head = e; tail = e; size = q.size + 1 }, h))
    else do
      t ← load q.tail h
      (e, h) ← q_new fresh d t.next h
      t ← load q.tail h
      let h = write h q.tail (some (record t { next = e }))
      t ← load q.tail h
      ok (record q { tail = t.next; size = q.size + 1 }, h)

pub queue_get : QueueHead → Cmd (ℕ × QueueHead)
queue_get q h = do
  e ← load q.head h
  let h = write h q.head none
  ok ((e.item, record q { head = e.next; size = q.size - 1 }), h)

-- The two heads afterwards.
pub queue_join_init : (q1 q2 : QueueHead) → Cmd (QueueHead × QueueHead)
queue_join_init q1 q2 h =
    let emptied = record q2 { head = null; tail = null; size = 0 } in
    if q2.head == null
    then ok ((q1, q2), h)
    else if q1.head == null
    then ok ((record q1 { head = q2.head; tail = q2.tail; size = q2.size }, emptied), h)
    else do
      t ← load q1.tail h
      let h = write h q1.tail (some (record t { next = q2.head }))
      ok ((record q1 { tail = q2.tail; size = q1.size + q2.size }, emptied), h)
