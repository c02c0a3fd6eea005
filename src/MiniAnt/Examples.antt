-- ===== src/MiniAnt/Examples.antt =====
-- The theorems about the containers of mini_ant at concrete values.
use recycle_bin.Prelude.{
  ℕ, ◌≡◌, refl, ◌↔◌, true, fault, none, some, [], ◌∷◌, arith, ◌==◌, if◌then◌else◌, ok, fault,
  Returns,
}
use recycle_bin.Prelude.Chars.{Bytes}
use recycle_bin.MiniAnt.Queue.{
  elem, QueueHead, Heap, write, queue_init, queue_empty, queue_put, queue_get, queue_join_init,
}
use recycle_bin.MiniAnt.Queue.Chain.{Slots}
use recycle_bin.MiniAnt.Queue.Refines.{
  IsQueue, SameOutside, queue_empty-nil, queue_put-append, queue_get-uncons,
}
use recycle_bin.MiniAnt.Queue.Join.{Joined, queue_join_init-append}
use recycle_bin.MiniAnt.Hash.{AntHash, ant_hash_init, ant_hash_get, ant_hash_del}
use recycle_bin.MiniAnt.Hash.Refines.{IsTable, Wrote, view, get-view, del-Wrote}
use recycle_bin.MiniAnt.Hash.New.{ant_hash_init-IsTable}

abbrev one_heap : Heap
one_heap p = if p == 1 then some (elem 10 0) else none

abbrev two_heap : Heap
two_heap p = if p == 1 then some (elem 10 0) else if p == 2 then some (elem 20 0) else none

abbrev one : QueueHead
one = record { head = 1; tail = 1; size = 1; flag = 0 }

abbrev other : QueueHead
other = record { head = 2; tail = 2; size = 1; flag = 1 }

one-IsQueue : IsQueue two_heap one ((1, 10) ∷ [])
one-IsQueue = record {
  head = refl;
  chain = (ground arith, refl, refl, tt);
  size = refl;
  tail = refl;
}

other-IsQueue : IsQueue two_heap other ((2, 20) ∷ [])
other-IsQueue = record {
  head = refl;
  chain = (ground arith, refl, refl, tt);
  size = refl;
  tail = refl;
}

single-IsQueue : IsQueue one_heap one ((1, 10) ∷ [])
single-IsQueue = record {
  head = refl;
  chain = (ground arith, refl, refl, tt);
  size = refl;
  tail = refl;
}

queue_empty-nil_example :
    IsQueue one_heap queue_init []
    × ((q : QueueHead) (xs : Slots) → IsQueue one_heap q xs → (queue_empty q ≡ true) ↔ (xs ≡ []))
queue_empty-nil_example = queue_empty-nil one_heap

queue_put-append_example :
    Returns
      (λ (q', g).
        IsQueue g q' ((1, 10) ∷ (5, 50) ∷ []) × SameOutside ((1, 10) ∷ (5, 50) ∷ []) one_heap g)
      (queue_put 5 50 one one_heap)
queue_put-append_example =
    queue_put-append one_heap one ((1, 10) ∷ []) 5 50 single-IsQueue (ground arith) refl

queue_get-uncons_example :
    ((a d : ℕ) (xs : Slots)
      → IsQueue one_heap one ((a, d) ∷ xs)
      → Returns
          (λ ((out, q'), g). (out ≡ d) × IsQueue g q' xs × (g ≡ write one_heap a none))
          (queue_get one one_heap))
    × (IsQueue one_heap one [] → queue_get one one_heap ≡ fault)
queue_get-uncons_example = queue_get-uncons one_heap one

queue_join_init-append_example :
    Returns (Joined two_heap ((1, 10) ∷ []) ((2, 20) ∷ [])) (queue_join_init one other two_heap)
queue_join_init-append_example =
    queue_join_init-append two_heap one other ((1, 10) ∷ []) ((2, 20) ∷ []) one-IsQueue
      other-IsQueue (λ a i. ground arith)

ant_hash_init-IsTable_example :
    (t : AntHash ℕ) × (ant_hash_init true 0 4096 none none ≡ some t)
    × (IsTable t × (t.length ≡ 0))
    × ((k : Bytes) → ant_hash_get t k ≡ ok none)
ant_hash_init-IsTable_example = ant_hash_init-IsTable 4096 (omega arith)

abbrev table : AntHash ℕ
table = ant_hash_init-IsTable_example.0

abbrev table-IsTable : IsTable table
table-IsTable = ant_hash_init-IsTable_example.2.0

abbrev domain : Bytes
domain = b'q' ∷ b'.' ∷ b'c' ∷ []

get-view_example : ant_hash_get table domain ≡ ok (view table-IsTable domain)
get-view_example = get-view table-IsTable domain

del-Wrote_example : Returns (Wrote table-IsTable domain none) (ant_hash_del table domain)
del-Wrote_example = del-Wrote table-IsTable domain
