-- ===== src/MiniAnt/Queue/Join.antt =====
-- `queue_join_init`: the elements of the second queue move behind those of the first.
use recycle_bin.Prelude.{
  ◌+◌, ◌≡◌, refl, sym, ◌∙◌, true, some, [], ◌∷◌, ◌++◌, append-nil, arith, length-append, Returns,
}
use mathlib.Core.Path.{subst}
use recycle_bin.MiniAnt.Queue.{null, elem, QueueHead, Heap, write, queue_join_init}
use recycle_bin.MiniAnt.Queue.Chain.{
  Slots, occupies, Chain, Disjoint, last_of-append, write-ne, occupies-ne, last-occupies, last-elem,
  last-link,
}
use recycle_bin.MiniAnt.Queue.Refines.{IsQueue, SameOutside, load-some, filled}

-- What the two queues are afterwards.
abbrev pub Joined : Heap → Slots → Slots → (QueueHead × QueueHead) × Heap → Type 0
Joined h xs ys ((q1, q2), g) = IsQueue g q1 (xs ++ ys) × IsQueue g q2 [] × SameOutside xs h g

emptied : Heap → QueueHead → QueueHead
emptied h q = record q { head = null; tail = null; size = 0 }

emptied-nil : (h g : Heap) (q : QueueHead) → IsQueue g (emptied h q) []
unfolding emptied
emptied-nil h g q = record { head = refl; chain = tt; size = refl; tail = refl }

-- Of two queues that share no element `queue_join_init` makes the first hold the elements of both and
-- the second none, and writes only at elements of the first.
pub queue_join_init-append :
    (h : Heap) (q1 q2 : QueueHead) (xs ys : Slots)
    → IsQueue h q1 xs
    → IsQueue h q2 ys
    → Disjoint xs ys
    → Returns (Joined h xs ys) (queue_join_init q1 q2 h)
unfolding queue_join_init emptied
queue_join_init-append h q1 q2 xs [] is1 is2 apart =
    (((q1, q2), h), rw is2.head refl, (rw append-nil is1, is2, λ a o. refl))
queue_join_init-append h q1 q2 [] (y ∷ ys) is1 is2 apart = (
  ((record q1 { head = q2.head; tail = q2.tail; size = q2.size }, emptied h q2), h),
  rw (filled q2.head y is2.head is2.chain.0, is1.head) refl,
  (
    record { head = is2.head; chain = is2.chain; size = is2.size; tail = is2.tail },
    emptied-nil h h q2,
    λ a o. refl,
  ),
)
queue_join_init-append h q1 q2 (x ∷ xs) (y ∷ ys) is1 is2 apart =
    let (some-tail, (v, at)) = last-elem x xs q1.tail q1.tail is1.tail h null is1.chain in
    let g : Heap = write h q1.tail (some (elem v q2.head)) in
    let in-tail : occupies q1.tail (x ∷ xs) ≡ true = last-occupies x xs q1.tail q1.tail is1.tail in
    (
      ((record q1 { tail = q2.tail; size = q1.size + q2.size }, emptied h q2), g),
      rw
          (
            filled q2.head y is2.head is2.chain.0,
            filled q1.head x is1.head is1.chain.0,
            load-some q1.tail h some-tail at,
          )
          refl,
      (
        record {
          head = is1.head;
          chain =
              subst (λ p. Chain (write h q1.tail (some (elem v p))) ((x ∷ xs) ++ (y ∷ ys)) null)
                (sym is2.head)
                (last-link x xs q1.tail q1.tail is1.tail h v null (y ∷ ys) is1.chain is2.chain apart
                  at);
          size = omega (arith, is1.size, is2.size, length-append xs (y ∷ ys));
          tail = last_of-append xs (y ∷ ys) x.0 ∙ is2.tail;
        },
        emptied-nil h g q2,
        λ a o. write-ne h q1.tail a _ (occupies-ne a q1.tail (x ∷ xs) in-tail o),
      ),
    )
