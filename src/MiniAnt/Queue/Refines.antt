-- ===== src/MiniAnt/Queue/Refines.antt =====
-- The queue functions on the heap against the list of what the queue holds.
use recycle_bin.Prelude.{
  ℕ, ◌+◌, ◌-◌, ◌≡◌, refl, ◌∙◌, ◌≢◌, ◌↔◌, true, false, none, some, [], ◌∷◌, ◌++◌, arith, ◌==◌,
  length, length-append, ok, fault, Returns,
}
use recycle_bin.MiniAnt.Queue.{
  Ptr, null, QueueElem, elem, QueueHead, Heap, write, load, q_new, queue_init, queue_new,
  queue_empty, queue_put, queue_get,
}
use recycle_bin.MiniAnt.Queue.Chain.{
  Slots, occupies, start, last_of, Chain, last_of-append, Chain-frame, write-ne, write-eq,
  occupies-ne, last-occupies, last-elem, last-link, not-occupies-ne, outside-append,
}

-- The queue `q` holds the cells, in order. The tail means nothing while the queue is empty.
pub record IsQueue (h : Heap) (q : QueueHead) (xs : Slots) : Type 0 where
  pub head : q.head ≡ start xs null
  pub chain : Chain h xs null
  pub size : q.size ≡ length xs
  pub tail : last_of xs q.tail ≡ q.tail

-- `g` differs from `h` at most at the addresses of the cells.
abbrev pub SameOutside : Slots → Heap → Heap → Type 0
SameOutside xs h g = (a : Ptr) → occupies a xs ≡ false → g a ≡ h a

pub load-some : (p : Ptr) (h : Heap) {e : QueueElem} → p ≢ null → h p ≡ some e → load p h ≡ ok e
unfolding load
load-some p h ne at = let n : (p == null) ≡ false = ground arith in rw (n, at)

q_new-ok : (f d p : ℕ) (h : Heap) → f ≢ null → q_new f d p h ≡ ok (f, write h f (some (elem d p)))
unfolding q_new
q_new-ok f d p h ne = let n : (f == null) ≡ false = ground arith in rw n

-- A freshly initialised queue is empty, on every heap, and `queue_empty` tells an empty queue.
pub queue_empty-nil :
    (h : Heap)
    → IsQueue h queue_init []
      × ((q : QueueHead) (xs : Slots) → IsQueue h q xs → (queue_empty q ≡ true) ↔ (xs ≡ []))
unfolding queue_init queue_empty
queue_empty-nil h = (record { head = refl; chain = tt; size = refl; tail = refl }, tells)
  where
    tells : (q : QueueHead) (xs : Slots) → IsQueue h q xs → ((q.size == 0) ≡ true) ↔ (xs ≡ [])
    tells q [] is = (λ _. refl, λ _. rw is.size)
    tells q (x ∷ xs) is = (λ e. absurd (ground (arith, is.size)), λ e. cc)

pub queue_empty-cons :
    {h : Heap} {q : QueueHead} {x : Ptr × ℕ} {xs : Slots}
    → IsQueue h q (x ∷ xs)
    → queue_empty q ≡ false
unfolding queue_empty
queue_empty-cons is = ground (arith, is.size)

-- A queue from `queue_new` is empty, on every heap.
pub queue_new-nil : (h : Heap) → (q : QueueHead) × (queue_new true ≡ some q) × IsQueue h q []
unfolding queue_init queue_new
queue_new-nil h = (_, refl, record { head = refl; chain = tt; size = refl; tail = refl })

pub filled : (p : Ptr) (x : Ptr × ℕ) → p ≡ x.0 → x.0 ≢ null → (p == null) ≡ false
filled p x e ne = ground arith

module _ (h : Heap) (q : QueueHead) (fresh d : ℕ) (new : fresh ≢ null) where
  put-nil :
      IsQueue h q []
      → Returns
          (λ (q', g). IsQueue g q' ((fresh, d) ∷ []) × SameOutside ((fresh, d) ∷ []) h g)
          (queue_put fresh d q h)
  unfolding queue_put
  put-nil is = (
    (
      record q { head = fresh; tail = fresh; size = q.size + 1 },
      write h fresh (some (elem d null)),
    ),
    rw (is.head, q_new-ok fresh d null h new) refl,
    (
      record {
        head = refl;
        chain = (new, write-eq h fresh _, refl, tt);
        size = omega (arith, is.size);
        tail = refl;
      },
      λ a o. write-ne h fresh a _ (ground arith),
    ),
  )

  put-cons :
      (x : Ptr × ℕ) (xs : Slots)
      → IsQueue h q (x ∷ xs)
      → occupies fresh (x ∷ xs) ≡ false
      → Returns
          (λ (q', g).
            IsQueue g q' ((x ∷ xs) ++ (fresh, d) ∷ [])
            × SameOutside ((x ∷ xs) ++ (fresh, d) ∷ []) h g)
          (queue_put fresh d q h)
  unfolding queue_put
  put-cons x xs is out =
      let (some-tail, (v, at)) = last-elem x xs q.tail q.tail is.tail h null is.chain in
      let h1 : Heap = write h fresh (some (elem d null)) in
      let g : Heap = write h1 q.tail (some (elem v fresh)) in
      let other : (a : Ptr) → occupies a (x ∷ xs) ≡ true → (a == fresh) ≡ false =
        λ a i. not-occupies-ne a fresh (x ∷ xs) i out in
      let in-tail : occupies q.tail (x ∷ xs) ≡ true = last-occupies x xs q.tail q.tail is.tail in
      let at1 : h1 q.tail ≡ some (elem v null) =
        write-ne h fresh q.tail _ (other q.tail in-tail) ∙ at in
      let chain1 : Chain h1 (x ∷ xs) null =
        Chain-frame h h1 (x ∷ xs) null (λ a i. write-ne h fresh a _ (other a i)) is.chain in
      (
        (record q { tail = fresh; size = q.size + 1 }, g),
        rw
            (
              filled q.head x is.head is.chain.0,
              load-some q.tail h some-tail at,
              q_new-ok fresh d null h new,
              load-some q.tail h1 some-tail at1,
              load-some q.tail g some-tail (write-eq h1 q.tail _),
            )
            refl,
        (
          record {
            head = is.head;
            chain =
                last-link x xs q.tail q.tail is.tail h1 v null ((fresh, d) ∷ []) chain1
                  (new, write-eq h fresh _, refl, tt) (λ a i. rw (other a i)) at1;
            size = omega (arith, is.size, length-append xs ((fresh, d) ∷ []));
            tail = last_of-append xs ((fresh, d) ∷ []) x.0;
          },
          λ a o.
              let (far, near) = outside-append a (x ∷ xs) ((fresh, d) ∷ []) o in
              write-ne h1 q.tail a _ (occupies-ne a q.tail (x ∷ xs) in-tail far)
              ∙ write-ne h fresh a _ (ground arith),
        ),
      )

-- `queue_put`, given an address that `malloc` may return, appends the item to the queue and writes
-- only at its elements and the new one.
pub queue_put-append :
    (h : Heap) (q : QueueHead) (xs : Slots) (fresh d : ℕ)
    → IsQueue h q xs
    → fresh ≢ null
    → occupies fresh xs ≡ false
    → Returns
        (λ (q', g). IsQueue g q' (xs ++ (fresh, d) ∷ []) × SameOutside (xs ++ (fresh, d) ∷ []) h g)
        (queue_put fresh d q h)
queue_put-append h q [] fresh d is new out = put-nil h q fresh d new is
queue_put-append h q (x ∷ xs) fresh d is new out = put-cons h q fresh d new x xs is out

-- `queue_get` of a queue that is not empty returns the first item, frees its element, and leaves the
-- rest of the queue; of an empty queue it reads through a null pointer.
pub queue_get-uncons :
    (h : Heap) (q : QueueHead)
    → ((a d : ℕ) (xs : Slots)
        → IsQueue h q ((a, d) ∷ xs)
        → Returns
            (λ ((out, q'), g). (out ≡ d) × IsQueue g q' xs × (g ≡ write h a none))
            (queue_get q h))
      × (IsQueue h q [] → queue_get q h ≡ fault)
unfolding queue_get load
queue_get-uncons h q = (pops, λ is. rw (is.head, load) refl)
  where
    pops :
        (a d : ℕ) (xs : Slots)
        → IsQueue h q ((a, d) ∷ xs)
        → Returns
            (λ ((out, q'), g). (out ≡ d) × IsQueue g q' xs × (g ≡ write h a none))
            (queue_get q h)
    pops a d xs is =
        let (ne, at, out, c) = is.chain in
        let g : Heap = write h a none in
        (
          ((d, record q { head = start xs null; size = q.size - 1 }), g),
          rw (is.head, load-some a h ne at) refl,
          (
            refl,
            record {
              head = refl;
              chain =
                  Chain-frame h g xs null
                    (λ b i. write-ne h a b none (not-occupies-ne b a xs i out)) c;
              size = omega (arith, is.size);
              tail = rest xs is.tail;
            },
            refl,
          ),
        )
      where
        rest : (ys : Slots) → last_of ys a ≡ q.tail → last_of ys q.tail ≡ q.tail
        rest [] e = refl
        rest (y ∷ ys) e = e
