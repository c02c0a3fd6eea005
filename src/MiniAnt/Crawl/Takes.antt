-- ===== src/MiniAnt/Crawl/Takes.antt =====
-- mini_ant/src/mini_ant.c and ant_dns.c: what the crawler's state stands for after an item has been taken from one of
-- its two queues.
use recycle_bin.Prelude.{ℕ, ◌≡◌, Option, none, [], ◌∷◌, arith, Returns}
use recycle_bin.Prelude.Chars.{Bytes}
use recycle_bin.MiniAnt.Queue.{Ptr, Heap, write, queue_get}
use recycle_bin.MiniAnt.Queue.Chain.{Slots, Disjoint, write-ne}
use recycle_bin.MiniAnt.Queue.Refines.{SameOutside, queue_get-uncons}
use recycle_bin.MiniAnt.Crawl.{Down, Total}
use recycle_bin.MiniAnt.Crawl.Held.{IsTotal, IsQueue-frame, IsHeld-frame, Disjoint-sym}

first-Disjoint : (a d : ℕ) (xs ys : Slots) → Disjoint ((a, d) ∷ xs) ys → Disjoint ((a, d) ∷ []) ys
first-Disjoint a d xs ys apart b i = apart b (ground (arith, i))

rest-Disjoint : (a d : ℕ) (xs ys : Slots) → Disjoint ((a, d) ∷ xs) ys → Disjoint xs ys
rest-Disjoint a d xs ys apart b i = apart b (ground (arith, i))

write-SameOutside : (h : Heap) (a d : ℕ) → SameOutside ((a, d) ∷ []) h (write h a none)
write-SameOutside h a d b o = write-ne h a b none (ground (arith, o))

module _ (w : Total) (a d : ℕ) (waiting : Bytes → Slots) where
  -- The queue of the domains that are to be asked for.
  pub get-asked :
      (xs names : Slots)
      → IsTotal w xs ((a, d) ∷ names) waiting
      → Returns
          (λ ((out, q), h).
            (out ≡ d)
            × ((texts : Ptr → Option Bytes)
                → IsTotal (record w { queue_dns = q; heap = h; names = texts }) xs names waiting))
          (queue_get w.queue_dns w.heap)
  get-asked xs names is =
      let (((out, q), h), run, (item, queue, heap)) =
        (queue_get-uncons w.heap w.queue_dns).0 a d names is.asked in
      let same : SameOutside ((a, d) ∷ []) w.heap h = rw heap (write-SameOutside w.heap a d) in
      let rest = Disjoint-sym xs ((a, d) ∷ names) is.ready_asked in
      (
        ((out, q), h),
        run,
        (
          item,
          λ texts. record {
            table = is.table;
            ready =
                IsQueue-frame w.heap h w.down ((a, d) ∷ []) xs (first-Disjoint a d names xs rest)
                  same is.ready;
            asked = queue;
            held = λ e val at.
                IsHeld-frame w.heap h val ((a, d) ∷ []) (waiting e)
                  (first-Disjoint a d names (waiting e) (is.asked_waits e)) same (is.held e val at);
            ready_asked = Disjoint-sym names xs (rest-Disjoint a d names xs rest);
            ready_waits = is.ready_waits;
            asked_waits = λ e. rest-Disjoint a d names (waiting e) (is.asked_waits e);
            waits_waits = is.waits_waits;
          },
        ),
      )

  -- The queue of the downloads that are ready.
  pub get-ready :
      (xs names : Slots)
      → IsTotal w ((a, d) ∷ xs) names waiting
      → Returns
          (λ ((out, q), h).
            (out ≡ d)
            × ((downs : Ptr → Option Down)
                → IsTotal (record w { down = q; heap = h; downs = downs }) xs names waiting))
          (queue_get w.down w.heap)
  get-ready xs names is =
      let (((out, q), h), run, (item, queue, heap)) =
        (queue_get-uncons w.heap w.down).0 a d xs is.ready in
      let same : SameOutside ((a, d) ∷ []) w.heap h = rw heap (write-SameOutside w.heap a d) in
      (
        ((out, q), h),
        run,
        (
          item,
          λ downs. record {
            table = is.table;
            ready = queue;
            asked =
                IsQueue-frame w.heap h w.queue_dns ((a, d) ∷ []) names
                  (first-Disjoint a d xs names is.ready_asked) same is.asked;
            held = λ e val at.
                IsHeld-frame w.heap h val ((a, d) ∷ []) (waiting e)
                  (first-Disjoint a d xs (waiting e) (is.ready_waits e)) same (is.held e val at);
            ready_asked = rest-Disjoint a d xs names is.ready_asked;
            ready_waits = λ e. rest-Disjoint a d xs (waiting e) (is.ready_waits e);
            asked_waits = is.asked_waits;
            waits_waits = is.waits_waits;
          },
        ),
      )
