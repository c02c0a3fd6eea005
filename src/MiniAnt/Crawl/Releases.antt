-- ===== src/MiniAnt/Crawl/Releases.antt =====
-- mini_ant/src/ant_dns.c: `process_cache_dns` keeps what the state of the crawler stands for, and makes the
-- downloads of a domain ready.
use recycle_bin.Prelude.{
  ℕ, ◌≡◌, refl, ◌∙◌, true, false, none, some, [], ◌++◌, arith, ◌==◌, length, ok, Returns,
}
use recycle_bin.Prelude.Chars.{Bytes}
use recycle_bin.MiniAnt.Queue.{Heap, QueueHead}
use recycle_bin.MiniAnt.Queue.Chain.{Slots}
use recycle_bin.MiniAnt.Queue.Join.{Joined, queue_join_init-append}
use recycle_bin.MiniAnt.Hash.{ant_hash_get}
use recycle_bin.MiniAnt.Hash.Refines.{view, get-view, put_found-Wrote}
use recycle_bin.MiniAnt.Dns.{DnsResponse}
use recycle_bin.MiniAnt.Crawl.{CacheVal, Total}
use recycle_bin.MiniAnt.Crawl.Release.{process_found, process_cache_dns}
use recycle_bin.MiniAnt.Crawl.Held.{
  IsTotal, IsStep, IsTotal-step, IsQueue-frame, Disjoint-sym, Disjoint-append, with_waiting, known,
  waits,
}

Joined-IsStep :
    (w : Total) (xs names : Slots) (waiting : Bytes → Slots) (is : IsTotal w xs names waiting)
    (d : Bytes) (down left : QueueHead) (h : Heap)
    → Joined w.heap xs (waiting d) ((down, left), h)
    → (new : CacheVal) → length new.ip ≡ 4
    → new.flags ≡ 1
    → IsStep w xs names waiting is d new [] xs (xs ++ waiting d) names down w.queue_dns h
Joined-IsStep w xs names waiting is d down left h joined new four flag = record {
  written = joined.2;
  now_ready = joined.0;
  now_asked = IsQueue-frame w.heap h w.queue_dns xs names is.ready_asked joined.2 is.asked;
  new_held = known four flag refl;
  now_apart =
      Disjoint-append xs (waiting d) names is.ready_asked
        (Disjoint-sym names (waiting d) (is.asked_waits d));
  ready_new = λ a i. refl;
  asked_new = λ a i. refl;
  others = λ e s. (
    is.ready_waits e,
    Disjoint-append xs (waiting d) (waiting e) (is.ready_waits e) (is.waits_waits d e s),
    is.asked_waits e,
    λ a i. absurd (ground (arith, i)),
  );
}

-- A response with four addresses for a domain whose downloads wait: they are behind those that are ready, none waits for it any
-- more, the address is kept for it, what the items lead to is the same, and the state stays well formed.
pub process_cache_dns-releases :
    (now : ℕ) (r : DnsResponse) (w : Total) (xs names : Slots) (waiting : Bytes → Slots)
    (val : CacheVal) (is : IsTotal w xs names waiting)
    → r.flags ≡ 0x8180
    → length r.ip ≡ 4
    → view is.table r.host_name ≡ some val
    → val.flags ≡ 0
    → Returns
        (λ w'.
          IsTotal w' (xs ++ waiting r.host_name) names (with_waiting w r.host_name [] waiting)
          × (ant_hash_get w'.cache_dns r.host_name
              ≡ ok (some (record val { flags = 1; mtime = now; ip = r.ip; down = none })))
          × (w'.downs ≡ w.downs)
          × (w'.names ≡ w.names))
        (process_cache_dns now r w)
unfolding process_cache_dns process_found
process_cache_dns-releases now r w xs names waiting val is answered four found unknown =
    let d = r.host_name in
    let new : CacheVal = record val { flags = 1; mtime = now; ip = r.ip; down = none } in
    elim (is.held d val found) [
      | known _ e _ ↦ absurd (omega (arith, e, unknown))
      | waits _ e q at q_is ↦
          let (((down, left), h), run, joined) =
            queue_join_init-append w.heap w.down q xs (waiting d) is.ready q_is
              (is.ready_waits d) in
          let ((old, dns), put, wrote) = put_found-Wrote is.table true d new val found in
          let fl : (val.flags == 1) ≡ false = ground (arith, unknown) in
          let an : (r.flags == 0x8180) ≡ true = ground (arith, answered) in
          (
            record w { cache_dns = dns; down = down; heap = h },
            rw (get-view is.table d, found, fl, an, at, run, put) refl,
            (
              IsTotal-step w xs names waiting is d new [] xs (xs ++ waiting d) names down
                  w.queue_dns h
                  (Joined-IsStep w xs names waiting is d down left h joined new four refl) old dns
                  wrote w.downs w.names,
              wrote.2 d ∙ rw (is.table.keys.self d) refl,
              refl,
              refl,
            ),
          )
    ]
