-- ===== src/MiniAnt/Crawl/Flow.antt =====
-- mini_ant/src/mini_ant.c and ant_dns.c together: from a URL of a new domain to a download that is ready; and
-- the state that the crawler starts from.
use recycle_bin.Prelude.{
  ℕ, ◌≡◌, refl, sym, ap, ◌∙◌, true, Option, none, some, List, [], arith, length, Run, ok, ◌>>=◌,
}
use recycle_bin.Prelude.Chars.{Bytes}
use recycle_bin.MiniAnt.Queue.{Heap}
use recycle_bin.MiniAnt.Queue.Chain.{Slots}
use recycle_bin.MiniAnt.Queue.Refines.{queue_new-nil}
use recycle_bin.MiniAnt.Hash.{ant_hash_get}
use recycle_bin.MiniAnt.Hash.Refines.{get-view}
use recycle_bin.MiniAnt.Domain.{IsDomain}
use recycle_bin.MiniAnt.Crawl.{CacheVal, Total, Fresh}
use recycle_bin.MiniAnt.Crawl.Add.{url_add}
use recycle_bin.MiniAnt.Crawl.Held.{IsTotal}
use recycle_bin.MiniAnt.Crawl.Urls.{url_of, IsPath}
use recycle_bin.MiniAnt.Crawl.Adds.{IsFresh}
use recycle_bin.MiniAnt.Dns.{DnsResponse}
use recycle_bin.MiniAnt.Crawl.Release.{process_cache_dns}
use recycle_bin.MiniAnt.Hash.New.{ant_hash_init-IsTable}
use recycle_bin.MiniAnt.Crawl.{ant_total_context_init}

module _ (sp : Bytes → Option ℕ) (f : Fresh) (w : Total) (xs names : Slots)
    (waiting : Bytes → Slots) (is : IsTotal w xs names waiting) (fresh : IsFresh f xs names waiting)
    (d path tail : Bytes) (dom : IsDomain d) (p : IsPath path) where
  abbrev pub answer_of : List ℕ → DnsResponse
  answer_of ip = record { host_name = d; ip = ip; flags = 0x8180 }

  -- The two steps, with the question and its answer between them.
  abbrev pub add_then_answer : (now : ℕ) → (ip : List ℕ) → Run Total
  add_then_answer now ip = do
    w' ← url_add sp f (url_of d path tail) w
    process_cache_dns now (answer_of ip) w'

-- A state with the tables and queues that `ant_total_context_init` makes, where memory is given.
abbrev pub IsStart : Total → Type 0
IsStart w =
    let made = ant_total_context_init true true true true in
    (made.1 ≡ some w.cache_dns) × (made.2 ≡ some w.queue_dns) × (made.3 ≡ some w.down)

-- On any heap there is such a state; it is well formed, and it holds no download, question or domain.
pub ant_total_context_init-IsTotal :
    (heap : Heap)
    → (w : Total) × IsStart w
      × IsTotal w [] [] (λ e. [])
      × ((d : Bytes) → ant_hash_get w.cache_dns d ≡ ok none)
      × (w.cache_dns.length ≡ 0)
unfolding ant_total_context_init
ant_total_context_init-IsTotal heap =
    let (dns, made, (is, no_elements), empty) =
      ant_hash_init-IsTable {V = CacheVal} 4096 (omega arith) in
    let (q, got, q_is) = queue_new-nil heap in
    let w : Total = record {
      cache_dns = dns;
      queue_dns = q;
      down = q;
      heap = heap;
      downs = λ p. none;
      names = λ p. none;
    } in
    let total : IsTotal w [] [] (λ e. []) = record {
      table = is;
      ready = q_is;
      asked = q_is;
      held = λ d val at.
          let gone : ok (some val) ≡ ok none = sym (ap ok at) ∙ sym (get-view is d) ∙ empty d in
          absurd (cc);
      ready_asked = λ a i. refl;
      ready_waits = λ d a i. refl;
      asked_waits = λ d a i. refl;
      waits_waits = λ d e s a i. refl;
    } in
    (w, (made, got, got), total, empty, no_elements)
