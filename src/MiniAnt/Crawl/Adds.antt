-- ===== src/MiniAnt/Crawl/Adds.antt =====
-- mini_ant/src/mini_ant.c: `down_add`, and `url_add` for a domain that is known.
use recycle_bin.Prelude.{
  ℕ, ◌≡◌, refl, ◌≢◌, true, false, Option, some, [], ◌∷◌, ◌++◌, arith, ◌==◌, length, get_elem?-lt,
  get_elem?, drop, if◌then◌else◌, Bool-cases, inl, inr, ok, Returns,
}
use recycle_bin.Prelude.Chars.{Bytes}
use recycle_bin.MiniAnt.Queue.{null, Heap, QueueHead}
use recycle_bin.MiniAnt.Queue.Chain.{Slots, occupies, Disjoint}
use recycle_bin.MiniAnt.Queue.Refines.{IsQueue, SameOutside, queue_put-append}
use recycle_bin.MiniAnt.Hash.Refines.{view, put_found-Wrote}
use recycle_bin.MiniAnt.Url.{http}
use recycle_bin.MiniAnt.Domain.{IsDomain}
use recycle_bin.MiniAnt.Crawl.{
  CacheVal, Total, Fresh, IpAt, cached, no_ip, at_port, down_add, store, new_down, read_or_zero,
}
use recycle_bin.MiniAnt.Crawl.Add.{add_known}
use recycle_bin.MiniAnt.Crawl.Urls.{url_of, IsPath, url_text-url, at_port-url, skip_head-url}
use recycle_bin.MiniAnt.Crawl.Held.{
  IsTotal, IsTotal-step, IsTotal-ready, Disjoint-one, IsQueue-frame, Disjoint-sym, Disjoint-append,
  with_waiting, waits,
}

module _ (sp : Bytes → Option ℕ) (f : Fresh) (down_new : f.down ≢ null) (elem_new : f.elem ≢ null)
    (url_given : f.url_got ≡ true) where
  -- The new cell of a queue of downloads.
  abbrev pub added : Slots
  added = (f.elem, f.down) ∷ []

  pub down_add-put :
      (ip : IpAt) (first : ℕ) (d path tail : Bytes) (q : QueueHead) (ys : Slots) (w : Total)
      → IsDomain d
      → IsPath path
      → IsQueue w.heap q ys
      → occupies f.elem ys ≡ false
      → (q' : QueueHead) × ((h : Heap) × ((m : Bytes) × (at_port (drop 7 (url_of d path tail))
              ≡ ok m)
            × (down_add sp f ip first 0 (url_of d path tail) q w
                ≡ ok (
                  true,
                  q',
                  record w {
                    heap = h;
                    downs =
                        store w.downs f.down
                          (new_down (some (http ++ (d ++ path))) ip first (read_or_zero (sp m)));
                  },
                ))
            × IsQueue h q' (ys ++ added)
            × SameOutside (ys ++ added) w.heap h))
  unfolding down_add
  down_add-put ip first d path tail q ys w dom p is out =
      let (m, e, _) = at_port-url d path tail in
      let ((q', h), put, (is', same)) =
        queue_put-append w.heap q ys f.elem f.down is elem_new out in
      let n : (f.down == null) ≡ false = ground (arith, down_new) in
      (
        q',
        (
          h,
          (
            m,
            e,
            rw (n, url_text-url d path tail dom p, skip_head-url d path tail, e, put, url_given)
                refl,
            is',
            same,
          ),
        ),
      )

-- The addresses that `malloc` gives for the cells are no cells yet.
pub record IsFresh (f : Fresh) (xs names : Slots) (waiting : Bytes → Slots) : Type 0 where
  pub down_new : f.down ≢ null
  pub elem_new : f.elem ≢ null
  pub name_new : f.name_elem ≢ null
  pub differ : occupies f.name_elem ((f.elem, f.down) ∷ []) ≡ false
  pub elem_ready : occupies f.elem xs ≡ false
  pub elem_asked : occupies f.elem names ≡ false
  pub elem_waits : (e : Bytes) → occupies f.elem (waiting e) ≡ false
  pub name_ready : occupies f.name_elem xs ≡ false
  pub name_asked : occupies f.name_elem names ≡ false
  pub name_waits : (e : Bytes) → occupies f.name_elem (waiting e) ≡ false
  pub val_given : f.val_got ≡ true
  pub queue_given : f.queue_got ≡ true
  pub url_given : f.url_got ≡ true
  pub text_new : f.name ≢ null

module _ (sp : Bytes → Option ℕ) (f : Fresh) (w : Total) (xs names : Slots)
    (waiting : Bytes → Slots) (is : IsTotal w xs names waiting) (fresh : IsFresh f xs names waiting)
    (d path tail : Bytes) (dom : IsDomain d) (p : IsPath path) where
  abbrev pub new_cell : Slots
  new_cell = (f.elem, f.down) ∷ []

  abbrev pub asked_cell : Slots
  asked_cell = (f.name_elem, f.name) ∷ []

  abbrev url : Bytes
  url = url_of d path tail

  far_ready : (e : Bytes) → Disjoint (xs ++ new_cell) (waiting e)
  far_ready e =
      Disjoint-append xs new_cell (waiting e) (is.ready_waits e)
        (Disjoint-one f.elem f.down (waiting e) (fresh.elem_waits e))

  -- The new download: the URL without what is behind it, the address `first` or where it will be kept, and the port that is read
  -- behind the domain. What the other items lead to is the same.
  abbrev pub IsStored : (first : ℕ) → Total → Type 0
  IsStored first w' =
      (m : Bytes) × (at_port (drop 7 (url_of d path tail)) ≡ ok m)
      × (w'.downs
          ≡ store w.downs f.down (record {
            url = some (http ++ (d ++ path));
            ip = if first == 0 then cached d else no_ip;
            ip2 = first;
            port = read_or_zero (sp m);
          }))

  pub stored :
      (first : ℕ) (m : Bytes)
      → store w.downs f.down
          (new_down (some (http ++ (d ++ path))) (cached d) first (read_or_zero (sp m)))
        ≡ store w.downs f.down (record {
          url = some (http ++ (d ++ path));
          ip = if first == 0 then cached d else no_ip;
          ip2 = first;
          port = read_or_zero (sp m);
        })
  unfolding new_down
  stored first m = elim (Bool-cases (first == 0)) [
    | inl e ↦ let zero_first : first ≡ 0 = ground (arith, e) in rw zero_first refl
    | inr e ↦ rw e refl
  ]

  -- The address is known: the download is ready.
  pub add_known-ready :
      (val : CacheVal)
      → length val.ip ≡ 4
      → val.flags ≡ 1
      → Returns
          (λ w'.
            IsTotal w' (xs ++ new_cell) names waiting
            × ((first : ℕ) × (get_elem? val.ip 0 ≡ some first) × IsStored first w')
            × (w'.names ≡ w.names))
          (add_known sp f d url val w)
  unfolding add_known
  add_known-ready val four flag =
      let (first, at) = get_elem?-lt val.ip 0 (omega (arith, four)) in
      let fl : (val.flags == 1) ≡ true = ground (arith, flag) in
      let (q', (h, (m, port, run, is', same))) =
        down_add-put sp f fresh.down_new fresh.elem_new fresh.url_given (cached d) first d path tail
          w.down xs w dom p is.ready fresh.elem_ready in
      let downs =
        store w.downs f.down
          (new_down (some (http ++ (d ++ path))) (cached d) first (read_or_zero (sp m))) in
      (
        record w { down = q'; heap = h; downs = downs },
        rw (at, fl, run) refl,
        (
          IsTotal-ready w xs names waiting is (xs ++ new_cell) q' h downs same is'
              (Disjoint-append xs new_cell names is.ready_asked
                (Disjoint-one f.elem f.down names fresh.elem_asked))
              far_ready,
          (first, at, (m, port, stored first m)),
          refl,
        ),
      )

  -- The address is asked for: the download waits with the others of the domain.
  pub add_known-waits :
      (val : CacheVal) (q : QueueHead)
      → length val.ip ≡ 4
      → val.flags ≡ 0
      → val.down ≡ some q
      → IsQueue w.heap q (waiting d)
      → view is.table d ≡ some val
      → Returns
          (λ w'.
            IsTotal w' xs names (with_waiting w d (waiting d ++ new_cell) waiting)
            × ((first : ℕ) × (get_elem? val.ip 0 ≡ some first) × IsStored first w')
            × (w'.names ≡ w.names))
          (add_known sp f d url val w)
  unfolding add_known
  add_known-waits val q four flag at_q q_is found =
      let ys = waiting d ++ new_cell in
      let (first, at) = get_elem?-lt val.ip 0 (omega (arith, four)) in
      let fl : (val.flags == 1) ≡ false = ground (arith, flag) in
      let (q', (h, (m, port, run, is', same))) =
        down_add-put sp f fresh.down_new fresh.elem_new fresh.url_given (cached d) first d path tail
          q (waiting d) w dom p q_is (fresh.elem_waits d) in
      let downs =
        store w.downs f.down
          (new_down (some (http ++ (d ++ path))) (cached d) first (read_or_zero (sp m))) in
      let new : CacheVal = record val { down = some q' } in
      let ((old, dns), put, wrote) = put_found-Wrote is.table true d new val found in
      let ready_far : Disjoint xs ys = Disjoint-sym ys xs (
        Disjoint-append (waiting d) new_cell xs (Disjoint-sym xs (waiting d) (is.ready_waits d))
          (Disjoint-one f.elem f.down xs fresh.elem_ready)) in
      let asked_far : Disjoint names ys = Disjoint-sym ys names (
        Disjoint-append (waiting d) new_cell names
          (Disjoint-sym names (waiting d) (is.asked_waits d))
          (Disjoint-one f.elem f.down names fresh.elem_asked)) in
      (
        record w { cache_dns = dns; heap = h; downs = downs },
        rw (at, fl, at_q, run, put) refl,
        (
          IsTotal-step w xs names waiting is d new ys ys xs names w.down w.queue_dns h
              (record {
                written = same;
                now_ready =
                    IsQueue-frame w.heap h w.down ys xs (Disjoint-sym xs ys ready_far) same
                      is.ready;
                now_asked =
                    IsQueue-frame w.heap h w.queue_dns ys names (Disjoint-sym names ys asked_far)
                      same is.asked;
                new_held = waits four flag q' refl is';
                now_apart = is.ready_asked;
                ready_new = ready_far;
                asked_new = asked_far;
                others = λ e s.
                    let far =
                      Disjoint-append (waiting d) new_cell (waiting e) (is.waits_waits d e s)
                        (Disjoint-one f.elem f.down (waiting e) (fresh.elem_waits e)) in
                    (far, is.ready_waits e, is.asked_waits e, far);
              })
              old dns wrote downs w.names,
          (first, at, (m, port, stored first m)),
          refl,
        ),
      )
