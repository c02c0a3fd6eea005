-- ===== src/MiniAnt/Crawl/Keeps.antt =====
-- mini_ant/src/mini_ant.c: `url_add` keeps what the state of the crawler stands for, and adds the download.
use recycle_bin.Prelude.{
  ℕ, suc, ◌<◌, ◌≡◌, refl, ap, ◌∙◌, ◌≢◌, ◌⊎◌, true, false, ◌||◌, Option, none, some, [], ◌∷◌, ◌++◌,
  arith, ◌==◌, length, drop, replicate, get_elem?, All-map, ok, assert, Returns,
}
use recycle_bin.Prelude.Chars.{Bytes}
use recycle_bin.MiniAnt.Queue.{queue_new, null}
use recycle_bin.MiniAnt.Queue.Chain.{Slots, Disjoint, outside-append}
use recycle_bin.MiniAnt.Queue.Refines.{queue_put-append, queue_new-nil}
use recycle_bin.MiniAnt.Hash.{has_room, ant_hash_get}
use recycle_bin.MiniAnt.Hash.Refines.{view, get-view, put_room-Wrote}
use recycle_bin.MiniAnt.Url.{ends_domain}
use recycle_bin.MiniAnt.Domain.{IsDomain}
use recycle_bin.MiniAnt.Crawl.{CacheVal, Total, Fresh, cached, store, new_down, read_or_zero}
use recycle_bin.MiniAnt.Url.{http}
use recycle_bin.MiniAnt.Crawl.Add.{url_add, add_new, named}
use recycle_bin.MiniAnt.Crawl.Held.{
  IsTotal, IsTotal-step, Disjoint-one, IsQueue-frame, Disjoint-sym, Disjoint-append, with_waiting,
  alike, waits,
}
use recycle_bin.MiniAnt.Crawl.Urls.{url_of, IsPath, url_text-cstr, with_scheme-url, domain-url}
use recycle_bin.MiniAnt.Crawl.Adds.{IsFresh, IsStored, stored, down_add-put}

module _ (sp : Bytes → Option ℕ) (f : Fresh) (w : Total) (xs names : Slots)
    (waiting : Bytes → Slots) (is : IsTotal w xs names waiting) (fresh : IsFresh f xs names waiting)
    (d path tail : Bytes) (dom : IsDomain d) (p : IsPath path) where
  abbrev pub new_cell : Slots
  new_cell = (f.elem, f.down) ∷ []

  abbrev pub asked_cell : Slots
  asked_cell = (f.name_elem, f.name) ∷ []

  -- The domain is new: it is asked for, and the download waits for it.
  pub add_new-waits :
      has_room f.key_got w.cache_dns ≡ true
      → Returns
          (λ w'.
            IsTotal w' xs (names ++ asked_cell) (with_waiting w d new_cell waiting)
            × ((val : CacheVal) × (ant_hash_get w'.cache_dns d ≡ ok (some val)) × (val.flags ≡ 0))
            × (alike w' ≡ alike w)
            × IsStored sp f w xs names waiting is fresh d path tail dom p 0 w'
            × (w'.names ≡ store w.names f.name d))
          (add_new sp f d (url_of d path tail) w)
  unfolding add_new named
  add_new-waits room =
      let (q, got, empty) = queue_new-nil w.heap in
      let given = ap assert fresh.val_given in
      let got' : queue_new f.queue_got ≡ some q = ap queue_new fresh.queue_given ∙ got in
      let (q', (h, (m, port, run, is', same))) =
        down_add-put sp f fresh.down_new fresh.elem_new fresh.url_given (cached d) 0 d path tail q
          [] w dom p empty refl in
      let downs =
        store w.downs f.down
          (new_down (some (http ++ (d ++ path))) (cached d) 0 (read_or_zero (sp m))) in
      let text : (f.name == null) ≡ false = ground (arith, fresh.text_new) in
      let new : CacheVal = record {
        flags = 0;
        ctime = f.time;
        mtime = f.time;
        ip = replicate 4 0;
        down = some q';
      } in
      let ((old, dns), put, wrote) = put_room-Wrote is.table f.key_got d new room in
      let names_is =
        IsQueue-frame w.heap h w.queue_dns new_cell names
          (Disjoint-one f.elem f.down names fresh.elem_asked) same is.asked in
      let asked_ready : Disjoint (names ++ asked_cell) xs =
        Disjoint-append names asked_cell xs (Disjoint-sym xs names is.ready_asked)
          (Disjoint-one f.name_elem f.name xs fresh.name_ready) in
      let asked_new : Disjoint (names ++ asked_cell) new_cell =
        Disjoint-append names asked_cell new_cell
          (Disjoint-sym new_cell names (Disjoint-one f.elem f.down names fresh.elem_asked))
          (Disjoint-one f.name_elem f.name new_cell fresh.differ) in
      let ((asked, g), put', (asked_is, same')) =
        queue_put-append h w.queue_dns names f.name_elem f.name names_is fresh.name_new
          fresh.name_asked in
      (
        record w {
          cache_dns = dns;
          queue_dns = asked;
          heap = g;
          downs = downs;
          names = store w.names f.name d;
        },
        rw (given, got', run, put, put', text) refl,
        (
          IsTotal-step w xs names waiting is d new new_cell (new_cell ++ (names ++ asked_cell)) xs
              (names ++ asked_cell) w.down asked g
              (record {
                written = λ a o.
                    let (far, near) = outside-append a new_cell (names ++ asked_cell) o in
                    same' a near ∙ same a far;
                now_ready = IsQueue-frame h g w.down (names ++ asked_cell) xs asked_ready same' (
                    IsQueue-frame w.heap h w.down new_cell xs
                      (Disjoint-one f.elem f.down xs fresh.elem_ready) same is.ready);
                now_asked = asked_is;
                new_held =
                    waits refl refl q' refl
                      (IsQueue-frame h g q' (names ++ asked_cell) new_cell asked_new same' is');
                now_apart = Disjoint-sym (names ++ asked_cell) xs asked_ready;
                ready_new =
                    Disjoint-sym new_cell xs (Disjoint-one f.elem f.down xs fresh.elem_ready);
                asked_new = asked_new;
                others = λ e s.
                    let near = Disjoint-one f.elem f.down (waiting e) (fresh.elem_waits e) in
                    let far =
                      Disjoint-append names asked_cell (waiting e) (is.asked_waits e)
                        (Disjoint-one f.name_elem f.name (waiting e) (fresh.name_waits e)) in
                    (
                      Disjoint-append new_cell (names ++ asked_cell) (waiting e) near far,
                      is.ready_waits e,
                      far,
                      near,
                    );
              })
              old dns wrote downs (store w.names f.name d),
          (new, wrote.2 d ∙ rw (is.table.keys.self d) refl, refl),
          wrote.3,
          (m, port, stored sp f w xs names waiting is fresh d path tail dom p 0 m),
          refl,
        ),
      )

  pub url_add-new :
      0 < length d
      → length d < 512
      → length f.domain ≡ 512
      → view is.table d ≡ none
      → url_add sp f (url_of d path tail) w ≡ add_new sp f d (url_of d path tail) w
  unfolding url_add
  url_add-new full fits size e =
      let buf = domain-url f.domain d path tail dom p full fits size in
      let text = url_text-cstr d (drop (suc (length d)) f.domain) (
        All-map (λ c. ((c == 0) || ends_domain c) ≡ false) (λ x. x ≢ 0) d (λ c e. ground (arith, e))
          dom) in
      rw (buf, text, with_scheme-url sp f d path tail, get-view is.table d, e) refl

  -- The three cases.
  abbrev pub Added : Total → Type 0
  Added w' =
      ((view is.table d ≡ none)
        × IsTotal w' xs (names ++ asked_cell) (with_waiting w d new_cell waiting)
        × IsStored sp f w xs names waiting is fresh d path tail dom p 0 w'
        × (w'.names ≡ store w.names f.name d))
      ⊎ ((val : CacheVal) × (view is.table d ≡ some val)
          × ((first : ℕ) × (get_elem? val.ip 0 ≡ some first)
              × IsStored sp f w xs names waiting is fresh d path tail dom p first w')
          × (w'.names ≡ w.names)
          × (((val.flags ≡ 1) × IsTotal w' (xs ++ new_cell) names waiting)
              ⊎ ((val.flags ≡ 0)
                  × IsTotal w' xs names (with_waiting w d (waiting d ++ new_cell) waiting))))
