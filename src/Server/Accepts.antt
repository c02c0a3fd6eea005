-- ===== src/Server/Accepts.antt =====
-- http_server/src/mini_tor.c: the connections that a turn of `do_loop` accepts.
use recycle_bin.Prelude.{
  ℕ, zero, suc, ◌^◌, ◌≤◌, ◌<◌, ◌≡◌, refl, sym, ap, ◌∙◌, inl, inr, Bool, true, false, ◌||◌, Option,
  none, some, List, All, [], ◌∷◌, arith, ◌==◌, Bool-cases, length, ok,
}
use recycle_bin.Server.Pointers.{info_of-put, info_of-kept, store-other, store-same}
use mathlib.Core.Path.{subst}
use recycle_bin.Prelude.Chars.{Bytes}
use recycle_bin.MiniAnt.Poll.{Did, ◌>>=◌, Goes, goes}
use recycle_bin.MiniAnt.Array.Elements.{ant_array_put-get}
use recycle_bin.MiniAnt.Queue.{Ptr, null}
use recycle_bin.MiniAnt.Crawl.{store}
use recycle_bin.MiniAnt.Loop.{ptr_bytes}
use recycle_bin.MiniAnt.Loop.Turn.{info_of}
use recycle_bin.MiniAnt.Loop.Opens.{IsSocks, length-ptr_bytes}
use recycle_bin.Server.{HttpContext, http_new}
use recycle_bin.Server.Serve.{
  Site, Serving, load_context, context_of, serve_connection, accept_loop,
}

-- What waits to be accepted, how many contexts there is memory for, and which addresses are in use.
abbrev pub View : Type 0
View = List ℕ × (ℕ × (Ptr → Bool))

-- A system that gives the waiting connections in their order, of which each can be set and watched, and fresh contexts while
-- there is memory.
pub record IsSite {ℓ} {S : Type ℓ} (site : Site S) (sfd : ℕ) : Type ℓ where
  pub view : S → View
  pub ends : (s : S) → (view s).0 ≡ [] → (site.accept sfd s).0 ≡ none
  pub accepts :
      (fd : ℕ) (fds : List ℕ) (m : ℕ × (Ptr → Bool)) (s : S)
      → view s ≡ (fd ∷ fds, m)
      → ((site.accept sfd s).0 ≡ some fd) × (view (site.accept sfd s).1 ≡ (fds, m))
  pub sets : (fd : ℕ) (s : S) → ((site.set_fl fd s).0 ≡ true) × (view (site.set_fl fd s).1 ≡ view s)
  pub adds :
      (fd : ℕ) (s : S) → ((site.epoll_add fd s).0 ≡ true) × (view (site.epoll_add fd s).1 ≡ view s)
  pub gives :
      (fds : List ℕ) (n : ℕ) (used : Ptr → Bool) (s : S)
      → view s ≡ (fds, (suc n, used))
      → (((site.context s).0 == null) ≡ false)
        × ((site.context s).0 < 256 ^ 8)
        × (used (site.context s).0 ≡ false)
        × (view (site.context s).1 ≡ (fds, (n, λ p. (p == (site.context s).0) || used p)))

-- The descriptor leads to the context at `p`.
pub record IsCached {ℓ} {S : Type ℓ} (c : Serving S) (fd : ℕ) (p : Ptr) (x : HttpContext)
    : Type 0 where
  pub stored : info_of c.cache_sock fd ≡ ok p
  pub given : (p == null) ≡ false
  pub there : c.contexts p ≡ some x

pub context_of-cached {ℓ} :
    {S : Type ℓ} (c : Serving S) (fd : ℕ) (p : Ptr) (x : HttpContext)
    → IsCached c fd p x
    → context_of c fd ≡ goes (p, x)
unfolding context_of load_context
context_of-cached c fd p x is = rw (is.stored, is.given, is.there) refl

-- An address in use is none that is not.
other : (used : Ptr → Bool) (p q : Ptr) → used p ≡ true → used q ≡ false → (p == q) ≡ false
other used p q mine free = elim (Bool-cases (p == q)) [
  | inr e ↦ e
  | inl e ↦
      let same : p ≡ q = ground arith in
      let wrong : true ≡ false = sym mine ∙ ap used same ∙ free in cc
]

-- Whether a descriptor is among those.
unfoldable pub mem : ℕ → List ℕ → Bool
mem j [] = false
mem j (x ∷ xs) = (j == x) || mem j xs

one_of : (a b : Bool) → (a || b) ≡ true → b ≡ false → a ≡ true
one_of true b h none_of = refl
one_of false b h none_of = sym none_of ∙ h

neither : (a b : Bool) → (a || b) ≡ false → (a ≡ false) × (b ≡ false)
neither true b h = let wrong : true ≡ false = h in cc
neither false b h = (refl, h)

here : (j x : ℕ) (xs : List ℕ) → mem j (x ∷ xs) ≡ true → mem j xs ≡ false → j ≡ x
unfolding mem
here j x xs h never = let e = one_of (j == x) (mem j xs) h never in ground arith

not_here :
    (j x : ℕ) (xs : List ℕ) → mem j (x ∷ xs) ≡ false → ((j == x) ≡ false) × (mem j xs ≡ false)
unfolding mem
not_here j x xs h = neither (j == x) (mem j xs) h

module _ {ℓ} {S : Type ℓ} (site : Site S) (data_dir : Bytes) (sfd : ℕ) (is : IsSite site sfd) where
  -- The array has its places, and the contexts are at addresses in use.
  pub record IsServed (used : Ptr → Bool) (c : Serving S) : Type ℓ where
    pub socks : IsSocks 256 c.cache_sock
    pub held : (p : Ptr) (x : HttpContext) → c.contexts p ≡ some x → used p ≡ true

  -- What a connection leaves: its context, and those of the others.
  record IsServedOne (fd : ℕ) (fds : List ℕ) (n : ℕ) (c c' : Serving S) : Type ℓ where
    used : Ptr → Bool
    served : IsServed used c'
    rest : is.view c'.sys ≡ (fds, (n, used))
    place : Ptr
    fresh : IsCached c' fd place (http_new fd data_dir)
    kept :
        (j : ℕ) (p : Ptr) (x : HttpContext)
        → j < 256
        → (j == fd) ≡ false
        → IsCached c j p x
        → IsCached c' j p x

  -- What the connections leave that are accepted.
  pub record IsAccepted (fds : List ℕ) (c c' : Serving S) : Type ℓ where
    pub socks : IsSocks 256 c'.cache_sock
    pub fresh : (fd : ℕ) → mem fd fds ≡ true → (p : Ptr) × IsCached c' fd p (http_new fd data_dir)
    pub kept :
        (j : ℕ) (p : Ptr) (x : HttpContext)
        → j < 256
        → mem j fds ≡ false
        → IsCached c j p x
        → IsCached c' j p x

  serve_connection-caches :
      (fd : ℕ) (fds : List ℕ) (n : ℕ) (used : Ptr → Bool) (c : Serving S)
      → fd < 256
      → is.view c.sys ≡ (fds, (suc n, used))
      → IsServed used c
      → Goes (IsServedOne fd fds n c) (serve_connection site data_dir sfd fd c)
  unfolding serve_connection
  serve_connection-caches fd fds n used c low view served =
      let (set, view1) = is.sets fd c.sys in
      let s1 = (site.set_fl fd c.sys).1 in
      let (added, view2) = is.adds fd s1 in
      let s2 = (site.epoll_add fd s1).1 in
      let (given, small, unused, view3) = is.gives fds n used s2 (view2 ∙ view1 ∙ view) in
      let http = (site.context s2).0 in
      let same_fd : (fd == fd) ≡ true = ground arith in
      let ((got, a), put, (stored, array, len, size, others)) =
        ant_array_put-get site.calloc c.cache_sock fd (ptr_bytes http) served.socks.array
          (rw served.socks.places low) (length-ptr_bytes http ∙ sym served.socks.pointers) in
      (
        record {
          cache_sock = a;
          contexts = store c.contexts http (http_new fd data_dir);
          sys = (site.context s2).1;
        },
        rw (set, added, given, put) refl,
        record {
          used = λ p. (p == http) || used p;
          served = record {
            socks = record {
              array = array;
              places = len ∙ served.socks.places;
              pointers = size ∙ served.socks.pointers;
            };
            held = λ p x at. elim (Bool-cases (p == http)) [
              | inl e ↦ rw e refl
              | inr e ↦ rw e (
                  served.held p x
                    (sym (store-other c.contexts http p (http_new fd data_dir) e) ∙ at))
            ];
          };
          rest = view3;
          place = http;
          fresh = record {
            stored =
                info_of-put a fd http (size ∙ served.socks.pointers) small
                  (others fd (rw served.socks.places low) ∙ rw same_fd refl);
            given = given;
            there = store-same c.contexts http (http_new fd data_dir);
          };
          kept = λ j p x j_low ne cached. record {
            stored =
                info_of-kept c.cache_sock a j served.socks.pointers (size ∙ served.socks.pointers)
                  (others j (rw served.socks.places j_low) ∙ rw ne refl)
                ∙ cached.stored;
            given = cached.given;
            there =
                store-other c.contexts http p (http_new fd data_dir)
                  (other used p http (served.held p x cached.there) unused)
                ∙ cached.there;
          };
        },
      )

  -- A turn of the loop, with what `accept` has given.
  abbrev after_accept : (fuel : ℕ) → Serving S → Option ℕ → Did (Serving S)
  after_accept fuel c got =
      let s = (site.accept sfd c.sys).1 in
      elim got [
        | none ↦ goes (record c { sys = s })
        | some connfd ↦ do
          c ← serve_connection site data_dir sfd connfd (record c { sys = s })
          accept_loop site data_dir sfd fuel c
      ]

  cached_at :
      (c : Serving S) (s : S) (j : ℕ) (p : Ptr) (x : HttpContext)
      → IsCached c j p x
      → IsCached (record c { sys = s }) j p x
  cached_at c s j p x is = record { stored = is.stored; given = is.given; there = is.there }

  -- Connections that can all be set and watched, with descriptors below 256 and memory for a context each: the loop takes all that wait and
  -- ends, with one turn for each and one more. Each of them leads to a new context with its descriptor, and every other descriptor below
  -- 256 that led to a context leads to the same.
  pub accept_loop-caches :
      (fuel : ℕ) (fds : List ℕ) (n : ℕ) (used : Ptr → Bool) (c : Serving S)
      → length fds < fuel
      → length fds ≤ n
      → All (λ fd. fd < 256) fds
      → is.view c.sys ≡ (fds, (n, used))
      → IsServed used c
      → Goes (λ c'. IsAccepted fds c c') (accept_loop site data_dir sfd fuel c)
  unfolding accept_loop mem
  accept_loop-caches zero fds n used c turns memory low view served = absurd (omega arith)
  accept_loop-caches (suc fuel) [] n used c turns memory low view served = (
    record c { sys = (site.accept sfd c.sys).1 },
    ap (after_accept fuel c) (is.ends c.sys (ap (λ v. v.0) view)),
    record {
      socks = served.socks;
      fresh = λ fd h. let wrong : false ≡ true = h in cc;
      kept = λ j p x j_low h cached. cached_at c (site.accept sfd c.sys).1 j p x cached;
    },
  )
  accept_loop-caches (suc fuel) (fd ∷ fds) zero used c turns memory low view served =
      absurd (omega arith)
  accept_loop-caches (suc fuel) (fd ∷ fds) (suc n) used c turns memory (low, lows) view served =
      let (got, view1) = is.accepts fd fds (suc n, used) c.sys view in
      let waiting : Serving S = record c { sys = (site.accept sfd c.sys).1 } in
      let (c1, run1, one) =
        serve_connection-caches fd fds n used waiting low view1
          (record { socks = served.socks; held = served.held }) in
      let (c2, run2, all) =
        accept_loop-caches fuel fds n one.used c1 (omega arith) (omega arith) lows one.rest
          one.served in
      (
        c2,
        ap (after_accept fuel c) got ∙ rw run1 run2,
        record {
          socks = all.socks;
          fresh = λ j h. elim (Bool-cases (mem j fds)) [
            | inl later ↦ all.fresh j later
            | inr never ↦
                let same : j ≡ fd = here j fd fds h never in
                (
                  one.place,
                  all.kept j one.place (http_new j data_dir) (subst (λ k. k < 256) (sym same) low)
                      never
                      (subst (λ k. IsCached c1 k one.place (http_new k data_dir)) (sym same)
                        one.fresh),
                )
          ];
          kept = λ j p x j_low h cached.
              let (ne, out) = not_here j fd fds h in
              all.kept j p x j_low out
                (one.kept j p x j_low ne (cached_at c (site.accept sfd c.sys).1 j p x cached));
        },
      )
