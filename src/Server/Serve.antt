-- ===== src/Server/Serve.antt =====
-- http_server/src/mini_tor.c: `do_loop`.
use recycle_bin.Prelude.{
  ℕ, zero, suc, Bool, not, ◌||◌, Option, none, some, List, [], ◌∷◌, ◌==◌, if◌then◌else◌,
  from_option,
}
use recycle_bin.Prelude.Chars.{Bytes}
use recycle_bin.Prelude.Int.{pos}
use recycle_bin.MiniAnt.Poll.{Event, Did, ◌>>=◌, goes, stops, bad, exit_failure, run, fueled}
use recycle_bin.MiniAnt.Array.{AntArray, ant_array_new, ant_array_put}
use recycle_bin.MiniAnt.Queue.{Ptr, null}
use recycle_bin.MiniAnt.Crawl.{store}
use recycle_bin.MiniAnt.Loop.{ptr_bytes}
use recycle_bin.MiniAnt.Loop.Turn.{info_of}
use recycle_bin.Server.{HttpContext, http_new}
use recycle_bin.Server.Head.{http_read_head}
use recycle_bin.Server.Answer.{Disk, do_process}

-- The system. `accept` gives -1 as `none`; of the others true is success. `context` is what `calloc` gives for a context,
-- and `calloc` the library's for the array.
pub record Site {ℓ} (S : Type ℓ) : Type ℓ where
  pub create_and_bind : ℕ → S → Option ℕ × S
  pub set_fl : ℕ → S → Bool × S
  pub listen : ℕ → S → Bool × S
  pub epoll_create : S → Option ℕ × S
  pub epoll_add : ℕ → S → Bool × S
  pub epoll_wait : S → List Event × S
  pub accept : ℕ → S → Option ℕ × S
  pub close : ℕ → S → S
  pub read : ℕ → ℕ → Bool → S → Option Bytes × S
  pub write : ℕ → Bytes → S → S
  pub is_dir : Bytes → Bool
  pub disk : S → Disk
  pub context : S → Ptr × S
  pub calloc : ℕ → ℕ → Option Bytes

-- What `do_loop` keeps: `cache_sock`, and the contexts by their addresses.
pub record Serving {ℓ} (S : Type ℓ) : Type ℓ where
  pub cache_sock : AntArray
  pub contexts : Ptr → Option HttpContext
  pub sys : S

unfoldable pub load_context : (Ptr → Option HttpContext) → Ptr → Did HttpContext
load_context contexts p = if p == null then bad else run (from_option (contexts p))

-- `http` of a descriptor.
unfoldable pub context_of {ℓ} : {S : Type ℓ} → Serving S → (fd : ℕ) → Did (Ptr × HttpContext)
context_of c fd = do
  http ← run (info_of c.cache_sock fd)
  context ← load_context c.contexts http
  goes (http, context)

module _ {ℓ} {S : Type ℓ} (site : Site S) (data_dir : Bytes) (sfd : ℕ) where
  -- The body of `for (;;)` where `accept` has given `connfd`. The context is written to without a look at what `calloc`
  -- gives; what `tor_array_put` gives is not looked at.
  unfoldable pub serve_connection : (connfd : ℕ) → Serving S → Did (Serving S)
  serve_connection connfd c =
      let (set, s) = site.set_fl connfd c.sys in
      let (added, s) = site.epoll_add connfd s in
      let (http, s) = site.context s in
      if not set
      then stops exit_failure
      else if not added
      then stops exit_failure
      else if http == null
      then bad
      else do
        (stored, array) ← run (ant_array_put site.calloc c.cache_sock connfd (ptr_bytes http))
        goes (record c {
          cache_sock = array;
          contexts = store c.contexts http (http_new connfd data_dir);
          sys = s;
        })

  -- `for (;;)`, one unit of fuel for a turn.
  unfoldable pub accept_loop : (fuel : ℕ) → Serving S → Did (Serving S)
  accept_loop zero c = Did.spent
  accept_loop (suc fuel) c =
      let (got, s) = site.accept sfd c.sys in
      elim got [
        | none ↦ goes (record c { sys = s })
        | some connfd ↦ do c ← serve_connection connfd (record c { sys = s }); accept_loop fuel c
      ]

  -- `http_free`; the texts and the mapping are given back with the context.
  unfoldable pub http_free : (http : Ptr) → HttpContext → Serving S → Serving S
  http_free http context c = record c {
    contexts = λ p. if p == http then none else c.contexts p;
    sys = site.close context.fd c.sys;
  }

  -- A request: what `http_read_head` returns is not looked at.
  unfoldable pub serve_request : (fd : ℕ) → Serving S → Did (Serving S)
  serve_request fd c = do
    (http, context) ← context_of c fd
    (err, context, s) ← fueled (http_read_head site.read site.is_dir context c.sys)
    s ← run (do_process site.write (site.disk s) context s)
    goes (http_free http context (record c { sys = s }))

  unfoldable pub serve_event : (fuel : ℕ) → Event → Serving S → Did (Serving S)
  serve_event fuel e c =
      if e.err || (e.hup || not e.readable)
      then goes (record c { sys = site.close e.fd c.sys })
      else if e.fd == sfd
      then accept_loop fuel c
      else serve_request e.fd c

  unfoldable pub serve_events : (fuel : ℕ) → List Event → Serving S → Did (Serving S)
  serve_events fuel [] c = goes c
  serve_events fuel (e ∷ es) c = do c ← serve_event fuel e c; serve_events fuel es c

  -- So many turns of `for (;;)`.
  unfoldable pub serve_turns : (turns fuel : ℕ) → Serving S → Did (Serving S)
  serve_turns zero fuel c = goes c
  serve_turns (suc turns) fuel c = do
    let (events, s) = site.epoll_wait c.sys
    c ← serve_events fuel events (record c { sys = s })
    serve_turns turns fuel c

-- The listening socket; `none` is an `exit`.
unfoldable pub listening {ℓ} : {S : Type ℓ} → Site S → (port : ℕ) → S → Option ℕ × S
listening site port s =
    let (made, s) = site.create_and_bind port s in
    elim made [
      | none ↦ (none, s)
      | some sfd ↦
          let (set, s) = site.set_fl sfd s in
          let (heard, s') = site.listen sfd s in
          let (efd, s') = site.epoll_create s' in
          if not set then (none, s) else if not heard then (none, s') else elim efd [
            | none ↦ (none, s')
            | some efd ↦
                let (added, s') = site.epoll_add sfd s' in
                if added then (some sfd, s') else (none, s')
          ]
    ]

-- Of a null pointer no element is got or put, as of an array that has none.
unfoldable pub array_of : Option AntArray → AntArray
array_of none = record { array = []; ncurr = pos 0; size = 8; length = 0; flag = 0 }
array_of (some a) = a

-- `got` is whether `tor_array_new` gets its struct, and `got_events` whether there is memory for the events.
unfoldable pub do_loop {ℓ} :
    {S : Type ℓ} (site : Site S) (data_dir : Bytes) (port : ℕ) (got got_events : Bool)
    (turns fuel : ℕ)
    → S
    → Did (Serving S)
do_loop site data_dir port got got_events turns fuel s =
    if not got_events
    then stops exit_failure
    else (let (heard, s) = listening site port s in
        elim heard [
          | none ↦ stops exit_failure
          | some sfd ↦ serve_turns site data_dir sfd turns fuel (record {
            cache_sock = array_of (ant_array_new site.calloc got 256 8);
            contexts = λ p. none;
            sys = s;
          })
        ])
