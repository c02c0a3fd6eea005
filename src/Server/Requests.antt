-- ===== src/Server/Requests.antt =====
-- http_server/src/mini_tor.c: a request of `do_loop` whose header does not come at once.
use recycle_bin.Prelude.{
  ℕ, ◌+◌, ◌%◌, ◌^◌, ◌≡◌, refl, true, ◌-◌, some, none, length, arith, ◌==◌, ok,
}
use recycle_bin.Prelude.Chars.{Bytes}
use recycle_bin.Prelude.Int.{negsuc}
use recycle_bin.MiniAnt.Poll.{Goes}
use recycle_bin.MiniAnt.Queue.{Ptr}
use recycle_bin.MiniAnt.Http.Head.{find_end}
use recycle_bin.Server.{HttpContext}
use recycle_bin.Server.Head.{buffer_of, http_read_head}
use recycle_bin.Server.Answer.{do_process}
use recycle_bin.Server.Serve.{Site, Serving, serve_request, http_free}
use recycle_bin.Server.Accepts.{IsCached, context_of-cached}

module _ {ℓ} {S : Type ℓ} (site : Site S) (data_dir : Bytes) (sfd : ℕ) (c : Serving S) (fd : ℕ)
    (p : Ptr) (x : HttpContext) (got : Bytes) (s' : S) where
  -- The context with the count of what has been read.
  abbrev counted : HttpContext
  counted = record x { rblen = (x.rblen + length got) % 2 ^ 14 }

  abbrev after_read : S
  after_read = (site.read x.fd (8192 - x.rblen) true c.sys).1

  head_partial :
      (site.read x.fd (8192 - x.rblen) true c.sys).0 ≡ some got
      → find_end (buffer_of x.rblen got) ≡ ok none
      → http_read_head site.read site.is_dir x c.sys ≡ some (ok (negsuc 0, counted, after_read))
  unfolding http_read_head
  head_partial read none_there = rw (http_read_head, read, none_there) refl

  -- A connection has a context, the bytes that come hold no end of a header, and there is an answer for the context as it is, whose path no
  -- line has set: the answer is given all the same, the connection is closed, and the context forgotten.
  pub serve_request-partial :
      IsCached c fd p x
      → (site.read x.fd (8192 - x.rblen) true c.sys).0 ≡ some got
      → find_end (buffer_of x.rblen got) ≡ ok none
      → do_process site.write (site.disk after_read) counted after_read ≡ ok s'
      → Goes
          (λ c'. (c'.contexts p ≡ none) × (c'.sys ≡ site.close x.fd s'))
          (serve_request site data_dir sfd fd c)
  unfolding serve_request http_free
  serve_request-partial cached read none_there answer =
      let here : (p == p) ≡ true = ground arith in
      (
        http_free site data_dir sfd p counted (record c { sys = s' }),
        rw (context_of-cached c fd p x cached, head_partial read none_there, answer) refl,
        (rw here refl, refl),
      )
