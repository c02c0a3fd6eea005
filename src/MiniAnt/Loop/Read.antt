-- ===== src/MiniAnt/Loop/Read.antt =====
-- mini_ant/src/mini_ant.c: `page_to_utf8`, `html_dump` and `do_read`.
use recycle_bin.Prelude.{
  ℕ, zero, suc, ◌-◌, Bool, true, false, not, ◌&&◌, ◌||◌, none, some, List, [], ◌∷◌, ◌++◌, ◌==◌,
  if◌then◌else◌, length, take, drop, Run, ok, fault, from_option, assert,
}
use recycle_bin.Prelude.Chars.{Bytes}
use recycle_bin.Prelude.Int.{pos, negsuc, eq_ℤ, ltb_ℤ, ◌-ℤ◌}
use recycle_bin.Pool.{Errno}
use recycle_bin.Buffers.AntBuf.{AntBuf, ant_buf_new, ant_buf_append}
use recycle_bin.MiniAnt.Poll.{Did, goes, spent, ◌>>=◌, run, fueled}
use recycle_bin.MiniAnt.Queue.{Ptr}
use recycle_bin.MiniAnt.Url.{url_text}
use recycle_bin.MiniAnt.Hash.{AntHash}
use recycle_bin.MiniAnt.Http.{HttpInfo, break_at, strncasecmp, max_url_size}
use recycle_bin.MiniAnt.Http.Head.{ends_host, http_read_head}
use recycle_bin.MiniAnt.Http.Body.{http_read_body}
use recycle_bin.MiniAnt.Http.Name.{setfilename}
use recycle_bin.MiniAnt.Page.{parse_page, extract_fromcode}
use recycle_bin.MiniAnt.Crawl.{Total, skip_head, store}
use recycle_bin.MiniAnt.Crawl.Filter.{KeyAt}
use recycle_bin.MiniAnt.Loop.{whole, part, broken, Host, Conn, Options, Crawler, load_conn}

-- "gb" and "gbk"
abbrev pub gb : Bytes
gb = 103 ∷ 98 ∷ []

-- `(filesize == -1 && chunksize == 0) || filesize > 0 || (filesize == -1 && chunksize == -1)`
unfoldable pub has_page : HttpInfo → Bool
has_page http =
    let unknown = eq_ℤ http.filesize (negsuc 0) in
    (unknown && eq_ℤ http.chunksize (pos 0))
    || (ltb_ℤ (pos 0) http.filesize || (unknown && eq_ℤ http.chunksize (negsuc 0)))

-- `(int)strcspn(p, "/?;#")` characters of `p`, and the path behind them, in an array of `MAX_URL_SIZE`.
unfoldable pub redirected : (url location : Bytes) → Run Bytes
redirected url location = elim (skip_head (url ++ 0 ∷ [])) [
  | ok n ↦ ok (take (max_url_size - 1) ((break_at ends_host (drop n url)).0 ++ location))
  | fault ↦ fault
]

unfoldable pub begins_slash : Bytes → Bool
begins_slash [] = false
begins_slash (c ∷ s) = c == 47

-- `add` is `filter_add`, which `parse_page` is given as well, with the memory that it gets.
module _ {ℓ} {S : Type ℓ} (host : Host S) (opt : Options)
    (add : Bytes → AntHash KeyAt × Total → Run (AntHash KeyAt × Total)) where
  -- Whether the result is 0, and the buffer. What `ant_buf_append` returns is not looked at.
  unfoldable pub page_to_utf8 :
      (fuel : ℕ) → (dst : AntBuf) → (text code : Bytes) → Did (Bool × AntBuf)
  page_to_utf8 zero dst text code = spent
  page_to_utf8 (suc fuel) dst [] code = goes (true, dst)
  page_to_utf8 (suc fuel) dst (b ∷ bs) code = elim (host.iconv code (b ∷ bs)) [
    | broken ↦ goes (false, dst)
    | whole out ↦ do
      (rc, dst) ← run (ant_buf_append host.malloc host.calloc dst out (pos (length out)))
      goes (true, dst)
    | part out left ↦ do
      (rc, dst) ← run (ant_buf_append host.malloc host.calloc dst out (pos (length out)))
      page_to_utf8 fuel dst left code
  ]

  -- The bytes and the object that are written and searched: those of the page where it looks like UTF-8 or cannot
  -- be converted.
  unfoldable pub dumped : (fuel : ℕ) → HttpInfo → S → Did (AntBuf)
  dumped fuel http s =
      if ltb_ℤ (pos 0) (host.looks_utf8 http.page.buf http.page.ncurr) then goes http.page else do
        old ← run (from_option http.page.buf)
        out ← run (ant_buf_new host.malloc host.calloc (host.buf_got s) (pos 0))
        text ← run (url_text old)
        let (found, read) = extract_fromcode text
        let code : Bytes = elim read [ none ↦ [] | some c ↦ c ]
        let code = if strncasecmp code gb then 103 ∷ 98 ∷ 107 ∷ [] else code
        if not found then goes http.page else do
          (converted, out) ← page_to_utf8 fuel out (take http.page.ncurr old) code
          goes (if converted then out else http.page)

  -- `parse_page(buf, total, filter_add)`
  unfoldable pub add_links : List Bytes → AntHash KeyAt × Total → Run (AntHash KeyAt × Total)
  add_links [] w = ok w
  add_links (l ∷ ls) w = elim (add (l ++ 0 ∷ []) w) [ fault ↦ fault | ok w ↦ add_links ls w ]

  -- The part of `html_dump` behind the directory: the page goes to `fd` and its links to the queues.
  unfoldable pub dump_page : (fuel fd : ℕ) → HttpInfo → Crawler S → Did (Crawler S)
  dump_page fuel fd http c = if not (has_page http) then goes c else do
    out ← dumped fuel http c.sys
    let written : Bytes = elim out.buf [ none ↦ [] | some bytes ↦ take out.ncurr bytes ]
    let c : Crawler S = record c { sys = host.write fd written c.sys }
    (uniq, total) ←
        (if opt.debug then goes (c.uniq, c.total) else do
          bytes ← run (from_option out.buf)
          text ← run (url_text bytes)
          links ← fueled (parse_page text)
          run (add_links links (c.uniq, c.total)))
    goes (record c { uniq = uniq; total = total; total_down = c.total_down -ℤ negsuc 0 })

  -- The struct's page is given back, which is left out: the struct goes with it.
  unfoldable pub html_dump : (fuel : ℕ) → HttpInfo → Crawler S → Did (Bool × Crawler S)
  html_dump fuel http c =
      let (there, s) = host.chdir_dump c.sys in
      let c : Crawler S = record c { sys = s } in
      if not there
      then goes (false, c)
      else if not (eq_ℤ http.http_code (pos 200))
      then goes (false, record c { sys = host.chdir_up c.sys })
      else do
        named ← fueled (setfilename (host.exists c.sys) fuel (host.stamp c.sys) http)
        free ← run (assert (not (host.exists c.sys named.filename)))
        let (opened, s) = host.open_file named.filename c.sys
        elim opened [
          | none ↦ goes (false, record c { sys = host.chdir_up s })
          | some fd ↦ do
            c ← dump_page fuel fd named (record c { sys = s })
            goes (true, record c { sys = host.poll.close fd (host.chdir_up c.sys) })
        ]

  -- `status == ANT_DUMP`
  unfoldable pub is_dump : HttpInfo → Bool
  is_dump http = http.ant_write && (http.ant_read_head && http.ant_read_body)

  -- Behind the header of a response.
  unfoldable pub on_response :
      (fuel : ℕ) → Errno → (info : Ptr) → Conn → Crawler S → Did (Crawler S)
  on_response fuel errno info conn c =
      let http = conn.http in
      if eq_ℤ http.http_code (pos 200)
      then (do
        (rc, http, s) ← fueled (
            http_read_body host.net host.malloc host.calloc host.page_got fuel fuel errno http
              c.sys)
        let c : Crawler S = record c {
          infos = store c.infos info (record conn { http = http });
          sys = s;
        }
        if is_dump http then (do (_, c) ← html_dump fuel http c; goes c) else goes c)
      else if eq_ℤ http.http_code (pos 301) || eq_ℤ http.http_code (pos 302)
      then (do
        url ← run (
            if begins_slash http.location
            then redirected http.url http.location
            else ok http.location)
        (uniq, total) ← run (add (url ++ 0 ∷ []) (c.uniq, c.total))
        goes (record c { uniq = uniq; total = total }))
      else goes c

  -- What `http_read_head` returns is not looked at.
  unfoldable pub do_read : (fuel : ℕ) → Errno → (info : Ptr) → Crawler S → Did (Crawler S)
  do_read fuel errno info c = do
    conn ← load_conn c.infos info
    (rc, http, s) ← fueled (
        http_read_head host.net fuel (host.cookie_got c.sys) (host.line c.sys) errno conn.http
          c.sys)
    let conn = record conn { http = http }
    on_response fuel errno info conn (record c { infos = store c.infos info conn; sys = s })
