-- ===== src/Server.antt =====
-- http_server/src: a server of files, tor_http.c with tor_http.h and of mini_tor.c the list of a directory. Text is
-- without its NUL where nothing behind that is looked at.
pub mod Head
pub mod Answer
pub mod Lines
pub mod Paths
pub mod Serve
pub mod Pointers
pub mod Accepts
pub mod Requests
mod Examples
mod LoopExamples
use recycle_bin.Prelude.{
  ℕ, zero, suc, ◌+◌, ◌-◌, Bool, true, false, not, ◌&&◌, Option, none, some, [], ◌∷◌, ◌++◌, ltb, leb,
  ◌==◌, if◌then◌else◌, length, take, drop, Run, ok, fault, ◌>>=◌,
}
use recycle_bin.Prelude.Chars.{Bytes}
use recycle_bin.Prelude.Int.{ℤ, pos, negsuc}
use recycle_bin.MiniAnt.Http.{strcasecmp, strncasecmp, skip_space, break_at}
use recycle_bin.MiniAnt.Page.{scan_set}

abbrev pub max_url_size : ℕ
max_url_size = 4096

-- `http_context` without its callbacks. `head` and `page` are texts with the sizes of their buffers, `none` for `NULL`;
-- `unmapped` says that `page` is what a failed `mmap` returns.
pub record HttpContext : Type 0 where
  pub fd : ℕ
  pub path : Bytes
  pub fname : Bytes
  pub conn : Bool
  pub rblen : ℕ
  pub mm : Bool
  pub head : Option (Bytes × ℕ)
  pub page : Option (Bytes × ℕ)
  pub unmapped : Bool

-- `config.data_dir` cut to `TOR_PATH`.
unfoldable pub http_new : (fd : ℕ) → (data_dir : Bytes) → HttpContext
http_new fd data_dir = record {
  fd = fd;
  path = [];
  fname = take 255 data_dir;
  conn = false;
  rblen = 0;
  mm = false;
  head = none;
  page = none;
  unmapped = false;
}

-- "get", "connection", "keep-alive", "referer" and "http://"
abbrev pub get_word : Bytes
get_word = 103 ∷ 101 ∷ 116 ∷ []

abbrev pub connection : Bytes
connection = 99 ∷ 111 ∷ 110 ∷ 110 ∷ 101 ∷ 99 ∷ 116 ∷ 105 ∷ 111 ∷ 110 ∷ []

abbrev pub keep_alive : Bytes
keep_alive = 107 ∷ 101 ∷ 101 ∷ 112 ∷ 45 ∷ 97 ∷ 108 ∷ 105 ∷ 118 ∷ 101 ∷ []

abbrev pub referer : Bytes
referer = 114 ∷ 101 ∷ 102 ∷ 101 ∷ 114 ∷ 101 ∷ 114 ∷ []

abbrev pub scheme : Bytes
scheme = 104 ∷ 116 ∷ 116 ∷ 112 ∷ 58 ∷ 47 ∷ 47 ∷ []

-- Behind the spaces of `"%*[ ]/%3800[^ ]"`.
unfoldable pub scan_target : Bytes → Option Bytes
scan_target [] = none
scan_target (c ∷ s) =
    let (target, _) = scan_set (λ x. not (x == 32)) 3800 s in
    if (c == 47) && not (length target == 0) then some target else none

-- `sscanf(…, "%*[ ]/%3800[^ ]", http->path)`, where the result is 1.
unfoldable pub scan_path : Bytes → Option Bytes
scan_path s =
    let (skipped, rest) = scan_set (λ x. x == 32) (length s) s in
    if length skipped == 0 then none else scan_target rest

-- The last character, if there is one.
unfoldable pub last_char : Bytes → Option ℕ
last_char [] = none
last_char (c ∷ []) = some c
last_char (c ∷ d ∷ s) = last_char (d ∷ s)

unfoldable pub ends_slash : Bytes → Bool
ends_slash s = elim (last_char s) [ none ↦ false | some c ↦ c == 47 ]

-- `snprintf` of the referer's path behind the name, then a slash behind a directory. Both have to stay inside the
-- array. `is_dir` is `IS_DIR`.
unfoldable pub append_referer : (is_dir : Bytes → Bool) → (fname p : Bytes) → Run Bytes
append_referer is_dir fname p =
    let len = length fname in
    let n = length p in
    let joined = fname ++ take (max_url_size - len - 1) p in
    if ltb n (max_url_size - len) && (is_dir joined && not (ends_slash joined))
    then (if ltb (len + n + 1) max_url_size then ok (joined ++ 47 ∷ []) else fault)
    else ok joined

-- `http->fname[strlen(http->fname) - 1]` of an empty name is in front of the array.
unfoldable pub join_referer : (is_dir : Bytes → Bool) → (fname value : Bytes) → Run Bytes
join_referer is_dir fname value =
    let rest =
      (break_at (λ x. x == 47) (if strncasecmp value scheme then drop 7 value else value)).1 in
    if length rest == 0
    then ok fname
    else if length fname == 0
    then fault
    else append_referer is_dir fname (if ends_slash fname then drop 1 rest else rest)

-- A header line, with what stands from the colon on.
unfoldable pub process_header :
    (is_dir : Bytes → Bool) → (tag rest : Bytes) → HttpContext → Run (ℤ × HttpContext)
process_header is_dir tag [] http = ok (pos 1, http)
process_header is_dir tag (colon ∷ value) http =
    let p = skip_space value in
    if strcasecmp tag connection
    then ok (pos 1, record http { conn = if strcasecmp p keep_alive then true else http.conn })
    else if strcasecmp tag referer
    then (do fname ← join_referer is_dir http.fname p; ok (pos 1, record http { fname = fname }))
    else ok (pos 1, http)

-- The first line. `len` has no value where the method is not GET.
unfoldable pub request_line : Bytes → HttpContext → Run (ℤ × HttpContext)
request_line line http =
    if not (strncasecmp line get_word) then fault else elim (scan_path (drop 3 line)) [
      | none ↦ ok (negsuc 0, http)
      | some path ↦ ok (pos 1, record http { path = path })
    ]

unfoldable pub process_line :
    (is_dir : Bytes → Bool)
    → (line : Bytes) → (line_count : ℕ) → HttpContext
    → Run (ℤ × HttpContext)
process_line is_dir [] line_count http = ok (pos 0, http)
process_line is_dir (c ∷ line) line_count http =
    if line_count == 0
    then request_line (c ∷ line) http
    else (let (tag, rest) = break_at (λ x. x == 58) (c ∷ line) in
        process_header is_dir tag rest http)
