-- ===== src/MiniAnt/Http.antt =====
-- mini_ant/src/ant_http.c and ant_http.h: a request, and the header and the body of its response. Text is without its
-- NUL where nothing behind that is looked at.
pub mod Head
pub mod Body
pub mod Name
pub mod Framing
pub mod Lines
mod Examples
use recycle_bin.Prelude.{
  ℕ, zero, suc, ◌+◌, ◌-◌, ◌*◌, ◌/◌, ◌%◌, ◌^◌, ◌≤◌, ◌<◌, ◌≡◌, refl, sym, ap, ◌∙◌, ◌≢◌, ◌↔◌, ◌⊎◌, inl,
  inr, Bool, true, false, not, ◌&&◌, ◌||◌, Option, none, some, List, [], ◌∷◌, ◌++◌, map,
  append_assoc, append-nil, arith, ltb, leb, ◌==◌, if◌then◌else◌, ltb→lt, lt→ltb, leb→le, le→leb,
  tests, ==_iff, Bool-cases, Option-cases, length, get_elem?, set, take, drop, replicate,
  length-append, length-set, length-take, length-drop, length-replicate, get_elem?-lt,
  get_elem?-set_self, get_elem?-set_ne, take-length-append, drop-length-append, take-length, All,
  Run, ok, fault, ◌>>=◌, ◌>>◌, assert, from_option, Returns, bind_ok, bind_regroup,
}
use recycle_bin.Prelude.Chars.{Bytes, IsText, cstr, is_space, is_digit, to_lower}
use recycle_bin.Prelude.Int.{
  ℤ, pos, negsuc, eq_ℤ, eq_ℤ_iff, schar, uchar, neg, ◌-ℤ◌, ltb_ℤ, signed32, unsigned32, pos_part,
  neg_part, schar-injective,
}
use recycle_bin.Pool.{Errno}
use recycle_bin.Buffers.AntBuf.{AntBuf}

-- `struct http_info`. The bits of `status` stand apart, and `none` is `NULL`, and zero for `my_errno`.
pub record HttpInfo : Type 0 where
  pub fd : ℕ
  pub url : Bytes
  pub filesize : ℤ
  pub chunksize : ℤ
  pub linecount : ℕ
  pub http_code : ℤ
  pub end_header : Bool
  pub chunkhead : ℤ
  pub my_errno : Option Errno
  pub isgzip : Bool
  pub close : Bool
  pub ant_write : Bool
  pub ant_read_head : Bool
  pub ant_read_body : Bool
  pub location : Bytes
  pub cookies : Option Bytes
  pub page : AntBuf
  pub filename : Bytes

abbrev pub max_url_size : ℕ
max_url_size = 4096

-- `strcasecmp(s, lower) == 0`, and `strncasecmp(s, lower, strlen(lower)) == 0`, for a text in lower case.
unfoldable pub strcasecmp : (s lower : Bytes) → Bool
strcasecmp [] [] = true
strcasecmp [] (l ∷ ls) = false
strcasecmp (c ∷ s) [] = false
strcasecmp (c ∷ s) (l ∷ ls) = let rest = strcasecmp s ls in (to_lower c == l) && rest

unfoldable pub strncasecmp : (s lower : Bytes) → Bool
strncasecmp s [] = true
strncasecmp [] (l ∷ ls) = false
strncasecmp (c ∷ s) (l ∷ ls) = let rest = strncasecmp s ls in (to_lower c == l) && rest

unfoldable pub skip_space : Bytes → Bytes
skip_space [] = []
skip_space (c ∷ s) = let rest = skip_space s in if is_space c then rest else c ∷ s

unfoldable pub digits : ℕ → Bytes → ℕ
digits n [] = n
digits n (c ∷ s) = let rest = digits (n * 10 + (c - 48)) s in if is_digit c then rest else n

-- `strtol` and `strtoll` to base ten: a number of 64 bits, the nearest one where the text has another.
unfoldable pub strtol_unsigned : Bytes → ℤ
strtol_unsigned s = let n = digits 0 s in pos (if ltb n (2 ^ 63) then n else 2 ^ 63 - 1)

unfoldable pub strtol : Bytes → ℤ
strtol s = elim (skip_space s) [
  | [] ↦ pos 0
  | c ∷ m ↦
      if c == 45
      then (let n = digits 0 m in neg (pos (if ltb n (2 ^ 63) then n else 2 ^ 63)))
      else if c == 43
      then strtol_unsigned m
      else strtol_unsigned (c ∷ m)
]

-- The names of headers and the values that are looked for, in lower case.
abbrev pub location_name : Bytes
location_name = 108 ∷ 111 ∷ 99 ∷ 97 ∷ 116 ∷ 105 ∷ 111 ∷ 110 ∷ []

abbrev pub content_length : Bytes
content_length =
    99 ∷ 111 ∷ 110 ∷ 116 ∷ 101 ∷ 110 ∷ 116 ∷ 45 ∷ 108 ∷ 101 ∷ 110 ∷ 103 ∷ 116 ∷ 104 ∷ []

abbrev pub transfer_encoding : Bytes
transfer_encoding =
    116 ∷ 114 ∷ 97 ∷ 110 ∷ 115 ∷ 102 ∷ 101 ∷ 114 ∷ 45 ∷ 101 ∷ 110 ∷ 99 ∷ 111 ∷ 100 ∷ 105 ∷ 110 ∷ 103
    ∷ []

abbrev pub chunked : Bytes
chunked = 99 ∷ 104 ∷ 117 ∷ 110 ∷ 107 ∷ 101 ∷ 100 ∷ []

abbrev pub content_encoding : Bytes
content_encoding =
    99 ∷ 111 ∷ 110 ∷ 116 ∷ 101 ∷ 110 ∷ 116 ∷ 45 ∷ 101 ∷ 110 ∷ 99 ∷ 111 ∷ 100 ∷ 105 ∷ 110 ∷ 103 ∷ []

abbrev pub gzip : Bytes
gzip = 103 ∷ 122 ∷ 105 ∷ 112 ∷ []

abbrev pub set_cookie : Bytes
set_cookie = 115 ∷ 101 ∷ 116 ∷ 45 ∷ 99 ∷ 111 ∷ 111 ∷ 107 ∷ 105 ∷ 101 ∷ []

abbrev pub connection : Bytes
connection = 99 ∷ 111 ∷ 110 ∷ 110 ∷ 101 ∷ 99 ∷ 116 ∷ 105 ∷ 111 ∷ 110 ∷ []

abbrev pub close_word : Bytes
close_word = 99 ∷ 108 ∷ 111 ∷ 115 ∷ 101 ∷ []

-- The text before the first such character and what is behind it, which begins with that character or is empty.
unfoldable pub break_at : (ℕ → Bool) → Bytes → Bytes × Bytes
break_at stop [] = ([], [])
break_at stop (c ∷ s) =
    let rest = break_at stop s in if stop c then ([], c ∷ s) else (c ∷ rest.0, rest.1)

-- A header: `tag` is its name and `p` its value. `got` is whether `malloc` gives memory for more cookies;
-- `strdup` always gives some. The result of `process_line` and the state.
unfoldable pub set_cookies :
    (got : Bool) → (p : Bytes) → (cookies : Option Bytes) → HttpInfo → ℤ × HttpInfo
set_cookies got p none http = (pos 1, record http { cookies = some p })
set_cookies true p (some tmp) http = (pos 1, record http { cookies = some (tmp ++ 10 ∷ p) })
set_cookies false p (some tmp) http = (negsuc 0, http)

unfoldable pub process_tag : (got : Bool) → (tag p : Bytes) → HttpInfo → ℤ × HttpInfo
process_tag got tag p http =
    if strcasecmp tag location_name
    then (pos 1, record http { location = take (max_url_size - 1) p })
    else if strcasecmp tag content_length && eq_ℤ http.filesize (negsuc 0)
    then (pos 1, record http { filesize = strtol p; chunksize = negsuc 0 })
    else if strcasecmp tag transfer_encoding && strncasecmp p chunked
    then (pos 1, record http { filesize = negsuc 0; chunksize = pos 0 })
    else if strcasecmp tag content_encoding
    then (pos 1, if strncasecmp p gzip then record http { isgzip = true } else http)
    else if strcasecmp tag set_cookie
    then set_cookies got p http.cookies http
    else if strcasecmp tag connection
    then (pos 1, if strcasecmp p close_word then record http { close = true } else http)
    else (pos 1, http)

-- What stands from the colon on, if there is one.
unfoldable pub process_header : (got : Bool) → (tag rest : Bytes) → HttpInfo → ℤ × HttpInfo
process_header got tag [] http = (pos 1, http)
process_header got tag (colon ∷ p) http = process_tag got tag (skip_space p) http

-- `http_code` is an `int`.
unfoldable pub status_line : Bytes → HttpInfo → HttpInfo
status_line line http = record http {
  http_code = signed32 (unsigned32 (strtol (break_at is_space line).1));
}

unfoldable pub process_line :
    (got : Bool) → (line : Bytes) → (line_count : ℕ) → HttpInfo → ℤ × HttpInfo
process_line got [] line_count http = (pos 0, record http { end_header = true })
process_line got (c ∷ line) line_count http =
    if line_count == 0
    then (pos 1, status_line (c ∷ line) http)
    else (let (tag, rest) = break_at (λ x. x == 58) (c ∷ line) in process_header got tag rest http)
