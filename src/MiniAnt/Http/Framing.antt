-- ===== src/MiniAnt/Http/Framing.antt =====
-- mini_ant/src/ant_http.c: how the body is framed, as `process_line` keeps it.
use recycle_bin.Prelude.{
  ℕ, ◌≡◌, refl, ◌⊎◌, inl, inr, Bool, true, false, ◌&&◌, Option, none, some, [], ◌∷◌, ◌==◌,
  if◌then◌else◌, if-keeps,
}
use recycle_bin.Prelude.Chars.{Bytes}
use recycle_bin.Prelude.Int.{ℤ, negsuc, eq_ℤ}
use recycle_bin.MiniAnt.Http.{
  HttpInfo, process_line, process_tag, process_header, set_cookies, status_line, skip_space,
  strcasecmp, strncasecmp, content_length, transfer_encoding, location_name, content_encoding,
  set_cookie, connection, chunked, gzip, close_word,
}

-- A body has a length, or chunks, or neither; never both.
abbrev pub IsFramed : HttpInfo → Type 0
IsFramed http = (http.filesize ≡ negsuc 0) ⊎ (http.chunksize ≡ negsuc 0)

set_cookies-IsFramed :
    (got : Bool) (p : Bytes) (cookies : Option Bytes) (http : HttpInfo)
    → IsFramed http
    → IsFramed (set_cookies got p cookies http).1
unfolding set_cookies
set_cookies-IsFramed got p none http h = h
set_cookies-IsFramed true p (some c) http h = h
set_cookies-IsFramed false p (some c) http h = h

if-IsFramed :
    (b : Bool) (x y : ℤ × HttpInfo) → IsFramed x.1 → IsFramed y.1 → IsFramed (if b then x else y).1
if-IsFramed b x y = if-keeps (λ r. IsFramed r.1) b x y

process_tag-IsFramed :
    (got : Bool) (tag p : Bytes) (http : HttpInfo)
    → IsFramed http
    → IsFramed (process_tag got tag p http).1
unfolding process_tag
process_tag-IsFramed got tag p http h = if-IsFramed (strcasecmp tag location_name) _ _ h (
    if-IsFramed (strcasecmp tag content_length && eq_ℤ http.filesize (negsuc 0)) _ _ (inr refl) (
      if-IsFramed (strcasecmp tag transfer_encoding && strncasecmp p chunked) _ _ (inl refl) (
        if-IsFramed (strcasecmp tag content_encoding) _ _
          (if-keeps IsFramed (strncasecmp p gzip) _ _ h h)
          (if-IsFramed (strcasecmp tag set_cookie) _ _
            (set_cookies-IsFramed got p http.cookies http h)
            (if-IsFramed (strcasecmp tag connection) _ _
              (if-keeps IsFramed (strcasecmp p close_word) _ _ h h) h)))))

process_header-IsFramed :
    (got : Bool) (tag rest : Bytes) (http : HttpInfo)
    → IsFramed http
    → IsFramed (process_header got tag rest http).1
unfolding process_header
process_header-IsFramed got tag [] http h = h
process_header-IsFramed got tag (colon ∷ p) http h =
    process_tag-IsFramed got tag (skip_space p) http h

pub process_line-IsFramed :
    (got : Bool) (line : Bytes) (count : ℕ) (http : HttpInfo)
    → IsFramed http
    → IsFramed (process_line got line count http).1
unfolding process_line status_line
process_line-IsFramed got [] count http h = h
process_line-IsFramed got (c ∷ line) count http h =
    if-IsFramed (count == 0) _ _ h (process_header-IsFramed got _ _ http h)
