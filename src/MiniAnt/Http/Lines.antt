-- ===== src/MiniAnt/Http/Lines.antt =====
-- mini_ant/src/ant_http.c: the loop of `http_read_head` over the lines of a header.
use recycle_bin.Prelude.{
  ℕ, suc, ◌+◌, ◌<◌, ◌≡◌, refl, ap, ◌∙◌, ◌≢◌, Bool, true, false, ◌&&◌, Option, none, some, List, [],
  ◌∷◌, ◌++◌, append_assoc, arith, leb, ◌==◌, if◌then◌else◌, if-keeps, length, drop, length-append,
  length-drop, All, ok,
}
use recycle_bin.Prelude.Chars.{Bytes}
use recycle_bin.Prelude.Int.{ℤ, pos, negsuc, eq_ℤ}
use recycle_bin.MiniAnt.Http.{
  HttpInfo, process_line, process_header, process_tag, set_cookies, skip_space, strcasecmp,
  strncasecmp, content_length, transfer_encoding, location_name, content_encoding, set_cookie,
  connection, chunked,
}
use recycle_bin.MiniAnt.Http.Head.{starts, copy_line, put_front, line_text, header_loop}
use recycle_bin.MiniAnt.Http.Framing.{IsFramed, process_line-IsFramed}

-- A line that fits into the array: not empty, and neither NUL nor CR in it.
abbrev pub IsLine : Bytes → Type 0
IsLine l = (0 < length l) × (length l < 1024) × All (λ c. (c ≢ 0) × (c ≢ 13)) l

-- The lines, each with its CR and LF, and an empty one.
abbrev pub header : List Bytes → Bytes → Bytes
header [] rest = 13 ∷ 10 ∷ rest
header (l ∷ ls) rest = l ++ 13 ∷ 10 ∷ header ls rest

-- What a line does to the state, the count of lines included.
abbrev pub after_line : Bool → Bytes → HttpInfo → HttpInfo
after_line got l http =
    let next = (process_line got l http.linecount http).1 in
    record next { linecount = next.linecount + 1 }

abbrev pub after_lines : Bool → List Bytes → HttpInfo → HttpInfo
after_lines got [] http = http
after_lines got (l ∷ ls) http = after_lines got ls (after_line got l http)

copy_line-line :
    (l rest : Bytes)
    → All (λ c. (c ≢ 0) × (c ≢ 13)) l
    → copy_line (l ++ 13 ∷ 10 ∷ rest) ≡ ok (l, true, rest)
unfolding copy_line starts
copy_line-line [] rest h = refl
copy_line-line (c ∷ l) rest ((p, q), h) =
    let full : (c == 0) ≡ false = ground (arith, p) in
    let plain : (c == 13) ≡ false = ground (arith, q) in
    rw (full, plain, copy_line-line l rest h) refl

line_text-line :
    (l rest : Bytes) → All (λ c. (c ≢ 0) × (c ≢ 13)) l → line_text (l ++ 0 ∷ rest) ≡ ok l
unfolding line_text
line_text-line [] rest h = refl
line_text-line (c ∷ l) rest ((p, q), h) =
    let full : (c == 0) ≡ false = ground (arith, p) in rw (full, line_text-line l rest h) refl

put_front-line :
    (l line : Bytes)
    → length l < 1024
    → length line ≡ 1024
    → (rest : Bytes) × (put_front (l ++ 0 ∷ []) line ≡ ok (l ++ 0 ∷ rest))
      × (length (l ++ 0 ∷ rest) ≡ 1024)
unfolding put_front
put_front-line l line short size =
    let whole = l ++ 0 ∷ [] in
    let n : length whole ≡ suc (length l) = omega (arith, length-append l (0 ∷ [])) in
    let fits : leb (length whole) (length line) ≡ true = ground (arith, n, size) in
    let rest = drop (length whole) line in
    (
      rest,
      rw fits (ap ok (append_assoc l (0 ∷ []) rest)),
      omega (arith, length-append l (0 ∷ rest), length-drop (length whole) line, n, size),
    )

-- The loop goes on.
abbrev GoesOn : ℤ × HttpInfo → Type 0
GoesOn r = eq_ℤ r.0 (pos 0) ≡ false

set_cookies-GoesOn :
    (got : Bool) (p : Bytes) (cookies : Option Bytes) (http : HttpInfo)
    → GoesOn (set_cookies got p cookies http)
unfolding set_cookies
set_cookies-GoesOn got p none http = refl
set_cookies-GoesOn true p (some c) http = refl
set_cookies-GoesOn false p (some c) http = refl

if-GoesOn : (b : Bool) (x y : ℤ × HttpInfo) → GoesOn x → GoesOn y → GoesOn (if b then x else y)
if-GoesOn b x y = if-keeps GoesOn b x y

process_tag-GoesOn :
    (got : Bool) (tag p : Bytes) (http : HttpInfo) → GoesOn (process_tag got tag p http)
unfolding process_tag
process_tag-GoesOn got tag p http = if-GoesOn (strcasecmp tag location_name) _ _ refl (
    if-GoesOn (strcasecmp tag content_length && eq_ℤ http.filesize (negsuc 0)) _ _ refl (
      if-GoesOn (strcasecmp tag transfer_encoding && strncasecmp p chunked) _ _ refl (
        if-GoesOn (strcasecmp tag content_encoding) (pos 1, _) _ refl
          (if-GoesOn (strcasecmp tag set_cookie) _ _ (set_cookies-GoesOn got p http.cookies http)
            (if-GoesOn (strcasecmp tag connection) (pos 1, _) (pos 1, http) refl refl)))))

process_header-GoesOn :
    (got : Bool) (tag rest : Bytes) (http : HttpInfo) → GoesOn (process_header got tag rest http)
unfolding process_header
process_header-GoesOn got tag [] http = refl
process_header-GoesOn got tag (colon ∷ p) http = process_tag-GoesOn got tag (skip_space p) http

-- A line that is not empty does not end the loop.
process_line-GoesOn :
    (got : Bool) (l : Bytes) (count : ℕ) (http : HttpInfo)
    → 0 < length l
    → GoesOn (process_line got l count http)
unfolding process_line
process_line-GoesOn got [] count http h = absurd (omega arith)
process_line-GoesOn got (c ∷ l) count http h =
    if-GoesOn (count == 0) (pos 1, _) _ refl (process_header-GoesOn got _ _ http)

-- The array after a line.
loop-line :
    (fuel : ℕ) (got : Bool) (line l rest : Bytes) (http : HttpInfo)
    → IsLine l
    → length line ≡ 1024
    → (line' : Bytes) × (length line' ≡ 1024)
      × (header_loop (suc fuel) got line (l ++ 13 ∷ 10 ∷ rest) http
          ≡ header_loop fuel got line' rest (after_line got l http))
unfolding header_loop
loop-line fuel got line l rest http (full, short, plain) size =
    let (behind, put, n) = put_front-line l line short size in
    (
      l ++ 0 ∷ behind,
      n,
      rw
          (
            header_loop,
            copy_line-line l rest plain,
            put,
            line_text-line l behind plain,
            process_line-GoesOn got l http.linecount http full,
          )
          refl,
    )

-- The empty line ends the loop.
loop-last :
    (fuel : ℕ) (got : Bool) (line rest : Bytes) (http : HttpInfo)
    → length line ≡ 1024
    → header_loop (suc fuel) got line (13 ∷ 10 ∷ rest) http
      ≡ some (ok (record http { end_header = true }))
unfolding header_loop process_line
loop-last fuel got line rest http size =
    let (behind, put, n) = put_front-line [] line (omega arith) size in
    rw (header_loop, copy_line-line [] rest tt, put, line_text-line [] behind tt) refl

-- For a header of lines that each fit into the array, and are neither empty nor hold NUL or CR, the loop returns after one
-- turn for each line and one for the empty line behind them: it has done what the lines do, in order, and has
-- seen the end of the header. If the body had no two framings before, it has none after.
pub header_loop-lines :
    (ls : List Bytes) (got : Bool) (line rest : Bytes) (http : HttpInfo)
    → All IsLine ls
    → length line ≡ 1024
    → IsFramed http
    → (header_loop (suc (length ls)) got line (header ls rest) http
        ≡ some (ok (record (after_lines got ls http) { end_header = true })))
      × IsFramed (after_lines got ls http)
header_loop-lines [] got line rest http h size framed =
    (loop-last (length {A = ℕ} []) got line rest http size, framed)
header_loop-lines (l ∷ ls) got line rest http (h, hs) size framed =
    let (line', size', turn) =
      loop-line (suc (length ls)) got line l (header ls rest) http h size in
    let (run, kept) =
      header_loop-lines ls got line' rest (after_line got l http) hs size'
        (process_line-IsFramed got l http.linecount http framed) in
    (turn ∙ run, kept)
