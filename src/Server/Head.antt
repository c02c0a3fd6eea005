-- ===== src/Server/Head.antt =====
-- http_server/src/tor_http.c: `http_read_head`.
use recycle_bin.Prelude.{
  ℕ, zero, suc, ◌+◌, ◌-◌, ◌%◌, ◌^◌, Bool, true, false, Option, none, some, [], ◌∷◌, ◌++◌, leb, ◌==◌,
  if◌then◌else◌, length, drop, replicate, Run, ok, fault, ◌>>=◌,
}
use recycle_bin.Prelude.Chars.{Bytes}
use recycle_bin.Prelude.Int.{ℤ, pos, negsuc, eq_ℤ, ltb_ℤ}
use recycle_bin.MiniAnt.Http.Head.{find_end, starts}
use recycle_bin.Server.{HttpContext, process_line}

-- `for (; *p; p++)`: the line, and where `p` is then. A carriage return before the line feed ends the line, and the
-- line feed is left.
unfoldable pub cut_line : Bytes → Run (Bytes × Bytes)
cut_line [] = fault
cut_line (c ∷ m) =
    let rest = cut_line m in
    if c == 0
    then ok ([], c ∷ m)
    else if starts (13 ∷ 10 ∷ []) (c ∷ m)
    then ok ([], m)
    else if c == 10
    then ok ([], m)
    else (do (l, p) ← rest; ok (c ∷ l, p))

-- A line feed at the front is stepped over.
unfoldable pub next_line : Bytes → Run (Bytes × Bytes)
next_line [] = fault
next_line (c ∷ m) = if c == 10 then cut_line m else cut_line (c ∷ m)

-- `for (;;)`, one unit of fuel for a turn.
unfoldable pub head_loop :
    (is_dir : Bytes → Bool) (fuel line_count : ℕ)
    → Bytes
    → HttpContext
    → Option (Run (ℤ × HttpContext))
head_loop is_dir zero line_count m http = none
head_loop is_dir (suc fuel) line_count m http = elim (next_line m) [
  | fault ↦ some fault
  | ok (line, p) ↦ elim (process_line is_dir line line_count http) [
    | fault ↦ some fault
    | ok (err, http') ↦
        let rest = head_loop is_dir fuel (line_count + 1) p http' in
        if ltb_ℤ err (pos 0)
        then some (ok (err, http'))
        else if eq_ℤ err (pos 0)
        then some (ok (pos 0, http'))
        else rest
  ]
]

-- `http_buf`, cleared, with bytes at a place of it.
unfoldable pub buffer_of : (at : ℕ) → Bytes → Bytes
buffer_of at got = replicate at 0 ++ (got ++ replicate (8192 - at - length got) 0)

-- `http_buf[err] = '\0'` of what has been read to its front.
unfoldable pub ended_at : (got buf : Bytes) → Run Bytes
ended_at got buf =
    if leb (length buf) (length got) then fault else ok (got ++ 0 ∷ drop (length got + 1) buf)

-- What `http->read` is, with the bytes it is asked for and whether they stay.
module _ {ℓ} {S : Type ℓ} (read : ℕ → ℕ → Bool → S → Option Bytes × S) (is_dir : Bytes → Bool) where
  -- Behind the end of the header, at `place`.
  unfoldable pub read_lines :
      (place : ℕ) → (buf : Bytes) → HttpContext → S → Option (Run (ℤ × HttpContext × S))
  read_lines place buf http s =
      let (answer, s) = read http.fd (place + 4) false s in
      elim answer [
        | none ↦ some fault
        | some got ↦ elim (ended_at got buf) [
          | fault ↦ some fault
          | ok m ↦ elim (head_loop is_dir (suc (length m)) 0 m http) [
            | none ↦ none
            | some r ↦ some (do (err, http) ← r; ok (err, http, s))
          ]
        ]
      ]

  -- Where the first read fails `pos` has no value when it is looked at. `rblen` has 14 bits.
  unfoldable pub http_read_head : HttpContext → S → Option (Run (ℤ × HttpContext × S))
  http_read_head http s =
      let (answer, s) = read http.fd (8192 - http.rblen) true s in
      elim answer [
        | none ↦ some fault
        | some got ↦ elim (find_end (buffer_of http.rblen got)) [
          | fault ↦ some fault
          | ok none ↦
              some (ok (negsuc 0, record http { rblen = (http.rblen + length got) % 2 ^ 14 }, s))
          | ok (some place) ↦ read_lines place (buffer_of http.rblen got) http s
        ]
      ]
