-- ===== src/MiniAnt/Http/Body.antt =====
-- mini_ant/src/ant_http.c: `http_read_body`, by chunks, by a length, or to the end of the connection.
use recycle_bin.Prelude.{
  ℕ, zero, suc, ◌+◌, ◌-◌, ◌*◌, ◌%◌, ◌^◌, Bool, true, not, ◌&&◌, ◌||◌, Option, none, some, [], ◌∷◌,
  ◌++◌, ltb, leb, ◌==◌, if◌then◌else◌, length, replicate, Run, ok, fault, ◌>>=◌,
}
use recycle_bin.Prelude.Chars.{Bytes, is_digit, to_lower}
use recycle_bin.Prelude.Int.{ℤ, pos, negsuc, eq_ℤ, ◌-ℤ◌, ltb_ℤ, signed32, unsigned32, pos_part}
use recycle_bin.Pool.{Errno, done, failed, eagain, eintr, etimedout, other}
use recycle_bin.Buffers.AntBuf.{ant_buf_append}
use recycle_bin.MiniAnt.Sock.{Net, sock_read, readn_block, readn_nonblock}
use recycle_bin.MiniAnt.Http.{HttpInfo, skip_space}
use recycle_bin.MiniAnt.Http.Head.{starts}

-- The value of a hexadecimal digit, or 16.
unfoldable pub hex_value : ℕ → ℕ
hex_value c =
    if is_digit c
    then c - 48
    else if leb 97 (to_lower c) && leb (to_lower c) 102
    then to_lower c - 87
    else 16

unfoldable pub hex_digits : ℕ → Bytes → ℕ
hex_digits n [] = n
hex_digits n (c ∷ s) =
    let rest = hex_digits (n * 16 + hex_value c) s in if hex_value c == 16 then n else rest

-- A prefix `0x` before a digit.
unfoldable pub without_prefix : Bytes → Bytes
without_prefix (a ∷ x ∷ d ∷ s) =
    if (a == 48) && (to_lower x == 120) && not (hex_value d == 16) then d ∷ s else a ∷ x ∷ d ∷ s
without_prefix s = s

unfoldable pub hex_bounded : Bytes → ℕ
hex_bounded s = let n = hex_digits 0 (without_prefix s) in if ltb n (2 ^ 64) then n else 2 ^ 64 - 1

-- `strtoul(s, NULL, 16)`
unfoldable pub strtoul : Bytes → ℕ
strtoul s = elim (skip_space s) [
  | [] ↦ 0
  | c ∷ m ↦
      if c == 45
      then (let n = hex_bounded m in if ltb n (2 ^ 64 - 1) then (2 ^ 64 - n) % 2 ^ 64 else n)
      else if c == 43
      then hex_bounded m
      else hex_bounded (c ∷ m)
]

-- `strstr(line, "\r\n")` in the array: the place of it.
unfoldable pub find_crlf : Bytes → Run (Option ℕ)
find_crlf [] = fault
find_crlf (c ∷ m) =
    let rest = find_crlf m in
    if c == 0
    then ok none
    else if starts (13 ∷ 10 ∷ []) (c ∷ m)
    then ok (some 0)
    else (do o ← rest; ok (elim o [ none ↦ none | some k ↦ some (suc k) ]))

-- `char line[128]`, cleared, with bytes at its front; and the text of it.
unfoldable pub line_of : Bytes → Bytes
line_of got = got ++ replicate (128 - length got) 0

-- What a part of the function ends with: it goes on, or leaves its loop, or returns.
pub data Next {ℓ} (A : Type ℓ) : Type ℓ where
  go : A → Next A
  leave : A → Next A
  return : ℤ → A → Next A

module _ {ℓ} {S : Type ℓ} (net : Net S) (malloc calloc : ℕ → Option Bytes)
    (page_got : ℤ → Bool) where
  -- The head of a chunk, where `chunkhead` is zero; it is an `int32_t`.
  unfoldable pub chunk_head : (fuel : ℕ) → Errno → HttpInfo → S → Option (Run (Next (HttpInfo × S)))
  chunk_head fuel errno http s =
      let (ans, s1) = sock_read net http.fd 127 true s in
      if not (eq_ℤ http.chunkhead (pos 0)) then some (ok (go (http, s))) else elim ans [
        | failed e ↦ some (ok (return (negsuc 0) (http, s1)))
        | done peeked ↦ elim (find_crlf (line_of peeked)) [
          | fault ↦ some fault
          | ok none ↦ some (ok (leave (http, s1)))
          | ok (some place) ↦ elim (readn_block net fuel http.fd (place + 2) errno s1) [
            | none ↦ none
            | some (bytes, moved) ↦
                let n = signed32 (strtoul bytes % 2 ^ 32) in
                if ltb_ℤ moved.rv (pos 0)
                then some (ok (return (negsuc 0) (http, moved.sys)))
                else if eq_ℤ n (pos 0)
                then some (ok (leave (record http { chunkhead = n }, moved.sys)))
                else some (ok (go (record http { chunkhead = n }, moved.sys)))
          ]
        ]
      ]

  -- `if (err > 0)`: what has been read of the chunk is put behind the page.
  unfoldable pub keep : (err : ℤ) → Bytes → HttpInfo → Run HttpInfo
  keep err bytes http =
      if ltb_ℤ (pos 0) err
      then (do
        (rc, page) ← ant_buf_append malloc calloc http.page bytes err
        ok (record http { page = page; chunkhead = http.chunkhead -ℤ err }))
      else ok http

  -- A chunk as far as it has come, and the end of its last line.
  unfoldable pub chunk_body : (fuel : ℕ) → Errno → HttpInfo → S → Option (Run (Next (HttpInfo × S)))
  chunk_body fuel errno http s =
      if not (page_got http.chunkhead)
      then some (ok (return (negsuc 0) (http, s)))
      else elim (readn_nonblock net fuel http.fd (pos_part http.chunkhead) errno s) [
        | none ↦ none
        | some (bytes, e, moved) ↦
            if ltb_ℤ moved.rv (pos 0)
            then some (ok (return (negsuc 0) (http, moved.sys)))
            else elim (keep moved.rv bytes http) [
              | fault ↦ some fault
              | ok http' ↦
                  if not (eq_ℤ http'.chunkhead (pos 0))
                  then some (
                      ok (
                        if eq_ℤ moved.rv (pos 0)
                        then return (pos 0) (http', moved.sys)
                        else go (http', moved.sys)))
                  else elim (readn_block net fuel http.fd 2 moved.errno moved.sys) [
                    | none ↦ none
                    | some (two, moved') ↦ some (
                        ok (
                          if eq_ℤ moved.rv (pos 0)
                          then return (pos 0) (http', moved'.sys)
                          else go (http', moved'.sys)))
                  ]
            ]
      ]

  unfoldable pub chunk_loop :
      (turns fuel : ℕ) → Errno → HttpInfo → S → Option (Run (Next (HttpInfo × S)))
  chunk_loop zero fuel errno http s = none
  chunk_loop (suc turns) fuel errno http s = elim (chunk_head fuel errno http s) [
    | none ↦ none
    | some fault ↦ some fault
    | some (ok (leave r)) ↦ some (ok (leave r))
    | some (ok (return rc r)) ↦ some (ok (return rc r))
    | some (ok (go (http1, s1))) ↦ elim (chunk_body fuel errno http1 s1) [
      | none ↦ none
      | some fault ↦ some fault
      | some (ok (leave r)) ↦ some (ok (leave r))
      | some (ok (return rc r)) ↦ some (ok (return rc r))
      | some (ok (go (http2, s2))) ↦ chunk_loop turns fuel errno http2 s2
    ]
  ]

  -- `Content-Length`; `len` is an `int`.
  unfoldable pub sized_body : (fuel : ℕ) → Errno → HttpInfo → S → Option (Run (Next (HttpInfo × S)))
  sized_body fuel errno http s =
      let len = signed32 (unsigned32 (http.filesize -ℤ pos http.page.ncurr)) in
      if not (page_got len)
      then some (ok (return (negsuc 0) (http, s)))
      else elim (readn_nonblock net fuel http.fd (pos_part len) errno s) [
        | none ↦ none
        | some (bytes, e, moved) ↦
            let left = if ltb_ℤ (pos 0) moved.rv then len -ℤ moved.rv else len in
            let kept =
              if ltb_ℤ (pos 0) moved.rv
              then (do
                (rc, page) ← ant_buf_append malloc calloc http.page bytes moved.rv
                ok (record http { page = page }))
              else ok http in
            elim kept [
              | fault ↦ some fault
              | ok http' ↦ some (
                  ok (
                    if ltb_ℤ moved.rv (pos 0) || ltb_ℤ (pos 0) left
                    then return moved.rv (http', moved.sys)
                    else leave (http', moved.sys)))
            ]
      ]

  -- To the end of the connection.
  unfoldable pub rest_body :
      (turns fuel : ℕ) → Errno → HttpInfo → S → Option (Run (Next (HttpInfo × S)))
  rest_body zero fuel errno http s = none
  rest_body (suc turns) fuel errno http s = elim (readn_nonblock net fuel http.fd 8192 errno s) [
    | none ↦ none
    | some (bytes, e, moved) ↦
        let read : HttpInfo = record http { my_errno = e } in
        if ltb_ℤ (pos 0) moved.rv
        then elim (ant_buf_append malloc calloc http.page bytes moved.rv) [
          | fault ↦ some fault
          | ok (rc, page) ↦ rest_body turns fuel moved.errno (record read { page = page }) moved.sys
        ]
        else if ltb_ℤ moved.rv (pos 0)
        then some (ok (return (negsuc 0) (read, moved.sys)))
        else elim e [
          | some eagain ↦ some (ok (return (negsuc 0) (read, moved.sys)))
          | some eintr ↦ some (ok (leave (read, moved.sys)))
          | some etimedout ↦ some (ok (leave (read, moved.sys)))
          | some other ↦ some (ok (leave (read, moved.sys)))
          | none ↦ some (ok (leave (read, moved.sys)))
        ]
  ]

  -- Which of the three; nothing for a length of zero or below -1.
  unfoldable pub body_of :
      (turns fuel : ℕ) → Errno → HttpInfo → S → Option (Run (Next (HttpInfo × S)))
  body_of turns fuel errno http s =
      if eq_ℤ http.chunksize (pos 0)
      then chunk_loop turns fuel errno http s
      else if ltb_ℤ (pos 0) http.filesize
      then sized_body fuel errno http s
      else if eq_ℤ http.filesize (negsuc 0) && eq_ℤ http.chunksize (negsuc 0)
      then rest_body turns fuel errno http s
      else some (ok (leave (http, s)))

  -- The result, the state and the system. `turns` is the fuel of the loops here, `fuel` of those of the reads. What
  -- `malloc` gives for a part of the page is `page_got`.
  unfoldable pub http_read_body :
      (turns fuel : ℕ) → Errno → HttpInfo → S → Option (Run (ℤ × HttpInfo × S))
  http_read_body turns fuel errno http s =
      if http.ant_read_body
      then some (ok (pos 0, http, s))
      else elim (body_of turns fuel errno http s) [
        | none ↦ none
        | some fault ↦ some fault
        | some (ok (go (http', s'))) ↦ some (ok (pos 0, record http' { ant_read_body = true }, s'))
        | some (ok (leave (http', s'))) ↦
            some (ok (pos 0, record http' { ant_read_body = true }, s'))
        | some (ok (return rc (http', s'))) ↦ some (ok (rc, http', s'))
      ]
