-- ===== src/MiniAnt/Http/Head.antt =====
-- mini_ant/src/ant_http.c: `http_send_head` and `http_read_head`.
use recycle_bin.Prelude.{
  ℕ, zero, suc, ◌+◌, ◌-◌, Bool, true, false, ◌&&◌, ◌||◌, Option, none, some, [], ◌∷◌, ◌++◌, leb,
  ◌==◌, if◌then◌else◌, length, take, drop, replicate, Run, ok, fault, ◌>>=◌,
}
use recycle_bin.Prelude.Chars.{Bytes}
use recycle_bin.Prelude.Int.{ℤ, pos, negsuc, eq_ℤ, ltb_ℤ}
use recycle_bin.Pool.{Errno, done, failed}
use recycle_bin.MiniAnt.Sock.{Net, sock_read, readn_nonblock}
use recycle_bin.MiniAnt.Http.{HttpInfo, break_at, process_line}

-- One of "/?#;".
unfoldable pub ends_host : ℕ → Bool
ends_host c = (c == 47) || (c == 63) || (c == 35) || (c == 59)

-- `strncmp(s, prefix, strlen(prefix)) == 0`
unfoldable pub starts : (prefix s : Bytes) → Bool
starts [] s = true
starts (l ∷ prefix) [] = false
starts (l ∷ prefix) (c ∷ s) = let rest = starts prefix s in (c == l) && rest

-- The texts of the request, between which path and host stand.
abbrev pub http_scheme : Bytes
http_scheme = 104 ∷ 116 ∷ 116 ∷ 112 ∷ 58 ∷ 47 ∷ 47 ∷ []

abbrev pub https_scheme : Bytes
https_scheme = 104 ∷ 116 ∷ 116 ∷ 112 ∷ 115 ∷ 58 ∷ 47 ∷ 47 ∷ []

abbrev pub request_get : Bytes
request_get = 71 ∷ 69 ∷ 84 ∷ 32 ∷ 47 ∷ []

abbrev pub request_host : Bytes
request_host =
    32 ∷ 72 ∷ 84 ∷ 84 ∷ 80 ∷ 47 ∷ 49 ∷ 46 ∷ 49 ∷ 13 ∷ 10 ∷ 72 ∷ 111 ∷ 115 ∷ 116 ∷ 58 ∷ 32 ∷ []

abbrev pub request_rest : Bytes
request_rest =
    13 ∷ 10 ∷ 85 ∷ 115 ∷ 101 ∷ 114 ∷ 45 ∷ 65 ∷ 103 ∷ 101 ∷ 110 ∷ 116 ∷ 58 ∷ 32 ∷ 77 ∷ 111 ∷ 122
    ∷ 105 ∷ 108 ∷ 108 ∷ 97 ∷ 47 ∷ 53 ∷ 46 ∷ 48 ∷ 32 ∷ 70 ∷ 105 ∷ 114 ∷ 101 ∷ 102 ∷ 111 ∷ 120 ∷ 47
    ∷ 50 ∷ 50 ∷ 46 ∷ 48 ∷ 13 ∷ 10 ∷ 65 ∷ 99 ∷ 99 ∷ 101 ∷ 112 ∷ 116 ∷ 58 ∷ 32 ∷ 116 ∷ 101 ∷ 120 ∷ 116
    ∷ 47 ∷ 104 ∷ 116 ∷ 109 ∷ 108 ∷ 44 ∷ 97 ∷ 112 ∷ 112 ∷ 108 ∷ 105 ∷ 99 ∷ 97 ∷ 116 ∷ 105 ∷ 111 ∷ 110
    ∷ 47 ∷ 120 ∷ 104 ∷ 116 ∷ 109 ∷ 108 ∷ 43 ∷ 120 ∷ 109 ∷ 108 ∷ 44 ∷ 97 ∷ 112 ∷ 112 ∷ 108 ∷ 105 ∷ 99
    ∷ 97 ∷ 116 ∷ 105 ∷ 111 ∷ 110 ∷ 47 ∷ 120 ∷ 109 ∷ 108 ∷ 59 ∷ 113 ∷ 61 ∷ 48 ∷ 46 ∷ 57 ∷ 44 ∷ 113
    ∷ 61 ∷ 48 ∷ 46 ∷ 56 ∷ 13 ∷ 10 ∷ 68 ∷ 78 ∷ 84 ∷ 58 ∷ 32 ∷ 49 ∷ 13 ∷ 10 ∷ 67 ∷ 111 ∷ 110 ∷ 110
    ∷ 101 ∷ 99 ∷ 116 ∷ 105 ∷ 111 ∷ 110 ∷ 58 ∷ 32 ∷ 107 ∷ 101 ∷ 101 ∷ 112 ∷ 45 ∷ 97 ∷ 108 ∷ 105 ∷ 118
    ∷ 101 ∷ 13 ∷ 10 ∷ 13 ∷ 10 ∷ []

-- `*path == '/' ? path + 1 : path`
unfoldable pub behind_slash : Bytes → Bytes
behind_slash [] = []
behind_slash (c ∷ path) = if c == 47 then path else c ∷ path

unfoldable pub without_scheme : Bytes → Bytes
without_scheme url =
    if starts https_scheme url
    then drop 8 url
    else if starts http_scheme url
    then drop 7 url
    else url

-- The text of the request before it is cut to the array.
unfoldable pub request : (url : Bytes) → Bytes
request url =
    let (host, path) = break_at ends_host (without_scheme url) in
    request_get ++ (behind_slash path ++ (request_host ++ (host ++ request_rest)))

module _ {ℓ} {S : Type ℓ} (net : Net S) where
  -- The result, the state and the system.
  unfoldable pub http_send_head : HttpInfo → S → ℤ × HttpInfo × S
  http_send_head http s =
      if http.ant_write
      then (pos 0, http, s)
      else (let (ans, s) = net.send http.fd (take 4094 (request http.url)) s in
          elim ans [
            | failed e ↦ (negsuc 0, http, s)
            | done n ↦ (pos 0, record http { ant_write = true }, s)
          ])

-- `strstr(response, "\r\n\r\n")`, in an array: the place of it. A text without an end in the array is a fault.
unfoldable pub find_end : Bytes → Run (Option ℕ)
find_end [] = fault
find_end (c ∷ m) =
    let rest = find_end m in
    if c == 0
    then ok none
    else if starts (13 ∷ 10 ∷ 13 ∷ 10 ∷ []) (c ∷ m)
    then ok (some 0)
    else (do o ← rest; ok (elim o [ none ↦ none | some k ↦ some (suc k) ]))

-- `while (*p) …`: what is copied, whether a line has ended, and where `p` is.
unfoldable pub copy_line : Bytes → Run (Bytes × Bool × Bytes)
copy_line [] = fault
copy_line (c ∷ m) =
    let rest = copy_line m in
    if c == 0
    then ok ([], false, c ∷ m)
    else if starts (13 ∷ 10 ∷ []) (c ∷ m)
    then ok ([], true, drop 1 m)
    else (do (l, e, p) ← rest; ok (c ∷ l, e, p))

-- The array `line` with a copy at its front.
unfoldable pub put_front : (copied line : Bytes) → Run Bytes
put_front copied line =
    if leb (length copied) (length line) then ok (copied ++ drop (length copied) line) else fault

-- The text at the front of the array.
unfoldable pub line_text : Bytes → Run Bytes
line_text [] = fault
line_text (c ∷ m) = if c == 0 then ok [] else (do cs ← line_text m; ok (c ∷ cs))

-- `for (;;)`, one unit of fuel for a turn. `got` is whether `malloc` gives memory in `process_line`.
unfoldable pub header_loop :
    (fuel : ℕ) → (got : Bool) → (line p : Bytes) → HttpInfo → Option (Run HttpInfo)
header_loop zero got line p http = none
header_loop (suc fuel) got line p http = elim (copy_line p) [
  | fault ↦ some fault
  | ok (copied, ended, p') ↦ elim (put_front (if ended then copied ++ 0 ∷ [] else copied) line) [
    | fault ↦ some fault
    | ok line' ↦ elim (line_text line') [
      | fault ↦ some fault
      | ok text ↦
          let (err, http') = process_line got text http.linecount http in
          if eq_ℤ err (pos 0)
          then some (ok http')
          else header_loop fuel got line' p' (record http' { linecount = http'.linecount + 1 })
    ]
  ]
]

-- `char response[BUFSIZ] = ""` with bytes at its front.
unfoldable pub response_of : Bytes → Bytes
response_of got = got ++ replicate (8192 - length got) 0

module _ {ℓ} {S : Type ℓ} (net : Net S) where
  -- `line` is what the array held before. The fuel is for each of the two loops.
  unfoldable pub http_read_head :
      (fuel : ℕ)
      → (got : Bool) → (line : Bytes) → Errno
      → HttpInfo
      → S
      → Option (Run (ℤ × HttpInfo × S))
  http_read_head fuel got line errno http s =
      let fresh : HttpInfo = record http { filesize = negsuc 0; chunksize = negsuc 0 } in
      let (ans, s1) = sock_read net http.fd 8192 true s in
      if http.ant_read_head then some (ok (pos 0, http, s)) else elim ans [
        | failed e ↦ some (ok (negsuc 0, fresh, s1))
        | done peeked ↦ elim (find_end (response_of peeked)) [
          | fault ↦ some fault
          | ok none ↦ some (ok (pos 0, record fresh { ant_read_head = true }, s1))
          | ok (some place) ↦ elim (readn_nonblock net fuel http.fd (place + 4) errno s1) [
            | none ↦ none
            | some (bytes, e, moved) ↦
                if ltb_ℤ moved.rv (pos 0)
                then some (ok (negsuc 0, fresh, moved.sys))
                else elim (header_loop fuel got line (response_of bytes) fresh) [
                  | none ↦ none
                  | some fault ↦ some fault
                  | some (ok http') ↦
                      some (ok (pos 0, record http' { ant_read_head = true }, moved.sys))
                ]
          ]
        ]
      ]
