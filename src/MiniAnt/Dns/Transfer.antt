-- ===== src/MiniAnt/Dns/Transfer.antt =====
-- mini_ant/src/ant_dns.c: `dns_recv_packet`, `dns_send_packet`, `clean_fd` and `get_dns_ip`.
use recycle_bin.Prelude.{
  ℕ, ◌+◌, ◌-◌, Bool, true, false, not, ◌&&◌, Option, none, some, List, [], ◌∷◌, ◌++◌, map, ltb, leb,
  ◌==◌, if◌then◌else◌, length, take, drop, Run, ok, fault, ◌>>=◌, ◌>>◌, assert,
}
use recycle_bin.Prelude.Chars.{Bytes, is_space}
use recycle_bin.Prelude.Int.{ℤ, pos, negsuc, ◌-ℤ◌, ltb_ℤ}
use mathlib.Core.Option
use recycle_bin.Pool.{Errno, Answer, Moved}
use recycle_bin.MiniAnt.Sock.{Net, readn_block}
use recycle_bin.MiniAnt.Dns.{u16_bytes, read_u16, DnsResponse}
use recycle_bin.MiniAnt.Dns.Query.{set_dns_packets}
use recycle_bin.MiniAnt.Dns.Reply.{parse_dns_packets}

-- An array of the code, with what it held before, whose front has been overwritten.
unfoldable pub overwrite : (got old : Bytes) → Bytes
overwrite got old = got ++ drop (length got) old

module _ {ℓ} {S : Type ℓ} (net : Net S) where
  -- The result and the response, where the packet has come; `head` and `res` hold what the arrays on the
  -- stack held before. The result of the parser is not looked at. `none` is a run out of fuel.
  unfoldable pub dns_recv_packet :
      (fuel sock : ℕ)
      → (head res : Bytes) → DnsResponse
      → Errno
      → S
      → Option (Run (ℤ × DnsResponse × Moved S))
  dns_recv_packet fuel sock head res response errno s = elim (readn_block net fuel sock 2 errno s) [
    | none ↦ none
    | some (got, w) ↦
        if not (ltb_ℤ (pos 0) w.rv)
        then some (ok (w.rv, response, w))
        else elim (read_u16 (overwrite got head)) [
          | fault ↦ some fault
          | ok (n, _) ↦
              if ltb 1024 n
              then some (ok (negsuc 0, response, w))
              else elim (readn_block net fuel sock n w.errno w.sys) [
                | none ↦ none
                | some (body, w') ↦ some (do
                  (rc, header, data') ← parse_dns_packets (overwrite body res) response
                  ok (w'.rv, data', w'))
              ]
        ]
  ]

  -- `id` is the static counter; the packet and its length stand in 512 bytes.
  unfoldable pub dns_send_packet :
      (got : Bool) → (id sock : ℕ) → (name : Bytes) → S → Run (Answer ℕ × S)
  dns_send_packet got id sock name s = do
    packet ← set_dns_packets got name id
    assert (leb (length packet + 2) 512)
    ok (net.send sock (u16_bytes (length packet) ++ packet) s)

-- The sockets in reserve and their number.
unfoldable pub clean_fd : (sock : ℕ) → (cache_sock : List ℕ) → (nsock : ℤ) → List ℕ × ℤ
clean_fd sock cache_sock nsock = (map (λ c. if c == sock then 0 else c) cache_sock, nsock -ℤ pos 1)

-- `strcmp(a, b) == 0`
unfoldable pub same : Bytes → Bytes → Bool
same [] [] = true
same (a ∷ as') (b ∷ bs) = let rest = same as' bs in (a == b) && rest
same [] (b ∷ bs) = false
same (a ∷ as') [] = false

-- A line without its line feed: the word at its start, and what is behind the space after it, if there is one.
unfoldable pub first_word : Bytes → Option (Bytes × Bytes)
first_word [] = none
first_word (c ∷ line) =
    let rest = first_word line in
    if is_space c then some ([], line) else Option.map (λ r. (c ∷ r.0, r.1)) rest

-- "nameserver", "search" and "127.0.0.1"
abbrev pub nameserver : Bytes
nameserver = 110 ∷ 97 ∷ 109 ∷ 101 ∷ 115 ∷ 101 ∷ 114 ∷ 118 ∷ 101 ∷ 114 ∷ []

abbrev pub search_word : Bytes
search_word = 115 ∷ 101 ∷ 97 ∷ 114 ∷ 99 ∷ 104 ∷ []

abbrev pub localhost : Bytes
localhost = 49 ∷ 50 ∷ 55 ∷ 46 ∷ 48 ∷ 46 ∷ 48 ∷ 46 ∷ 49 ∷ []

unfoldable pub until_newline : Bytes → Bytes
until_newline [] = []
until_newline (c ∷ line) = if c == 10 then [] else c ∷ until_newline line

unfoldable pub is_comment : Bytes → Bool
is_comment [] = false
is_comment (c ∷ line) = c == 35

-- What a line gives: the address behind the word; a line that begins with `#` gives none. `inet_addr` is
-- the library's, with `none` for its -1.
unfoldable pub server_of : (inet_addr : Bytes → Option ℕ) → Bytes → Option Bytes
server_of inet_addr line =
    if is_comment line then none else elim (first_word (until_newline line)) [
      | none ↦ none
      | some (word, p) ↦
          if same word nameserver
          then (if same p localhost then none else some p)
          else if same word search_word
          then elim (inet_addr p) [ none ↦ none | some a ↦ some p ]
          else none
    ]

-- The text that `strncpy` and the NUL leave in a buffer of `n` bytes; `none` is the result -1, also for a
-- file that cannot be opened.
unfoldable pub get_dns_ip :
    (inet_addr : Bytes → Option ℕ) → (lines : Option (List Bytes)) → (n : ℕ) → Option Bytes
get_dns_ip inet_addr none n = none
get_dns_ip inet_addr (some []) n = none
get_dns_ip inet_addr (some (line ∷ lines)) n =
    let rest = get_dns_ip inet_addr (some lines) n in
    elim (server_of inet_addr line) [ none ↦ rest | some p ↦ some (take (n - 1) p) ]
