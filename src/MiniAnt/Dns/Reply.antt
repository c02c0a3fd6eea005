-- ===== src/MiniAnt/Dns/Reply.antt =====
-- mini_ant/src/ant_dns.c: `parse_dns_packets`.
use recycle_bin.Prelude.{
  ℕ, zero, suc, ◌+◌, ◌*◌, not, ◌&&◌, ◌||◌, List, [], ◌∷◌, ltb, ◌==◌, if◌then◌else◌, length, set,
  Run, ok, fault, ◌>>=◌,
}
use recycle_bin.Prelude.Chars.{Bytes}
use recycle_bin.Prelude.Int.{ℤ, pos, negsuc, schar, pos_part}
use recycle_bin.MiniAnt.Dns.{read_u16, skip, DnsHeader, DnsResponse, ip_len}

-- `num = *bp++`, a `char`: a negative number copies nothing.
unfoldable pub label_size : ℕ → ℕ
label_size c = pos_part (schar c)

-- `for (p = data->host_name; *bp; )`, with `left` bytes of a label to copy; zero stands for the test of the
-- loop. What is written, and the memory from the NUL on.
unfoldable pub host_loop : (left : ℕ) → Bytes → Run (Bytes × Bytes)
host_loop left [] = fault
host_loop zero (c ∷ m) =
    let rest = host_loop (label_size c) m in
    if c == 0
    then ok ([], c ∷ m)
    else do (name, m) ← rest; ok (if label_size c == 0 then 46 ∷ name else name, m)
host_loop (suc left) (b ∷ m) = do
  (name, m) ← host_loop left m
  ok (b ∷ (if left == 0 then 46 ∷ name else name), m)

-- All but the last character.
unfoldable pub but_last : Bytes → Bytes
but_last [] = []
but_last (c ∷ []) = []
but_last (c ∷ d ∷ m) = c ∷ but_last (d ∷ m)

-- The host name in its 1024 bytes: `*--p = '\0'` writes before them where no label has come.
unfoldable pub host_name_of : Bytes → Run Bytes
host_name_of name =
    if (length name == 0) || ltb 1024 (length name) then fault else ok (but_last name)

-- `*(uint32_t*)bp`
unfoldable pub word_at : Bytes → Run ℕ
word_at (a ∷ b ∷ c ∷ d ∷ m) = ok (a + 256 * (b + 256 * (c + 256 * d)))
word_at [] = fault
word_at (a ∷ []) = fault
word_at (a ∷ b ∷ []) = fault
word_at (a ∷ b ∷ c ∷ []) = fault

-- The loop over the answers, with so many left and `num` addresses stored.
unfoldable pub answer_loop : (left num : ℕ) → Bytes → List ℕ → Run (List ℕ)
answer_loop zero num m ip = ok ip
answer_loop (suc left) num m ip = do
  m ← skip 2 m
  (type, m) ← read_u16 m
  m ← skip 6 m
  (ipl, m) ← read_u16 m
  if (type == 1) && (ipl == 4)
      then (if ltb num ip_len
          then (do w ← word_at m; m ← skip 4 m; answer_loop left (num + 1) m (set ip num w))
          else ok ip)
      else (do m ← skip ipl m; answer_loop left num m ip)

-- The result, the header and the response.
unfoldable pub parse_dns_packets : Bytes → DnsResponse → Run (ℤ × DnsHeader × DnsResponse)
parse_dns_packets buf data' = do
  (id, m) ← read_u16 buf
  (flags, m) ← read_u16 m
  m ← skip 2 m
  (answers, _) ← read_u16 m
  m ← skip 6 m
  (name, m) ← host_loop 0 m
  host ← host_name_of name
  let header : DnsHeader = record { id = id; flags = flags; answers_rrs = answers }
  let named : DnsResponse = record data' { host_name = host; flags = flags }
  if not (flags == 0x8180) then ok (negsuc 0, header, named) else do
    m ← skip 5 m
    ip ← answer_loop answers 0 m data'.ip
    ok (pos 0, header, record named { ip = ip })
