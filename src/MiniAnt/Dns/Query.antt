-- ===== src/MiniAnt/Dns/Query.antt =====
-- mini_ant/src/ant_dns.c: `set_qname` and `set_dns_packets`.
use recycle_bin.Prelude.{
  ℕ, suc, ◌+◌, ◌%◌, Bool, [], ◌∷◌, ◌++◌, leb, ◌==◌, if◌then◌else◌, length, take, replicate, Run, ok,
  fault, ◌>>=◌, ◌>>◌, assert,
}
use recycle_bin.Prelude.Chars.{Bytes}
use recycle_bin.MiniAnt.Dns.{u16_bytes}

-- The loop, with the characters between `prev` and `curr`: what is written from `bp` on. A length is cut
-- to the `char` that it is stored in.
unfoldable pub qname_loop : (label : Bytes) → Bytes → Run Bytes
qname_loop label [] = fault
qname_loop label (c ∷ s) =
    let next = qname_loop [] s in
    let same = qname_loop (label ++ c ∷ []) s in
    if c == 0
    then ok ((length label % 256) ∷ (label ++ 0 ∷ []))
    else if c == 46
    then (do rest ← next; ok ((length label % 256) ∷ (label ++ rest)))
    else same

unfoldable pub set_qname : Bytes → Run Bytes
set_qname s = qname_loop [] s

-- `strlen(name)`
unfoldable pub name_length : Bytes → Run ℕ
name_length [] = fault
name_length (c ∷ s) = if c == 0 then ok 0 else (do n ← name_length s; ok (suc n))

-- The packet's bytes; its length is the result of the function. `got` is whether `malloc` gives the buffer of
-- the encoded name, which has two bytes more than the name.
unfoldable pub set_dns_packets : (got : Bool) → (name : Bytes) → (id : ℕ) → Run Bytes
set_dns_packets got name id = do
  n ← name_length name
  assert got
  q ← set_qname name
  assert (leb (length q) (n + 2))
  ok (
      u16_bytes id
      ++ (u16_bytes 0x0100
          ++ (u16_bytes 1 ++ (replicate 6 0 ++ (take (n + 2) q ++ (u16_bytes 1 ++ u16_bytes 1))))))
