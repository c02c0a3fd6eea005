-- ===== src/MiniAnt/Dns/Examples.antt =====
-- mini_ant/src/ant_dns.c: the name `a.bc`, asked for and answered.
use recycle_bin.Prelude.{
  ℕ, ◌<◌, ◌≡◌, refl, ◌≢◌, ◌⊎◌, inl, inr, true, [], ◌∷◌, ◌++◌, arith, length, replicate, All, ok,
  Returns,
}
use recycle_bin.Prelude.Chars.{Bytes, cstr}
use recycle_bin.Prelude.Int.{pos}
use recycle_bin.MiniAnt.Dns.{DnsResponse}
use recycle_bin.MiniAnt.Dns.Query.{set_qname, set_dns_packets}
use recycle_bin.MiniAnt.Dns.Reply.{parse_dns_packets}
use recycle_bin.MiniAnt.Dns.Names.{join, encode, IsLabel, read_host, set_qname-roundtrip}
use recycle_bin.MiniAnt.Dns.Answers.{Ipv4, word, four, reply, parse_dns_packets-reply}
use recycle_bin.MiniAnt.Dns.Question.{question, set_dns_packets-question}

abbrev a_label : Bytes
a_label = 97 ∷ []

abbrev bc_label : Bytes
bc_label = 98 ∷ 99 ∷ []

a_bc-IsLabel : All IsLabel (a_label ∷ bc_label ∷ [])
unfolding IsLabel
a_bc-IsLabel =
    let plain : (c : ℕ) → c ≡ 97 ⊎ c ≡ 98 ⊎ c ≡ 99 → (c ≢ 0) × (c ≢ 46) =
      λ c h. (ground arith, ground arith) in
    (
      (ground arith, ground arith, (plain 97 (inl refl), tt)),
      (
        (ground arith, ground arith, (plain 98 (inr (inl refl)), (plain 99 (inr (inr refl)), tt))),
        tt,
      ),
    )

short_name : length (join (a_label ∷ bc_label ∷ [])) < 1024
unfolding join
short_name = omega arith

abbrev ten : Ipv4
ten = record { a = 10; b = 0; c = 0; d = 1 }

abbrev no_response : DnsResponse
no_response = record { host_name = []; ip = replicate 4 0; flags = 0 }

set_qname-roundtrip_example :
    Returns
      (λ q. read_host (q ++ 7 ∷ []) ≡ ok (join (a_label ∷ bc_label ∷ [])))
      (set_qname (cstr (join (a_label ∷ bc_label ∷ [])) (9 ∷ [])))
set_qname-roundtrip_example =
    set_qname-roundtrip a_label (bc_label ∷ []) (9 ∷ []) (7 ∷ []) a_bc-IsLabel short_name

set_dns_packets-question_example :
    set_dns_packets true (cstr (join (a_label ∷ bc_label ∷ [])) []) 258
    ≡ ok (question 258 (encode (a_label ∷ bc_label ∷ [])))
set_dns_packets-question_example =
    set_dns_packets-question 258 a_label (bc_label ∷ []) [] a_bc-IsLabel

parse_dns_packets-reply_example :
    parse_dns_packets (reply 258 (encode (a_label ∷ bc_label ∷ [])) (ten ∷ []) []) no_response
    ≡ ok (
      pos 0,
      record { id = 258; flags = 0x8180; answers_rrs = 1 },
      record {
        host_name = join (a_label ∷ bc_label ∷ []);
        ip = four (word ten ∷ []);
        flags = 0x8180;
      },
    )
parse_dns_packets-reply_example =
    parse_dns_packets-reply 258 a_label (bc_label ∷ []) (ten ∷ []) [] no_response (omega arith)
      (omega arith) a_bc-IsLabel short_name refl
