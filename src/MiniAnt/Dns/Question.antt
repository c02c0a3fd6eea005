-- ===== src/MiniAnt/Dns/Question.antt =====
-- mini_ant/src/ant_dns.c: the question as `set_dns_packets` writes it, against its layout.
use recycle_bin.Prelude.{
  ℕ, ◌+◌, ◌≡◌, refl, sym, ap, ◌∙◌, ◌≢◌, true, false, List, [], ◌∷◌, ◌++◌, arith, leb, ◌==◌, length,
  take, length-append, take-length, All, All-append, All-map, ok,
}
use recycle_bin.Prelude.Chars.{Bytes, cstr}
use recycle_bin.MiniAnt.Dns.{u16_bytes}
use recycle_bin.MiniAnt.Dns.Query.{name_length, set_qname, set_dns_packets}
use recycle_bin.MiniAnt.Dns.Names.{qname_loop-join, join, encode, IsLabel}

-- Identifier, flags, one question, no records; the name in its encoding, the type of an address of
-- version 4, and the class of the internet.
abbrev pub question : ℕ → Bytes → Bytes
question id q = u16_bytes id ++ (1 ∷ 0 ∷ 0 ∷ 1 ∷ 0 ∷ 0 ∷ 0 ∷ 0 ∷ 0 ∷ 0 ∷ (q ++ 0 ∷ 1 ∷ 0 ∷ 1 ∷ []))

name_length-cstr : (s rest : Bytes) → All (λ c. c ≢ 0) s → name_length (cstr s rest) ≡ ok (length s)
unfolding name_length
name_length-cstr [] rest h = refl
name_length-cstr (c ∷ s) rest (p, q) =
    let filled : (c == 0) ≡ false = ground (arith, p) in rw (filled, name_length-cstr s rest q) refl

All-plain : (l : Bytes) → All (λ c. (c ≢ 0) × (c ≢ 46)) l → All (λ c. c ≢ 0) l
All-plain l = All-map (λ c. (c ≢ 0) × (c ≢ 46)) (λ c. c ≢ 0) l (λ c p. p.0)

join-plain : (ls : List Bytes) → All IsLabel ls → All (λ c. c ≢ 0) (join ls)
unfolding join IsLabel
join-plain [] h = tt
join-plain (l ∷ []) ((a, b, p), h) = All-plain l p
join-plain (l ∷ k ∷ ls) ((a, b, p), h) =
    All-append (λ c. c ≢ 0) l (46 ∷ join (k ∷ ls)) (All-plain l p)
      ((λ e. omega (arith, e)), join-plain (k ∷ ls) h)

pub length-encode :
    (l : Bytes) (ls : List Bytes) → length (encode (l ∷ ls)) ≡ length (join (l ∷ ls)) + 2
unfolding encode join
length-encode l [] = omega (arith, length-append l (0 ∷ []))
length-encode l (k ∷ ls) = omega (
  arith,
  length-append l (encode (k ∷ ls)),
  length-append l (46 ∷ join (k ∷ ls)),
  length-encode k ls,
)

take-all : (xs : Bytes) (n : ℕ) → length xs ≡ n → take n xs ≡ xs
take-all xs n e = ap (λ k. take k xs) (sym e) ∙ take-length xs

-- For a name of labels that are not empty and shorter than 128 bytes, with dots between them, and where
-- `malloc` gives the buffer, `set_dns_packets` writes the question for that name.
pub set_dns_packets-question :
    (id : ℕ) (l : Bytes) (ls : List Bytes) (rest : Bytes)
    → All IsLabel (l ∷ ls)
    → set_dns_packets true (cstr (join (l ∷ ls)) rest) id ≡ ok (question id (encode (l ∷ ls)))
unfolding set_dns_packets set_qname u16_bytes
set_dns_packets-question id l ls rest h =
    let size = length-encode l ls in
    let n = length (join (l ∷ ls)) in
    let fits : leb (length (encode (l ∷ ls))) (n + 2) ≡ true = ground (arith, size) in
    rw
      (
        name_length-cstr (join (l ∷ ls)) rest (join-plain (l ∷ ls) h),
        qname_loop-join l ls rest h,
        fits,
        take-all (encode (l ∷ ls)) (n + 2) size,
      )
      refl
