-- ===== src/MiniAnt/Dns/Answers.antt =====
-- mini_ant/src/ant_dns.c: the answer of a name server as `parse_dns_packets` reads it, against its layout.
use recycle_bin.Prelude.{
  ℕ, zero, suc, ◌+◌, ◌-◌, ◌*◌, ◌/◌, ◌%◌, ◌^◌, ◌≤◌, ◌<◌, ◌≡◌, refl, sym, ap, ◌∙◌, inl, inr, true,
  false, List, [], ◌∷◌, ◌++◌, map, append_assoc, append-nil, arith, ltb, leb, if◌then◌else◌, ltb→lt,
  Bool-cases, length, set, take, replicate, length-append, take-length-append, All, ok,
}
use recycle_bin.Prelude.Chars.{Bytes}
use recycle_bin.Prelude.Int.{pos}
use recycle_bin.MiniAnt.Dns.{u16_bytes, read_u16, skip, DnsResponse}
use recycle_bin.MiniAnt.Dns.Reply.{word_at, answer_loop, parse_dns_packets}
use recycle_bin.MiniAnt.Dns.Names.{host_loop-encode, host_name_of-dotted, join, encode, IsLabel}

-- An address of version 4, and the number that its bytes are in memory.
pub record Ipv4 : Type 0 where
  pub a : ℕ
  pub b : ℕ
  pub c : ℕ
  pub d : ℕ

abbrev pub word : Ipv4 → ℕ
word w = w.a + 256 * (w.b + 256 * (w.c + 256 * w.d))

-- A resource record with an address: a pointer to the name, type, class, time to live, length, address.
abbrev pub answer : Ipv4 → Bytes → Bytes
answer w m = 0xc0 ∷ 0x0c ∷ 0 ∷ 1 ∷ 0 ∷ 1 ∷ 0 ∷ 0 ∷ 0 ∷ 60 ∷ 0 ∷ 4 ∷ w.a ∷ w.b ∷ w.c ∷ w.d ∷ m

unfoldable pub answers : List Ipv4 → Bytes → Bytes
answers [] m = m
answers (w ∷ ws) m = answer w (answers ws m)

skip-cons : (n : ℕ) (c : ℕ) (m : Bytes) → skip (suc n) (c ∷ m) ≡ skip n m
unfolding skip
skip-cons n c m = elim (Bool-cases (leb n (length m))) [
  | inl e ↦ let e' : leb (suc n) (suc (length m)) ≡ true = ground arith in rw (e, e') refl
  | inr e ↦ let e' : leb (suc n) (suc (length m)) ≡ false = ground arith in rw (e, e') refl
]

skip-none : (m : Bytes) → skip 0 m ≡ ok m
unfolding skip
skip-none m = let e : leb 0 (length m) ≡ true = ground arith in rw e refl

-- The addresses so far, then those that come, then zeros: four of them.
unfoldable pub four : List ℕ → List ℕ
four ws = take 4 (ws ++ replicate 4 0)

skip-front : (xs m : Bytes) → skip (length xs) (xs ++ m) ≡ ok m
skip-front [] m = ap (skip 0) (left_nil m) ∙ skip-none m
  where
    left_nil : (m : Bytes) → [] ++ m ≡ m
    left_nil [] = refl
    left_nil (c ∷ m) = refl
skip-front (x ∷ xs) m = skip-cons (length xs) x (xs ++ m) ∙ skip-front xs m

one_answer :
    (left num : ℕ) (w : Ipv4) (m : Bytes) (ip : List ℕ)
    → answer_loop (suc left) num (answer w m) ip
      ≡ (if ltb num 4 then answer_loop left (num + 1) m (set ip num (word w)) else ok ip)
unfolding answer_loop read_u16 word_at
one_answer left num w m ip =
    rw
      (
        skip-front (0xc0 ∷ 0x0c ∷ []),
        skip-front (0 ∷ 1 ∷ 0 ∷ 0 ∷ 0 ∷ 60 ∷ []),
        skip-front (w.a ∷ w.b ∷ w.c ∷ w.d ∷ []),
      )
      refl

set-next : (ws zs : List ℕ) (z w : ℕ) → set (ws ++ z ∷ zs) (length ws) w ≡ (ws ++ w ∷ []) ++ zs
set-next [] zs z w = refl
set-next (x ∷ ws) zs z w = ap (λ l. x ∷ l) (set-next ws zs z w)

abbrev padded : List ℕ → List ℕ
padded ws = ws ++ replicate (4 - length ws) 0

padded-next :
    (ws : List ℕ) (w : ℕ) → length ws < 4 → set (padded ws) (length ws) w ≡ padded (ws ++ w ∷ [])
padded-next ws w h =
    let now : 4 - length ws ≡ suc (3 - length ws) = omega arith in
    let later : 3 - length ws ≡ 4 - length (ws ++ w ∷ []) =
      omega (arith, length-append ws (w ∷ [])) in
    ap (λ n. set (ws ++ replicate n 0) (length ws) w) now
    ∙ set-next ws (replicate (3 - length ws) 0) 0 w
    ∙ ap (λ n. (ws ++ w ∷ []) ++ replicate n 0) later

take-replicate : (k n : ℕ) → k ≤ n → take k (replicate {A = ℕ} n 0) ≡ replicate k 0
take-replicate zero n h = refl
take-replicate (suc k) zero h = absurd (omega arith)
take-replicate (suc k) (suc n) h = ap (λ l. 0 ∷ l) (take-replicate k n (omega arith))

-- With at most four numbers `four` pads them, and of more it takes the first four.
four-padded : (ws : List ℕ) → length ws ≤ 4 → four ws ≡ padded ws
unfolding four
four-padded ws h =
    let k = 4 - length ws in
    let sum : 4 ≡ length ws + k = omega arith in
    ap (λ n. take n (ws ++ replicate 4 0)) sum
    ∙ take-length-append ws (replicate 4 0) k
    ∙ ap (λ l. ws ++ l) (take-replicate k 4 (omega arith))

four-full : (ws xs : List ℕ) → length ws ≡ 4 → four (ws ++ xs) ≡ padded ws
unfolding four
four-full ws xs h =
    let none_left : 4 - length ws ≡ 0 = omega arith in
    let sum : 4 ≡ length ws + 0 = omega arith in
    ap (take 4) (append_assoc ws xs (replicate 4 0))
    ∙ ap (λ n. take n (ws ++ (xs ++ replicate 4 0))) sum
    ∙ take-length-append ws (xs ++ replicate 4 0) 0
    ∙ ap (λ n. ws ++ replicate n 0) (sym none_left)

loop-four :
    (ws : List Ipv4) (got : List ℕ) (m : Bytes)
    → length got ≤ 4
    → answer_loop (length ws) (length got) (answers ws m) (padded got)
      ≡ ok (four (got ++ map word ws))
unfolding answers answer_loop
loop-four [] got m h = ap ok (sym (ap four (append-nil got) ∙ four-padded got h))
loop-four (w ∷ ws) got m h = elim (Bool-cases (ltb (length got) 4)) [
  | inl e ↦
      let lt = ltb→lt (length got) 4 e in
      let next = got ++ word w ∷ [] in
      let size : length got + 1 ≡ length next = omega (arith, length-append got (word w ∷ [])) in
      one_answer (length ws) (length got) w (answers ws m) (padded got)
      ∙ rw (e, padded-next got (word w) lt, size)
          (loop-four ws next m (omega (arith, size))
            ∙ ap (λ l. ok (four l)) (append_assoc got (word w ∷ []) (map word ws)))
  | inr e ↦
      let all : length got ≡ 4 = ground arith in
      one_answer (length ws) (length got) w (answers ws m) (padded got)
      ∙ rw e (ap ok (sym (four-full got (word w ∷ map word ws) all)))
]

-- An answer with the flags 0x8180 and these addresses, to the question for a name in its encoding.
abbrev pub reply : ℕ → Bytes → List Ipv4 → Bytes → Bytes
reply id q ws rest =
    u16_bytes id
    ++ (0x81
        ∷ 0x80
        ∷ 0
        ∷ 1
        ∷ (u16_bytes (length ws) ++ (0 ∷ 0 ∷ 0 ∷ 0 ∷ (q ++ 0 ∷ 1 ∷ 0 ∷ 1 ∷ answers ws rest))))

-- An answer with the flags 0x8180 to the question for a name, with addresses: `parse_dns_packets` gives the
-- identifier, the name, and the first four addresses, with zeros where there are fewer.
pub parse_dns_packets-reply :
    (id : ℕ) (l : Bytes) (ls : List Bytes) (ws : List Ipv4) (rest : Bytes) (old : DnsResponse)
    → id < 2 ^ 16
    → length ws < 2 ^ 16
    → All IsLabel (l ∷ ls)
    → length (join (l ∷ ls)) < 1024
    → old.ip ≡ replicate 4 0
    → parse_dns_packets (reply id (encode (l ∷ ls)) ws rest) old
      ≡ ok (
        pos 0,
        record { id = id; flags = 0x8180; answers_rrs = length ws },
        record { host_name = join (l ∷ ls); ip = four (map word ws); flags = 0x8180 },
      )
unfolding parse_dns_packets read_u16 u16_bytes skip
parse_dns_packets-reply id l ls ws rest old small few h short zeros =
    let q = encode (l ∷ ls) in
    let behind = 0 ∷ 1 ∷ 0 ∷ 1 ∷ answers ws rest in
    let n = length ws in
    let same_id : (id / 256) % 256 * 256 + id % 256 ≡ id = omega arith in
    let same_n : (n / 256) % 256 * 256 + n % 256 ≡ n = omega arith in
    rw
      (
        skip-front (0 ∷ 1 ∷ []),
        skip-front ((n / 256) % 256 ∷ n % 256 ∷ 0 ∷ 0 ∷ 0 ∷ 0 ∷ []),
        host_loop-encode (l ∷ ls) behind h,
        host_name_of-dotted l ls short,
        skip-front (0 ∷ 0 ∷ 1 ∷ 0 ∷ 1 ∷ []),
        same_id,
        same_n,
        zeros,
        loop-four ws [] rest (omega arith),
      )
      refl
