-- ===== src/MiniAnt/Dns/Names.antt =====
-- mini_ant/src/ant_dns.c: a name that `set_qname` encodes is the name that `parse_dns_packets` reads.
use recycle_bin.Prelude.{
  ℕ, suc, ◌%◌, ◌<◌, ◌≡◌, refl, sym, ap, ◌∙◌, ◌≢◌, false, List, [], ◌∷◌, ◌++◌, append_assoc,
  append-nil, arith, ltb, ◌==◌, length, length-append, All, Run, ok, ◌>>=◌, Returns,
}
use recycle_bin.Prelude.Chars.{Bytes, cstr}
use recycle_bin.MiniAnt.Dns.Query.{qname_loop, set_qname}
use recycle_bin.MiniAnt.Dns.Reply.{label_size, host_loop, but_last, host_name_of}

-- A name with dots between its labels, a name with a dot behind each, and the labels with their lengths.
unfoldable pub join : List Bytes → Bytes
join [] = []
join (l ∷ []) = l
join (l ∷ k ∷ ls) = l ++ 46 ∷ join (k ∷ ls)

unfoldable pub dotted : List Bytes → Bytes
dotted [] = []
dotted (l ∷ ls) = l ++ 46 ∷ dotted ls

unfoldable pub encode : List Bytes → Bytes
encode [] = 0 ∷ []
encode (l ∷ ls) = length l ∷ (l ++ encode ls)

-- Not empty, shorter than 128 bytes, without NUL and dot.
unfoldable pub IsLabel : Bytes → Type 0
IsLabel l = (0 < length l) × (length l < 128) × All (λ c. (c ≢ 0) × (c ≢ 46)) l

qname_loop-label :
    (before l m : Bytes)
    → All (λ c. (c ≢ 0) × (c ≢ 46)) l
    → qname_loop before (l ++ m) ≡ qname_loop (before ++ l) m
unfolding qname_loop
qname_loop-label before [] m h = ap (λ x. qname_loop x m) (sym (append-nil before))
qname_loop-label before (c ∷ l) m (h, hs) =
    let full : (c == 0) ≡ false = ground (arith, h.0) in
    let plain : (c == 46) ≡ false = ground (arith, h.1) in
    rw (full, plain)
      (qname_loop-label (before ++ c ∷ []) l m hs
        ∙ ap (λ x. qname_loop x m) (append_assoc before (c ∷ []) l))

left_nil : (xs : Bytes) → [] ++ xs ≡ xs
left_nil [] = refl
left_nil (x ∷ xs) = refl

qname_loop-end :
    (l rest : Bytes) → length l < 128 → qname_loop l (0 ∷ rest) ≡ ok (length l ∷ (l ++ 0 ∷ []))
unfolding qname_loop
qname_loop-end l rest short = let size : length l % 256 ≡ length l = omega arith in rw size refl

qname_loop-dot :
    (l m r : Bytes)
    → length l < 128
    → qname_loop [] m ≡ ok r
    → qname_loop l (46 ∷ m) ≡ ok (length l ∷ (l ++ r))
unfolding qname_loop
qname_loop-dot l m r short e =
    let size : length l % 256 ≡ length l = omega arith in rw (size, e) refl

pub qname_loop-join :
    (l : Bytes) (ls : List Bytes) (rest : Bytes)
    → All IsLabel (l ∷ ls)
    → qname_loop [] (join (l ∷ ls) ++ 0 ∷ rest) ≡ ok (encode (l ∷ ls))
unfolding join encode IsLabel
qname_loop-join l [] rest ((_, short, plain), hs) =
    qname_loop-label [] l (0 ∷ rest) plain
    ∙ ap (λ x. qname_loop x (0 ∷ rest)) (left_nil l)
    ∙ qname_loop-end l rest short
qname_loop-join l (k ∷ ls) rest ((_, short, plain), hs) =
    ap (qname_loop []) (append_assoc l (46 ∷ join (k ∷ ls)) (0 ∷ rest))
    ∙ qname_loop-label [] l (46 ∷ (join (k ∷ ls) ++ 0 ∷ rest)) plain
    ∙ ap (λ x. qname_loop x (46 ∷ (join (k ∷ ls) ++ 0 ∷ rest))) (left_nil l)
    ∙ qname_loop-dot l (join (k ∷ ls) ++ 0 ∷ rest) (encode (k ∷ ls)) short
        (qname_loop-join k ls rest hs)

host_loop-label :
    (l m name m' : Bytes)
    → 0 < length l
    → host_loop 0 m ≡ ok (name, m')
    → host_loop (length l) (l ++ m) ≡ ok (l ++ 46 ∷ name, m')
unfolding host_loop
host_loop-label [] m name m' h e = absurd (omega arith)
host_loop-label (b ∷ []) m name m' h e = rw e refl
host_loop-label (b ∷ c ∷ l) m name m' h e =
    let more : (suc (length l) == 0) ≡ false = ground arith in
    rw (host_loop-label (c ∷ l) m name m' (omega arith) e, more) refl

label_size-short : (n : ℕ) → n < 128 → label_size n ≡ n
unfolding label_size
label_size-short n h = ground arith

pub host_loop-encode :
    (ls : List Bytes) (rest : Bytes)
    → All IsLabel ls
    → host_loop 0 (encode ls ++ rest) ≡ ok (dotted ls, 0 ∷ rest)
unfolding host_loop encode dotted IsLabel
host_loop-encode [] rest h = refl
host_loop-encode (l ∷ ls) rest ((full, short, plain), hs) =
    let size : label_size (length l) ≡ length l = label_size-short (length l) short in
    let filled : (length l == 0) ≡ false = ground arith in
    let copied =
      host_loop-label l (encode ls ++ rest) (dotted ls) (0 ∷ rest) full
        (host_loop-encode ls rest hs) in
    rw (append_assoc l (encode ls) rest, size, filled, copied) refl

but_last-append : (xs ys : Bytes) (y : ℕ) → but_last (xs ++ y ∷ ys) ≡ xs ++ but_last (y ∷ ys)
unfolding but_last
but_last-append [] ys y = sym (left_nil (but_last (y ∷ ys)))
but_last-append (x ∷ []) ys y = refl
but_last-append (x ∷ z ∷ xs) ys y = ap (λ m. x ∷ m) (but_last-append (z ∷ xs) ys y)

but_last-dotted : (l : Bytes) (ls : List Bytes) → but_last (dotted (l ∷ ls)) ≡ join (l ∷ ls)
unfolding but_last dotted join
but_last-dotted l [] = but_last-append l [] 46 ∙ append-nil l
but_last-dotted l (k ∷ ls) =
    but_last-append l (dotted (k ∷ ls)) 46
    ∙ ap (λ x. l ++ x)
        (but_last-append (46 ∷ k) (dotted ls) 46
          ∙ ap (λ x. 46 ∷ x) (sym (but_last-append k (dotted ls) 46) ∙ but_last-dotted k ls))

-- The host name that `parse_dns_packets` reads where an encoded name stands, before anything.
pub read_host : Bytes → Run Bytes
read_host m = do (name, m) ← host_loop 0 m; host_name_of name

length-dotted :
    (l : Bytes) (ls : List Bytes) → length (dotted (l ∷ ls)) ≡ suc (length (join (l ∷ ls)))
unfolding dotted join
length-dotted l [] = omega (arith, length-append l (46 ∷ []))
length-dotted l (k ∷ ls) = omega (
  arith,
  length-append l (46 ∷ dotted (k ∷ ls)),
  length-append l (46 ∷ join (k ∷ ls)),
  length-dotted k ls,
)

pub host_name_of-dotted :
    (l : Bytes) (ls : List Bytes)
    → length (join (l ∷ ls)) < 1024
    → host_name_of (dotted (l ∷ ls)) ≡ ok (join (l ∷ ls))
unfolding host_name_of
host_name_of-dotted l ls small =
    let size = length-dotted l ls in
    let filled : (length (dotted (l ∷ ls)) == 0) ≡ false = ground (arith, size) in
    let fits : ltb 1024 (length (dotted (l ∷ ls))) ≡ false = ground (arith, size) in
    rw (filled, fits) (ap ok (but_last-dotted l ls))

-- A name of labels that are not empty and shorter than 128 bytes, with dots between them, of less than
-- 1024 bytes in all, is encoded by `set_qname` to bytes from which `parse_dns_packets` reads that name.
pub set_qname-roundtrip :
    (l : Bytes) (ls : List Bytes) (rest rest' : Bytes)
    → All IsLabel (l ∷ ls)
    → length (join (l ∷ ls)) < 1024
    → Returns
        (λ q. read_host (q ++ rest') ≡ ok (join (l ∷ ls)))
        (set_qname (cstr (join (l ∷ ls)) rest))
unfolding set_qname read_host
set_qname-roundtrip l ls rest rest' h small = (
  encode (l ∷ ls),
  qname_loop-join l ls rest h,
  rw (host_loop-encode (l ∷ ls) rest' h) (host_name_of-dotted l ls small),
)
