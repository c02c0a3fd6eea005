-- ===== src/MiniAnt/Domain.antt =====
-- mini_ant/src/ant_url.c: what `url_to_domain` leaves in its buffer.
use recycle_bin.Prelude.{
  ℕ, suc, ◌-◌, ◌≤◌, ◌<◌, ◌≡◌, refl, ap, true, false, ◌||◌, [], ◌∷◌, ◌++◌, arith, ltb, ◌==◌, length,
  take, drop, All, ok,
}
use recycle_bin.Prelude.Chars.{Bytes}
use recycle_bin.MiniAnt.Url.{
  http, starts_with, has_scheme, scheme_length, skip_space, ends_domain, domain_length,
  after_scheme, url_to_domain,
}
use Prim.Native.Nat.{min}

-- The characters of a domain: none is NUL or ends it.
abbrev pub IsDomain : Bytes → Type 0
IsDomain d = All (λ c. ((c == 0) || ends_domain c) ≡ false) d

domain_length-domain :
    (d rest : Bytes) (c : ℕ)
    → IsDomain d
    → ((c == 0) || ends_domain c) ≡ true
    → domain_length (d ++ c ∷ rest) ≡ ok (length d)
unfolding domain_length
domain_length-domain [] rest c h e = rw e refl
domain_length-domain (x ∷ d) rest c h e = rw (h.0, domain_length-domain d rest c h.1 e) refl

take-front : (xs ys : Bytes) → take (length xs) (xs ++ ys) ≡ xs
take-front [] ys = refl
take-front (x ∷ xs) ys = ap (λ zs. x ∷ zs) (take-front xs ys)

-- Of a URL `http://`, a domain, and a character that ends it, with anything behind, `url_to_domain` puts
-- the domain and a NUL at the front of a buffer that is large enough and leaves the rest of it, for a
-- domain that is not empty.
pub url_to_domain-http :
    (dst d rest : Bytes) (c n : ℕ)
    → IsDomain d
    → ((c == 0) || ends_domain c) ≡ true
    → 0 < length d
    → length d < n
    → n ≤ length dst
    → url_to_domain dst n (http ++ (d ++ c ∷ rest)) ≡ ok (d ++ 0 ∷ drop (suc (length d)) dst)
unfolding url_to_domain after_scheme skip_space has_scheme starts_with scheme_length
url_to_domain-http dst d rest c n h e full fits room =
    let some_room : (n == 0) ≡ false = ground arith in
    let least : min (length d) (n - 1) ≡ length d = omega arith in
    let not_empty : (length d == 0) ≡ false = ground arith in
    let inside : ltb (length d) (length dst) ≡ true = ground arith in
    rw
      (
        domain_length-domain d rest c h e,
        some_room,
        least,
        not_empty,
        inside,
        take-front d (c ∷ rest),
      )
      refl
