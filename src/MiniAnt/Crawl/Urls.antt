-- ===== src/MiniAnt/Crawl/Urls.antt =====
-- The text of a URL with a host and a path, as the functions of ant_url.c and mini_ant.c read it.
use recycle_bin.Prelude.{
  ℕ, suc, ◌<◌, ◌≡◌, refl, sym, ap, ◌∙◌, ◌≢◌, inl, inr, true, false, ◌||◌, Option, [], ◌∷◌, ◌++◌,
  append_assoc, arith, ◌==◌, Bool-cases, length, drop, All, All-append, All-map, ok, Returns,
}
use recycle_bin.Prelude.Chars.{Bytes}
use mathlib.Core.Path.{subst}
use recycle_bin.MiniAnt.Url.{
  http, url_to_domain, url_text, url_modify, ends_domain, has_scheme, starts_with, scheme_length,
}
use recycle_bin.MiniAnt.Domain.{IsDomain, url_to_domain-http}
use recycle_bin.MiniAnt.Crawl.{Fresh, skip_head, at_port}
use recycle_bin.MiniAnt.Crawl.Add.{with_scheme}

-- The text of a URL with a host and a path, in memory.
abbrev pub url_of : (d path tail : Bytes) → Bytes
url_of d path tail = http ++ (d ++ (path ++ 0 ∷ tail))

-- Nothing, or text from one of the characters that end a domain.
abbrev pub IsPath : Bytes → Type 0
IsPath [] = Unit {0}
IsPath (c ∷ path) = (ends_domain c ≡ true) × All (λ x. x ≢ 0) (c ∷ path)

pub url_text-cstr : (s tail : Bytes) → All (λ x. x ≢ 0) s → url_text (s ++ 0 ∷ tail) ≡ ok s
unfolding url_text
url_text-cstr [] tail h = refl
url_text-cstr (c ∷ s) tail (p, h) =
    let full : (c == 0) ≡ false = ground (arith, p) in rw (full, url_text-cstr s tail h) refl

at_port-cstr : (s tail : Bytes) → Returns (λ m. Unit {0}) (at_port (s ++ 0 ∷ tail))
unfolding at_port
at_port-cstr [] tail = (0 ∷ tail, refl, tt)
at_port-cstr (c ∷ s) tail =
    let (m, e, t) = at_port-cstr s tail in
    elim (Bool-cases ((c == 0) || (c == 58) || (c == 47))) [
      | inl stop ↦ (c ∷ (s ++ 0 ∷ tail), rw stop refl, tt)
      | inr go ↦ (m, rw go e, tt)
    ]

pub with_scheme-url :
    (sp : Bytes → Option ℕ) (f : Fresh) (d path tail : Bytes)
    → with_scheme sp f (url_of d path tail) ≡ ok (url_of d path tail)
unfolding with_scheme url_modify has_scheme starts_with
with_scheme-url sp f d path tail = refl

pub skip_head-url : (d path tail : Bytes) → skip_head (url_of d path tail) ≡ ok 7
unfolding skip_head has_scheme starts_with scheme_length
skip_head-url d path tail = refl

pub domain-url :
    (dst d path tail : Bytes)
    → IsDomain d
    → IsPath path
    → 0 < length d
    → length d < 512
    → length dst ≡ 512
    → url_to_domain dst 512 (url_of d path tail) ≡ ok (d ++ 0 ∷ drop (suc (length d)) dst)
domain-url dst d [] tail h p full fits size =
    url_to_domain-http dst d tail 0 512 h refl full fits (omega (arith, size))
domain-url dst d (c ∷ path) tail h p full fits size =
    url_to_domain-http dst d (path ++ 0 ∷ tail) c 512 h (ground (arith, p.0)) full fits
      (omega (arith, size))

url_plain : (d path : Bytes) → IsDomain d → IsPath path → All (λ x. x ≢ 0) (http ++ (d ++ path))
url_plain d path h p =
    All-append (λ x. x ≢ 0) http (d ++ path)
      (by_tests http (refl, (refl, (refl, (refl, (refl, (refl, (refl, tt))))))))
      (All-append (λ x. x ≢ 0) d path
        (All-map (λ c. ((c == 0) || ends_domain c) ≡ false) (λ x. x ≢ 0) d
          (λ c e. ground (arith, e)) h)
        (path_plain path p))
  where
    by_tests : (s : Bytes) → All (λ c. (c == 0) ≡ false) s → All (λ x. x ≢ 0) s
    by_tests s = All-map (λ c. (c == 0) ≡ false) (λ x. x ≢ 0) s (λ c e. ground (arith, e))

    path_plain : (path : Bytes) → IsPath path → All (λ x. x ≢ 0) path
    path_plain [] p = tt
    path_plain (c ∷ path) p = p.1

pub url_text-url :
    (d path tail : Bytes)
    → IsDomain d
    → IsPath path
    → url_text (url_of d path tail) ≡ ok (http ++ (d ++ path))
url_text-url d path tail h p =
    ap (λ m. url_text (http ++ m)) (sym (append_assoc d path (0 ∷ tail)))
    ∙ url_text-cstr (http ++ (d ++ path)) tail (url_plain d path h p)

pub at_port-url :
    (d path tail : Bytes) → Returns (λ m. Unit {0}) (at_port (drop 7 (url_of d path tail)))
at_port-url d path tail =
    subst (λ m. Returns (λ m. Unit {0}) (at_port m)) (append_assoc d path (0 ∷ tail))
      (at_port-cstr (d ++ path) tail)
