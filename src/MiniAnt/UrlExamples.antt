-- ===== src/MiniAnt/UrlExamples.antt =====
-- Tests of mini_ant/src/ant_url.c.
use recycle_bin.Prelude.{
  ◌≡◌, refl, true, ◌||◌, some, List, [], ◌∷◌, ◌++◌, arith, ◌==◌, replicate, Run, ok,
}
use recycle_bin.Prelude.Chars.{Bytes}
use recycle_bin.MiniAnt.Page.{href, parse_page}
use recycle_bin.MiniAnt.Page.Ends.{parse_page-ends}
use recycle_bin.MiniAnt.Url.{http, ends_domain, url_to_domain}
use recycle_bin.MiniAnt.Domain.{IsDomain, url_to_domain-http}

-- "http://q.c/": the domain "q.c".
abbrev q_c : Bytes
q_c = 113 ∷ 46 ∷ 99 ∷ []

q_c-IsDomain : IsDomain q_c
unfolding ends_domain
q_c-IsDomain = (refl, (refl, (refl, tt)))

slash-ends : ((47 == 0) || ends_domain 47) ≡ true
unfolding ends_domain
slash-ends = refl

url_to_domain-http_example :
    url_to_domain (replicate 6 9) 5 (http ++ (q_c ++ 47 ∷ 0 ∷ [])) ≡ ok (q_c ++ 0 ∷ 9 ∷ 9 ∷ [])
url_to_domain-http_example =
    url_to_domain-http (replicate 6 9) q_c (0 ∷ []) 47 5 q_c-IsDomain slash-ends (omega arith)
      (omega arith) (omega arith)

parse_page-ends_example : (r : Run (List Bytes)) × (parse_page href ≡ some r)
parse_page-ends_example = parse_page-ends href
