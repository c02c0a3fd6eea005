-- ===== src/Server/Examples.antt =====
-- http_server/src/tor_http.c at small requests.
use recycle_bin.Prelude.{
  ℕ, ◌<◌, ◌≡◌, refl, Bool, true, false, Option, none, some, [], ◌∷◌, ◌++◌, arith, replicate, length,
  length-replicate, take, ok, fault,
}
use recycle_bin.Prelude.Chars.{Bytes}
use recycle_bin.Prelude.Int.{pos, negsuc}
use recycle_bin.MiniAnt.Http.{strncasecmp}
use recycle_bin.Server.{HttpContext, request_line, ends_slash, append_referer, last_char}
use recycle_bin.Server.Head.{http_read_head}
use recycle_bin.Server.Answer.{join_path}
use recycle_bin.Server.Lines.{http_read_head-stuck, request_line-get}
use recycle_bin.Server.Paths.{join_path-cuts, append_referer-overflow}

abbrev fresh : HttpContext
fresh = record {
  fd = 5;
  path = [];
  fname = 46 ∷ 47 ∷ [];
  conn = false;
  rblen = 3;
  mm = false;
  head = none;
  page = none;
  unmapped = false;
}

abbrev no_dir : Bytes → Bool
no_dir s = false

abbrev read_two : ℕ → ℕ → Bool → Unit {0} → Option Bytes × Unit {0}
read_two fd n peek s = (some (13 ∷ 10 ∷ []), s)

http_read_head-stuck_example :
    http_read_head read_two no_dir fresh tt ≡ some (ok (negsuc 0, record fresh { rblen = 5 }, tt))
http_read_head-stuck_example =
    http_read_head-stuck no_dir read_two fresh (13 ∷ 10 ∷ []) tt (omega arith) refl

request_line-get_example :
    request_line (71 ∷ 69 ∷ 84 ∷ 32 ∷ 47 ∷ 97 ∷ 32 ∷ 72 ∷ []) fresh
    ≡ ok (pos 1, record fresh { path = 97 ∷ [] })
unfolding strncasecmp
request_line-get_example =
    request_line-get fresh 71 69 84 0 (97 ∷ []) (32 ∷ 72 ∷ []) refl (refl, tt) (omega arith) refl

abbrev long_path : Bytes
long_path = replicate 3000 97

join_path-cuts_example :
    (kept : ℕ) × (join_path (46 ∷ 47 ∷ []) long_path ≡ ok ((46 ∷ 47 ∷ []) ++ take kept long_path))
    × (kept < length long_path)
join_path-cuts_example =
    let n = length-replicate {A = ℕ} 3000 97 in
    join_path-cuts (46 ∷ 47 ∷ []) long_path (omega (arith, n)) (omega (arith, n))

abbrev all_dirs : Bytes → Bool
all_dirs s = true

abbrev full_path : Bytes
full_path = replicate 4093 97

plain : ends_slash ((46 ∷ 47 ∷ []) ++ full_path) ≡ false
unfolding ends_slash last_char
plain = refl

append_referer-overflow_example : append_referer all_dirs (46 ∷ 47 ∷ []) full_path ≡ fault
append_referer-overflow_example =
    append_referer-overflow all_dirs (46 ∷ 47 ∷ []) full_path refl plain
      (omega (arith, length-replicate {A = ℕ} 4093 97))
