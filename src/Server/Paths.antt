-- ===== src/Server/Paths.antt =====
-- http_server/src/tor_http.c: the names of files that a request gives.
use recycle_bin.Prelude.{
  ℕ, zero, suc, ◌+◌, ◌-◌, ◌*◌, ◌≤◌, ◌<◌, ◌≡◌, refl, ap, Bool, true, false, [], ◌∷◌, ◌++◌, arith,
  ltb, leb, length, take, ok, fault,
}
use recycle_bin.Prelude.Chars.{Bytes}
use recycle_bin.Server.{max_url_size, ends_slash, append_referer}
use recycle_bin.Server.Answer.{join_path}

take-long : (n : ℕ) (s : Bytes) → length s ≤ n → take n s ≡ s
take-long zero [] h = refl
take-long zero (c ∷ s) h = absurd (omega arith)
take-long (suc n) [] h = refl
take-long (suc n) (c ∷ s) h = ap (λ t. c ∷ t) (take-long n s (omega arith))

pub join_path-whole :
    (fname path : Bytes)
    → length fname + 2 * length path < 4096
    → join_path fname path ≡ ok (fname ++ path)
unfolding join_path
join_path-whole fname path h =
    let room : leb (length fname + length path + 1) max_url_size ≡ true = ground (arith, h) in
    rw (room, take-long (max_url_size - length fname - length path - 1) path (omega (arith, h)))
      refl

-- A path for which the array has room once, but not twice, is put behind the name without its end.
pub join_path-cuts :
    (fname path : Bytes)
    → length fname + length path < 4096
    → 4096 ≤ length fname + 2 * length path
    → (kept : ℕ) × (join_path fname path ≡ ok (fname ++ take kept path)) × (kept < length path)
unfolding join_path
join_path-cuts fname path h k =
    let room : leb (length fname + length path + 1) max_url_size ≡ true = ground (arith, h) in
    (max_url_size - length fname - length path - 1, rw room refl, omega (arith, k))

-- A referer that just fits behind the name of a directory: the slash that is put behind it takes the place of the NUL, and the
-- NUL behind the slash is written past the end of the array.
pub append_referer-overflow :
    (is_dir : Bytes → Bool) (fname p : Bytes)
    → is_dir (fname ++ p) ≡ true
    → ends_slash (fname ++ p) ≡ false
    → length fname + length p ≡ 4095
    → append_referer is_dir fname p ≡ fault
unfolding append_referer
append_referer-overflow is_dir fname p dir plain h =
    let whole : take (max_url_size - length fname - 1) p ≡ p = take-long _ p (omega (arith, h)) in
    let fits : ltb (length p) (max_url_size - length fname) ≡ true = ground (arith, h) in
    let no_room : ltb (length fname + length p + 1) max_url_size ≡ false = ground (arith, h) in
    rw (whole, fits, dir, plain, no_room) refl
